-- ===== src/App/Flush.antt =====
-- `App::flush` of app.rs as a list of calls on files, each of which may fail. serde_json's text of a route is
-- the parameter `to_json`. The buffer between the writes and the file is left out: what is written
-- stands in the file, or, when a write fails, a part of it; `drain` is the buffer's own flush. Instants
-- are seconds.
pub mod Files
pub mod Document
pub mod Atomic
use Prim.Native.String
use Prim.Native.String.{◌++◌ as append}
use bgp_flowspec_receiver.Prelude.{
  ℕ, zero, suc, ◌-◌, Bool, true, false, ◌&&◌, ◌||◌, not, String, Option, none, some, List, [], ◌∷◌,
  ◌++◌, ltb, str_eq, length, decimal, format, if◌then◌else◌,
}
use bgp_flowspec_receiver.Prelude.Dict
use bgp_flowspec_receiver.Prelude.Dict.{Dict}
use bgp_flowspec_receiver.Rib.{Route, Data}
use bgp_flowspec_receiver.Rib.Rows.{rows}

-- Files by their paths.
abbrev pub Disk : Type 0
Disk = Dict String

pub data Action : Type 0 where
  create : String → Action
  write : String → String → Action
  drain : String → Action
  sync : String → Action
  rename : String → String → Action

-- How a call ends. A write that fails may have written as many characters.
pub data Outcome : Type 0 where
  done : Outcome
  failed : ℕ → Outcome

unfoldable pub first_chars : ℕ → String → String
first_chars zero s = ""
first_chars (suc n) String.[] = ""
first_chars (suc n) (String.◌∷◌ c s) = String.◌∷◌ c (first_chars n s)

abbrev pub contents : String → Disk → String
contents path disk = elim (Dict.get path disk) [ none ↦ "" | some text ↦ text ]

unfoldable pub perform : Action → Disk → Disk
unfolding Dict.insert Dict.remove
perform (create path) disk = Dict.insert path "" disk
perform (write path text) disk = Dict.insert path (append (contents path disk) text) disk
perform (drain path) disk = disk
perform (sync path) disk = disk
perform (rename from to) disk = Dict.insert to (contents from disk) (Dict.remove from disk)

-- What a call that fails leaves.
unfoldable pub spoil : ℕ → Action → Disk → Disk
unfolding perform first_chars
spoil n (write path text) disk = perform (write path (first_chars n text)) disk
spoil n (create path) disk = disk
spoil n (drain path) disk = disk
spoil n (sync path) disk = disk
spoil n (rename from to) disk = disk

-- The calls in order, up to the first that fails, which `?` returns.
unfoldable pub execute : (ℕ → Outcome) → ℕ → List Action → Disk → Disk × Bool
unfolding perform spoil
execute outcome i [] disk = (disk, true)
execute outcome i (a ∷ actions) disk = elim (outcome i) [
  | done ↦ execute outcome (suc i) actions (perform a disk)
  | failed n ↦ (spoil n a disk, false)
]

-- `data.dirty.is_none_or(|t| t.elapsed() < Duration::from_secs(5))`
abbrev pub rests : ℕ → Option ℕ → Bool
rests now none = true
rests now (some t) = ltb (now - t) 5

abbrev pub tmp_path : String → String
tmp_path path = append path ".tmp"

-- The disk, the data, and whether `flush` returned `Ok`.
pub record Flushed : Type 0 where
  pub disk : Disk
  pub rib : Data
  pub ok : Bool

abbrev pub finish : Data → Disk × Bool → Flushed
finish d (disk, true) = record { disk = disk; rib = record d { dirty = none }; ok = true }
finish d (disk, false) = record { disk = disk; rib = d; ok = false }

module _ (to_json : Route → String) where
  -- The loop over the routes, a comma before all but the first.
  unfoldable pub write_rows : String → Bool → List Route → List Action
  write_rows tmp first [] = []
  write_rows tmp first (r ∷ rs) =
      (if first then [] else write tmp "," ∷ [])
      ++ (write tmp (to_json r) ∷ write_rows tmp false rs)

  unfoldable pub saving : String → List Route → List Action
  unfolding write_rows decimal
  saving path routes =
      let tmp = tmp_path path in
      create tmp
      ∷ write tmp (format ("{\"count\":" ∷ decimal (length routes) ∷ ",\"routes\":[" ∷ []))
      ∷ (write_rows tmp true routes
          ++ (write tmp "]}" ∷ drain tmp ∷ sync tmp ∷ rename tmp path ∷ []))

  unfoldable pub flush : Bool → Option String → (ℕ → Outcome) → ℕ → Data → Disk → Flushed
  unfolding execute saving
  flush force output outcome now d disk =
      if not force && rests now d.dirty
      then record { disk = disk; rib = d; ok = true }
      else elim output [
        | none ↦ record { disk = disk; rib = d; ok = true }
        | some path ↦ finish d (execute outcome 0 (saving path (rows d.routes)) disk)
      ]
