-- ===== src/App/Streams.antt =====
-- The streams of app.rs: `export` with the body of `export_body`, and `events`. The channel between the
-- producer of a body and the body passes the chunks on in order; the clock says after how many of them
-- the deadline passes. serde_json's texts are parameters, and so is `map_error`, the answer's body.
pub mod Export
pub mod Replay
mod Tests
use bgp_flowspec_receiver.Prelude.{
  ℕ, zero, suc, ◌-◌, Bool, true, false, String, Option, none, some, List, [], ◌∷◌, ◌++◌, map, take,
  length, ltb, format, if◌then◌else◌,
}
use bgp_flowspec_receiver.Wire.Result.{Result, ok, err, fault}
use bgp_flowspec_receiver.Rib.{Route}
use bgp_flowspec_receiver.View.Page.{Page, family, of_family}

-- What a body yields.
pub data Item : Type 0 where
  chunk : String → Item
  failure : String → Item

-- The answer of a handler: a status with its message, or a body.
pub data Response : Type 0 where
  refused : ℕ → String → Response
  body : List Item → Response

-- The permits that are left, of two.
pub record Exports : Type 0 where
  pub permits : ℕ
  pub running : ℕ

unfoldable pub new_exports : Exports
new_exports = record { permits = 2; running = 0 }

module _ (to_json : Route → String) where
  -- The loop over the rows, without a comma before the first.
  unfoldable pub row_chunks : Bool → List Route → List String
  row_chunks first [] = []
  row_chunks first (r ∷ rs) =
      format ((if first then "" else ",") ∷ to_json r ∷ []) ∷ row_chunks false rs

  -- What the producer sends.
  unfoldable pub chunks : List Route → List String
  unfolding row_chunks
  chunks rows = "{\"routes\":[" ∷ (row_chunks true rows ++ "]}" ∷ [])

  abbrev pub timed_out : Item
  timed_out = failure "Export interrupted or timed out"

  -- The body, when the deadline passes behind `deadline` chunks.
  unfoldable pub export_body : Option ℕ → List Route → List Item
  unfolding chunks
  export_body none rows = map chunk (chunks rows)
  export_body (some n) rows =
      if ltb n (length (chunks rows))
      then map chunk (take n (chunks rows)) ++ timed_out ∷ []
      else map chunk (chunks rows)

  -- `export` on the rows of the table, which takes a permit.
  unfoldable pub export : Page → Option ℕ → List Route → Exports → Exports × Response
  unfolding family export_body
  export q deadline rows e = elim (family q) [
    | err m ↦ (e, refused 400 m)
    | fault f ↦ (e, refused 500 "")
    | ok f ↦ elim e.permits [
      | zero ↦ (e, refused 429 "Two exports are already running")
      | suc n ↦ (
        record { permits = n; running = suc e.running },
        body (export_body deadline (of_family f rows)),
      )
    ]
  ]

-- A producer ends, and its permit is free again.
unfoldable pub end_export : Exports → Exports
end_export e = elim e.running [ zero ↦ e | suc n ↦ record { permits = suc e.permits; running = n } ]

-- `format!("{},\"replayed\":true}}", &event[..event.len() - 1])` on the bytes of an event. `none` is a panic.
abbrev pub replayed : List ℕ
replayed =
    b',' ∷ b'"' ∷ b'r' ∷ b'e' ∷ b'p' ∷ b'l' ∷ b'a' ∷ b'y' ∷ b'e' ∷ b'd' ∷ b'"' ∷ b':' ∷ b't' ∷ b'r'
    ∷ b'u' ∷ b'e' ∷ b'}' ∷ []

unfoldable pub replay : List ℕ → Option (List ℕ)
replay [] = none
replay (b ∷ bytes) = some (take (length bytes) (b ∷ bytes) ++ replayed)

-- What the receiver of the broadcast channel gives, a new snapshot with a gap, or the end.
pub data Received : Type 0 where
  event : List ℕ → Received
  lagged : List ℕ → Received
  closed : Received

unfoldable pub live : List Received → List (List ℕ)
live [] = []
live (event e ∷ rs) = e ∷ live rs
live (lagged snapshot ∷ rs) = snapshot ∷ live rs
live (closed ∷ rs) = []

unfoldable pub replay_all : List (List ℕ) → Option (List (List ℕ))
unfolding replay
replay_all [] = some []
replay_all (e ∷ es) = elim (replay e) [
  | none ↦ none
  | some r ↦ elim (replay_all es) [ none ↦ none | some rs ↦ some (r ∷ rs) ]
]

-- `events`: the snapshot, the history at the time of the subscription, and what comes then.
unfoldable pub events : List ℕ → List (List ℕ) → List Received → Option (List (List ℕ))
unfolding replay_all live
events snapshot history received = elim (replay_all history) [
  | none ↦ none
  | some replays ↦ some (snapshot ∷ (replays ++ live received))
]
