-- ===== src/App/Flush/Files.antt =====
-- The calls on files of `flush`, one at a time: what they leave in the file that they are on, and in others.
use Prim.Native.String.{◌++◌ as append}
use text.Mathlib.TextEquality.{eq_iff}
use bgp_flowspec_receiver.Prelude.{
  ℕ, suc, ◌≡◌, ◌≢◌, ◌⊎◌, inl, inr, refl, ap, false, String, some, List, [], ◌∷◌, str_eq, arith,
  if◌then◌else◌,
}
use bgp_flowspec_receiver.Prelude.Dict
use bgp_flowspec_receiver.Prelude.Dict.{get-insert, get-remove}
use bgp_flowspec_receiver.App.Flush.{
  Disk, Action, create, write, drain, sync, rename, Outcome, done, failed, first_chars, contents,
  perform, spoil, execute,
}

-- The call is one on this file, and no renaming.
abbrev pub On : String → Action → Type 0
On tmp (create path) = path ≡ tmp
On tmp (write path text) = path ≡ tmp
On tmp (drain path) = path ≡ tmp
On tmp (sync path) = path ≡ tmp
On tmp (rename from to) = ⊥

-- What stands in a file after calls on it.
abbrev pub after : List Action → String → String
after [] text = text
after (create path ∷ actions) text = after actions ""
after (write path more ∷ actions) text = after actions (append text more)
after (_ ∷ actions) text = after actions text

pub get-perform :
    (tmp q : String) (a : Action) (disk : Disk)
    → On tmp a
    → q ≢ tmp
    → Dict.get q (perform a disk) ≡ Dict.get q disk
unfolding perform
get-perform tmp q (create path) disk on ne =
    ground (arith, get-insert path q "" disk, eq_iff path q)
get-perform tmp q (write path text) disk on ne =
    ground (arith, get-insert path q (append (contents path disk) text) disk, eq_iff path q)
get-perform tmp q (drain path) disk on ne = refl
get-perform tmp q (sync path) disk on ne = refl
get-perform tmp q (rename from to) disk on ne = elim on [ ]

pub get-spoil :
    (tmp q : String) (n : ℕ) (a : Action) (disk : Disk)
    → On tmp a
    → q ≢ tmp
    → Dict.get q (spoil n a disk) ≡ Dict.get q disk
unfolding spoil
get-spoil tmp q n (create path) disk on ne = refl
get-spoil tmp q n (write path text) disk on ne =
    get-perform tmp q (write path (first_chars n text)) disk on ne
get-spoil tmp q n (drain path) disk on ne = refl
get-spoil tmp q n (sync path) disk on ne = refl
get-spoil tmp q n (rename from to) disk on ne = elim on [ ]

pub contents-create :
    (path : String) (disk : Disk) → contents path (perform (create path) disk) ≡ ""
unfolding perform
contents-create path disk = ground (arith, get-insert path path "" disk, eq_iff path path)

pub contents-write :
    (path text : String) (disk : Disk)
    → contents path (perform (write path text) disk) ≡ append (contents path disk) text
unfolding perform
contents-write path text disk =
    ground (arith, get-insert path path (append (contents path disk) text) disk, eq_iff path path)

pub after-perform :
    (tmp : String) (a : Action) (actions : List Action) (disk : Disk)
    → On tmp a
    → after actions (contents tmp (perform a disk)) ≡ after (a ∷ actions) (contents tmp disk)
unfolding perform
after-perform tmp (create path) actions disk on =
    rw (← on) (ap (after actions) (contents-create path disk))
after-perform tmp (write path text) actions disk on =
    rw (← on) (ap (after actions) (contents-write path text disk))
after-perform tmp (drain path) actions disk on = refl
after-perform tmp (sync path) actions disk on = refl
after-perform tmp (rename from to) actions disk on = elim on [ ]

pub get-rename :
    (tmp path q : String) (disk : Disk)
    → q ≢ tmp
    → Dict.get q (perform (rename tmp path) disk)
      ≡ (if str_eq path q then some (contents tmp disk) else Dict.get q disk)
unfolding perform
get-rename tmp path q disk ne = ground (
  arith,
  get-insert path q (contents tmp disk) (Dict.remove tmp disk),
  get-remove tmp q disk,
  eq_iff tmp q,
)

pub Outcome-cases : (o : Outcome) → (o ≡ done) ⊎ ((n : ℕ) × (o ≡ failed n))
Outcome-cases done = inl refl
Outcome-cases (failed n) = inr (n, refl)

pub execute-done :
    (outcome : ℕ → Outcome) (i : ℕ) (a : Action) (actions : List Action) (disk : Disk)
    → outcome i ≡ done
    → execute outcome (suc i) actions (perform a disk) ≡ execute outcome i (a ∷ actions) disk
unfolding execute
execute-done outcome i a actions disk e = rw (execute, e) refl

pub execute-failed :
    (outcome : ℕ → Outcome) (i n : ℕ) (a : Action) (actions : List Action) (disk : Disk)
    → outcome i ≡ failed n
    → (spoil n a disk, false) ≡ execute outcome i (a ∷ actions) disk
unfolding execute
execute-failed outcome i n a actions disk e = rw (execute, e) refl

pub spoil-rename :
    (tmp path : String) (n : ℕ) (disk : Disk) (q : String)
    → q ≢ tmp
    → Dict.get q (spoil n (rename tmp path) disk) ≡ Dict.get q disk
unfolding spoil
spoil-rename tmp path n disk q ne = refl
