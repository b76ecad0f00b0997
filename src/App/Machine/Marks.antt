-- ===== src/App/Machine/Marks.antt =====
-- The labels by which the session's task ends, when the handler of `stop` waits for it.
use mathlib.Core.Option
use mathlib.Core.Path.{subst}
use bgp_flowspec_receiver.Prelude.{
  ℕ, ◌≡◌, sym, ap, Bool, true, false, String, Option, none, some, List, if◌then◌else◌,
}
use bgp_flowspec_receiver.Rib.{Route}
use bgp_flowspec_receiver.Rib.Apply.{Identity}
use bgp_flowspec_receiver.Session.Config.{Config}
use bgp_flowspec_receiver.Json.{Members}
use bgp_flowspec_receiver.App.State.{Io, Note}
use bgp_flowspec_receiver.App.Machine.{
  Run, connecting, up, dropped, cleared, leaving, to_stop, session_wait, World, Label, interrupts,
  clears, idles, ends, told, session_act,
}
use bgp_flowspec_receiver.App.Machine.Kept.{Yields, yields}

-- A result, if there is one, has the property.
abbrev pub If : {A : Type 0} → (A → Type 0) → Option A → Type 0
If P none = Unit {0}
If P (some a) = P a

pub If-map :
    {A B : Type 0} (P : B → Type 0) (f : A → B) (m : Option A)
    → ((a : A) → P (f a))
    → If P (Option.map f m)
If-map P f none k = tt
If-map P f (some a) k = k a

-- The result is there by the one, and has the property by the other.
pub both :
    {A : Type 0} {P Q : A → Type 0} {m : Option A} → Yields P m → If Q m → Yields (λ a. P a × Q a) m
both (yields a p) q = yields a (p, q)

pub if-true :
    {A : Type 0} (P : A → Type 0) (b : Bool) (x y : A) → b ≡ true → P x → P (if b then x else y)
if-true P true x y e p = p
if-true P false x y e p = cc

-- How far the session's task has come: it has heard of the stop, its routes are cleared, its state is IDLE,
-- it has left its loop, and it has ended.
pub data Mark : Type 0 where
  asked heard emptied idle out over : Mark

abbrev pub At : Mark → Option (Config × Run) → Type 0
At mark none = Unit {0}
At asked (some (c, run)) = Unit {0}
At heard (some (c, connecting)) = ⊥
At heard (some (c, up k)) = ⊥
At heard (some (c, run)) = Unit {0}
At emptied (some (c, cleared e)) = Unit {0}
At emptied (some (c, leaving)) = Unit {0}
At emptied (some (c, run)) = ⊥
At idle (some (c, connecting)) = Unit {0}
At idle (some (c, leaving)) = Unit {0}
At idle (some (c, run)) = ⊥
At out (some (c, leaving)) = Unit {0}
At out (some (c, run)) = ⊥
At over (some (c, run)) = ⊥

-- The handler waits for the session's task, which has come this far.
abbrev pub Stopping : Mark → World → Type 0
Stopping mark w = (w.stage ≡ session_wait to_stop) × At mark w.session

module _ (digest : String → String → String → Identity → String) (time : ℕ → String)
    (text_of : ℕ → Note → List ℕ) (to_json : Route → String) (config_json : Config → Members) where
  abbrev session_label : Label → Option (Config × Run) → World → Option World
  session_label label s w = elim s [
    | none ↦ some w
    | some (config, run) ↦ session_act digest time text_of to_json config_json label config run w
  ]

  -- The label does nothing.
  pub still :
      (mark mark' : Mark) (w : World) (s : Option (Config × Run))
      → w.session ≡ s
      → w.stage ≡ session_wait to_stop
      → At mark' s
      → Stopping mark' w
  still mark mark' w s e st a = (st, subst (At mark') (sym e) a)

  pub told-stage : (w : World) → w.stage ≡ session_wait to_stop → told w.stage ≡ true
  told-stage w e = ap told e

  pub interrupts-heard :
      (w : World) (s : Option (Config × Run))
      → w.session ≡ s
      → w.stage ≡ session_wait to_stop
      → If (Stopping heard) (session_label interrupts s w)
  interrupts-heard w none e st = still asked heard w none e st tt
  interrupts-heard w (some (c, connecting)) e st =
      if-true (Stopping heard) (told w.stage) _ w (told-stage w st) (st, tt)
  interrupts-heard w (some (c, up k)) e st =
      if-true (Stopping heard) (told w.stage) _ w (told-stage w st) (st, tt)
  interrupts-heard w (some (c, run)) e st = still asked heard w (some (c, run)) e st tt

  pub clears-emptied :
      (now : ℕ) (w : World) (s : Option (Config × Run))
      → w.session ≡ s
      → w.stage ≡ session_wait to_stop
      → At heard s
      → If (Stopping emptied) (session_label (clears now) s w)
  clears-emptied now w none e st a = still heard emptied w none e st tt
  clears-emptied now w (some (c, dropped x)) e st a = (st, tt)
  clears-emptied now w (some (c, cleared x)) e st a =
      still heard emptied w (some (c, cleared x)) e st tt
  clears-emptied now w (some (c, leaving)) e st a =
      still heard emptied w (some (c, leaving)) e st tt
  clears-emptied now w (some (c, connecting)) e st a = absurd a
  clears-emptied now w (some (c, up k)) e st a = absurd a

  pub idles-idle :
      (now : ℕ) (w : World) (s : Option (Config × Run))
      → w.session ≡ s
      → w.stage ≡ session_wait to_stop
      → At emptied s
      → If (Stopping idle) (session_label (idles now) s w)
  idles-idle now w none e st a = still emptied idle w none e st tt
  idles-idle now w (some (c, cleared none)) e st a = If-map (Stopping idle) _ _ (λ app. (st, tt))
  idles-idle now w (some (c, cleared (some x))) e st a =
      If-map (Stopping idle) _ _ (λ app. (st, tt))
  idles-idle now w (some (c, leaving)) e st a = still emptied idle w (some (c, leaving)) e st tt
  idles-idle now w (some (c, dropped x)) e st a = absurd a
  idles-idle now w (some (c, connecting)) e st a = absurd a
  idles-idle now w (some (c, up k)) e st a = absurd a

  pub interrupts-out :
      (w : World) (s : Option (Config × Run))
      → w.session ≡ s
      → w.stage ≡ session_wait to_stop
      → At idle s
      → If (Stopping out) (session_label interrupts s w)
  interrupts-out w none e st a = still idle out w none e st tt
  interrupts-out w (some (c, connecting)) e st a =
      if-true (Stopping out) (told w.stage) _ w (told-stage w st) (st, tt)
  interrupts-out w (some (c, leaving)) e st a = still idle out w (some (c, leaving)) e st tt
  interrupts-out w (some (c, cleared x)) e st a = absurd a
  interrupts-out w (some (c, dropped x)) e st a = absurd a
  interrupts-out w (some (c, up k)) e st a = absurd a

  pub ends-over :
      (io : Io) (w : World) (s : Option (Config × Run))
      → w.session ≡ s
      → w.stage ≡ session_wait to_stop
      → At out s
      → If (Stopping over) (session_label (ends io) s w)
  ends-over io w none e st a = still out over w none e st tt
  ends-over io w (some (c, leaving)) e st a = If-map (Stopping over) _ _ (λ app. (st, tt))
  ends-over io w (some (c, connecting)) e st a = absurd a
  ends-over io w (some (c, cleared x)) e st a = absurd a
  ends-over io w (some (c, dropped x)) e st a = absurd a
  ends-over io w (some (c, up k)) e st a = absurd a
