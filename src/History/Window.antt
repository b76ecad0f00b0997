-- ===== src/History/Window.antt =====
-- The history beside everything that `emit` has been given since `clear_history`.
use mathlib.Core.Path.{subst}
use bgp_flowspec_receiver.Prelude.{
  ℕ, ◌+◌, ◌-◌, ◌≤◌, ◌<◌, ◌≡◌, inl, inr, refl, sym, ap, ◌∙◌, Bool, true, false, some, Option, List,
  [], ◌∷◌, ◌++◌, length, leb, ltb, drop, drop-beyond, drop-drop, drop-append_front, arith,
  if◌then◌else◌, length-append, length-drop, Bool-cases,
}
use bgp_flowspec_receiver.Rib.{◌>>=◌}
use bgp_flowspec_receiver.History.{
  History, history_events, history_bytes, is_full, emit, clear_history,
}
use bgp_flowspec_receiver.History.Bounds.{
  Bounded, Kept, total, total-append, empty_fits, emit-Bounded,
}

pub data Call : Type 0 where
  emits : List ℕ → Call
  clears : Call

abbrev pub call : Call → History → Option History
call (emits event) h = emit event h
call clears h = some (clear_history h)

unfoldable pub run_calls : List Call → History → Option History
run_calls [] h = some h
run_calls (c ∷ calls) h = do h ← call c h; run_calls calls h

-- The events since the last `clear_history` that may be replayed: those within the byte bound.
abbrev pub noted : Call → List (List ℕ) → List (List ℕ)
noted clears log = []
noted (emits event) log = if leb (length event) history_bytes then log ++ event ∷ [] else log

abbrev pub noted_all : List Call → List (List ℕ) → List (List ℕ)
noted_all [] log = log
noted_all (c ∷ calls) log = noted_all calls (noted c log)

-- Within both bounds.
abbrev pub Fits : List (List ℕ) → Type 0
Fits events = (length events ≤ history_events) × (total events ≤ history_bytes)

-- The history is the longest end of the log that fits.
pub record Window (log : List (List ℕ)) (h : History) : Type 0 where
  pub dropped : ℕ
  pub events : h.events ≡ drop dropped log
  pub fits : Fits h.events
  pub longest : (k : ℕ) → k < dropped → ¬ Fits (drop k log)
  pub counted : h.bytes ≡ total h.events

nothing-Fits : Fits []
unfolding history_events history_bytes
nothing-Fits = (omega arith, omega arith)

-- Nothing is dropped in vain, so no more than there is.
within :
    (count : ℕ) (log : List (List ℕ))
    → ((k : ℕ) → k < count → ¬ Fits (drop k log))
    → count ≤ length log
within count log longest = elim (Bool-cases (leb count (length log))) [
  | inl y ↦ ground (arith, y)
  | inr n ↦
      let past = longest (length log) (ground (arith, n)) in
      absurd (past (subst Fits (sym (drop-beyond (length log) log (omega arith))) nothing-Fits))
]

-- A list that fits with an event behind it fits without.
shorter-Fits : (events : List (List ℕ)) (e : List ℕ) → Fits (events ++ e ∷ []) → Fits events
shorter-Fits events e f = (
  omega (arith, f.0, length-append events (e ∷ [])),
  omega (arith, f.1, total-append events (e ∷ [])),
)

full-Fits :
    (events : List (List ℕ)) (e : List ℕ)
    → is_full (length e) (record { events = events; bytes = total events }) ≡ true
    → ¬ Fits (events ++ e ∷ [])
unfolding is_full
full-Fits events e full f =
    ground (arith, full, f.0, f.1, length-append events (e ∷ []), total-append events (e ∷ []))

room-Fits :
    (h : History) (e : List ℕ)
    → h.bytes ≡ total h.events
    → is_full (length e) h ≡ false
    → Fits (h.events ++ e ∷ [])
unfolding is_full
room-Fits h e counted room = (
  ground (arith, room, length-append h.events (e ∷ [])),
  ground (arith, room, counted, total-append h.events (e ∷ [])),
)

-- The loop drops no more events than there are.
loop_within :
    (e : List ℕ) (events : List (List ℕ)) (kept : History) (k : Kept (length e) events kept)
    → length e ≤ history_bytes
    → k.dropped ≤ length events
loop_within e events kept k small = elim (Bool-cases (leb k.dropped (length events))) [
  | inl y ↦ ground (arith, y)
  | inr n ↦
      let full = k.least (length events) (ground (arith, n)) in
      let none_left : drop (length events) events ≡ [] =
        drop-beyond (length events) events (omega arith) in
      let still : is_full (length e) (record { events = []; bytes = 0 }) ≡ true =
        subst (λ es. is_full (length e) (record { events = es; bytes = total es }) ≡ true) none_left
          full in
      absurd (ground (arith, still, empty_fits (length e) small))
]

-- With one event less dropped, the log and the new event do not fit.
longest_for :
    (log : List (List ℕ)) (e : List ℕ) (h kept : History) (w : Window log h)
    (k : Kept (length e) h.events kept)
    → w.dropped + k.dropped ≤ length log
    → (j : ℕ) → j < w.dropped + k.dropped
    → ¬ Fits (drop j (log ++ e ∷ []))
longest_for log e h kept w k small j lt f =
    let g : Fits (drop j log ++ e ∷ []) =
      subst Fits (drop-append_front j log (e ∷ []) (omega arith)) f in
    elim (Bool-cases (ltb j w.dropped)) [
      | inl y ↦ w.longest j (ground (arith, y)) (shorter-Fits (drop j log) e g)
      | inr n ↦
          let i = j - w.dropped in
          let same : drop i h.events ≡ drop j log =
            ap (drop i) w.events
            ∙ drop-drop w.dropped i log
            ∙ ap (λ k. drop k log) (ground (arith, n)) in
          full-Fits (drop j log) e
            (subst (λ es. is_full (length e) (record { events = es; bytes = total es }) ≡ true) same
              (k.least i (ground (arith, n))))
            g
    ]

-- An event is put behind what the loop of `emit` keeps.
extended :
    (log : List (List ℕ)) (e : List ℕ) (h kept after : History)
    → Window log h
    → Kept (length e) h.events kept
    → length e ≤ history_bytes
    → Bounded after
    → after.events ≡ kept.events ++ e ∷ []
    → Window (log ++ e ∷ []) after
extended log e h kept after w k small b is =
    let all = w.dropped + k.dropped in
    let left : kept.events ≡ drop all log =
      k.rest ∙ ap (drop k.dropped) w.events ∙ drop-drop w.dropped k.dropped log in
    let inside : all ≤ length log = omega (
      arith,
      within w.dropped log w.longest,
      loop_within e h.events kept k small,
      ap length w.events,
      length-drop w.dropped log,
    ) in
    record {
      dropped = all;
      events = is ∙ ap (λ es. es ++ e ∷ []) left ∙ sym (drop-append_front all log (e ∷ []) inside);
      fits = subst Fits (sym is) (room-Fits kept e k.counted k.fits);
      longest = longest_for log e h kept w k inside;
      counted = b.counted;
    }

Window-Bounded : (log : List (List ℕ)) (h : History) → Window log h → Bounded h
Window-Bounded log h w = record {
  counted = w.counted;
  few = w.fits.0;
  small = omega (arith, w.counted, w.fits.1);
}

start_Window : Window [] (record { events = []; bytes = 0 })
start_Window = record {
  dropped = 0;
  events = refl;
  fits = nothing-Fits;
  longest = λ k lt. absurd (omega arith);
  counted = refl;
}

-- An event that became part of the history is within the byte bound.
last_small :
    (e : List ℕ) (after : History) (events : List (List ℕ))
    → Bounded after
    → after.events ≡ events ++ e ∷ []
    → length e ≤ history_bytes
last_small e after events b is =
    omega (arith, b.counted, b.small, ap total is, total-append events (e ∷ []))

noted-Window :
    (log : List (List ℕ)) (e : List ℕ) (after : History) (small : Bool)
    → leb (length e) history_bytes ≡ small
    → Window (if small then log ++ e ∷ [] else log) after
    → Window (noted (emits e) log) after
noted-Window log e after small is w =
    subst (λ b. Window (if b then log ++ e ∷ [] else log) after) (sym is) w

call-Window :
    (c : Call) (log : List (List ℕ)) (h : History)
    → Window log h
    → (after : History) × (call c h ≡ some after) × Window (noted c log) after
unfolding clear_history
call-Window clears log h w = (clear_history h, refl, start_Window)
call-Window (emits e) log h w =
    let (after, done, b, kept) = emit-Bounded e h (Window-Bounded log h w) in
    (
      after,
      done,
      elim kept [
        | inl (large, same) ↦
            noted-Window log e after false (ground (arith, large)) (subst (Window log) (sym same) w)
        | inr (kept, k, is) ↦
            let small = last_small e after kept.events b is in
            noted-Window log e after true (ground (arith, small))
              (extended log e h kept after w k small b is)
      ],
    )

run-Window :
    (calls : List Call) (log : List (List ℕ)) (h : History)
    → Window log h
    → (after : History) × (run_calls calls h ≡ some after) × Window (noted_all calls log) after
unfolding run_calls
run-Window [] log h w = (h, refl, w)
run-Window (c ∷ calls) log h w =
    let (next, first, v) = call-Window c log h w in
    let (after, rest, last) = run-Window calls (noted c log) next v in (after, rw first rest, last)

-- Whatever sequence of `emit` and `clear_history` follows on the start of the program, none of them panics,
-- and what a new client has replayed is the longest end that fits into both bounds of the list of all
-- events since the last clearing, in order, in which only those above the byte bound are left out.
pub run_calls-Window :
    (calls : List Call)
    → (after : History) × (run_calls calls (record { events = []; bytes = 0 }) ≡ some after)
      × Window (noted_all calls []) after
run_calls-Window calls = run-Window calls [] (record { events = []; bytes = 0 }) start_Window
