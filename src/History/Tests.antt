-- ===== src/History/Tests.antt =====
-- The theorem about the history at an event behind another.
use bgp_flowspec_receiver.Prelude.{ℕ, ◌<◌, ◌≡◌, ◌⊎◌, refl, some, List, [], ◌∷◌, ◌++◌, length, arith}
use bgp_flowspec_receiver.History.{History, history_bytes, history_events, emit}
use bgp_flowspec_receiver.History.Bounds.{Bounded, Kept, emit-Bounded}
use bgp_flowspec_receiver.History.Window.{
  Call, emits, clears, run_calls, noted_all, Window, run_calls-Window,
}

abbrev brackets : List ℕ
brackets = 91 ∷ 93 ∷ []

abbrev one_event : History
one_event = record { events = (123 ∷ 125 ∷ []) ∷ []; bytes = 2 }

one_event-Bounded : Bounded one_event
unfolding history_events history_bytes
one_event-Bounded = record { counted = refl; few = omega arith; small = omega arith }

emit-Bounded_example :
    (after : History) × (emit brackets one_event ≡ some after)
    × Bounded after
    × (((history_bytes < length brackets) × (after ≡ one_event))
        ⊎ ((kept : History) × Kept (length brackets) one_event.events kept
            × (after.events ≡ kept.events ++ brackets ∷ [])))
emit-Bounded_example = emit-Bounded brackets one_event one_event-Bounded

abbrev braces : List ℕ
braces = 123 ∷ 125 ∷ []

-- Two events behind a clearing, one before it.
abbrev calls : List Call
calls = emits braces ∷ clears ∷ emits brackets ∷ emits braces ∷ []

run_calls-Window_example :
    (after : History) × (run_calls calls (record { events = []; bytes = 0 }) ≡ some after)
    × Window (noted_all calls []) after
run_calls-Window_example = run_calls-Window calls

two_events : noted_all calls [] ≡ brackets ∷ braces ∷ []
unfolding history_bytes
two_events = refl
