-- ===== src/History/Bounds.antt =====
-- The bounds of the history, over `evict` and `emit`.
use mathlib.Core.Path.{subst, sym}
use bgp_flowspec_receiver.Prelude.{
  ℕ, zero, suc, ◌+◌, ◌≤◌, ◌<◌, ◌≡◌, ◌⊎◌, inl, inr, refl, true, false, some, List, [], ◌∷◌, ◌++◌,
  length, leb, drop, arith, Bool-cases, length-append,
}
use bgp_flowspec_receiver.History.{
  History, history_events, history_bytes, is_full, less, evict, emit, clear_history,
}

abbrev pub total : List (List ℕ) → ℕ
total [] = 0
total (event ∷ events) = length event + total events

-- The counted bytes are those of the events, and both bounds hold.
pub record Bounded (h : History) : Type 0 where
  pub counted : h.bytes ≡ total h.events
  pub few : length h.events ≤ history_events
  pub small : h.bytes ≤ history_bytes

-- What the loop leaves of the events: all behind the first `k`, which fit beside `n` bytes, while one
-- more would not.
pub record Kept (n : ℕ) (events : List (List ℕ)) (h : History) : Type 0 where
  pub dropped : ℕ
  pub rest : h.events ≡ drop dropped events
  pub counted : h.bytes ≡ total h.events
  pub fits : is_full n h ≡ false
  pub least :
      (k : ℕ)
      → k < dropped
      → is_full n (record { events = drop k events; bytes = total (drop k events) }) ≡ true

stays :
    (n : ℕ) (events : List (List ℕ)) (bytes : ℕ)
    → bytes ≡ total events
    → is_full n (record { events = events; bytes = bytes }) ≡ false
    → Kept n events (record { events = events; bytes = bytes })
stays n events bytes e room = record {
  dropped = 0;
  rest = refl;
  counted = e;
  fits = room;
  least = λ k lt. absurd (omega arith);
}

pub empty_fits : (n : ℕ) → n ≤ history_bytes → is_full n (record { events = []; bytes = 0 }) ≡ false
unfolding is_full history_events
empty_fits n fit = ground arith

room_left :
    (n : ℕ) (h : History)
    → is_full n h ≡ false
    → (length h.events < history_events) × (h.bytes + n ≤ history_bytes)
unfolding is_full
room_left n h room = (ground arith, ground arith)

least_for :
    (n : ℕ) (oldest : List ℕ) (rest : List (List ℕ)) (dropped : ℕ)
    → is_full n (record { events = oldest ∷ rest; bytes = total (oldest ∷ rest) }) ≡ true
    → ((k : ℕ)
        → k < dropped
        → is_full n (record { events = drop k rest; bytes = total (drop k rest) }) ≡ true)
    → (k : ℕ) → k < suc dropped
    → is_full n (record { events = drop k (oldest ∷ rest); bytes = total (drop k (oldest ∷ rest)) })
      ≡ true
least_for n oldest rest dropped full least zero lt = full
least_for n oldest rest dropped full least (suc k) lt = least k (omega arith)

one_more :
    (n : ℕ) (oldest : List ℕ) (rest : List (List ℕ)) (h : History)
    → is_full n (record { events = oldest ∷ rest; bytes = total (oldest ∷ rest) }) ≡ true
    → Kept n rest h
    → Kept n (oldest ∷ rest) h
one_more n oldest rest h full k = record {
  dropped = suc k.dropped;
  rest = k.rest;
  counted = k.counted;
  fits = k.fits;
  least = least_for n oldest rest k.dropped full k.least;
}

evict-more :
    (n : ℕ) (oldest : List ℕ) (rest : List (List ℕ)) (bytes left : ℕ) (h : History)
    → is_full n (record { events = oldest ∷ rest; bytes = bytes }) ≡ true
    → less bytes (length oldest) ≡ some left
    → evict n rest left ≡ some h
    → evict n (oldest ∷ rest) bytes ≡ some h
unfolding evict
evict-more n oldest rest bytes left h full below done = rw (evict, full, below) done

evict-Kept :
    (n : ℕ) (events : List (List ℕ)) (bytes : ℕ)
    → bytes ≡ total events
    → n ≤ history_bytes
    → (h : History) × (evict n events bytes ≡ some h) × Kept n events h
unfolding evict
evict-Kept n [] bytes e fit =
    let room : is_full n (record { events = []; bytes = bytes }) ≡ false =
      subst (λ b. is_full n (record { events = []; bytes = b }) ≡ false) (sym e)
        (empty_fits n fit) in
    (record { events = []; bytes = bytes }, rw (room, evict) refl, stays n [] bytes e room)
evict-Kept n (oldest ∷ rest) bytes e fit =
    elim (Bool-cases (is_full n (record { events = oldest ∷ rest; bytes = bytes }))) [
      | inr room ↦ (
        record { events = oldest ∷ rest; bytes = bytes },
        rw (room, evict) refl,
        stays n (oldest ∷ rest) bytes e room,
      )
      | inl full ↦
          let (h, done, k) = evict-Kept n rest (total rest) refl fit in
          let left : less bytes (length oldest) ≡ some (total rest) = ground arith in
          (
            h,
            evict-more n oldest rest bytes (total rest) h full left done,
            one_more n oldest rest h
                (subst (λ b. is_full n (record { events = oldest ∷ rest; bytes = b }) ≡ true) e
                  full)
                k,
          )
    ]

pub total-append : (xs ys : List (List ℕ)) → total (xs ++ ys) ≡ total xs + total ys
total-append [] ys = omega arith
total-append (x ∷ xs) ys = omega (arith, total-append xs ys)

emit-large :
    (event : List ℕ) (h : History)
    → leb (length event) history_bytes ≡ false
    → emit event h ≡ some h
unfolding emit
emit-large event h large = rw (large, emit) refl

emit-fits :
    (event : List ℕ) (h kept : History)
    → leb (length event) history_bytes ≡ true
    → evict (length event) h.events h.bytes ≡ some kept
    → emit event h
      ≡ some (record { events = kept.events ++ event ∷ []; bytes = kept.bytes + length event })
unfolding emit
emit-fits event h kept fit done = rw (emit, fit, done) refl

-- On a history within its bounds, `emit` does not panic, and its loop ends. An event that is larger than
-- the byte bound changes nothing. Another is put behind the events that are left when the fewest
-- possible of the oldest are dropped. The history stays within its bounds: at most 2000 events and at
-- most 8 MiB, which `history_bytes` counts exactly.
pub emit-Bounded :
    (event : List ℕ) (h : History)
    → Bounded h
    → (after : History) × (emit event h ≡ some after)
      × Bounded after
      × (((history_bytes < length event) × (after ≡ h))
          ⊎ ((kept : History) × Kept (length event) h.events kept
              × (after.events ≡ kept.events ++ event ∷ [])))
emit-Bounded event h b = elim (Bool-cases (leb (length event) history_bytes)) [
  | inr large ↦ (h, emit-large event h large, b, inl (ground (arith, large), refl))
  | inl fit ↦
      let (kept, done, k) =
        evict-Kept (length event) h.events h.bytes b.counted (ground (arith, fit)) in
      let after : History = record {
        events = kept.events ++ event ∷ [];
        bytes = kept.bytes + length event;
      } in
      let (few, small) = room_left (length event) kept k.fits in
      (
        after,
        emit-fits event h kept fit done,
        record {
          counted = omega (arith, k.counted, total-append kept.events (event ∷ []));
          few = omega (arith, few, length-append kept.events (event ∷ []));
          small = small;
        },
        inr (kept, k, refl),
      )
]

-- `clear_history` leaves a history within its bounds.
pub clear_history-Bounded : (h : History) → Bounded (clear_history h)
unfolding clear_history
clear_history-Bounded h = record { counted = refl; few = omega arith; small = omega arith }
