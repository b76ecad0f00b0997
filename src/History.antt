-- ===== src/History.antt =====
-- The event history of app.rs: the part of `emit` behind the lock, and `clear_history`. An event is its
-- JSON text as bytes, which serde_json writes. `none` is a panic: an `unwrap` of `None`, or a `usize`
-- that would go below 0.
pub mod Bounds
pub mod Window
mod Tests
use bgp_flowspec_receiver.Prelude.{
  ℕ, ◌+◌, ◌-◌, ◌*◌, Bool, true, false, ◌||◌, not, Option, none, some, List, [], ◌∷◌, ◌++◌, length,
  ltb, leb,
}
use bgp_flowspec_receiver.Rib.{◌>>=◌}

-- HISTORY_EVENTS and HISTORY_BYTES
unfoldable pub history_events : ℕ
history_events = 2000

unfoldable pub history_bytes : ℕ
history_bytes = 8 * 1024 * 1024

pub record History : Type 0 where
  pub events : List (List ℕ)
  pub bytes : ℕ

-- The condition of the loop, for an event of `n` bytes.
unfoldable pub is_full : ℕ → History → Bool
unfolding history_events history_bytes
is_full n h = leb history_events (length h.events) || ltb history_bytes (h.bytes + n)

-- `data.history_bytes -= oldest.len()`
abbrev pub less : ℕ → ℕ → Option ℕ
less bytes n = elim (ltb bytes n) [ true ↦ none | false ↦ some (bytes - n) ]

-- The loop: the oldest event is the head.
unfoldable pub evict : ℕ → List (List ℕ) → ℕ → Option History
unfolding is_full
evict n [] bytes = elim (is_full n (record { events = []; bytes = bytes })) [
  | false ↦ some (record { events = []; bytes = bytes })
  | true ↦ none
]
evict n (oldest ∷ rest) bytes =
    elim (is_full n (record { events = oldest ∷ rest; bytes = bytes })) [
      | false ↦ some (record { events = oldest ∷ rest; bytes = bytes })
      | true ↦ less bytes (length oldest) >>= λ left. evict n rest left
    ]

unfoldable pub emit : List ℕ → History → Option History
unfolding evict history_bytes
emit event h = elim (leb (length event) history_bytes) [
  | false ↦ some h
  | true ↦ do
    h ← evict (length event) h.events h.bytes
    some (record { events = h.events ++ event ∷ []; bytes = h.bytes + length event })
]

unfoldable pub clear_history : History → History
clear_history h = record { events = []; bytes = 0 }
