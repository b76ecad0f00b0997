-- ===== src/Prelude/SeqMap.antt =====
-- Maps with numeric keys, `BTreeMap<u64, _>`: association lists in the order of the keys.
use Prim.Native.Nat.{ℕ, compare, Ordering}
use mathlib.Core.Option.{Option, none, some}
use mathlib.Core.List.{List, [], ◌∷◌}
use bgp_flowspec_receiver.Prelude.Tests.{◌==◌, if◌then◌else◌}

abbrev pub SeqMap {ℓ} : Type ℓ → Type ℓ
SeqMap V = List (ℕ × V)

module _ {ℓ} {V : Type ℓ} where
  unfoldable pub get : ℕ → SeqMap V → Option V
  get k [] = none
  get k ((j, v) ∷ m) = if j == k then some v else get k m

  unfoldable pub insert : ℕ → V → SeqMap V → SeqMap V
  insert k v [] = (k, v) ∷ []
  insert k v ((j, w) ∷ m) = elim (compare k j) [
    | Ordering.lt ↦ (k, v) ∷ (j, w) ∷ m
    | Ordering.eq ↦ (k, v) ∷ m
    | Ordering.gt ↦ (j, w) ∷ insert k v m
  ]

  unfoldable pub remove : ℕ → SeqMap V → SeqMap V
  remove k [] = []
  remove k ((j, v) ∷ m) = let rest = remove k m in if j == k then rest else (j, v) ∷ rest
