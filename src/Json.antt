-- ===== src/Json.antt =====
-- `serde_json::Value`. A number is what serde_json keeps of it: an integer or an `f64`. The members of an
-- object are in the order of their keys.
use bgp_flowspec_receiver.Prelude.{
  ℕ, ◌≡◌, refl, arith, Bool, String, Option, none, some, str_eq, if◌then◌else◌,
}
use text.Mathlib.TextEquality.{eq_iff}
use Prim.Native.Nat.{Ordering}
use Prim.Native.String.{compare}
use bgp_flowspec_receiver.Session.Config.{Double}

pub data Number : Type 0 where
  natural : ℕ → Number
  negative : ℕ → Number
  double : Double → Number

mutual
  pub data Json : Type 0 where
    null : Json
    flag : Bool → Json
    number : Number → Json
    string : String → Json
    array : Elements → Json
    object : Members → Json

  pub data Elements : Type 0 where
    last : Elements
    element : Json → Elements → Elements

  pub data Members : Type 0 where
    end : Members
    member : String → Json → Members → Members

-- `map.get(key)`
unfoldable pub get_member : String → Members → Option Json
get_member key end = none
get_member key (member k v m) = if str_eq k key then some v else get_member key m

-- `map.insert(key, value)`: in front of the first greater key, in place of an equal one.
unfoldable pub insert_member : String → Json → Members → Members
insert_member key value end = member key value end
insert_member key value (member k v m) = elim (compare key k) [
  | Ordering.lt ↦ member key value (member k v m)
  | Ordering.eq ↦ member key value m
  | Ordering.gt ↦ member k v (insert_member key value m)
]

pub get-insert_member :
    (k j : String) (v : Json) (m : Members)
    → get_member j (insert_member k v m) ≡ (if str_eq k j then some v else get_member j m)
unfolding get_member insert_member
get-insert_member k j v end = refl
get-insert_member k j v (member i w m) =
    ground (arith, eq_iff k i, eq_iff k j, eq_iff i j, get-insert_member k j v m)
