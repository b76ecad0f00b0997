-- ===== src/Session/Value/Keys.antt =====
-- What the changes of `from_value` to its object do to a key.
use text.Mathlib.TextEquality.{eq_iff}
use bgp_flowspec_receiver.Prelude.{
  ◌≡◌, refl, ap, ◌∙◌, Bool, false, ◌&&◌, ◌||◌, String, Option, none, some, List, [], ◌∷◌, str_eq,
  if◌then◌else◌, Bool-cases, inl, inr, arith,
}
use bgp_flowspec_receiver.Json.{Json, null, Members, get_member, insert_member, get-insert_member}
use bgp_flowspec_receiver.Session.Value.{or_insert, add_defaults, is_blank, blank_output}

-- The default of a key.
abbrev pub default_of : String → List (String × Json) → Option Json
default_of k [] = none
default_of k ((key, default) ∷ ds) = if str_eq key k then some default else default_of k ds

abbrev pub or_else : Option Json → Option Json → Option Json
or_else none d = d
or_else (some v) d = some v

abbrev pub is_in : String → List String → Bool
is_in k [] = false
is_in k (key ∷ keys) = str_eq key k || is_in k keys

pub or_else-none : (v : Option Json) → v ≡ or_else v none
or_else-none none = refl
or_else-none (some v) = refl

pub inserted-at :
    (key k : String) (default : Json) (m : Members) (v : Option Json)
    → get_member key m ≡ v
    → get_member k (elim v [ none ↦ insert_member key default m | some v ↦ m ])
      ≡ or_else (get_member k m) (if str_eq key k then some default else none)
inserted-at key k default m none e =
    get-insert_member key k default m ∙ ground (arith, eq_iff key k, or_else-none (get_member k m))
inserted-at key k default m (some v) e = ground (arith, eq_iff key k, or_else-none (get_member k m))

pub get-or_insert :
    (key k : String) (default : Json) (m : Members)
    → get_member k (or_insert key default m)
      ≡ or_else (get_member k m) (if str_eq key k then some default else none)
get-or_insert key k default m = inserted-at key k default m (get_member key m) refl

pub get-add_defaults :
    (k : String) (ds : List (String × Json)) (m : Members)
    → get_member k (add_defaults ds m) ≡ or_else (get_member k m) (default_of k ds)
unfolding add_defaults
get-add_defaults k [] m = or_else-none (get_member k m)
get-add_defaults k ((key, default) ∷ ds) m =
    get-add_defaults k ds (or_insert key default m)
    ∙ ap (λ v. or_else v (default_of k ds)) (get-or_insert key k default m)
    ∙ ground arith

pub get-blank_output :
    (k : String) (m : Members)
    → get_member k (blank_output m)
      ≡ (if str_eq "json_output" k && is_blank (get_member k m) then some null else get_member k m)
unfolding blank_output
get-blank_output k m = elim (Bool-cases (is_blank (get_member "json_output" m))) [
  | inl e ↦ ground (arith, eq_iff "json_output" k, get-insert_member "json_output" k null m)
  | inr e ↦ ground (arith, eq_iff "json_output" k)
]
