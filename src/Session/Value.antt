-- ===== src/Session/Value.antt =====
-- `Config::from_value` of session.rs. serde_json's reading of a text is the parameter `parse`, and the
-- reading that serde derives for `Config` is the parameter `deserialize`.
pub mod Keys
pub mod Resolved
use bgp_flowspec_receiver.Prelude.{
  ℕ, ◌*◌, ◌^◌, Bool, true, false, String, Option, none, some, List, [], ◌∷◌, str_eq, format,
  if◌then◌else◌,
}
use bgp_flowspec_receiver.Wire.Result.{Result, ok, err, ◌>>=◌, ◌>>◌}
use bgp_flowspec_receiver.Session.Config.{Config, Double, finite, validate}
use bgp_flowspec_receiver.Json.{
  Number, natural, double, Json, null, flag, number, string, array, object, Members, get_member,
  insert_member,
}

abbrev pub defaults : List (String × Json)
defaults =
    ("hold_time", number (natural 90))
    ∷ ("reconnect_delay", number (natural 5))
    ∷ ("connect_timeout", number (double (finite false (5 * 2 ^ 1074))))
    ∷ ("active_retry_delay", number (double (finite false (2 ^ 1074))))
    ∷ ("listen_port", number (natural 179))
    ∷ []

abbrev pub numeric : List String
numeric =
    "local_as" ∷ "peer_as" ∷ "hold_time" ∷ "reconnect_delay" ∷ "connect_timeout"
    ∷ "active_retry_delay" ∷ "listen_port" ∷ []

-- `map.entry(key).or_insert(default)`
abbrev pub or_insert : String → Json → Members → Members
or_insert key default m = elim (get_member key m) [
  | none ↦ insert_member key default m
  | some v ↦ m
]

unfoldable pub add_defaults : List (String × Json) → Members → Members
unfolding get_member insert_member
add_defaults [] m = m
add_defaults ((key, default) ∷ ds) m = add_defaults ds (or_insert key default m)

-- `Value::as_str`
abbrev pub as_str : Option Json → Option String
as_str (some (string s)) = some s
as_str v = none

abbrev pub invalid : String → String
invalid key = format ("Invalid " ∷ key ∷ [])

-- `map.get("json_output") == Some(&json!(""))`
abbrev pub is_blank : Option Json → Bool
is_blank (some (string s)) = str_eq s ""
is_blank v = false

unfoldable pub blank_output : Members → Members
unfolding get_member insert_member
blank_output m =
    if is_blank (get_member "json_output" m) then insert_member "json_output" null m else m

module _ (parse : String → Option Json) where
  -- `serde_json::from_str(s).map_err(..)?`, and the test `is_number`
  abbrev pub read_number : String → String → Result String Json
  read_number key s = elim (parse s) [
    | none ↦ err (invalid key)
    | some v ↦ elim v [
      | number n ↦ ok (number n)
      | null ↦ err (invalid key)
      | flag b ↦ err (invalid key)
      | string t ↦ err (invalid key)
      | array e ↦ err (invalid key)
      | object o ↦ err (invalid key)
    ]
  ]

  -- One round of the loop over the numeric keys.
  abbrev pub convert : String → Option String → Members → Result String Members
  convert key none m = ok m
  convert key (some s) m = do v ← read_number key s; ok (insert_member key v m)

  unfoldable pub convert_all : List String → Members → Result String Members
  unfolding get_member insert_member
  convert_all [] m = ok m
  convert_all (key ∷ keys) m = do m ← convert key (as_str (get_member key m)) m; convert_all keys m

  -- What `from_value` does to the object.
  unfoldable pub prepare : Members → Result String Members
  unfolding add_defaults convert_all blank_output
  prepare m = do m ← convert_all numeric (add_defaults defaults m); ok (blank_output m)

  module _ (deserialize : Members → Result String Config) where
    unfoldable pub from_value : Json → Result String Config
    unfolding prepare validate
    from_value (object m) = do m ← prepare m; config ← deserialize m; validate config; ok config
    from_value v = err "Config must be an object"
