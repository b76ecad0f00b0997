-- ===== src/Session/Value/Resolved.antt =====
-- The object that `from_value` hands to serde, beside what each of its keys is to be.
use mathlib.Core.Path.{subst}
use text.Mathlib.TextEquality.{eq_iff}
use bgp_flowspec_receiver.Prelude.{
  ◌≡◌, refl, sym, ap, ◌∙◌, All, Bool, true, false, ◌&&◌, String, Option, none, some, List, [], ◌∷◌,
  str_eq, if◌then◌else◌, Bool-cases, inl, inr, arith,
}
use bgp_flowspec_receiver.Wire.Result.{
  Result, ok, err, Ensures, returns, refuses, Ensures-bind, Ensures-weaken, Settles, ◌>>=◌,
}
use bgp_flowspec_receiver.Session.Config.{Config, validate, IsValid}
use bgp_flowspec_receiver.Session.Valid.{validate-Ensures}
use bgp_flowspec_receiver.Json.{
  Number, Json, null, flag, number, string, array, object, Members, get_member, insert_member,
  get-insert_member,
}
use bgp_flowspec_receiver.Session.Value.{
  defaults, numeric, add_defaults, as_str, invalid, is_blank, blank_output, convert, convert_all,
  prepare, from_value,
}
use bgp_flowspec_receiver.Session.Value.Keys.{
  default_of, or_else, is_in, get-add_defaults, get-blank_output,
}

module _ (parse : String → Option Json) where
  abbrev pub reread : Option String → Option Json → Option Json
  reread none v = v
  reread (some s) v = parse s

  -- What a key is to be, by what it is in the object that was given.
  abbrev pub resolve : String → Option Json → Option Json
  resolve k v =
      let v = or_else v (default_of k defaults) in
      let v = if is_in k numeric then reread (as_str v) v else v in
      if str_eq "json_output" k && is_blank v then some null else v

  -- A text has been replaced by the number that it is parsed as, and another value stays.
  abbrev pub Numbered : Option Json → Option Json → Type 0
  Numbered (some (string s)) w = (n : Number) × (parse s ≡ some (number n)) × (w ≡ some (number n))
  Numbered v w = w ≡ v

  Numbered-same : (v : Option Json) → as_str v ≡ none → Numbered v v
  Numbered-same (some (string s)) e = cc
  Numbered-same v e = refl

  Numbered-trans : (u v w : Option Json) → Numbered u v → Numbered v w → Numbered u w
  Numbered-trans (some (string s)) v w (n, p, e) q = (n, p, subst (λ v. Numbered v w) e q)
  Numbered-trans u v w e q = subst (λ v. Numbered v w) e q

  Numbered-no_text : (v w : Option Json) → Numbered v w → as_str w ≡ none
  Numbered-no_text (some (string s)) w (n, p, e) = ap as_str e
  Numbered-no_text none w e = ap as_str e
  Numbered-no_text (some null) w e = ap as_str e
  Numbered-no_text (some (flag b)) w e = ap as_str e
  Numbered-no_text (some (number n)) w e = ap as_str e
  Numbered-no_text (some (array es)) w e = ap as_str e
  Numbered-no_text (some (object o)) w e = ap as_str e

  text_is : (v : Option Json) (s : String) → as_str v ≡ some s → v ≡ some (string s)
  text_is (some (string t)) s e = cc
  text_is none s e = cc
  text_is (some null) s e = cc
  text_is (some (flag b)) s e = cc
  text_is (some (number n)) s e = cc
  text_is (some (array es)) s e = cc
  text_is (some (object o)) s e = cc

  number_of :
      (key s : String) (v : Option Json)
      → parse s ≡ v
      → Ensures
          (λ w. (n : Number) × (parse s ≡ some (number n)) × (w ≡ number n))
          (elim v [
            | none ↦ err (invalid key)
            | some v ↦ elim v [
              | number n ↦ ok (number n)
              | null ↦ err (invalid key)
              | flag b ↦ err (invalid key)
              | string t ↦ err (invalid key)
              | array e ↦ err (invalid key)
              | object o ↦ err (invalid key)
            ]
          ])
  number_of key s (some (number n)) e = returns (number n) (n, e, refl)
  number_of key s v e = refuses (invalid key)

  -- One round leaves a number or no text at its key, and the other keys as they are.
  record Converted (key : String) (m m' : Members) : Type 0 where
    at :
        (k : String)
        → get_member k m' ≡ (
            if str_eq key k
            then reread (as_str (get_member k m)) (get_member k m)
            else get_member k m)
    numbered : Numbered (get_member key m) (get_member key m')

  convert-Ensures :
      (key : String) (s : Option String) (m : Members)
      → as_str (get_member key m) ≡ s
      → Ensures (Converted key m) (convert parse key s m)
  convert-Ensures key none m e = returns m (record {
    at = λ k. ground (arith, eq_iff key k);
    numbered = Numbered-same (get_member key m) e;
  })
  convert-Ensures key (some s) m e =
      Ensures-bind _ (number_of key s (parse s) refl) (λ v (n, p, is).
        let stored : get_member key (insert_member key v m) ≡ some (number n) =
          get-insert_member key key v m ∙ ground (arith, eq_iff key key, is) in
        let parsed : parse s ≡ some v = p ∙ ap some (sym is) in
        returns (insert_member key v m) (record {
          at = λ k. get-insert_member key k v m ∙ ground (arith, eq_iff key k, parsed);
          numbered =
              subst (λ u. Numbered u (get_member key (insert_member key v m)))
                (sym (text_is (get_member key m) s e)) (n, p, stored);
        }))

  record Converts (keys : List String) (m m' : Members) : Type 0 where
    at :
        (k : String)
        → get_member k m' ≡ (
            if is_in k keys
            then reread (as_str (get_member k m)) (get_member k m)
            else get_member k m)
    numbered : (k : String) → is_in k keys ≡ true → Numbered (get_member k m) (get_member k m')

  both :
      (key : String) (keys : List String) (m m' m'' : Members)
      → Converted key m m'
      → Converts keys m' m''
      → Converts (key ∷ keys) m m''
  both key keys m m' m'' c cs = record {
    at = λ k. cs.at k ∙ ground (arith, c.at k, eq_iff key k);
    numbered = λ k i. elim (Bool-cases (str_eq key k)) [
      | inl e ↦
          let same : key ≡ k = (eq_iff key k).0 e in
          let first : Numbered (get_member k m) (get_member k m') =
            subst (λ k. Numbered (get_member k m) (get_member k m')) same c.numbered in
          elim (Bool-cases (is_in k keys)) [
            | inl more ↦ Numbered-trans _ _ _ first (cs.numbered k more)
            | inr last ↦
                let kept : get_member k m'' ≡ get_member k m' = cs.at k ∙ ground (arith, last) in
                subst (λ v. Numbered (get_member k m) v) (sym kept) first
          ]
      | inr e ↦
          let kept : get_member k m' ≡ get_member k m = c.at k ∙ ground (arith, e) in
          subst (λ v. Numbered v (get_member k m'')) kept (cs.numbered k (ground (arith, e, i)))
    ];
  }

  convert_all-Ensures :
      (keys : List String) (m : Members) → Ensures (Converts keys m) (convert_all parse keys m)
  unfolding convert_all
  convert_all-Ensures [] m = returns m (record { at = λ k. refl; numbered = λ k i. cc })
  convert_all-Ensures (key ∷ keys) m =
      Ensures-bind _ (convert-Ensures key (as_str (get_member key m)) m refl) (λ m' c.
        Ensures-weaken (λ m'' cs. both key keys m m' m'' c cs) (convert_all-Ensures keys m'))

  -- The object that serde gets for the object `m`.
  pub record Prepared (m m' : Members) : Type 0 where
    pub at : (k : String) → get_member k m' ≡ resolve k (get_member k m)
    pub no_text : (k : String) → is_in k numeric ≡ true → as_str (get_member k m') ≡ none
    pub numbers :
        All
          (λ k. Numbered (or_else (get_member k m) (default_of k defaults)) (get_member k m'))
          numeric

  blanked :
      (b : Bool) (v : Option Json) → as_str v ≡ none → as_str (if b then some null else v) ≡ none
  blanked true v e = refl
  blanked false v e = e

  defaulted :
      (k : String) (m m' : Members)
      → Numbered (get_member k (add_defaults defaults m)) (get_member k m')
      → Numbered (or_else (get_member k m) (default_of k defaults)) (get_member k m')
  defaulted k m m' = subst (λ v. Numbered v (get_member k m')) (get-add_defaults k defaults m)

  -- At a numeric key, which is not the one of the file.
  at_numeric_key :
      (k : String) (m m' : Members)
      → Converts numeric (add_defaults defaults m) m'
      → is_in k numeric ≡ true
      → str_eq "json_output" k ≡ false
      → Numbered (or_else (get_member k m) (default_of k defaults)) (get_member k (blank_output m'))
  at_numeric_key k m m' c i other =
      let kept : get_member k (blank_output m') ≡ get_member k m' =
        get-blank_output k m' ∙ ground (arith, other) in
      subst (λ v. Numbered (or_else (get_member k m) (default_of k defaults)) v) (sym kept)
        (defaulted k m m' (c.numbered k i))

  prepared :
      (m m' : Members)
      → Converts numeric (add_defaults defaults m) m'
      → Prepared m (blank_output m')
  prepared m m' c = record {
    at = λ k.
        get-blank_output k m'
        ∙ ap (λ v. if str_eq "json_output" k && is_blank v then some null else v)
            (c.at k
              ∙ ap (λ v. if is_in k numeric then reread (as_str v) v else v)
                  (get-add_defaults k defaults m));
    no_text = λ k i.
        ap as_str (get-blank_output k m')
        ∙ blanked (str_eq "json_output" k && is_blank (get_member k m')) (get_member k m') (
            Numbered-no_text (get_member k (add_defaults defaults m)) (get_member k m')
              (c.numbered k i));
    numbers = (
      at_numeric_key "local_as" m m' c refl refl,
      (
        at_numeric_key "peer_as" m m' c refl refl,
        (
          at_numeric_key "hold_time" m m' c refl refl,
          (
            at_numeric_key "reconnect_delay" m m' c refl refl,
            (
              at_numeric_key "connect_timeout" m m' c refl refl,
              (
                at_numeric_key "active_retry_delay" m m' c refl refl,
                (at_numeric_key "listen_port" m m' c refl refl, tt),
              ),
            ),
          ),
        ),
      ),
    );
  }

  -- `from_value` hands serde an object in which every key is what `resolve` says.
  prepare-Prepared : (m : Members) → Ensures (Prepared m) (prepare parse m)
  unfolding prepare
  prepare-Prepared m =
      Ensures-bind _ (convert_all-Ensures numeric (add_defaults defaults m))
        (λ m' c. returns _ (prepared m m' c))

  module _ (deserialize : Members → Result String Config) where
    -- How a configuration comes of a JSON value.
    pub record Read (v : Json) (config : Config) : Type 0 where
      pub valid : IsValid config
      pub given : Members
      pub is_object : v ≡ object given
      pub handed : Members
      pub prepared : Prepared given handed
      pub read : deserialize handed ≡ ok config

    deserialized :
        (m m' : Members) (r : Result String Config)
        → deserialize m' ≡ r
        → Prepared m m'
        → Settles r
        → Ensures (Read (object m)) (r >>= λ config. validate config >>= λ _. ok config)
    deserialized m m' _ e p (returns config _) =
        Ensures-bind (λ _. ok config) (validate-Ensures config)
          (λ _ valid. returns config (record {
            valid = valid;
            given = m;
            is_object = refl;
            handed = m';
            prepared = p;
            read = e;
          }))
    deserialized m m' _ e p (refuses x) = refuses x

    -- If serde reads every object or refuses it, `from_value` ends in `Ok` or `Err` on every JSON value. A
    -- configuration that it returns is valid, the value is an object, and serde has read it from the
    -- object with each key as `resolve` says: the five defaults where a key is missing, and null in
    -- place of an empty json_output. At each of the seven numeric keys a text, which parses as a JSON
    -- number then, has been replaced by this number, and any other value stays.
    pub from_value-Read :
        (v : Json)
        → ((m : Members) → Settles (deserialize m))
        → Ensures (Read v) (from_value parse deserialize v)
    unfolding from_value
    from_value-Read (object m) d =
        Ensures-bind _ (prepare-Prepared m)
          (λ m' p. deserialized m m' (deserialize m') refl p (d m'))
    from_value-Read v d = refuses _
