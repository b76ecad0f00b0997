-- ===== src/Wire/Message/Open.antt =====
-- `open` on what `build_open` writes and on any body.
use bgp_flowspec_receiver.Prelude.{
  ℕ, ◌+◌, ◌*◌, ◌/◌, ◌%◌, ◌<◌, ◌≤◌, ◌^◌, ◌≡◌, refl, ◌⊎◌, true, false, arith, drop, ltb, not, ◌==◌,
  ◌&&◌, ◌||◌, Bool-cases, inl, inr, List, length, zero, suc, [], ◌∷◌, ◌++◌, get_elem?, some, sym,
  ap, ◌∙◌, Bool,
}
use bgp_flowspec_receiver.Wire.Result.{
  ok, Ensures, Settles, returns, Ensures-bind, Ensures-refuse_if,
}
use bgp_flowspec_receiver.Wire.Cursor.{take-Splits, byte_at-Ensures}
use bgp_flowspec_receiver.Wire.Address.{Ipv4Addr, octets, ipv4_text}
use bgp_flowspec_receiver.Wire.Cursor.Reads.{byte_at-Settles}
use bgp_flowspec_receiver.Wire.Cursor.Loop.{Advances, while_bytes-Ensures}
use bgp_flowspec_receiver.Wire.Message.{
  OpenInfo, build_open, Caps, be16_at, be32_at, ipv4_at, store_asn, capability, read_caps,
  parameter, open_message,
}

be16_join : (x : ℕ) → x / 256 * 256 + x % 256 ≡ x
be16_join x = omega arith

be32_join :
    (x : ℕ)
    → x < 2 ^ 32
    → (x / 2 ^ 24 * 256 + x / 2 ^ 16 % 256) * 2 ^ 16 + (x / 2 ^ 8 % 256 * 256 + x % 256) ≡ x
be32_join x h = omega arith

abbrev pub IsHold : ℕ → Type 0
IsHold hold = (hold ≡ 0) ⊎ (3 ≤ hold)

pub hold_accepted : (hold : ℕ) → IsHold hold → not (hold == 0) && ltb hold 3 ≡ false
hold_accepted hold h = ground arith

-- The OPEN that `build_open` writes is read back by `open`: the AS number, which needs four bytes, the
-- hold time, which is 0 or at least 3, the router id, and the support of four-byte AS numbers.
pub open-build_open :
    (asn hold : ℕ) (router : Ipv4Addr)
    → asn < 2 ^ 32
    → hold < 2 ^ 16
    → IsHold hold
    → open_message (drop 19 (build_open asn hold router))
      ≡ ok (record {
        version = 4;
        peer_as = asn;
        hold_time = hold;
        router_id = ipv4_text (octets router);
        supports_4byte_asn = true;
      })
unfolding build_open open_message
open-build_open asn hold router ha hs hh =
    rw (be16_join hold, hold_accepted hold hh, be32_join asn ha)

be16_at-Settles : (bytes : List ℕ) (i : ℕ) → i + 1 < length bytes → Settles (be16_at bytes i)
unfolding be16_at
be16_at-Settles bytes i h =
    Ensures-bind _ (byte_at-Settles bytes i (omega arith))
      λ hi _. Ensures-bind _ (byte_at-Settles bytes (i + 1) h) λ lo _. returns _ tt

be32_at-Settles : (bytes : List ℕ) (i : ℕ) → i + 3 < length bytes → Settles (be32_at bytes i)
unfolding be32_at
be32_at-Settles bytes i h =
    Ensures-bind _ (be16_at-Settles bytes i (omega arith))
      λ hi _. Ensures-bind _ (be16_at-Settles bytes (i + 2) (omega arith)) λ lo _. returns _ tt

ipv4_at-Settles : (bytes : List ℕ) (i : ℕ) → i + 3 < length bytes → Settles (ipv4_at bytes i)
unfolding ipv4_at
ipv4_at-Settles bytes i h = Ensures-bind _ (byte_at-Settles bytes i (omega arith)) λ a _.
    Ensures-bind _ (byte_at-Settles bytes (i + 1) (omega arith)) λ b _.
      Ensures-bind _ (byte_at-Settles bytes (i + 2) (omega arith))
        λ c _. Ensures-bind _ (byte_at-Settles bytes (i + 3) h) λ d _. returns _ tt

abbrev Any : Caps → Type 0
Any s = Unit

capability_value :
    (s : Caps) (val rest : List ℕ) (code n : ℕ)
    → length rest < n
    → Ensures (λ r. Any r.0 × (length r.1 < n)) (store_asn s code val rest)
unfolding store_asn
capability_value s val rest code n h = elim (Bool-cases (code == 65 && length val == 4)) [
  | inl four ↦
      rw four (Ensures-bind _ (be32_at-Settles val 0 (ground arith)) λ asn _. returns _ (tt, h))
  | inr other ↦ rw other (returns _ (tt, h))
]

capability-Advances :
    (s : Caps) (caps : List ℕ)
    → 0 < length caps
    → Any s
    → Ensures (Advances Any caps) (capability s caps)
unfolding capability
capability-Advances s caps h _ = Ensures-bind _ (take-Splits caps 2) λ r t.
    Ensures-bind _ (byte_at-Settles r.0 1 (omega (arith, t.size))) λ len _.
      Ensures-bind _ (take-Splits r.1 len) λ v u.
        Ensures-bind _ (byte_at-Settles r.0 0 (omega (arith, t.size)))
          λ code _. capability_value s v.0 v.1 code (length caps) (omega (arith, t.left, u.left))

read_caps-Ensures :
    (s : Caps) (kind : ℕ) (caps rest : List ℕ) (n : ℕ)
    → length rest < n
    → Ensures (λ r. Any r.0 × (length r.1 < n)) (read_caps s kind caps rest)
unfolding read_caps
read_caps-Ensures s kind caps rest n h = elim (Bool-cases (not (kind == 2))) [
  | inl other ↦ rw other (returns _ (tt, h))
  | inr mine ↦ rw mine (
      Ensures-bind _ (while_bytes-Ensures Any capability capability-Advances s caps tt)
        λ s' _. returns _ (tt, h))
]

parameter-Advances :
    (s : Caps) (params : List ℕ)
    → 0 < length params
    → Any s
    → Ensures (Advances Any params) (parameter s params)
unfolding parameter
parameter-Advances s params h _ = Ensures-bind _ (take-Splits params 2) λ r t.
    Ensures-bind _ (byte_at-Settles r.0 1 (omega (arith, t.size))) λ len _.
      Ensures-bind _ (take-Splits r.1 len) λ v u.
        Ensures-bind _ (byte_at-Settles r.0 0 (omega (arith, t.size)))
          λ kind _. read_caps-Ensures s kind v.0 v.1 (length params) (omega (arith, t.left, u.left))

IsHold-checked :
    (version hold : ℕ) → not (version == 4) || not (hold == 0) && ltb hold 3 ≡ false → IsHold hold
IsHold-checked version hold h = ground arith

-- What an accepted body says: version 4 in its first byte, and in the fourth and the fifth the hold time,
-- which is 0 or at least 3.
pub record Accepted (body : List ℕ) (info : OpenInfo) : Type 0 where
  pub version : get_elem? body 0 ≡ some 4
  pub hold_time :
      (hi : ℕ) × (lo : ℕ) × (get_elem? body 3 ≡ some hi)
      × (get_elem? body 4 ≡ some lo)
      × (info.hold_time ≡ hi * 256 + lo)
  pub hold : IsHold info.hold_time

get_append : (xs ys : List ℕ) (i b : ℕ) → get_elem? xs i ≡ some b → get_elem? (xs ++ ys) i ≡ some b
get_append [] ys i b h = cc
get_append (x ∷ xs) ys zero b h = h
get_append (x ∷ xs) ys (suc i) b h = get_append xs ys i b h

in_whole :
    (xs ys whole : List ℕ) (i b : ℕ)
    → xs ++ ys ≡ whole
    → get_elem? xs i ≡ some b
    → get_elem? whole i ≡ some b
in_whole xs ys whole i b e h = ap (λ l. get_elem? l i) (sym e) ∙ get_append xs ys i b h

be16_at-Ensures :
    (bytes : List ℕ) (i : ℕ)
    → i + 1 < length bytes
    → Ensures
        (λ n.
          (hi : ℕ) × (lo : ℕ) × (get_elem? bytes i ≡ some hi)
          × (get_elem? bytes (i + 1) ≡ some lo)
          × (n ≡ hi * 256 + lo))
        (be16_at bytes i)
unfolding be16_at
be16_at-Ensures bytes i h =
    Ensures-bind _ (byte_at-Ensures bytes i (omega arith)) λ hi e.
      Ensures-bind _ (byte_at-Ensures bytes (i + 1) h) λ lo f. returns _ (hi, lo, e, f, refl)

version_checked : (version : ℕ) (other : Bool) → (not (version == 4) || other) ≡ false → version ≡ 4
version_checked version other h = ground arith

-- On every body `open` ends in `Ok` or `Err`: no index is out of range and both loops end. It accepts only
-- a body whose first byte is version 4, and the hold time that it returns is the one of the fourth and
-- the fifth byte, and is 0 or at least 3.
pub open-IsHold : (body : List ℕ) → Ensures (Accepted body) (open_message body)
unfolding open_message
open-IsHold body = Ensures-bind _ (take-Splits body 10) λ r t.
    Ensures-bind _ (be16_at-Settles r.0 1 (omega (arith, t.size))) λ asn _.
      Ensures-bind _ (be16_at-Ensures r.0 3 (omega (arith, t.size))) λ hold (hi, lo, x, y, is).
        Ensures-bind _ (byte_at-Ensures r.0 0 (omega (arith, t.size))) λ version v.
          Ensures-bind _ (Ensures-refuse_if _ _) λ _ checked.
            Ensures-bind _ (byte_at-Settles r.0 9 (omega (arith, t.size))) λ len _.
              Ensures-bind _ (take-Splits r.1 len) λ p _.
                Ensures-bind _ (while_bytes-Ensures Any parameter parameter-Advances _ p.0 tt)
                  λ s _. Ensures-bind _ (ipv4_at-Settles r.0 5 (omega (arith, t.size))) λ router _.
                    returns _ (record {
                      version =
                          in_whole r.0 r.1 body 0 4 t.whole
                            (v ∙ ap some (version_checked version _ checked));
                      hold_time = (
                        hi,
                        lo,
                        in_whole r.0 r.1 body 3 hi t.whole x,
                        in_whole r.0 r.1 body 4 lo t.whole y,
                        is,
                      );
                      hold = IsHold-checked version hold checked;
                    })
