-- ===== src/Wire/Message/Frames.antt =====
-- `header` and `message`: the frame of nineteen bytes.
use mathlib.Core.Path.{subst}
use bgp_flowspec_receiver.Prelude.{
  ℕ, ◌+◌, ◌-◌, ◌*◌, ◌/◌, ◌%◌, ◌<◌, ◌≤◌, ◌^◌, ◌≡◌, refl, ap, sym, ◌∙◌, ◌↔◌, false, arith, leb, not,
  ◌==◌, ◌&&◌, ◌||◌, Bool-cases, inl, inr, List, [], ◌∷◌, ◌++◌, length, list_eq, take, drop, All,
  IsByte, list_eq→eq, length-drop, take-append-drop,
}
use bgp_flowspec_receiver.Wire.Result.{
  ok, Ensures, ensured, returns, refuses, Ensures-bind, Ensures-refuse_if,
}
use bgp_flowspec_receiver.Wire.Message.{marker, header, message, be16_bytes}

frame_length : (n : ℕ) → n ≤ 4077 → (n + 19) % 2 ^ 16 / 256 * 256 + (n + 19) % 2 ^ 16 % 256 ≡ n + 19
frame_length n h = omega arith

be16_join : (x : ℕ) → x / 256 * 256 + x % 256 ≡ x
be16_join x = omega arith

frame_accepted : (n : ℕ) → n ≤ 4077 → not (leb 19 (n + 19) && leb (n + 19) 4096) ≡ false
frame_accepted n h = ground arith

frame_body : (n : ℕ) → n + 19 - 19 ≡ n
frame_body n = omega arith

-- The header of a message with at most 4077 bytes of body is read back: its kind, and the number of
-- bytes that follow.
pub header-message :
    (kind : ℕ) (body : List ℕ)
    → length body ≤ 4077
    → header (take 19 (message kind body)) ≡ ok (kind, length body)
unfolding header message
header-message kind body h =
    rw (frame_length (length body) h, frame_accepted (length body) h, frame_body (length body))

header_frame :
    (kind n : ℕ) → n ≤ 4077 → header (marker ++ (be16_bytes (n + 19) ++ (kind ∷ []))) ≡ ok (kind, n)
unfolding header
header_frame kind n h = rw (be16_join (n + 19), frame_accepted n h, frame_body n)

-- A slice that `header` may accept.
pub record IsFrame (bytes : List ℕ) (r : ℕ × ℕ) : Type 0 where
  pub shape : bytes ≡ marker ++ (be16_bytes (r.1 + 19) ++ (r.0 ∷ []))
  pub fits : r.1 ≤ 4077

three_bytes : (xs : List ℕ) → length xs ≡ 3 → (a : ℕ) × (b : ℕ) × (c : ℕ) × (xs ≡ a ∷ b ∷ c ∷ [])
three_bytes [] h = absurd (omega arith)
three_bytes (a ∷ []) h = absurd (omega arith)
three_bytes (a ∷ b ∷ []) h = absurd (omega arith)
three_bytes (a ∷ b ∷ c ∷ []) h = (a, b, c, refl)
three_bytes (a ∷ b ∷ c ∷ d ∷ xs) h = absurd (omega arith)

split_frame :
    (bytes : List ℕ)
    → length bytes ≡ 19
    → take 16 bytes ≡ marker
    → (a : ℕ) × (b : ℕ) × (c : ℕ) × (bytes ≡ marker ++ a ∷ b ∷ c ∷ [])
split_frame bytes n m =
    let (a, b, c, e) = three_bytes (drop 16 bytes) (omega (arith, length-drop 16 bytes)) in
    (a, b, c, sym (take-append-drop 16 bytes) ∙ cc (m, e))

frame_guard :
    (bytes : List ℕ)
    → not (length bytes == 19) || not (list_eq (take 16 bytes) marker) ≡ false
    → (length bytes ≡ 19) × (take 16 bytes ≡ marker)
frame_guard bytes h = (ground arith, list_eq→eq (take 16 bytes) marker (ground arith))

tail_IsByte : (a b c : ℕ) → All IsByte (marker ++ a ∷ b ∷ c ∷ []) → (a < 256) × (b < 256)
tail_IsByte a b c h = omega arith

frame_bounds : (n : ℕ) → not (leb 19 n && leb n 4096) ≡ false → (19 ≤ n) × (n ≤ 4096)
frame_bounds n h = ground arith

length_bytes :
    (a b : ℕ) → b < 256 → 19 ≤ a * 256 + b → be16_bytes (a * 256 + b - 19 + 19) ≡ a ∷ b ∷ []
length_bytes a b hb h = cc (high, low)
  where
    high : (a * 256 + b - 19 + 19) / 256 ≡ a
    high = omega arith

    low : (a * 256 + b - 19 + 19) % 256 ≡ b
    low = omega arith

header_tail :
    (a b c : ℕ)
    → b < 256
    → Ensures (IsFrame (marker ++ a ∷ b ∷ c ∷ [])) (header (marker ++ a ∷ b ∷ c ∷ []))
unfolding header
header_tail a b c hb =
    Ensures-bind _ (Ensures-refuse_if (not (leb 19 (a * 256 + b) && leb (a * 256 + b) 4096)) _)
      λ _ e.
        let bounds = frame_bounds (a * 256 + b) e in
        returns (c, a * 256 + b - 19)
          (record {
            shape = ap (λ xs. marker ++ (xs ++ c ∷ [])) (sym (length_bytes a b hb bounds.0));
            fits = omega (arith, bounds.1);
          })

header-IsFrame : (bytes : List ℕ) → All IsByte bytes → Ensures (IsFrame bytes) (header bytes)
header-IsFrame bytes h =
    elim (Bool-cases (not (length bytes == 19) || not (list_eq (take 16 bytes) marker))) [
      | inl bad ↦ unfold header in rw bad (refuses _)
      | inr good ↦
          let (n, m) = frame_guard bytes good in
          let (a, b, c, e) = split_frame bytes n m in
          subst (λ xs. Ensures (IsFrame xs) (header xs)) (sym e)
            (header_tail a b c (tail_IsByte a b c (subst (All IsByte) e h)).1)
    ]

-- A slice of bytes is accepted exactly when it is the header that `message` writes for that kind and
-- some body of that length, which is at most 4077.
pub header_iff :
    (bytes : List ℕ) (kind n : ℕ)
    → All IsByte bytes
    → (header bytes ≡ ok (kind, n))
      ↔ ((bytes ≡ marker ++ (be16_bytes (n + 19) ++ (kind ∷ []))) × (n ≤ 4077))
header_iff bytes kind n h = (
  λ e. let f = ensured (header-IsFrame bytes h) (kind, n) e in (f.shape, f.fits),
  λ (e, fits). subst (λ xs. header xs ≡ ok (kind, n)) (sym e) (header_frame kind n fits),
)
