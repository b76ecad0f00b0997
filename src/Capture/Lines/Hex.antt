-- ===== src/Capture/Lines/Hex.antt =====
-- A line of tcpdump's dump, as `-X` writes it, and what the loop reads from it.
use Prim.Native.Char.{Char, code}
use Prim.Native.String.{◌++◌ as append}
use text.Mathlib.Text.{starts_with}
use text.Mathlib.TextLemmas.{cons-append, nil-append}
use text.Mathlib.TextPositions.{starts_with_of_prefix}
use bgp_flowspec_receiver.Prelude.{
  ℕ, zero, suc, ◌+◌, ◌-◌, ◌*◌, ◌/◌, ◌%◌, ◌<◌, ◌≤◌, ◌≡◌, refl, sym, ap, ◌∙◌, Bool, true, false, ◌&&◌,
  not, String, Option, none, some, List, [], ◌∷◌, ◌++◌, IsByte, arith, ◌==◌, ==_iff, hex_digit,
  all_below, all_below_sound,
}
use bgp_flowspec_receiver.Capture.Lines.Words.{hex_words, words_bytes-some, words_bytes-hex_words}
use bgp_flowspec_receiver.Capture.Lines.{
  is_whitespace, trim_start, after_colon, push_word, first_word, split_whitespace, is_hexdigit,
  hexdigit_value, word_bytes, words_bytes, dump_bytes,
}

-- Two bytes as a word of four digits, before a text.
abbrev pub word_text : ℕ → ℕ → String → String
word_text x y s = String.◌∷◌ (hex_digit (x / 16)) (
    String.◌∷◌ (hex_digit (x % 16))
      (String.◌∷◌ (hex_digit (y / 16)) (String.◌∷◌ (hex_digit (y % 16)) s)))

-- The last byte of an odd number of bytes, as a word of two digits, before a text.
abbrev pub byte_text : ℕ → String → String
byte_text x s = String.◌∷◌ (hex_digit (x / 16)) (String.◌∷◌ (hex_digit (x % 16)) s)

abbrev pub spaces : ℕ → String → String
spaces zero s = s
spaces (suc n) s = String.◌∷◌ " " (spaces n s)

-- The words of a line, with a byte behind them if there is an odd one, and the column of characters.
abbrev pub columns : List (ℕ × ℕ) → Option ℕ → String → String
columns [] none ascii = String.◌∷◌ " " ascii
columns [] (some z) ascii = byte_text z (String.◌∷◌ " " (String.◌∷◌ " " ascii))
columns ((x, y) ∷ words) odd ascii = word_text x y (String.◌∷◌ " " (columns words odd ascii))

-- A line: a tab, the offset, the words, and the column of characters behind `pad` spaces and one.
abbrev pub dump_line : ℕ → List (ℕ × ℕ) → Option ℕ → ℕ → String → String
dump_line offset words odd pad ascii = String.◌∷◌ "\t" (
    String.◌∷◌ "0" (
      String.◌∷◌ "x" (
        word_text (offset / 256) (offset % 256) (
          String.◌∷◌ ":"
            (String.◌∷◌ " " (String.◌∷◌ " " (columns words odd (spaces pad ascii))))))))

abbrev pub bytes_of : List (ℕ × ℕ) → Option ℕ → List ℕ
bytes_of [] none = []
bytes_of [] (some z) = z ∷ []
bytes_of ((x, y) ∷ words) odd = x ∷ y ∷ bytes_of words odd

-- How many words a line has.
abbrev pub word_count : List (ℕ × ℕ) → Option ℕ → ℕ
word_count [] none = 0
word_count [] (some z) = 1
word_count (w ∷ words) odd = suc (word_count words odd)

-- Its numbers are bytes.
abbrev pub AreBytes : List (ℕ × ℕ) → Option ℕ → Type 0
AreBytes [] none = Unit {0}
AreBytes [] (some z) = IsByte z
AreBytes ((x, y) ∷ words) odd = IsByte x × IsByte y × AreBytes words odd

abbrev is_digit_of : ℕ → Bool
is_digit_of d =
    let c = hex_digit d in
    not (is_whitespace c) && (is_hexdigit c && (not (code c == 58) && hexdigit_value c == d))

digit_table : all_below 16 is_digit_of ≡ true
unfolding is_whitespace is_hexdigit
digit_table = refl

-- What the reading sees of a digit.
record Digit (d : ℕ) : Type 0 where
  inside : is_whitespace (hex_digit d) ≡ false
  hexadecimal : is_hexdigit (hex_digit d) ≡ true
  no_colon : (code (hex_digit d) == 58) ≡ false
  value : hexdigit_value (hex_digit d) ≡ d

split_table :
    (a b c e : Bool)
    → (not a && (b && (not c && e))) ≡ true
    → (a ≡ false) × (b ≡ true) × (c ≡ false) × (e ≡ true)
split_table false true false true h = (refl, refl, refl, refl)
split_table false true false false h = cc
split_table false true true e h = cc
split_table false false c e h = cc
split_table true b c e h = cc

digit : (d : ℕ) → d < 16 → Digit d
digit d h =
    let c = hex_digit d in
    let (a, b, k, e) =
      split_table (is_whitespace c) (is_hexdigit c) (code c == 58) (hexdigit_value c == d)
        (all_below_sound 16 is_digit_of d digit_table h) in
    record { inside = a; hexadecimal = b; no_colon = k; value = (==_iff _ d).0 e }

first_word-inside :
    (c : Char) (s word : String) (words : List String)
    → is_whitespace c ≡ false
    → first_word s ≡ (word, words)
    → first_word (String.◌∷◌ c s) ≡ (String.◌∷◌ c word, words)
unfolding first_word
first_word-inside c s word words e f = rw (e, f) refl

first_word-space : (s : String) → first_word (String.◌∷◌ " " s) ≡ ("", split_whitespace s)
unfolding first_word split_whitespace is_whitespace
first_word-space s = refl

first_word-text :
    (x y : ℕ) (s : String)
    → IsByte x
    → IsByte y
    → first_word (word_text x y (String.◌∷◌ " " s)) ≡ (word_text x y "", split_whitespace s)
first_word-text x y s hx hy =
    let a = digit (x / 16) (omega arith) in
    let b = digit (x % 16) (omega arith) in
    let c = digit (y / 16) (omega arith) in
    let d = digit (y % 16) (omega arith) in
    first_word-inside _ _ _ _ a.inside (
      first_word-inside _ _ _ _ b.inside (
        first_word-inside _ _ _ _ c.inside
          (first_word-inside _ _ _ _ d.inside (first_word-space s))))

split-text :
    (x y : ℕ) (s : String)
    → IsByte x
    → IsByte y
    → split_whitespace (word_text x y (String.◌∷◌ " " s)) ≡ word_text x y "" ∷ split_whitespace s
unfolding split_whitespace
split-text x y s hx hy =
    ap (λ (f : String × List String). push_word f.0 f.1) (first_word-text x y s hx hy)

first_word-byte :
    (z : ℕ) (s : String)
    → IsByte z
    → first_word (byte_text z (String.◌∷◌ " " s)) ≡ (byte_text z "", split_whitespace s)
first_word-byte z s h =
    let a = digit (z / 16) (omega arith) in
    let b = digit (z % 16) (omega arith) in
    first_word-inside _ _ _ _ a.inside (first_word-inside _ _ _ _ b.inside (first_word-space s))

split-byte :
    (z : ℕ) (s : String)
    → IsByte z
    → split_whitespace (byte_text z (String.◌∷◌ " " s)) ≡ byte_text z "" ∷ split_whitespace s
unfolding split_whitespace
split-byte z s h = ap (λ (f : String × List String). push_word f.0 f.1) (first_word-byte z s h)

split-space : (s : String) → split_whitespace (String.◌∷◌ " " s) ≡ split_whitespace s
unfolding split_whitespace
split-space s = ap (λ (f : String × List String). push_word f.0 f.1) (first_word-space s)

word-bytes : (x y : ℕ) → IsByte x → IsByte y → word_bytes (word_text x y "") ≡ some (x ∷ y ∷ [])
unfolding word_bytes
word-bytes x y hx hy =
    let a = digit (x / 16) (omega arith) in
    let b = digit (x % 16) (omega arith) in
    let c = digit (y / 16) (omega arith) in
    let d = digit (y % 16) (omega arith) in
    rw
      (
        a.hexadecimal, b.hexadecimal, c.hexadecimal, d.hexadecimal, a.value, b.value, c.value,
        d.value,
      )
      (let ex : x / 16 * 16 + x % 16 ≡ x = omega arith in
        let ey : y / 16 * 16 + y % 16 ≡ y = omega arith in rw (ex, ey) refl)

split-spaces : (n : ℕ) (s : String) → split_whitespace (spaces n s) ≡ split_whitespace s
split-spaces zero s = refl
split-spaces (suc n) s = split-space (spaces n s) ∙ split-spaces n s

byte-bytes : (z : ℕ) → IsByte z → word_bytes (byte_text z "") ≡ some (z ∷ [])
unfolding word_bytes
byte-bytes z h =
    let a = digit (z / 16) (omega arith) in
    let b = digit (z % 16) (omega arith) in
    let e : z / 16 * 16 + z % 16 ≡ z = omega arith in
    rw (a.hexadecimal, b.hexadecimal, a.value, b.value) (rw e refl)

-- `n` more than there are words.
abbrev beyond : List (ℕ × ℕ) → Option ℕ → ℕ → ℕ
beyond [] none n = n
beyond [] (some z) n = suc n
beyond (w ∷ words) odd n = suc (beyond words odd n)

beyond_lem :
    (words : List (ℕ × ℕ)) (odd : Option ℕ) (n : ℕ) → beyond words odd n ≡ word_count words odd + n
beyond_lem [] none n = omega arith
beyond_lem [] (some z) n = omega arith
beyond_lem (w ∷ words) odd n = let e = beyond_lem words odd n in omega arith

words_bytes-columns :
    (n : ℕ) (words : List (ℕ × ℕ)) (odd : Option ℕ) (ascii : String)
    → AreBytes words odd
    → words_bytes (beyond words odd n) (split_whitespace (columns words odd ascii))
      ≡ bytes_of words odd ++ words_bytes n (split_whitespace ascii)
words_bytes-columns n [] none ascii b = ap (words_bytes n) (split-space ascii)
words_bytes-columns n [] (some z) ascii b =
    ap (words_bytes (suc n)) (split-byte z (String.◌∷◌ " " ascii) b)
    ∙ words_bytes-some n (byte_text z "") (split_whitespace (String.◌∷◌ " " ascii)) (z ∷ [])
        (byte-bytes z b)
    ∙ ap (λ words. z ∷ words_bytes n words) (split-space ascii)
words_bytes-columns n ((x, y) ∷ words) odd ascii b =
    let k = beyond words odd n in
    ap (words_bytes (suc k)) (split-text x y (columns words odd ascii) b.0 b.1)
    ∙ words_bytes-some k (word_text x y "") (split_whitespace (columns words odd ascii))
        (x ∷ y ∷ []) (word-bytes x y b.0 b.1)
    ∙ ap (λ bytes. x ∷ y ∷ bytes) (words_bytes-columns n words odd ascii b.2)

after_digit :
    (d : ℕ) (s : String) → d < 16 → after_colon (String.◌∷◌ (hex_digit d) s) ≡ after_colon s
unfolding after_colon
after_digit d s h = rw ((digit d h).no_colon) refl

after_word :
    (x y : ℕ) (s : String)
    → IsByte x
    → IsByte y
    → after_colon (word_text x y (String.◌∷◌ ":" s)) ≡ some s
unfolding after_colon
after_word x y s hx hy =
    after_digit (x / 16) _ (omega arith)
    ∙ after_digit (x % 16) _ (omega arith)
    ∙ after_digit (y / 16) _ (omega arith)
    ∙ after_digit (y % 16) _ (omega arith)

after_zero_x :
    (s : String) → after_colon (String.◌∷◌ "\t" (String.◌∷◌ "0" (String.◌∷◌ "x" s))) ≡ after_colon s
unfolding after_colon
after_zero_x s = refl

starts_zero_x :
    (s : String)
    → starts_with (trim_start (String.◌∷◌ "\t" (String.◌∷◌ "0" (String.◌∷◌ "x" s)))) "0x" ≡ true
unfolding trim_start is_whitespace
starts_zero_x s =
    let same : append "0x" s ≡ String.◌∷◌ "0" (String.◌∷◌ "x" s) =
      cons-append "0" "x" s
      ∙ ap (String.◌∷◌ "0") (cons-append "x" "" s ∙ ap (String.◌∷◌ "x") (nil-append s)) in
    ap (λ t. starts_with t "0x") (sym same) ∙ starts_with_of_prefix "0x" (append "0x" s) (s, refl)

dump_bytes-after :
    (line hex : String)
    → starts_with (trim_start line) "0x" ≡ true
    → after_colon line ≡ some hex
    → dump_bytes line ≡ words_bytes 8 (split_whitespace hex)
unfolding dump_bytes
dump_bytes-after line hex e f = rw (e, f) refl

-- Of a line of the dump with at most eight words of two bytes, the last of which may be a single byte, the
-- loop reads exactly these bytes, and then the words of the column of characters behind them, as many
-- as eight leave room for, up to the first that is not two or four hexadecimal digits. So from a line
-- with eight words it reads its bytes and nothing else.
pub dump_bytes-dump_line :
    (offset : ℕ) (words : List (ℕ × ℕ)) (odd : Option ℕ) (pad : ℕ) (ascii : String)
    → offset < 65536
    → word_count words odd ≤ 8
    → AreBytes words odd
    → dump_bytes (dump_line offset words odd pad ascii)
      ≡ bytes_of words odd ++ hex_words (8 - word_count words odd) (split_whitespace ascii)
dump_bytes-dump_line offset words odd pad ascii h few b =
    let column = spaces pad ascii in
    let cols = columns words odd column in
    let text = String.◌∷◌ " " (String.◌∷◌ " " cols) in
    let left = 8 - word_count words odd in
    let room : 8 ≡ beyond words odd left = let e = beyond_lem words odd left in omega arith in
    dump_bytes-after (dump_line offset words odd pad ascii) text (starts_zero_x _)
      (after_zero_x _ ∙ after_word (offset / 256) (offset % 256) text (omega arith) (omega arith))
    ∙ ap (words_bytes 8) (split-space (String.◌∷◌ " " cols) ∙ split-space cols)
    ∙ ap (λ n. words_bytes n (split_whitespace cols)) room
    ∙ words_bytes-columns left words odd column b
    ∙ ap (λ words'. bytes_of words odd ++ words_bytes left words') (split-spaces pad ascii)
    ∙ ap (λ bytes. bytes_of words odd ++ bytes)
        (words_bytes-hex_words left (split_whitespace ascii))
