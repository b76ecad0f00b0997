-- ===== src/Capture/Lines/Words.antt =====
-- What the loop over the words of a dump line reads, beside an independent description of it.
use Prim.Native.Char.{Char}
use bgp_flowspec_receiver.Prelude.{
  ℕ, zero, suc, ◌+◌, ◌*◌, ◌≡◌, refl, sym, ap, ◌∙◌, Bool, true, false, ◌&&◌, ◌||◌, String, Option,
  none, some, List, [], ◌∷◌, ◌++◌, length, map, concat, take, ◌==◌, if◌then◌else◌, Bool-cases, inl,
  inr, arith,
}
use bgp_flowspec_receiver.Capture.Lines.{is_hexdigit, hexdigit_value, word_bytes, words_bytes}

abbrev pub letters : String → List Char
letters String.[] = []
letters (String.◌∷◌ c s) = c ∷ letters s

abbrev pub all_hex : List Char → Bool
all_hex [] = true
all_hex (c ∷ cs) = is_hexdigit c && all_hex cs

-- Two or four hexadecimal digits.
abbrev pub is_hex_word : String → Bool
is_hex_word w = (length (letters w) == 2 || length (letters w) == 4) && all_hex (letters w)

-- Two digits to a byte.
abbrev pub pairs : List Char → List ℕ
pairs (a ∷ b ∷ cs) = (hexdigit_value a * 16 + hexdigit_value b) ∷ pairs cs
pairs cs = []

abbrev pub while_hex : List String → List String
while_hex [] = []
while_hex (w ∷ words) = let rest = while_hex words in if is_hex_word w then w ∷ rest else []

-- The bytes of the first `n` words, up to the first that is not two or four hexadecimal digits.
abbrev pub hex_words : ℕ → List String → List ℕ
hex_words n words = concat (map (λ w. pairs (letters w)) (take n (while_hex words)))

abbrev expected : String → Option (List ℕ)
expected w = if is_hex_word w then some (pairs (letters w)) else none

long_word :
    (a b c d e : Char) (s : String)
    → is_hex_word (String.◌∷◌ a (String.◌∷◌ b (String.◌∷◌ c (String.◌∷◌ d (String.◌∷◌ e s)))))
      ≡ false
long_word a b c d e s = ground arith

word_bytes_lem : (w : String) → word_bytes w ≡ expected w
unfolding word_bytes
word_bytes_lem String.[] = refl
word_bytes_lem (String.◌∷◌ a String.[]) = refl
word_bytes_lem (String.◌∷◌ a (String.◌∷◌ b String.[])) = ground arith
word_bytes_lem (String.◌∷◌ a (String.◌∷◌ b (String.◌∷◌ c String.[]))) = refl
word_bytes_lem (String.◌∷◌ a (String.◌∷◌ b (String.◌∷◌ c (String.◌∷◌ d String.[])))) = ground arith
word_bytes_lem (String.◌∷◌ a (String.◌∷◌ b (String.◌∷◌ c (String.◌∷◌ d (String.◌∷◌ e s))))) =
    rw (long_word a b c d e s) refl

pub words_bytes-some :
    (n : ℕ) (word : String) (words : List String) (bytes : List ℕ)
    → word_bytes word ≡ some bytes
    → words_bytes (suc n) (word ∷ words) ≡ bytes ++ words_bytes n words
unfolding words_bytes
words_bytes-some n word words bytes e = rw (words_bytes, e) refl

words_bytes-none :
    (n : ℕ) (word : String) (words : List String)
    → word_bytes word ≡ none
    → words_bytes (suc n) (word ∷ words) ≡ []
unfolding words_bytes
words_bytes-none n word words e = rw (words_bytes, e) refl

-- The loop reads the bytes of the words up to the first that is not two or four digits.
pub words_bytes-hex_words : (n : ℕ) (words : List String) → words_bytes n words ≡ hex_words n words
unfolding words_bytes
words_bytes-hex_words zero words = refl
words_bytes-hex_words (suc n) [] = refl
words_bytes-hex_words (suc n) (w ∷ words) =
    let taken : Bool → List ℕ = λ b.
      concat
        (map (λ w. pairs (letters w)) (take (suc n) (if b then w ∷ while_hex words else []))) in
    let read : Bool → Option (List ℕ) = λ b. if b then some (pairs (letters w)) else none in
    elim (Bool-cases (is_hex_word w)) [
      | inl y ↦
          words_bytes-some n w words (pairs (letters w)) (word_bytes_lem w ∙ ap read y)
          ∙ ap (λ bytes. pairs (letters w) ++ bytes) (words_bytes-hex_words n words)
          ∙ sym (ap taken y)
      | inr m ↦ words_bytes-none n w words (word_bytes_lem w ∙ ap read m) ∙ sym (ap taken m)
    ]
