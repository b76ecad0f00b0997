-- ===== src/Rib/Apply/Paths.antt =====
-- AS_PATH and AS4_PATH, put together.
use bgp_flowspec_receiver.Prelude.{
  ℕ, ◌-◌, ◌≡◌, refl, ap, ◌∙◌, List, [], ◌∷◌, ◌++◌, length, length-append, take, take-append, arith,
}
use bgp_flowspec_receiver.Rib.Apply.{merge_paths}

length-none : (path : List ℕ) → length path ≡ 0 → path ≡ []
length-none [] h = refl
length-none (n ∷ path) h = absurd (omega arith)

-- When a speaker with two-byte AS numbers has put `front` before a path, and AS4_PATH holds that path with
-- its four-byte numbers, as long as the two-byte one, the merged path is `front` before the path of
-- AS4_PATH.
pub merge_paths-front :
    (front path as4 : List ℕ)
    → length path ≡ length as4
    → merge_paths (front ++ path) as4 ≡ front ++ as4
unfolding merge_paths
merge_paths-front front path [] h = ap (λ p. front ++ p) (length-none path h)
merge_paths-front front path (n ∷ as4) h =
    let kept : length (front ++ path) - length (n ∷ as4) ≡ length front =
      omega (arith, length-append front path) in
    ap (λ k. take k (front ++ path) ++ n ∷ as4) kept
    ∙ ap (λ p. p ++ n ∷ as4) (take-append front path)
