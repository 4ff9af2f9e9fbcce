-- ===== src/Merkle/Trees.antt =====
-- core/iedb-crypto/src/merkle/mod.rs: the top of a tree commits to its leaves.
use hammurabi_handoff.Prelude.{
  ℕ, zero, suc, ◌≤◌, ◌≡◌, ◌⊎◌, refl, ap, sym, ◌∙◌, arith, Bool-cases, List, [], ◌∷◌, ◌++◌, All,
  length, take, drop, take-append-drop, get_or, ltb, inl, inr,
}
use hammurabi_handoff.Crypto.{Bytes, Primitives}
use hammurabi_handoff.Merkle.{Hash, hash_pair, next_level, top_level, concat}
use hammurabi_handoff.Merkle.Sound.{Collision, same-or-Collision, append-parts}

-- Digests of BLAKE3, or leaves, of 32 bytes.
abbrev pub IsHashes : List Hash → Type 0
IsHashes = All (λ h. length h ≡ 32)

pub concat_injective :
    (xs ys : List Hash)
    → IsHashes xs
    → IsHashes ys
    → length xs ≡ length ys
    → concat xs ≡ concat ys
    → xs ≡ ys
concat_injective [] [] hx hy n e = refl
concat_injective [] (y ∷ ys) hx hy n e = absurd (omega (arith, n))
concat_injective (x ∷ xs) [] hx hy n e = absurd (omega (arith, n))
concat_injective (x ∷ xs) (y ∷ ys) hx hy n e =
    let (here, rest) = append-parts x y (concat xs) (concat ys) (hx.0 ∙ sym hy.0) e in
    cc (here, concat_injective xs ys hx.1 hy.1 (omega (arith, n)) rest)

pub drop-IsHashes : (n : ℕ) (xs : List Hash) → IsHashes xs → IsHashes (drop n xs)
drop-IsHashes zero xs h = h
drop-IsHashes (suc n) [] h = tt
drop-IsHashes (suc n) (x ∷ xs) h = drop-IsHashes n xs h.1

-- A list is its start and what follows.
pub take-drop_injective :
    (n : ℕ) (xs ys : List Hash) → take n xs ≡ take n ys → drop n xs ≡ drop n ys → xs ≡ ys
take-drop_injective n xs ys p q = cc (p, q, take-append-drop n xs, take-append-drop n ys)

pub drop_of_le : (n : ℕ) (xs : List Hash) → length xs ≤ n → drop n xs ≡ []
drop_of_le zero [] h = refl
drop_of_le zero (x ∷ xs) h = absurd (omega (arith, h))
drop_of_le (suc n) [] h = refl
drop_of_le (suc n) (x ∷ xs) h = drop_of_le n xs (omega (arith, h))

-- A list of at most one element is determined by its length and its head.
pub get_or_injective :
    (xs ys : List Hash)
    → length xs ≤ 1
    → length xs ≡ length ys
    → get_or xs 0 [] ≡ get_or ys 0 []
    → xs ≡ ys
get_or_injective [] [] h n e = refl
get_or_injective [] (y ∷ ys) h n e = absurd (omega (arith, n))
get_or_injective (x ∷ xs) [] h n e = absurd (omega (arith, n))
get_or_injective (x ∷ []) (y ∷ []) h n e = cc e
get_or_injective (x ∷ []) (y ∷ z ∷ ys) h n e = absurd (omega (arith, n))
get_or_injective (x ∷ w ∷ xs) ys h n e = absurd (omega (arith, h))

module _ (p : Primitives) (length-blake3 : (m : Bytes) → length (p.blake3 m) ≡ 32) where
  length-next_level-eq :
      (xs ys : List Hash)
      → length xs ≡ length ys
      → length (next_level p xs) ≡ length (next_level p ys)
  unfolding next_level
  length-next_level-eq [] [] n = refl
  length-next_level-eq [] (y ∷ ys) n = absurd (omega (arith, n))
  length-next_level-eq (x ∷ xs) [] n = absurd (omega (arith, n))
  length-next_level-eq (x ∷ []) (y ∷ []) n = refl
  length-next_level-eq (x ∷ []) (y ∷ z ∷ ys) n = absurd (omega (arith, n))
  length-next_level-eq (x ∷ w ∷ xs) (y ∷ []) n = absurd (omega (arith, n))
  length-next_level-eq (x ∷ w ∷ xs) (y ∷ z ∷ ys) n =
      ap suc (length-next_level-eq xs ys (omega (arith, n)))

  next_level-IsHashes : (xs : List Hash) → IsHashes xs → IsHashes (next_level p xs)
  unfolding next_level hash_pair
  next_level-IsHashes [] h = tt
  next_level-IsHashes (x ∷ []) h = h
  next_level-IsHashes (x ∷ y ∷ xs) h = (length-blake3 (x ++ y), next_level-IsHashes xs h.1.1)

  -- A level is determined by the one above it, or there is a collision.
  next_level_injective :
      (xs ys : List Hash)
      → IsHashes xs
      → IsHashes ys
      → length xs ≡ length ys
      → next_level p xs ≡ next_level p ys
      → (xs ≡ ys) ⊎ Collision p
  unfolding next_level hash_pair
  next_level_injective [] [] hx hy n e = inl refl
  next_level_injective [] (y ∷ ys) hx hy n e = absurd (omega (arith, n))
  next_level_injective (x ∷ xs) [] hx hy n e = absurd (omega (arith, n))
  next_level_injective (x ∷ []) (y ∷ []) hx hy n e = inl e
  next_level_injective (x ∷ []) (y ∷ z ∷ ys) hx hy n e = absurd (omega (arith, n))
  next_level_injective (x ∷ w ∷ xs) (y ∷ []) hx hy n e = absurd (omega (arith, n))
  next_level_injective (x ∷ w ∷ xs) (y ∷ z ∷ ys) hx hy n e =
      elim (next_level_injective xs ys hx.1.1 hy.1.1 (omega (arith, n)) (cc e)) [
        | inl rest ↦ elim (same-or-Collision p (x ++ w) (y ++ z) (cc e)) [
          | inl pair ↦
              let (a, b) = append-parts x y w z (hx.0 ∙ sym hy.0) pair in inl (cc (a, b, rest))
          | inr c ↦ inr c
        ]
        | inr c ↦ inr c
      ]

  pub length-top_level-eq :
      (f : ℕ) (xs ys : List Hash)
      → length xs ≡ length ys
      → length (top_level p f xs) ≡ length (top_level p f ys)
  unfolding top_level
  length-top_level-eq zero xs ys n = n
  length-top_level-eq (suc f) xs ys n = elim (Bool-cases (ltb 1 (length xs))) [
    | inl e ↦
        rw (e, rw n at e)
          (length-top_level-eq f (next_level p xs) (next_level p ys) (length-next_level-eq xs ys n))
    | inr e ↦ rw (e, rw n at e) n
  ]

  pub top_level-IsHashes : (f : ℕ) (xs : List Hash) → IsHashes xs → IsHashes (top_level p f xs)
  unfolding top_level
  top_level-IsHashes zero xs h = h
  top_level-IsHashes (suc f) xs h = elim (Bool-cases (ltb 1 (length xs))) [
    | inl e ↦ rw e (top_level-IsHashes f (next_level p xs) (next_level-IsHashes xs h))
    | inr e ↦ rw e h
  ]

  next_level-nonempty : (xs : List Hash) → 1 ≤ length xs → 1 ≤ length (next_level p xs)
  unfolding next_level
  next_level-nonempty [] h = absurd (omega (arith, h))
  next_level-nonempty (x ∷ []) h = omega arith
  next_level-nonempty (x ∷ y ∷ xs) h = omega arith

  pub top_level-nonempty : (f : ℕ) (xs : List Hash) → 1 ≤ length xs → 1 ≤ length (top_level p f xs)
  unfolding top_level
  top_level-nonempty zero xs h = h
  top_level-nonempty (suc f) xs h = elim (Bool-cases (ltb 1 (length xs))) [
    | inl e ↦ rw e (top_level-nonempty f (next_level p xs) (next_level-nonempty xs h))
    | inr e ↦ rw e h
  ]

  -- The leaves of a tree are determined by what is left of them, or there is a collision.
  pub top_level_injective :
      (f : ℕ) (xs ys : List Hash)
      → IsHashes xs
      → IsHashes ys
      → length xs ≡ length ys
      → top_level p f xs ≡ top_level p f ys
      → (xs ≡ ys) ⊎ Collision p
  unfolding top_level
  top_level_injective zero xs ys hx hy n e = inl e
  top_level_injective (suc f) xs ys hx hy n e = elim (Bool-cases (ltb 1 (length xs))) [
    | inl more ↦
        elim (top_level_injective f (next_level p xs) (next_level p ys) (next_level-IsHashes xs hx)
          (next_level-IsHashes ys hy) (length-next_level-eq xs ys n)
          (rw (more, rw n at more) at e)) [
            | inl above ↦ next_level_injective xs ys hx hy n above
            | inr c ↦ inr c
          ]
    | inr done ↦ inl (rw (done, rw n at done) at e)
  ]
