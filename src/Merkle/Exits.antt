-- ===== src/Merkle/Exits.antt =====
-- core/iedb-crypto/src/merkle/mod.rs: the loops end because of their tests, not of the fuel.
use hammurabi_handoff.Prelude.{
  ℕ, zero, suc, ◌+◌, ◌-◌, ◌*◌, ◌<◌, ◌≤◌, ◌≡◌, refl, ap, arith, Bool-cases, List, [], ◌∷◌, length,
  ltb, leb, inl, inr,
}
use hammurabi_handoff.Crypto.{Primitives}
use hammurabi_handoff.Merkle.{
  Hash, grow, mountain, next_level, top_level, build_merkle_tree, peaks_from,
}
use hammurabi_handoff.Merkle.Path.{pow2, pow2-positive}
use hammurabi_handoff.Merkle.Peaks.{grow-pow2}

grow_exit : (f h remaining : ℕ) → remaining ≤ pow2 h + f → remaining < grow f (pow2 h) remaining * 2
unfolding grow
grow_exit zero h remaining enough = omega (arith, enough, pow2-positive h)
grow_exit (suc f) h remaining enough = elim (Bool-cases (leb (pow2 h * 2) remaining)) [
  | inl more ↦ rw more (grow_exit f (suc h) remaining (omega (arith, enough, pow2-positive h)))
  | inr done ↦ rw done (ground (arith, done))
]

module _ (p : Primitives) where
  length-next_level_le : (level : List Hash) → length (next_level p level) * 2 ≤ length level + 1
  unfolding next_level
  length-next_level_le [] = omega arith
  length-next_level_le (a ∷ []) = omega arith
  length-next_level_le (a ∷ b ∷ rest) = omega (arith, length-next_level_le rest)

  pub length-top_level :
      (f : ℕ) (level : List Hash) → length level ≤ f + 1 → length (top_level p f level) ≤ 1
  unfolding top_level
  length-top_level zero level enough = enough
  length-top_level (suc f) level enough = elim (Bool-cases (ltb 1 (length level))) [
    | inl more ↦ rw more (
        length-top_level f (next_level p level)
          (ground (arith, enough, more, length-next_level_le level)))
    | inr done ↦ rw done (ground (arith, done))
  ]

  mountain-positive : (remaining : ℕ) → 1 ≤ remaining → 1 ≤ mountain remaining
  mountain-positive remaining h =
      let (k, size, _) = grow-pow2 remaining 0 remaining h in omega (arith, size, pow2-positive k)

  peaks_from_fuel :
      (f g : ℕ) (leaves : List Hash) (i : ℕ)
      → length leaves ≤ i + f
      → length leaves ≤ i + g
      → peaks_from p f leaves i ≡ peaks_from p g leaves i
  unfolding peaks_from
  peaks_from_fuel zero zero leaves i hf hg = refl
  peaks_from_fuel zero (suc g) leaves i hf hg = ground (arith, hf)
  peaks_from_fuel (suc f) zero leaves i hf hg = ground (arith, hg)
  peaks_from_fuel (suc f) (suc g) leaves i hf hg = elim (Bool-cases (ltb i (length leaves))) [
    | inl more ↦
        let size = mountain (length leaves - i) in
        let some_ = mountain-positive (length leaves - i) (ground (arith, more)) in
        rw more (
          ap (◌∷◌ (build_merkle_tree p leaves i size)) (
            peaks_from_fuel f g leaves (i + size) (omega (arith, hf, some_))
              (omega (arith, hg, some_))))
    | inr done ↦ rw done refl
  ]

  -- For any leaves and any number that remains, above 0: the size of a mountain is a power of two, at most
  -- what remains, while its double is more, so the doubling loop ends by its test; more fuel does not
  -- change the peaks; and the levels end with at most one hash.
  pub loops_exit :
      (leaves : List Hash) (remaining more : ℕ)
      → 1 ≤ remaining
      → ((k : ℕ) × (mountain remaining ≡ pow2 k) × (pow2 k ≤ remaining) × (remaining < pow2 k * 2))
        × (peaks_from p (length leaves + more) leaves 0 ≡ peaks_from p (length leaves) leaves 0)
        × (length (top_level p (length leaves) leaves) ≤ 1)
  loops_exit leaves remaining more h =
      let (k, size, fits) = grow-pow2 remaining 0 remaining h in
      (
        (k, size, fits, rw size at (grow_exit remaining 0 remaining (omega arith))),
        peaks_from_fuel (length leaves + more) (length leaves) leaves 0 (omega arith) (omega arith),
        length-top_level (length leaves) leaves (omega arith),
      )
