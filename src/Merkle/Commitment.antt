-- ===== src/Merkle/Commitment.antt =====
-- core/iedb-crypto/src/merkle/mod.rs: the root commits to the leaves.
use hammurabi_handoff.Prelude.{
  ℕ, zero, suc, ◌+◌, ◌-◌, ◌≤◌, ◌≡◌, ◌⊎◌, refl, ap, sym, ◌∙◌, arith, Bool-cases, List, [], ◌∷◌,
  All-take, length, take, drop, drop-drop, length-drop, length-take_of_le, get_or, ltb, inl, inr,
}
use hammurabi_handoff.Crypto.{Bytes, Primitives}
use hammurabi_handoff.Merkle.{
  Hash, MerkleForest, top_level, build_merkle_tree, mountain, peaks_from, concat, bag, root,
}
use hammurabi_handoff.Merkle.Sound.{Collision, same-or-Collision}
use hammurabi_handoff.Merkle.Path.{pow2-positive}
use hammurabi_handoff.Merkle.Peaks.{IsForest, grow-pow2}
use hammurabi_handoff.Merkle.Exits.{length-top_level}
use hammurabi_handoff.Merkle.Trees.{
  IsHashes, concat_injective, drop-IsHashes, take-drop_injective, drop_of_le, get_or_injective,
  length-top_level-eq, top_level-IsHashes, top_level-nonempty, top_level_injective,
}

-- A mountain holds at least one leaf, and no more than remain.
mountain_bounds :
    (remaining : ℕ) → 1 ≤ remaining → (1 ≤ mountain remaining) × (mountain remaining ≤ remaining)
mountain_bounds remaining h =
    let (k, size, fits) = grow-pow2 remaining 0 remaining h in
    (omega (arith, size, pow2-positive k), omega (arith, size, fits))

IsHashes-head : (xs : List Hash) → 1 ≤ length xs → IsHashes xs → length (get_or xs 0 []) ≡ 32
IsHashes-head [] n h = absurd (omega (arith, n))
IsHashes-head (x ∷ xs) n h = h.0

module _ (p : Primitives) (length-blake3 : (m : Bytes) → length (p.blake3 m) ≡ 32) where
  length-build_merkle_tree :
      (xs : List Hash) (i size : ℕ)
      → IsHashes xs
      → 1 ≤ size
      → i + size ≤ length xs
      → length (build_merkle_tree p xs i size) ≡ 32
  unfolding build_merkle_tree
  length-build_merkle_tree xs i size h pos inside =
      let level = take size (drop i xs) in
      let long = length-take_of_le size (drop i xs) (omega (arith, inside, length-drop i xs)) in
      let hashes = All-take (λ x. length x ≡ 32) size (drop i xs) (drop-IsHashes i xs h) in
      IsHashes-head (top_level p size level)
        (top_level-nonempty p length-blake3 size level (omega (arith, long, pos)))
        (top_level-IsHashes p length-blake3 size level hashes)

  -- A tree commits to its leaves.
  build_merkle_tree_injective :
      (xs ys : List Hash) (i size : ℕ)
      → IsHashes xs
      → IsHashes ys
      → i + size ≤ length xs
      → i + size ≤ length ys
      → build_merkle_tree p xs i size ≡ build_merkle_tree p ys i size
      → (take size (drop i xs) ≡ take size (drop i ys)) ⊎ Collision p
  unfolding build_merkle_tree
  build_merkle_tree_injective xs ys i size hx hy inside inside' e =
      let level = take size (drop i xs) in
      let level' = take size (drop i ys) in
      let long = length-take_of_le size (drop i xs) (omega (arith, inside, length-drop i xs)) in
      let long' = length-take_of_le size (drop i ys) (omega (arith, inside', length-drop i ys)) in
      let n = long ∙ sym long' in
      top_level_injective p length-blake3 size level level'
        (All-take (λ x. length x ≡ 32) size (drop i xs) (drop-IsHashes i xs hx))
        (All-take (λ x. length x ≡ 32) size (drop i ys) (drop-IsHashes i ys hy)) n
        (get_or_injective (top_level p size level) (top_level p size level')
          (length-top_level p size level (omega (arith, long)))
          (length-top_level-eq p length-blake3 size level level' n) e)

  peaks_from-IsHashes :
      (f : ℕ) (xs : List Hash) (i : ℕ) → IsHashes xs → IsHashes (peaks_from p f xs i)
  unfolding peaks_from
  peaks_from-IsHashes zero xs i h = tt
  peaks_from-IsHashes (suc f) xs i h = elim (Bool-cases (ltb i (length xs))) [
    | inl e ↦
        let size = mountain (length xs - i) in
        let (pos, fits) = mountain_bounds (length xs - i) (ground (arith, e)) in
        rw e (
          length-build_merkle_tree xs i size h pos (ground (arith, e, fits)),
          peaks_from-IsHashes f xs (i + size) h,
        )
    | inr e ↦ rw e tt
  ]

  -- Over two lists of one length, as many peaks stand at the same places.
  length-peaks_from-eq :
      (f : ℕ) (xs ys : List Hash) (i : ℕ)
      → length xs ≡ length ys
      → length (peaks_from p f xs i) ≡ length (peaks_from p f ys i)
  unfolding peaks_from
  length-peaks_from-eq zero xs ys i n = refl
  length-peaks_from-eq (suc f) xs ys i n = elim (Bool-cases (ltb i (length xs))) [
    | inl e ↦
        rw (e, rw n at e, n)
          (ap suc (length-peaks_from-eq f xs ys (i + mountain (length ys - i)) n))
    | inr e ↦ rw (e, rw n at e) refl
  ]

  -- The peaks commit to the leaves behind an index.
  peaks_from_injective :
      (f : ℕ) (xs ys : List Hash) (i : ℕ)
      → IsHashes xs
      → IsHashes ys
      → length xs ≡ length ys
      → length xs ≤ i + f
      → peaks_from p f xs i ≡ peaks_from p f ys i
      → (drop i xs ≡ drop i ys) ⊎ Collision p
  unfolding peaks_from
  peaks_from_injective zero xs ys i hx hy n enough e =
      inl
        (drop_of_le i xs (omega (arith, enough)) ∙ sym (drop_of_le i ys (omega (arith, enough, n))))
  peaks_from_injective (suc f) xs ys i hx hy n enough e = elim (Bool-cases (ltb i (length xs))) [
    | inl more ↦
        let size = mountain (length ys - i) in
        let (pos, fits) = mountain_bounds (length ys - i) (ground (arith, more, n)) in
        let inside' : i + size ≤ length ys = ground (arith, more, fits, n) in
        let peaks = rw (more, rw n at more, n) at e in
        elim (peaks_from_injective f xs ys (i + size) hx hy n (omega (arith, enough, pos))
          (cc peaks)) [
            | inl later ↦
                elim (build_merkle_tree_injective xs ys i size hx hy (omega (arith, inside', n))
                  inside' (cc peaks)) [
                    | inl here ↦ inl (
                        take-drop_injective size (drop i xs) (drop i ys) here
                          (drop-drop size i xs ∙ later ∙ sym (drop-drop size i ys)))
                    | inr c ↦ inr c
                  ]
            | inr c ↦ inr c
          ]
    | inr done ↦
        inl
          (drop_of_le i xs (ground (arith, done)) ∙ sym (drop_of_le i ys (ground (arith, done, n))))
  ]

  root-eq :
      (forest : MerkleForest) (peaks : List Hash)
      → forest.peaks ≡ peaks
      → 1 ≤ length peaks
      → root p forest ≡ p.blake3 (concat peaks)
  unfolding root bag
  root-eq forest [] e h = absurd (omega (arith, h))
  root-eq forest (x ∷ xs) e h = rw e refl

  peaks-nonempty : (xs : List Hash) → 1 ≤ length xs → 1 ≤ length (peaks_from p (length xs) xs 0)
  unfolding peaks_from
  peaks-nonempty [] h = absurd (omega (arith, h))
  peaks-nonempty (x ∷ xs) h = ground arith

  same_peaks :
      (xs ys : List Hash)
      → IsHashes xs
      → IsHashes ys
      → length xs ≡ length ys
      → concat (peaks_from p (length xs) xs 0) ≡ concat (peaks_from p (length ys) ys 0)
      → (xs ≡ ys) ⊎ Collision p
  same_peaks xs ys hx hy n joined =
      let joined' : concat (peaks_from p (length xs) xs 0)
          ≡ concat (peaks_from p (length xs) ys 0) =
        joined ∙ ap (λ f. concat (peaks_from p f ys 0)) (sym n) in
      peaks_from_injective (length xs) xs ys 0 hx hy n (omega arith) (
        concat_injective (peaks_from p (length xs) xs 0) (peaks_from p (length xs) ys 0)
          (peaks_from-IsHashes (length xs) xs 0 hx) (peaks_from-IsHashes (length xs) ys 0 hy)
          (length-peaks_from-eq (length xs) xs ys 0 n) joined')

  -- Binding, where BLAKE3 digests and leaves have 32 bytes: two forests of as many leaves, whose peaks are
  -- those of their leaves, and that have one root, have the same leaves in the same order, or there is a
  -- collision of BLAKE3.
  pub root_binds :
      (forest other : MerkleForest)
      → IsForest p forest
      → IsForest p other
      → IsHashes forest.leaves
      → IsHashes other.leaves
      → length forest.leaves ≡ length other.leaves
      → root p forest ≡ root p other
      → (forest.leaves ≡ other.leaves) ⊎ Collision p
  root_binds forest other whole whole' hx hy n e =
      elim (Bool-cases (ltb 0 (length forest.leaves))) [
        | inl some_ ↦
            let present : 1 ≤ length forest.leaves = ground (arith, some_) in
            let peaks = peaks_from p (length forest.leaves) forest.leaves 0 in
            let peaks' = peaks_from p (length other.leaves) other.leaves 0 in
            let bags =
              sym (root-eq forest peaks whole (peaks-nonempty forest.leaves present))
              ∙ e
              ∙ root-eq other peaks' whole'
                  (peaks-nonempty other.leaves (omega (arith, present, n))) in
            elim (same-or-Collision p (concat peaks) (concat peaks') bags) [
              | inl joined ↦ same_peaks forest.leaves other.leaves hx hy n joined
              | inr c ↦ inr c
            ]
        | inr none ↦ inl (
            drop_of_le 0 forest.leaves (ground (arith, none))
            ∙ sym (drop_of_le 0 other.leaves (ground (arith, none, n))))
      ]
