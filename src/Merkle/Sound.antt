-- ===== src/Merkle/Sound.antt =====
-- core/iedb-crypto/src/merkle/mod.rs: what `verify` accepts.
use hammurabi_handoff.Prelude.{
  ℕ, zero, suc, ◌/◌, ◌%◌, ◌<◌, ◌≡◌, ◌≢◌, ◌⊎◌, refl, ap, sym, ◌∙◌, arith, true, Bool-cases, some,
  List, [], ◌∷◌, ◌++◌, length, take, drop, get_or, get_elem?, set, take-append_of_length,
  drop-append_of_length, length-append, ◌==◌, inl, inr, ok, if◌then◌else◌,
}
use hammurabi_handoff.Crypto.{Bytes, Primitives}
use hammurabi_handoff.Merkle.{
  Hash, MerkleForest, same_hash, hash_pair, climb, concat, bag, proof, verify,
}
use hammurabi_handoff.Merkle.Path.{pow2}
use hammurabi_handoff.Merkle.Peaks.{
  Found, IsForest, find_peak, find_peak_for_leaf-Found, proof-Found, root-bag, path_to,
  climb-path_to, same_hash_refl,
}

same_hash-eq : (xs ys : Hash) → same_hash xs ys ≡ true → xs ≡ ys
same_hash-eq [] [] h = refl
same_hash-eq [] (y ∷ ys) h = cc h
same_hash-eq (x ∷ xs) [] h = cc h
same_hash-eq (x ∷ xs) (y ∷ ys) h = ground (arith, h, same_hash-eq xs ys)

same-or-not : (xs ys : Bytes) → (xs ≡ ys) ⊎ (xs ≢ ys)
same-or-not xs ys = elim (Bool-cases (same_hash xs ys)) [
  | inl same ↦ inl (same_hash-eq xs ys same)
  | inr other ↦ inr (λ e. cc (other, sym (ap (same_hash xs) e) ∙ same_hash_refl xs))
]

-- The parts of equal sums whose first, or last, parts have one length.
pub append-parts : (a b x y : Bytes) → length a ≡ length b → a ++ x ≡ b ++ y → (a ≡ b) × (x ≡ y)
append-parts a b x y h e = (
  sym (take-append_of_length (length b) a x h)
      ∙ ap (take (length b)) e
      ∙ take-append_of_length (length b) b y refl,
  sym (drop-append_of_length (length b) a x h)
      ∙ ap (drop (length b)) e
      ∙ drop-append_of_length (length b) b y refl,
)

append-parts_right : (a b x y : Bytes) → length x ≡ length y → a ++ x ≡ b ++ y → (a ≡ b) × (x ≡ y)
append-parts_right a b x y h e =
    let sums = sym (length-append a x) ∙ ap length e ∙ length-append b y in
    append-parts a b x y (omega (arith, sums, h)) e

-- Exchanging one part of a sum for another of its length changes the sum.
concat-set :
    (hs : List Hash) (i : ℕ) (h new : Hash)
    → get_elem? hs i ≡ some h
    → length new ≡ length h
    → concat (set hs i new) ≡ concat hs
    → new ≡ h
concat-set [] i h new at long e = cc at
concat-set (x ∷ xs) zero h new at long e =
    let here : x ≡ h = cc at in
    (append-parts new x (concat xs) (concat xs) (long ∙ ap length (sym here)) e).0 ∙ here
concat-set (x ∷ xs) (suc i) h new at long e =
    concat-set xs i h new at long (append-parts x x (concat (set xs i new)) (concat xs) refl e).1

module _ (p : Primitives) where
  -- Two texts of one hash.
  abbrev pub Collision : Type 0
  Collision = (m n : Bytes) × (m ≢ n) × (p.blake3 m ≡ p.blake3 n)

  pub same-or-Collision : (m n : Bytes) → p.blake3 m ≡ p.blake3 n → (m ≡ n) ⊎ Collision
  same-or-Collision m n h = elim (same-or-not m n) [
    | inl same ↦ inl same
    | inr other ↦ inr (m, n, other, h)
  ]

  module _ (length-blake3 : (m : Bytes) → length (p.blake3 m) ≡ 32) where
    parent_of : Hash → Hash → ℕ → Hash
    parent_of a x pos = if pos % 2 == 0 then hash_pair p a x else hash_pair p x a

    length-parent_of : (a x : Hash) (pos : ℕ) → length (parent_of a x pos) ≡ 32
    unfolding parent_of hash_pair
    length-parent_of a x pos = ground (arith, length-blake3 (a ++ x), length-blake3 (x ++ a))

    pub length-climb :
        (a : Hash) (pos : ℕ) (path : List Hash) → length a ≡ 32 → length (climb p a pos path) ≡ 32
    unfolding climb parent_of
    length-climb a pos [] h = h
    length-climb a pos (x ∷ path) h =
        length-climb (parent_of a x pos) (pos / 2) path (length-parent_of a x pos)

    parent_of-parts :
        (a b x y : Hash) (pos : ℕ)
        → length a ≡ length b
        → parent_of a x pos ≡ parent_of b y pos
        → ((a ≡ b) × (x ≡ y)) ⊎ Collision
    unfolding parent_of hash_pair
    parent_of-parts a b x y pos h e = elim (Bool-cases (pos % 2 == 0)) [
      | inl even ↦ elim (same-or-Collision (a ++ x) (b ++ y) (rw even at e)) [
        | inl same ↦ inl (append-parts a b x y h same)
        | inr c ↦ inr c
      ]
      | inr odd ↦ elim (same-or-Collision (x ++ a) (y ++ b) (rw odd at e)) [
        | inl same ↦ let (side, leaf) = append-parts_right x y a b h same in inl (leaf, side)
        | inr c ↦ inr c
      ]
    ]

    -- Two paths of one length that end in one hash are one path from one leaf, or there is a collision.
    pub climb-parts :
        (a b : Hash) (pos : ℕ) (xs ys : List Hash)
        → length a ≡ 32
        → length b ≡ 32
        → length xs ≡ length ys
        → climb p a pos xs ≡ climb p b pos ys
        → ((a ≡ b) × (xs ≡ ys)) ⊎ Collision
    unfolding climb parent_of
    climb-parts a b pos [] [] ha hb h e = inl (e, refl)
    climb-parts a b pos [] (y ∷ ys) ha hb h e = absurd (omega (arith, h))
    climb-parts a b pos (x ∷ xs) [] ha hb h e = absurd (omega (arith, h))
    climb-parts a b pos (x ∷ xs) (y ∷ ys) ha hb h e =
        elim (climb-parts (parent_of a x pos) (parent_of b y pos) (pos / 2) xs ys
          (length-parent_of a x pos) (length-parent_of b y pos) (omega (arith, h)) e) [
            | inl (up, rest) ↦ elim (parent_of-parts a b x y pos (ha ∙ sym hb) up) [
              | inl (leaf, side) ↦ inl (leaf, cc (side, rest))
              | inr c ↦ inr c
            ]
            | inr c ↦ inr c
          ]

    -- What `verify` tests, at the peak of a leaf.
    pub verify_climbs :
        (forest : MerkleForest) (leaf : Hash) (path : List Hash) (index : ℕ)
        → IsForest p forest
        → length leaf ≡ 32
        → (r : Found p forest.leaves (length forest.leaves) index 0 0)
        → index < length forest.leaves
        → (peak : Hash) → get_elem? forest.peaks r.peak ≡ some peak
        → length peak ≡ 32
        → verify p forest leaf path index ≡ true
        → (climb p leaf r.local path ≡ peak) ⊎ Collision
    unfolding verify bag
    verify_climbs forest leaf path index whole long r inside peak at peak_long accepted =
        let current = climb p leaf r.local path in
        let tested = rw (find_peak_for_leaf-Found p forest index inside r, verify) at accepted in
        let bags = same_hash-eq _ _ tested ∙ root-bag p forest forest.peaks r.peak peak refl at in
        elim (same-or-Collision (concat (set forest.peaks r.peak current)) (concat forest.peaks)
          bags) [
            | inl same ↦ inl (
                concat-set forest.peaks r.peak peak current at
                  (length-climb leaf r.local path long ∙ sym peak_long) same)
            | inr c ↦ inr c
          ]

    -- Soundness, where BLAKE3 digests and leaves have 32 bytes: in a forest whose peaks are those of its
    -- leaves, a path as long as the leaf's own proof that `verify` accepts at an index is that proof, and
    -- the leaf is the one at that index, or the two come with a collision of BLAKE3.
    pub verify_sound :
        (forest : MerkleForest) (leaf : Hash) (path own : List Hash) (index : ℕ)
        → IsForest p forest
        → index < length forest.leaves
        → length (get_or forest.leaves index []) ≡ 32
        → length leaf ≡ 32
        → proof p forest index ≡ ok own
        → length path ≡ length own
        → verify p forest leaf path index ≡ true
        → ((leaf ≡ get_or forest.leaves index []) × (path ≡ own)) ⊎ Collision
    verify_sound forest leaf path own index whole inside leaf_long long proved short accepted =
        let r = find_peak p forest index inside in
        let right = path_to p forest.leaves r.start (pow2 r.height) r.local in
        let same_own : right ≡ own = cc (proof-Found p forest index inside r, proved) in
        let ends =
          ap (λ n. climb p (get_or forest.leaves n []) r.local right) (sym r.at)
          ∙ climb-path_to p forest.leaves r.start r.height r.local r.below r.inside in
        let peak = climb p (get_or forest.leaves index []) r.local right in
        let at = ap (λ l. get_elem? l r.peak) whole ∙ r.is_peak ∙ ap some (sym ends) in
        let peak_long = length-climb (get_or forest.leaves index []) r.local right leaf_long in
        elim (verify_climbs forest leaf path index whole long r inside peak at peak_long accepted) [
          | inl met ↦ rw⁻¹ same_own (
              climb-parts leaf (get_or forest.leaves index []) r.local path right long leaf_long
                (short ∙ ap length (sym same_own)) met)
          | inr c ↦ inr c
        ]
