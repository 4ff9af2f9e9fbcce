-- ===== src/Merkle/Inner.antt =====
-- core/iedb-crypto/src/merkle/mod.rs: the inner nodes that `verify` takes for leaves.
use hammurabi_handoff.Prelude.{
  ℕ, zero, suc, ◌<◌, ◌≡◌, ◌⊎◌, refl, ap, ◌∙◌, sym, arith, true, false, Bool-cases, some, List, [],
  ◌∷◌, ◌++◌, length, take, get_or, get_elem?, ltb, inl, inr, ok,
}
use mathlib.Core.Path.{subst}
use hammurabi_handoff.Crypto.{Bytes, Primitives}
use hammurabi_handoff.Merkle.{
  Hash, MerkleForest, hash_pair, next_level, siblings, levels, climb, proof, verify,
}
use hammurabi_handoff.Merkle.Path.{pow2, siblings-levels}
use hammurabi_handoff.Merkle.Peaks.{
  IsForest, find_peak, find_peak_for_leaf-Found, proof-Found, verify-proof, path_to, climb-path_to,
}
use hammurabi_handoff.Merkle.Sound.{Collision, climb-parts, length-climb, verify_climbs}

get_or-take_some :
    (n i : ℕ) (xs : List Hash) → i < length (take n xs) → get_or (take n xs) i [] ≡ get_or xs i []
get_or-take_some zero i xs h = absurd (omega (arith, h))
get_or-take_some (suc n) i [] h = refl
get_or-take_some (suc n) zero (x ∷ xs) h = refl
get_or-take_some (suc n) (suc i) (x ∷ xs) h = get_or-take_some n i xs (omega (arith, h))

module _ (p : Primitives) where
  -- The first step of a path from the first node of a level is the second node.
  first_sibling :
      (f : ℕ) (level path : List Hash) (sibling : Hash)
      → siblings p (levels p f level) 0 ≡ sibling ∷ path
      → (sibling ≡ get_or level 1 []) × (1 < length level)
  unfolding siblings levels
  first_sibling zero level path sibling h = cc h
  first_sibling (suc f) level path sibling h = elim (Bool-cases (ltb 1 (length level))) [
    | inl long ↦
        let steps = rw (long, siblings-levels p level (next_level p level) f 0, long) at h in
        (cc steps, ground (arith, long))
    | inr short ↦ cc (rw short at h)
  ]

  -- At the first leaf, `verify` answers for a path as for the hash of the first pair and the rest of it.
  verify-first_pair :
      (forest : MerkleForest) (leaf sibling : Hash) (path : List Hash)
      → 0 < length forest.leaves
      → verify p forest leaf (sibling ∷ path) 0
        ≡ verify p forest (p.blake3 (leaf ++ sibling)) path 0
  unfolding climb verify hash_pair
  verify-first_pair forest leaf sibling path inside =
      let r = find_peak p forest 0 inside in
      let first : r.local ≡ 0 = omega (arith, r.at) in
      let found = find_peak_for_leaf-Found p forest 0 inside r in rw (found, verify, first) refl

  module _ (length-blake3 : (m : Bytes) → length (p.blake3 m) ≡ 32) (forest : MerkleForest)
      (sibling : Hash) (path : List Hash) (whole : IsForest p forest)
      (inside : 0 < length forest.leaves) (proved : proof p forest 0 ≡ ok (sibling ∷ path)) where
    -- The parent of the first two leaves.
    abbrev parent : Hash
    parent = p.blake3 (get_or forest.leaves 0 [] ++ get_or forest.leaves 1 [])

    second_leaf : sibling ≡ get_or forest.leaves 1 []
    unfolding path_to
    second_leaf =
        let r = find_peak p forest 0 inside in
        let start : r.start ≡ 0 = omega (arith, r.at) in
        let local : r.local ≡ 0 = omega (arith, r.at) in
        let own : path_to p forest.leaves r.start (pow2 r.height) r.local ≡ sibling ∷ path =
          cc (proof-Found p forest 0 inside r, proved) in
        let (same, long) =
          first_sibling (pow2 r.height) (take (pow2 r.height) forest.leaves) path sibling
            (rw (start, local) at own) in
        same ∙ get_or-take_some (pow2 r.height) 1 forest.leaves long

    accepts_parent : verify p forest parent path 0 ≡ true
    accepts_parent =
        let (own, same, accepted) = verify-proof p forest 0 whole inside in
        let path_is : own ≡ sibling ∷ path = cc (same, proved) in
        let leaf = get_or forest.leaves 0 [] in
        subst (λ s. verify p forest (p.blake3 (leaf ++ s)) path 0 ≡ true) second_leaf
          (sym (verify-first_pair forest leaf sibling path inside) ∙ (rw path_is at accepted))

    only_parent :
        (node : Hash)
        → length node ≡ 32
        → length (get_or forest.leaves 0 []) ≡ 32
        → verify p forest node path 0 ≡ true
        → (node ≡ parent) ⊎ Collision p
    unfolding climb hash_pair
    only_parent node long leaf_long accepted =
        let leaf = get_or forest.leaves 0 [] in
        let r = find_peak p forest 0 inside in
        let local : r.local ≡ 0 = omega (arith, r.at) in
        let right = path_to p forest.leaves r.start (pow2 r.height) r.local in
        let own : right ≡ sibling ∷ path = cc (proof-Found p forest 0 inside r, proved) in
        let ends =
          ap (λ n. climb p (get_or forest.leaves n []) r.local right) (sym r.at)
          ∙ climb-path_to p forest.leaves r.start r.height r.local r.below r.inside in
        let peak = climb p leaf r.local right in
        let at = ap (λ l. get_elem? l r.peak) whole ∙ r.is_peak ∙ ap some (sym ends) in
        let peak_long = length-climb p length-blake3 leaf r.local right leaf_long in
        elim (verify_climbs p length-blake3 forest node path 0 whole long r inside peak at peak_long
          accepted) [
            | inl met ↦
                let ends_alike : climb p node 0 path ≡ climb p parent 0 path =
                  ap (λ i. climb p node i path) (sym local)
                  ∙ met
                  ∙ ap (λ i. climb p leaf i right) local
                  ∙ ap (climb p leaf 0) own
                  ∙ ap (λ s. climb p (p.blake3 (leaf ++ s)) 0 path) second_leaf in
                elim (climb-parts p length-blake3 node parent 0 path path long (length-blake3 _)
                  refl ends_alike) [ inl (same, _) ↦ inl same | inr c ↦ inr c ]
            | inr c ↦ inr c
          ]

    -- Where BLAKE3 digests have 32 bytes, and the first leaf too, in a forest whose peaks are those of its
    -- leaves: if the first leaf's proof has a first step, then that is the second leaf; `verify` accepts,
    -- with the rest of that proof, the hash of the first two leaves, an inner node, as the leaf at index
    -- 0; and of all nodes of 32 bytes it accepts, with that path at that index, no other, or there is a
    -- collision of BLAKE3.
    pub verify_parent :
        (node : Hash)
        → length node ≡ 32
        → length (get_or forest.leaves 0 []) ≡ 32
        → (sibling ≡ get_or forest.leaves 1 [])
          × (verify p forest
                (p.blake3 (get_or forest.leaves 0 [] ++ get_or forest.leaves 1 []))
                path
                0
              ≡ true)
          × ((verify p forest node path 0 ≡ false)
              ⊎ (node ≡ p.blake3 (get_or forest.leaves 0 [] ++ get_or forest.leaves 1 []))
              ⊎ Collision p)
    verify_parent node long leaf_long = (
      second_leaf,
      accepts_parent,
      elim (Bool-cases (verify p forest node path 0)) [
        | inl accepted ↦ inr (only_parent node long leaf_long accepted)
        | inr refused ↦ inl refused
      ],
    )
