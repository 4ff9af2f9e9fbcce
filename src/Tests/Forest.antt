-- ===== src/Tests/Forest.antt =====
-- core/iedb-crypto/src/merkle/mod.rs at concrete inputs.
use hammurabi_handoff.Prelude.{
  ℕ, length, refl, ◌++◌, ◌+◌, ◌*◌, ◌%◌, ◌<◌, ◌≤◌, ◌⊎◌, ◌≡◌, arith, List, [], ◌∷◌, ok, true, false,
  get_or,
}
use hammurabi_handoff.Merkle.{
  Hash, MerkleForest, new, append, recompute_peaks, proof, verify, find_peak_for_leaf, find_from,
  grow, next_level, bag, root, build_merkle_tree, mountain, peaks_from, top_level, hash_pair,
}
use hammurabi_handoff.Merkle.Path.{pow2}
use hammurabi_handoff.Merkle.Sound.{Collision, verify_sound}
use hammurabi_handoff.Merkle.Inner.{verify_parent}
use hammurabi_handoff.Merkle.Exits.{loops_exit}
use hammurabi_handoff.Merkle.Commitment.{root_binds}
use hammurabi_handoff.Merkle.Exchange.{to_json, from_json, from_json-to_json}
use hammurabi_handoff.Crypto.{Bytes, Primitives}
use hammurabi_handoff.Merkle.Peaks.{append-IsForest, verify-proof}
use hammurabi_handoff.Tests.Toy.{toy, toy-Laws, replicate, length-replicate, total}

-- Three leaves: a tree of two, and a tree of one.
abbrev forest_2 : MerkleForest
forest_2 = append toy (append toy new (1 ∷ [])) (2 ∷ [])

abbrev forest_3 : MerkleForest
forest_3 = append toy forest_2 (3 ∷ [])

verify-proof_example :
    (path : List Hash) × (proof toy forest_3 1 ≡ ok path)
    × (verify toy forest_3 (get_or forest_3.leaves 1 []) path 1 ≡ true)
unfolding append recompute_peaks
verify-proof_example =
    verify-proof toy forest_3 1 (append-IsForest toy forest_2 (3 ∷ [])) (omega arith)

-- Hashes of 32 bytes.
unfoldable toy_32 : Primitives
unfolding toy
toy_32 = record toy { blake3 = λ bytes. replicate 32 (total bytes % 251) }

length-toy_32 : (m : Bytes) → length (toy_32.blake3 m) ≡ 32
unfolding toy_32
length-toy_32 m = length-replicate 32 (total m % 251)

abbrev leaf_1 : Hash
leaf_1 = replicate 32 1

abbrev leaf_2 : Hash
leaf_2 = replicate 32 2

abbrev pair_1 : MerkleForest
pair_1 = append toy_32 (append toy_32 new leaf_1) leaf_2

verify_sound_example :
    ((leaf_1 ≡ get_or pair_1.leaves 0 []) × (leaf_2 ∷ [] ≡ leaf_2 ∷ [])) ⊎ Collision toy_32
unfolding toy_32 append recompute_peaks proof verify find_peak_for_leaf find_from grow next_level
    bag root build_merkle_tree
verify_sound_example =
    verify_sound toy_32 length-toy_32 pair_1 leaf_1 (leaf_2 ∷ []) (leaf_2 ∷ []) 0
      (append-IsForest toy_32 (append toy_32 new leaf_1) leaf_2) (omega arith) refl refl refl refl
      refl

-- The other order of the leaves has the same root, over this hash, which only adds.
abbrev pair_2 : MerkleForest
pair_2 = append toy_32 (append toy_32 new leaf_2) leaf_1

root_binds_example : (pair_1.leaves ≡ pair_2.leaves) ⊎ Collision toy_32
unfolding toy_32 append recompute_peaks peaks_from build_merkle_tree top_level next_level hash_pair
    bag root grow
root_binds_example =
    root_binds toy_32 length-toy_32 pair_1 pair_2
      (append-IsForest toy_32 (append toy_32 new leaf_1) leaf_2)
      (append-IsForest toy_32 (append toy_32 new leaf_2) leaf_1) (refl, (refl, tt))
      (refl, (refl, tt)) refl refl

verify_parent_example :
    (leaf_2 ≡ get_or pair_1.leaves 1 [])
    × (verify toy_32 pair_1 (toy_32.blake3 (leaf_1 ++ leaf_2)) [] 0 ≡ true)
    × ((verify toy_32 pair_1 leaf_2 [] 0 ≡ false)
        ⊎ (leaf_2 ≡ toy_32.blake3 (leaf_1 ++ leaf_2))
        ⊎ Collision toy_32)
unfolding toy_32 append recompute_peaks proof find_peak_for_leaf find_from grow next_level
verify_parent_example =
    verify_parent toy_32 length-toy_32 pair_1 leaf_2 []
      (append-IsForest toy_32 (append toy_32 new leaf_1) leaf_2) (omega arith) refl leaf_2 refl refl

loops_exit_example :
    ((k : ℕ) × (mountain 6 ≡ pow2 k) × (pow2 k ≤ 6) × (6 < pow2 k * 2))
    × (peaks_from toy (3 + 5) forest_3.leaves 0 ≡ peaks_from toy 3 forest_3.leaves 0)
    × (length (top_level toy 3 forest_3.leaves) ≤ 1)
unfolding append recompute_peaks
loops_exit_example = loops_exit toy forest_3.leaves 6 5 (omega arith)

abbrev read_1 : MerkleForest
read_1 = record { leaves = leaf_1 ∷ leaf_2 ∷ []; peaks = leaf_1 ∷ []; count = 2 }

from_json-to_json_example : from_json toy (to_json toy read_1) ≡ ok read_1
from_json-to_json_example = from_json-to_json toy toy-Laws read_1 (refl, (refl, tt)) (refl, tt)
