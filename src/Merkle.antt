-- ===== src/Merkle.antt =====
-- core/iedb-crypto/src/merkle/mod.rs: an append-only forest of Merkle trees, and its inclusion proofs.
-- A `while` loop is recursion on fuel.
pub mod Path
pub mod Peaks
pub mod Sound
pub mod Inner
pub mod Exits
pub mod Trees
pub mod Commitment
pub mod Exchange
use hammurabi_handoff.Prelude.{
  ℕ, zero, suc, ◌+◌, ◌-◌, ◌*◌, ◌/◌, ◌%◌, String, Bool, not, true, false, List, [], ◌∷◌, ◌++◌,
  length, drop, take, get_or, set, ltb, leb, ◌==◌, ◌&&◌, Result, ok, err, ◌>>=◌, if◌then◌else◌,
}
use hammurabi_handoff.Crypto.{Bytes, Primitives}

pub data MmrError : Type 0 where
  index_out_of_bounds : ℕ → MmrError
  empty : MmrError
  proof_verification_failed : MmrError
  root_mismatch : String → String → MmrError

abbrev pub Hash : Type 0
Hash = Bytes

pub record MerkleForest : Type 0 where
  pub leaves : List Hash
  pub peaks : List Hash
  pub count : ℕ

abbrev pub new : MerkleForest
new = record { leaves = []; peaks = []; count = 0 }

-- `*a == *b` of two hashes.
abbrev pub same_hash : Hash → Hash → Bool
same_hash [] [] = true
same_hash (x ∷ xs) (y ∷ ys) = (x == y) && same_hash xs ys
same_hash _ _ = false

-- `while size * 2 <= remaining { size *= 2; }`.
unfoldable pub grow : ℕ → ℕ → ℕ → ℕ
grow zero size remaining = size
grow (suc f) size remaining =
    let bigger = grow f (size * 2) remaining in if leb (size * 2) remaining then bigger else size

abbrev pub mountain : ℕ → ℕ
mountain remaining = grow remaining 1 remaining

unfoldable pub get_leaf : MerkleForest → ℕ → Result MmrError Hash
get_leaf forest index =
    if leb (length forest.leaves) index
    then err (index_out_of_bounds index)
    else ok (get_or forest.leaves index [])

-- The loop of `find_peak_for_leaf`, from a peak and an offset on.
unfoldable pub find_from : ℕ → ℕ → ℕ → ℕ → ℕ → Result MmrError (ℕ × ℕ × ℕ)
find_from zero n index peak_idx offset = err (index_out_of_bounds index)
find_from (suc f) n index peak_idx offset =
    let size = mountain (n - offset) in
    let rest = find_from f n index (peak_idx + 1) (offset + size) in
    if ltb offset n
    then (if ltb index (offset + size) then ok (peak_idx, index - offset, size) else rest)
    else err (index_out_of_bounds index)

unfoldable pub find_peak_for_leaf : MerkleForest → ℕ → Result MmrError (ℕ × ℕ × ℕ)
find_peak_for_leaf forest index =
    let n = length forest.leaves in
    if leb n index then err (index_out_of_bounds index) else find_from n n index 0 0

-- `[0u8; n]`.
abbrev zeros : ℕ → Hash
zeros zero = []
zeros (suc n) = 0 ∷ zeros n

abbrev pub concat : List Hash → Bytes
concat [] = []
concat (h ∷ hs) = h ++ concat hs

module _ (p : Primitives) where
  unfoldable pub hash_pair : Hash → Hash → Hash
  hash_pair a b = p.blake3 (a ++ b)

  -- One round of the loop over levels: `chunks(2)`.
  unfoldable pub next_level : List Hash → List Hash
  unfolding hash_pair
  next_level [] = []
  next_level (a ∷ []) = a ∷ []
  next_level (a ∷ b ∷ rest) = hash_pair a b ∷ next_level rest

  -- `while level.len() > 1`: the last level, and all levels.
  unfoldable pub top_level : ℕ → List Hash → List Hash
  top_level zero level = level
  top_level (suc f) level =
      let top = top_level f (next_level level) in if ltb 1 (length level) then top else level

  unfoldable pub levels : ℕ → List Hash → List (List Hash)
  levels zero level = level ∷ []
  levels (suc f) level =
      let above = levels f (next_level level) in
      if ltb 1 (length level) then level ∷ above else level ∷ []

  unfoldable pub build_merkle_tree : List Hash → ℕ → ℕ → Hash
  unfolding top_level
  build_merkle_tree leaves start size = get_or (top_level size (take size (drop start leaves))) 0 []

  -- The loop of `recompute_peaks`, from leaf `i` on.
  unfoldable pub peaks_from : ℕ → List Hash → ℕ → List Hash
  peaks_from zero leaves i = []
  peaks_from (suc f) leaves i =
      let size = mountain (length leaves - i) in
      let rest = peaks_from f leaves (i + size) in
      if ltb i (length leaves) then build_merkle_tree leaves i size ∷ rest else []

  unfoldable pub recompute_peaks : MerkleForest → MerkleForest
  unfolding peaks_from
  recompute_peaks forest = record forest {
    peaks = peaks_from (length forest.leaves) forest.leaves 0;
  }

  unfoldable pub append : MerkleForest → Hash → MerkleForest
  append forest leaf =
      recompute_peaks
        (record forest { leaves = forest.leaves ++ leaf ∷ []; count = forest.count + 1 })

  -- `hasher.update` of every peak, `finalize`.
  unfoldable pub bag : List Hash → Hash
  bag peaks = p.blake3 (concat peaks)

  unfoldable pub root : MerkleForest → Hash
  root forest = elim forest.peaks [ [] ↦ zeros 32 | _ ∷ _ ↦ bag forest.peaks ]

  -- The siblings along the path to the peak, over all levels but the last.
  unfoldable pub siblings : List (List Hash) → ℕ → List Hash
  siblings [] pos = []
  siblings (nodes ∷ []) pos = []
  siblings (nodes ∷ above ∷ more) pos =
      let rest = siblings (above ∷ more) (pos / 2) in
      if (pos % 2 == 0) && ltb (pos + 1) (length nodes)
      then get_or nodes (pos + 1) [] ∷ rest
      else if pos % 2 == 1
      then get_or nodes (pos - 1) [] ∷ rest
      else rest

  unfoldable pub proof : MerkleForest → ℕ → Result MmrError (List Hash)
  unfolding siblings levels
  proof forest index = do
    (_, local_idx, mountain_size) ← find_peak_for_leaf forest index
    let start = index - local_idx
    let level = take mountain_size (drop start forest.leaves)
    ok (siblings (levels mountain_size level) local_idx)

  -- The loop of `verify` over the siblings.
  unfoldable pub climb : Hash → ℕ → List Hash → Hash
  climb current pos [] = current
  climb current pos (sibling ∷ rest) =
      let parent = if pos % 2 == 0 then hash_pair current sibling else hash_pair sibling current in
      climb parent (pos / 2) rest

  unfoldable pub verify : MerkleForest → Hash → List Hash → ℕ → Bool
  unfolding climb
  verify forest leaf path index = elim (find_peak_for_leaf forest index) [
    | err _ ↦ false
    | ok (peak_idx, local_idx, _) ↦
        let current = climb leaf local_idx path in
        let all_peaks = set forest.peaks peak_idx current in same_hash (bag all_peaks) (root forest)
  ]

  unfoldable pub verify_with_root :
      MerkleForest → Hash → List Hash → ℕ → Hash → Result MmrError (Unit {0})
  verify_with_root forest leaf path index expected_root = do
    (peak_idx, local_idx, _) ← find_peak_for_leaf forest index
    let current = climb leaf local_idx path
    let computed_root = bag (set forest.peaks peak_idx current)
    (if not (same_hash computed_root expected_root)
        then err (root_mismatch (p.hex_encode expected_root) (p.hex_encode computed_root))
        else ok tt)
