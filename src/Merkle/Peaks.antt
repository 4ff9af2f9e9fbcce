-- ===== src/Merkle/Peaks.antt =====
-- core/iedb-crypto/src/merkle/mod.rs: the peaks of a forest, and the proofs of its leaves.
use hammurabi_handoff.Prelude.{
  ℕ, zero, suc, ◌+◌, ◌-◌, ◌*◌, ◌<◌, ◌≤◌, ◌≡◌, refl, ap, sym, ◌∙◌, arith, Bool-cases, true, false,
  some, List, [], ◌∷◌, length, take, drop, get_or, get_elem?, set-get_elem?_self, length-take_of_le,
  length-drop, ltb, leb, inl, inr, ok,
}
use hammurabi_handoff.Crypto.{Primitives}
use hammurabi_handoff.Merkle.{
  Hash, MerkleForest, same_hash, grow, mountain, find_from, find_peak_for_leaf, levels, siblings,
  climb, build_merkle_tree, peaks_from, recompute_peaks, append, root, bag, proof, verify,
}
use hammurabi_handoff.Merkle.Path.{pow2, pow2-positive, pow2-above, climb-siblings}

-- The mountain's size is a power of two, at least 1, and no more than the leaves that remain.
pub grow-pow2 :
    (f h remaining : ℕ)
    → pow2 h ≤ remaining
    → (k : ℕ) × (grow f (pow2 h) remaining ≡ pow2 k) × (pow2 k ≤ remaining)
unfolding grow
grow-pow2 zero h remaining le = (h, refl, le)
grow-pow2 (suc f) h remaining le = elim (Bool-cases (leb (pow2 h * 2) remaining)) [
  | inl e ↦ let (k, q, b) = grow-pow2 f (suc h) remaining (ground (arith, e)) in (k, rw e q, b)
  | inr e ↦ (h, rw e refl, le)
]

pub same_hash_refl : (h : Hash) → same_hash h h ≡ true
same_hash_refl [] = refl
same_hash_refl (x ∷ xs) = ground (arith, same_hash_refl xs)

pub get_or-take : (n i : ℕ) (xs : List Hash) → i < n → get_or (take n xs) i [] ≡ get_or xs i []
get_or-take zero i xs h = absurd (omega arith)
get_or-take (suc n) i [] h = refl
get_or-take (suc n) zero (x ∷ xs) h = refl
get_or-take (suc n) (suc i) (x ∷ xs) h = get_or-take n i xs (omega arith)

get_or-drop : (n i : ℕ) (xs : List Hash) → get_or (drop n xs) i [] ≡ get_or xs (n + i) []
get_or-drop zero i xs = let e : zero + i ≡ i = omega arith in rw e refl
get_or-drop (suc n) i [] = refl
get_or-drop (suc n) i (x ∷ xs) =
    let e : suc n + i ≡ suc (n + i) = omega arith in rw e (get_or-drop n i xs)

module _ (p : Primitives) (leaves : List Hash) where
  -- Where a leaf stands: its peak, its place below it, and the size of the peak's tree.
  pub record Found (f index first offset : ℕ) : Type 0 where
    pub peak : ℕ
    pub local : ℕ
    pub height : ℕ
    pub found :
        find_from f (length leaves) index first offset ≡ ok (first + peak, local, pow2 height)
    pub below : local < pow2 height
    pub start : ℕ
    pub at : start + local ≡ index
    pub inside : start + pow2 height ≤ length leaves
    pub is_peak :
        get_elem? (peaks_from p f leaves offset) peak
        ≡ some (build_merkle_tree p leaves start (pow2 height))

  Found-here :
      (f index first offset k : ℕ)
      → offset ≤ index
      → index < offset + pow2 k
      → offset + pow2 k ≤ length leaves
      → mountain (length leaves - offset) ≡ pow2 k
      → Found (suc f) index first offset
  unfolding find_from peaks_from
  Found-here f index first offset k lo hi fits size =
      let open_ : ltb offset (length leaves) ≡ true = ground arith in
      let here : ltb index (offset + pow2 k) ≡ true = ground arith in
      let same : first ≡ first + 0 = omega arith in
      record {
        peak = 0;
        local = index - offset;
        height = k;
        found = rw (open_, size, here) (ap (λ n. ok (n, index - offset, pow2 k)) same);
        below = omega arith;
        start = offset;
        at = omega arith;
        inside = fits;
        is_peak = rw (open_, size) refl;
      }

  Found-later :
      (f index first offset k : ℕ)
      → offset < length leaves
      → offset + pow2 k ≤ index
      → mountain (length leaves - offset) ≡ pow2 k
      → Found f index (first + 1) (offset + pow2 k)
      → Found (suc f) index first offset
  unfolding find_from peaks_from
  Found-later f index first offset k hi lo size r =
      let open_ : ltb offset (length leaves) ≡ true = ground arith in
      let later : ltb index (offset + pow2 k) ≡ false = ground arith in
      let same : first + 1 + r.peak ≡ first + suc r.peak = omega arith in
      record {
        peak = suc r.peak;
        local = r.local;
        height = r.height;
        found = rw (open_, size, later) (r.found ∙ ap (λ n. ok (n, r.local, pow2 r.height)) same);
        below = r.below;
        start = r.start;
        at = r.at;
        inside = r.inside;
        is_peak = rw (open_, size) r.is_peak;
      }

  -- With enough fuel, the search finds the tree that holds the leaf, and the peak in its place is that
  -- tree's root.
  find_from-Found :
      (f index first offset : ℕ)
      → offset ≤ index
      → index < length leaves
      → length leaves ≤ offset + f
      → Found f index first offset
  find_from-Found zero index first offset lo hi fuel = absurd (omega arith)
  find_from-Found (suc f) index first offset lo hi fuel =
      let (k, size, fits) =
        grow-pow2 (length leaves - offset) 0 (length leaves - offset) (omega arith) in
      elim (Bool-cases (ltb index (offset + pow2 k))) [
        | inl here ↦ Found-here f index first offset k lo (ground (arith, here)) (omega arith) size
        | inr later ↦
            Found-later f index first offset k (omega arith) (ground (arith, later)) size (
              find_from-Found f index (first + 1) (offset + pow2 k) (ground (arith, later)) hi
                (omega (arith, pow2-positive k)))
      ]

module _ (p : Primitives) where
  -- A forest whose peaks are those of its leaves.
  abbrev pub IsForest : MerkleForest → Type 0
  IsForest forest = forest.peaks ≡ peaks_from p (length forest.leaves) forest.leaves 0

  -- Every leaf that is appended, to whatever forest, leaves a forest whose peaks are those of its leaves.
  pub append-IsForest : (forest : MerkleForest) (leaf : Hash) → IsForest (append p forest leaf)
  unfolding append recompute_peaks
  append-IsForest forest leaf = refl

  pub root-bag :
      (forest : MerkleForest) (peaks : List Hash) (i : ℕ) (peak : Hash)
      → forest.peaks ≡ peaks
      → get_elem? peaks i ≡ some peak
      → root p forest ≡ bag p forest.peaks
  unfolding root
  root-bag forest [] i peak e h = cc h
  root-bag forest (x ∷ xs) i peak e h = rw e refl

  -- A path that climbs to the peak that stands in its place verifies.
  verify_at :
      (forest : MerkleForest) (leaf : Hash) (path : List Hash) (index i local size : ℕ)
      → find_peak_for_leaf forest index ≡ ok (i, local, size)
      → get_elem? forest.peaks i ≡ some (climb p leaf local path)
      → verify p forest leaf path index ≡ true
  unfolding verify
  verify_at forest leaf path index i local size e h =
      rw
        (
          e,
          verify,
          set-get_elem?_self forest.peaks i (climb p leaf local path) h,
          root-bag forest forest.peaks i (climb p leaf local path) refl h,
        )
        (same_hash_refl (bag p forest.peaks))

  -- The path of a leaf that was found, and where it ends.
  unfoldable pub path_to : (leaves : List Hash) → ℕ → ℕ → ℕ → List Hash
  path_to leaves start size local = siblings p (levels p size (take size (drop start leaves))) local

  pub climb-path_to :
      (leaves : List Hash) (start h local : ℕ)
      → local < pow2 h
      → start + pow2 h ≤ length leaves
      → climb p (get_or leaves (start + local) []) local (path_to leaves start (pow2 h) local)
        ≡ build_merkle_tree p leaves start (pow2 h)
  unfolding path_to build_merkle_tree
  climb-path_to leaves start h local below inside =
      let level = take (pow2 h) (drop start leaves) in
      let size : length level ≡ pow2 h =
        length-take_of_le (pow2 h) (drop start leaves) (omega (arith, length-drop start leaves)) in
      let leaf : get_or leaves (start + local) [] ≡ get_or level local [] =
        sym
          (get_or-take (pow2 h) local (drop start leaves) below ∙ get_or-drop start local leaves) in
      rw leaf (climb-siblings p h (pow2 h) level local size (omega (arith, pow2-above h)) below)

  pub find_peak :
      (forest : MerkleForest) (index : ℕ)
      → index < length forest.leaves
      → Found p forest.leaves (length forest.leaves) index 0 0
  find_peak forest index lt =
      find_from-Found p forest.leaves (length forest.leaves) index 0 0 (omega arith) lt
        (omega arith)

  pub find_peak_for_leaf-Found :
      (forest : MerkleForest) (index : ℕ)
      → index < length forest.leaves
      → (r : Found p forest.leaves (length forest.leaves) index 0 0)
      → find_peak_for_leaf forest index ≡ ok (r.peak, r.local, pow2 r.height)
  unfolding find_peak_for_leaf
  find_peak_for_leaf-Found forest index lt r =
      let inside : leb (length forest.leaves) index ≡ false = ground arith in
      let same : 0 + r.peak ≡ r.peak = omega arith in
      rw inside (r.found ∙ ap (λ n. ok (n, r.local, pow2 r.height)) same)

  pub proof-Found :
      (forest : MerkleForest) (index : ℕ)
      → index < length forest.leaves
      → (r : Found p forest.leaves (length forest.leaves) index 0 0)
      → proof p forest index ≡ ok (path_to forest.leaves r.start (pow2 r.height) r.local)
  unfolding proof path_to
  proof-Found forest index lt r =
      let start : index - r.local ≡ r.start = omega (arith, r.at) in
      rw (find_peak_for_leaf-Found forest index lt r, start) refl

  verify-Found :
      (forest : MerkleForest) (index : ℕ)
      → IsForest forest
      → index < length forest.leaves
      → (r : Found p forest.leaves (length forest.leaves) index 0 0)
      → verify p forest
          (get_or forest.leaves index [])
          (path_to forest.leaves r.start (pow2 r.height) r.local)
          index
        ≡ true
  verify-Found forest index h lt r =
      let path = path_to forest.leaves r.start (pow2 r.height) r.local in
      let ends =
        ap (λ n. climb p (get_or forest.leaves n []) r.local path) (sym r.at)
        ∙ climb-path_to forest.leaves r.start r.height r.local r.below r.inside in
      verify_at forest (get_or forest.leaves index []) path index r.peak r.local (pow2 r.height)
        (find_peak_for_leaf-Found forest index lt r)
        (ap (λ l. get_elem? l r.peak) h ∙ r.is_peak ∙ ap some (sym ends))

  -- The proof of any leaf exists and verifies: for every index below the number of leaves, `proof` gives
  -- a path, and `verify` accepts that path for the leaf at that index, in a forest whose peaks are those
  -- of its leaves.
  pub verify-proof :
      (forest : MerkleForest) (index : ℕ)
      → IsForest forest
      → index < length forest.leaves
      → (path : List Hash) × (proof p forest index ≡ ok path)
        × (verify p forest (get_or forest.leaves index []) path index ≡ true)
  verify-proof forest index h lt =
      let r = find_peak forest index lt in
      (
        path_to forest.leaves r.start (pow2 r.height) r.local,
        proof-Found forest index lt r,
        verify-Found forest index h lt r,
      )
