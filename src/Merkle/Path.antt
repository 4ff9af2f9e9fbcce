-- ===== src/Merkle/Path.antt =====
-- core/iedb-crypto/src/merkle/mod.rs: the path from a leaf of a full tree to its peak.
use hammurabi_handoff.Prelude.{
  ℕ, zero, suc, ◌+◌, ◌-◌, ◌*◌, ◌/◌, ◌%◌, ◌<◌, ◌≤◌, ◌≡◌, refl, ap, ◌∙◌, arith, Bool-cases, true,
  false, List, [], ◌∷◌, length, get_or, ltb, ◌==◌, ◌&&◌, ◌⊎◌, inl, inr, if◌then◌else◌,
}
use hammurabi_handoff.Crypto.{Primitives}
use hammurabi_handoff.Merkle.{Hash, hash_pair, next_level, top_level, levels, siblings, climb}

-- The sizes of full trees.
abbrev pub pow2 : ℕ → ℕ
pow2 zero = 1
pow2 (suc h) = pow2 h * 2

pub pow2-positive : (h : ℕ) → 1 ≤ pow2 h
pow2-positive zero = omega arith
pow2-positive (suc h) = omega (arith, pow2-positive h)

pub pow2-above : (h : ℕ) → h < pow2 h
pow2-above zero = omega arith
pow2-above (suc h) = omega (arith, pow2-above h)

parity : (n : ℕ) → (n ≡ 2 * (n / 2)) ⊎ (n ≡ 2 * (n / 2) + 1)
parity n = ground arith

module _ (p : Primitives) where
  get_or-next_level :
      (level : List Hash) (i : ℕ)
      → 2 * i + 1 < length level
      → get_or (next_level p level) i []
        ≡ hash_pair p (get_or level (2 * i) []) (get_or level (2 * i + 1) [])
  unfolding next_level
  get_or-next_level [] i h = absurd (omega arith)
  get_or-next_level (a ∷ []) i h = absurd (omega arith)
  get_or-next_level (a ∷ b ∷ rest) zero h = refl
  get_or-next_level (a ∷ b ∷ rest) (suc i) h =
      let e : 2 * suc i ≡ suc (suc (2 * i)) = omega arith in
      let e' : 2 * suc i + 1 ≡ suc (suc (2 * i + 1)) = omega arith in
      rw (e', e) (get_or-next_level rest i (omega arith))

  length-next_level :
      (level : List Hash) (k : ℕ) → length level ≡ k * 2 → length (next_level p level) ≡ k
  unfolding next_level
  length-next_level [] zero h = refl
  length-next_level [] (suc k) h = absurd (omega arith)
  length-next_level (a ∷ []) k h = absurd (omega arith)
  length-next_level (a ∷ b ∷ rest) zero h = absurd (omega arith)
  length-next_level (a ∷ b ∷ rest) (suc k) h = ap suc (length-next_level rest k (omega arith))

  -- One round of `siblings`, whatever the levels above are.
  pub siblings-levels :
      (nodes level : List Hash) (f pos : ℕ)
      → siblings p (nodes ∷ levels p f level) pos ≡ (
          if (pos % 2 == 0) && ltb (pos + 1) (length nodes)
          then get_or nodes (pos + 1) [] ∷ siblings p (levels p f level) (pos / 2)
          else if pos % 2 == 1
          then get_or nodes (pos - 1) [] ∷ siblings p (levels p f level) (pos / 2)
          else siblings p (levels p f level) (pos / 2))
  unfolding siblings levels
  siblings-levels nodes level zero pos = refl
  siblings-levels nodes level (suc f) pos = elim (Bool-cases (ltb 1 (length level))) [
    | inl e ↦ rw e refl
    | inr e ↦ rw e refl
  ]

  -- The first sibling joins with the node to the parent, in the order of their positions.
  climb_step :
      (level path : List Hash) (pos : ℕ)
      → pos < length level
      → length level % 2 ≡ 0
      → climb p (get_or level pos []) pos (
          if (pos % 2 == 0) && ltb (pos + 1) (length level)
          then get_or level (pos + 1) [] ∷ path
          else if pos % 2 == 1
          then get_or level (pos - 1) [] ∷ path
          else path)
        ≡ climb p (get_or (next_level p level) (pos / 2) []) (pos / 2) path
  unfolding climb
  climb_step level path pos hp even = elim (parity pos) [
    | inl e ↦
        let at : 2 * (pos / 2) ≡ pos = omega arith in
        let zero_bit : (pos % 2 == 0) ≡ true = ground arith in
        let inside : ltb (pos + 1) (length level) ≡ true = ground arith in
        rw (zero_bit, inside, get_or-next_level level (pos / 2) (omega arith), at)
          (rw (zero_bit, climb) refl)
    | inr e ↦
        let at : 2 * (pos / 2) + 1 ≡ pos = omega arith in
        let left : 2 * (pos / 2) ≡ pos - 1 = omega arith in
        let zero_bit : (pos % 2 == 0) ≡ false = ground arith in
        let one_bit : (pos % 2 == 1) ≡ true = ground arith in
        rw (zero_bit, one_bit, get_or-next_level level (pos / 2) (omega arith), at, left)
          (rw (zero_bit, climb) refl)
  ]

  -- From any node of a full tree, the hashes along the path end in the tree's root.
  pub climb-siblings :
      (h f : ℕ) (level : List Hash) (pos : ℕ)
      → length level ≡ pow2 h
      → h ≤ f
      → pos < pow2 h
      → climb p (get_or level pos []) pos (siblings p (levels p f level) pos)
        ≡ get_or (top_level p f level) 0 []
  unfolding levels top_level siblings climb
  climb-siblings zero zero level pos n hf hp = let z : pos ≡ 0 = omega arith in rw z refl
  climb-siblings zero (suc f) level pos n hf hp =
      let z : pos ≡ 0 = omega arith in
      let short : ltb 1 (length level) ≡ false = ground arith in rw (z, short) refl
  climb-siblings (suc h) zero level pos n hf hp = absurd (omega arith)
  climb-siblings (suc h) (suc f) level pos n hf hp =
      let long : ltb 1 (length level) ≡ true = ground (arith, pow2-positive h) in
      rw (long, siblings-levels level (next_level p level) f pos)
        (climb_step level (siblings p (levels p f (next_level p level)) (pos / 2)) pos (omega arith)
            (omega arith)
          ∙ climb-siblings h f (next_level p level) (pos / 2)
              (length-next_level level (pow2 h) (omega arith)) (omega arith) (omega arith))
