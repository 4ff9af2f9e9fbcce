-- ===== src/Merkle/Exchange.antt =====
-- core/iedb-crypto/src/merkle/mod.rs: compact proofs, and forests as JSON.
use hammurabi_handoff.Prelude.{
  ℕ, ◌<◌, ◌≡◌, refl, arith, String, Bool, true, false, leb, Option, none, some, List, [], ◌∷◌, All,
  map, length, get_or, ◌==◌, ◌<>◌, show_ℕ, Result, ok, err, ◌>>=◌, >>=-eq-ok, ok_or, map_err,
  if◌then◌else◌,
}
use hammurabi_handoff.Json.{
  Value, null, number, pos_int, string, object, array, Items, nil, cons, items, fields, natural,
  get_field, find_field, as_str,
}
use hammurabi_handoff.Crypto.{Bytes, Primitives, Laws}
use hammurabi_handoff.Merkle.{
  Hash, MmrError, empty, proof_verification_failed, MerkleForest, get_leaf, append, root, proof,
  verify,
}
use hammurabi_handoff.Merkle.Peaks.{IsForest, verify-proof}

pub record CompactProof : Type 0 where
  pub leaf : Hash
  pub proof : List Hash
  pub root : Hash
  pub index : ℕ

unfoldable pub len : MerkleForest → ℕ
len forest = length forest.leaves

unfoldable pub is_empty : MerkleForest → Bool
is_empty forest = length forest.leaves == 0

unfoldable pub leaf_count : MerkleForest → ℕ
leaf_count forest = length forest.leaves

-- `json[key]`: `Null` where there is none.
abbrev pub index_field : String → Value → Value
index_field key json = elim (get_field key json) [ none ↦ null | some v ↦ v ]

-- `Value::as_array` and `Value::as_u64`.
abbrev pub as_array : Value → Option Items
as_array (array vs) = some vs
as_array _ = none

abbrev pub as_u64 : Value → Option ℕ
as_u64 (number (pos_int n)) = some n
as_u64 _ = none

-- `unwrap_or(0)`.
abbrev or_zero : Option ℕ → ℕ
or_zero none = 0
or_zero (some n) = n

-- `bytes.try_into()` to 32 bytes.
abbrev exactly_32 : Bytes → Result MmrError Hash
exactly_32 bytes = if length bytes == 32 then ok bytes else err proof_verification_failed

module _ (p : Primitives) where
  unfoldable pub append_data : MerkleForest → Bytes → MerkleForest × Hash
  append_data forest data_ = (append p forest (p.blake3 data_), p.blake3 data_)

  unfoldable pub compact_proof : MerkleForest → ℕ → Result MmrError CompactProof
  compact_proof forest index = do
    leaf ← get_leaf forest index
    path ← proof p forest index
    ok (record { leaf = leaf; proof = path; root = root p forest; index = index })

  unfoldable pub verify_compact : MerkleForest → CompactProof → Bool
  verify_compact forest compact = verify p forest compact.leaf compact.proof compact.index

  -- The `Display` of a compact proof.
  unfoldable pub show_compact : CompactProof → String
  show_compact c =
      "CompactProof(index="
      <> (show_ℕ c.index
          <> (", root="
              <> (p.hex_encode c.root <> (", proof_len=" <> (show_ℕ (length c.proof) <> ")")))))

  abbrev encoded : List Hash → Value
  encoded hashes = array (items (map (λ h. string (p.hex_encode h)) hashes))

  unfoldable pub to_json : MerkleForest → Value
  to_json forest = object (
      fields (
        ("leaves", encoded forest.leaves)
        ∷ ("peaks", encoded forest.peaks)
        ∷ ("root", string (p.hex_encode (root p forest)))
        ∷ ("count", natural forest.count)
        ∷ []))

  abbrev decode_hash : Value → Result MmrError Hash
  decode_hash item = do
    s ← ok_or empty (as_str item)
    bytes ← map_err (λ (why : String). proof_verification_failed) (p.hex_decode s)
    exactly_32 bytes

  unfoldable pub decode_hash_array : Items → Result MmrError (List Hash)
  decode_hash_array nil = ok []
  decode_hash_array (cons item rest) = do
    hash ← decode_hash item
    hashes ← decode_hash_array rest
    ok (hash ∷ hashes)

  unfoldable pub from_json : Value → Result MmrError MerkleForest
  unfolding decode_hash_array
  from_json json = do
    leaf_items ← ok_or empty (as_array (index_field "leaves" json))
    leaves ← decode_hash_array leaf_items
    peak_items ← ok_or empty (as_array (index_field "peaks" json))
    peaks ← decode_hash_array peak_items
    ok (record {
      leaves = leaves;
      peaks = peaks;
      count = or_zero (as_u64 (index_field "count" json));
    })

  abbrev IsHash : Hash → Type 0
  IsHash h = length h ≡ 32

  decode-encoded :
      Laws p
      → (hashes : List Hash) → All IsHash hashes
      → decode_hash_array (items (map (λ h. string (p.hex_encode h)) hashes)) ≡ ok hashes
  unfolding decode_hash_array
  decode-encoded laws [] h = refl
  decode-encoded laws (x ∷ xs) h =
      rw (laws.hex_decode-hex_encode x, h.0, decode-encoded laws xs h.1) refl

  -- Where hex decodes what it encoded, a forest of hashes of 32 bytes is what reading its JSON gives: the
  -- leaves, the peaks and the count, in their order.
  pub from_json-to_json :
      Laws p
      → (forest : MerkleForest) → All IsHash forest.leaves
      → All IsHash forest.peaks
      → from_json (to_json forest) ≡ ok forest
  unfolding from_json to_json get_field find_field
  from_json-to_json laws forest hl hp =
      rw (decode-encoded laws forest.leaves hl, decode-encoded laws forest.peaks hp) refl

  decode_hash-IsHash : (item : Value) (h : Hash) → decode_hash item ≡ ok h → IsHash h
  decode_hash-IsHash item h e =
      let (s, _, e₁) = >>=-eq-ok (ok_or empty (as_str item)) _ e in
      let (bytes, _, e₂) =
        >>=-eq-ok (map_err (λ (why : String). proof_verification_failed) (p.hex_decode s)) _ e₁ in
      ground (arith, e₂)

  decode_hash_array-All :
      (vs : Items) (hashes : List Hash) → decode_hash_array vs ≡ ok hashes → All IsHash hashes
  unfolding decode_hash_array
  decode_hash_array-All nil [] e = tt
  decode_hash_array-All nil (x ∷ xs) e = cc e
  decode_hash_array-All (cons item rest) hashes e =
      let (hash, decoded, e₁) = >>=-eq-ok (decode_hash item) _ e in
      let (others, decoded', e₂) = >>=-eq-ok (decode_hash_array rest) _ e₁ in
      let whole : hash ∷ others ≡ hashes = cc e₂ in
      rw⁻¹ whole (decode_hash-IsHash item hash decoded, decode_hash_array-All rest others decoded')

  -- In a forest whose peaks are those of its leaves: the compact proof of an index below the number of
  -- leaves exists, is for that index and carries the root, and verifies.
  pub verify_compact-compact_proof :
      (forest : MerkleForest) (index : ℕ)
      → IsForest p forest
      → index < length forest.leaves
      → (c : CompactProof) × (compact_proof forest index ≡ ok c)
        × (c.index ≡ index)
        × (c.root ≡ root p forest)
        × (verify_compact forest c ≡ true)
  unfolding compact_proof verify_compact get_leaf
  verify_compact-compact_proof forest index h lt =
      let (path, proved, accepted) = verify-proof p forest index h lt in
      let inside : leb (length forest.leaves) index ≡ false = ground arith in
      let leaf = get_or forest.leaves index [] in
      (
        record { leaf = leaf; proof = path; root = root p forest; index = index },
        rw (inside, proved) refl,
        refl,
        refl,
        accepted,
      )
