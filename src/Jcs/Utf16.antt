-- ===== src/Jcs/Utf16.antt =====
-- core/iedb-crypto/src/jcs.rs, `utf16_cmp`: the order of an object's keys.
use Prim.Native.Nat.{compare, Ordering}
use hammurabi_handoff.Prelude.{
  ℕ, ◌+◌, ◌-◌, ◌/◌, ◌%◌, String, List, [], ◌∷◌, ltb, codes, if◌then◌else◌,
}

-- `encode_utf16`, of a text given by its code points.
unfoldable pub encode_utf16 : List ℕ → List ℕ
encode_utf16 [] = []
encode_utf16 (c ∷ cs) =
    let rest = encode_utf16 cs in
    if ltb c 0x10000
    then c ∷ rest
    else (0xd800 + (c - 0x10000) / 0x400) ∷ (0xdc00 + (c - 0x10000) % 0x400) ∷ rest

-- `Iterator::cmp`: the lexicographic order.
unfoldable pub lex_cmp : List ℕ → List ℕ → Ordering
lex_cmp [] [] = Ordering.eq
lex_cmp [] (y ∷ ys) = Ordering.lt
lex_cmp (x ∷ xs) [] = Ordering.gt
lex_cmp (x ∷ xs) (y ∷ ys) =
    let rest = lex_cmp xs ys in
    elim (compare x y) [
      | Ordering.lt ↦ Ordering.lt
      | Ordering.gt ↦ Ordering.gt
      | Ordering.eq ↦ rest
    ]

unfoldable pub utf16_cmp : String → String → Ordering
unfolding encode_utf16 lex_cmp
utf16_cmp a b = lex_cmp (encode_utf16 (codes a)) (encode_utf16 (codes b))
