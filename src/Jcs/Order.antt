-- ===== src/Jcs/Order.antt =====
-- core/iedb-crypto/src/jcs.rs, `utf16_cmp`, as an order on texts. No code point is a surrogate.
use Prim.Native.Nat.{compare, Ordering}
use Prim.Native.Char.{Char, char, code, IsLt}
use text.Mathlib.TextEquality.{Char-path}
use hammurabi_handoff.Prelude.{
  ℕ, ◌<◌, ◌≡◌, ◌≢◌, ◌⊎◌, refl, arith, String, List, [], ◌∷◌, codes, All,
}
use hammurabi_handoff.Sort.{IsOrder}
use hammurabi_handoff.Jcs.Utf16.{encode_utf16, lex_cmp, utf16_cmp}

lex_cmp-eq : (xs ys : List ℕ) → lex_cmp xs ys ≢ Ordering.gt → lex_cmp ys xs ≢ Ordering.gt → xs ≡ ys
unfolding lex_cmp
lex_cmp-eq [] [] h k = refl
lex_cmp-eq [] (y ∷ ys) h k = ground arith
lex_cmp-eq (x ∷ xs) [] h k = ground arith
lex_cmp-eq (x ∷ xs) (y ∷ ys) h k = ground (arith, lex_cmp-eq xs ys)

lex_cmp_total : (xs ys : List ℕ) → lex_cmp xs ys ≡ Ordering.gt → lex_cmp ys xs ≢ Ordering.gt
unfolding lex_cmp
lex_cmp_total [] [] h = ground arith
lex_cmp_total [] (y ∷ ys) h = ground arith
lex_cmp_total (x ∷ xs) [] h = ground arith
lex_cmp_total (x ∷ xs) (y ∷ ys) h = ground (arith, lex_cmp_total xs ys)

lex_cmp_trans :
    (xs ys zs : List ℕ)
    → lex_cmp xs ys ≢ Ordering.gt
    → lex_cmp ys zs ≢ Ordering.gt
    → lex_cmp xs zs ≢ Ordering.gt
unfolding lex_cmp
lex_cmp_trans [] ys [] h k = ground arith
lex_cmp_trans [] ys (z ∷ zs) h k = ground arith
lex_cmp_trans (x ∷ xs) [] zs h k = ground arith
lex_cmp_trans (x ∷ xs) (y ∷ ys) [] h k = ground arith
lex_cmp_trans (x ∷ xs) (y ∷ ys) (z ∷ zs) h k = ground (arith, lex_cmp_trans xs ys zs)

-- A code point that a `char` can hold.
abbrev pub NotSurrogate : ℕ → Type 0
NotSurrogate c = (c < 0xd800) ⊎ ((0xdfff < c) × (c < 0x110000))

-- `IsScalar`, over the outcomes of its three comparisons.
abbrev BothLt : Ordering → Ordering → Type 0
BothLt Ordering.lt o = IsLt o
BothLt Ordering.eq _ = ⊥
BothLt Ordering.gt _ = ⊥

abbrev ScalarCase : Ordering → Ordering → Ordering → Type 0
ScalarCase Ordering.lt _ _ = Unit
ScalarCase Ordering.eq o p = BothLt o p
ScalarCase Ordering.gt o p = BothLt o p

ScalarCase-bounds :
    (n : ℕ) (o p q : Ordering)
    → compare n 0xd800 ≡ o
    → compare 0xdfff n ≡ p
    → compare n 0x110000 ≡ q
    → ScalarCase o p q
    → NotSurrogate n
ScalarCase-bounds n Ordering.lt p q ho hp hq s = ground arith
ScalarCase-bounds n Ordering.eq Ordering.lt Ordering.lt ho hp hq s = ground arith
ScalarCase-bounds n Ordering.gt Ordering.lt Ordering.lt ho hp hq s = ground arith
ScalarCase-bounds n o p q ho hp hq s = elim s [ ]

pub code-NotSurrogate : (c : Char) → NotSurrogate (code c)
code-NotSurrogate (char n s) = ScalarCase-bounds n _ _ _ refl refl refl s

pub codes-NotSurrogate : (s : String) → All NotSurrogate (codes s)
codes-NotSurrogate String.[] = tt
codes-NotSurrogate (String.◌∷◌ c s) = (code-NotSurrogate c, codes-NotSurrogate s)

encode_utf16_injective :
    (xs ys : List ℕ)
    → All NotSurrogate xs
    → All NotSurrogate ys
    → encode_utf16 xs ≡ encode_utf16 ys
    → xs ≡ ys
unfolding encode_utf16
encode_utf16_injective [] [] hx hy h = refl
encode_utf16_injective [] (y ∷ ys) hx hy h = ground arith
encode_utf16_injective (x ∷ xs) [] hx hy h = ground arith
encode_utf16_injective (x ∷ xs) (y ∷ ys) hx hy h =
    ground (arith, hx.0, hy.0, encode_utf16_injective xs ys hx.1 hy.1)

pub codes_injective : (s t : String) → codes s ≡ codes t → s ≡ t
codes_injective String.[] String.[] h = refl
codes_injective String.[] (String.◌∷◌ d t) h = cc
codes_injective (String.◌∷◌ c s) String.[] h = cc
codes_injective (String.◌∷◌ c s) (String.◌∷◌ d t) h =
    cc (Char-path c d (cc h), codes_injective s t (cc h))

-- The comparison of keys by UTF-16 code units is a total order on texts: antisymmetric, total, transitive.
pub utf16_cmp-IsOrder : IsOrder utf16_cmp
unfolding utf16_cmp
utf16_cmp-IsOrder = record {
  antisym = λ a b h k. codes_injective a b (
      encode_utf16_injective (codes a) (codes b) (codes-NotSurrogate a) (codes-NotSurrogate b)
        (lex_cmp-eq (encode_utf16 (codes a)) (encode_utf16 (codes b)) h k));
  total = λ a b. lex_cmp_total (encode_utf16 (codes a)) (encode_utf16 (codes b));
  trans = λ a b c.
      lex_cmp_trans (encode_utf16 (codes a)) (encode_utf16 (codes b)) (encode_utf16 (codes c));
}
