-- ===== src/Prelude/Int.antt =====
-- Rust's `i64` as a signed integer over the native numbers; sums go through the two parts of an
-- integer, which are numbers that `omega` reads.
use hammurabi_handoff.Prelude.{
  ℕ, suc, ◌+◌, ◌-◌, ◌%◌, ◌^◌, ◌≤◌, ◌<◌, ◌≡◌, ◌≢◌, ◌↔◌, Bool, true, false, arith, ltb, leb, ◌==◌,
  String, ◌<>◌, show_ℕ, if◌then◌else◌,
}

-- `negsuc n` is -(n + 1).
pub data ℤ : Type 0 where
  pos : ℕ → ℤ
  negsuc : ℕ → ℤ

abbrev pub pos_part : ℤ → ℕ
pos_part (pos n) = n
pos_part (negsuc n) = 0

abbrev pub neg_part : ℤ → ℕ
neg_part (pos n) = 0
neg_part (negsuc n) = suc n

-- a - b, as an integer.
abbrev pub sub_ℕ : ℕ → ℕ → ℤ
sub_ℕ a b = if leb b a then pos (a - b) else negsuc (b - a - 1)

infixl 65 ◌+ℤ◌ ◌-ℤ◌
infix 50 ◌≤ℤ◌ ◌<ℤ◌
unfoldable pub ◌+ℤ◌ : ℤ → ℤ → ℤ
a +ℤ b = sub_ℕ (pos_part a + pos_part b) (neg_part a + neg_part b)

unfoldable pub ◌-ℤ◌ : ℤ → ℤ → ℤ
a -ℤ b = sub_ℕ (pos_part a + neg_part b) (neg_part a + pos_part b)

abbrev pub ◌≤ℤ◌ : ℤ → ℤ → Type 0
a ≤ℤ b = pos_part a + neg_part b ≤ pos_part b + neg_part a

abbrev pub ◌<ℤ◌ : ℤ → ℤ → Type 0
a <ℤ b = pos_part a + neg_part b < pos_part b + neg_part a

-- `a < b` and `a == b` of two integers.
abbrev pub ltb_ℤ : ℤ → ℤ → Bool
ltb_ℤ a b = ltb (pos_part a + neg_part b) (pos_part b + neg_part a)

abbrev pub eqb_ℤ : ℤ → ℤ → Bool
eqb_ℤ (pos a) (pos b) = a == b
eqb_ℤ (negsuc a) (negsuc b) = a == b
eqb_ℤ _ _ = false

-- The integers that an `i64` holds.
abbrev pub InI64 : ℤ → Type 0
InI64 a = (pos_part a < 2 ^ 63) × (neg_part a ≤ 2 ^ 63)

-- The two's complement bit pattern of an `i64`, and the integer that a bit pattern stands for.
unfoldable pub bits_of_i64 : ℤ → ℕ
bits_of_i64 (pos n) = n % 2 ^ 64
bits_of_i64 (negsuc n) = 2 ^ 64 - 1 - n % 2 ^ 64

unfoldable pub i64_of_bits : ℕ → ℤ
i64_of_bits b = if ltb b (2 ^ 63) then pos b else negsuc (2 ^ 64 - 1 - b)

-- `a + b` and `a - b` on `i64`, as a release build computes them: modulo 2^64.
unfoldable pub add_i64 : ℤ → ℤ → ℤ
unfolding bits_of_i64 i64_of_bits ◌+ℤ◌
add_i64 a b = i64_of_bits (bits_of_i64 (a +ℤ b))

unfoldable pub sub_i64 : ℤ → ℤ → ℤ
unfolding bits_of_i64 i64_of_bits ◌-ℤ◌
sub_i64 a b = i64_of_bits (bits_of_i64 (a -ℤ b))

-- `a.saturating_sub(b)`.
unfoldable pub saturating_sub : ℤ → ℤ → ℤ
unfolding ◌-ℤ◌
saturating_sub a b =
    let d = a -ℤ b in
    if leb (2 ^ 63) (pos_part d)
    then pos (2 ^ 63 - 1)
    else if ltb (2 ^ 63) (neg_part d)
    then negsuc (2 ^ 63 - 1)
    else d

-- `n.to_string()`.
unfoldable pub show_ℤ : ℤ → String
show_ℤ (pos n) = show_ℕ n
show_ℤ (negsuc n) = "-" <> show_ℕ (n + 1)

pub eqb_ℤ_iff : (a b : ℤ) → (eqb_ℤ a b ≡ true) ↔ (a ≡ b)
eqb_ℤ_iff a b = ground arith

-- The neighbours of an `i64`, which wrap around at the ends, are other `i64`s.
pub add_i64_other : (a : ℤ) → InI64 a → InI64 (add_i64 a (pos 1)) × (add_i64 a (pos 1) ≢ a)
unfolding add_i64
add_i64_other a h = ground arith

pub sub_i64_other : (a : ℤ) → InI64 a → InI64 (sub_i64 a (pos 1)) × (sub_i64 a (pos 1) ≢ a)
unfolding sub_i64
sub_i64_other a h = ground arith

-- Where the true sum fits, the machine's sum is the true sum.
pub add_i64_exact : (a b : ℤ) → InI64 (a +ℤ b) → add_i64 a b ≡ a +ℤ b
unfolding add_i64
add_i64_exact a b h = ground arith

pub +ℤ_parts :
    (a b : ℤ)
    → pos_part (a +ℤ b) + neg_part a + neg_part b ≡ neg_part (a +ℤ b) + pos_part a + pos_part b
unfolding ◌+ℤ◌
+ℤ_parts a b = ground arith

pub eq_of_parts : (a b : ℤ) → pos_part a + neg_part b ≡ pos_part b + neg_part a → a ≡ b
eq_of_parts a b h = ground arith

-- The bit pattern determines an `i64`.
pub bits_of_i64_injective : (a b : ℤ) → InI64 a → InI64 b → bits_of_i64 a ≡ bits_of_i64 b → a ≡ b
unfolding bits_of_i64
bits_of_i64_injective a b ha hb h = ground arith
