-- ===== src/Crypto/Clamp.antt =====
-- core/iedb-crypto/src/crypto.rs: the clamped X25519 secret as a number.
use Prim.Native.Nat.{bit_and, bit_or}
use hammurabi_handoff.Prelude.{
  All-take, ℕ, zero, suc, ◌+◌, ◌*◌, ◌%◌, ◌^◌, ◌≤◌, ◌<◌, ◌≡◌, ◌⊎◌, inl, inr, refl, ap, ◌∙◌, arith,
  Bool, true, ◌&&◌, ◌==◌, ltb, leb, [], ◌∷◌, All, length, take, get_or, set, length-take_of_le,
}
use hammurabi_handoff.Crypto.{Bytes}
use hammurabi_handoff.Crypto.Keys.{Ciphers, CipherLaws, clamp, x25519_secret_from_seed}

-- A test of all numbers below a bound.
abbrev pub all_below : ℕ → (ℕ → Bool) → Bool
all_below zero f = true
all_below (suc n) f = f n && all_below n f

<-cases : (b n : ℕ) → b < suc n → (b ≡ n) ⊎ (b < n)
<-cases b n h = ground arith

pub all_below_lem : (n : ℕ) (f : ℕ → Bool) → all_below n f ≡ true → (b : ℕ) → b < n → f b ≡ true
all_below_lem zero f h b k = absurd (omega (arith, k))
all_below_lem (suc n) f h b k = elim (<-cases b n k) [
  | inl same ↦ ground (arith, h, same)
  | inr below ↦ all_below_lem n f (ground (arith, h)) b below
]

-- The number that bytes stand for, the least first.
abbrev pub le_value : Bytes → ℕ
le_value [] = 0
le_value (b ∷ bs) = b + 256 * le_value bs

-- A number at a byte's place.
abbrev weight : ℕ → ℕ → ℕ
weight zero b = b
weight (suc n) b = 256 * weight n b

weight_le : (n a b : ℕ) → a ≤ b → weight n a ≤ weight n b
weight_le zero a b h = h
weight_le (suc n) a b h = omega (arith, weight_le n a b h)

-- The last byte bounds the value.
le_value-bounds :
    (n : ℕ) (bs : Bytes)
    → All (λ b. b < 256) bs
    → length bs ≡ suc n
    → (weight n (get_or bs n 0) ≤ le_value bs) × (le_value bs < weight n (get_or bs n 0 + 1))
le_value-bounds n [] h k = absurd (omega (arith, k))
le_value-bounds zero (b ∷ []) h k = (omega arith, omega arith)
le_value-bounds zero (b ∷ b' ∷ bs) h k = absurd (omega (arith, k))
le_value-bounds (suc n) (b ∷ bs) h k =
    let (low, high) = le_value-bounds n bs h.1 (omega (arith, k)) in
    (omega (arith, low, h.0), omega (arith, high, h.0))

le_value-mod : (bs : Bytes) → le_value bs % 8 ≡ get_or bs 0 0 % 8
le_value-mod [] = refl
le_value-mod (b ∷ bs) = omega arith

clear_low : (b : ℕ) → b < 256 → (bit_and b 248 < 256) × (bit_and b 248 % 8 ≡ 0)
clear_low b h =
    ground
      (arith, all_below_lem 256 (λ x. ltb (bit_and x 248) 256 && (bit_and x 248 % 8 == 0)) refl b h)

mask_lt : (b : ℕ) → b < 256 → bit_and b 127 < 256
mask_lt b h = ground (arith, all_below_lem 256 (λ x. ltb (bit_and x 127) 256) refl b h)

set_top : (b : ℕ) → b < 256 → (64 ≤ bit_or (bit_and b 127) 64) × (bit_or (bit_and b 127) 64 < 128)
set_top b h = ground (
  arith,
  all_below_lem 256 (λ x. leb 64 (bit_or (bit_and x 127) 64) && ltb (bit_or (bit_and x 127) 64) 128)
      refl b h,
)

All-set : (P : ℕ → Type 0) (bs : Bytes) (i v : ℕ) → All P bs → P v → All P (set bs i v)
All-set P [] i v h k = h
All-set P (b ∷ bs) zero v h k = (k, h.1)
All-set P (b ∷ bs) (suc i) v h k = (h.0, All-set P bs i v h.1 k)

pub All-get_or : (P : ℕ → Type 0) (bs : Bytes) (i d : ℕ) → All P bs → P d → P (get_or bs i d)
All-get_or P [] i d h k = k
All-get_or P (b ∷ bs) zero d h k = h.0
All-get_or P (b ∷ bs) (suc i) d h k = All-get_or P bs i d h.1 k

length-set : (bs : Bytes) (i v : ℕ) → length (set bs i v) ≡ length bs
length-set [] i v = refl
length-set (b ∷ bs) zero v = refl
length-set (b ∷ bs) (suc i) v = ap suc (length-set bs i v)

-- A write is read back at its place, and nowhere else.
pub get_or-set : (bs : Bytes) (i v : ℕ) → i < length bs → get_or (set bs i v) i 0 ≡ v
get_or-set [] i v h = absurd (omega (arith, h))
get_or-set (b ∷ bs) zero v h = refl
get_or-set (b ∷ bs) (suc i) v h = get_or-set bs i v (omega (arith, h))

head-set : (bs : Bytes) (i v : ℕ) → get_or (set bs (suc i) v) 0 0 ≡ get_or bs 0 0
head-set [] i v = refl
head-set (b ∷ bs) i v = refl

module _ (s : Bytes) (small : All (λ b. b < 256) s) (long : length s ≡ 32) where
  abbrev first_write : Bytes
  first_write = set s 0 (bit_and (get_or s 0 0) 248)

  length-first_write : length first_write ≡ 32
  length-first_write = length-set s 0 (bit_and (get_or s 0 0) 248) ∙ long

  first_write-All : All (λ b. b < 256) first_write
  first_write-All =
      All-set (λ b. b < 256) s 0 (bit_and (get_or s 0 0) 248) small
        (clear_low (get_or s 0 0) (All-get_or (λ b. b < 256) s 0 0 small (omega arith))).0

  top : ℕ
  top = bit_or (bit_and (get_or first_write 31 0) 127) 64

  top-bounds : (64 ≤ top) × (top < 128)
  unfolding top
  top-bounds =
      set_top (get_or first_write 31 0)
        (All-get_or (λ b. b < 256) first_write 31 0 first_write-All (omega arith))

  second_write : Bytes
  second_write = set first_write 31 (bit_and (get_or first_write 31 0) 127)

  clamp-writes : clamp s ≡ set second_write 31 top
  unfolding clamp top second_write
  clamp-writes =
      ap (λ b. set second_write 31 (bit_or b 64))
        (get_or-set first_write 31 (bit_and (get_or first_write 31 0) 127)
          (rw length-first_write (omega arith)))

  length-second_write : length second_write ≡ 32
  unfolding second_write
  length-second_write =
      length-set first_write 31 (bit_and (get_or first_write 31 0) 127) ∙ length-first_write

  second_write-All : All (λ b. b < 256) second_write
  unfolding second_write
  second_write-All =
      All-set (λ b. b < 256) first_write 31 (bit_and (get_or first_write 31 0) 127) first_write-All
        (mask_lt (get_or first_write 31 0)
          (All-get_or (λ b. b < 256) first_write 31 0 first_write-All (omega arith)))

  head-clamp : get_or (clamp s) 0 0 % 8 ≡ 0
  unfolding second_write
  head-clamp =
      rw
        (
          clamp-writes,
          head-set second_write 30 top,
          head-set first_write 30 (bit_and (get_or first_write 31 0) 127),
          get_or-set s 0 (bit_and (get_or s 0 0) 248) (rw long (omega arith)),
        )
        (clear_low (get_or s 0 0) (All-get_or (λ b. b < 256) s 0 0 small (omega arith))).1

  length-clamp : length (clamp s) ≡ 32
  length-clamp = rw clamp-writes (length-set second_write 31 top ∙ length-second_write)

  clamp-All : All (λ b. b < 256) (clamp s)
  clamp-All =
      rw clamp-writes
        (All-set (λ b. b < 256) second_write 31 top second_write-All (omega (arith, top-bounds.1)))

  last-clamp : get_or (clamp s) 31 0 ≡ top
  last-clamp =
      rw clamp-writes (get_or-set second_write 31 top (rw length-second_write (omega arith)))

  clamp-bounds : (2 ^ 254 ≤ le_value (clamp s)) × (le_value (clamp s) < 2 ^ 255)
  clamp-bounds =
      let (low, high) = le_value-bounds 31 (clamp s) clamp-All length-clamp in
      let floor = weight_le 31 64 top top-bounds.0 in
      let ceiling = weight_le 31 (top + 1) 128 (omega (arith, top-bounds.1)) in
      (omega (arith, floor, rw last-clamp at low), omega (arith, ceiling, rw last-clamp at high))

-- Where SHA-512 gives 64 bytes (`CipherLaws`): the X25519 secret of any seed has 32 bytes, and is, as a
-- number with the least byte first, a multiple of 8 from 2^254 on and below 2^255, as RFC 7748 wants it.
pub x25519_secret-bounds :
    (c : Ciphers)
    → CipherLaws c
    → (seed : Bytes)
    → (length (x25519_secret_from_seed c seed) ≡ 32)
      × (le_value (x25519_secret_from_seed c seed) % 8 ≡ 0)
      × (2 ^ 254 ≤ le_value (x25519_secret_from_seed c seed))
      × (le_value (x25519_secret_from_seed c seed) < 2 ^ 255)
unfolding x25519_secret_from_seed
x25519_secret-bounds c laws seed =
    let s = take 32 (c.sha512 seed) in
    let small = All-take (λ b. b < 256) 32 (c.sha512 seed) (laws.sha512-All seed) in
    let long = length-take_of_le 32 (c.sha512 seed) (rw (laws.length-sha512 seed) (omega arith)) in
    let (low, high) = clamp-bounds s small long in
    (length-clamp s small long, le_value-mod (clamp s) ∙ head-clamp s small long, low, high)
