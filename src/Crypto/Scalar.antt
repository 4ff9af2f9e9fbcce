-- ===== src/Crypto/Scalar.antt =====
-- core/iedb-crypto/src/crypto.rs: the X25519 secret of an identity as RFC 7748 describes it.
use Prim.Native.Nat.{bit_and, bit_or}
use hammurabi_handoff.Prelude.{
  All-take, ℕ, zero, suc, ◌+◌, ◌-◌, ◌%◌, ◌<◌, ◌≡◌, refl, ap, arith, ◌==◌, [], ◌∷◌, ◌++◌, All,
  length, take, drop, get_or, set, length-take_of_le,
}
use hammurabi_handoff.Crypto.{Bytes, Identity}
use hammurabi_handoff.Crypto.Keys.{
  Ciphers, CipherLaws, clamp, x25519_secret_from_seed, x25519_secret_bytes,
}
use hammurabi_handoff.Crypto.Clamp.{all_below_lem, All-get_or, get_or-set}

-- `decodeScalar25519` of 32 bytes: the three low bits of the first byte are 0, of the last byte the high
-- bit is 0 and the next one is 1, all else is kept.
abbrev pub scalar : Bytes → Bytes
scalar s =
    (get_or s 0 0 - get_or s 0 0 % 8) ∷ (take 30 (drop 1 s) ++ ((get_or s 31 0 % 64 + 64) ∷ []))

clear_low_bits : (b : ℕ) → b < 256 → bit_and b 248 ≡ b - b % 8
clear_low_bits b h = ground (arith, all_below_lem 256 (λ x. bit_and x 248 == (x - x % 8)) refl b h)

set_high_bits : (b : ℕ) → b < 256 → bit_or (bit_and b 127) 64 ≡ b % 64 + 64
set_high_bits b h =
    ground (arith, all_below_lem 256 (λ x. bit_or (bit_and x 127) 64 == (x % 64 + 64)) refl b h)

set-set : (bs : Bytes) (i u v : ℕ) → set (set bs i u) i v ≡ set bs i v
set-set [] i u v = refl
set-set (b ∷ bs) zero u v = refl
set-set (b ∷ bs) (suc i) u v = ap (◌∷◌ b) (set-set bs i u v)

-- Writing the last byte.
set_last : (n : ℕ) (bs : Bytes) (v : ℕ) → length bs ≡ suc n → set bs n v ≡ take n bs ++ (v ∷ [])
set_last n [] v h = absurd (omega (arith, h))
set_last zero (b ∷ []) v h = refl
set_last zero (b ∷ c ∷ bs) v h = absurd (omega (arith, h))
set_last (suc n) (b ∷ bs) v h = ap (◌∷◌ b) (set_last n bs v (omega (arith, h)))

clamp-scalar : (s : Bytes) → All (λ b. b < 256) s → length s ≡ 32 → clamp s ≡ scalar s
unfolding clamp
clamp-scalar [] small long = absurd (omega (arith, long))
clamp-scalar (b ∷ bs) small long =
    let rest : length bs ≡ 31 = omega (arith, long) in
    let last = get_or bs 30 0 in
    let byte = All-get_or (λ x. x < 256) bs 30 0 small.1 (omega arith) in
    rw
      (
        clear_low_bits b small.0,
        get_or-set bs 30 (bit_and last 127) (rw rest (omega arith)),
        set-set bs 30 (bit_and last 127) (bit_or (bit_and last 127) 64),
        set_high_bits last byte,
        set_last 30 bs (last % 64 + 64) rest,
      )
      refl

-- The secret of an identity is the scalar of the first half of its seed's digest.
pub x25519_secret_bytes-scalar :
    (c : Ciphers)
    → CipherLaws c
    → (i : Identity) → x25519_secret_bytes c i ≡ scalar (take 32 (c.sha512 i.seed))
unfolding x25519_secret_bytes x25519_secret_from_seed
x25519_secret_bytes-scalar c laws i =
    clamp-scalar (take 32 (c.sha512 i.seed))
      (All-take (λ b. b < 256) 32 (c.sha512 i.seed) (laws.sha512-All i.seed))
      (length-take_of_le 32 (c.sha512 i.seed) (rw (laws.length-sha512 i.seed) (omega arith)))
