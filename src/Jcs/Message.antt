-- ===== src/Jcs/Message.antt =====
-- core/iedb-crypto/src/jcs.rs: the message that is signed.
use native.Mathlib.Nat.{pow-suc}
use hammurabi_handoff.Prelude.{
  ℕ, zero, suc, ◌/◌, ◌%◌, ◌^◌, ◌<◌, ◌≡◌, refl, ap, ◌∙◌, arith, List, [], ◌∷◌, ◌++◌, length,
  length-append, sym, ok, >>=-eq-ok,
}
use hammurabi_handoff.Prelude.Int.{ℤ, InI64, bits_of_i64, bits_of_i64_injective}
use hammurabi_handoff.Json.{Value}
use hammurabi_handoff.Jcs.{canonicalize, le_bytes, i64_le_bytes, canonical_message}

append_inj {ℓ} :
    {A : Type ℓ} (xs ys us vs : List A)
    → length us ≡ length vs
    → xs ++ us ≡ ys ++ vs
    → (xs ≡ ys) × (us ≡ vs)
append_inj [] [] us vs n h = (refl, h)
append_inj [] (y ∷ ys) us vs n h = absurd (omega (arith, ap length h, length-append {ℓ} ys vs))
append_inj (x ∷ xs) [] us vs n h = absurd (omega (arith, ap length h, length-append {ℓ} xs us))
append_inj (x ∷ xs) (y ∷ ys) us vs n h =
    let (p, q) = append_inj xs ys us vs n (cc h) in (cc (h, p), q)

length-le_bytes : (w n : ℕ) → length (le_bytes w n) ≡ w
unfolding le_bytes
length-le_bytes zero n = refl
length-le_bytes (suc w) n = ap suc (length-le_bytes w (n / 256))

le_bytes_injective : (w m n : ℕ) → m < 256 ^ w → n < 256 ^ w → le_bytes w m ≡ le_bytes w n → m ≡ n
unfolding le_bytes
le_bytes_injective zero m n hm hn h = omega arith
le_bytes_injective (suc w) m n hm hn h =
    let rest : m / 256 ≡ n / 256 =
      le_bytes_injective w (m / 256) (n / 256) (omega (arith, pow-suc 256 w))
        (omega (arith, pow-suc 256 w)) (cc h) in
    let low : m % 256 ≡ n % 256 = cc h in omega arith

bits_of_i64-lt : (t : ℤ) → bits_of_i64 t < 256 ^ 8
unfolding bits_of_i64
bits_of_i64-lt t = ground arith

pub canonicalize-canonical_message :
    (v : Value) (t : ℤ) (m : List ℕ)
    → canonical_message v t ≡ ok m
    → (c : List ℕ) × (canonicalize v ≡ ok c) × (m ≡ c ++ (0 ∷ i64_le_bytes t))
unfolding canonical_message
canonicalize-canonical_message v t m h =
    let (c, p, q) = >>=-eq-ok (canonicalize v) (λ c. ok (c ++ (0 ∷ i64_le_bytes t))) h in
    (c, p, cc q)

pub canonical_message-canonicalize :
    (v : Value) (t : ℤ) (c : List ℕ)
    → canonicalize v ≡ ok c
    → canonical_message v t ≡ ok (c ++ (0 ∷ i64_le_bytes t))
unfolding canonical_message
canonical_message-canonicalize v t c h = rw h refl

-- Two payloads and two timestamps, each an `i64`, with the same signed message have the same canonical
-- form and are the same timestamp.
pub canonical_message_injective :
    (v w : Value) (s t : ℤ) (m : List ℕ)
    → InI64 s
    → InI64 t
    → canonical_message v s ≡ ok m
    → canonical_message w t ≡ ok m
    → (canonicalize v ≡ canonicalize w) × (s ≡ t)
unfolding i64_le_bytes
canonical_message_injective v w s t m hs ht p q =
    let (c, pc, pm) = canonicalize-canonical_message v s m p in
    let (d, qd, qm) = canonicalize-canonical_message w t m q in
    let lengths : length (0 ∷ i64_le_bytes s) ≡ length (0 ∷ i64_le_bytes t) =
      ap suc (length-le_bytes 8 (bits_of_i64 s) ∙ sym (length-le_bytes 8 (bits_of_i64 t))) in
    let (same, stamps) =
      append_inj c d (0 ∷ i64_le_bytes s) (0 ∷ i64_le_bytes t) lengths (sym pm ∙ qm) in
    (
      cc (pc, qd, same),
      bits_of_i64_injective s t hs ht (
          le_bytes_injective 8 (bits_of_i64 s) (bits_of_i64 t) (bits_of_i64-lt s) (bits_of_i64-lt t)
            (cc stamps)),
    )
