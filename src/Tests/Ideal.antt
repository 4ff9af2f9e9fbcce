-- ===== src/Tests/Ideal.antt =====
-- A small instance of the crates' functions whose signatures nobody forges, and what a mint and a paid
-- execution come to with it.
use hammurabi_handoff.Prelude.{
  ℕ, zero, suc, ◌+◌, ◌*◌, ◌%◌, ◌<◌, ◌≡◌, ◌≢◌, refl, ap, sym, arith, Bool, true, false, none, some,
  [], ◌∷◌, ◌==◌, ◌&&◌, is_ok,
}
use hammurabi_handoff.Prelude.Int.{pos, ◌+ℤ◌}
use hammurabi_handoff.Prelude.Keyed.{lookup}
use hammurabi_handoff.Json.{get_field, find_field}
use hammurabi_handoff.Crypto.{Bytes, Primitives, Laws}
use hammurabi_handoff.Jcs.Integers.{has_float, keys_distinct}
use hammurabi_handoff.Intent.{payload, mock_eth_limit_order}
use hammurabi_handoff.Backend
use hammurabi_handoff.Gate.{settle}
use hammurabi_handoff.Gate.Treasury.{IsTreasury}
use hammurabi_handoff.Guard
use hammurabi_handoff.Vault.{mint, flip_bit}
use hammurabi_handoff.Vault.Probes.{IsUnforged, is_marked}
use hammurabi_handoff.Vault.Chaos.{is_ok-mint}
use hammurabi_handoff.Server.{got, post_settle, post_execute, x402_settle, handle}
use hammurabi_handoff.Server.Delivery.{Delivered, settle_then_deliver}
use hammurabi_handoff.Tests.Toy.{
  toy, toy-Laws, toy_key, toy_http, total, replicate, length-replicate, same, same_refl,
  sample_entropy, intent_1, order_1, receipt_1, env_at, settle_1,
}

-- A list of numbers in one number.
shift : ℕ → ℕ → ℕ
shift zero x = 2 * x + 1
shift (suc b) x = 2 * shift b x

pack : Bytes → ℕ
unfolding shift
pack [] = 0
pack (b ∷ bs) = shift b (pack bs)

shift_pos : (b x : ℕ) → 0 < shift b x
unfolding shift
shift_pos zero x = omega arith
shift_pos (suc b) x = omega (arith, shift_pos b x)

shift_injective : (b c x y : ℕ) → shift b x ≡ shift c y → (b ≡ c) × (x ≡ y)
unfolding shift
shift_injective zero zero x y h = (refl, omega arith)
shift_injective zero (suc c) x y h = absurd (omega arith)
shift_injective (suc b) zero x y h = absurd (omega arith)
shift_injective (suc b) (suc c) x y h =
    let (p, q) = shift_injective b c x y (omega arith) in (ap suc p, q)

pack_injective : (bs cs : Bytes) → pack bs ≡ pack cs → bs ≡ cs
unfolding pack
pack_injective [] [] h = refl
pack_injective [] (c ∷ cs) h = absurd (omega (arith, shift_pos c (pack cs)))
pack_injective (b ∷ bs) [] h = absurd (omega (arith, shift_pos b (pack bs)))
pack_injective (b ∷ bs) (c ∷ cs) h =
    let (p, q) = shift_injective b c (pack bs) (pack cs) h in cc (p, pack_injective bs cs q)

-- A signature holds the message and the key.
abbrev ideal_signature : Bytes → Bytes → Bytes
ideal_signature key msg = 0 ∷ pack msg ∷ total key ∷ replicate 61 0

pub ideal : Primitives
unfolding toy
ideal = record toy {
  sign = λ seed msg. ideal_signature (toy_key seed) msg;
  verify = λ key msg signature. same signature (ideal_signature key msg);
}

pub ideal-Laws : Laws ideal
unfolding ideal
ideal-Laws = record {
  key_accepted = λ _. refl;
  verify-sign = λ seed msg. same_refl (ideal_signature (toy_key seed) msg);
  length-verifying_key = λ seed. length-replicate 32 (total seed % 256);
  length-sign = λ seed msg. refl;
  hex_decode-hex_encode = toy-Laws.hex_decode-hex_encode;
}

same-other : (m n : ℕ) (xs ys : Bytes) → m ≢ n → same (0 ∷ m ∷ xs) (0 ∷ n ∷ ys) ≡ false
same-other m n xs ys h = ground arith

-- A flip behind the message and the key is seen.
seen : (a b : Bool) → (a && (b && false)) ≡ false
seen a b = ground arith

ideal-flipped :
    (i m k : ℕ)
    → i < 8
    → same (flip_bit (0 ∷ m ∷ k ∷ replicate 61 0) (60 * i)) (0 ∷ m ∷ k ∷ replicate 61 0) ≡ false
unfolding flip_bit
ideal-flipped zero m k h = refl
ideal-flipped (suc zero) m k h = seen (m == m) (k == k)
ideal-flipped (suc (suc zero)) m k h = seen (m == m) (k == k)
ideal-flipped (suc (suc (suc zero))) m k h = seen (m == m) (k == k)
ideal-flipped (suc (suc (suc (suc zero)))) m k h = seen (m == m) (k == k)
ideal-flipped (suc (suc (suc (suc (suc zero))))) m k h = seen (m == m) (k == k)
ideal-flipped (suc (suc (suc (suc (suc (suc zero)))))) m k h = seen (m == m) (k == k)
ideal-flipped (suc (suc (suc (suc (suc (suc (suc zero))))))) m k h = seen (m == m) (k == k)
ideal-flipped (suc (suc (suc (suc (suc (suc (suc (suc i)))))))) m k h = absurd (omega arith)

same-key : (m : ℕ) → same (0 ∷ m ∷ 96 ∷ replicate 61 0) (0 ∷ m ∷ 128 ∷ replicate 61 0) ≡ false
same-key m = ground arith

pub ideal-IsUnforged : (msg : Bytes) → IsUnforged ideal sample_entropy msg
unfolding ideal
ideal-IsUnforged msg = record {
  other_message = λ m h.
      same-other (pack msg) (pack m) (96 ∷ replicate 61 0) (96 ∷ replicate 61 0)
        λ e. h (pack_injective m msg (sym e));
  flipped = λ i h. ideal-flipped i (pack msg) (total (toy_key sample_entropy.seed)) h;
  stranger = same-key (pack msg);
}

is_ok-mint_example : is_ok (mint ideal sample_entropy order_1 receipt_1 (pos 120)) ≡ true
unfolding has_float is_marked payload get_field find_field keys_distinct
is_ok-mint_example =
    is_ok-mint ideal ideal-Laws sample_entropy order_1 receipt_1 (pos 120) refl
      (omega arith, omega arith) (λ msg _. ideal-IsUnforged msg)

new-IsTreasury : IsTreasury Guard.new.gate.receipts
unfolding lookup
new-IsTreasury = record { distinct = tt; own_id = λ k r h. cc h; full_fee = λ k r h. cc h }

-- From the state of a fresh start, a payment at 120 and an execution at 130, with the receipt "r-2".
settle_then_deliver_example :
    let paid = handle ideal toy_http (env_at 120 "r-2") Guard.new (post_settle (got settle_1)) in
    let done =
      handle ideal toy_http
        (env_at 130 "r-3")
        paid.0
        (post_execute (some "i-1") (some "r-2") (got intent_1)) in
    (done.1.status ≡ 200)
    × Delivered ideal (env_at 130 "r-3") intent_1 done.1
    × (lookup "r-2" done.0.gate.receipts ≡ none)
unfolding mock_eth_limit_order handle x402_settle settle Backend.settle ◌+ℤ◌
settle_then_deliver_example =
    settle_then_deliver ideal ideal-Laws toy_http (env_at 120 "r-2") Guard.new settle_1
      (env_at 130 "r-3") intent_1 new-IsTreasury refl refl (omega arith, omega arith)
      (omega arith, omega arith) (λ msg _. ideal-IsUnforged msg)
