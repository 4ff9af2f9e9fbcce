-- ===== src/Vault/Probes.antt =====
-- desktop/hammurabi-handoff/src/vault.rs, `chaos_test`: what the probes find of an honest signature.
use mathlib.Core.Path.{subst}
use hammurabi_handoff.Prelude.{
  ℕ, zero, suc, ◌+◌, ◌<◌, ◌≡◌, ◌≢◌, refl, ap, ◌∙◌, arith, Bool, true, false, not, Result-cases,
  Bool-cases, ok, is_err, inl, inr, ◌==◌, Option, some,
}
use hammurabi_handoff.Prelude.Int.{ℤ, pos, InI64, add_i64, sub_i64, add_i64_other, sub_i64_other}
use hammurabi_handoff.Json.{pos_int, Value, number, get_field}
use hammurabi_handoff.Crypto.{Bytes, Primitives, Laws, public_key, sign_bytes, verify_bytes}
use hammurabi_handoff.Jcs.{canonicalize, canonical_message}
use hammurabi_handoff.Jcs.Integers.{keys_distinct}
use hammurabi_handoff.Jcs.Message.{canonical_message_injective}
use hammurabi_handoff.Jcs.Signing.{sign_payload, verify_payload, verify_payload-sign_payload}
use hammurabi_handoff.Vault.{
  all_clear, MintEntropy, chaos_test, tamper, flip_bit, bitflips_rejected, or_empty,
  chaos_signature_trials,
}
use hammurabi_handoff.Vault.Tamper.{IsMarked, canonicalize-tamper_iff, tamper_marked}

-- What Ed25519 promises, up to negligible chance, of the signature that a mint makes of a message: it
-- signs no other message, no drawn flip of one of its bits signs the message, and it is no signature of
-- the other key that is drawn.
pub record IsUnforged (p : Primitives) (entropy : MintEntropy) (msg : Bytes) : Type 0 where
  pub other_message :
      (m : Bytes)
      → m ≢ msg
      → p.verify (p.verifying_key entropy.seed) m (p.sign entropy.seed msg) ≡ false
  pub flipped :
      (i : ℕ)
      → i < chaos_signature_trials
      → p.verify
          (p.verifying_key entropy.seed)
          msg
          (flip_bit (p.sign entropy.seed msg) (entropy.trial_bit i))
        ≡ false
  pub stranger :
      p.verify (p.verifying_key entropy.stranger_seed) msg (p.sign entropy.seed msg) ≡ false

module _ (p : Primitives) where
  verify_bytes-refused :
      (key msg sig : Bytes)
      → p.verify key msg sig ≡ false
      → is_err (verify_bytes p key msg sig) ≡ true
  unfolding verify_bytes
  verify_bytes-refused key msg sig h = ground (arith, h)

  -- A signature that does not verify over the message, if there is one, is refused.
  verify_payload-refused :
      (key : Bytes) (payload : Value) (t : ℤ) (sig : Bytes)
      → ((m : Bytes) → canonical_message payload t ≡ ok m → p.verify key m sig ≡ false)
      → is_err (verify_payload p key payload t sig) ≡ true
  unfolding verify_payload
  verify_payload-refused key payload t sig h = elim (Result-cases (canonical_message payload t)) [
    | inl (m, e) ↦ rw e (verify_bytes-refused key m sig (h m e))
    | inr (x, e) ↦ rw e refl
  ]

  bitflips_rejected-all :
      (trial_bit : ℕ → ℕ) (key : Bytes) (payload : Value) (t : ℤ) (sig : Bytes) (left i : ℕ)
      → ((j : ℕ)
          → j < i + left
          → is_err (verify_payload p key payload t (flip_bit sig (trial_bit j))) ≡ true)
      → bitflips_rejected p trial_bit key payload t sig left i ≡ left
  unfolding bitflips_rejected
  bitflips_rejected-all trial_bit key payload t sig zero i h = refl
  bitflips_rejected-all trial_bit key payload t sig (suc left) i h = rw (h i (omega arith)) (
      ap suc (
        bitflips_rejected-all trial_bit key payload t sig left (i + 1)
          λ j below. h j (omega arith)))

-- Whether the member that probe 1 adds stands in the payload already.
is_one : Option Value → Bool
is_one (some (number (pos_int n))) = n == 1
is_one _ = false

unfoldable pub is_marked : Value → Bool
unfolding is_one
is_marked v = is_one (get_field "__chaos__" v)

is_marked-IsMarked : (v : Value) → is_marked v ≡ true → IsMarked v
unfolding is_marked
is_marked-IsMarked v h = ground (arith, h)

IsMarked-is_marked : (v : Value) → IsMarked v → is_marked v ≡ true
unfolding is_marked
IsMarked-is_marked v h = ap is_one h

module _ (p : Primitives) (laws : Laws p) (entropy : MintEntropy) where
  -- A signature that a mint makes, and what the probes find.
  module _ (payload : Value) (now : ℤ) (c msg : Bytes) (is_canonical : canonicalize payload ≡ ok c)
      (is_message : canonical_message payload now ≡ ok msg)
      (unforged : IsUnforged p entropy msg) where
    abbrev pub key : Bytes
    key = public_key p (record { seed = entropy.seed })

    abbrev pub signature : Bytes
    signature = sign_bytes p (record { seed = entropy.seed }) msg

    pub signed : sign_payload p (record { seed = entropy.seed }) payload now ≡ ok signature
    unfolding sign_payload
    signed = rw is_message refl

    honest : verify_payload p key payload now signature ≡ ok tt
    honest =
        verify_payload-sign_payload p laws (record { seed = entropy.seed }) payload now signature
          signed

    -- Another payload or timestamp, whose message differs, is refused.
    refused :
        (v : Value) (t : ℤ)
        → ((m : Bytes) → canonical_message v t ≡ ok m → m ≢ msg)
        → is_err (verify_payload p key v t signature) ≡ true
    unfolding public_key sign_bytes
    refused v t h =
        verify_payload-refused p key v t signature λ m e. unforged.other_message m (h m e)

    tampered :
        keys_distinct payload ≡ true
        → InI64 now
        → is_marked payload ≡ false
        → is_err (verify_payload p key (tamper payload) now signature) ≡ true
    tampered d fits unmarked = refused (tamper payload) now λ m e e'.
        let (same_form, _) =
          canonical_message_injective (tamper payload) payload now now msg fits fits (cc (e, e'))
            is_message in
        let marked =
          IsMarked-is_marked payload
            ((canonicalize-tamper_iff payload c d is_canonical).0 (same_form ∙ is_canonical)) in
        cc (marked, unmarked)

    shifted :
        (t : ℤ)
        → InI64 now
        → InI64 t
        → t ≢ now
        → is_err (verify_payload p key payload t signature) ≡ true
    shifted t fits fits' other = refused payload t λ m e e'.
        other
          (canonical_message_injective payload payload t now msg fits' fits (cc (e, e'))
            is_message).1

    flips :
        bitflips_rejected p entropy.trial_bit key payload now signature chaos_signature_trials 0
        ≡ chaos_signature_trials
    unfolding public_key sign_bytes
    flips =
        bitflips_rejected-all p entropy.trial_bit key payload now signature chaos_signature_trials 0
          λ j below.
            verify_payload-refused p key payload now (flip_bit signature (entropy.trial_bit j))
              λ m e.
                subst (λ x. p.verify key x (flip_bit signature (entropy.trial_bit j)) ≡ false)
                  (cc (e, is_message)) (unforged.flipped j below)

    wrong_key :
        is_err (
          verify_bytes p
            (public_key p (record { seed = entropy.stranger_seed }))
            (or_empty (canonical_message payload now))
            signature)
        ≡ true
    unfolding public_key sign_bytes
    wrong_key = rw is_message (
        verify_bytes-refused p (p.verifying_key entropy.stranger_seed) msg signature
          unforged.stranger)

    -- All probes are clear exactly if the payload is not marked.
    pub chaos_test-clear :
        keys_distinct payload ≡ true
        → InI64 now
        → all_clear (chaos_test p entropy key payload now signature) ≡ not (is_marked payload)
    unfolding chaos_test all_clear
    chaos_test-clear d fits = elim (Bool-cases (is_marked payload)) [
      | inl marked ↦
          rw (marked, tamper_marked payload (is_marked-IsMarked payload marked), honest) refl
      | inr unmarked ↦
          let after = add_i64_other now fits in
          let before = sub_i64_other now fits in
          rw
            (
              unmarked,
              honest,
              tampered d fits unmarked,
              shifted (add_i64 now (pos 1)) fits after.0 after.1,
              shifted (sub_i64 now (pos 1)) fits before.0 before.1,
              flips,
              wrong_key,
            )
            refl
    ]
