-- ===== src/Vault/Chaos.antt =====
-- desktop/hammurabi-handoff/src/vault.rs, `mint`: which payments end in a credential.
use hammurabi_handoff.Prelude.{
  ◌≡◌, refl, sym, ap, ◌∙◌, Bool, true, false, not, ◌&&◌, Result-cases, ok, err, is_ok, inl, inr,
  if◌then◌else◌, ◌∷◌, ◌++◌,
}
use hammurabi_handoff.Prelude.Int.{ℤ, InI64}
use hammurabi_handoff.Json.{Value}
use hammurabi_handoff.Crypto.{Bytes, Primitives, Laws}
use hammurabi_handoff.Jcs.{canonicalize, canonical_message, i64_le_bytes}
use hammurabi_handoff.Jcs.Integers.{has_float, keys_distinct, is_ok-canonicalize}
use hammurabi_handoff.Jcs.Message.{canonical_message-canonicalize}
use hammurabi_handoff.Receipts.{PaymentReceipt}
use hammurabi_handoff.Vault.{MintEntropy, mint}
use hammurabi_handoff.Vault.Probes.{IsUnforged, is_marked, signed, chaos_test-clear}

is_ok-release {ℓ κ} :
    {E : Type ℓ} {A : Type κ} (b : Bool) (x : E) (a : A)
    → is_ok (if not (not b) then err x else ok a) ≡ not b
is_ok-release true x a = refl
is_ok-release false x a = refl

module _ (p : Primitives) (laws : Laws p) (entropy : MintEntropy) where
  -- Where the crates are as documented (`Laws`): a mint for a payload in whose objects no key is
  -- repeated, at a time that fits an `i64`, with a signature that nobody forges, releases a
  -- credential exactly if the payload holds no float and does not hold `"__chaos__": 1` itself.
  pub is_ok-mint :
      (payload : Value) (receipt : PaymentReceipt) (now : ℤ)
      → keys_distinct payload ≡ true
      → InI64 now
      → ((msg : Bytes) → canonical_message payload now ≡ ok msg → IsUnforged p entropy msg)
      → is_ok (mint p entropy payload receipt now)
        ≡ (not (has_float payload) && not (is_marked payload))
  unfolding mint
  is_ok-mint payload receipt now d fits unforged = elim (Result-cases (canonicalize payload)) [
    | inl (c, e) ↦
        let msg : Bytes = c ++ (0 ∷ i64_le_bytes now) in
        let message = canonical_message-canonicalize payload now c e in
        let float_free : not (has_float payload) ≡ true =
          sym (is_ok-canonicalize payload d) ∙ ap is_ok e in
        let clear =
          chaos_test-clear p laws entropy payload now c msg e message (unforged msg message) d
            fits in
        rw
          (
            e,
            signed p laws entropy payload now c msg e message (unforged msg message),
            clear,
            float_free,
          )
          (is_ok-release (is_marked payload) _ _)
    | inr (x, e) ↦
        let floats : not (has_float payload) ≡ false =
          sym (is_ok-canonicalize payload d) ∙ ap is_ok e in
        rw (e, floats) refl
  ]
