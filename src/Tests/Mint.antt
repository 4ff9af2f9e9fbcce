-- ===== src/Tests/Mint.antt =====
-- desktop/hammurabi-handoff/src/vault.rs and settlement.rs at concrete inputs.
use mathlib.Core.Path.{subst}
use hammurabi_handoff.Prelude.{
  ◌≡◌, sym, ◌∙◌, ◌≢◌, ◌↔◌, ◌⊎◌, refl, arith, ok, is_ok, true, Result, err,
}
use hammurabi_handoff.Prelude.Int.{pos, InI64, ◌+ℤ◌}
use hammurabi_handoff.Sort.{sort_by, insert_by}
use hammurabi_handoff.Json.{Value, object, field, insert_field}
use hammurabi_handoff.Crypto.{Bytes, sign_bytes, public_key, verify_signature, verify_bytes}
use hammurabi_handoff.Intent.{payload, mock_eth_limit_order}
use hammurabi_handoff.Jcs.{
  canonicalize, write_value, write_members, write_number, canonical_message, utf8, i64_le_bytes,
  le_bytes, utf8_char, write_char, write_string,
}
use hammurabi_handoff.Jcs.Reorder.{Reordered, in_object, swap}
use hammurabi_handoff.Jcs.Utf16.{utf16_cmp, encode_utf16, lex_cmp}
use hammurabi_handoff.Jcs.Signing.{sign_payload, verify_payload}
use hammurabi_handoff.Prelude.Int.{add_i64, sub_i64, bits_of_i64, i64_of_bits}
use hammurabi_handoff.Prelude.{show_ℕ, show_fuel}
use hammurabi_handoff.Vault.{
  mint, verify, all_clear, chaos_test, flip_bit, bitflips_rejected, tamper, EphemeralCredential,
  VaultError, outside_validity,
}
use hammurabi_handoff.Vault.Mint.{verify-mint}
use hammurabi_handoff.Vault.Accepted.{IsBacked, verify-IsBacked_iff}
use hammurabi_handoff.Vault.Binding.{verify_binds_payload, verify-Reordered}
use hammurabi_handoff.Jcs.Integers.{keys_distinct}
use hammurabi_handoff.Settlement.{verify_envelope, package_envelope}
use hammurabi_handoff.Settlement.Agreement.{verify_envelope_iff}
use hammurabi_handoff.Tests.Toy.{differ, toy, toy-Laws, sample_entropy, order_1, receipt_1}

-- The credential of a successful mint.
abbrev released : Result VaultError EphemeralCredential → EphemeralCredential
released (ok cred) = cred
released (err _) = record {
  credential_id = "";
  intent_id = "";
  receipt_id = "";
  public_key_hex = "";
  signature_hex = "";
  payload_digest_hex = "";
  issued_at = pos 0;
  expires_at = pos 0;
  chaos = record {
    honest_verified = true;
    tampered_payload_rejected = true;
    shifted_timestamp_rejected = true;
    signature_bitflips_rejected = 0;
    wrong_key_rejected = true;
  };
}

released_ok : (r : Result VaultError EphemeralCredential) → is_ok r ≡ true → r ≡ ok (released r)
released_ok (ok c) h = refl
released_ok (err e) h = cc h

pub mint_1_ok : is_ok (mint toy sample_entropy order_1 receipt_1 (pos 120)) ≡ true
unfolding mint canonicalize write_value payload write_members sort_by utf16_cmp write_number
    sign_payload canonical_message all_clear chaos_test verify_payload verify_bytes sign_bytes utf8
    mock_eth_limit_order i64_le_bytes public_key verify_signature encode_utf16 lex_cmp le_bytes
    utf8_char write_char write_string insert_field add_i64 bits_of_i64 i64_of_bits sub_i64 show_fuel
    show_ℕ insert_by bitflips_rejected flip_bit tamper toy
mint_1_ok = refl

abbrev cred_1 : EphemeralCredential
cred_1 = released (mint toy sample_entropy order_1 receipt_1 (pos 120))

mint_1 : mint toy sample_entropy order_1 receipt_1 (pos 120) ≡ ok cred_1
mint_1 = released_ok (mint toy sample_entropy order_1 receipt_1 (pos 120)) mint_1_ok

fits_1 : InI64 (pos 120 +ℤ pos 60)
unfolding ◌+ℤ◌
fits_1 = (omega arith, omega arith)

verify-mint_example :
    verify toy cred_1 order_1 (pos 180) ≡ err (outside_validity (pos 120) (pos 180) (pos 180))
unfolding ◌+ℤ◌
verify-mint_example =
    verify-mint toy toy-Laws sample_entropy order_1 receipt_1 (pos 120) (pos 180) cred_1 fits_1
      mint_1

verifies_1 : verify toy cred_1 order_1 (pos 179) ≡ ok tt
unfolding ◌+ℤ◌
verifies_1 =
    verify-mint toy toy-Laws sample_entropy order_1 receipt_1 (pos 120) (pos 179) cred_1 fits_1
      mint_1

issued_1 : cred_1.issued_at ≡ pos 120
unfolding mint canonicalize write_value payload write_members sort_by utf16_cmp write_number
    sign_payload canonical_message all_clear chaos_test verify_payload verify_bytes sign_bytes utf8
    mock_eth_limit_order i64_le_bytes public_key verify_signature encode_utf16 lex_cmp le_bytes
    utf8_char write_char write_string insert_field add_i64 bits_of_i64 i64_of_bits sub_i64 show_fuel
    show_ℕ insert_by bitflips_rejected flip_bit tamper toy
issued_1 = refl

verify-IsBacked_iff_example :
    (verify toy cred_1 order_1 (pos 130) ≡ ok tt) ↔ IsBacked toy cred_1 order_1 (pos 130)
verify-IsBacked_iff_example =
    verify-IsBacked_iff toy cred_1 order_1 (pos 130)
      (subst (λ t. InI64 (t +ℤ pos 60)) (sym issued_1) fits_1)

-- The same order with its first two members in the other order.
abbrev swap_first : Value → Value
swap_first (object (field j v (field k w fs))) = object (field k w (field j v fs))
swap_first other = other

swapped_1 : Reordered (swap_first order_1) order_1
unfolding payload mock_eth_limit_order
swapped_1 = in_object (swap (differ "agent_handle" "action" refl))

verifies_swapped : verify toy cred_1 (swap_first order_1) (pos 179) ≡ ok tt
verifies_swapped = verify-Reordered toy cred_1 (pos 179) swapped_1 ∙ verifies_1

verify_binds_payload_example :
    Reordered order_1 (swap_first order_1)
    ⊎ ((c : Bytes) × (d : Bytes) × (c ≢ d)
        × (c ≡ d)
        × (canonicalize order_1 ≡ ok c)
        × (canonicalize (swap_first order_1) ≡ ok d))
unfolding toy keys_distinct payload
verify_binds_payload_example =
    verify_binds_payload toy toy-Laws cred_1 order_1 (swap_first order_1) (pos 179) (pos 179) refl
      refl verifies_1 verifies_swapped

verify_envelope_iff_example :
    (verify_envelope toy (package_envelope order_1 cred_1 receipt_1) (pos 130) ≡ ok tt)
    ↔ (verify toy cred_1 order_1 (pos 130) ≡ ok tt)
verify_envelope_iff_example = verify_envelope_iff toy order_1 cred_1 receipt_1 (pos 130)
