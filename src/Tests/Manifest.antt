-- ===== src/Tests/Manifest.antt =====
-- tooling/iedb-oka/src/manifest.rs at concrete inputs.
use hammurabi_handoff.Prelude.{◌≡◌, refl, String, none, some, [], ◌∷◌, ok}
use hammurabi_handoff.Json.{null, end, fields}
use hammurabi_handoff.Oka.Manifest.{AspManifest, validate, is_whitespace, validate_iff}

abbrev manifest_1 : AspManifest
manifest_1 = record {
  manifest_version = "1.0";
  name = " Handoff";
  description = "vault";
  version = "0.1.0";
  author = record { name = "HCC"; url = "" };
  capabilities = fields (("credential_minting", null) ∷ []);
  pricing = record {
    model = "x402";
    scheme = some "exact";
    asset = some "USDC";
    credential_mint_fee_micro = some 500000;
    credential_mint_fee_display = none;
    credential_verify_fee = none;
  };
  integrations = end;
  sovereignty = none;
  display = none;
}

-- The name starts with a space, which is trimmed.
manifest_1-valid : validate (λ (s : String). s) manifest_1 ≡ ok tt
unfolding is_whitespace
manifest_1-valid = (validate_iff (λ (s : String). s) manifest_1).1 (refl, refl, λ e. cc e)
