-- ===== src/Oka/Manifest.antt =====
-- tooling/iedb-oka/src/manifest.rs: the manifest and its validation. A capability is kept as the JSON that
-- it is in the manifest's map. The escapes of a text under `{:?}` are an argument.
use hammurabi_handoff.Prelude.{
  ℕ, ◌≡◌, ◌≢◌, ◌↔◌, refl, ◌∙◌, arith, String, codes, Bool, true, false, not, ◌&&◌, ◌||◌, Option,
  List, [], ◌∷◌, ◌==◌, leb, str_eq, eq_iff, ◌<>◌, ok, err, if◌then◌else◌,
}
use hammurabi_handoff.Json.{Fields, end, field}
use hammurabi_handoff.Oka.{OkaResult, schema}

pub record Author : Type 0 where
  pub name : String
  pub url : String

pub record Capability : Type 0 where
  pub description : String
  pub endpoint : Option String
  pub extra : Fields

pub record Sovereignty : Type 0 where
  pub binding : String
  pub telemetry : String
  pub key_persistence : String
  pub clock_discipline : String

pub record Display : Type 0 where
  pub logo : String
  pub primary_color : String
  pub accent_color : String

pub record Pricing : Type 0 where
  pub model : String
  pub scheme : Option String
  pub asset : Option String
  pub credential_mint_fee_micro : Option ℕ
  pub credential_mint_fee_display : Option String
  pub credential_verify_fee : Option String

pub record AspManifest : Type 0 where
  pub manifest_version : String
  pub name : String
  pub description : String
  pub version : String
  pub author : Author
  pub capabilities : Fields
  pub pricing : Pricing
  pub integrations : Fields
  pub sovereignty : Option Sovereignty
  pub display : Option Display

-- `char::is_whitespace`: the code points that Unicode calls White_Space.
unfoldable pub is_whitespace : ℕ → Bool
is_whitespace c =
    (leb 9 c && leb c 13)
    || ((c == 32)
        || ((c == 133)
            || ((c == 160)
                || ((c == 5760)
                    || ((leb 8192 c && leb c 8202)
                        || ((leb 8232 c && leb c 8233)
                            || ((c == 8239) || ((c == 8287) || (c == 12288)))))))))

-- `str::trim`, on code points.
unfoldable pub trim_start : List ℕ → List ℕ
trim_start [] = []
trim_start (c ∷ cs) = let rest = trim_start cs in if is_whitespace c then rest else c ∷ cs

abbrev pub no_codes : List ℕ → Bool
no_codes [] = true
no_codes (_ ∷ _) = false

unfoldable pub trim_end : List ℕ → List ℕ
trim_end [] = []
trim_end (c ∷ cs) =
    let rest = trim_end cs in if no_codes rest && is_whitespace c then [] else c ∷ rest

abbrev pub is_empty : Fields → Bool
is_empty end = true
is_empty (field _ _ _) = false

module _ (debug : String → String) where
  unfoldable pub validate : AspManifest → OkaResult (Unit {0})
  unfolding trim_start trim_end
  validate m =
      if no_codes (trim_end (trim_start (codes m.name)))
      then err (schema "manifest name is empty")
      else if not (str_eq m.pricing.model "x402")
      then err (schema ("expected x402 pricing model, got " <> debug m.pricing.model))
      else if is_empty m.capabilities
      then err (schema "manifest advertises no capabilities")
      else ok tt

-- Every code point is whitespace.
abbrev pub all_white : List ℕ → Bool
all_white [] = true
all_white (c ∷ cs) = is_whitespace c && all_white cs

no_codes-trim_end : (cs : List ℕ) → no_codes (trim_end cs) ≡ all_white cs
unfolding trim_end
no_codes-trim_end [] = refl
no_codes-trim_end (c ∷ cs) = ground (arith, no_codes-trim_end cs)

all_white-trim_start : (cs : List ℕ) → all_white (trim_start cs) ≡ all_white cs
unfolding trim_start
all_white-trim_start [] = refl
all_white-trim_start (c ∷ cs) = ground (arith, all_white-trim_start cs)

no_codes-trim : (cs : List ℕ) → no_codes (trim_end (trim_start cs)) ≡ all_white cs
no_codes-trim cs = no_codes-trim_end (trim_start cs) ∙ all_white-trim_start cs

-- A manifest is valid exactly if its name has a character that is no whitespace, its pricing model is
-- x402, and it advertises a capability.
pub validate_iff :
    (debug : String → String) (m : AspManifest)
    → (validate debug m ≡ ok tt)
      ↔ ((all_white (codes m.name) ≡ false) × (m.pricing.model ≡ "x402") × (m.capabilities ≢ end))
unfolding validate
validate_iff debug m =
    let model = eq_iff m.pricing.model "x402" in
    let name = no_codes-trim (codes m.name) in
    (
      λ h. (ground (arith, h, name), model.0 (ground (arith, h)), λ e. ground (arith, h, e)),
      λ (white, right, some_). ground (arith, name, white, model.1 right, some_),
    )
