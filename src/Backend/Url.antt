-- ===== src/Backend/Url.antt =====
-- desktop/hammurabi-handoff/src/settlement_backend.rs: the base of the facilitator's addresses.
use Prim.Native.Char.{Char, code}
use Prim.Native.String.append
use mathlib.Core.Path.{subst}
use hammurabi_handoff.Prelude.{
  ◌≡◌, refl, sym, ap, ◌∙◌, arith, String, Bool-cases, false, ◌&&◌, ◌==◌, str_eq, eq_iff, ◌<>◌, inl,
  inr, if◌then◌else◌,
}
use hammurabi_handoff.Backend.{trim_slashes}

abbrev pub OnlySlashes : String → Type 0
OnlySlashes String.[] = Unit
OnlySlashes (String.◌∷◌ c s) = (code c ≡ 47) × OnlySlashes s

-- No end of it, but the empty one, consists of slashes only.
abbrev pub NoSlashAtEnd : String → Type 0
NoSlashAtEnd String.[] = Unit
NoSlashAtEnd (String.◌∷◌ c s) = ¬ OnlySlashes (String.◌∷◌ c s) × NoSlashAtEnd s

-- A text is its base and the slashes behind it.
pub record IsBase (whole stem : String) : Type 0 where
  pub slashes : String
  pub parts : whole ≡ stem <> slashes
  pub only_slashes : OnlySlashes slashes
  pub bare : NoSlashAtEnd stem

ends_other : (stem : String) → NoSlashAtEnd stem → str_eq stem "" ≡ false → ¬ OnlySlashes stem
ends_other String.[] bare left = absurd (cc left)
ends_other (String.◌∷◌ c s) bare left = bare.0

unfoldable trimmed_char : Char → String → String
trimmed_char c stem = if str_eq stem "" && (code c == b'/') then "" else String.◌∷◌ c stem

IsBase-prepend :
    (c : Char) (s stem : String) → IsBase s stem → IsBase (String.◌∷◌ c s) (trimmed_char c stem)
unfolding trimmed_char
IsBase-prepend c s stem b = elim (Bool-cases (str_eq stem "")) [
  | inl empty ↦
      let none_left = (eq_iff stem "").0 empty in
      let all_slashes : s ≡ b.slashes =
        b.parts ∙ ap (λ t. t <> b.slashes) none_left ∙ append.nil b.slashes in
      elim (Bool-cases (code c == b'/')) [
        | inl slash ↦
            rw (empty, slash)
              (record {
                slashes = String.◌∷◌ c s;
                parts = sym (append.nil (String.◌∷◌ c s));
                only_slashes =
                    (ground (arith, slash), subst OnlySlashes (sym all_slashes) b.only_slashes);
                bare = tt;
              })
        | inr other ↦
            rw (empty, other)
              (record {
                slashes = b.slashes;
                parts = ap (String.◌∷◌ c) b.parts ∙ sym (append.cons c stem b.slashes);
                only_slashes = b.only_slashes;
                bare = ((λ h. ground (arith, other, h.0)), b.bare);
              })
      ]
  | inr left ↦ rw left (record {
    slashes = b.slashes;
    parts = ap (String.◌∷◌ c) b.parts ∙ sym (append.cons c stem b.slashes);
    only_slashes = b.only_slashes;
    bare = ((λ h. ends_other stem b.bare left h.1), b.bare);
  })
]

pub trim_slashes-IsBase : (s : String) → IsBase s (trim_slashes s)
unfolding trim_slashes trimmed_char
trim_slashes-IsBase String.[] = record { slashes = ""; parts = refl; only_slashes = tt; bare = tt }
trim_slashes-IsBase (String.◌∷◌ c s) = IsBase-prepend c s (trim_slashes s) (trim_slashes-IsBase s)

trim_slashes_of_OnlySlashes : (s : String) → OnlySlashes s → trim_slashes s ≡ ""
unfolding trim_slashes
trim_slashes_of_OnlySlashes String.[] h = refl
trim_slashes_of_OnlySlashes (String.◌∷◌ c s) h = rw (trim_slashes_of_OnlySlashes s h.1, h.0) refl

trim_slashes-append :
    (stem slashes : String)
    → OnlySlashes slashes
    → NoSlashAtEnd stem
    → trim_slashes (stem <> slashes) ≡ stem
unfolding trim_slashes
trim_slashes-append String.[] slashes only bare =
    ap trim_slashes (append.nil slashes) ∙ trim_slashes_of_OnlySlashes slashes only
trim_slashes-append (String.◌∷◌ c s) slashes only bare =
    let rest = trim_slashes-append s slashes only bare.1 in
    rw (append.cons c s slashes, rest)
      (elim (Bool-cases (str_eq s "" && (code c == b'/'))) [
        | inl gone ↦
            let empty = (eq_iff s "").0 (ground (arith, gone)) in
            absurd (bare.0 (ground (arith, gone), subst OnlySlashes (sym empty) tt))
        | inr kept ↦ rw kept refl
      ])

pub trim_slashes_of_IsBase : (whole stem : String) → IsBase whole stem → trim_slashes whole ≡ stem
trim_slashes_of_IsBase whole stem b =
    rw b.parts (trim_slashes-append stem b.slashes b.only_slashes b.bare)
