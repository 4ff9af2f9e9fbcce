-- ===== src/Vault/Tamper.antt =====
-- desktop/hammurabi-handoff/src/vault.rs, probe 1 of `chaos_test`: the mutated payload.
use hammurabi_handoff.Prelude.{
  ◌≡◌, ◌↔◌, refl, ap, ◌∙◌, arith, String, true, false, ◌||◌, some, eq_iff, str_eq, Bool-cases, inl,
  inr, ok,
}
use hammurabi_handoff.Json.{
  pos_int, Value, array, object, Fields, end, field, natural, find_field, get_field, insert_field,
}
use hammurabi_handoff.Crypto.{Bytes}
use hammurabi_handoff.Jcs.{canonicalize}
use hammurabi_handoff.Jcs.Integers.{has_key, keys_distinct, keys_distinct_fields, distinct_tail}
use hammurabi_handoff.Jcs.Agreement.{both}
use hammurabi_handoff.Jcs.Reorder.{Reordered}
use hammurabi_handoff.Jcs.Unique.{canonicalize_injective}
use hammurabi_handoff.Jcs.Lookup.{get_field-number}
use hammurabi_handoff.Vault.{tamper}

find_field-insert_field :
    (k : String) (v : Value) (fs : Fields) → find_field k (insert_field k v fs) ≡ some v
unfolding find_field insert_field
find_field-insert_field k v end = ground (arith, eq_iff k k)
find_field-insert_field k v (field j w fs) =
    ground (arith, eq_iff k k, eq_iff j k, find_field-insert_field k v fs)

-- Putting a value where it already stands changes nothing.
insert_field_same :
    (k : String) (v : Value) (fs : Fields) → find_field k fs ≡ some v → insert_field k v fs ≡ fs
unfolding find_field insert_field
insert_field_same k v end h = cc h
insert_field_same k v (field j w fs) h = ground (arith, eq_iff j k, insert_field_same k v fs)

has_key-insert_field :
    (i k : String) (v : Value) (fs : Fields)
    → has_key i (insert_field k v fs) ≡ (str_eq k i || has_key i fs)
unfolding insert_field
has_key-insert_field i k v end = refl
has_key-insert_field i k v (field j w fs) =
    ground (arith, eq_iff j k, eq_iff j i, eq_iff k i, has_key-insert_field i k v fs)

insert_field-keys_distinct :
    (k : String) (v : Value) (fs : Fields)
    → keys_distinct v ≡ true
    → keys_distinct_fields fs ≡ true
    → keys_distinct_fields (insert_field k v fs) ≡ true
unfolding insert_field keys_distinct
insert_field-keys_distinct k v end dv h = rw dv refl
insert_field-keys_distinct k v (field j w fs) dv h =
    let (rest, fresh) =
      distinct_tail (has_key j fs) (keys_distinct w) (keys_distinct_fields fs) h in
    let (dw, dfs) = both (keys_distinct w) (keys_distinct_fields fs) rest in
    elim (Bool-cases (str_eq j k)) [
      | inl e ↦
          let here : j ≡ k = (eq_iff j k).0 e in
          let fresh' : has_key k fs ≡ false = rw (← here) fresh in rw (e, fresh', dv, dfs) refl
      | inr e ↦
          let away : str_eq k j ≡ false = ground (arith, eq_iff j k, eq_iff k j, e) in
          rw
            (
              e,
              has_key-insert_field j k v fs,
              away,
              fresh,
              dw,
              insert_field-keys_distinct k v fs dv dfs,
            )
            refl
    ]

-- The member that probe 1 adds stands in the payload already.
abbrev pub IsMarked : Value → Type 0
IsMarked v = get_field "__chaos__" v ≡ some (natural 1)

tamper-keys_distinct : (v : Value) → keys_distinct v ≡ true → keys_distinct (tamper v) ≡ true
unfolding tamper keys_distinct
tamper-keys_distinct (object fs) h = insert_field-keys_distinct "__chaos__" (natural 1) fs refl h
tamper-keys_distinct (array xs) h = rw h refl
tamper-keys_distinct v h = refl

-- A payload that differs from its mutation in the order of members only is marked.
Reordered-tamper : (v : Value) → Reordered v (tamper v) → IsMarked v
unfolding tamper
Reordered-tamper (object fs) r =
    get_field-number "__chaos__" (pos_int 1) (object fs) (tamper (object fs)) r
      (unfold get_field in find_field-insert_field "__chaos__" (natural 1) fs)
Reordered-tamper v r = elim r [ ]

pub tamper_marked : (v : Value) → IsMarked v → tamper v ≡ v
unfolding tamper get_field
tamper_marked (object fs) h = ap object (insert_field_same "__chaos__" (natural 1) fs h)
tamper_marked v h = cc h

-- For a payload in whose objects no key is repeated and that has a canonical form, the mutated payload of
-- probe 1 has the same canonical form exactly if the payload holds `"__chaos__": 1` itself.
pub canonicalize-tamper_iff :
    (v : Value) (c : Bytes)
    → keys_distinct v ≡ true
    → canonicalize v ≡ ok c
    → (canonicalize (tamper v) ≡ ok c) ↔ IsMarked v
canonicalize-tamper_iff v c d h = (
  λ e. Reordered-tamper v (canonicalize_injective v (tamper v) c d (tamper-keys_distinct v d) h e),
  λ m. ap canonicalize (tamper_marked v m) ∙ h,
)
