-- ===== src/Jcs/Objects.antt =====
-- core/iedb-crypto/src/jcs.rs, `write_value`: an object can be read off the front of a text, if each
-- member can.
use mathlib.Core.Path.{subst}
use mathlib.Core.List.{append_assoc}
use hammurabi_handoff.Prelude.{
  ◌≡◌, refl, sym, ◌∙◌, arith, String, Bool, true, false, List, [], ◌∷◌, ◌++◌, All, All-weaken, ok,
  Option, none, some, Bool-cases, inl, inr, eq_iff, str_eq,
}
use hammurabi_handoff.Json.{Value, object, Fields, end, field, find_field}
use hammurabi_handoff.Sort.{sort_by}
use hammurabi_handoff.Sort.Permuted.{All-sort_by, sort_by-All}
use hammurabi_handoff.Jcs.{Text, keys, write_members, write_value, members}
use hammurabi_handoff.Jcs.Utf16.{utf16_cmp}
use hammurabi_handoff.Jcs.Integers.{keys_distinct, keys_distinct_fields}
use hammurabi_handoff.Jcs.Reorder.{Reordered, ReorderedFields}
use hammurabi_handoff.Jcs.Decimal.{Delimited}
use hammurabi_handoff.Jcs.Chars.{write_string_unique}
use hammurabi_handoff.Jcs.Agreement.{
  Related, Agree, find_field_head, Agree-ReorderedFields, keys_distinct_fields-IsMap,
  keys_distinct-IsMap,
}
use hammurabi_handoff.Jcs.Openers.{write_object_inv}
use hammurabi_handoff.Jcs.Rounds.{
  Holds, write_members_inv, write_members-Delimited, comma_injective, key-ne-close,
}

-- The value can be read off the front of a text.
abbrev pub Unique : Value → Type 0
Unique v =
    (w : Value) (t u r s : Text)
    → keys_distinct v ≡ true
    → keys_distinct w ≡ true
    → write_value v ≡ ok t
    → write_value w ≡ ok u
    → Delimited r
    → Delimited s
    → t ++ r ≡ u ++ s
    → Reordered v w × (r ≡ s)

-- So can every member's value.
abbrev pub UniqueFields : Fields → Type 0
UniqueFields fs = (k : String) (v : Value) → find_field k fs ≡ some v → Unique v

abbrev RelatedAt : Fields → Fields → String → Type 0
RelatedAt fs gs k = Related (find_field k fs) (find_field k gs)

-- The loops over the sorted keys of two objects, in front of the closing brace.
module _ (fs gs : Fields) (unique : UniqueFields fs) where
  write_members_unique :
      (first : Bool) (ks js : List String) (t u r s : Text)
      → All (Holds fs) ks
      → All (Holds gs) js
      → write_members first ks (members fs) ≡ ok t
      → write_members first js (members gs) ≡ ok u
      → t ++ (b'}' ∷ r) ≡ u ++ (b'}' ∷ s)
      → (ks ≡ js) × All (RelatedAt fs gs) ks × (r ≡ s)
  unfolding write_members
  write_members_unique first [] [] t u r s hk hj ht hu h =
      let e : t ≡ [] = cc ht in let e' : u ≡ [] = cc hu in (refl, tt, cc (h, e, e'))
  write_members_unique first [] (j ∷ js) t u r s hk hj ht hu h =
      let (w, found, _) = hj.0 in
      let (x, y, _, _, split) = write_members_inv first j js gs w u found hu in
      let e : t ≡ [] = cc ht in
      absurd
        (key-ne-close first j (b':' ∷ (x ++ (y ++ (b'}' ∷ s)))) r (cc (split (b'}' ∷ s), h, e)))
  write_members_unique first (k ∷ ks) [] t u r s hk hj ht hu h =
      let (v, found, _) = hk.0 in
      let (x, y, _, _, split) = write_members_inv first k ks fs v t found ht in
      let e : u ≡ [] = cc hu in
      absurd
        (key-ne-close first k (b':' ∷ (x ++ (y ++ (b'}' ∷ r)))) s (cc (split (b'}' ∷ r), h, e)))
  write_members_unique first (k ∷ ks) (j ∷ js) t u r s hk hj ht hu h =
      let (v, found, dv) = hk.0 in
      let (w, found', dw) = hj.0 in
      let (x, y, px, py, split) = write_members_inv first k ks fs v t found ht in
      let (x', y', px', py', split') = write_members_inv first j js gs w u found' hu in
      let texts = comma_injective first _ _ (sym (split (b'}' ∷ r)) ∙ h ∙ split' (b'}' ∷ s)) in
      let (same_key, after_key) = write_string_unique k j _ _ texts in
      let (related, after_value) =
        unique k v found w x x' (y ++ (b'}' ∷ r)) (y' ++ (b'}' ∷ s)) dv dw px px'
          (write_members-Delimited ks (members fs) y r py)
          (write_members-Delimited js (members gs) y' s py') (cc after_key) in
      let (same_keys, all, rest) =
        write_members_unique false ks js y y' r s hk.1 hj.1 py py' after_value in
      let found'' : find_field k gs ≡ some w = rw (sym same_key) at found' in
      (cc (same_key, same_keys), (rw (found, found'') related, all), rest)

-- A member stands at each key of the map.
abbrev Found : Fields → String → Type 0
Found fs k = (v : Value) × (find_field k fs ≡ some v)

Found-cons :
    (j : String) (w : Value) (fs : Fields) (k : String) → Found fs k → Found (field j w fs) k
unfolding find_field
Found-cons j w fs k (v, h) = elim (Bool-cases (str_eq j k)) [
  | inl e ↦ (w, rw e refl)
  | inr e ↦ (v, rw e h)
]

keys-Found : (fs : Fields) → All (Found fs) (keys (members fs))
unfolding write_value
keys-Found end = tt
keys-Found (field k v fs) = (
  (v, find_field_head k v fs),
  All-weaken (Found-cons k v fs) (keys (members fs)) (keys-Found fs),
)

find_field-keys_distinct :
    (k : String) (v : Value) (fs : Fields)
    → keys_distinct_fields fs ≡ true
    → find_field k fs ≡ some v
    → keys_distinct v ≡ true
unfolding find_field
find_field-keys_distinct k v end d h = cc
find_field-keys_distinct k v (field j w fs) d h =
    let (_, here, later) = keys_distinct-IsMap j w fs d in
    elim (Bool-cases (str_eq j k)) [
      | inl e ↦ let found : w ≡ v = ground (arith, h, e) in cc (here, found)
      | inr e ↦ find_field-keys_distinct k v fs later (ground (arith, h, e))
    ]

sorted-Holds :
    (fs : Fields)
    → keys_distinct_fields fs ≡ true
    → All (Holds fs) (sort_by utf16_cmp (keys (members fs)))
sorted-Holds fs d = All-sort_by utf16_cmp (Holds fs) (keys (members fs)) (
    All-weaken (λ k (v, h). (v, h, find_field-keys_distinct k v fs d h)) (keys (members fs))
      (keys-Found fs))

All-keys {κ} :
    (P : String → Type κ) (fs : Fields) (k : String) (v : Value)
    → All P (keys (members fs))
    → find_field k fs ≡ some v
    → P k
unfolding find_field write_value
All-keys P end k v h e = absurd (cc e)
All-keys P (field j w fs) k v h e = elim (Bool-cases (str_eq j k)) [
  | inl e' ↦ subst P ((eq_iff j k).0 e') h.0
  | inr other ↦ All-keys P fs k v h.1 (ground (arith, e, other))
]

-- Two maps that are related at each key of either agree.
module _ (fs gs : Fields) (hf : All (RelatedAt fs gs) (keys (members fs)))
    (hg : All (RelatedAt fs gs) (keys (members gs))) where
  keys-Agree : Agree fs gs
  keys-Agree k = by_first (find_field k fs) refl
    where
      by_second :
          (o : Option Value)
          → find_field k fs ≡ none
          → find_field k gs ≡ o
          → Related (find_field k fs) (find_field k gs)
      by_second none e e' = rw (e, e') tt
      by_second (some w) e e' = All-keys (RelatedAt fs gs) gs k w hg e'

      by_first :
          (o : Option Value) → find_field k fs ≡ o → Related (find_field k fs) (find_field k gs)
      by_first none e = by_second (find_field k gs) e refl
      by_first (some v) e = All-keys (RelatedAt fs gs) fs k v hf e

-- An object can be read off the front of a text.
pub write_object_unique :
    (fs gs : Fields) (t u r s : Text)
    → UniqueFields fs
    → keys_distinct_fields fs ≡ true
    → keys_distinct_fields gs ≡ true
    → write_value (object fs) ≡ ok t
    → write_value (object gs) ≡ ok u
    → t ++ r ≡ u ++ s
    → ReorderedFields fs gs × (r ≡ s)
write_object_unique fs gs t u r s unique df dg ht hu h =
    let (x, p, e) = write_object_inv fs t ht in
    let (y, q, e') = write_object_inv gs u hu in
    let texts : x ++ (b'}' ∷ r) ≡ y ++ (b'}' ∷ s) =
      cc (h, e, e', append_assoc x (b'}' ∷ []) r, append_assoc y (b'}' ∷ []) s) in
    let (same_keys, related, rest) =
      write_members_unique fs gs unique true (sort_by utf16_cmp (keys (members fs)))
        (sort_by utf16_cmp (keys (members gs))) x y r s (sorted-Holds fs df) (sorted-Holds gs dg) p
        q texts in
    (
      Agree-ReorderedFields fs gs (keys_distinct_fields-IsMap fs df)
          (keys_distinct_fields-IsMap gs dg)
          (keys-Agree fs gs (sort_by-All utf16_cmp (RelatedAt fs gs) (keys (members fs)) related) (
            sort_by-All utf16_cmp (RelatedAt fs gs) (keys (members gs))
              (subst (All (RelatedAt fs gs)) same_keys related))),
      rest,
    )
