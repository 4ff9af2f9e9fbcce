-- ===== src/Jcs/Agreement.antt =====
-- core/iedb-crypto/src/jcs.rs: two maps that yield related values at every key differ in the order of
-- their members only.
use mathlib.Core.Path.{subst}
use hammurabi_handoff.Prelude.{
  ◌≡◌, ◌≢◌, refl, sym, ◌∙◌, arith, String, Bool, true, false, Option, none, some, eq_iff, str_eq,
  Bool-cases, inl, inr, if◌then◌else◌, ◌&&◌,
}
use hammurabi_handoff.Json.{Value, Fields, end, field, find_field}
use hammurabi_handoff.Jcs.Reorder.{Reordered, ReorderedFields, same, no_fields, keep, swap, twice}
use hammurabi_handoff.Jcs.Integers.{has_key, keys_distinct, keys_distinct_fields, distinct_tail}

-- The values that two maps yield at one key.
abbrev pub Related : Option Value → Option Value → Type 0
Related none none = Unit
Related (some v) (some w) = Reordered v w
Related _ _ = ⊥

abbrev pub Agree : Fields → Fields → Type 0
Agree fs gs = (k : String) → Related (find_field k fs) (find_field k gs)

-- `map` without the member at a key.
without : String → Fields → Fields
without k end = end
without k (field j v fs) = if str_eq j k then fs else field j v (without k fs)

-- Each key stands once.
abbrev pub IsMap : Fields → Type 0
IsMap end = Unit
IsMap (field k v fs) = (find_field k fs ≡ none) × IsMap fs

ReorderedFields-refl : (fs : Fields) → ReorderedFields fs fs
ReorderedFields-refl end = no_fields
ReorderedFields-refl (field k v fs) = keep same (ReorderedFields-refl fs)

-- The member at a key can be moved to the front.
to_front :
    (k : String) (w : Value) (gs : Fields)
    → find_field k gs ≡ some w
    → ReorderedFields (field k w (without k gs)) gs
unfolding find_field without
to_front k w end h = cc
to_front k w (field j v gs) h = elim (Bool-cases (str_eq j k)) [
  | inl e ↦
      let found : v ≡ w = ground (arith, h) in
      let k' : j ≡ k = (eq_iff j k).0 e in
      rw e (
        subst (λ fs. ReorderedFields fs (field j v gs)) (cc (found, k'))
          (ReorderedFields-refl (field j v gs)))
  | inr e ↦
      let found : find_field k gs ≡ some w = ground (arith, h) in
      rw e
        (twice (swap (λ p. cc (sym e, (eq_iff j k).1 (sym p)))) (keep same (to_front k w gs found)))
]

find_field-without :
    (i k : String) (gs : Fields) → i ≢ k → find_field i (without k gs) ≡ find_field i gs
unfolding find_field without
find_field-without i k end h = refl
find_field-without i k (field j v gs) h =
    ground (arith, eq_iff j i, eq_iff j k, eq_iff i k, find_field-without i k gs h)

find_field-without_self : (k : String) (gs : Fields) → IsMap gs → find_field k (without k gs) ≡ none
unfolding find_field without
find_field-without_self k end h = refl
find_field-without_self k (field j v gs) h =
    ground (arith, eq_iff j k, find_field-without_self k gs h.1, h.0)

without-IsMap : (k : String) (gs : Fields) → IsMap gs → IsMap (without k gs)
unfolding without
without-IsMap k end h = tt
without-IsMap k (field j v gs) h = elim (Bool-cases (str_eq j k)) [
  | inl e ↦ rw e h.1
  | inr e ↦
      rw e (find_field-without j k gs (λ p. cc (e, (eq_iff j k).1 p)) ∙ h.0, without-IsMap k gs h.1)
]

Related-none : (o : Option Value) → Related none o → o ≡ none
Related-none none h = refl
Related-none (some v) h = elim h [ ]

Related-some :
    (v : Value) (o : Option Value) → Related (some v) o → (w : Value) × (o ≡ some w) × Reordered v w
Related-some v none h = elim h [ ]
Related-some v (some w) h = (w, refl, h)

pub find_field_head : (k : String) (v : Value) (fs : Fields) → find_field k (field k v fs) ≡ some v
unfolding find_field
find_field_head k v fs = ground (arith, eq_iff k k)

find_field_tail :
    (i k : String) (v : Value) (fs : Fields) → i ≢ k → find_field i (field k v fs) ≡ find_field i fs
unfolding find_field
find_field_tail i k v fs h = ground (arith, eq_iff k i)

-- Once a member is taken off both maps, they still agree.
Agree-without :
    (k : String) (v : Value) (fs gs : Fields)
    → IsMap (field k v fs)
    → IsMap gs
    → Agree (field k v fs) gs
    → Agree fs (without k gs)
Agree-without k v fs gs hf hg h i = elim (Bool-cases (str_eq i k)) [
  | inl e ↦
      let here : i ≡ k = (eq_iff i k).0 e in rw (here, hf.0, find_field-without_self k gs hg) tt
  | inr e ↦
      let away : i ≢ k = λ p. cc (e, (eq_iff i k).1 p) in
      rw (find_field-without i k gs away) (rw (find_field_tail i k v fs away) at (h i))
]

-- Two maps that agree at every key differ in the order of their members only.
pub Agree-ReorderedFields :
    (fs gs : Fields) → IsMap fs → IsMap gs → Agree fs gs → ReorderedFields fs gs
Agree-ReorderedFields end end hf hg h = no_fields
Agree-ReorderedFields end (field j w gs) hf hg h =
    let gone = Related-none (find_field j (field j w gs)) (unfold find_field in h j) in
    cc (gone, find_field_head j w gs)
Agree-ReorderedFields (field k v fs) gs hf hg h =
    let (w, found, r) = Related-some v (find_field k gs) (rw (find_field_head k v fs) at (h k)) in
    twice
      (keep r (
        Agree-ReorderedFields fs (without k gs) hf.1 (without-IsMap k gs hg)
          (Agree-without k v fs gs hf hg h)))
      (to_front k w gs found)

find_field-none : (k : String) (fs : Fields) → has_key k fs ≡ false → find_field k fs ≡ none
unfolding find_field
find_field-none k end h = refl
find_field-none k (field j v fs) h = ground (arith, eq_iff j k, find_field-none k fs)

pub both : (d e : Bool) → (d && e) ≡ true → (d ≡ true) × (e ≡ true)
both d e h = ground arith

-- The members of an object, taken as the code takes a map.
pub keys_distinct-IsMap :
    (k : String) (v : Value) (fs : Fields)
    → keys_distinct_fields (field k v fs) ≡ true
    → (find_field k fs ≡ none) × (keys_distinct v ≡ true) × (keys_distinct_fields fs ≡ true)
unfolding keys_distinct
keys_distinct-IsMap k v fs h =
    let (rest, fresh) =
      distinct_tail (has_key k fs) (keys_distinct v) (keys_distinct_fields fs) h in
    let (here, later) = both (keys_distinct v) (keys_distinct_fields fs) rest in
    (find_field-none k fs fresh, here, later)

pub keys_distinct_fields-IsMap : (fs : Fields) → keys_distinct_fields fs ≡ true → IsMap fs
keys_distinct_fields-IsMap end h = tt
keys_distinct_fields-IsMap (field k v fs) h =
    let (fresh, _, rest) = keys_distinct-IsMap k v fs h in
    (fresh, keys_distinct_fields-IsMap fs rest)
