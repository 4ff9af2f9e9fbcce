-- ===== src/Jcs/Lookup.antt =====
-- core/iedb-crypto/src/jcs.rs: what a value yields at a key, however its members are ordered.
use hammurabi_handoff.Prelude.{
  ◌≡◌, ◌≢◌, refl, arith, String, Option, none, some, eq_iff, str_eq, Bool-cases, inl, inr,
}
use hammurabi_handoff.Json.{Number, Value, number, Fields, field, find_field, get_field}
use hammurabi_handoff.Jcs.Reorder.{
  Reordered, same, in_array, in_object, ReorderedItems, no_items, item, ReorderedFields, no_fields,
  keep, swap, twice,
}
use hammurabi_handoff.Jcs.Agreement.{Related}

mutual
  Reordered_trans : {u v w : Value} → Reordered u v → Reordered v w → Reordered u w
  Reordered_trans same s = s
  Reordered_trans (in_array r) same = in_array r
  Reordered_trans (in_array r) (in_array s) = in_array (ReorderedItems-trans r s)
  Reordered_trans (in_object r) same = in_object r
  Reordered_trans (in_object r) (in_object s) = in_object (twice r s)

  ReorderedItems-trans :
      {xs ys zs : _} → ReorderedItems xs ys → ReorderedItems ys zs → ReorderedItems xs zs
  ReorderedItems-trans no_items no_items = no_items
  ReorderedItems-trans (item r rs) (item s ss) =
      item (Reordered_trans r s) (ReorderedItems-trans rs ss)

Related-refl : (o : Option Value) → Related o o
Related-refl none = tt
Related-refl (some v) = same

Related-of_eq : (o q : Option Value) → o ≡ q → Related o q
Related-of_eq o q e = rw e (Related-refl q)

Related-trans : (o q r : Option Value) → Related o q → Related q r → Related o r
Related-trans none none none h k = tt
Related-trans (some u) (some v) (some w) h k = Reordered_trans h k
Related-trans none (some v) r h k = elim h [ ]
Related-trans (some u) none r h k = elim h [ ]
Related-trans none none (some w) h k = elim k [ ]
Related-trans (some u) (some v) none h k = elim k [ ]

find_field-swap :
    (i j k : String) (v w : Value) (fs : Fields)
    → j ≢ k
    → find_field i (field j v (field k w fs)) ≡ find_field i (field k w (field j v fs))
unfolding find_field
find_field-swap i j k v w fs h = ground (arith, eq_iff j i, eq_iff k i, eq_iff j k)

-- Maps that differ in the order of their members yield related values at every key.
find_field-Related :
    (i : String) {fs gs : Fields}
    → ReorderedFields fs gs
    → Related (find_field i fs) (find_field i gs)
unfolding find_field
find_field-Related i no_fields = tt
find_field-Related i (keep {k = k} {v = v} {w = w} r rs) = elim (Bool-cases (str_eq k i)) [
  | inl e ↦ rw e r
  | inr e ↦ rw e (find_field-Related i rs)
]
find_field-Related i (swap {j = j} {k = k} {v = v} {w = w} {fs = fs} h) =
    Related-of_eq (find_field i (field j v (field k w fs)))
      (find_field i (field k w (field j v fs))) (find_field-swap i j k v w fs h)
find_field-Related i (twice {fs} {gs} {hs} r s) =
    Related-trans (find_field i fs) (find_field i gs) (find_field i hs) (find_field-Related i r)
      (find_field-Related i s)

Reordered-number : (v : Value) (n : Number) → Reordered v (number n) → v ≡ number n
Reordered-number v n same = refl

Related-number : (o : Option Value) (n : Number) → Related o (some (number n)) → o ≡ some (number n)
Related-number none n h = elim h [ ]
Related-number (some v) n h = rw (Reordered-number v n h) refl

get_field-Related :
    (i : String) {v w : Value} → Reordered v w → Related (get_field i v) (get_field i w)
unfolding get_field
get_field-Related i {v} same = Related-refl (get_field i v)
get_field-Related i (in_array r) = tt
get_field-Related i (in_object r) = find_field-Related i r

-- A number that stands at a key of a value stands there however the members are ordered.
pub get_field-number :
    (i : String) (n : Number) (v w : Value)
    → Reordered v w
    → get_field i w ≡ some (number n)
    → get_field i v ≡ some (number n)
get_field-number i n v w r h = Related-number (get_field i v) n (rw h at (get_field-Related i r))
