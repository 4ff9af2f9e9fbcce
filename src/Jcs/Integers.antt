-- ===== src/Jcs/Integers.antt =====
-- core/iedb-crypto/src/jcs.rs: which values the canonicalizer refuses.
use hammurabi_handoff.Prelude.{
  ◌≡◌, refl, ◌∙◌, arith, String, Bool, true, false, not, ◌&&◌, ◌||◌, List, [], ◌∷◌, eq_iff, str_eq,
  ok, err, ◌>>=◌, is_ok, some,
}
use hammurabi_handoff.Prelude.Keyed.{Keyed, lookup}
use hammurabi_handoff.Json.{
  Number, pos_int, neg_int, float, Value, null, bool, number, string, array, object, Items, nil,
  cons, Fields, end, field,
}
use hammurabi_handoff.Sort.{insert_by, sort_by}
use hammurabi_handoff.Crypto.{CryptoResult}
use hammurabi_handoff.Jcs.{
  Text, keys, write_number, write_member, write_members, write_value, write_items, members, utf8,
  canonicalize,
}
use hammurabi_handoff.Jcs.Utf16.{utf16_cmp}

abbrev pub is_float : Number → Bool
is_float (float _) = true
is_float _ = false

-- Whether a float stands anywhere in the value.
unfoldable mutual
  pub has_float : Value → Bool
  has_float (number n) = is_float n
  has_float (array xs) = has_float_items xs
  has_float (object fs) = has_float_fields fs
  has_float _ = false

  pub has_float_items : Items → Bool
  has_float_items nil = false
  has_float_items (cons v xs) = has_float v || has_float_items xs

  pub has_float_fields : Fields → Bool
  has_float_fields end = false
  has_float_fields (field k v fs) = has_float v || has_float_fields fs

-- Whether a key stands among the members, and whether every object of a value has distinct keys, as a
-- map has.
abbrev pub has_key : String → Fields → Bool
has_key k end = false
has_key k (field j v fs) = str_eq j k || has_key k fs

unfoldable mutual
  pub keys_distinct : Value → Bool
  keys_distinct (array xs) = keys_distinct_items xs
  keys_distinct (object fs) = keys_distinct_fields fs
  keys_distinct _ = true

  pub keys_distinct_items : Items → Bool
  keys_distinct_items nil = true
  keys_distinct_items (cons v xs) = keys_distinct v && keys_distinct_items xs

  pub keys_distinct_fields : Fields → Bool
  keys_distinct_fields end = true
  keys_distinct_fields (field k v fs) =
      not (has_key k fs) && (keys_distinct v && keys_distinct_fields fs)

-- Whether the members at these keys can be written.
all_ok : List String → Keyed (CryptoResult Text) → Bool
all_ok [] ms = true
all_ok (k ∷ ks) ms = is_ok (write_member (lookup k ms)) && all_ok ks ms

is_ok-write_members :
    (first : Bool) (ks : List String) (ms : Keyed (CryptoResult Text))
    → is_ok (write_members first ks ms) ≡ all_ok ks ms
unfolding write_members all_ok
is_ok-write_members first [] ms = refl
is_ok-write_members first (k ∷ ks) ms = ground (arith, is_ok-write_members false ks ms)

all_ok-insert_by :
    (k : String) (ks : List String) (ms : Keyed (CryptoResult Text))
    → all_ok (insert_by utf16_cmp k ks) ms ≡ (is_ok (write_member (lookup k ms)) && all_ok ks ms)
unfolding all_ok insert_by
all_ok-insert_by k [] ms = refl
all_ok-insert_by k (j ∷ ks) ms = ground (arith, all_ok-insert_by k ks ms)

all_ok-sort_by :
    (ks : List String) (ms : Keyed (CryptoResult Text))
    → all_ok (sort_by utf16_cmp ks) ms ≡ all_ok ks ms
unfolding all_ok sort_by
all_ok-sort_by [] ms = refl
all_ok-sort_by (k ∷ ks) ms =
    ground (arith, all_ok-insert_by k (sort_by utf16_cmp ks) ms, all_ok-sort_by ks ms)

-- A member in front whose key is not asked for changes nothing.
all_ok-skip :
    (k : String) (r : CryptoResult Text) (fs : Fields) (ms : Keyed (CryptoResult Text))
    → has_key k fs ≡ false
    → all_ok (keys (members fs)) ((k, r) ∷ ms) ≡ all_ok (keys (members fs)) ms
unfolding all_ok lookup write_value
all_ok-skip k r end ms h = refl
all_ok-skip k r (field j v fs) ms h = ground (arith, eq_iff j k, eq_iff k j, all_ok-skip k r fs ms)

lookup_head {ℓ} : {V : Type ℓ} (k : String) (v : V) (m : Keyed V) → lookup k ((k, v) ∷ m) ≡ some v
unfolding lookup
lookup_head k v m = ground (arith, eq_iff k k)

is_ok-then {ℓ} :
    {A B : Type ℓ} (r : CryptoResult A) (f : A → B) → is_ok (r >>= λ a. ok (f a)) ≡ is_ok r
is_ok-then (ok a) f = refl
is_ok-then (err e) f = refl

is_ok-then_both :
    {A B C : Type 0} (r : CryptoResult A) (q : CryptoResult B) (f : A → B → C)
    → is_ok (r >>= λ a. (q >>= λ b. ok (f a b))) ≡ (is_ok r && is_ok q)
is_ok-then_both (ok a) q f = is_ok-then q (f a)
is_ok-then_both (err e) q f = refl

-- Two parts, each of which is written exactly if it has no float.
both_ok :
    (d e a b x y : Bool)
    → (d && e) ≡ true
    → (d ≡ true → x ≡ not a)
    → (e ≡ true → y ≡ not b)
    → (x && y) ≡ not (a || b)
both_ok d e a b x y h p q = ground arith

pub distinct_tail : (b d e : Bool) → (not b && (d && e)) ≡ true → ((d && e) ≡ true) × (b ≡ false)
distinct_tail b d e h = ground arith

mutual
  unfolding write_value write_number has_float keys_distinct all_ok

  is_ok-write_value :
      (v : Value) → keys_distinct v ≡ true → is_ok (write_value v) ≡ not (has_float v)
  is_ok-write_value null h = refl
  is_ok-write_value (bool true) h = refl
  is_ok-write_value (bool false) h = refl
  is_ok-write_value (number (pos_int n)) h = refl
  is_ok-write_value (number (neg_int n)) h = refl
  is_ok-write_value (number (float printed)) h = refl
  is_ok-write_value (string s) h = refl
  is_ok-write_value (array xs) h = is_ok-then (write_items true xs) _ ∙ is_ok-write_items true xs h
  is_ok-write_value (object fs) h =
      is_ok-then (write_members true (sort_by utf16_cmp (keys (members fs))) (members fs)) _
      ∙ is_ok-write_members true (sort_by utf16_cmp (keys (members fs))) (members fs)
      ∙ all_ok-sort_by (keys (members fs)) (members fs)
      ∙ all_ok-members fs h

  is_ok-write_items :
      (first : Bool) (xs : Items)
      → keys_distinct_items xs ≡ true
      → is_ok (write_items first xs) ≡ not (has_float_items xs)
  is_ok-write_items first nil h = refl
  is_ok-write_items first (cons v xs) h =
      is_ok-then_both (write_value v) (write_items false xs) _
      ∙ both_ok _ _ (has_float v) (has_float_items xs) _ _ h (is_ok-write_value v)
          (is_ok-write_items false xs)

  all_ok-members :
      (fs : Fields)
      → keys_distinct_fields fs ≡ true
      → all_ok (keys (members fs)) (members fs) ≡ not (has_float_fields fs)
  all_ok-members end h = refl
  all_ok-members (field k v fs) h =
      let (rest, fresh) =
        distinct_tail (has_key k fs) (keys_distinct v) (keys_distinct_fields fs) h in
      rw
        (
          lookup_head k (write_value v) (members fs),
          all_ok-skip k (write_value v) fs (members fs) fresh,
        )
        (both_ok _ _ (has_float v) (has_float_fields fs) _ _ rest (is_ok-write_value v)
          (all_ok-members fs))

-- A value, whose objects have distinct keys, has a canonical form exactly if no float stands in it, at
-- any depth.
pub is_ok-canonicalize :
    (v : Value) → keys_distinct v ≡ true → is_ok (canonicalize v) ≡ not (has_float v)
unfolding canonicalize
is_ok-canonicalize v h = is_ok-then (write_value v) utf8 ∙ is_ok-write_value v h
