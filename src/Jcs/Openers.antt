-- ===== src/Jcs/Openers.antt =====
-- core/iedb-crypto/src/jcs.rs, `write_value`: the code point with which a value's text starts.
use hammurabi_handoff.Prelude.{
  ℕ, ◌+◌, ◌≡◌, ◌≢◌, refl, ap, sym, ◌∙◌, arith, Bool, true, false, [], ◌∷◌, ◌++◌, codes, ok,
  >>=-eq-ok, show_ℕ, if◌then◌else◌,
}
use hammurabi_handoff.Prelude.Int.{show_ℤ}
use hammurabi_handoff.Json.{
  pos_int, neg_int, float, Value, null, bool, number, string, array, object, Items, Fields,
}
use hammurabi_handoff.Sort.{sort_by}
use hammurabi_handoff.Jcs.{
  Text, comma, keys, write_number, write_chars, write_string, write_members, write_value,
  write_items, members,
}
use hammurabi_handoff.Jcs.Utf16.{utf16_cmp}
use hammurabi_handoff.Jcs.Ink.{codes-join}
use hammurabi_handoff.Jcs.Decimal.{is_digit, StartsWith, show_ℕ-StartsWith}

-- The code point that opens a value; all digits count as one.
abbrev pub opener : Value → ℕ
opener null = b'n'
opener (bool true) = b't'
opener (bool false) = b'f'
opener (number (neg_int _)) = b'-'
opener (number _) = b'0'
opener (string _) = b'"'
opener (array _) = b'['
opener (object _) = b'{'

abbrev class_of : ℕ → ℕ
class_of c = if is_digit c then b'0' else c

abbrev Opens : Value → Text → Type 0
Opens v = StartsWith (λ c. class_of c ≡ opener v)

StartsWith-class_of :
    (t : Text) → StartsWith (λ c. is_digit c ≡ true) t → StartsWith (λ c. class_of c ≡ b'0') t
StartsWith-class_of [] h = h
StartsWith-class_of (c ∷ t) h = rw h refl

-- The text of an array or an object, cut at its brackets.
pub write_array_inv :
    (xs : Items) (t : Text)
    → write_value (array xs) ≡ ok t
    → (x : Text) × (write_items true xs ≡ ok x) × (t ≡ b'[' ∷ (x ++ b']' ∷ []))
unfolding write_value
write_array_inv xs t h =
    let (x, p, q) = >>=-eq-ok (write_items true xs) (λ x. ok (b'[' ∷ (x ++ b']' ∷ []))) h in
    (x, p, cc q)

pub write_object_inv :
    (fs : Fields) (t : Text)
    → write_value (object fs) ≡ ok t
    → (x : Text) × (write_members true (sort_by utf16_cmp (keys (members fs))) (members fs) ≡ ok x)
      × (t ≡ b'{' ∷ (x ++ b'}' ∷ []))
unfolding write_value
write_object_inv fs t h =
    let (x, p, q) =
      >>=-eq-ok (write_members true (sort_by utf16_cmp (keys (members fs))) (members fs))
        (λ x. ok (b'{' ∷ (x ++ b'}' ∷ []))) h in
    (x, p, cc q)

StartsWith-eq : (v : Value) (c : ℕ) (x t : Text) → t ≡ c ∷ x → class_of c ≡ opener v → Opens v t
StartsWith-eq v c x t h k = rw h k

-- A value's text starts as the value does.
pub write_value-Opens : (v : Value) (t : Text) → write_value v ≡ ok t → Opens v t
unfolding write_value write_number write_string show_ℤ
write_value-Opens null t h = StartsWith-eq null b'n' (codes "ull") t (cc h) refl
write_value-Opens (bool true) t h = StartsWith-eq (bool true) b't' (codes "rue") t (cc h) refl
write_value-Opens (bool false) t h = StartsWith-eq (bool false) b'f' (codes "alse") t (cc h) refl
write_value-Opens (number (pos_int n)) t h =
    let e : t ≡ codes (show_ℕ n) = cc h in rw e (StartsWith-class_of _ (show_ℕ-StartsWith n))
write_value-Opens (number (neg_int n)) t h =
    StartsWith-eq (number (neg_int n)) b'-' (codes (show_ℕ (n + 1))) t
      (cc (h, codes-join "-" (show_ℕ (n + 1)))) refl
write_value-Opens (number (float printed)) t h = cc h
write_value-Opens (string s) t h =
    StartsWith-eq (string s) b'"' (write_chars (codes s) ++ b'"' ∷ []) t (cc h) refl
write_value-Opens (array xs) t h =
    let (x, p, q) = write_array_inv xs t h in StartsWith-eq (array xs) b'[' _ t q refl
write_value-Opens (object fs) t h =
    let (x, p, q) = write_object_inv fs t h in StartsWith-eq (object fs) b'{' _ t q refl

StartsWith-unique :
    (a b : ℕ) (t u r s : Text)
    → StartsWith (λ c. class_of c ≡ a) t
    → StartsWith (λ c. class_of c ≡ b) u
    → t ++ r ≡ u ++ s
    → a ≡ b
StartsWith-unique a b [] u r s ht hu h = elim ht [ ]
StartsWith-unique a b (c ∷ t) [] r s ht hu h = elim hu [ ]
StartsWith-unique a b (c ∷ t) (d ∷ u) r s ht hu h =
    let e : c ≡ d = cc h in sym ht ∙ ap class_of e ∙ hu

-- Texts that agree are opened by the same code point.
pub opener_unique :
    (v w : Value) (t u r s : Text)
    → write_value v ≡ ok t
    → write_value w ≡ ok u
    → t ++ r ≡ u ++ s
    → opener v ≡ opener w
opener_unique v w t u r s hv hw h =
    StartsWith-unique (opener v) (opener w) t u r s (write_value-Opens v t hv)
      (write_value-Opens w u hw) h

opener-ne-close : (v : Value) → opener v ≢ b']'
opener-ne-close (bool true) h = omega arith
opener-ne-close (bool false) h = omega arith
opener-ne-close (number (pos_int _)) h = omega arith
opener-ne-close (number (neg_int _)) h = omega arith
opener-ne-close (number (float _)) h = omega arith
opener-ne-close _ h = omega arith

-- No value starts with the closing bracket of an array.
write_value-ne-close : (v : Value) (t r s : Text) → write_value v ≡ ok t → t ++ r ≢ b']' ∷ s
write_value-ne-close v t r s h e =
    opener-ne-close v
      (StartsWith-unique (opener v) b']' t (b']' ∷ []) r s (write_value-Opens v t h) refl e)

-- Nor does what stands for a further item.
pub item-ne-close :
    (first : Bool) (v : Value) (t r s : Text)
    → write_value v ≡ ok t
    → comma first ++ (t ++ r) ≢ b']' ∷ s
item-ne-close true v t r s h e = write_value-ne-close v t r s h e
item-ne-close false v t r s h e = ground (arith, e)
