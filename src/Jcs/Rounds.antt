-- ===== src/Jcs/Rounds.antt =====
-- core/iedb-crypto/src/jcs.rs, the loops of `write_value`: a round of each, and what follows it.
use mathlib.Core.List.{append_assoc}
use hammurabi_handoff.Prelude.{
  ◌≡◌, ◌≢◌, refl, ap, sym, ◌∙◌, arith, String, Bool, true, false, List, [], ◌∷◌, ◌++◌, ok,
  >>=-eq-ok, some, Bool-cases, inl, inr, str_eq,
}
use hammurabi_handoff.Prelude.Keyed.{Keyed, lookup}
use hammurabi_handoff.Json.{Value, Items, nil, cons, Fields, end, field, find_field}
use hammurabi_handoff.Crypto.{CryptoResult}
use hammurabi_handoff.Jcs.{
  Text, comma, write_string, write_member, write_members, write_value, write_items, members,
}
use hammurabi_handoff.Jcs.Integers.{keys_distinct}
use hammurabi_handoff.Jcs.Decimal.{Delimited}

-- There is a member at the key, and its value's keys are distinct.
abbrev pub Holds : Fields → String → Type 0
Holds fs k = (v : Value) × (find_field k fs ≡ some v) × (keys_distinct v ≡ true)

write_member-members :
    (k : String) (v : Value) (fs : Fields)
    → find_field k fs ≡ some v
    → write_member (lookup k (members fs)) ≡ write_value v
unfolding find_field lookup write_value
write_member-members k v end h = cc
write_member-members k v (field j w fs) h = elim (Bool-cases (str_eq j k)) [
  | inl e ↦ let found : w ≡ v = ground (arith, h, e) in rw e (ap write_value found)
  | inr e ↦
      let found : find_field k fs ≡ some v = ground (arith, h, e) in
      rw e (write_member-members k v fs found)
]

-- One round of the loop over the sorted keys, which has written a text.
pub write_members_inv :
    (first : Bool) (k : String) (ks : List String) (fs : Fields) (v : Value) (t : Text)
    → find_field k fs ≡ some v
    → write_members first (k ∷ ks) (members fs) ≡ ok t
    → (x y : Text) × (write_value v ≡ ok x)
      × (write_members false ks (members fs) ≡ ok y)
      × ((r : Text) → t ++ r ≡ comma first ++ (write_string k ++ (b':' ∷ (x ++ (y ++ r)))))
unfolding write_members
write_members_inv first k ks fs v t found h =
    let (x, p, q) = >>=-eq-ok (write_member (lookup k (members fs))) _ h in
    let (y, p', q') = >>=-eq-ok (write_members false ks (members fs)) _ q in
    (
      x,
      y,
      sym (write_member-members k v fs found) ∙ p,
      p',
      λ r.
          let e : t ≡ comma first ++ (write_string k ++ (b':' ∷ (x ++ y))) = cc q' in
          rw e (simp append_assoc),
    )

-- What follows a member is a comma or the closing brace.
pub write_members-Delimited :
    (ks : List String) (ms : Keyed (CryptoResult Text)) (t r : Text)
    → write_members false ks ms ≡ ok t
    → Delimited (t ++ (b'}' ∷ r))
unfolding write_members
write_members-Delimited [] ms t r h = let e : t ≡ [] = cc h in rw e refl
write_members-Delimited (k ∷ ks) ms t r h =
    let (x, p, q) = >>=-eq-ok (write_member (lookup k ms)) _ h in
    let (y, p', q') = >>=-eq-ok (write_members false ks ms) _ q in
    let e : t ≡ b',' ∷ (write_string k ++ (b':' ∷ (x ++ y))) = cc q' in rw e refl

pub write_items-Delimited :
    (xs : Items) (t r : Text) → write_items false xs ≡ ok t → Delimited (t ++ (b']' ∷ r))
unfolding write_value
write_items-Delimited nil t r h = let e : t ≡ [] = cc h in rw e refl
write_items-Delimited (cons v xs) t r h =
    let (x, p, q) = >>=-eq-ok (write_value v) _ h in
    let (y, p', q') = >>=-eq-ok (write_items false xs) _ q in
    let e : t ≡ b',' ∷ (x ++ y) = cc q' in rw e refl

pub comma_injective : (first : Bool) (r s : Text) → comma first ++ r ≡ comma first ++ s → r ≡ s
comma_injective true r s h = h
comma_injective false r s h = cc h

-- Neither a comma nor a key is the closing brace.
pub key-ne-close :
    (first : Bool) (k : String) (r s : Text) → comma first ++ (write_string k ++ r) ≢ b'}' ∷ s
unfolding write_string
key-ne-close true k r s h = ground (arith, h)
key-ne-close false k r s h = ground (arith, h)

pub write_items_inv :
    (first : Bool) (v : Value) (xs : Items) (t : Text)
    → write_items first (cons v xs) ≡ ok t
    → (x y : Text) × (write_value v ≡ ok x)
      × (write_items false xs ≡ ok y)
      × ((r : Text) → t ++ r ≡ comma first ++ (x ++ (y ++ r)))
unfolding write_value
write_items_inv first v xs t h =
    let (x, p, q) = >>=-eq-ok (write_value v) _ h in
    let (y, p', q') = >>=-eq-ok (write_items false xs) _ q in
    (x, y, p, p', λ r. let e : t ≡ comma first ++ (x ++ y) = cc q' in rw e (simp append_assoc))
