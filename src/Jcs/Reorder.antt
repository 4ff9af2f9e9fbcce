-- ===== src/Jcs/Reorder.antt =====
-- core/iedb-crypto/src/jcs.rs: values that differ in the order in which their maps yield the members.
use hammurabi_handoff.Prelude.{
  ◌≡◌, ◌≢◌, refl, ◌∙◌, arith, String, Bool, true, List, [], ◌∷◌, eq_iff,
}
use hammurabi_handoff.Prelude.Int.{ℤ}
use hammurabi_handoff.Prelude.Keyed.{Keyed, lookup}
use hammurabi_handoff.Json.{Value, array, object, Items, nil, cons, Fields, end, field}
use hammurabi_handoff.Sort.{sort_by, sort_by-swap, sort_by-cons}
use hammurabi_handoff.Crypto.{CryptoResult}
use hammurabi_handoff.Jcs.{
  Text, keys, write_members, write_value, write_items, members, canonicalize, canonical_message,
}
use hammurabi_handoff.Jcs.Utf16.{utf16_cmp}
use hammurabi_handoff.Jcs.Order.{utf16_cmp-IsOrder}

-- Two values that differ in the order of object members only, at any depth. Neighbouring members
-- with different keys may change places, any number of times.
mutual
  pub data Reordered : Value → Value → Type 0 where
    same : {v : Value} → Reordered v v
    in_array : {xs ys : Items} → ReorderedItems xs ys → Reordered (array xs) (array ys)
    in_object : {fs gs : Fields} → ReorderedFields fs gs → Reordered (object fs) (object gs)

  pub data ReorderedItems : Items → Items → Type 0 where
    no_items : ReorderedItems nil nil
    item :
        {v w : Value} {xs ys : Items}
        → Reordered v w
        → ReorderedItems xs ys
        → ReorderedItems (cons v xs) (cons w ys)

  pub data ReorderedFields : Fields → Fields → Type 0 where
    no_fields : ReorderedFields end end
    keep :
        {k : String} {v w : Value} {fs gs : Fields}
        → Reordered v w
        → ReorderedFields fs gs
        → ReorderedFields (field k v fs) (field k w gs)
    swap :
        {j k : String} {v w : Value} {fs : Fields}
        → j ≢ k
        → ReorderedFields (field j v (field k w fs)) (field k w (field j v fs))
    twice :
        {fs gs hs : Fields} → ReorderedFields fs gs → ReorderedFields gs hs → ReorderedFields fs hs

-- What the writer reads of a map's members: the sorted keys, and the value at a key.
record SameMap (ms ns : Keyed (CryptoResult Text)) : Type 0 where
  sorted : sort_by utf16_cmp (keys ms) ≡ sort_by utf16_cmp (keys ns)
  values : (k : String) → lookup k ms ≡ lookup k ns

write_members-SameMap :
    (first : Bool) (ks : List String) {ms ns : Keyed (CryptoResult Text)}
    → SameMap ms ns
    → write_members first ks ms ≡ write_members first ks ns
unfolding write_members
write_members-SameMap first [] h = refl
write_members-SameMap first (k ∷ ks) h = rw (h.values k, write_members-SameMap Bool.false ks h)

write_object-SameMap :
    {ms ns : Keyed (CryptoResult Text)}
    → SameMap ms ns
    → write_members true (sort_by utf16_cmp (keys ms)) ms
      ≡ write_members true (sort_by utf16_cmp (keys ns)) ns
write_object-SameMap {ms} {ns} h = rw h.sorted (write_members-SameMap true _ h)

lookup-swap {ℓ} :
    {V : Type ℓ} (i j k : String) (v w : V) (m : Keyed V)
    → j ≢ k
    → lookup i ((j, v) ∷ (k, w) ∷ m) ≡ lookup i ((k, w) ∷ (j, v) ∷ m)
unfolding lookup
lookup-swap i j k v w m h = ground (arith, eq_iff j i, eq_iff k i, eq_iff j k)

mutual
  unfolding write_value lookup

  write_value-Reordered : {v w : Value} → Reordered v w → write_value v ≡ write_value w
  write_value-Reordered same = refl
  write_value-Reordered (in_array r) = rw (write_items-Reordered true r)
  write_value-Reordered (in_object r) = rw (write_object-SameMap (members-Reordered r))

  write_items-Reordered :
      (first : Bool) {xs ys : Items}
      → ReorderedItems xs ys
      → write_items first xs ≡ write_items first ys
  write_items-Reordered first no_items = refl
  write_items-Reordered first (item r rs) =
      rw (write_value-Reordered r, write_items-Reordered Bool.false rs)

  members-Reordered : {fs gs : Fields} → ReorderedFields fs gs → SameMap (members fs) (members gs)
  members-Reordered no_fields = record { sorted = refl; values = λ k. refl }
  members-Reordered (keep {k = k} r rs) =
      let h = members-Reordered rs in
      record {
        sorted = sort_by-cons utf16_cmp utf16_cmp-IsOrder k _ _ h.sorted;
        values = λ i. rw (write_value-Reordered r, h.values i);
      }
  members-Reordered (swap {j = j} {k = k} {v = v} {w = w} {fs = fs} h) = record {
    sorted = sort_by-swap utf16_cmp utf16_cmp-IsOrder j k (keys (members fs));
    values = λ i. lookup-swap i j k (write_value v) (write_value w) (members fs) h;
  }
  members-Reordered (twice r s) =
      let h = members-Reordered r in
      let k = members-Reordered s in
      record { sorted = h.sorted ∙ k.sorted; values = λ i. h.values i ∙ k.values i }

-- Values that differ in the order of object members only, at any depth, have the same canonical
-- form, or are refused with the same error.
pub canonicalize-Reordered : {v w : Value} → Reordered v w → canonicalize v ≡ canonicalize w
unfolding canonicalize
canonicalize-Reordered r = rw (write_value-Reordered r)

-- So does the message that is signed.
pub canonical_message-Reordered :
    {v w : Value} (timestamp : ℤ)
    → Reordered v w
    → canonical_message v timestamp ≡ canonical_message w timestamp
unfolding canonical_message
canonical_message-Reordered timestamp r = rw (canonicalize-Reordered r)
