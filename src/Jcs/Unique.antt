-- ===== src/Jcs/Unique.antt =====
-- core/iedb-crypto/src/jcs.rs: a canonical form belongs to one value, up to the order of its members.
use mathlib.Core.Path.{subst}
use mathlib.Core.List.{append_assoc}
use hammurabi_handoff.Prelude.{
  ◌↔◌, ℕ, ◌+◌, ◌<◌, ◌≡◌, ap, sym, ◌∙◌, arith, Bool, true, false, List, [], ◌∷◌, ◌++◌, All,
  All-weaken, codes, ok, >>=-eq-ok, show_ℕ, Bool-cases, inl, inr, str_eq,
}
use hammurabi_handoff.Prelude.Int.{show_ℤ}
use hammurabi_handoff.Json.{
  pos_int, neg_int, float, Value, null, bool, number, string, array, object, Items, nil, cons,
  Fields, end, field, find_field,
}
use hammurabi_handoff.Jcs.{
  Text, write_number, write_string, write_value, write_items, utf8, canonicalize, canonical_message,
}
use hammurabi_handoff.Jcs.Integers.{keys_distinct, keys_distinct_items}
use hammurabi_handoff.Jcs.Reorder.{
  Reordered, canonical_message-Reordered, same, in_array, in_object, ReorderedItems, no_items, item,
}
use hammurabi_handoff.Jcs.Ink.{codes-join, write_value-NoNul}
use hammurabi_handoff.Jcs.Decimal.{show_ℕ_unique}
use hammurabi_handoff.Prelude.Int.{ℤ, InI64}
use hammurabi_handoff.Jcs.Message.{canonical_message_injective, canonicalize-canonical_message}
use hammurabi_handoff.Jcs.Chars.{write_string_unique, utf8_injective}
use hammurabi_handoff.Jcs.Agreement.{both}
use hammurabi_handoff.Jcs.Openers.{write_array_inv, opener_unique, item-ne-close}
use hammurabi_handoff.Jcs.Rounds.{write_items_inv, write_items-Delimited, comma_injective}
use hammurabi_handoff.Jcs.Objects.{Unique, UniqueFields, write_object_unique}

mutual
  unfolding write_value write_number write_string show_ℤ keys_distinct find_field

  write_value-Unique : (v : Value) → Unique v
  write_value-Unique null null t u r s dv dw ht hu hr hs h = (same, cc (ht, hu, h))
  write_value-Unique (bool true) (bool true) t u r s dv dw ht hu hr hs h = (same, cc (ht, hu, h))
  write_value-Unique (bool false) (bool false) t u r s dv dw ht hu hr hs h = (same, cc (ht, hu, h))
  write_value-Unique (number (pos_int m)) (number (pos_int n)) t u r s dv dw ht hu hr hs h =
      let (p, q) = show_ℕ_unique m n r s hr hs (cc (ht, hu, h)) in
      (subst (λ k. Reordered (number (pos_int m)) (number (pos_int k))) p same, q)
  write_value-Unique (number (neg_int m)) (number (neg_int n)) t u r s dv dw ht hu hr hs h =
      let e : t ≡ b'-' ∷ codes (show_ℕ (m + 1)) = cc (ht, codes-join "-" (show_ℕ (m + 1))) in
      let e' : u ≡ b'-' ∷ codes (show_ℕ (n + 1)) = cc (hu, codes-join "-" (show_ℕ (n + 1))) in
      let (p, q) = show_ℕ_unique (m + 1) (n + 1) r s hr hs (cc (e, e', h)) in
      let p' : m ≡ n = omega (arith, p) in
      (subst (λ k. Reordered (number (neg_int m)) (number (neg_int k))) p' same, q)
  write_value-Unique (string j) (string k) t u r s dv dw ht hu hr hs h =
      let (p, q) = write_string_unique j k r s (cc (ht, hu, h)) in
      (subst (λ k. Reordered (string j) (string k)) p same, q)
  write_value-Unique (array xs) (array ys) t u r s dv dw ht hu hr hs h =
      let (x, p, e) = write_array_inv xs t ht in
      let (y, q, e') = write_array_inv ys u hu in
      let (related, rest) =
        write_items_unique xs true ys x y r s dv dw p q
          (cc (h, e, e', append_assoc x (b']' ∷ []) r, append_assoc y (b']' ∷ []) s)) in
      (in_array related, rest)
  write_value-Unique (object fs) (object gs) t u r s dv dw ht hu hr hs h =
      let (related, rest) = write_object_unique fs gs t u r s (fields_unique fs) dv dw ht hu h in
      (in_object related, rest)
  write_value-Unique (number (float _)) w t u r s dv dw ht hu hr hs h = absurd (cc ht)
  write_value-Unique v (number (float _)) t u r s dv dw ht hu hr hs h = absurd (cc hu)
  write_value-Unique v w t u r s dv dw ht hu hr hs h =
      absurd (ground (arith, opener_unique v w t u r s ht hu h))

  write_items_unique :
      (xs : Items) (first : Bool) (ys : Items) (t u r s : Text)
      → keys_distinct_items xs ≡ true
      → keys_distinct_items ys ≡ true
      → write_items first xs ≡ ok t
      → write_items first ys ≡ ok u
      → t ++ (b']' ∷ r) ≡ u ++ (b']' ∷ s)
      → ReorderedItems xs ys × (r ≡ s)
  write_items_unique nil first nil t u r s dx dy ht hu h = (no_items, cc (ht, hu, h))
  write_items_unique nil first (cons w ys) t u r s dx dy ht hu h =
      let (x, y, px, _, split) = write_items_inv first w ys u hu in
      let e : t ≡ [] = cc ht in
      absurd (item-ne-close first w x (y ++ (b']' ∷ s)) r px (cc (split (b']' ∷ s), h, e)))
  write_items_unique (cons v xs) first nil t u r s dx dy ht hu h =
      let (x, y, px, _, split) = write_items_inv first v xs t ht in
      let e : u ≡ [] = cc hu in
      absurd (item-ne-close first v x (y ++ (b']' ∷ r)) s px (cc (split (b']' ∷ r), h, e)))
  write_items_unique (cons v xs) first (cons w ys) t u r s dx dy ht hu h =
      let (x, y, px, py, split) = write_items_inv first v xs t ht in
      let (x', y', px', py', split') = write_items_inv first w ys u hu in
      let (dv, dxs) = both (keys_distinct v) (keys_distinct_items xs) dx in
      let (dw, dys) = both (keys_distinct w) (keys_distinct_items ys) dy in
      let texts = comma_injective first _ _ (sym (split (b']' ∷ r)) ∙ h ∙ split' (b']' ∷ s)) in
      let (related, after) =
        write_value-Unique v w x x' (y ++ (b']' ∷ r)) (y' ++ (b']' ∷ s)) dv dw px px'
          (write_items-Delimited xs y r py) (write_items-Delimited ys y' s py') texts in
      let (all, rest) = write_items_unique xs false ys y y' r s dxs dys py py' after in
      (item related all, rest)

  fields_unique : (fs : Fields) → UniqueFields fs
  fields_unique end k v h = absurd (cc h)
  fields_unique (field j w fs) k v h = elim (Bool-cases (str_eq j k)) [
    | inl e ↦ let found : w ≡ v = ground (arith, h, e) in subst Unique found (write_value-Unique w)
    | inr e ↦ fields_unique fs k v (ground (arith, h, e))
  ]

utf8-canonicalize :
    (v : Value) (c : List ℕ)
    → canonicalize v ≡ ok c
    → (t : Text) × (write_value v ≡ ok t) × (c ≡ utf8 t)
unfolding canonicalize
utf8-canonicalize v c h =
    let (t, p, q) = >>=-eq-ok (write_value v) (λ t. ok (utf8 t)) h in (t, p, cc q)

-- Two values whose objects have distinct keys, at any depth, and that have the same canonical form are
-- the same value up to the order of object members.
pub canonicalize_injective :
    (v w : Value) (c : List ℕ)
    → keys_distinct v ≡ true
    → keys_distinct w ≡ true
    → canonicalize v ≡ ok c
    → canonicalize w ≡ ok c
    → Reordered v w
canonicalize_injective v w c dv dw hv hw =
    let (t, p, e) = utf8-canonicalize v c hv in
    let (u, q, e') = utf8-canonicalize w c hw in
    let bounded =
      λ (x : Text) (h : All (λ k. (0 < k) × (k < 0x110000)) x). All-weaken (λ k b. b.1) x h in
    let texts =
      utf8_injective t u (bounded t (write_value-NoNul v t p)) (bounded u (write_value-NoNul w u q))
        (sym e ∙ e') in
    (write_value-Unique v w t u [] [] dv dw p q tt tt (ap (λ x. x ++ []) texts)).0

-- For payloads in whose objects no key is repeated, and times that are `i64`s: the message that is signed
-- for one payload and time is the message for another exactly if the payloads differ in the order of
-- object members only and the times are the same.
pub canonical_message_iff :
    (v w : Value) (s t : ℤ) (m : List ℕ)
    → keys_distinct v ≡ true
    → keys_distinct w ≡ true
    → InI64 s
    → InI64 t
    → canonical_message v s ≡ ok m
    → (canonical_message w t ≡ ok m) ↔ (Reordered v w × (s ≡ t))
canonical_message_iff v w s t m dv dw hs ht p =
    let (c, pc, _) = canonicalize-canonical_message v s m p in
    (
      λ q.
          let (same_form, stamps) = canonical_message_injective v w s t m hs ht p q in
          (canonicalize_injective v w c dv dw pc (sym same_form ∙ pc), stamps),
      λ (r, stamps).
          sym (canonical_message-Reordered t r) ∙ ap (canonical_message v) (sym stamps) ∙ p,
    )
