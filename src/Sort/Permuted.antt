-- ===== src/Sort/Permuted.antt =====
-- `sort_by` under a comparison that is a total preorder on the elements at hand.
use Prim.Native.Nat.{Ordering}
use mathlib.Core.List.Perm
use mathlib.Core.List.{Perm}
use hammurabi_handoff.Prelude.{
  ℕ, zero, take, All-take, suc, ◌≡◌, ◌≢◌, ◌⊎◌, refl, ap, ◌∙◌, List, [], ◌∷◌, All, length, arith,
  inl, inr,
}
use hammurabi_handoff.Sort.{insert_by, sort_by}

module _ {ℓ} {A : Type ℓ} (cmp : A → A → Ordering) where
  cmp-cases : (a b : A) → (cmp a b ≡ Ordering.gt) ⊎ (cmp a b ≢ Ordering.gt)
  cmp-cases a b = split (cmp a b)
    where
      split : (o : Ordering) → (o ≡ Ordering.gt) ⊎ (o ≢ Ordering.gt)
      split Ordering.gt = inl refl
      split Ordering.lt = inr λ h. cc h
      split Ordering.eq = inr λ h. cc h

  -- No element comes after a later one.
  abbrev pub IsSorted : List A → Type ℓ
  IsSorted [] = Unit
  IsSorted (x ∷ xs) = All (λ y. cmp x y ≢ Ordering.gt) xs × IsSorted xs

  insert_by-le :
      (x y : A) (ys : List A) → cmp x y ≢ Ordering.gt → insert_by cmp x (y ∷ ys) ≡ x ∷ y ∷ ys
  unfolding insert_by
  insert_by-le x y ys h = ground arith

  insert_by-gt :
      (x y : A) (ys : List A)
      → cmp x y ≡ Ordering.gt
      → insert_by cmp x (y ∷ ys) ≡ y ∷ insert_by cmp x ys
  unfolding insert_by
  insert_by-gt x y ys h = ground arith

  pub All-insert_by {κ} :
      (P : A → Type κ) (x : A) (ys : List A) → P x → All P ys → All P (insert_by cmp x ys)
  unfolding insert_by
  All-insert_by P x [] h k = (h, tt)
  All-insert_by P x (y ∷ ys) h k = elim (cmp-cases x y) [
    | inl gt ↦ rw (insert_by-gt x y ys gt) (k.0, All-insert_by P x ys h k.1)
    | inr le ↦ rw (insert_by-le x y ys le) (h, k)
  ]

  pub All-sort_by {κ} : (P : A → Type κ) (xs : List A) → All P xs → All P (sort_by cmp xs)
  unfolding sort_by
  All-sort_by P [] h = h
  All-sort_by P (x ∷ xs) h = All-insert_by P x (sort_by cmp xs) h.0 (All-sort_by P xs h.1)

  insert_by-All {κ} :
      (P : A → Type κ) (x : A) (ys : List A) → All P (insert_by cmp x ys) → P x × All P ys
  unfolding insert_by
  insert_by-All P x [] h = h
  insert_by-All P x (y ∷ ys) h = elim (cmp-cases x y) [
    | inl gt ↦
        let k = rw (insert_by-gt x y ys gt) at h in
        let (px, ps) = insert_by-All P x ys k.1 in (px, (k.0, ps))
    | inr le ↦ rw (insert_by-le x y ys le) at h
  ]

  pub sort_by-All {κ} : (P : A → Type κ) (xs : List A) → All P (sort_by cmp xs) → All P xs
  unfolding sort_by
  sort_by-All P [] h = h
  sort_by-All P (x ∷ xs) h =
      let (px, ps) = insert_by-All P x (sort_by cmp xs) h in (px, sort_by-All P xs ps)

  insert_by-perm : (x : A) (ys : List A) → Perm (insert_by cmp x ys) (x ∷ ys)
  unfolding insert_by
  insert_by-perm x [] = Perm.refl (x ∷ [])
  insert_by-perm x (y ∷ ys) = elim (cmp-cases x y) [
    | inl gt ↦
        rw (insert_by-gt x y ys gt)
          (Perm.trans (Perm.cons y (insert_by-perm x ys)) (Perm.swap x y ys))
    | inr le ↦ rw (insert_by-le x y ys le) (Perm.refl (x ∷ y ∷ ys))
  ]

  pub sort_by-perm : (xs : List A) → Perm (sort_by cmp xs) xs
  unfolding sort_by
  sort_by-perm [] = Perm.refl []
  sort_by-perm (x ∷ xs) =
      Perm.trans (insert_by-perm x (sort_by cmp xs)) (Perm.cons x (sort_by-perm xs))

  length-insert_by : (x : A) (ys : List A) → length (insert_by cmp x ys) ≡ suc (length ys)
  unfolding insert_by
  length-insert_by x [] = refl
  length-insert_by x (y ∷ ys) = ground (arith, length-insert_by x ys)

  pub length-sort_by : (xs : List A) → length (sort_by cmp xs) ≡ length xs
  unfolding sort_by
  length-sort_by [] = refl
  length-sort_by (x ∷ xs) = length-insert_by x (sort_by cmp xs) ∙ ap suc (length-sort_by xs)

  -- A sorted list is left as it is.
  pub sort_by_of_IsSorted : (xs : List A) → IsSorted xs → sort_by cmp xs ≡ xs
  unfolding sort_by insert_by
  sort_by_of_IsSorted [] h = refl
  sort_by_of_IsSorted (x ∷ []) h = refl
  sort_by_of_IsSorted (x ∷ y ∷ ys) h =
      ap (insert_by cmp x) (sort_by_of_IsSorted (y ∷ ys) h.1) ∙ insert_by-le x y ys h.0.0

  pub take-IsSorted : (n : ℕ) (xs : List A) → IsSorted xs → IsSorted (take n xs)
  take-IsSorted zero xs h = tt
  take-IsSorted (suc n) [] h = tt
  take-IsSorted (suc n) (x ∷ xs) h =
      (All-take (λ y. cmp x y ≢ Ordering.gt) n xs h.0, take-IsSorted n xs h.1)

  module _ {κ} (P : A → Type κ) where
    -- A total preorder on the elements of which `P` holds.
    pub record IsPreorder : Type (ℓ ⊔ κ) where
      pub total : (a b : A) → P a → P b → cmp a b ≡ Ordering.gt → cmp b a ≢ Ordering.gt
      pub trans :
          (a b c : A)
          → P a
          → P b
          → P c
          → cmp a b ≢ Ordering.gt
          → cmp b c ≢ Ordering.gt
          → cmp a c ≢ Ordering.gt

    module _ (order : IsPreorder) where
      after :
          (x y : A) (ys : List A)
          → P x
          → P y
          → All P ys
          → cmp x y ≢ Ordering.gt
          → All (λ z. cmp y z ≢ Ordering.gt) ys
          → All (λ z. cmp x z ≢ Ordering.gt) ys
      after x y [] px py ps le h = tt
      after x y (z ∷ zs) px py ps le h =
          (order.trans x y z px py ps.0 le h.0, after x y zs px py ps.1 le h.1)

      insert_by-IsSorted :
          (x : A) (ys : List A) → P x → All P ys → IsSorted ys → IsSorted (insert_by cmp x ys)
      unfolding insert_by
      insert_by-IsSorted x [] px ps h = (tt, tt)
      insert_by-IsSorted x (y ∷ ys) px ps h = elim (cmp-cases x y) [
        | inl gt ↦ rw (insert_by-gt x y ys gt) (
          All-insert_by (λ z. cmp y z ≢ Ordering.gt) x ys (order.total x y px ps.0 gt) h.0,
          insert_by-IsSorted x ys px ps.1 h.1,
        )
        | inr le ↦ rw (insert_by-le x y ys le) ((le, after x y ys px ps.0 ps.1 le h.0), h)
      ]

      pub sort_by-IsSorted : (xs : List A) → All P xs → IsSorted (sort_by cmp xs)
      unfolding sort_by
      sort_by-IsSorted [] h = tt
      sort_by-IsSorted (x ∷ xs) h =
          insert_by-IsSorted x (sort_by cmp xs) h.0 (All-sort_by P xs h.1) (sort_by-IsSorted xs h.1)
