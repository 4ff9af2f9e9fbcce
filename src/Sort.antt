-- ===== src/Sort.antt =====
-- The standard library's `sort_by`: a stable sort by a comparison. Insertion sort computes the same
-- list as every stable sort does.
pub mod Permuted
use Prim.Native.Nat.{Ordering}
use hammurabi_handoff.Prelude.{◌≡◌, ◌≢◌, List, [], ◌∷◌, arith}

module _ {ℓ} {A : Type ℓ} (cmp : A → A → Ordering) where
  -- In front of the first element that is not less.
  unfoldable pub insert_by : A → List A → List A
  insert_by x [] = x ∷ []
  insert_by x (y ∷ ys) =
      let rest = insert_by x ys in elim (cmp x y) [ Ordering.gt ↦ y ∷ rest | _ ↦ x ∷ y ∷ ys ]

  -- `v.sort_by(cmp)`.
  unfoldable pub sort_by : List A → List A
  unfolding insert_by
  sort_by [] = []
  sort_by (x ∷ xs) = insert_by x (sort_by xs)

  -- What a comparison must satisfy for the sorted order to be determined by the elements.
  pub record IsOrder : Type ℓ where
    pub antisym : (a b : A) → cmp a b ≢ Ordering.gt → cmp b a ≢ Ordering.gt → a ≡ b
    pub total : (a b : A) → cmp a b ≡ Ordering.gt → cmp b a ≢ Ordering.gt
    pub trans : (a b c : A) → cmp a b ≢ Ordering.gt → cmp b c ≢ Ordering.gt → cmp a c ≢ Ordering.gt

  module _ (order : IsOrder) where
    -- Two insertions commute, whatever the list.
    insert_by_comm :
        (x y : A) (l : List A) → insert_by x (insert_by y l) ≡ insert_by y (insert_by x l)
    unfolding insert_by
    insert_by_comm x y [] = ground (arith, order.antisym x y, order.total x y, order.total y x)
    insert_by_comm x y (z ∷ zs) = ground (
      arith,
      insert_by_comm x y zs,
      order.antisym x y,
      order.total x y,
      order.total y x,
      order.trans x y z,
      order.trans y x z,
    )

    -- The sorted list does not depend on the order in which the elements came.
    pub sort_by-swap : (x y : A) (l : List A) → sort_by (x ∷ y ∷ l) ≡ sort_by (y ∷ x ∷ l)
    unfolding sort_by
    sort_by-swap x y l = insert_by_comm x y (sort_by l)

    pub sort_by-cons :
        (x : A) (l m : List A) → sort_by l ≡ sort_by m → sort_by (x ∷ l) ≡ sort_by (x ∷ m)
    unfolding sort_by
    sort_by-cons x l m h = cc h
