-- ===== src/Tokens/Merit.antt =====
-- core/iedb-crypto/src/tokens/mod.rs: ranking and listing. A score is real if `partial_cmp` compares it
-- with itself, as it does every `f64` but NaN.
use Prim.Native.Nat.{Ordering}
use mathlib.Core.Path.{subst}
use mathlib.Core.List.{Perm}
use hammurabi_handoff.Prelude.{
  ℕ, zero, suc, ◌+◌, ◌-◌, ◌^◌, ◌<◌, ◌≤◌, ◌≡◌, ◌≢◌, refl, sym, ap, ◌∙◌, arith, Bool-cases, some,
  List, [], ◌∷◌, All, take, inl, inr,
}
use hammurabi_handoff.Prelude.Keyed.{lookup}
use hammurabi_handoff.Prelude.Ordered.{values, All-values}
use hammurabi_handoff.Sort.{sort_by}
use hammurabi_handoff.Sort.Permuted.{
  take-IsSorted, IsSorted, IsPreorder, sort_by-IsSorted, sort_by-perm, sort_by_of_IsSorted,
  All-sort_by,
}
use hammurabi_handoff.Crypto.{Primitives}
use hammurabi_handoff.Tokens.{
  Floats, GoodToken, TokenLedger, by_merit, ranked_from, rank_by_merit, listed, found, is_listed,
  list_active, top_by_merit,
}
use hammurabi_handoff.Tokens.Ledger.{IsLedger}

module _ {F : Type 0} (floats : Floats F) where
  abbrev pub IsReal : F → Type 0
  IsReal x = floats.partial_cmp x x ≡ some Ordering.eq

  -- What IEEE 754 says of comparisons between numbers.
  pub record FloatLaws : Type 0 where
    pub antisym :
        (x y : F)
        → IsReal x
        → IsReal y
        → floats.partial_cmp x y ≡ some Ordering.gt
        → floats.partial_cmp y x ≡ some Ordering.lt
    pub trans :
        (x y z : F)
        → IsReal x
        → IsReal y
        → IsReal z
        → floats.partial_cmp x y ≢ some Ordering.gt
        → floats.partial_cmp y z ≢ some Ordering.gt
        → floats.partial_cmp x z ≢ some Ordering.gt

  -- No token stands before one of a greater score.
  abbrev pub IsDescending : List (GoodToken F) → Type 0
  IsDescending [] = Unit
  IsDescending (x ∷ xs) =
      All (λ y. floats.partial_cmp y.merit_score x.merit_score ≢ some Ordering.gt) xs
      × IsDescending xs

  module _ (laws : FloatLaws) where
    by_merit-gt :
        (a b : GoodToken F)
        → by_merit floats a b ≡ Ordering.gt
        → floats.partial_cmp b.merit_score a.merit_score ≡ some Ordering.gt
    unfolding by_merit
    by_merit-gt a b h = ground arith

    by_merit-IsPreorder : IsPreorder (by_merit floats) (λ t. IsReal t.merit_score)
    unfolding by_merit
    by_merit-IsPreorder = record {
      total = λ a b ra rb h k.
          cc
            (laws.antisym b.merit_score a.merit_score rb ra (by_merit-gt a b h), by_merit-gt b a k);
      trans = λ a b c ra rb rc h k m.
          laws.trans c.merit_score b.merit_score a.merit_score rc rb ra
            (λ e. k (rw (e, by_merit) refl)) (λ e. h (rw (e, by_merit) refl)) (by_merit-gt a c m);
    }

    not_greater :
        (x : GoodToken F) (ys : List (GoodToken F))
        → All (λ y. by_merit floats x y ≢ Ordering.gt) ys
        → All (λ y. floats.partial_cmp y.merit_score x.merit_score ≢ some Ordering.gt) ys
    unfolding by_merit
    not_greater x [] h = tt
    not_greater x (y ∷ ys) h = ((λ e. h.0 (rw (e, by_merit) refl)), not_greater x ys h.1)

    sorted-IsDescending :
        (ts : List (GoodToken F)) → IsSorted (by_merit floats) ts → IsDescending ts
    sorted-IsDescending [] h = tt
    sorted-IsDescending (t ∷ ts) h = (not_greater t ts h.0, sorted-IsDescending ts h.1)

    -- Whatever tokens are ranked, all of real scores, where these compare as IEEE 754 says: the ranking
    -- lists exactly these tokens, none before one of a greater score, under the ranks 1, 2, 3 and so on.
    pub rank_by_merit-Ranked :
        (tokens : List (GoodToken F))
        → All (λ t. IsReal t.merit_score) tokens
        → (best : List (GoodToken F)) × (rank_by_merit floats tokens ≡ ranked_from floats 1 best)
          × (Perm best tokens)
          × IsDescending best
    unfolding rank_by_merit
    rank_by_merit-Ranked tokens real = (
      sort_by (by_merit floats) tokens,
      refl,
      sort_by-perm (by_merit floats) tokens,
      sorted-IsDescending (sort_by (by_merit floats) tokens) (
          sort_by-IsSorted (by_merit floats) (λ t. IsReal t.merit_score) by_merit-IsPreorder tokens
            real),
    )

-- A token is held if its own id finds it.
abbrev Held : {F : Type 0} → TokenLedger F → GoodToken F → Type 0
Held tokens t = lookup t.token_id tokens ≡ some t

module _ {F : Type 0} (floats : Floats F) where
  pub All-listed {κ} :
      (P : GoodToken F → Type κ) (ts : List (GoodToken F)) → All P ts → All P (listed ts)
  unfolding listed
  All-listed P [] h = h
  All-listed P (t ∷ ts) h = elim (Bool-cases (is_listed t)) [
    | inl kept ↦ rw kept (h.0, All-listed P ts h.1)
    | inr dropped ↦ rw dropped (All-listed P ts h.1)
  ]

  found-ranked_from :
      (tokens : TokenLedger F) (n i : ℕ) (ts : List (GoodToken F))
      → All (Held tokens) ts
      → found tokens (take n (ranked_from floats i ts)) ≡ take n ts
  unfolding found ranked_from
  found-ranked_from tokens zero i ts h = refl
  found-ranked_from tokens (suc n) i [] h = refl
  found-ranked_from tokens (suc n) i (t ∷ ts) h =
      rw (h.0, found) (ap (◌∷◌ t) (found-ranked_from tokens n (i + 1) ts h.1))

  take-ranked_from :
      (m n i : ℕ) (ts : List (GoodToken F))
      → m ≤ n
      → take m (ranked_from floats i (take n ts)) ≡ take m (ranked_from floats i ts)
  unfolding ranked_from
  take-ranked_from zero n i ts h = refl
  take-ranked_from (suc m) zero i ts h = absurd (omega arith)
  take-ranked_from (suc m) (suc n) i [] h = refl
  take-ranked_from (suc m) (suc n) i (t ∷ ts) h =
      rw (take-ranked_from m n (i + 1) ts (omega arith)) refl

module _ {F : Type 0} (floats : Floats F) (p : Primitives) where
  values-Held :
      (tokens : TokenLedger F) → IsLedger floats p tokens → All (Held tokens) (values tokens)
  values-Held tokens h =
      All-values (Held tokens) tokens h.distinct
        (λ k t e. subst (λ i. lookup i tokens ≡ some t) (sym (h.each k t e).own_id) e)

  -- In a ledger in order, `list_active` gives the minted and the active tokens of the map, the best
  -- first, as many as the limit lets through: the way through the ranking's ids loses none.
  pub list_active-listed :
      (tokens : TokenLedger F) (limit : ℕ)
      → IsLedger floats p tokens
      → list_active floats tokens limit
        ≡ take limit (sort_by (by_merit floats) (listed (values tokens)))
  unfolding list_active rank_by_merit
  list_active-listed tokens limit h =
      found-ranked_from floats tokens limit 1 (sort_by (by_merit floats) (listed (values tokens))) (
        All-sort_by (by_merit floats) (Held tokens) (listed (values tokens))
          (All-listed floats (Held tokens) (values tokens) (values-Held tokens h)))

  -- The second sort of the sorted list, and its bound `usize::MAX`, change nothing.
  pub top_by_merit-rank_by_merit :
      FloatLaws floats
      → (tokens : TokenLedger F) (limit : ℕ) → limit < 2 ^ 64
      → IsLedger floats p tokens
      → All (λ t. IsReal floats t.merit_score) (values tokens)
      → top_by_merit floats tokens limit
        ≡ take limit (rank_by_merit floats (listed (values tokens)))
  unfolding top_by_merit rank_by_merit
  top_by_merit-rank_by_merit laws tokens limit small h real =
      rw (list_active-listed tokens (2 ^ 64 - 1) h) (
        ap (λ ts. take limit (ranked_from floats 1 ts))
          (sort_by_of_IsSorted (by_merit floats) _
            (take-IsSorted (by_merit floats) (2 ^ 64 - 1) _ sorted))
        ∙ take-ranked_from floats limit (2 ^ 64 - 1) 1 _ (omega arith))
    where
      sorted : IsSorted (by_merit floats) (sort_by (by_merit floats) (listed (values tokens)))
      sorted =
          sort_by-IsSorted (by_merit floats) (λ t. IsReal floats t.merit_score)
            (by_merit-IsPreorder floats laws) (listed (values tokens))
            (All-listed floats (λ t. IsReal floats t.merit_score) (values tokens) real)
