-- ===== src/Tokens/Ranking.antt =====
-- core/iedb-crypto/src/tokens/mod.rs: what the leaderboard shows.
use mathlib.Core.List.{Perm}
use mathlib.Core.Option
use hammurabi_handoff.Prelude.{
  ℕ, zero, suc, ◌+◌, ◌^◌, ◌<◌, ◌≡◌, refl, ap, ◌∙◌, arith, Bool, true, false, ◌||◌, none, List, [],
  ◌∷◌, All, take, get_elem?, ltb, if◌then◌else◌,
}
use hammurabi_handoff.Prelude.Ordered.{values}
use hammurabi_handoff.Crypto.{Primitives}
use hammurabi_handoff.Tokens.{
  TokenStatus, minted, active, spent, burned, revoked, Floats, GoodToken, MeritRanking, TokenLedger,
  same_status, ranked_from, listed, top_by_merit,
}
use hammurabi_handoff.Tokens.Ledger.{IsLedger}
use hammurabi_handoff.Tokens.Merit.{
  IsReal, FloatLaws, IsDescending, All-listed, rank_by_merit-Ranked, top_by_merit-rank_by_merit,
}

-- The tokens that may be shown.
abbrev is_live : TokenStatus → Bool
is_live minted = true
is_live active = true
is_live spent = false
is_live burned = false
is_live revoked = false

is_listed-is_live : (s : TokenStatus) → (same_status s minted || same_status s active) ≡ is_live s
is_listed-is_live minted = refl
is_listed-is_live active = refl
is_listed-is_live spent = refl
is_listed-is_live burned = refl
is_listed-is_live revoked = refl

module _ {F : Type 0} where
  abbrev live : List (GoodToken F) → List (GoodToken F)
  live [] = []
  live (t ∷ ts) = if is_live t.status then t ∷ live ts else live ts

  -- The line of a token under a rank.
  abbrev line : ℕ → GoodToken F → MeritRanking F
  line rank t = record {
    token_id = t.token_id;
    merit_score = t.merit_score;
    event_count = t.event_count;
    chained_root = t.chained_root;
    rank = rank;
  }

  listed-live : (ts : List (GoodToken F)) → listed ts ≡ live ts
  unfolding listed
  listed-live [] = refl
  listed-live (t ∷ ts) = rw (is_listed-is_live t.status, listed-live ts) refl

module _ {F : Type 0} (floats : Floats F) where
  -- A leaderboard of a ledger under a limit: some order of the live tokens, none before one of a greater
  -- score, and at each place below the limit the line of the token there, its rank one more than the
  -- place.
  pub record IsTop (tokens : TokenLedger F) (limit : ℕ) (top : List (MeritRanking F)) : Type 0 where
    pub best : List (GoodToken F)
    pub chosen : Perm best (live (values tokens))
    pub descending : IsDescending floats best
    pub lines :
        (i : ℕ)
        → get_elem? top i
          ≡ (if ltb i limit then Option.map (line (1 + i)) (get_elem? best i) else none)

  lines-ranked_from :
      (limit rank i : ℕ) (ts : List (GoodToken F))
      → get_elem? (take limit (ranked_from floats rank ts)) i
        ≡ (if ltb i limit then Option.map (line (rank + i)) (get_elem? ts i) else none)
  unfolding ranked_from
  lines-ranked_from zero rank i ts = ground arith
  lines-ranked_from (suc limit) rank i [] = ground arith
  lines-ranked_from (suc limit) rank zero (t ∷ ts) = ground arith
  lines-ranked_from (suc limit) rank (suc i) (t ∷ ts) =
      let next : rank + 1 + i ≡ rank + suc i = omega arith in
      let below : ltb (suc i) (suc limit) ≡ ltb i limit = ground arith in
      rw below (
        lines-ranked_from limit (rank + 1) i ts
        ∙ ap (λ r. if ltb i limit then Option.map (line r) (get_elem? ts i) else none) next)

  -- In a ledger in order in which no score is NaN, where scores compare as IEEE 754 says, and for a limit
  -- that is a `usize`: there is an order of exactly the minted and the active tokens, none before one of a
  -- greater score, such that `top_by_merit` gives at each place below the limit the line of the token at
  -- that place, with rank 1 at the first, 2 at the second and so on, and nothing from the limit on.
  pub top_by_merit-IsTop :
      (p : Primitives)
      → FloatLaws floats
      → (tokens : TokenLedger F) (limit : ℕ) → limit < 2 ^ 64
      → IsLedger floats p tokens
      → All (λ t. IsReal floats t.merit_score) (values tokens)
      → IsTop tokens limit (top_by_merit floats tokens limit)
  top_by_merit-IsTop p laws tokens limit small h real =
      let (best, ranking, perm, descending) =
        rank_by_merit-Ranked floats laws (listed (values tokens))
          (All-listed floats (λ t. IsReal floats t.merit_score) (values tokens) real) in
      let whole =
        top_by_merit-rank_by_merit floats p laws tokens limit small h real
        ∙ ap (take limit) ranking in
      record {
        best = best;
        chosen = rw⁻¹ (listed-live (values tokens)) perm;
        descending = descending;
        lines = λ i. ap (λ ts. get_elem? ts i) whole ∙ lines-ranked_from limit 1 i best;
      }
