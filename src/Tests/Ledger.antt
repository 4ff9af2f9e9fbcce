-- ===== src/Tests/Ledger.antt =====
-- core/iedb-crypto/src/tokens/mod.rs at concrete inputs, over numbers in place of floats.
use Prim.Native.Nat.{Ordering}
use hammurabi_handoff.Prelude.{
  ℕ, ◌+◌, ◌*◌, ◌≤◌, ◌≡◌, ◌⊎◌, refl, arith, String, some, List, [], ◌∷◌, ltb, ◌==◌, All,
  if◌then◌else◌,
}
use hammurabi_handoff.Prelude.Int.{pos_part, pos}
use hammurabi_handoff.Prelude.Ordered.{values}
use hammurabi_handoff.Prelude.Keyed.{lookup}
use hammurabi_handoff.Json.{null}
use hammurabi_handoff.Tokens.{
  spent, burned, revoked, Floats, GoodToken, TokenLedger, TokenStatus, fresh_token, top_by_merit,
  chained_root, derive_token_id,
}
use hammurabi_handoff.Tokens.Lifecycle.{
  Call, mint_call, activate_call, spend_call, call, calls, status_of, Follows, times_spent,
  call-Follows, times_spent-le-one, calls_revoked,
}
use hammurabi_handoff.Tokens.Ledger.{IsLedger, empty-IsLedger, calls-IsLedger}
use hammurabi_handoff.Tokens.Merit.{IsReal, FloatLaws}
use hammurabi_handoff.Tokens.Ranking.{IsTop, top_by_merit-IsTop}
use hammurabi_handoff.Tests.Toy.{toy}

unfoldable order_of : ℕ → ℕ → Ordering
order_of a b = if ltb a b then Ordering.lt else if a == b then Ordering.eq else Ordering.gt

unfoldable counts : Floats ℕ
unfolding order_of
counts = record {
  of_i64 = pos_part;
  one = 1;
  add = λ a b. a + b;
  mul = λ a b. a * b;
  ln = λ a. a;
  partial_cmp = λ a b. some (order_of a b);
}

every-IsReal : (a : ℕ) → IsReal counts a
unfolding counts order_of
every-IsReal a = ground arith

counts-FloatLaws : FloatLaws counts
unfolding counts order_of
counts-FloatLaws = record {
  antisym = λ x y _ _ h. ground arith;
  trans = λ x y z _ _ _ h k. ground arith;
}

every-All-IsReal : (ts : List (GoodToken ℕ)) → All (λ t. IsReal counts t.merit_score) ts
every-All-IsReal [] = tt
every-All-IsReal (t ∷ ts) = (every-IsReal t.merit_score, every-All-IsReal ts)

-- Two batches, the second one larger.
abbrev batch_1 : Call
batch_1 = mint_call (pos 1) ("a" ∷ []) "t0" "t1" "t2" null

abbrev batch_2 : Call
batch_2 = mint_call (pos 2) ("a" ∷ "b" ∷ []) "t0" "t1" "t2" null

abbrev id_1 : String
id_1 = derive_token_id toy (pos 1) (chained_root toy ("a" ∷ []))

abbrev token_1 : GoodToken ℕ
token_1 = fresh_token counts toy (pos 1) ("a" ∷ []) "t0" "t1" "t2" null

abbrev token_2 : GoodToken ℕ
token_2 = fresh_token counts toy (pos 2) ("a" ∷ "b" ∷ []) "t0" "t1" "t2" null

-- The first token is spent, spent again, minted again and spent a third time.
abbrev life_1 : List Call
life_1 =
    batch_1
    ∷ activate_call id_1
    ∷ spend_call id_1
    ∷ spend_call id_1
    ∷ batch_1
    ∷ spend_call id_1
    ∷ batch_2
    ∷ []

call-Follows_example :
    Follows counts toy
      (("k", token_1) ∷ [])
      (activate_call "k")
      (call counts toy (("k", token_1) ∷ []) (activate_call "k"))
call-Follows_example = call-Follows counts toy (("k", token_1) ∷ []) (activate_call "k")

times_spent-le-one_example :
    (times_spent counts toy id_1 [] life_1 ≤ 1)
    × ((s : TokenStatus)
        → status_of {F = ℕ} (lookup id_1 []) ≡ some s
        → (s ≡ spent) ⊎ (s ≡ burned) ⊎ (s ≡ revoked)
        → times_spent counts toy id_1 [] life_1 ≡ 0)
times_spent-le-one_example = times_spent-le-one counts toy id_1 [] life_1

calls-IsLedger_example : IsLedger counts toy (calls counts toy [] life_1)
calls-IsLedger_example = calls-IsLedger counts toy [] life_1 (empty-IsLedger counts toy)

abbrev revoked_1 : TokenLedger ℕ
revoked_1 = ("k", record token_1 { status = revoked }) ∷ []

calls_revoked_example :
    status_of (lookup "k" (calls counts toy revoked_1 (activate_call "k" ∷ spend_call "k" ∷ [])))
    ≡ some revoked
unfolding lookup
calls_revoked_example =
    calls_revoked counts toy "k" revoked_1 (activate_call "k" ∷ spend_call "k" ∷ []) refl

abbrev minted_both : TokenLedger ℕ
minted_both = calls counts toy [] (batch_1 ∷ batch_2 ∷ [])

top_by_merit-IsTop_example : IsTop counts minted_both 1 (top_by_merit counts minted_both 1)
top_by_merit-IsTop_example =
    top_by_merit-IsTop counts toy counts-FloatLaws minted_both 1 (omega arith)
      (calls-IsLedger counts toy [] (batch_1 ∷ batch_2 ∷ []) (empty-IsLedger counts toy))
      (every-All-IsReal (values minted_both))
