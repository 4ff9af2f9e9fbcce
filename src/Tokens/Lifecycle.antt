-- ===== src/Tokens/Lifecycle.antt =====
-- core/iedb-crypto/src/tokens/mod.rs: the life of a token, over any sequence of calls.
use hammurabi_handoff.Prelude.{
  ℕ, ◌+◌, ◌≤◌, ◌≡◌, ◌⊎◌, refl, ◌∙◌, arith, String, Bool, true, false, ◌&&◌, Bool-cases, Option,
  none, some, List, [], ◌∷◌, str_eq, eq_iff, ok, err, is_ok, inl, inr, if◌then◌else◌,
}
use hammurabi_handoff.Prelude.Int.{ℤ}
use hammurabi_handoff.Prelude.Keyed.{lookup}
use hammurabi_handoff.Prelude.Ordered.{lookup-put, lookup-modify}
use hammurabi_handoff.Json.{Value}
use hammurabi_handoff.Crypto.{CryptoResult, Primitives}
use hammurabi_handoff.Tokens.{
  TokenStatus, minted, active, spent, burned, revoked, contains, Floats, GoodToken, TokenLedger,
  chained_root, derive_token_id, transition, activate, spend, burn, revoke, mint, fresh_token,
}

-- The calls that change a ledger.
pub data Call : Type 0 where
  mint_call : ℤ → List String → String → String → String → Value → Call
  activate_call : String → Call
  spend_call : String → Call
  burn_call : String → String → Call
  revoke_call : String → String → Call

module _ {F : Type 0} where
  abbrev pub status_of : Option (GoodToken F) → Option TokenStatus
  status_of none = none
  status_of (some t) = some t.status

  module _ (floats : Floats F) (p : Primitives) where
    abbrev forget {ℓ} : {A : Type ℓ} → CryptoResult A → CryptoResult (Unit {0})
    forget (ok _) = ok tt
    forget (err e) = err e

    unfoldable pub call : TokenLedger F → Call → TokenLedger F × CryptoResult (Unit {0})
    unfolding mint activate spend burn revoke
    call tokens (mint_call batch_id cids first last minted_at metadata) =
        let (tokens', r) = mint floats p tokens batch_id cids first last minted_at metadata in
        (tokens', forget r)
    call tokens (activate_call id) = activate tokens id
    call tokens (spend_call id) = spend tokens id
    call tokens (burn_call id reason) = burn tokens id reason
    call tokens (revoke_call id reason) = revoke tokens id reason

    -- The abstract machine: one status, or none, for each id. A call has one target, admits it in
    -- some statuses, and gives it one status.
    abbrev pub target : Call → String
    target (mint_call batch_id cids first last minted_at metadata) =
        derive_token_id p batch_id (chained_root p cids)
    target (activate_call id) = id
    target (spend_call id) = id
    target (burn_call id reason) = id
    target (revoke_call id reason) = id

    abbrev pub admits : Call → Option TokenStatus → Bool
    admits (mint_call _ _ _ _ _ _) none = true
    admits (activate_call _) (some minted) = true
    admits (spend_call _) (some active) = true
    admits (burn_call _ _) (some minted) = true
    admits (burn_call _ _) (some active) = true
    admits (revoke_call _ _) (some minted) = true
    admits (revoke_call _ _) (some active) = true
    admits (revoke_call _ _) (some spent) = true
    admits (revoke_call _ _) (some burned) = true
    admits _ _ = false

    abbrev pub outcome : Call → TokenStatus
    outcome (mint_call _ _ _ _ _ _) = minted
    outcome (activate_call _) = active
    outcome (spend_call _) = spent
    outcome (burn_call _ _) = burned
    outcome (revoke_call _ _) = revoked

    -- What a call does, seen from the abstract machine.
    pub record Follows (before : TokenLedger F) (c : Call)
        (after : TokenLedger F × CryptoResult (Unit {0})) : Type 0 where
      pub answers : is_ok after.1 ≡ admits c (status_of (lookup (target c) before))
      pub statuses :
          (id : String)
          → status_of (lookup id after.0) ≡ (
              if admits c (status_of (lookup (target c) before)) && str_eq (target c) id
              then some (outcome c)
              else status_of (lookup id before))
      pub refusals : is_ok after.1 ≡ false → after.0 ≡ before

    abbrev accepts : List TokenStatus → Option TokenStatus → Bool
    accepts allowed none = false
    accepts allowed (some s) = contains allowed s

    -- A transition, from a list of statuses that accepts what the machine admits.
    module _ (tokens : TokenLedger F) (c : Call) (allowed : List TokenStatus) where
      transition_after : TokenLedger F × CryptoResult (Unit {0})
      transition_after = transition tokens (target c) allowed (outcome c)

      transition-Follows :
          ((o : Option TokenStatus) → accepts allowed o ≡ admits c o)
          → Follows tokens c transition_after
      unfolding transition transition_after
      transition-Follows agree =
          let o = status_of (lookup (target c) tokens) in
          record {
            answers = ground (arith, agree o);
            statuses = λ id. ground (
              arith,
              agree o,
              eq_iff (target c) id,
              lookup-modify (target c) id (λ (u : GoodToken F). record u { status = outcome c })
                  tokens,
            );
            refusals = λ h. ground (arith, agree o);
          }

    -- Every call refines the abstract machine: it succeeds exactly if the machine admits it in the status
    -- of its target; it then gives the target the machine's status, and leaves every other status alone;
    -- and a call that is refused leaves the whole ledger as it was.
    pub call-Follows : (tokens : TokenLedger F) (c : Call) → Follows tokens c (call tokens c)
    unfolding call transition_after
    call-Follows tokens (mint_call batch_id cids first last minted_at metadata) =
        let id = derive_token_id p batch_id (chained_root p cids) in
        let t = fresh_token floats p batch_id cids first last minted_at metadata in
        record {
          answers = ground arith;
          statuses = λ other. ground (arith, eq_iff id other, lookup-put id other t tokens);
          refusals = λ h. ground arith;
        }
    call-Follows tokens (activate_call id) =
        transition-Follows tokens (activate_call id) (minted ∷ []) λ o. ground arith
    call-Follows tokens (spend_call id) =
        transition-Follows tokens (spend_call id) (active ∷ []) λ o. ground arith
    call-Follows tokens (burn_call id reason) =
        transition-Follows tokens (burn_call id reason) (minted ∷ active ∷ []) λ o. ground arith
    call-Follows tokens (revoke_call id reason) =
        transition-Follows tokens (revoke_call id reason) (minted ∷ active ∷ spent ∷ burned ∷ [])
          λ o. ground arith

    -- Nothing is admitted for a revoked token.
    admits_revoked : (c : Call) → admits c (some revoked) ≡ false
    admits_revoked (mint_call _ _ _ _ _ _) = refl
    admits_revoked (activate_call _) = refl
    admits_revoked (spend_call _) = refl
    admits_revoked (burn_call _ _) = refl
    admits_revoked (revoke_call _ _) = refl

    -- What may still be spent under an id.
    abbrev unspent : Option TokenStatus → ℕ
    unspent none = 1
    unspent (some minted) = 1
    unspent (some active) = 1
    unspent _ = 0

    -- 1 if the call spends the token of this id.
    unfoldable pub spends : String → TokenLedger F → Call → ℕ
    spends id tokens (spend_call other) =
        if is_ok (call tokens (spend_call other)).1 && str_eq other id then 1 else 0
    spends id tokens _ = 0

    -- A sequence of calls: the ledger after it, and how often it spends the token of an id.
    unfoldable pub calls : TokenLedger F → List Call → TokenLedger F
    calls tokens [] = tokens
    calls tokens (c ∷ cs) = calls (call tokens c).0 cs

    unfoldable pub times_spent : String → TokenLedger F → List Call → ℕ
    times_spent id tokens [] = 0
    times_spent id tokens (c ∷ cs) = spends id tokens c + times_spent id (call tokens c).0 cs

    spends-unspent :
        (id : String) (tokens : TokenLedger F) (c : Call)
        → spends id tokens c + unspent (status_of (lookup id (call tokens c).0))
          ≤ unspent (status_of (lookup id tokens))
    unfolding spends
    spends-unspent id tokens (spend_call other) =
        let f = call-Follows tokens (spend_call other) in
        ground (arith, f.answers, f.statuses id, eq_iff other id)
    spends-unspent id tokens (mint_call batch_id cids first last minted_at metadata) =
        let c = mint_call batch_id cids first last minted_at metadata in
        let f = call-Follows tokens c in ground (arith, f.statuses id, eq_iff (target c) id)
    spends-unspent id tokens (activate_call other) =
        ground (arith, (call-Follows tokens (activate_call other)).statuses id, eq_iff other id)
    spends-unspent id tokens (burn_call other reason) =
        ground (arith, (call-Follows tokens (burn_call other reason)).statuses id, eq_iff other id)
    spends-unspent id tokens (revoke_call other reason) =
        ground
          (arith, (call-Follows tokens (revoke_call other reason)).statuses id, eq_iff other id)

    times_spent-unspent :
        (id : String) (tokens : TokenLedger F) (cs : List Call)
        → times_spent id tokens cs ≤ unspent (status_of (lookup id tokens))
    unfolding times_spent
    times_spent-unspent id tokens [] = omega arith
    times_spent-unspent id tokens (c ∷ cs) =
        omega (arith, spends-unspent id tokens c, times_spent-unspent id (call tokens c).0 cs)

    -- In any sequence of calls from any ledger, a token is spent at most once, and not at all if it was
    -- spent, burned or revoked at the start; minting its batch again does not help.
    pub times_spent-le-one :
        (id : String) (tokens : TokenLedger F) (cs : List Call)
        → (times_spent id tokens cs ≤ 1)
          × ((s : TokenStatus)
              → status_of (lookup id tokens) ≡ some s
              → (s ≡ spent) ⊎ (s ≡ burned) ⊎ (s ≡ revoked)
              → times_spent id tokens cs ≡ 0)
    times_spent-le-one id tokens cs = (
      ground (arith, times_spent-unspent id tokens cs),
      λ s h k. ground (arith, times_spent-unspent id tokens cs),
    )

    call_revoked :
        (id : String) (tokens : TokenLedger F) (c : Call)
        → status_of (lookup id tokens) ≡ some revoked
        → status_of (lookup id (call tokens c).0) ≡ some revoked
    call_revoked id tokens c h =
        let f = call-Follows tokens c in
        elim (Bool-cases (str_eq (target c) id)) [
          | inl same ↦
              let e = (eq_iff (target c) id).0 same in
              let never : admits c (status_of (lookup (target c) tokens)) ≡ false =
                rw (e, h) (admits_revoked c) in
              f.statuses id ∙ rw never h
          | inr other ↦ f.statuses id ∙ ground (arith, other)
        ]

    -- Once revoked, a token stays revoked, whatever is called.
    pub calls_revoked :
        (id : String) (tokens : TokenLedger F) (cs : List Call)
        → status_of (lookup id tokens) ≡ some revoked
        → status_of (lookup id (calls tokens cs)) ≡ some revoked
    unfolding calls
    calls_revoked id tokens [] h = h
    calls_revoked id tokens (c ∷ cs) h =
        calls_revoked id (call tokens c).0 cs (call_revoked id tokens c h)
