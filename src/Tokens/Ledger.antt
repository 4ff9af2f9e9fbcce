-- ===== src/Tokens/Ledger.antt =====
-- core/iedb-crypto/src/tokens/mod.rs: what a ledger holds.
use mathlib.Core.Path.{subst}
use hammurabi_handoff.Prelude.{
  ℕ, ◌≡◌, ◌⊎◌, refl, Bool-cases, arith, String, none, some, List, [], ◌∷◌, str_eq, eq_iff,
  Option-cases, inl, inr, length,
}
use hammurabi_handoff.Prelude.Int.{ℤ, pos}
use hammurabi_handoff.Prelude.Keyed.{Keyed, Distinct, lookup}
use hammurabi_handoff.Prelude.Ordered.{put, modify, lookup-put, lookup-modify}
use hammurabi_handoff.Json.{Value}
use hammurabi_handoff.Crypto.{Primitives}
use hammurabi_handoff.Tokens.{
  TokenStatus, minted, active, spent, burned, revoked, Floats, GoodToken, TokenLedger, chained_root,
  derive_token_id, transition, activate, spend, burn, revoke, fresh_token, mint,
  compute_merit_score,
}
use hammurabi_handoff.Tokens.Lifecycle.{
  Call, mint_call, activate_call, spend_call, burn_call, revoke_call, call, calls,
}

module _ {ℓ} {V : Type ℓ} where
  put-Distinct :
      (k : String) (v : V) (m : Keyed V) → lookup k m ≡ none → Distinct m → Distinct (put k v m)
  unfolding put lookup
  put-Distinct k v [] h d = (refl, tt)
  put-Distinct k v ((j, w) ∷ m) h d =
      ground (arith, d.0, eq_iff j k, eq_iff k j, lookup-put k j v m, put-Distinct k v m)

  modify-Distinct : (k : String) (f : V → V) (m : Keyed V) → Distinct m → Distinct (modify k f m)
  unfolding modify
  modify-Distinct k f [] d = tt
  modify-Distinct k f ((j, w) ∷ m) d =
      ground (arith, d.0, eq_iff j k, lookup-modify k j f m, modify-Distinct k f m d.1)

module _ {ℓ} {V : Type ℓ} where
  lookup-put-eq-some :
      (k j : String) (v : V) (m : Keyed V) (w : V)
      → lookup j (put k v m) ≡ some w
      → ((k ≡ j) × (v ≡ w)) ⊎ (lookup j m ≡ some w)
  lookup-put-eq-some k j v m w h = elim (Bool-cases (str_eq k j)) [
    | inl same ↦ inl ((eq_iff k j).0 same, ground (arith, same, lookup-put k j v m))
    | inr other ↦ inr (ground (arith, other, lookup-put k j v m))
  ]

  lookup-modify-eq-some :
      (k j : String) (f : V → V) (m : Keyed V) (w : V)
      → lookup j (modify k f m) ≡ some w
      → ((v : V) × (lookup j m ≡ some v) × (f v ≡ w)) ⊎ (lookup j m ≡ some w)
  lookup-modify-eq-some k j f m w h = elim (Bool-cases (str_eq k j)) [
    | inl same ↦ elim (Option-cases (lookup j m)) [
      | inl gone ↦ absurd (ground (arith, same, gone, lookup-modify k j f m))
      | inr (v, held) ↦ inl (v, held, ground (arith, same, held, lookup-modify k j f m))
    ]
    | inr other ↦ inr (ground (arith, other, lookup-modify k j f m))
  ]

ledger-transition :
    {F : Type 0} (tokens : TokenLedger F) (id : String) (allowed : List TokenStatus)
    (to : TokenStatus)
    → ((transition tokens id allowed to).0 ≡ tokens)
      ⊎ ((transition tokens id allowed to).0 ≡ modify id (λ u. record u { status = to }) tokens)
unfolding transition
ledger-transition tokens id allowed to = ground arith

module _ {F : Type 0} (floats : Floats F) (p : Primitives) where
  -- A token under its key: the key is its content address, its score is that of its event count.
  pub record IsToken (k : String) (t : GoodToken F) : Type 0 where
    pub own_id : t.token_id ≡ k
    pub addressed : derive_token_id p t.batch_id t.chained_root ≡ k
    pub events : ℕ
    pub counted : t.event_count ≡ pos events
    pub scored : t.merit_score ≡ compute_merit_score floats (pos events) floats.one

  pub record IsLedger (tokens : TokenLedger F) : Type 0 where
    pub distinct : Distinct tokens
    pub each : (k : String) (t : GoodToken F) → lookup k tokens ≡ some t → IsToken k t

  pub empty-IsLedger : IsLedger []
  unfolding lookup
  empty-IsLedger = record { distinct = tt; each = λ k t h. cc h }

  fresh_token-IsToken :
      (batch_id : ℤ) (cids : List String) (first last minted_at : String) (metadata : Value)
      → IsToken
          (derive_token_id p batch_id (chained_root p cids))
          (fresh_token floats p batch_id cids first last minted_at metadata)
  unfolding fresh_token
  fresh_token-IsToken batch_id cids first last minted_at metadata = record {
    own_id = refl;
    addressed = refl;
    events = length cids;
    counted = refl;
    scored = refl;
  }

  put-IsLedger :
      (tokens : TokenLedger F) (k : String) (new : GoodToken F)
      → lookup k tokens ≡ none
      → IsToken k new
      → IsLedger tokens
      → IsLedger (put k new tokens)
  put-IsLedger tokens k new fresh good h = record {
    distinct = put-Distinct k new tokens fresh h.distinct;
    each = λ j t e. elim (lookup-put-eq-some k j new tokens t e) [
      | inl (same, made) ↦ subst (λ i. IsToken i t) same (subst (IsToken k) made good)
      | inr old ↦ h.each j t old
    ];
  }

  -- A status does not matter to a token.
  status-IsToken :
      (k : String) (t : GoodToken F) (to : TokenStatus)
      → IsToken k t
      → IsToken k (record t { status = to })
  status-IsToken k t to g = record {
    own_id = g.own_id;
    addressed = g.addressed;
    events = g.events;
    counted = g.counted;
    scored = g.scored;
  }

  modify-IsLedger :
      (tokens : TokenLedger F) (id : String) (to : TokenStatus)
      → IsLedger tokens
      → IsLedger (modify id (λ u. record u { status = to }) tokens)
  modify-IsLedger tokens id to h = record {
    distinct = modify-Distinct id (λ u. record u { status = to }) tokens h.distinct;
    each = λ j t e. elim (lookup-modify-eq-some id j (λ u. record u { status = to }) tokens t e) [
      | inl (u, was, made) ↦ subst (IsToken j) made (status-IsToken j u to (h.each j u was))
      | inr old ↦ h.each j t old
    ];
  }

  transition-IsLedger :
      (tokens : TokenLedger F) (id : String) (allowed : List TokenStatus) (to : TokenStatus)
      → IsLedger tokens
      → IsLedger (transition tokens id allowed to).0
  transition-IsLedger tokens id allowed to h = elim (ledger-transition tokens id allowed to) [
    | inl same ↦ rw same h
    | inr changed ↦ rw changed (modify-IsLedger tokens id to h)
  ]

  call-IsLedger :
      (tokens : TokenLedger F) (c : Call) → IsLedger tokens → IsLedger (call floats p tokens c).0
  unfolding call activate spend burn revoke
  call-IsLedger tokens (mint_call batch_id cids first last minted_at metadata) h =
      let id = derive_token_id p batch_id (chained_root p cids) in
      elim (Option-cases (lookup id tokens)) [
        | inl fresh ↦
            rw (fresh, mint)
              (put-IsLedger tokens id
                (fresh_token floats p batch_id cids first last minted_at metadata) fresh
                (fresh_token-IsToken batch_id cids first last minted_at metadata) h)
        | inr (t, held) ↦ rw (held, mint) h
      ]
  call-IsLedger tokens (activate_call id) h = transition-IsLedger tokens id (minted ∷ []) active h
  call-IsLedger tokens (spend_call id) h = transition-IsLedger tokens id (active ∷ []) spent h
  call-IsLedger tokens (burn_call id reason) h =
      transition-IsLedger tokens id (minted ∷ active ∷ []) burned h
  call-IsLedger tokens (revoke_call id reason) h =
      transition-IsLedger tokens id (minted ∷ active ∷ spent ∷ burned ∷ []) revoked h

  -- After any sequence of calls from a ledger in order, each token stands once, under its own id, which
  -- is its content address, and its score is that of the number of its events.
  pub calls-IsLedger :
      (tokens : TokenLedger F) (cs : List Call)
      → IsLedger tokens
      → IsLedger (calls floats p tokens cs)
  unfolding calls
  calls-IsLedger tokens [] h = h
  calls-IsLedger tokens (c ∷ cs) h =
      calls-IsLedger (call floats p tokens c).0 cs (call-IsLedger tokens c h)
