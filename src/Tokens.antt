-- ===== src/Tokens.antt =====
-- core/iedb-crypto/src/tokens/mod.rs: the ledger of Good Tokens. An `f64` and what the code does with
-- it are a parameter, `Floats`; a method gives the new ledger with its result.
pub mod Lifecycle
pub mod Ledger
pub mod Merit
pub mod Ranking
use Prim.Native.Nat.{Ordering}
use hammurabi_handoff.Prelude.{
  ℕ, zero, suc, ◌+◌, ◌-◌, ◌^◌, String, Bool, true, false, not, ◌||◌, ◌&&◌, Option, none, some, List,
  [], ◌∷◌, ◌++◌, map, length, take, codes, ◌<>◌, ◌==◌, Result, ok, err, ◌>>=◌, if◌then◌else◌,
}
use hammurabi_handoff.Prelude.Int.{ℤ, pos}
use hammurabi_handoff.Prelude.Keyed.{Keyed, lookup}
use hammurabi_handoff.Prelude.Ordered.{put, modify, values}
use hammurabi_handoff.Sort.{sort_by}
use hammurabi_handoff.Json.{Value}
use hammurabi_handoff.Crypto.{CryptoError, CryptoResult, token, Bytes, Primitives}
use hammurabi_handoff.Jcs.{utf8, i64_le_bytes}

pub data TokenStatus : Type 0 where
  minted active spent burned revoked : TokenStatus

unfoldable pub show_status : TokenStatus → String
show_status minted = "minted"
show_status active = "active"
show_status spent = "spent"
show_status burned = "burned"
show_status revoked = "revoked"

-- The derived `PartialEq`.
abbrev pub same_status : TokenStatus → TokenStatus → Bool
same_status minted minted = true
same_status active active = true
same_status spent spent = true
same_status burned burned = true
same_status revoked revoked = true
same_status _ _ = false

-- `allowed_from.contains(&status)`.
abbrev pub contains : List TokenStatus → TokenStatus → Bool
contains [] s = false
contains (t ∷ ts) s = same_status t s || contains ts s

-- What the code does with an `f64`: `n as f64`, the operations, `ln`, `partial_cmp`.
pub record Floats (F : Type 0) : Type 0 where
  pub of_i64 : ℤ → F
  pub one : F
  pub add : F → F → F
  pub mul : F → F → F
  pub ln : F → F
  pub partial_cmp : F → F → Option Ordering

pub record GoodToken (F : Type 0) : Type 0 where
  pub token_id : String
  pub batch_id : ℤ
  pub event_count : ℤ
  pub first_timestamp : String
  pub last_timestamp : String
  pub chained_root : String
  pub proof_uri : Option String
  pub status : TokenStatus
  pub minted_at : String
  pub merit_score : F
  pub metadata : Value

pub record MeritRanking (F : Type 0) : Type 0 where
  pub token_id : String
  pub merit_score : F
  pub event_count : ℤ
  pub chained_root : String
  pub rank : ℕ

-- `TokenLedger`: its one field.
abbrev pub TokenLedger : Type 0 → Type 0
TokenLedger F = Keyed (GoodToken F)

-- What `chained_root` feeds to the hasher.
unfoldable pub cid_lines : List String → Bytes
cid_lines [] = []
cid_lines (cid ∷ cids) = utf8 (codes cid) ++ (b'\n' ∷ cid_lines cids)

module _ (p : Primitives) where
  unfoldable pub chained_root : List String → String
  chained_root event_cids = p.hex_encode (p.blake3 (cid_lines event_cids))

  unfoldable pub derive_token_id : ℤ → String → String
  derive_token_id batch_id root =
      "GT-" <> p.hex_encode (take 16 (p.blake3 (i64_le_bytes batch_id ++ utf8 (codes root))))

module _ {F : Type 0} where
  unfoldable pub get_token : TokenLedger F → String → CryptoResult (GoodToken F)
  get_token tokens token_id = elim (lookup token_id tokens) [
    | none ↦ err (token ("token not found: " <> token_id))
    | some t ↦ ok t
  ]

  unfoldable pub transition :
      TokenLedger F
      → String
      → List TokenStatus
      → TokenStatus
      → TokenLedger F × CryptoResult (Unit {0})
  transition tokens token_id allowed_from to = elim (lookup token_id tokens) [
    | none ↦ (tokens, err (token ("token not found: " <> token_id)))
    | some t ↦
        if not (contains allowed_from t.status)
        then (
          tokens,
          err (
              token (
                "invalid transition for "
                <> (token_id <> (": " <> (show_status t.status <> (" → " <> show_status to)))))),
        )
        else (modify token_id (λ u. record u { status = to }) tokens, ok tt)
  ]

  unfoldable pub activate : TokenLedger F → String → TokenLedger F × CryptoResult (Unit {0})
  activate tokens token_id = transition tokens token_id (minted ∷ []) active

  unfoldable pub spend : TokenLedger F → String → TokenLedger F × CryptoResult (Unit {0})
  spend tokens token_id = transition tokens token_id (active ∷ []) spent

  unfoldable pub burn : TokenLedger F → String → String → TokenLedger F × CryptoResult (Unit {0})
  burn tokens token_id reason = transition tokens token_id (minted ∷ active ∷ []) burned

  unfoldable pub revoke : TokenLedger F → String → String → TokenLedger F × CryptoResult (Unit {0})
  revoke tokens token_id reason =
      transition tokens token_id (minted ∷ active ∷ spent ∷ burned ∷ []) revoked

  -- `filter(..)` of the values, and `filter_map(|r| tokens.get(&r.token_id))` of the rankings.
  abbrev pub is_listed : GoodToken F → Bool
  is_listed t = same_status t.status minted || same_status t.status active

  unfoldable pub listed : List (GoodToken F) → List (GoodToken F)
  listed [] = []
  listed (t ∷ ts) = let rest = listed ts in if is_listed t then t ∷ rest else rest

  unfoldable pub found : TokenLedger F → List (MeritRanking F) → List (GoodToken F)
  found tokens [] = []
  found tokens (r ∷ rs) = elim (lookup r.token_id tokens) [
    | none ↦ found tokens rs
    | some t ↦ t ∷ found tokens rs
  ]

  unfoldable pub count_by_status : TokenLedger F → TokenStatus → ℕ
  count_by_status [] status = 0
  count_by_status ((k, t) ∷ m) status =
      let rest = count_by_status m status in if same_status t.status status then suc rest else rest

  unfoldable pub total : TokenLedger F → ℕ
  total tokens = length tokens

module _ {F : Type 0} (floats : Floats F) where
  unfoldable pub compute_merit_score : ℤ → F → F
  compute_merit_score event_count verification_weight =
      let n = floats.of_i64 event_count in
      floats.mul (floats.mul n (floats.ln (floats.add n floats.one))) verification_weight

  -- The closure of `rank_by_merit`: the greater score first.
  unfoldable pub by_merit : GoodToken F → GoodToken F → Ordering
  by_merit a b = elim (floats.partial_cmp b.merit_score a.merit_score) [
    | none ↦ Ordering.eq
    | some o ↦ o
  ]

  -- `enumerate().map(..)` from a rank on.
  unfoldable pub ranked_from : ℕ → List (GoodToken F) → List (MeritRanking F)
  ranked_from i [] = []
  ranked_from i (t ∷ ts) =
      record {
        token_id = t.token_id;
        merit_score = t.merit_score;
        event_count = t.event_count;
        chained_root = t.chained_root;
        rank = i;
      }
      ∷ ranked_from (i + 1) ts

  unfoldable pub rank_by_merit : List (GoodToken F) → List (MeritRanking F)
  unfolding ranked_from
  rank_by_merit tokens = ranked_from 1 (sort_by by_merit tokens)

  -- The token that `mint` makes.
  unfoldable pub fresh_token :
      Primitives → ℤ → List String → String → String → String → Value → GoodToken F
  fresh_token p batch_id event_cids first_timestamp last_timestamp minted_at metadata =
      let root = chained_root p event_cids in
      let event_count = pos (length event_cids) in
      record {
        token_id = derive_token_id p batch_id root;
        batch_id = batch_id;
        event_count = event_count;
        first_timestamp = first_timestamp;
        last_timestamp = last_timestamp;
        chained_root = root;
        proof_uri = none;
        status = minted;
        minted_at = minted_at;
        merit_score = compute_merit_score event_count floats.one;
        metadata = metadata;
      }

  unfoldable pub mint :
      Primitives
      → TokenLedger F
      → ℤ
      → List String
      → String
      → String
      → String
      → Value
      → TokenLedger F × CryptoResult (GoodToken F)
  unfolding fresh_token
  mint p tokens batch_id event_cids first_timestamp last_timestamp minted_at metadata =
      let token_id = derive_token_id p batch_id (chained_root p event_cids) in
      let t = fresh_token p batch_id event_cids first_timestamp last_timestamp minted_at metadata in
      elim (lookup token_id tokens) [
        | some _ ↦ (tokens, err (token ("token already minted: " <> token_id)))
        | none ↦ (put token_id t tokens, ok t)
      ]

  unfoldable pub list_active : TokenLedger F → ℕ → List (GoodToken F)
  unfolding listed found
  list_active tokens limit = found tokens (take limit (rank_by_merit (listed (values tokens))))

  -- `usize::MAX` on a 64-bit machine.
  unfoldable pub top_by_merit : TokenLedger F → ℕ → List (MeritRanking F)
  top_by_merit tokens limit = take limit (rank_by_merit (list_active tokens (2 ^ 64 - 1)))
