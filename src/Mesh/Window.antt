-- ===== src/Mesh/Window.antt =====
-- desktop/hammurabi-handoff/src/mesh.rs: a run of posts against the full history that it stands for.
use hammurabi_handoff.Prelude.{
  ℕ, ◌+◌, ◌-◌, ◌%◌, ◌^◌, ◌<◌, ◌≡◌, refl, sym, ap, ◌∙◌, arith, String, List, [], ◌∷◌, ◌++◌, length,
  drop, length-append, length-drop, drop-append_le, drop-drop, ltb, Bool-cases, inl, inr,
}
use mathlib.Core.List.{append_assoc, append-nil}
use hammurabi_handoff.Mesh.{
  MeshEventKind, MeshMessage, MeshBus, ops_channel, max_log_len, new, fetch_seq, append_line, post,
  feed,
}

-- What a caller hands to `post`.
pub record Line : Type 0 where
  pub sender : String
  pub kind : MeshEventKind
  pub body : String

module _ (stamp : ℕ → String) where
  -- The message that a line becomes under a number.
  abbrev pub message : ℕ → Line → MeshMessage
  message n l = record {
    seq = n;
    channel = ops_channel;
    sender = l.sender;
    kind = l.kind;
    body = l.body;
    stamp = stamp n;
  }

  -- Posts in a row.
  unfoldable pub post_all : MeshBus → List Line → MeshBus
  post_all bus [] = bus
  post_all bus (l ∷ ls) = post_all (post stamp bus l.sender l.kind l.body).0 ls

  -- The history that forgets nothing: the lines, numbered from `n`.
  unfoldable pub history : ℕ → List Line → List MeshMessage
  history n [] = []
  history n (l ∷ ls) = message n l ∷ history (n + 1) ls

-- The last `max_log_len` messages of a history.
unfoldable pub window : List MeshMessage → List MeshMessage
window h = drop (length h - max_log_len) h

log-append_line :
    (bus : MeshBus) (m : MeshMessage) → (append_line bus m).log ≡ window (bus.log ++ m ∷ [])
unfolding append_line window
log-append_line bus m = elim (Bool-cases (ltb max_log_len (length (bus.log ++ m ∷ [])))) [
  | inl over ↦ rw over
  | inr fits ↦
      let none_over : length (bus.log ++ m ∷ []) - max_log_len ≡ 0 = ground arith in
      rw (fits, none_over)
]

window-window :
    (h : List MeshMessage) (m : MeshMessage) → window (window h ++ m ∷ []) ≡ window (h ++ m ∷ [])
unfolding window
window-window h m =
    let k = length h - max_log_len in
    let moved : drop k h ++ m ∷ [] ≡ drop k (h ++ m ∷ []) =
      sym (drop-append_le k h (m ∷ []) (omega arith)) in
    let total : length (h ++ m ∷ []) ≡ length h + 1 = length-append h (m ∷ []) in
    let left : length (drop k (h ++ m ∷ [])) ≡ length h + 1 - k =
      length-drop k (h ++ m ∷ []) ∙ ap (λ n. n - k) total in
    let sum : k + (length (drop k (h ++ m ∷ [])) - max_log_len)
        ≡ length (h ++ m ∷ []) - max_log_len =
      omega arith in
    rw moved (
      drop-drop (length (drop k (h ++ m ∷ [])) - max_log_len) k (h ++ m ∷ [])
      ∙ ap (λ n. drop n (h ++ m ∷ [])) sum)

module _ (stamp : ℕ → String) where
  log-post_all :
      (ls : List Line) (bus : MeshBus) (h : List MeshMessage)
      → bus.log ≡ window h
      → bus.seq + length ls < 2 ^ 64
      → (post_all stamp bus ls).log ≡ window (h ++ history stamp bus.seq ls)
  unfolding post_all history post fetch_seq
  log-post_all [] bus h e fits = rw append-nil e
  log-post_all (l ∷ ls) bus h e fits =
      let bus' = (post stamp bus l.sender l.kind l.body).0 in
      let m = message stamp bus.seq l in
      let next : (bus.seq + 1) % 2 ^ 64 ≡ bus.seq + 1 = omega arith in
      let logged : bus'.log ≡ window (h ++ m ∷ []) =
        log-append_line (fetch_seq bus).0 m
        ∙ ap (λ x. window (x ++ m ∷ [])) e
        ∙ window-window h m in
      log-post_all ls bus' (h ++ m ∷ []) logged (omega arith)
      ∙ ap (λ x. window x) (append_assoc h (m ∷ []) _)
      ∙ ap (λ n. window (h ++ m ∷ history stamp n ls)) next

  -- After any run of fewer than 2^64 posts from a new bus, the feed is exactly the last 2,000 lines of
  -- the full history, each under the number of its post, counted from 0.
  pub feed-post_all :
      (ls : List Line)
      → length ls < 2 ^ 64
      → feed (post_all stamp new ls) ≡ window (history stamp 0 ls)
  unfolding feed window
  feed-post_all ls fits = log-post_all ls new [] refl (omega arith)
