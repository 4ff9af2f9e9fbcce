-- ===== src/Mesh/Race.antt =====
-- desktop/hammurabi-handoff/src/mesh.rs under concurrent posts. `post` takes its number before it takes
-- the log's lock, so other posts can run between the two.
use hammurabi_handoff.Prelude.{
  ℕ, zero, suc, ◌+◌, ◌-◌, ◌%◌, ◌^◌, ◌<◌, ◌≤◌, ◌≡◌, refl, ap, ◌∙◌, arith, String, List, [], ◌∷◌,
  ◌++◌, length, drop, length-append, ◌==◌, if◌then◌else◌,
}
use hammurabi_handoff.Mesh.{MeshMessage, MeshBus, max_log_len, new, fetch_seq, append_line}
use hammurabi_handoff.Mesh.Window.{Line, message}

-- The bus, and the messages of the posts that have their number and not yet the lock.
pub record Shared : Type 0 where
  pub bus : MeshBus
  pub waiting : List MeshMessage

abbrev pub start : MeshBus → Shared
start bus = record { bus = bus; waiting = [] }

-- How often a number stands in a list of messages.
unfoldable pub occurs : ℕ → List MeshMessage → ℕ
occurs n [] = 0
occurs n (m ∷ ms) = let rest = occurs n ms in if m.seq == n then suc rest else rest

occurs-append : (n : ℕ) (xs ys : List MeshMessage) → occurs n (xs ++ ys) ≡ occurs n xs + occurs n ys
unfolding occurs
occurs-append n [] ys = omega arith
occurs-append n (x ∷ xs) ys = ground (arith, occurs-append n xs ys)

occurs-drop-le : (n k : ℕ) (xs : List MeshMessage) → occurs n (drop k xs) ≤ occurs n xs
unfolding occurs
occurs-drop-le n zero xs = omega arith
occurs-drop-le n (suc k) [] = omega arith
occurs-drop-le n (suc k) (x ∷ xs) = ground (arith, occurs-drop-le n k xs)

occurs-append_line-le :
    (n : ℕ) (bus : MeshBus) (m : MeshMessage)
    → occurs n (append_line bus m).log ≤ occurs n bus.log + occurs n (m ∷ [])
unfolding append_line
occurs-append_line-le n bus m = ground (
  arith,
  occurs-append n bus.log (m ∷ []),
  occurs-drop-le n (length (bus.log ++ m ∷ []) - max_log_len) (bus.log ++ m ∷ []),
)

module _ (stamp : ℕ → String) where
  -- One step of some thread: `fetch_add`, or the block under the lock.
  pub data Step (s u : Shared) : Type 0 where
    fetch :
        (l : Line)
        → s.bus.seq + 1 < 2 ^ 64
        → u ≡ record {
          bus = (fetch_seq s.bus).0;
          waiting = message stamp (fetch_seq s.bus).1 l ∷ s.waiting;
        }
        → Step s u
    store :
        (front back : List MeshMessage) (m : MeshMessage)
        → s.waiting ≡ front ++ m ∷ back
        → u ≡ record { bus = append_line s.bus m; waiting = front ++ back }
        → Step s u

  pub data Reach (s : Shared) : Shared → Type 0 where
    here : Reach s s
    next : {t u : Shared} → Reach s t → Step t u → Reach s u

  -- No number was handed out twice, and none that is not below the counter.
  pub record IsNumbered (s : Shared) : Type 0 where
    pub once : (n : ℕ) → occurs n s.bus.log + occurs n s.waiting ≤ 1
    pub below : (n : ℕ) → s.bus.seq ≤ n → occurs n s.bus.log + occurs n s.waiting ≡ 0

  Step-IsNumbered : {s u : Shared} → Step s u → IsNumbered s → IsNumbered u
  unfolding fetch_seq occurs append_line
  Step-IsNumbered {s} {u} (fetch l fits e) h = rw e (record {
    once = λ n. ground (arith, h.once n, h.below n);
    below = λ n. ground (arith, h.below n);
  })
  Step-IsNumbered {s} {u} (store front back m w e) h = rw e (record {
    once = λ n. omega (arith, h.once n, moved n);
    below = λ n p. omega (arith, h.below n p, moved n);
  })
    where
      moved :
          (n : ℕ)
          → occurs n (append_line s.bus m).log + occurs n (front ++ back)
            ≤ occurs n s.bus.log + occurs n s.waiting
      moved n = rw w (
          omega (
            arith,
            occurs-append_line-le n s.bus m,
            occurs-append n front back,
            occurs-append n front (m ∷ back),
            occurs-append n (m ∷ []) back,
          ))

  Reach-IsNumbered : {s u : Shared} → IsNumbered s → Reach s u → IsNumbered u
  Reach-IsNumbered h here = h
  Reach-IsNumbered h (next r st) = Step-IsNumbered st (Reach-IsNumbered h r)

  new-IsNumbered : IsNumbered (start new)
  unfolding occurs
  new-IsNumbered = record { once = λ n. omega arith; below = λ n p. omega arith }

  -- However the posts of several threads interleave on a new bus, as long as the counter has not wrapped,
  -- no two lines of the feed have the same number, and every number in it is below the counter.
  pub feed_numbers_once :
      {u : Shared}
      → Reach (start new) u
      → (n : ℕ) → (occurs n u.bus.log ≤ 1) × (u.bus.seq ≤ n → occurs n u.bus.log ≡ 0)
  feed_numbers_once r n =
      let h = Reach-IsNumbered new-IsNumbered r in
      (omega (arith, h.once n), λ p. omega (arith, h.below n p))

  log-append_line_room :
      (bus : MeshBus) (m : MeshMessage)
      → length bus.log < max_log_len
      → append_line bus m ≡ record bus { log = bus.log ++ m ∷ [] }
  unfolding append_line
  log-append_line_room bus m room = ground (arith, length-append bus.log (m ∷ []))

  -- Two posts on any bus with room for both lines, whose counter does not wrap, can leave the feed out of order: the line with the later number stands
  -- in front of the line with the earlier one.
  pub posts_out_of_order :
      (bus : MeshBus) (a b : Line)
      → bus.seq + 2 < 2 ^ 64
      → length bus.log + 2 ≤ max_log_len
      → (u : Shared) × Reach (start bus) u
        × (u.bus.log
            ≡ (bus.log ++ message stamp (bus.seq + 1) b ∷ []) ++ message stamp bus.seq a ∷ [])
  unfolding fetch_seq
  posts_out_of_order bus a b fits room =
      let wrapped : (bus.seq + 1) % 2 ^ 64 ≡ bus.seq + 1 = omega arith in
      let ma = message stamp bus.seq a in
      let mb = message stamp (bus.seq + 1) b in
      let s₁ : Shared = record { bus = record bus { seq = bus.seq + 1 }; waiting = ma ∷ [] } in
      let s₂ : Shared = record {
        bus = record bus { seq = (bus.seq + 1 + 1) % 2 ^ 64 };
        waiting = mb ∷ ma ∷ [];
      } in
      let s₃ : Shared = record { bus = append_line s₂.bus mb; waiting = ma ∷ [] } in
      let s₄ : Shared = record { bus = append_line s₃.bus ma; waiting = [] } in
      let first = log-append_line_room s₂.bus mb (omega arith) in
      let bus₃ : MeshBus = record s₂.bus { log = bus.log ++ mb ∷ [] } in
      let second = log-append_line_room bus₃ ma (omega (arith, length-append bus.log (mb ∷ []))) in
      (
        s₄,
        next
            (next
              (next (next here (fetch a (omega arith) (rw wrapped refl)))
                (fetch b (omega arith) refl))
              (store [] (ma ∷ []) mb refl refl))
            (store [] [] ma refl refl),
        ap (λ (x : MeshBus). (append_line x ma).log) first ∙ ap (λ (x : MeshBus). x.log) second,
      )
