-- ===== src/Jcs/Decimal.antt =====
-- core/iedb-crypto/src/jcs.rs, `write_number`: an integer can be read off the front of a text.
use hammurabi_handoff.Prelude.{
  ℕ, zero, suc, ◌+◌, ◌-◌, ◌*◌, ◌/◌, ◌%◌, ◌<◌, ◌≡◌, ◌≢◌, refl, ap, sym, ◌∙◌, arith, Bool, true,
  false, ◌&&◌, [], ◌∷◌, ◌++◌, All, All-append, codes, leb, show_ℕ, show_fuel, digit, Bool-cases,
  inl, inr, ◌==◌,
}
use hammurabi_handoff.Jcs.{Text}
use hammurabi_handoff.Jcs.Ink.{codes-join}

abbrev pub is_digit : ℕ → Bool
is_digit c = leb b'0' c && leb c b'9'

abbrev IsDigits : Text → Type 0
IsDigits = All (λ c. is_digit c ≡ true)

-- What follows a number: the end, or a code point that is no digit.
abbrev pub Delimited : Text → Type 0
Delimited [] = Unit
Delimited (c ∷ _) = is_digit c ≡ false

codes-digit : (d : ℕ) → d < 10 → codes (digit d) ≡ (b'0' + d) ∷ []
codes-digit zero h = refl
codes-digit (suc zero) h = refl
codes-digit (suc (suc zero)) h = refl
codes-digit (suc (suc (suc zero))) h = refl
codes-digit (suc (suc (suc (suc zero)))) h = refl
codes-digit (suc (suc (suc (suc (suc zero))))) h = refl
codes-digit (suc (suc (suc (suc (suc (suc zero)))))) h = refl
codes-digit (suc (suc (suc (suc (suc (suc (suc zero))))))) h = refl
codes-digit (suc (suc (suc (suc (suc (suc (suc (suc zero)))))))) h = refl
codes-digit (suc (suc (suc (suc (suc (suc (suc (suc (suc zero))))))))) h = refl
codes-digit (suc (suc (suc (suc (suc (suc (suc (suc (suc (suc d)))))))))) h = absurd (omega arith)

-- The number that a text of digits stands for, after the digits read so far.
decimal : ℕ → Text → ℕ
decimal acc [] = acc
decimal acc (c ∷ cs) = decimal (acc * 10 + (c - b'0')) cs

decimal-append : (acc : ℕ) (cs ds : Text) → decimal acc (cs ++ ds) ≡ decimal (decimal acc cs) ds
unfolding decimal
decimal-append acc [] ds = refl
decimal-append acc (c ∷ cs) ds = decimal-append (acc * 10 + (c - b'0')) cs ds

decimal-digit : (acc d : ℕ) → d < 10 → decimal acc (codes (digit d)) ≡ acc * 10 + d
unfolding decimal
decimal-digit acc d h = rw (codes-digit d h) (omega arith)

digit-IsDigits : (d : ℕ) → d < 10 → IsDigits (codes (digit d))
digit-IsDigits d h = rw (codes-digit d h) (ground arith, tt)

decimal-show_fuel :
    (f n : ℕ) → n < f → (decimal 0 (codes (show_fuel f n)) ≡ n) × IsDigits (codes (show_fuel f n))
unfolding show_fuel
decimal-show_fuel zero n h = absurd (omega arith)
decimal-show_fuel (suc f) n h = elim (Bool-cases (n / 10 == 0)) [
  | inl e ↦ rw e (omega (arith, decimal-digit 0 n (ground arith)), digit-IsDigits n (ground arith))
  | inr e ↦
      let (value, digits) = decimal-show_fuel f (n / 10) (ground arith) in
      rw (e, codes-join)
        (
          decimal-append 0 (codes (show_fuel f (n / 10))) (codes (digit (n % 10)))
              ∙ ap (λ a. decimal a (codes (digit (n % 10)))) value
              ∙ omega (arith, decimal-digit (n / 10) (n % 10) (omega arith)),
          All-append (λ c. is_digit c ≡ true) (codes (show_fuel f (n / 10)))
              (codes (digit (n % 10))) digits (digit-IsDigits (n % 10) (omega arith)),
        )
]

show_ℕ-IsDigits : (n : ℕ) → IsDigits (codes (show_ℕ n))
unfolding show_ℕ
show_ℕ-IsDigits n = (decimal-show_fuel (n + 1) n (omega arith)).1

show_ℕ_injective : (m n : ℕ) → codes (show_ℕ m) ≡ codes (show_ℕ n) → m ≡ n
unfolding show_ℕ
show_ℕ_injective m n h =
    sym (decimal-show_fuel (m + 1) m (omega arith)).0
    ∙ ap (decimal 0) h
    ∙ (decimal-show_fuel (n + 1) n (omega arith)).0

-- The digits at the front of a text are determined by it.
IsDigits-unique :
    (cs ds r s : Text)
    → IsDigits cs
    → IsDigits ds
    → Delimited r
    → Delimited s
    → cs ++ r ≡ ds ++ s
    → (cs ≡ ds) × (r ≡ s)
IsDigits-unique [] [] r s hc hd hr hs h = (refl, h)
IsDigits-unique [] (d ∷ ds) [] s hc hd hr hs h = cc
IsDigits-unique [] (d ∷ ds) (x ∷ r) s hc hd hr hs h =
    let e : x ≡ d = cc in cc (ap is_digit e, hr, hd.0)
IsDigits-unique (c ∷ cs) [] r [] hc hd hr hs h = cc
IsDigits-unique (c ∷ cs) [] r (x ∷ s) hc hd hr hs h =
    let e : c ≡ x = cc in cc (ap is_digit e, hs, hc.0)
IsDigits-unique (c ∷ cs) (d ∷ ds) r s hc hd hr hs h =
    let (p, q) = IsDigits-unique cs ds r s hc.1 hd.1 hr hs (cc h) in (cc (h, p), q)

-- Two numbers that stand in front of what delimits them, in one text, are the same number.
pub show_ℕ_unique :
    (m n : ℕ) (r s : Text)
    → Delimited r
    → Delimited s
    → codes (show_ℕ m) ++ r ≡ codes (show_ℕ n) ++ s
    → (m ≡ n) × (r ≡ s)
show_ℕ_unique m n r s hr hs h =
    let (p, q) =
      IsDigits-unique (codes (show_ℕ m)) (codes (show_ℕ n)) r s (show_ℕ-IsDigits m)
        (show_ℕ-IsDigits n) hr hs h in
    (show_ℕ_injective m n p, q)

show_ℕ-nonempty : (n : ℕ) → codes (show_ℕ n) ≢ []
unfolding show_ℕ show_fuel decimal
show_ℕ-nonempty zero h = cc
show_ℕ-nonempty (suc n) h =
    absurd (omega (arith, (decimal-show_fuel (suc n + 1) (suc n) (omega arith)).0, empty))
  where
    empty : decimal 0 (codes (show_ℕ (suc n))) ≡ 0
    empty = ap (decimal 0) h

-- The code point with which a text starts.
abbrev pub StartsWith : (ℕ → Type 0) → Text → Type 0
StartsWith P [] = ⊥
StartsWith P (c ∷ _) = P c

StartsWith-IsDigits : (cs : Text) → cs ≢ [] → IsDigits cs → StartsWith (λ c. is_digit c ≡ true) cs
StartsWith-IsDigits [] ne h = absurd (ne refl)
StartsWith-IsDigits (c ∷ cs) ne h = h.0

-- A number starts with a digit.
pub show_ℕ-StartsWith : (n : ℕ) → StartsWith (λ c. is_digit c ≡ true) (codes (show_ℕ n))
show_ℕ-StartsWith n = StartsWith-IsDigits (codes (show_ℕ n)) (show_ℕ-nonempty n) (show_ℕ-IsDigits n)
