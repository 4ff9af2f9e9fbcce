-- ===== src/Jcs/Ink.antt =====
-- core/iedb-crypto/src/jcs.rs: the code points and the bytes of the canonical form: none is NUL.
use Prim.Native.Char.{code}
use Prim.Native.String.append
use Prim.Native.String.{◌++◌ as join}
use mathlib.Core.Path.{subst}
use hammurabi_handoff.Prelude.{
  ℕ, zero, suc, ◌+◌, ◌/◌, ◌%◌, ◌<◌, ◌≡◌, ap, arith, String, Bool, true, false, List, [], ◌∷◌, ◌++◌,
  All, All-append, codes, show_ℕ, show_fuel, digit, str_eq, ok, err, ◌>>=◌, >>=-eq-ok, ◌==◌,
  Bool-cases, inl, inr, if◌then◌else◌,
}
use hammurabi_handoff.Prelude.Int.{show_ℤ}
use hammurabi_handoff.Prelude.Keyed.{Keyed, lookup}
use hammurabi_handoff.Json.{
  Number, pos_int, neg_int, float, Value, null, bool, number, string, array, object, Items, nil,
  cons, Fields, end, field,
}
use hammurabi_handoff.Sort.{sort_by}
use hammurabi_handoff.Crypto.{CryptoResult}
use hammurabi_handoff.Jcs.{
  Text, keys, comma, write_number, write_char, write_chars, write_string, write_member,
  write_members, write_value, write_items, members, utf8_char, utf8, canonicalize,
}
use hammurabi_handoff.Jcs.Utf16.{utf16_cmp}
use hammurabi_handoff.Jcs.Order.{NotSurrogate, codes-NotSurrogate}

-- A code point other than NUL.
abbrev IsInk : ℕ → Type 0
IsInk c = (0 < c) × (c < 0x110000)

abbrev pub NoNul : Text → Type 0
NoNul = All IsInk

NoNul-append : (xs ys : Text) → NoNul xs → NoNul ys → NoNul (xs ++ ys)
NoNul-append = All-append IsInk

write_char-NoNul : (c : ℕ) → c < 0x110000 → NoNul (write_char c)
unfolding write_char
write_char-NoNul c h = ground arith

write_chars-NoNul : (cs : Text) → All NotSurrogate cs → NoNul (write_chars cs)
unfolding write_chars
write_chars-NoNul [] h = tt
write_chars-NoNul (c ∷ cs) h =
    NoNul-append (write_char c) (write_chars cs) (write_char-NoNul c (ground (arith, h.0)))
      (write_chars-NoNul cs h.1)

write_string-NoNul : (s : String) → NoNul (write_string s)
unfolding write_string
write_string-NoNul s = (
  omega arith,
  NoNul-append (write_chars (codes s)) _ (write_chars-NoNul (codes s) (codes-NotSurrogate s))
      (omega arith),
)

pub codes-join : (s t : String) → codes (join s t) ≡ codes s ++ codes t
codes-join String.[] t = rw (append.nil t)
codes-join (String.◌∷◌ c s) t = rw (append.cons c s t) (ap (◌∷◌ (code c)) (codes-join s t))

NoNul-if :
    (b : Bool) (s t : String)
    → NoNul (codes s)
    → NoNul (codes t)
    → NoNul (codes (if b then s else t))
NoNul-if true s t hs ht = hs
NoNul-if false s t hs ht = ht

digit-NoNul : (d : ℕ) → NoNul (codes (digit d))
digit-NoNul d = NoNul-if (d == 0) "0" _ (omega arith) (
    NoNul-if (d == 1) "1" _ (omega arith) (
      NoNul-if (d == 2) "2" _ (omega arith) (
        NoNul-if (d == 3) "3" _ (omega arith) (
          NoNul-if (d == 4) "4" _ (omega arith) (
            NoNul-if (d == 5) "5" _ (omega arith) (
              NoNul-if (d == 6) "6" _ (omega arith) (
                NoNul-if (d == 7) "7" _ (omega arith)
                  (NoNul-if (d == 8) "8" _ (omega arith) (omega arith)))))))))

show_fuel-NoNul : (f n : ℕ) → NoNul (codes (show_fuel f n))
unfolding show_fuel
show_fuel-NoNul zero n = tt
show_fuel-NoNul (suc f) n = elim (Bool-cases (n / 10 == 0)) [
  | inl e ↦ rw e (digit-NoNul n)
  | inr e ↦
      rw (e, codes-join)
        (NoNul-append (codes (show_fuel f (n / 10))) (codes (digit (n % 10)))
          (show_fuel-NoNul f (n / 10)) (digit-NoNul (n % 10)))
]

show_ℕ-NoNul : (n : ℕ) → NoNul (codes (show_ℕ n))
unfolding show_ℕ
show_ℕ-NoNul n = show_fuel-NoNul (n + 1) n

-- What a writer returns has no NUL, if it returns a text.
abbrev IsClean : CryptoResult Text → Type 0
IsClean (ok t) = NoNul t
IsClean (err _) = Unit

IsClean-bind :
    (r : CryptoResult Text) (f : Text → CryptoResult Text)
    → IsClean r
    → ((t : Text) → NoNul t → IsClean (f t))
    → IsClean (r >>= f)
IsClean-bind (ok t) f h k = k t h
IsClean-bind (err e) f h k = tt

write_number-IsClean : (n : Number) → IsClean (write_number n)
unfolding write_number show_ℤ
write_number-IsClean (pos_int n) = show_ℕ-NoNul n
write_number-IsClean (neg_int n) = rw codes-join (omega arith, show_ℕ-NoNul (n + 1))
write_number-IsClean (float printed) = tt

-- Every member's text is clean, and so is the text at any key.
abbrev AllClean : Keyed (CryptoResult Text) → Type 0
AllClean = All (λ m. IsClean m.1)

write_member-IsClean :
    (k : String) (ms : Keyed (CryptoResult Text))
    → AllClean ms
    → IsClean (write_member (lookup k ms))
unfolding lookup
write_member-IsClean k [] h = tt
write_member-IsClean k ((j, r) ∷ ms) h = elim (Bool-cases (str_eq j k)) [
  | inl e ↦ rw e h.0
  | inr e ↦ rw e (write_member-IsClean k ms h.1)
]

comma-NoNul : (first : Bool) → NoNul (comma first)
comma-NoNul true = tt
comma-NoNul false = omega arith

write_members-IsClean :
    (first : Bool) (ks : List String) (ms : Keyed (CryptoResult Text))
    → AllClean ms
    → IsClean (write_members first ks ms)
unfolding write_members
write_members-IsClean first [] ms h = tt
write_members-IsClean first (k ∷ ks) ms h =
    IsClean-bind (write_member (lookup k ms)) _ (write_member-IsClean k ms h) λ t ht.
      IsClean-bind (write_members false ks ms) _ (write_members-IsClean false ks ms h) λ u hu.
        NoNul-append (comma first) _ (comma-NoNul first) (
          NoNul-append (write_string k) _ (write_string-NoNul k)
            (omega arith, NoNul-append t u ht hu))

mutual
  unfolding write_value

  write_value-IsClean : (v : Value) → IsClean (write_value v)
  write_value-IsClean null = omega arith
  write_value-IsClean (bool true) = omega arith
  write_value-IsClean (bool false) = omega arith
  write_value-IsClean (number n) = write_number-IsClean n
  write_value-IsClean (string s) = write_string-NoNul s
  write_value-IsClean (array xs) =
      IsClean-bind (write_items true xs) _ (write_items-IsClean true xs)
        λ t ht. (omega arith, NoNul-append t _ ht (omega arith))
  write_value-IsClean (object fs) =
      IsClean-bind (write_members true (sort_by utf16_cmp (keys (members fs))) (members fs)) _
        (write_members-IsClean true (sort_by utf16_cmp (keys (members fs))) (members fs)
          (members-AllClean fs))
        λ t ht. (omega arith, NoNul-append t _ ht (omega arith))

  write_items-IsClean : (first : Bool) (xs : Items) → IsClean (write_items first xs)
  write_items-IsClean first nil = tt
  write_items-IsClean first (cons v xs) =
      IsClean-bind (write_value v) _ (write_value-IsClean v) λ t ht.
        IsClean-bind (write_items false xs) _ (write_items-IsClean false xs)
          λ u hu. NoNul-append (comma first) _ (comma-NoNul first) (NoNul-append t u ht hu)

  members-AllClean : (fs : Fields) → AllClean (members fs)
  members-AllClean end = tt
  members-AllClean (field k v fs) = (write_value-IsClean v, members-AllClean fs)

-- No byte is NUL.
abbrev pub NonZero : List ℕ → Type 0
NonZero = All (λ c. 0 < c)

utf8_char-NonZero : (c : ℕ) → 0 < c → NonZero (utf8_char c)
unfolding utf8_char
utf8_char-NonZero c h = ground arith

utf8-NonZero : (t : Text) → NoNul t → NonZero (utf8 t)
unfolding utf8
utf8-NonZero [] h = tt
utf8-NonZero (c ∷ cs) h =
    All-append (λ b. 0 < b) (utf8_char c) (utf8 cs) (utf8_char-NonZero c h.0.0)
      (utf8-NonZero cs h.1)

-- The text that is written for a value.
pub write_value-NoNul : (v : Value) (t : Text) → write_value v ≡ ok t → NoNul t
write_value-NoNul v t h = rw h at (write_value-IsClean v)

-- The canonical form of a value, where it has one, holds no NUL byte.
pub canonicalize-NonZero : (v : Value) (c : List ℕ) → canonicalize v ≡ ok c → NonZero c
unfolding canonicalize
canonicalize-NonZero v c h =
    let (t, p, q) = >>=-eq-ok (write_value v) (λ t. ok (utf8 t)) h in
    subst NonZero (cc q) (utf8-NonZero t (write_value-NoNul v t p))
