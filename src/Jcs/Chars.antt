-- ===== src/Jcs/Chars.antt =====
-- core/iedb-crypto/src/jcs.rs, `write_string` and `String::into_bytes`: a text can be read off the
-- front of what is written, and the bytes determine the text.
use mathlib.Core.List.{append_assoc}
use hammurabi_handoff.Prelude.{
  ℕ, ◌<◌, ◌≡◌, ◌≢◌, refl, sym, arith, String, List, [], ◌∷◌, ◌++◌, All, codes,
}
use hammurabi_handoff.Jcs.{Text, write_char, write_chars, write_string, utf8_char, utf8}
use hammurabi_handoff.Jcs.Order.{codes_injective}

write_char_unique :
    (c d : ℕ) (r s : Text) → write_char c ++ r ≡ write_char d ++ s → (c ≡ d) × (r ≡ s)
unfolding write_char
write_char_unique c d r s h = ground arith

-- A code point is never written as the closing quote.
write_char-ne-quote : (c : ℕ) (r s : Text) → write_char c ++ r ≢ b'"' ∷ s
unfolding write_char
write_char-ne-quote c r s h = ground arith

write_chars_unique :
    (cs ds r s : Text)
    → write_chars cs ++ (b'"' ∷ r) ≡ write_chars ds ++ (b'"' ∷ s)
    → (cs ≡ ds) × (r ≡ s)
unfolding write_chars
write_chars_unique [] [] r s h = (refl, cc h)
write_chars_unique [] (d ∷ ds) r s h = absurd (
    write_char-ne-quote d (write_chars ds ++ (b'"' ∷ s)) r
      (cc (h, append_assoc (write_char d) (write_chars ds) (b'"' ∷ s))))
write_chars_unique (c ∷ cs) [] r s h = absurd (
    write_char-ne-quote c (write_chars cs ++ (b'"' ∷ r)) s
      (cc (h, append_assoc (write_char c) (write_chars cs) (b'"' ∷ r))))
write_chars_unique (c ∷ cs) (d ∷ ds) r s h =
    let (p, q) =
      write_char_unique c d (write_chars cs ++ (b'"' ∷ r)) (write_chars ds ++ (b'"' ∷ s))
        (rw (append_assoc, append_assoc) at h) in
    let (ps, rest) = write_chars_unique cs ds r s q in (cc (p, ps), rest)

utf8_char_unique :
    (c d : ℕ) (r s : List ℕ)
    → c < 0x110000
    → d < 0x110000
    → utf8_char c ++ r ≡ utf8_char d ++ s
    → (c ≡ d) × (r ≡ s)
unfolding utf8_char
utf8_char_unique c d r s hc hd h = ground arith

-- The text of a key or of a string is determined by what is written.
pub write_string_unique :
    (j k : String) (r s : Text) → write_string j ++ r ≡ write_string k ++ s → (j ≡ k) × (r ≡ s)
unfolding write_string
write_string_unique j k r s h =
    let (p, q) = write_chars_unique (codes j) (codes k) r s (
      cc (
        h,
        append_assoc (write_chars (codes j)) (b'"' ∷ []) r,
        append_assoc (write_chars (codes k)) (b'"' ∷ []) s,
      )) in
    (codes_injective j k p, q)

utf8_char-ne-end : (c : ℕ) (r : List ℕ) → utf8_char c ++ r ≢ []
unfolding utf8_char
utf8_char-ne-end c r h = ground arith

-- The encoding of code points determines them.
pub utf8_injective :
    (cs ds : Text)
    → All (λ c. c < 0x110000) cs
    → All (λ c. c < 0x110000) ds
    → utf8 cs ≡ utf8 ds
    → cs ≡ ds
unfolding utf8
utf8_injective [] [] hc hd h = refl
utf8_injective [] (d ∷ ds) hc hd h = absurd (utf8_char-ne-end d (utf8 ds) (sym h))
utf8_injective (c ∷ cs) [] hc hd h = absurd (utf8_char-ne-end c (utf8 cs) h)
utf8_injective (c ∷ cs) (d ∷ ds) hc hd h =
    let (p, q) = utf8_char_unique c d (utf8 cs) (utf8 ds) hc.0 hd.0 h in
    cc (p, utf8_injective cs ds hc.1 hd.1 q)
