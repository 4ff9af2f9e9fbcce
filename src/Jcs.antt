-- ===== src/Jcs.antt =====
-- core/iedb-crypto/src/jcs.rs: the canonical byte form of a JSON value, and the message that is
-- signed. A function that pushes onto `out: &mut String` returns the text that it pushes, as code
-- points; the caller's pushes are the concatenation.
pub mod Utf16
pub mod Order
pub mod Reorder
pub mod Integers
pub mod Ink
pub mod Decimal
pub mod Rounds
pub mod Objects
pub mod Unique
pub mod Lookup
pub mod Openers
pub mod Agreement
pub mod Chars
pub mod Message
pub mod Signing
use Prim.Native.Nat.{Ordering}
use hammurabi_handoff.Prelude.{
  ℕ, ◌+◌, ◌-◌, ◌*◌, ◌/◌, ◌%◌, ◌^◌, String, Bool, true, false, List, [], ◌∷◌, ◌++◌, map, Option,
  none, some, ltb, ◌==◌, codes, show_ℕ, ◌<>◌, Result, ok, err, ◌>>=◌, if◌then◌else◌,
}
use hammurabi_handoff.Prelude.Int.{ℤ, show_ℤ, negsuc, bits_of_i64}
use hammurabi_handoff.Prelude.Keyed.{Keyed, lookup}
use hammurabi_handoff.Json.{
  Number, pos_int, neg_int, float, Value, null, bool, number, string, array, object, Items, nil,
  cons, Fields, end, field,
}
use hammurabi_handoff.Sort.{sort_by}
use hammurabi_handoff.Crypto.{CryptoError, CryptoResult, canonicalization}
use Utf16.{utf16_cmp}

-- A text as code points, and its UTF-8 bytes.
abbrev pub Text : Type 0
Text = List ℕ

unfoldable pub write_number : Number → CryptoResult Text
unfolding show_ℕ show_ℤ
write_number (pos_int n) = ok (codes (show_ℕ n))
write_number (neg_int n) = ok (codes (show_ℤ (negsuc n)))
write_number (float printed) = err (
    canonicalization (
      "non-integer number `" <> printed
      <> "` is not canonicalizable in the integer-only signing subset; floats are refused by construction"))

-- A lower-case hexadecimal digit, as `{:x}` prints it.
abbrev hex_digit : ℕ → ℕ
hex_digit d = if ltb d 10 then b'0' + d else b'a' + d - 10

-- One round of the loop of `write_string`.
unfoldable pub write_char : ℕ → Text
write_char c =
    if c == b'"'
    then b'\\' ∷ b'"' ∷ []
    else if c == b'\\'
    then b'\\' ∷ b'\\' ∷ []
    else if c == 8
    then b'\\' ∷ b'b' ∷ []
    else if c == 12
    then b'\\' ∷ b'f' ∷ []
    else if c == 10
    then b'\\' ∷ b'n' ∷ []
    else if c == 13
    then b'\\' ∷ b'r' ∷ []
    else if c == 9
    then b'\\' ∷ b't' ∷ []
    else if ltb c 32
    then b'\\' ∷ b'u' ∷ b'0' ∷ b'0' ∷ hex_digit (c / 16) ∷ hex_digit (c % 16) ∷ []
    else c ∷ []

write_chars : Text → Text
write_chars [] = []
write_chars (c ∷ cs) = write_char c ++ write_chars cs

unfoldable pub write_string : String → Text
unfolding write_chars write_char
write_string s = b'"' ∷ (write_chars (codes s) ++ b'"' ∷ [])

-- `if i > 0 { out.push(',') }`.
abbrev pub comma : Bool → Text
comma first = if first then [] else b',' ∷ []

-- `if let Some(v) = map.get(*key) { write_value(v, out)? }`, given what each member writes.
abbrev pub write_member : Option (CryptoResult Text) → CryptoResult Text
write_member none = ok []
write_member (some r) = r

-- The loop over the sorted keys.
unfoldable pub write_members : Bool → List String → Keyed (CryptoResult Text) → CryptoResult Text
unfolding write_string lookup
write_members first [] ms = ok []
write_members first (k ∷ ks) ms = do
  t ← write_member (lookup k ms)
  rest ← write_members false ks ms
  ok (comma first ++ (write_string k ++ (b':' ∷ (t ++ rest))))

-- `map.keys()`.
abbrev pub keys {ℓ} : {V : Type ℓ} → Keyed V → List String
keys [] = []
keys ((k, _) ∷ m) = k ∷ keys m

unfoldable mutual
  pub write_value : Value → CryptoResult Text
  write_value null = ok (codes "null")
  write_value (bool true) = ok (codes "true")
  write_value (bool false) = ok (codes "false")
  write_value (number n) = write_number n
  write_value (string s) = ok (write_string s)
  write_value (array xs) = do t ← write_items true xs; ok (b'[' ∷ (t ++ b']' ∷ []))
  write_value (object fs) = do
    t ← (let ms = members fs in write_members true (sort_by utf16_cmp (keys ms)) ms)
    ok (b'{' ∷ (t ++ b'}' ∷ []))

  -- The loop over an array's items.
  pub write_items : Bool → Items → CryptoResult Text
  write_items first nil = ok []
  write_items first (cons x xs) = do
    t ← write_value x
    rest ← write_items false xs
    ok (comma first ++ (t ++ rest))

  -- What `write_value` writes for each member of a map.
  pub members : Fields → Keyed (CryptoResult Text)
  members end = []
  members (field k v fs) = (k, write_value v) ∷ members fs

-- `String::into_bytes`: the UTF-8 encoding of one code point, and of a text.
unfoldable pub utf8_char : ℕ → List ℕ
utf8_char c =
    if ltb c 0x80
    then c ∷ []
    else if ltb c 0x800
    then (0xc0 + c / 64) ∷ (0x80 + c % 64) ∷ []
    else if ltb c 0x10000
    then (0xe0 + c / 4096) ∷ (0x80 + c / 64 % 64) ∷ (0x80 + c % 64) ∷ []
    else (0xf0 + c / 262144) ∷ (0x80 + c / 4096 % 64) ∷ (0x80 + c / 64 % 64) ∷ (0x80 + c % 64) ∷ []

unfoldable pub utf8 : Text → List ℕ
unfolding utf8_char
utf8 [] = []
utf8 (c ∷ cs) = utf8_char c ++ utf8 cs

unfoldable pub canonicalize : Value → CryptoResult (List ℕ)
canonicalize v = do out ← write_value v; ok (utf8 out)

-- `n.to_le_bytes()` of a w-byte pattern.
unfoldable pub le_bytes : ℕ → ℕ → List ℕ
le_bytes ℕ.zero n = []
le_bytes (ℕ.suc w) n = (n % 256) ∷ le_bytes w (n / 256)

-- `timestamp.to_le_bytes()`.
unfoldable pub i64_le_bytes : ℤ → List ℕ
i64_le_bytes t = le_bytes 8 (bits_of_i64 t)

-- `canonical(params) ‖ 0x00 ‖ timestamp_le`.
unfoldable pub canonical_message : Value → ℤ → CryptoResult (List ℕ)
canonical_message params timestamp = do
  msg ← canonicalize params
  ok (msg ++ (0 ∷ i64_le_bytes timestamp))
