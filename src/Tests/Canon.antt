-- ===== src/Tests/Canon.antt =====
-- core/iedb-crypto/src/jcs.rs and desktop/hammurabi-handoff/src/mesh.rs at concrete inputs.
use hammurabi_handoff.Prelude.{
  ◌↔◌, ◌∙◌, ℕ, ◌≤◌, ◌≡◌, refl, arith, String, true, false, [], ◌∷◌, ◌++◌, ok, is_ok, show_ℕ,
  show_fuel,
}
use hammurabi_handoff.Prelude.Int.{negsuc, bits_of_i64}
use hammurabi_handoff.Sort.{sort_by, insert_by}
use hammurabi_handoff.Json.{
  Value, null, natural, string, object, array, field, end, cons, nil, number, float,
}
use hammurabi_handoff.Crypto.{Bytes}
use hammurabi_handoff.Jcs.{
  canonicalize, write_value, write_members, write_number, canonical_message, utf8, i64_le_bytes,
  le_bytes, utf8_char, write_char, write_string,
}
use hammurabi_handoff.Jcs.Utf16.{utf16_cmp, encode_utf16, lex_cmp}
use hammurabi_handoff.Jcs.Unique.{canonicalize_injective, canonical_message_iff}
use hammurabi_handoff.Jcs.Reorder.{
  Reordered, in_object, in_array, same, item, no_items, swap, canonicalize-Reordered,
}
use hammurabi_handoff.Jcs.Integers.{is_ok-canonicalize, has_float, keys_distinct}
use hammurabi_handoff.Mesh.{fetch_seq, append_line, info, intent, feed, new}
use hammurabi_handoff.Mesh.Window.{Line, message, post_all, history, window, feed-post_all}
use hammurabi_handoff.Mesh.Race.{
  Shared, Reach, start, fetch, store, here, next, occurs, feed_numbers_once, posts_out_of_order,
}
use hammurabi_handoff.Tests.Toy.{differ}

abbrev ab : Value
ab = object (field "a" (natural 1) (field "b" (string "x") end))

abbrev ba : Value
ba = object (field "b" (string "x") (field "a" (natural 1) end))

-- The canonical form of both.
abbrev ab_bytes : Bytes
ab_bytes =
    b'{' ∷ b'"' ∷ b'a' ∷ b'"' ∷ b':' ∷ b'1' ∷ b',' ∷ b'"' ∷ b'b' ∷ b'"' ∷ b':' ∷ b'"' ∷ b'x' ∷ b'"'
    ∷ b'}' ∷ []

canonicalize-ba : canonicalize ba ≡ ok ab_bytes
unfolding canonicalize write_value write_members sort_by insert_by utf16_cmp encode_utf16 lex_cmp
    write_number show_ℕ show_fuel write_string write_char utf8 utf8_char
canonicalize-ba = refl

canonicalize-ab : canonicalize ab ≡ ok ab_bytes
canonicalize-ab = canonicalize-Reordered (in_object (swap (differ "a" "b" refl))) ∙ canonicalize-ba

canonicalize_injective_example : Reordered ab ba
unfolding keys_distinct
canonicalize_injective_example =
    canonicalize_injective ab ba ab_bytes refl refl canonicalize-ab canonicalize-ba

canonicalize-Reordered_example :
    canonicalize (array (cons ab (cons null nil))) ≡ canonicalize (array (cons ba (cons null nil)))
canonicalize-Reordered_example =
    canonicalize-Reordered
      (in_array (item (in_object (swap (differ "a" "b" refl))) (item same no_items)))

is_ok-canonicalize_example :
    is_ok (canonicalize (array (cons ab (cons (number (float "0.5")) nil)))) ≡ false
unfolding has_float keys_distinct
is_ok-canonicalize_example =
    is_ok-canonicalize (array (cons ab (cons (number (float "0.5")) nil))) keys
  where
    keys : keys_distinct (array (cons ab (cons (number (float "0.5")) nil))) ≡ true
    keys = refl

abbrev signed_ba : Bytes
signed_ba = ab_bytes ++ (0 ∷ 255 ∷ 255 ∷ 255 ∷ 255 ∷ 255 ∷ 255 ∷ 255 ∷ 255 ∷ [])

canonical_message-ba : canonical_message ba (negsuc 0) ≡ ok signed_ba
unfolding canonical_message canonicalize write_value write_members sort_by insert_by utf16_cmp
    encode_utf16 lex_cmp write_number show_ℕ show_fuel write_string write_char utf8 utf8_char
    i64_le_bytes le_bytes bits_of_i64
canonical_message-ba = refl

canonical_message_iff_example :
    (canonical_message ab (negsuc 0) ≡ ok signed_ba) ↔ (Reordered ba ab × (negsuc 0 ≡ negsuc 0))
unfolding keys_distinct
canonical_message_iff_example =
    canonical_message_iff ba ab (negsuc 0) (negsuc 0) signed_ba refl refl (omega arith, omega arith)
      (omega arith, omega arith) canonical_message-ba

abbrev line_1 : Line
line_1 = record { sender = "a"; kind = info; body = "one" }

abbrev line_2 : Line
line_2 = record { sender = "b"; kind = intent; body = "two" }

abbrev noon : ℕ → String
noon _ = "noon"

feed-post_all_example :
    feed (post_all noon new (line_1 ∷ line_2 ∷ []))
    ≡ message noon 0 line_1 ∷ message noon 1 line_2 ∷ []
unfolding window history
feed-post_all_example = feed-post_all noon (line_1 ∷ line_2 ∷ []) (omega arith)

-- The same two posts, as steps: each takes its number and then the lock.
two_posts : Reach noon (start new) (record {
  bus = record { seq = 2; log = message noon 1 line_2 ∷ message noon 0 line_1 ∷ [] };
  waiting = [];
})
unfolding fetch_seq append_line
two_posts =
    next
      (next (next (next here (fetch line_1 (omega arith) refl)) (fetch line_2 (omega arith) refl))
        (store [] (message noon 0 line_1 ∷ []) (message noon 1 line_2) refl refl))
      (store [] [] (message noon 0 line_1) refl refl)

feed_numbers_once_example :
    (occurs 1 (message noon 1 line_2 ∷ message noon 0 line_1 ∷ []) ≤ 1)
    × (2 ≤ 1 → occurs 1 (message noon 1 line_2 ∷ message noon 0 line_1 ∷ []) ≡ 0)
feed_numbers_once_example = feed_numbers_once noon two_posts 1

posts_out_of_order_example :
    (u : Shared) × Reach noon (start new) u
    × (u.bus.log ≡ message noon 1 line_2 ∷ message noon 0 line_1 ∷ [])
posts_out_of_order_example = posts_out_of_order noon new line_1 line_2 (omega arith) (omega arith)
