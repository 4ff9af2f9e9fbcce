-- ===== src/Tests/Toy.antt =====
-- A small instance of the crates' functions, and sample data.
use Prim.Native.String.{char_at}
use Prim.Native.Char.{Char, code}
use hammurabi_handoff.Prelude.{
  ℕ, zero, suc, ◌+◌, ◌*◌, ◌%◌, ◌≡◌, refl, ap, ◌∙◌, arith, String, Bool, true, false, none, [], ◌∷◌,
  ◌==◌, ◌≢◌, str_eq, eq_iff, ◌&&◌, length, show_ℕ, Result, ok, err, if◌then◌else◌,
}
use hammurabi_handoff.Prelude.Int.{pos}
use hammurabi_handoff.Json.{Value, null}
use hammurabi_handoff.Crypto.{Bytes, Primitives, Laws}
use hammurabi_handoff.Intent.{AgentIntent, mock_eth_limit_order, payload}
use hammurabi_handoff.Receipts.{PaymentReceipt}
use hammurabi_handoff.Backend.{Http, mock, receipt_for}
use hammurabi_handoff.Mesh
use hammurabi_handoff.Gate.{X402Gate}
use hammurabi_handoff.Guard.{HandoffState}
use hammurabi_handoff.Server.{Env, SettleRequest}
use hammurabi_handoff.Vault.{MintEntropy}

abbrev bar : Char
bar = char_at "|" 0

abbrev stop : Char
stop = char_at "." 0

-- A byte as that many bars, and a full stop behind it.
bars : ℕ → String → String
bars zero s = String.◌∷◌ stop s
bars (suc n) s = String.◌∷◌ bar (bars n s)

unfoldable pub encode : Bytes → String
unfolding bars
encode [] = ""
encode (b ∷ bs) = bars b (encode bs)

abbrev prepend : ℕ → Result String Bytes → Result String Bytes
prepend n (ok bs) = ok (n ∷ bs)
prepend n (err why) = err why

unfoldable pub decode : ℕ → String → Result String Bytes
decode n String.[] = if n == 0 then ok [] else err "Odd number of digits"
decode n (String.◌∷◌ c s) =
    let done = prepend n (decode 0 s) in
    let more = decode (suc n) s in if code c == b'.' then done else more

decode-bars : (b n : ℕ) (s : String) → decode n (bars b s) ≡ prepend (b + n) (decode 0 s)
unfolding decode bars
decode-bars zero n s = ap (λ k. prepend k (decode 0 s)) (omega arith)
decode-bars (suc b) n s = decode-bars b (suc n) s ∙ ap (λ k. prepend k (decode 0 s)) (omega arith)

decode-encode : (bs : Bytes) → decode 0 (encode bs) ≡ ok bs
unfolding encode decode
decode-encode [] = refl
decode-encode (b ∷ bs) =
    decode-bars b 0 (encode bs) ∙ rw (decode-encode bs) (ap (λ k. ok (k ∷ bs)) (omega arith))

-- The sum of a text's bytes.
abbrev pub total : Bytes → ℕ
total [] = 0
total (b ∷ bs) = b + total bs

abbrev pub replicate : ℕ → ℕ → Bytes
replicate zero b = []
replicate (suc n) b = b ∷ replicate n b

pub length-replicate : (n b : ℕ) → length (replicate n b) ≡ n
length-replicate zero b = refl
length-replicate (suc n) b = ap suc (length-replicate n b)

abbrev pub same : Bytes → Bytes → Bool
same [] [] = true
same (x ∷ xs) (y ∷ ys) = (x == y) && same xs ys
same _ _ = false

pub same_refl : (bs : Bytes) → same bs bs ≡ true
same_refl [] = refl
same_refl (b ∷ bs) = ground (arith, same_refl bs)

-- The key of a seed, and the signature of a message under a key.
abbrev pub toy_key : Bytes → Bytes
toy_key seed = replicate 32 (total seed % 256)

abbrev toy_signature : Bytes → Bytes → Bytes
toy_signature key msg = replicate 64 ((total msg + 3 * total key) % 251)

unfoldable pub toy : Primitives
toy = record {
  blake3 = λ bytes. bytes;
  verifying_key = toy_key;
  sign = λ seed msg. toy_signature (toy_key seed) msg;
  key_error = λ _. none;
  verify = λ key msg signature. same signature (toy_signature key msg);
  hex_encode = encode;
  hex_decode = decode 0;
}

pub toy-Laws : Laws toy
unfolding toy
toy-Laws = record {
  key_accepted = λ _. refl;
  verify-sign = λ seed msg. same_refl (toy_signature (toy_key seed) msg);
  length-verifying_key = λ seed. length-replicate 32 (total seed % 256);
  length-sign = λ seed msg. length-replicate 64 ((total msg + 3 * total (toy_key seed)) % 251);
  hex_decode-hex_encode = decode-encode;
}

abbrev pub sample_entropy : MintEntropy
sample_entropy = record {
  seed = 1 ∷ 2 ∷ [];
  stranger_seed = 4 ∷ [];
  trial_bit = λ i. 60 * i;
  ulid = "cred-1";
}

abbrev pub intent_1 : AgentIntent
intent_1 = mock_eth_limit_order "i-1"

abbrev pub order_1 : Value
order_1 = payload intent_1

abbrev pub receipt_1 : PaymentReceipt
receipt_1 = receipt_for "r-1" "i-1" (pos 100)

-- A stack that answers every request, and accepts every payment.
abbrev pub toy_http : Http
toy_http = record {
  send = λ _ _ _. ok (200, null);
  status_text = show_ℕ;
  decode_verify = λ _. ok (record { is_valid = true; invalid_reason = none });
  decode_settle = λ _. ok (record { success = true; transaction = none; error_reason = none });
}

abbrev pub gate_1 : X402Gate
gate_1 = record { receipts = ("r-1", receipt_1) ∷ []; backend = mock }

abbrev pub state_1 : HandoffState
state_1 = record { mesh = Mesh.new; gate = gate_1 }

abbrev pub env_at : ℕ → String → Env
env_at now ulid = record {
  now = pos now;
  stamp = λ _. "noon";
  ulid = ulid;
  entropy = sample_entropy;
}

abbrev pub settle_1 : SettleRequest
settle_1 = record { intent_id = "i-1"; payment = none }

pub differ : (s t : String) → str_eq s t ≡ false → s ≢ t
differ s t h e = cc (h, (eq_iff s t).1 e)
