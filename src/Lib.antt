-- ===== src/Lib.antt =====
-- Hammurabi Handoff: an agent announces a trade intent, pays a fee of 0.50 USDC, and gets back a
-- broadcast envelope signed by a credential that lives for 60 seconds.
--
-- The parts, and the files that model them:
--   Prelude, Json, Sort    what the parts share: texts, numbers, `i64` (Prelude/Int), maps as association
--                          lists (Prelude/Keyed), results (Prelude/Outcome); serde_json's values; sorting
--                          by a comparison, as `sort_by` of a slice does
--   Crypto, Jcs            core/iedb-crypto/src/crypto.rs and jcs.rs. `canonicalize`, `write_value`,
--                          `write_string`, `write_number`, `utf16_cmp`, `canonical_message`,
--                          `sign_payload`, `verify_payload` have the names of the code. The loops of
--                          `write_value` are `write_items` and `write_members`.
--                          Crypto/Keys has the X25519 keys, which Crypto/Scalar compares with RFC 7748,
--                          and the key file (`EncryptedKeystore`);
--                          `open`, a reserved word here, is `open_sealed`
--                          Jcs/Unique is about which values share a canonical form: Jcs/Chars and
--                          Jcs/Decimal read a text and a number off the front of what is written,
--                          Jcs/Objects an object
--   Aead                   core/iedb-crypto/src/aead.rs: `seal` and `open_sealed` between two keys
--   Merkle                 core/iedb-crypto/src/merkle/mod.rs: `append`, `recompute_peaks`, `proof`,
--                          `verify`; Merkle/Path climbs one tree, Merkle/Peaks finds the tree of a leaf,
--                          Merkle/Sound is about what `verify` accepts, Merkle/Exits about the loops,
--                          Merkle/Commitment about the root, over Merkle/Trees, one tree,
--                          Merkle/Inner about inner nodes that pass for leaves, Merkle/Exchange has the compact proofs and the JSON form
--   Tokens                 core/iedb-crypto/src/tokens/mod.rs: the ledger of Good Tokens. Tokens/Lifecycle
--                          has any sequence of calls and the machine of statuses, Tokens/Ledger what a
--                          ledger holds, Tokens/Merit the order of a ranking, Tokens/Ranking what the
--                          leaderboard shows
--   Mesh                   desktop/hammurabi-handoff/src/mesh.rs. `post` is `fetch_seq` and then
--                          `append_line`, the two accesses to shared state that it makes; Mesh/Race has
--                          them as steps of several threads.
--   Intent                 desktop/hammurabi-handoff/src/intent.rs
--   Receipts, Gate, Guard  desktop/hammurabi-handoff/src/x402.rs: the terms and receipts, the treasury
--                          (`settle`, `redeem`, `evict_stale`), the middleware `payment_guard`;
--                          Gate/Outside is the gate as its clients see it, Gate/Refinement the proof that
--                          the gate takes these steps
--   Backend                desktop/hammurabi-handoff/src/settlement_backend.rs, with the feature
--                          `x402-live`; `from_env_or_default` takes the feature as an argument.
--                          Backend/Accepted is about what a facilitator is sent, Backend/Url about its
--                          base address
--   Vault                  desktop/hammurabi-handoff/src/vault.rs: `mint`, `verify`, `chaos_test`.
--                          Vault/Accepted and Vault/Binding are about what is accepted,
--                          Vault/Probes is about the probes of `chaos_test`, Vault/Tamper about the
--                          payload that the first one makes
--   Settlement             desktop/hammurabi-handoff/src/settlement.rs: `package`, `verify_handoff`
--   Server                 desktop/hammurabi-handoff/src/server.rs: the handlers, and `handle`, the router
--                          with the guard in front of `execute`; Server/Delivery is about what a paying
--                          agent gets
--   Oka                    tooling/iedb-oka/src: `OkaError`, the types of interop.rs (Oka/Interop), the
--                          manifest and `validate` (Oka/Manifest), the client (Oka/Client)
--   Bridge                 desktop/hammurabi-handoff/src/okx_bridge.rs: `dispatch_okx` is `plan`, its match
--                          on the capability, and `oneshot_json`, one request through the router
--                          (Bridge/Transport); Bridge/Capability is about one invocation, Bridge/Loop
--                          and Bridge/Delivery about a payment and the execution that it pays for
--   Commands               desktop/hammurabi-handoff/src/commands.rs: the four commands;
--                          Commands/Agreement compares `dispatch` with the bridge's `oneshot_json`
--   App                    desktop/hammurabi-handoff/src/app.rs: `run` up to the event loop is `start`;
--                          App/Doors has any sequence of requests, commands and invocations, App/Answers
--                          what their callers are answered, App/Covered each door, App/Unread
--                          an intent id that no header carries as text
--   Tests                  the theorems at concrete inputs, over a small instance of the crates' functions
--
-- State is passed explicitly: `handle` takes a `HandoffState` (the bus and the gate) and gives the new one
-- with the response. A request runs from its first lock to its last without another one in between,
-- except in Mesh/Race, where posts interleave. The gate is changed by one critical section per request,
-- so the order of these is the order of the requests.
--
-- BLAKE3, Ed25519 and hex are `Primitives`, and `Laws` says what their crates document; SHA-2, the curve,
-- Argon2 and ChaCha20-Poly1305 are `Ciphers`, with `CipherLaws`; a ChaChaBox is `Boxes`, with `BoxLaws`.
-- What nobody forges of
-- the signature that a mint makes is `IsUnforged` (Vault/Probes): Ed25519 promises it up to a negligible
-- chance. The HTTP stack of the facilitator is `Http`; what http, axum and serde_json do with the headers and
-- bodies of an in-process request is `Wire`. An `f64` and its operations are `Floats`. The clock, ULIDs
-- and randomness are arguments (`Env`, `MintEntropy`, a salt, a nonce). A float in JSON stands for the
-- text that it prints. An object's members stand in the order in which the code writes them, those of an
-- intent's payload by key, as a sorted map has them. An extractor of axum gives a body or its own response.
--
-- Integers: `u64` counters wrap around at 2^64; `i64` sums wrap around as in a release build (`add_i64`,
-- `sub_i64`, `saturating_sub`); lengths and cents are numbers. The `while` loops of the Merkle forest
-- run on fuel: one round for each leaf that remains, which is enough (Merkle/Exits) since each round takes
-- or doubles at least one. `show_fuel` divides by ten and gets a round more than the number.
--
-- Not modelled: binding the listener, the window and the user interface, which are I/O;
-- wiping secrets from memory; parsing and printing JSON text, which belong to serde_json.
pub mod Prelude
pub mod Json
pub mod Sort
pub mod Crypto
pub mod Aead
pub mod Merkle
pub mod Tokens
pub mod Jcs
pub mod Mesh
pub mod Intent
pub mod Receipts
pub mod Backend
pub mod Gate
pub mod Vault
pub mod Settlement
pub mod Guard
pub mod Server
pub mod Oka
pub mod Bridge
pub mod Commands
pub mod App
pub mod Tests
