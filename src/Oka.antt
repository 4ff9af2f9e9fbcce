-- ===== src/Oka.antt =====
-- tooling/iedb-oka/src: the edge to the OKX marketplace; here its error.
pub mod Interop
pub mod Manifest
pub mod Client
use hammurabi_handoff.Prelude.{String, ◌<>◌, Result}

pub data OkaError : Type 0 where
  schema boundary : String → OkaError

unfoldable pub show_oka_error : OkaError → String
show_oka_error (schema why) = "schema error: " <> why
show_oka_error (boundary why) = "okx boundary error: " <> why

abbrev pub OkaResult {ℓ} : Type ℓ → Type ℓ
OkaResult A = Result OkaError A
