-- ===== src/Prelude/Texts.antt =====
-- Texts: whole texts are native strings, which the code compares and joins; where it walks a text,
-- the text is the list of its code points.
use Prim.Native.Nat.{ℕ, zero, suc, ◌+◌, ◌/◌, ◌%◌}
use Prim.Native.Char.{code}
use Prim.Native.String.{String}
use Prim.Native.String.{◌++◌ as join}
use mathlib.Core.List.{List, [], ◌∷◌}
use mathlib.Core.Bool.{Bool}
use text.Mathlib.Text.{◌==◌ as text_eq}
use hammurabi_handoff.Prelude.Tests.{◌==◌, if◌then◌else◌}

-- `&str == &str`.
abbrev pub str_eq : String → String → Bool
str_eq s t = text_eq s t

infixr 65 ◌<>◌
-- `format!` with pieces side by side.
abbrev pub ◌<>◌ : String → String → String
s <> t = join s t

-- The code points of a text.
abbrev pub codes : String → List ℕ
codes String.[] = []
codes (String.◌∷◌ c s) = code c ∷ codes s

-- One decimal digit.
abbrev pub digit : ℕ → String
digit d =
    if d == 0
    then "0"
    else if d == 1
    then "1"
    else if d == 2
    then "2"
    else if d == 3
    then "3"
    else if d == 4
    then "4"
    else if d == 5
    then "5"
    else if d == 6
    then "6"
    else if d == 7
    then "7"
    else if d == 8
    then "8"
    else "9"

unfoldable pub show_fuel : ℕ → ℕ → String
show_fuel zero n = ""
show_fuel (suc f) n =
    let rest = join (show_fuel f (n / 10)) (digit (n % 10)) in if n / 10 == 0 then digit n else rest

-- `n.to_string()`: the decimal text of a number; each round divides by ten, so `n + 1` rounds do.
unfoldable pub show_ℕ : ℕ → String
unfolding show_fuel
show_ℕ n = show_fuel (n + 1) n
