-- ===== src/Prelude/Keyed.antt =====
-- A map keyed by texts, as an association list: `HashMap` and `BTreeMap` with `String` keys. An
-- insertion replaces the value of a key that is there.
use hammurabi_handoff.Prelude.{
  ◌≡◌, refl, Option, none, some, List, [], ◌∷◌, arith, eq_iff, str_eq, String, if◌then◌else◌,
}

abbrev pub Keyed {ℓ} : Type ℓ → Type ℓ
Keyed V = List (String × V)

module _ {ℓ} {V : Type ℓ} where
  -- `map.get(k)`.
  unfoldable pub lookup : String → Keyed V → Option V
  lookup k [] = none
  lookup k ((j, v) ∷ m) = if str_eq j k then some v else lookup k m

  -- `map.remove(k)`, the map that is left.
  unfoldable pub remove : String → Keyed V → Keyed V
  remove k [] = []
  remove k ((j, v) ∷ m) = let rest = remove k m in if str_eq j k then rest else (j, v) ∷ rest

  -- `map.insert(k, v)`.
  unfoldable pub insert : String → V → Keyed V → Keyed V
  insert k v [] = (k, v) ∷ []
  insert k v ((j, w) ∷ m) = if str_eq j k then (k, v) ∷ m else (j, w) ∷ insert k v m

  -- Each key once.
  abbrev pub Distinct : Keyed V → Type ℓ
  Distinct [] = Unit
  Distinct ((k, v) ∷ m) = (lookup k m ≡ none) × Distinct m

  pub lookup-remove :
      (k j : String) (m : Keyed V)
      → lookup j (remove k m) ≡ (if str_eq k j then none else lookup j m)
  unfolding lookup remove
  lookup-remove k j [] = ground arith
  lookup-remove k j ((i, v) ∷ m) =
      ground (arith, lookup-remove k j m, eq_iff i k, eq_iff i j, eq_iff k j)

  -- A reader of key `other` sees the new value exactly if the keys are the same.
  pub lookup-insert :
      (key other : String) (new : V) (table : Keyed V)
      → lookup other (insert key new table)
        ≡ (if str_eq key other then some new else lookup other table)
  unfolding lookup insert
  lookup-insert key other new [] = refl
  lookup-insert key other new ((first, old) ∷ rest) = ground (
    arith,
    lookup-insert key other new rest,
    eq_iff first key,
    eq_iff first other,
    eq_iff key other,
  )
