-- ===== src/Prelude/Ordered.antt =====
-- `BTreeMap` with `String` keys: the members in the order of their keys, by code points. Reading is
-- that of `Keyed`.
use Prim.Native.Nat.{Ordering}
use Prim.Native.String.{compare}
use hammurabi_handoff.Prelude.{
  All, eq_refl, ◌≡◌, refl, Option, none, some, List, [], ◌∷◌, arith, eq_iff, str_eq, String,
  if◌then◌else◌,
}
use hammurabi_handoff.Prelude.Keyed.{Keyed, Distinct, lookup}

module _ {ℓ} {V : Type ℓ} where
  -- `map.insert(k, v)`, in its place.
  unfoldable pub put : String → V → Keyed V → Keyed V
  put k v [] = (k, v) ∷ []
  put k v ((j, w) ∷ m) =
      let rest = put k v m in
      elim (compare k j) [
        | Ordering.lt ↦ (k, v) ∷ (j, w) ∷ m
        | Ordering.eq ↦ (k, v) ∷ m
        | Ordering.gt ↦ (j, w) ∷ rest
      ]

  -- The value at a key changed in place, as through `map.get_mut(k)`.
  unfoldable pub modify : String → (V → V) → Keyed V → Keyed V
  modify k f [] = []
  modify k f ((j, w) ∷ m) = if str_eq j k then (j, f w) ∷ m else (j, w) ∷ modify k f m

  -- `map.values()`.
  abbrev pub values : Keyed V → List V
  values [] = []
  values ((k, v) ∷ m) = v ∷ values m

  pub lookup-put :
      (key other : String) (new : V) (table : Keyed V)
      → lookup other (put key new table)
        ≡ (if str_eq key other then some new else lookup other table)
  unfolding lookup put
  lookup-put key other new [] = refl
  lookup-put key other new ((first, old) ∷ rest) = ground (
    arith,
    lookup-put key other new rest,
    eq_iff key first,
    eq_iff first key,
    eq_iff first other,
    eq_iff key other,
  )

  abbrev changed : (V → V) → Option V → Option V
  changed f none = none
  changed f (some v) = some (f v)

  pub lookup-modify :
      (key other : String) (f : V → V) (table : Keyed V)
      → lookup other (modify key f table)
        ≡ (if str_eq key other then changed f (lookup other table) else lookup other table)
  unfolding lookup modify
  lookup-modify key other f [] = ground arith
  lookup-modify key other f ((first, old) ∷ rest) = ground (
    arith,
    lookup-modify key other f rest,
    eq_iff first key,
    eq_iff first other,
    eq_iff key other,
  )

  pub All-values {κ} :
      (P : V → Type κ) (m : Keyed V)
      → Distinct m
      → ((k : String) (v : V) → lookup k m ≡ some v → P v)
      → All P (values m)
  unfolding lookup
  All-values P [] d h = tt
  All-values P ((j, w) ∷ m) d h = (
    h j w (ground (arith, eq_refl j)),
    All-values P m d.1 (λ k v e. h k v (ground (arith, e, d.0, eq_iff j k))),
  )
