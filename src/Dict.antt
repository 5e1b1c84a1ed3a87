-- ===== src/Dict.antt =====
-- Python's dict: keys in the order in which they were first inserted.
use live_auto_trading.Prelude.{
  ◌≡◌, refl, Option, none, some, List, [], ◌∷◌, arith, Equality, ◌==◌, if◌then◌else◌, Bool-cases,
  inl, inr,
}
use mathlib.Core.Path.{subst}
use mathlib.Core.Option.{none-ne-some}

abbrev pub Dict {ℓ κ} : Type ℓ → Type κ → Type (ℓ ⊔ κ)
Dict K V = List (K × V)

-- `P` holds of every item.
abbrev pub All {ℓ κ} : {A : Type ℓ} → (A → Type κ) → List A → Type κ
All P [] = Unit
All P (x ∷ xs) = P x × All P xs

-- `P` holds of every value.
abbrev pub AllValues {ℓ κ} : {K : Type ℓ} {V : Type ℓ} → (V → Type κ) → Dict K V → Type κ
AllValues P [] = Unit
AllValues P ((k, v) ∷ d) = P v × AllValues P d

pub some_eq {ℓ} : {A : Type ℓ} {a b : A} → some a ≡ some b → a ≡ b
some_eq h = cc

module _ {ℓ} {K : Type ℓ} {V : Type ℓ} where
  -- `list(d.values())`
  unfoldable pub values : Dict K V → List V
  values [] = []
  values ((k, v) ∷ d) = v ∷ values d

module _ {ℓ} {K : Type ℓ} {V : Type ℓ} ⦃e : Equality K⦄ where
  -- `d.get(k)`
  unfoldable pub lookup : K → Dict K V → Option V
  lookup k [] = none
  lookup k ((j, v) ∷ d) = if j == k then some v else lookup k d

  -- `d[k] = v`
  unfoldable pub insert : K → V → Dict K V → Dict K V
  insert k v [] = (k, v) ∷ []
  insert k v ((j, w) ∷ d) = if j == k then (j, v) ∷ d else (j, w) ∷ insert k v d

  -- `del d[k]`
  unfoldable pub erase : K → Dict K V → Dict K V
  erase k [] = []
  erase k ((j, w) ∷ d) = if j == k then d else (j, w) ∷ erase k d

  pub lookup-insert_self : (k : K) (v : V) (d : Dict K V) → lookup k (insert k v d) ≡ some v
  unfolding lookup insert
  lookup-insert_self k v [] = rw ((e.decides k k).1 refl)
  lookup-insert_self k v ((j, w) ∷ d) = ground (arith, e.decides j k, lookup-insert_self k v d)

  pub lookup-insert :
      (k j : K) (v : V) (d : Dict K V)
      → lookup j (insert k v d) ≡ (if k == j then some v else lookup j d)
  unfolding lookup insert
  lookup-insert k j v [] = refl
  lookup-insert k j v ((i, w) ∷ d) =
      ground (arith, e.decides i k, e.decides i j, e.decides k j, lookup-insert k j v d)

module _ {ℓ κ} {K : Type ℓ} {V : Type ℓ} ⦃e : Equality K⦄ (P : V → Type κ) where
  pub AllValues-insert :
      (k : K) (v : V) (d : Dict K V) → P v → AllValues P d → AllValues P (insert k v d)
  unfolding insert
  AllValues-insert k v [] p h = (p, tt)
  AllValues-insert k v ((j, w) ∷ d) p h = elim (Bool-cases (j == k)) [
    | inl same ↦ rw same (p, h.1)
    | inr other ↦ rw other (h.0, AllValues-insert k v d p h.1)
  ]

  pub AllValues-erase : (k : K) (d : Dict K V) → AllValues P d → AllValues P (erase k d)
  unfolding erase
  AllValues-erase k [] h = h
  AllValues-erase k ((j, w) ∷ d) h = elim (Bool-cases (j == k)) [
    | inl same ↦ rw same h.1
    | inr other ↦ rw other (h.0, AllValues-erase k d h.1)
  ]

  pub AllValues-lookup : (k : K) (d : Dict K V) {v : V} → AllValues P d → lookup k d ≡ some v → P v
  unfolding lookup
  AllValues-lookup k [] h f = absurd (none-ne-some _ f)
  AllValues-lookup k ((j, w) ∷ d) h f = elim (Bool-cases (j == k)) [
    | inl same ↦ subst P (some_eq (rw same at f)) h.0
    | inr other ↦ AllValues-lookup k d h.1 (rw other at f)
  ]

pub All-values {ℓ κ} :
    {K : Type ℓ} {V : Type ℓ} (P : V → Type κ) (d : Dict K V) → AllValues P d → All P (values d)
unfolding values
All-values P [] h = tt
All-values P ((k, v) ∷ d) h = (h.0, All-values P d h.1)
