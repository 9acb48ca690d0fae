-- ===== src/Base/Maps.antt =====
-- A `std::map` as an association list; the order of the keys plays no part in what is modelled.
use zwaved.Base.Tests.{◌==◌, if◌then◌else◌, ==_iff, Bool-cases}
use Prim.Native.Nat.{ℕ}
use mathlib.Core.Path.{◌≡◌, refl, sym, ap, subst, ◌∙◌}
use mathlib.Core.Bool.{Bool, true, ◌&&◌}
use mathlib.Core.Logic.{◌↔◌, inl, inr}
use mathlib.Core.Option.{Option, none, some}
use mathlib.Core.List.{List, [], ◌∷◌}
use native.Mathlib.Omega.{arith}

-- Keys with a test for equality.
pub record Key {ℓ} (K : Type ℓ) : Type ℓ where
  pub same : K → K → Bool
  pub same_iff : (a b : K) → (same a b ≡ true) ↔ (a ≡ b)

instance abbrev pub number_key : Key ℕ
number_key = record { same = ◌==◌; same_iff = ==_iff }

abbrev pub same_pair : ℕ × ℕ → ℕ × ℕ → Bool
same_pair a b = (a.0 == b.0) && (a.1 == b.1)

pub same_pair_iff : (a b : ℕ × ℕ) → (same_pair a b ≡ true) ↔ (a ≡ b)
same_pair_iff a b = ground arith

instance abbrev pub pair_key : Key (ℕ × ℕ)
pair_key = record { same = same_pair; same_iff = same_pair_iff }

module _ {ℓ κ} {K : Type ℓ} {V : Type κ} ⦃k : Key K⦄ where
  open k use {same, same_iff}

  -- `find`.
  unfoldable pub lookup : List (K × V) → K → Option V
  lookup [] key = none
  lookup (entry ∷ entries) key = if same entry.0 key then some entry.1 else lookup entries key

  -- `insert_or_assign`: an old entry keeps its place.
  unfoldable pub assign : List (K × V) → K → V → List (K × V)
  assign [] key value = (key, value) ∷ []
  assign (entry ∷ entries) key value =
      if same entry.0 key then (key, value) ∷ entries else entry ∷ assign entries key value

  unfoldable pub erase : List (K × V) → K → List (K × V)
  erase [] key = []
  erase (entry ∷ entries) key =
      if same entry.0 key then erase entries key else entry ∷ erase entries key

  pub lookup-assign :
      (entries : List (K × V)) (key : K) (value : V) (other : K)
      → lookup (assign entries key value) other
        ≡ (if same key other then some value else lookup entries other)
  unfolding lookup assign
  lookup-assign [] key value other = refl
  lookup-assign (entry ∷ entries) key value other = ground (
    arith,
    same_iff entry.0 key,
    same_iff entry.0 other,
    same_iff key other,
    lookup-assign entries key value other,
  )

  pub lookup-assign_self :
      (entries : List (K × V)) (key : K) (value : V)
      → lookup (assign entries key value) key ≡ some value
  lookup-assign_self entries key value =
      ground (arith, lookup-assign entries key value key, same_iff key key)

  pub lookup-erase :
      (entries : List (K × V)) (key other : K)
      → lookup (erase entries key) other ≡ (if same key other then none else lookup entries other)
  unfolding lookup erase
  lookup-erase [] key other = ground arith
  lookup-erase (entry ∷ entries) key other = ground (
    arith,
    same_iff entry.0 key,
    same_iff entry.0 other,
    same_iff key other,
    lookup-erase entries key other,
  )

  -- No key stands twice.
  abbrev pub Distinct : List (K × V) → Type κ
  Distinct [] = Unit
  Distinct (entry ∷ entries) = (lookup entries entry.0 ≡ none) × Distinct entries

  pub Distinct-assign :
      (entries : List (K × V)) (key : K) (value : V)
      → Distinct entries
      → Distinct (assign entries key value)
  unfolding lookup assign
  Distinct-assign [] key value h = (refl, tt)
  Distinct-assign (entry ∷ entries) key value h = ground (
    arith,
    h,
    same_iff entry.0 key,
    same_iff key entry.0,
    lookup-assign entries key value entry.0,
    Distinct-assign entries key value h.1,
  )

  pub Distinct-erase :
      (entries : List (K × V)) (key : K) → Distinct entries → Distinct (erase entries key)
  unfolding lookup erase
  Distinct-erase [] key h = tt
  Distinct-erase (entry ∷ entries) key h =
      ground (arith, h, lookup-erase entries key entry.0, Distinct-erase entries key h.1)

  -- What holds of the value of every key.
  abbrev pub AllValues {μ} : (V → Type μ) → List (K × V) → Type (ℓ ⊔ κ ⊔ μ)
  AllValues P entries = (key : K) (value : V) → lookup entries key ≡ some value → P value

module _ {ℓ κ μ} {K : Type ℓ} {V : Type κ} ⦃k : Key K⦄ (P : V → Type μ) (entries : List (K × V))
    (key : K) where
  pub AllValues-assign :
      (value : V) → AllValues P entries → P value → AllValues P (assign entries key value)
  AllValues-assign value all h other found e = elim (Bool-cases (k.same key other)) [
    | inl same ↦
        let here : some value ≡ some found =
          ap (λ (b : Bool). if b then some value else lookup entries other) (sym same)
          ∙ sym (lookup-assign entries key value other)
          ∙ e in
        subst P (cc) h
    | inr differs ↦ all other found (
        ap (λ (b : Bool). if b then some value else lookup entries other) (sym differs)
        ∙ sym (lookup-assign entries key value other)
        ∙ e)
  ]

  pub AllValues-erase : AllValues P entries → AllValues P (erase entries key)
  AllValues-erase all other found e = elim (Bool-cases (k.same key other)) [
    | inl same ↦ absurd (ground (arith, lookup-erase entries key other))
    | inr differs ↦ all other found (
        ap (λ (b : Bool). if b then none else lookup entries other) (sym differs)
        ∙ sym (lookup-erase entries key other)
        ∙ e)
  ]
