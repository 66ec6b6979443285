-- ===== src/Base/Entries.antt =====
-- Properties of all entries of a list, through maps, filters and searches.
use Prim.Native.Nat.{ℕ}
use mathlib.Core.Path.{◌≡◌, refl}
use mathlib.Core.Logic.{inl, inr}
use mathlib.Core.Bool.{Bool, true}
use mathlib.Core.Option.{some}
use mathlib.Core.List.{List, [], ◌∷◌, map}
use native.Mathlib.Omega.{arith}
use monowm.Base.Tests.{Bool-cases}
use monowm.Base.Lists.{keep, find_by, All}

-- Properties of all entries of a list that was mapped or filtered.
pub All-of_map {ℓ κ} :
    {A : Type ℓ} (P Q : A → Type κ) (f : A → A)
    → ((a : A) → P a → Q (f a))
    → (xs : List A) → All P xs
    → All Q (map f xs)
All-of_map P Q f h [] p = tt
All-of_map P Q f h (x ∷ xs) p = (h x p.0, All-of_map P Q f h xs p.1)

pub All-of_keep {ℓ κ} :
    {A : Type ℓ} (P Q : A → Type κ) (t : A → Bool)
    → ((a : A) → t a ≡ true → P a → Q a)
    → (xs : List A) → All P xs
    → All Q (keep t xs)
All-of_keep P Q t h [] p = tt
All-of_keep P Q t h (x ∷ xs) p = elim (Bool-cases (t x)) [
  | inl e ↦ rw e (h x e p.0, All-of_keep P Q t h xs p.1)
  | inr e ↦ rw e (All-of_keep P Q t h xs p.1)
]

pub All-found {ℓ κ} :
    {A : Type ℓ} (P : A → Type κ) (t : A → Bool) (xs : List A) (x : A)
    → find_by t xs ≡ some x
    → All P xs
    → P x
All-found P t [] x e p = absurd cc
All-found P t (y ∷ ys) x e p = elim (Bool-cases (t y)) [
  | inl f ↦ let same : y ≡ x = (let q = rw f at e in cc) in rw (← same) p.0
  | inr f ↦ All-found P t ys x (rw f at e) p.1
]

pub map-same {ℓ κ} :
    {A : Type ℓ} {B : Type κ} (id : A → B) (f : A → A)
    → ((a : A) → id (f a) ≡ id a)
    → (xs : List A) → map id (map f xs) ≡ map id xs
map-same id f h [] = refl
map-same id f h (x ∷ xs) = rw (h x, map-same id f h xs) refl

pub map-keep {ℓ} :
    {A : Type ℓ} (id : A → ℕ) (t : ℕ → Bool) (xs : List A)
    → map id (keep (λ x. t (id x)) xs) ≡ keep t (map id xs)
map-keep id t [] = refl
map-keep id t (x ∷ xs) = ground (arith, map-keep id t xs)
