-- ===== src/Base/Lists.antt =====
-- Lists measured by native numbers, and membership of texts as a Boolean test.
use Prim.Native.Nat.{ℕ, zero, suc, ◌+◌}
use Prim.Native.String.{String}
use mathlib.Core.Path.{◌≡◌, refl, ap}
use mathlib.Core.Bool.{Bool, true, false, ◌||◌}
use mathlib.Core.Logic.{inl, inr}
use mathlib.Core.List.{List, [], ◌∷◌, ◌++◌}
use mathlib.Core.Option.{Option, none, some}
use native.Mathlib.Omega.{arith}
use text.Mathlib.Text.{◌==◌}
use text.Mathlib.TextEquality.{eq_iff}
use text.Mathlib.TextPositions.{eq_refl}
use otp_relay_backend.Base.Tests.{eqb, Bool-cases}

module _ {ℓ} {A : Type ℓ} where
  abbrev pub length : List A → ℕ
  length [] = 0
  length (x ∷ xs) = suc (length xs)

  pub length-append : (xs ys : List A) → length (xs ++ ys) ≡ length xs + length ys
  length-append [] ys = omega arith
  length-append (x ∷ xs) ys = omega (arith, length-append xs ys)

abbrev pub contains : List String → String → Bool
contains [] s = false
contains (x ∷ xs) s = x == s || contains xs s

abbrev pub All {ℓ κ} : {A : Type ℓ} → (A → Type κ) → List A → Type κ
All P [] = Unit
All P (x ∷ xs) = P x × All P xs

pub All-append {ℓ κ} :
    {A : Type ℓ} (P : A → Type κ) (xs ys : List A) → All P xs → All P ys → All P (xs ++ ys)
All-append P [] ys a b = b
All-append P (x ∷ xs) ys (p, a) b = (p, All-append P xs ys a b)

module _ {ℓ} {A : Type ℓ} where
  abbrev pub get_elem? : List A → ℕ → Option A
  get_elem? [] i = none
  get_elem? (x ∷ xs) zero = some x
  get_elem? (x ∷ xs) (suc i) = get_elem? xs i

  -- A write out of bounds changes nothing.
  abbrev pub set : List A → ℕ → A → List A
  set [] i v = []
  set (x ∷ xs) zero v = v ∷ xs
  set (x ∷ xs) (suc i) v = x ∷ set xs i v

  -- The sum of the weights of all elements.
  abbrev pub total : (A → ℕ) → List A → ℕ
  total weight [] = 0
  total weight (x ∷ xs) = weight x + total weight xs

  pub total-set :
      (weight : A → ℕ) (xs : List A) (i : ℕ) (x y : A)
      → get_elem? xs i ≡ some x
      → total weight (set xs i y) + weight x ≡ total weight xs + weight y
  total-set weight [] i x y e = ground arith
  total-set weight (z ∷ xs) zero x y e = let same : z ≡ x = ground arith in rw same (omega arith)
  total-set weight (z ∷ xs) (suc i) x y e = omega (arith, total-set weight xs i x y e)

  pub total-append :
      (weight : A → ℕ) (xs ys : List A)
      → total weight (xs ++ ys) ≡ total weight xs + total weight ys
  total-append weight [] ys = omega arith
  total-append weight (x ∷ xs) ys = omega (arith, total-append weight xs ys)

  pub All-get_elem? {κ} :
      (P : A → Type κ) (xs : List A) (i : ℕ) (x : A) → All P xs → get_elem? xs i ≡ some x → P x
  All-get_elem? P [] i x a e = ground arith
  All-get_elem? P (z ∷ xs) zero x (p, a) e = let same : z ≡ x = ground arith in rw same at p
  All-get_elem? P (z ∷ xs) (suc i) x (p, a) e = All-get_elem? P xs i x a e

  pub All-set {κ} :
      (P : A → Type κ) (xs : List A) (i : ℕ) (x : A) → All P xs → P x → All P (set xs i x)
  All-set P [] i x a p = a
  All-set P (z ∷ xs) zero x (q, a) p = (p, a)
  All-set P (z ∷ xs) (suc i) x (q, a) p = (q, All-set P xs i x a p)

  pub get_elem?-append :
      (xs : List A) (x : A) (ys : List A) → get_elem? (xs ++ x ∷ ys) (length xs) ≡ some x
  get_elem?-append [] x ys = refl
  get_elem?-append (z ∷ xs) x ys = get_elem?-append xs x ys

  pub set-append :
      (xs : List A) (x y : A) (ys : List A) → set (xs ++ x ∷ ys) (length xs) y ≡ xs ++ y ∷ ys
  set-append [] x y ys = refl
  set-append (z ∷ xs) x y ys = ap (λ l. z ∷ l) (set-append xs x y ys)

  pub get_elem?-set :
      (xs : List A) (i : ℕ) (x y : A) → get_elem? xs i ≡ some x → get_elem? (set xs i y) i ≡ some y
  get_elem?-set [] i x y e = ground arith
  get_elem?-set (z ∷ xs) zero x y e = refl
  get_elem?-set (z ∷ xs) (suc i) x y e = get_elem?-set xs i x y e

pub All-split {ℓ κ} :
    {A : Type ℓ} (P : A → Type κ) (xs ys : List A) → All P (xs ++ ys) → All P xs × All P ys
All-split P [] ys a = (tt, a)
All-split P (x ∷ xs) ys (p, a) = let (left, right) = All-split P xs ys a in ((p, left), right)

pub All-mono {ℓ κ κ'} :
    {A : Type ℓ} (P : A → Type κ) (Q : A → Type κ') (xs : List A)
    → ((x : A) → P x → Q x)
    → All P xs
    → All Q xs
All-mono P Q [] f a = tt
All-mono P Q (x ∷ xs) f (p, a) = (f x p, All-mono P Q xs f a)

pub All-contains : (xs : List String) → All (λ d. contains xs d ≡ true) xs
All-contains [] = tt
All-contains (x ∷ xs) = (
  rw (eq_refl x) refl,
  All-mono (λ d. contains xs d ≡ true) (λ d. contains (x ∷ xs) d ≡ true) xs (λ d e. ground arith)
      (All-contains xs),
)

pub All-member :
    (P : String → Type 0) (xs : List String) (d : String) → All P xs → contains xs d ≡ true → P d
All-member P [] d a e = ground arith
All-member P (x ∷ xs) d (p, a) e = elim (Bool-cases (x == d)) [
  | inl hit ↦ let same : x ≡ d = ground (arith, eq_iff x d) in rw same at p
  | inr miss ↦ All-member P xs d a (ground arith)
]

module _ {ℓ} {A : Type ℓ} where
  pub get_elem?-set_ne :
      (xs : List A) (i k : ℕ) (y : A) → eqb i k ≡ false → get_elem? (set xs i y) k ≡ get_elem? xs k
  get_elem?-set_ne [] i k y e = refl
  get_elem?-set_ne (z ∷ xs) zero zero y e = ground arith
  get_elem?-set_ne (z ∷ xs) zero (suc k) y e = refl
  get_elem?-set_ne (z ∷ xs) (suc i) zero y e = refl
  get_elem?-set_ne (z ∷ xs) (suc i) (suc k) y e = get_elem?-set_ne xs i k y (ground arith)

  pub get_elem?-append_left :
      (xs ys : List A) (i : ℕ) (x : A) → get_elem? xs i ≡ some x → get_elem? (xs ++ ys) i ≡ some x
  get_elem?-append_left [] ys i x e = ground arith
  get_elem?-append_left (z ∷ xs) ys zero x e = e
  get_elem?-append_left (z ∷ xs) ys (suc i) x e = get_elem?-append_left xs ys i x e
