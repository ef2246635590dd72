-- ===== src/Prelude/Lists.antt =====
-- Lists measured and indexed by native numbers, and finite sets of numbers as lists.
use Prim.Native.Nat.{ℕ, zero, suc, ◌+◌, ◌≤◌, ◌<◌}
use mathlib.Core.Path.{◌≡◌, refl}
use mathlib.Core.Bool.{Bool, true, false, ◌||◌}
use mathlib.Core.List.{List, [], ◌∷◌, ◌++◌}
use mathlib.Core.Option.{Option, none, some}
use mathlib.Core.Logic.{inl, inr}
use native.Mathlib.Omega.{arith}
use halaos_stm32f103_hardwar.Prelude.Tests.{◌==◌, if◌then◌else◌, Bool-cases}

module _ {ℓ} {A : Type ℓ} where
  abbrev pub length : List A → ℕ
  length [] = 0
  length (x ∷ xs) = suc (length xs)

  abbrev pub get_elem? : List A → ℕ → Option A
  get_elem? [] i = none
  get_elem? (x ∷ xs) zero = some x
  get_elem? (x ∷ xs) (suc i) = get_elem? xs i

  abbrev pub get_or : List A → ℕ → A → A
  get_or [] i d = d
  get_or (x ∷ xs) zero d = x
  get_or (x ∷ xs) (suc i) d = get_or xs i d

  abbrev pub take : ℕ → List A → List A
  take zero xs = []
  take (suc n) [] = []
  take (suc n) (x ∷ xs) = x ∷ take n xs

  abbrev pub drop : ℕ → List A → List A
  drop zero xs = xs
  drop (suc n) [] = []
  drop (suc n) (x ∷ xs) = drop n xs

  pub length-append : (xs ys : List A) → length (xs ++ ys) ≡ length xs + length ys
  length-append [] ys = omega arith
  length-append (x ∷ xs) ys = omega (arith, length-append xs ys)

module _ {ℓ κ} {A : Type ℓ} (P : A → Type κ) where
  abbrev pub All : List A → Type κ
  All [] = Unit
  All (x ∷ xs) = P x × All xs

abbrev pub has : ℕ → List ℕ → Bool
has a [] = false
has a (x ∷ xs) = (a == x) || has a xs

-- No number occurs twice.
abbrev pub Distinct : List ℕ → Type 0
Distinct [] = Unit
Distinct (x ∷ xs) = (has x xs ≡ false) × Distinct xs

abbrev pub Below : ℕ → List ℕ → Type 0
Below n [] = Unit
Below n (x ∷ xs) = (x < n) × Below n xs

-- The list without every `a`.
abbrev pub without : ℕ → List ℕ → List ℕ
without a [] = []
without a (x ∷ xs) = if x == a then without a xs else x ∷ without a xs

abbrev pub last_or : ℕ → List ℕ → ℕ
last_or d [] = d
last_or d (x ∷ xs) = last_or x xs

pub last_or-append_one : (d a : ℕ) (q : List ℕ) → last_or d (q ++ (a ∷ [])) ≡ a
last_or-append_one d a [] = refl
last_or-append_one d a (x ∷ q) = last_or-append_one x a q

pub has-append : (a : ℕ) (xs ys : List ℕ) → has a (xs ++ ys) ≡ (has a xs || has a ys)
has-append a [] ys = refl
has-append a (x ∷ xs) ys = ground (arith, has-append a xs ys)

pub has-ne : (a x : ℕ) (q : List ℕ) → has x q ≡ true → has a q ≡ false → (x == a) ≡ false
has-ne a x [] h out = cc
has-ne a x (y ∷ q) h out = ground (arith, has-ne a x q)

pub has-without : (a b : ℕ) (xs : List ℕ) → has b xs ≡ false → has b (without a xs) ≡ false
has-without a b [] h = refl
has-without a b (x ∷ xs) h = ground (arith, has-without a b xs)

pub has_of_without : (a b : ℕ) (xs : List ℕ) → has b (without a xs) ≡ true → has b xs ≡ true
has_of_without a b [] h = cc
has_of_without a b (x ∷ xs) h = ground (arith, has_of_without a b xs)

pub has-without_self : (a : ℕ) (xs : List ℕ) → has a (without a xs) ≡ false
has-without_self a [] = refl
has-without_self a (x ∷ xs) = ground (arith, has-without_self a xs)

pub has-without_ne : (a b : ℕ) (xs : List ℕ) → (b == a) ≡ false → has b (without a xs) ≡ has b xs
has-without_ne a b [] h = refl
has-without_ne a b (x ∷ xs) h = ground (arith, has-without_ne a b xs)

pub without_absent : (a : ℕ) (xs : List ℕ) → has a xs ≡ false → without a xs ≡ xs
without_absent a [] h = refl
without_absent a (x ∷ xs) h = ground (arith, without_absent a xs)

pub Distinct-without : (a : ℕ) (xs : List ℕ) → Distinct xs → Distinct (without a xs)
Distinct-without a [] h = tt
Distinct-without a (x ∷ xs) (out, d) =
    ground (arith, has-without a x xs out, Distinct-without a xs d)

pub Distinct-append_one :
    (a : ℕ) (xs : List ℕ) → Distinct xs → has a xs ≡ false → Distinct (xs ++ (a ∷ []))
Distinct-append_one a [] d h = (refl, tt)
Distinct-append_one a (x ∷ xs) (out, d) h =
    ground (arith, has-append x xs (a ∷ []), Distinct-append_one a xs d)

Below-without : (n : ℕ) (xs : List ℕ) → Below (suc n) xs → Below n (without n xs)
Below-without n [] h = tt
Below-without n (x ∷ xs) (lt, h) = ground (arith, Below-without n xs h)

length-without : (n : ℕ) (xs : List ℕ) → Distinct xs → length xs ≤ suc (length (without n xs))
length-without n [] d = omega arith
length-without n (x ∷ xs) (out, d) = elim (Bool-cases (x == n)) [
  | inl same ↦ ground (arith, without_absent n xs)
  | inr other ↦ ground (arith, length-without n xs d)
]

-- Distinct numbers below `n` are at most `n`.
pub length-le_of_Distinct : (n : ℕ) (xs : List ℕ) → Below n xs → Distinct xs → length xs ≤ n
length-le_of_Distinct zero [] b d = omega arith
length-le_of_Distinct zero (x ∷ xs) b d = absurd (omega arith)
length-le_of_Distinct (suc n) xs b d = omega (
  arith,
  length-without n xs d,
  length-le_of_Distinct n (without n xs) (Below-without n xs b) (Distinct-without n xs d),
)
