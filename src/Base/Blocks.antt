-- ===== src/Base/Blocks.antt =====
-- Lists of different numbers, such as the blocks of a file.
use Prim.Native.Nat.{ℕ, zero, suc, ◌+◌, ◌≤◌, ◌<◌}
use mathlib.Core.Path.{◌≡◌, refl}
use mathlib.Core.Logic.{◌≢◌, inl, inr}
use mathlib.Core.Bool.{Bool, false, ◌||◌}
use mathlib.Core.List.{List, [], ◌∷◌, ◌++◌}
use native.Mathlib.Omega.{arith}
use ec.Base.Tests.{◌==◌, if◌then◌else◌, Bool-cases, ==→≡, ==→≢}

abbrev pub length {ℓ} : {A : Type ℓ} → List A → ℕ
length [] = 0
length (x ∷ xs) = suc (length xs)

abbrev pub contains : List ℕ → ℕ → Bool
contains [] b = false
contains (x ∷ xs) b = (x == b) || contains xs b

-- No number of the list is the given one.
abbrev pub Absent : ℕ → List ℕ → Type 0
Absent n [] = Unit {0}
Absent n (x ∷ xs) = (x ≢ n) × Absent n xs

abbrev pub Different : List ℕ → Type 0
Different [] = Unit {0}
Different (x ∷ xs) = Absent x xs × Different xs

abbrev pub Below : ℕ → List ℕ → Type 0
Below k [] = Unit {0}
Below k (x ∷ xs) = (x < k) × Below k xs

pub contains-of_Absent : (n : ℕ) (xs : List ℕ) → Absent n xs → contains xs n ≡ false
contains-of_Absent n [] a = refl
contains-of_Absent n (x ∷ xs) a = ground (arith, contains-of_Absent n xs a.1, a.0)

erase : ℕ → List ℕ → List ℕ
erase n [] = []
erase n (x ∷ xs) = if x == n then xs else x ∷ erase n xs

length-erase : (n : ℕ) (xs : List ℕ) → length xs ≤ suc (length (erase n xs))
unfolding erase
length-erase n [] = omega arith
length-erase n (x ∷ xs) = ground (arith, length-erase n xs)

Absent-erase : (n m : ℕ) (xs : List ℕ) → Absent m xs → Absent m (erase n xs)
unfolding erase
Absent-erase n m [] a = tt
Absent-erase n m (x ∷ xs) a = elim (Bool-cases (x == n)) [
  | inl e ↦ rw e a.1
  | inr e ↦ rw e (a.0, Absent-erase n m xs a.1)
]

Different-erase : (n : ℕ) (xs : List ℕ) → Different xs → Different (erase n xs)
unfolding erase
Different-erase n [] d = tt
Different-erase n (x ∷ xs) d = elim (Bool-cases (x == n)) [
  | inl e ↦ rw e d.1
  | inr e ↦ rw e (Absent-erase n x xs d.0, Different-erase n xs d.1)
]

Below-Absent : (k : ℕ) (xs : List ℕ) → Below (suc k) xs → Absent k xs → Below k xs
Below-Absent k [] b a = tt
Below-Absent k (x ∷ xs) b a = (omega (arith, b.0, a.0), Below-Absent k xs b.1 a.1)

Below-erase : (k : ℕ) (xs : List ℕ) → Below (suc k) xs → Different xs → Below k (erase k xs)
unfolding erase
Below-erase k [] b d = tt
Below-erase k (x ∷ xs) b d = elim (Bool-cases (x == k)) [
  | inl e ↦ rw e (Below-Absent k xs b.1 (rw (==→≡ x k e) at d.0))
  | inr e ↦ rw e (omega (arith, b.0, ==→≢ x k e), Below-erase k xs b.1 d.1)
]

-- There are at most `k` different numbers below `k`.
pub length-le-of_Below : (k : ℕ) (xs : List ℕ) → Below k xs → Different xs → length xs ≤ k
length-le-of_Below zero [] b d = omega arith
length-le-of_Below zero (x ∷ xs) b d = absurd (omega (arith, b.0))
length-le-of_Below (suc k) xs b d = omega (
  arith,
  length-erase k xs,
  length-le-of_Below k (erase k xs) (Below-erase k xs b d) (Different-erase k xs d),
)

pub Absent-of_contains : (n : ℕ) (xs : List ℕ) → contains xs n ≡ false → Absent n xs
Absent-of_contains n [] h = tt
Absent-of_contains n (x ∷ xs) h = elim (Bool-cases (x == n)) [
  | inl e ↦ cc (rw e at h)
  | inr e ↦ (==→≢ x n e, Absent-of_contains n xs (rw e at h))
]

pub Absent-++ : (n : ℕ) (xs ys : List ℕ) → Absent n xs → Absent n ys → Absent n (xs ++ ys)
Absent-++ n [] ys a b = b
Absent-++ n (x ∷ xs) ys a b = (a.0, Absent-++ n xs ys a.1 b)

pub length-++ : (xs ys : List ℕ) → length (xs ++ ys) ≡ length xs + length ys
length-++ [] ys = ground arith
length-++ (x ∷ xs) ys = omega (arith, length-++ xs ys)
