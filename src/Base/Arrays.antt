-- ===== src/Base/Arrays.antt =====
-- C arrays as functions of the index, and the loops that search them. An array's size is the bound
-- of the loops over it; an access out of bounds is a fault of the function that makes it.
use Prim.Native.Nat.{ℕ, zero, suc, ◌+◌, ◌≤◌, ◌<◌}
use mathlib.Core.Path.{◌≡◌, refl}
use mathlib.Core.Logic.{◌≢◌, inl, inr}
use mathlib.Core.Bool.{Bool, true, false}
use mathlib.Core.Option.{Option, none, some}
use native.Mathlib.Omega.{arith}
use ec.Base.Tests.{◌==◌, if◌then◌else◌, Bool-cases}

module _ {ℓ} {A : Type ℓ} where
  -- `f[i] = v`
  abbrev pub update : (ℕ → A) → ℕ → A → ℕ → A
  update f i v j = if i == j then v else f j

  pub update_self : (f : ℕ → A) (i : ℕ) (v : A) → update f i v i ≡ v
  update_self f i v = ground arith

  pub update_ne : (f : ℕ → A) (i j : ℕ) (v : A) → i ≢ j → update f i v j ≡ f j
  update_ne f i j v h = ground arith

-- `for (k = i; k < i + n; k++) if (test k) break;`: the index at which the loop stops.
unfoldable pub first_index : (ℕ → Bool) → ℕ → ℕ → Option ℕ
first_index test i zero = none
first_index test i (suc n) =
    let rest = first_index test (i + 1) n in if test i then some i else rest

-- What the search finds passes the test, lies in the range, and is the first that passes.
pub record IsFirst (test : ℕ → Bool) (i n k : ℕ) : Type 0 where
  pub passes : test k ≡ true
  pub from : i ≤ k
  pub below : k < i + n
  pub least : (j : ℕ) → i ≤ j → j < k → test j ≡ false

IsFirst-cons :
    (test : ℕ → Bool) (i n k : ℕ)
    → test i ≡ false
    → IsFirst test (i + 1) n k
    → IsFirst test i (suc n) k
IsFirst-cons test i n k no_test f = record {
  passes = f.passes;
  from = omega arith;
  below = omega arith;
  least = λ j lo hi. elim (Bool-cases (i == j)) [
    | inl e ↦ ground arith
    | inr e ↦ f.least j (ground arith) hi
  ];
}

pub first_index-IsFirst :
    (test : ℕ → Bool) (i n : ℕ) {k : ℕ} → first_index test i n ≡ some k → IsFirst test i n k
unfolding first_index
first_index-IsFirst test i zero e = cc
first_index-IsFirst test i (suc n) {k} e = elim (Bool-cases (test i)) [
  | inl t ↦ found (rw t at e) t
  | inr t ↦ IsFirst-cons test i n k t (first_index-IsFirst test (i + 1) n (rw t at e))
]
  where
    found : some i ≡ some k → test i ≡ true → IsFirst test i (suc n) k
    found s t =
        let e' : i ≡ k = cc in
        record {
          passes = rw e' at t;
          from = omega arith;
          below = omega arith;
          least = λ j lo hi. absurd (omega arith);
        }

-- A search that finds nothing has tried every index of the range.
pub first_index-eq-none :
    (test : ℕ → Bool) (i n j : ℕ) → first_index test i n ≡ none → i ≤ j → j < i + n → test j ≡ false
unfolding first_index
first_index-eq-none test i zero j e lo hi = absurd (omega arith)
first_index-eq-none test i (suc n) j e lo hi = elim (Bool-cases (test i)) [
  | inl t ↦ cc (rw t at e)
  | inr t ↦ elim (Bool-cases (i == j)) [
    | inl s ↦ ground arith
    | inr s ↦ first_index-eq-none test (i + 1) n j (rw t at e) (ground arith) (omega arith)
  ]
]

-- A search over a range with a passing index finds one.
pub first_index_total :
    (test : ℕ → Bool) (i n j : ℕ)
    → test j ≡ true
    → i ≤ j
    → j < i + n
    → (k : ℕ) × (first_index test i n ≡ some k)
first_index_total test i n j t lo hi = split (first_index test i n) refl
  where
    split : (o : Option ℕ) → first_index test i n ≡ o → (k : ℕ) × (first_index test i n ≡ some k)
    split none e = cc (first_index-eq-none test i n j e lo hi)
    split (some k) e = (k, e)
