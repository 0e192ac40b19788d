-- ===== src/Tls/Shares.antt =====
-- How many storages of tls.c share a page.
use ec.Base.{
  ℕ, zero, suc, ◌+◌, ◌≤◌, ◌<◌, ◌≡◌, ◌≢◌, refl, ap, inl, inr, Bool, ◌&&◌, ◌==◌, ltb, if◌then◌else◌,
  update, Bool-cases, ==→≡, ==→≢, arith,
}
use ec.Tls.State.{Storage}

-- Whether a live storage has the page `p` in its slot `k`, as a number.
abbrev pub shares_at : Bool → Storage → ℕ → ℕ → ℕ
shares_at live t k p = if live && ltb k t.page_num && (t.pages k == p) then 1 else 0

-- How many of the first `n` storages have it there.
unfoldable pub shares : (ℕ → Storage) → (ℕ → Bool) → ℕ → ℕ → ℕ → ℕ
shares storages live k p zero = 0
shares storages live k p (suc n) = shares storages live k p n + shares_at (live n) (storages n) k p

shares-update_beyond :
    (st : ℕ → Storage) (live : ℕ → Bool) (k p t : ℕ) (v : Storage) (n : ℕ)
    → n ≤ t
    → shares (update st t v) live k p n ≡ shares st live k p n
unfolding shares
shares-update_beyond st live k p t v zero h = refl
shares-update_beyond st live k p t v (suc n) h =
    ground (arith, shares-update_beyond st live k p t v n (omega arith))

pub shares-update :
    (st : ℕ → Storage) (live : ℕ → Bool) (k p t : ℕ) (v : Storage) (n : ℕ)
    → t < n
    → shares (update st t v) live k p n + shares_at (live t) (st t) k p
      ≡ shares st live k p n + shares_at (live t) v k p
unfolding shares
shares-update st live k p t v zero h = absurd (omega arith)
shares-update st live k p t v (suc n) h = elim (Bool-cases (t == n)) [
  | inl e ↦
      let same : t ≡ n = ==→≡ t n e in
      let b = shares-update_beyond st live k p t v n (omega arith) in
      rw e (
        omega (
          arith,
          b,
          ap (λ z. shares_at (live z) (st z) k p) same,
          ap (λ z. shares_at (live z) v k p) same,
        ))
  | inr e ↦
      let ih = shares-update st live k p t v n (omega (arith, ==→≢ t n e)) in
      rw e (omega (arith, ih))
]

pub shares-one :
    (st : ℕ → Storage) (live : ℕ → Bool) (k p t n : ℕ)
    → t < n
    → shares_at (live t) (st t) k p ≤ shares st live k p n
unfolding shares
shares-one st live k p t zero h = absurd (omega arith)
shares-one st live k p t (suc n) h = elim (Bool-cases (t == n)) [
  | inl e ↦ rw (==→≡ t n e) (omega arith)
  | inr e ↦ omega (arith, shares-one st live k p t n (omega (arith, ==→≢ t n e)))
]

-- Two storages that have it count as two.
pub shares-two :
    (st : ℕ → Storage) (live : ℕ → Bool) (k p t u n : ℕ)
    → t < n
    → u < n
    → t ≢ u
    → shares_at (live t) (st t) k p + shares_at (live u) (st u) k p ≤ shares st live k p n
unfolding shares
shares-two st live k p t u zero h g ne = absurd (omega arith)
shares-two st live k p t u (suc n) h g ne = elim (Bool-cases (t == n)) [
  | inl e ↦
      let same : t ≡ n = ==→≡ t n e in
      let one = shares-one st live k p u n (omega arith) in rw same (omega (arith, one))
  | inr e ↦ elim (Bool-cases (u == n)) [
    | inl f ↦
        let same : u ≡ n = ==→≡ u n f in
        let one = shares-one st live k p t n (omega (arith, ==→≢ t n e)) in
        rw same (omega (arith, one))
    | inr f ↦
        let both =
          shares-two st live k p t u n (omega (arith, ==→≢ t n e)) (omega (arith, ==→≢ u n f)) ne in
        omega (arith, both)
  ]
]

pub shares-zero :
    (st : ℕ → Storage) (live : ℕ → Bool) (k p n : ℕ)
    → ((u : ℕ) → u < n → shares_at (live u) (st u) k p ≡ 0)
    → shares st live k p n ≡ 0
unfolding shares
shares-zero st live k p zero h = refl
shares-zero st live k p (suc n) h =
    omega (arith, h n (omega arith), shares-zero st live k p n (λ u l. h u (omega arith)))
