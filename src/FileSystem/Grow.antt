-- ===== src/FileSystem/Grow.antt =====
-- The loop of fs_write (fs.c) that gives a file the blocks that it needs.
use ec.Base.{
  ℕ, zero, suc, ◌+◌, ◌-◌, ◌≤◌, ◌<◌, ◌≡◌, ◌≢◌, refl, sym, ◌∙◌, ap, subst, inl, inr, ◌⊎◌, Bool, true,
  false, Option, none, some, List, [], ◌∷◌, ◌++◌, ◌==◌, if◌then◌else◌, Bool-cases, ==→≡, ==-refl,
  arith, first_index-IsFirst, IsFirst,
}
use ec.Base.Int.{pos, minus_one}
use ec.Base.Blocks.{
  length, contains, Absent, Different, Below, contains-of_Absent, Absent-of_contains, Absent-++,
}
use ec.FileSystem.State.{Fs}
use ec.FileSystem.Transfer.{Walk, done, failed, bad_index, free_block, link_block, grow}
use ec.FileSystem.Chain.{Linked}

-- The file of the blocks `x ∷ xs` has got the blocks `ys`, which were free data blocks. Nothing else has
-- changed.
pub record Extends (s s' : Fs) (x : ℕ) (xs ys : List ℕ) : Type 0 where
  pub linked : Linked s'.table (x ∷ xs ++ ys)
  pub apart : Different (x ∷ xs ++ ys)
  pub were_free :
      (b : ℕ) → contains ys b ≡ true → (s.bitmap b ≡ 0) × (s.super.data_offset ≤ b) × (b < 8192)
  pub bitmap : (b : ℕ) → s'.bitmap b ≡ (if contains ys b then 1 else s.bitmap b)
  pub table : (b : ℕ) → contains (x ∷ xs ++ ys) b ≡ false → s'.table b ≡ s.table b
  pub same : s' ≡ record s { table = s'.table; bitmap = s'.bitmap }

-- How the loop of `k` rounds ends: the file has got the blocks that it lacked, or the disk is full.
pub data Grown (s : Fs) (x : ℕ) (xs : List ℕ) (k : ℕ) : Walk Fs → Type 0 where
  extended :
      (ys : List ℕ) (s' : Fs)
      → Extends s s' x xs ys
      → length ys ≡ k - length xs
      → Grown s x xs k (done s')
  full :
      (ys : List ℕ) (s' : Fs)
      → Extends s s' x xs ys
      → length xs + length ys < k
      → free_block s' ≡ none
      → Grown s x xs k (failed s')

-- Every block of the list is marked as used.
abbrev pub Taken : Fs → List ℕ → Type 0
Taken s [] = Unit {0}
Taken s (x ∷ xs) = (s.bitmap x ≢ 0) × Taken s xs

Extends-refl :
    (s : Fs) (x : ℕ) (xs : List ℕ)
    → Linked s.table (x ∷ xs)
    → Different (x ∷ xs)
    → Extends s s x xs []
Extends-refl s x xs l d = record {
  linked = subst (λ c. Linked s.table (x ∷ c)) (sym (++-nil xs)) l;
  apart = subst (λ c. Different (x ∷ c)) (sym (++-nil xs)) d;
  were_free = λ b h. cc;
  bitmap = λ b. refl;
  table = λ b h. refl;
  same = refl;
}
  where
    ++-nil : (xs : List ℕ) → xs ++ [] ≡ xs
    ++-nil [] = refl
    ++-nil (x ∷ xs) = ap (x ∷◌) (++-nil xs)

Extends-next :
    (s s' : Fs) (x y : ℕ) (xs ys : List ℕ)
    → (s.table x).next_direct_offset ≡ pos y
    → Absent x (y ∷ xs)
    → s.bitmap x ≢ 0
    → Extends s s' y xs ys
    → Extends s s' x (y ∷ xs) ys
Extends-next s s' x y xs ys l a u e =
    let b : Absent x ys = Absent-of_contains x ys (not_free (Bool-cases (contains ys x))) in
    let c : Absent x (y ∷ xs ++ ys) = (a.0, Absent-++ x xs ys a.1 b) in
    record {
      linked = (
        ap (λ t. t.next_direct_offset) (e.table x (contains-of_Absent x (y ∷ xs ++ ys) c)) ∙ l,
        e.linked,
      );
      apart = (c, e.apart);
      were_free = e.were_free;
      bitmap = e.bitmap;
      table = λ b h. e.table b (ground arith);
      same = e.same;
    }
  where
    not_free : (contains ys x ≡ true) ⊎ (contains ys x ≡ false) → contains ys x ≡ false
    not_free (inl h) = absurd (u (e.were_free x h).0)
    not_free (inr h) = h

Extends-link :
    (s s' : Fs) (x j : ℕ) (ys : List ℕ)
    → s.bitmap x ≢ 0
    → s.bitmap j ≡ 0
    → s.super.data_offset ≤ j
    → j < 8192
    → Extends (link_block x j s) s' j [] ys
    → Extends s s' x [] (j ∷ ys)
Extends-link s s' x j ys u f lo hi e =
    let apart_j : x ≢ j = λ p. u (ap s.bitmap p ∙ f) in
    let used : (link_block x j s).bitmap x ≡ s.bitmap x = ground arith in
    let b : Absent x ys =
      Absent-of_contains x ys
        (not_free (λ h. u (sym used ∙ (e.were_free x h).0)) (Bool-cases (contains ys x))) in
    let c : Absent x (j ∷ ys) = (λ p. apart_j (sym p), b) in
    record {
      linked = (
        ap (λ t. t.next_direct_offset) (e.table x (contains-of_Absent x (j ∷ ys) c)) ∙ ground arith,
        e.linked,
      );
      apart = (c, e.apart);
      were_free = λ b h. elim (Bool-cases (j == b)) [
        | inl q ↦ here b (==→≡ j b q)
        | inr q ↦ later b q (rw q at h)
      ];
      bitmap = λ b. e.bitmap b ∙ ground arith;
      table = λ b h. e.table b (ground arith) ∙ ground arith;
      same = e.same;
    }
  where
    not_free : {b : Bool} → (b ≡ true → ⊥) → (b ≡ true) ⊎ (b ≡ false) → b ≡ false
    not_free u (inl h) = absurd (u h)
    not_free u (inr h) = h

    here : (b : ℕ) → j ≡ b → (s.bitmap b ≡ 0) × (s.super.data_offset ≤ b) × (b < 8192)
    here b q = subst (λ b. (s.bitmap b ≡ 0) × (s.super.data_offset ≤ b) × (b < 8192)) q (f, lo, hi)

    later :
        (b : ℕ)
        → (j == b) ≡ false
        → contains ys b ≡ true
        → (s.bitmap b ≡ 0) × (s.super.data_offset ≤ b) × (b < 8192)
    later b q h = let r = e.were_free b h in (rw q at r.0, r.1, r.2)

Grown-next :
    (s : Fs) (x y k : ℕ) (xs : List ℕ) (w : Walk Fs)
    → (s.table x).next_direct_offset ≡ pos y
    → Absent x (y ∷ xs)
    → s.bitmap x ≢ 0
    → Grown s y xs k w
    → Grown s x (y ∷ xs) (suc k) w
Grown-next s x y k xs (done s') l a u (extended ys _ e h) =
    extended ys s' (Extends-next s s' x y xs ys l a u e) (omega arith)
Grown-next s x y k xs (failed s') l a u (full ys _ e h f) =
    full ys s' (Extends-next s s' x y xs ys l a u e) (omega arith) f
Grown-next s x y k xs bad_index l a u g = elim g [ ]

Grown-link :
    (s : Fs) (x j k : ℕ) (w : Walk Fs)
    → s.bitmap x ≢ 0
    → IsFirst (λ i. s.bitmap i == 0) s.super.data_offset (8192 - s.super.data_offset) j
    → Grown (link_block x j s) j [] k w
    → Grown s x [] (suc k) w
Grown-link s x j k (done s') u f (extended ys _ e h) =
    extended (j ∷ ys) s'
      (Extends-link s s' x j ys u (==→≡ (s.bitmap j) 0 f.passes) f.from
        (omega (arith, f.below, f.from)) e)
      (omega arith)
Grown-link s x j k (failed s') u f (full ys _ e h n) =
    full (j ∷ ys) s'
      (Extends-link s s' x j ys u (==→≡ (s.bitmap j) 0 f.passes) f.from
        (omega (arith, f.below, f.from)) e)
      (omega arith) n
Grown-link s x j k bad_index u f g = elim g [ ]

grow-follow :
    (k x y : ℕ) (s : Fs)
    → x < 8192
    → (s.table x).next_direct_offset ≡ pos y
    → grow (suc k) (pos x) s ≡ grow k (pos y) s
unfolding grow
grow-follow k x y s h e = ground arith

grow-full :
    (k x : ℕ) (s : Fs)
    → x < 8192
    → (s.table x).next_direct_offset ≡ minus_one
    → free_block s ≡ none
    → s.super.data_offset < 8192
    → grow (suc k) (pos x) s ≡ failed s
unfolding grow
grow-full k x s h e f d = ground arith

grow-link :
    (k x j : ℕ) (s : Fs)
    → x < 8192
    → (s.table x).next_direct_offset ≡ minus_one
    → free_block s ≡ some j
    → x ≢ j
    → grow (suc k) (pos x) s ≡ grow k (pos j) (link_block x j s)
unfolding grow
grow-link k x j s h e f d = ground arith

-- The loop gives a file the blocks that it lacks for `k` blocks behind its first, each a free data block
-- that no other file has; or it stops with a file that is too short, on a disk without a free block.
pub grow-Grown :
    (k x : ℕ) (xs : List ℕ) (s : Fs)
    → Linked s.table (x ∷ xs)
    → Different (x ∷ xs)
    → Below 8192 (x ∷ xs)
    → Taken s (x ∷ xs)
    → s.super.data_offset < 8192
    → Grown s x xs k (grow k (pos x) s)
unfolding grow free_block
grow-Grown zero x xs s l d b t p = extended [] s (Extends-refl s x xs l d) (omega arith)
grow-Grown (suc k) x (y ∷ xs) s l d b t p =
    subst (λ w. Grown s x (y ∷ xs) (suc k) w) (sym (grow-follow k x y s b.0 l.0))
      (Grown-next s x y k xs _ l.0 d.0 t.0 (grow-Grown k y xs s l.1 d.1 b.1 t.1 p))
grow-Grown (suc k) x [] s l d b t p =
    split (λ j. grow-Grown k j [] (link_block x j s)) (free_block s) refl
  where
    split :
        ((j : ℕ)
          → Linked (link_block x j s).table (j ∷ [])
          → Different (j ∷ [])
          → Below 8192 (j ∷ [])
          → Taken (link_block x j s) (j ∷ [])
          → s.super.data_offset < 8192
          → Grown (link_block x j s) j [] k (grow k (pos j) (link_block x j s)))
        → (o : Option ℕ) → free_block s ≡ o
        → Grown s x [] (suc k) (grow (suc k) (pos x) s)
    split ih none e =
        subst (λ w. Grown s x [] (suc k) w) (sym (grow-full k x s b.0 l e p))
          (full [] s (Extends-refl s x [] l d) (omega arith) e)
    split ih (some j) e =
        let f : IsFirst (λ i. s.bitmap i == 0) s.super.data_offset (8192 - s.super.data_offset) j =
          first_index-IsFirst _ _ _ e in
        let free : s.bitmap j ≡ 0 = ==→≡ (s.bitmap j) 0 f.passes in
        let ne : x ≢ j = λ p. t.0 (ap s.bitmap p ∙ free) in
        subst (λ w. Grown s x [] (suc k) w) (sym (grow-link k x j s b.0 l e ne))
          (Grown-link s x j k _ t.0 f (
            ih j (ground arith) (tt, tt) (omega (arith, f.below, f.from), tt) (ground arith, tt) p))

Taken-of_contains :
    (s : Fs) (xs : List ℕ) → ((b : ℕ) → contains xs b ≡ true → s.bitmap b ≢ 0) → Taken s xs
Taken-of_contains s [] h = tt
Taken-of_contains s (x ∷ xs) h =
    (h x (ground (arith, ==-refl x)), Taken-of_contains s xs (λ b c. h b (ground arith)))

Taken-++ :
    (s s' : Fs) (xs ys : List ℕ)
    → ((b : ℕ) → s.bitmap b ≢ 0 → s'.bitmap b ≢ 0)
    → Taken s xs
    → Taken s' ys
    → Taken s' (xs ++ ys)
Taken-++ s s' [] ys h t u = u
Taken-++ s s' (x ∷ xs) ys h t u = (h x t.0, Taken-++ s s' xs ys h t.1 u)

pub Extends-Taken :
    (s s' : Fs) (x : ℕ) (xs ys : List ℕ)
    → Taken s (x ∷ xs)
    → Extends s s' x xs ys
    → Taken s' (x ∷ xs ++ ys)
Extends-Taken s s' x xs ys t e =
    Taken-++ s s' (x ∷ xs) ys (λ b h p. h (ground (arith, e.bitmap b))) t
      (Taken-of_contains s' ys
        (λ b h p. let q : s'.bitmap b ≡ 1 = ground (arith, e.bitmap b) in omega (arith, p, q)))
