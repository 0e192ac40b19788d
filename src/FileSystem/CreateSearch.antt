-- ===== src/FileSystem/CreateSearch.antt =====
-- The loops of fs_create of fs.c.
use ec.Base.{
  ℕ, zero, suc, ◌+◌, ◌-◌, ◌≤◌, ◌<◌, ◌≡◌, ◌≢◌, refl, ◌∙◌, ap, inl, inr, true, false, not, Option,
  none, some, [], ◌∷◌, ◌==◌, ltb, Bool-cases, ==→≡, ≢→==, arith, first_index, first_index-IsFirst,
  first_index-eq-none, IsFirst,
}
use ec.Base.Int.{pos, minus_one}
use ec.FileSystem.State.{Name, length, same_name, Fs, Return, returns, store_entry}
use ec.FileSystem.Directory.{
  free_entry, claim, new_entry, count_files, create_loop, create_counted, fs_create,
}

-- The first free block from the start of the data on, as `fs_create` and `fs_write` look for it.
abbrev pub first_free : ℕ → ℕ → Fs → Option ℕ
first_free from n s = first_index (λ j. s.bitmap j == 0) from n

abbrev pub created : Name → ℕ → ℕ → Fs → Fs
created name i n s = store_entry (claim n s) i (new_entry name n)

free_entry-claim : (n : ℕ) (s : Fs) → free_entry (claim n s) ≡ free_entry s
unfolding free_entry
free_entry-claim n s = refl

abbrev create_at : Name → ℕ → Fs → Option ℕ → Return
create_at name i s none = returns minus_one s
create_at name i s (some n) = returns (pos 0) (created name i n s)

-- With a free entry the loop takes the first free block.
create_loop-eq :
    (name : Name) (from n i : ℕ) (s : Fs)
    → free_entry s ≡ some i
    → create_loop name from n s ≡ create_at name i s (first_free from n s)
unfolding create_loop first_index
create_loop-eq name from zero i s e = refl
create_loop-eq name from (suc n) i s e = elim (Bool-cases (s.bitmap from == 0)) [
  | inl f ↦ rw f (rw (free_entry-claim from s ∙ e))
  | inr f ↦ rw f (create_loop-eq name (from + 1) n i s e)
]

-- The names that the first loop has compared.
pub count_files-new :
    (name : Name) (s : Fs) (i n c : ℕ) {c' : ℕ} (j : ℕ)
    → count_files name s i n c ≡ some c'
    → i ≤ j
    → j < i + n
    → (s.directory j).used ≡ true
    → same_name name (s.directory j).name ≡ false
unfolding count_files
count_files-new name s i zero c {c'} j e lo hi u = absurd (omega arith)
count_files-new name s i (suc n) c {c'} j e lo hi u = elim (Bool-cases (i == j)) [
  | inl q ↦ ground (arith, ==→≡ i j q)
  | inr q ↦ ground (
    arith,
    count_files-new name s (i + 1) n c {c' = c'} j,
    count_files-new name s (i + 1) n (c + 1) {c' = c'} j,
  )
]

-- When every entry is used, the loop counts them all.
pub count_files-all :
    (name : Name) (s : Fs) (i n c : ℕ) {c' : ℕ}
    → count_files name s i n c ≡ some c'
    → ((j : ℕ) → i ≤ j → j < i + n → (s.directory j).used ≡ true)
    → c' ≡ c + n
unfolding count_files
count_files-all name s i zero c e h = ground arith
count_files-all name s i (suc n) c {c'} e h =
    let u : (s.directory i).used ≡ true = h i (omega arith) (omega arith) in
    elim (Bool-cases (same_name name (s.directory i).name)) [
      | inl t ↦ cc (rw (u, t) at e)
      | inr t ↦ omega (
        arith,
        count_files-all name s (i + 1) n (c + 1) (rw (u, t) at e)
            (λ j lo hi. h j (omega arith) (omega arith)),
      )
    ]

pub same_name-flip : (a b : Name) → same_name a b ≡ same_name b a
same_name-flip [] [] = refl
same_name-flip [] (b ∷ bs) = refl
same_name-flip (a ∷ as') [] = refl
same_name-flip (a ∷ as') (b ∷ bs) = ground (arith, same_name-flip as' bs)

count_files-le :
    (name : Name) (s : Fs) (i n c : ℕ) {c' : ℕ} → count_files name s i n c ≡ some c' → c' ≤ c + n
unfolding count_files
count_files-le name s i zero c e = ground arith
count_files-le name s i (suc n) c {c'} e = ground (
  arith,
  count_files-le name s (i + 1) n c {c' = c'},
  count_files-le name s (i + 1) n (c + 1) {c' = c'},
)

pub count_files-lt :
    (name : Name) (s : Fs) (i n c : ℕ) {c' : ℕ} (j : ℕ)
    → count_files name s i n c ≡ some c'
    → i ≤ j
    → j < i + n
    → (s.directory j).used ≡ false
    → c' < c + n
unfolding count_files
count_files-lt name s i zero c {c'} j e lo hi u = absurd (omega arith)
count_files-lt name s i (suc n) c {c'} j e lo hi u = elim (Bool-cases (i == j)) [
  | inl q ↦ ground (arith, ==→≡ i j q, count_files-le name s (i + 1) n c {c' = c'})
  | inr q ↦ ground (
    arith,
    count_files-lt name s (i + 1) n c {c' = c'} j,
    count_files-lt name s (i + 1) n (c + 1) {c' = c'} j,
  )
]

pub free_entry-lem :
    (s : Fs) {i : ℕ} → free_entry s ≡ some i → (i < 64) × ((s.directory i).used ≡ false)
unfolding free_entry
free_entry-lem s {i} e =
    let f : IsFirst (λ j. not (s.directory j).used) 0 64 i = first_index-IsFirst _ 0 64 e in
    let t = f.passes in (omega (arith, f.below), ground arith)

pub all_used : (s : Fs) → free_entry s ≡ none → (j : ℕ) → j < 64 → (s.directory j).used ≡ true
unfolding free_entry
all_used s e j h =
    let t : not (s.directory j).used ≡ false = first_index-eq-none _ 0 64 j e (omega arith) h in
    ground arith

pub count_files-none :
    (name : Name) (s : Fs) (i n c : ℕ)
    → count_files name s i n c ≡ none
    → (j : ℕ) × (j < i + n)
      × ((s.directory j).used ≡ true)
      × (same_name name (s.directory j).name ≡ true)
unfolding count_files
count_files-none name s i zero c e = cc
count_files-none name s i (suc n) c e = elim (Bool-cases (s.directory i).used) [
  | inl u ↦ elim (Bool-cases (same_name name (s.directory i).name)) [
    | inl t ↦ (i, omega arith, u, t)
    | inr t ↦
        let (j, h, u', t') = count_files-none name s (i + 1) n (c + 1) (rw (u, t) at e) in
        (j, omega arith, u', t')
  ]
  | inr u ↦
      let (j, h, u', t') = count_files-none name s (i + 1) n c (rw u at e) in
      (j, omega arith, u', t')
]

pub fs_create-long :
    (name : Name) (s : Fs) → ltb 15 (length name) ≡ true → fs_create name s ≡ returns minus_one s
unfolding fs_create
fs_create-long name s h = rw h

pub fs_create-counted :
    (name : Name) (s : Fs) (o : Option ℕ)
    → ltb 15 (length name) ≡ false
    → count_files name s 0 64 0 ≡ o
    → fs_create name s ≡ create_counted name s o
unfolding fs_create
fs_create-counted name s o h e = rw (h, e)

pub create_counted-free :
    (name : Name) (s : Fs) (c i : ℕ) (o : Option ℕ)
    → c ≢ 64
    → free_entry s ≡ some i
    → first_free s.super.data_offset (8192 - s.super.data_offset) s ≡ o
    → create_counted name s (some c) ≡ create_at name i s o
unfolding create_counted
create_counted-free name s c i o h e f = rw (≢→== c 64 h) (
    create_loop-eq name s.super.data_offset (8192 - s.super.data_offset) i s e
    ∙ ap (create_at name i s) f)
