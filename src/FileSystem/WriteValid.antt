-- ===== src/FileSystem/WriteValid.antt =====
-- fs_write of fs.c keeps a file system valid.
use ec.Base.{
  ℕ, zero, suc, ◌<◌, ◌≡◌, ◌≢◌, refl, sym, ◌∙◌, ap, subst, inl, inr, true, false, ◌||◌, List, [],
  ◌∷◌, ◌++◌, ◌==◌, update, Bool-cases, ==→≡, ==→≢, arith,
}
use ec.Base.Int.{ℤ}
use ec.Base.Blocks.{contains, Below}
use ec.FileSystem.State.{Fs, DirectoryEntry, FileDescriptor}
use ec.FileSystem.Chain.{Linked-agree, IsChain, head_of}
use ec.FileSystem.Valid.{IsValid, opens}
use ec.FileSystem.Grow.{Extends}

contains-++ : (xs ys : List ℕ) (b : ℕ) → contains (xs ++ ys) b ≡ (contains xs b || contains ys b)
contains-++ [] ys b = refl
contains-++ (x ∷ xs) ys b = ground (arith, contains-++ xs ys b)

Below-++ :
    (k : ℕ) (xs ys : List ℕ)
    → Below k xs
    → ((b : ℕ) → contains ys b ≡ true → b < k)
    → Below k (xs ++ ys)
Below-++ k [] [] p h = tt
Below-++ k [] (y ∷ ys) p h = (h y (ground arith), Below-++ k [] ys tt (λ b c. h b (ground arith)))
Below-++ k (x ∷ xs) ys p h = (p.0, Below-++ k xs ys p.1 h)

module _ {s s1 : Fs} {chain : ℕ → List ℕ} {i x : ℕ} {xs ys : List ℕ} (v : IsValid s chain)
    (hi : i < 64) (ui : (s.directory i).used ≡ true) (c : chain i ≡ x ∷ xs)
    (e : Extends s s1 x xs ys) where
  -- A block of another file is none of this one's.
  not_theirs :
      (j n : ℕ)
      → j < 64
      → (s.directory j).used ≡ true
      → j ≢ i
      → contains (chain j) n ≡ true
      → contains (x ∷ xs ++ ys) n ≡ false
  not_theirs j n hj uj ne h =
      let old : contains (x ∷ xs) n ≡ false =
        subst (λ z. contains z n ≡ false) c (v.apart j i n hj hi uj ui ne h) in
      let new : contains ys n ≡ false = elim (Bool-cases (contains ys n)) [
        | inl q ↦ absurd (ground (arith, (e.were_free n q).0, v.claimed j n hj uj h))
        | inr q ↦ q
      ] in
      contains-++ (x ∷ xs) ys n ∙ rw (old, new)

  pub chain-Extends :
      (j : ℕ)
      → j < 64
      → (s.directory j).used ≡ true
      → IsChain s1.table (update chain i (x ∷ xs ++ ys) j)
  chain-Extends j hj uj = elim (Bool-cases (i == j)) [
    | inl q ↦ rw q own
    | inr q ↦ rw q (
        let its = v.linked j hj uj in
        record {
          linked =
              Linked-agree s.table s1.table (chain j)
                (λ n h.
                  ap (λ z. z.next_direct_offset)
                    (e.table n (not_theirs j n hj uj (λ z. ==→≢ i j q (sym z)) h)))
                its.linked;
          different = its.different;
          on_disk = its.on_disk;
        })
  ]
    where
      own : IsChain s1.table (x ∷ xs ++ ys)
      own =
          let on : Below 8192 (x ∷ xs) = subst (λ z. Below 8192 z) c (v.linked i hi ui).on_disk in
          record {
            linked = e.linked;
            different = e.apart;
            on_disk = Below-++ 8192 (x ∷ xs) ys on (λ b h. (e.were_free b h).2);
          }

  -- A block that another file has stays apart from the longer one.
  pub apart-Extends :
      (j k n : ℕ)
      → j < 64
      → k < 64
      → (s.directory j).used ≡ true
      → (s.directory k).used ≡ true
      → j ≢ k
      → contains (update chain i (x ∷ xs ++ ys) j) n ≡ true
      → contains (update chain i (x ∷ xs ++ ys) k) n ≡ false
  apart-Extends j k n hj hk uj uk ne h = elim (Bool-cases (i == j)) [
    | inl q ↦ own j k n hk uk ne q (rw q at h)
    | inr q ↦ other j k n hj hk uj uk ne q (rw q at h)
  ]
    where
      own :
          (j k n : ℕ)
          → k < 64
          → (s.directory k).used ≡ true
          → j ≢ k
          → (i == j) ≡ true
          → contains (x ∷ xs ++ ys) n ≡ true
          → contains (update chain i (x ∷ xs ++ ys) k) n ≡ false
      own j k n hk uk ne q h = elim (Bool-cases (i == k)) [
        | inl r ↦ absurd (ne (sym (==→≡ i j q) ∙ ==→≡ i k r))
        | inr r ↦ rw r (elim (Bool-cases (contains (chain k) n)) [
          | inl t ↦ cc (not_theirs k n hk uk (λ z. ==→≢ i k r (sym z)) t, h)
          | inr t ↦ t
        ])
      ]

      other :
          (j k n : ℕ)
          → j < 64
          → k < 64
          → (s.directory j).used ≡ true
          → (s.directory k).used ≡ true
          → j ≢ k
          → (i == j) ≡ false
          → contains (chain j) n ≡ true
          → contains (update chain i (x ∷ xs ++ ys) k) n ≡ false
      other j k n hj hk uj uk ne q h = elim (Bool-cases (i == k)) [
        | inl r ↦ rw r (not_theirs j n hj uj (λ z. ==→≢ i j q (sym z)) h)
        | inr r ↦ rw r (v.apart j k n hj hk uj uk ne h)
      ]

  pub claimed-Extends :
      (j n : ℕ)
      → j < 64
      → (s.directory j).used ≡ true
      → contains (update chain i (x ∷ xs ++ ys) j) n ≡ true
      → (s1.bitmap n == 0) ≡ false
  claimed-Extends j n hj uj h = elim (Bool-cases (contains ys n)) [
    | inl q ↦ ground (arith, e.bitmap n)
    | inr q ↦ elim (Bool-cases (i == j)) [
      | inl r ↦
          let h' : contains (x ∷ xs ++ ys) n ≡ true = rw r at h in
          let both : (contains (x ∷ xs) n || contains ys n) ≡ true =
            sym (contains-++ (x ∷ xs) ys n) ∙ h' in
          let old : contains (x ∷ xs) n ≡ true = ground arith in
          let u = v.claimed i n hi ui (subst (λ z. contains z n ≡ true) (sym c) old) in
          ground (arith, e.bitmap n)
      | inr r ↦ let u = v.claimed j n hj uj (rw r at h) in ground (arith, e.bitmap n)
    ]
  ]

  pub start-Extends :
      (j : ℕ)
      → j < 64
      → (s.directory j).used ≡ true
      → (s.directory j).inode_number ≡ head_of (update chain i (x ∷ xs ++ ys) j)
  start-Extends j hj uj = elim (Bool-cases (i == j)) [
    | inl q ↦
        rw q (
          ap (λ k. (s.directory k).inode_number) (sym (==→≡ i j q))
          ∙ v.start i hi ui
          ∙ ap head_of c)
    | inr q ↦ rw q (v.start j hj uj)
  ]

-- Only the size of an entry and the offset of a descriptor are changed.
pub resized {ℓ} :
    {A : Type ℓ} (f : DirectoryEntry → A) (dir : ℕ → DirectoryEntry) (i j : ℕ) (z : ℤ)
    → ((d : DirectoryEntry) → f (record d { size = z }) ≡ f d)
    → f (update dir i (record (dir i) { size = z }) j) ≡ f (dir j)
resized f dir i j z h = elim (Bool-cases (i == j)) [
  | inl q ↦ rw q (h (dir i) ∙ ap (λ k. f (dir k)) (==→≡ i j q))
  | inr q ↦ rw q
]

pub moved {ℓ} :
    {A : Type ℓ} (f : FileDescriptor → A) (fds : ℕ → FileDescriptor) (i j : ℕ) (z : ℤ)
    → ((d : FileDescriptor) → f (record d { offset = z }) ≡ f d)
    → f (update fds i (record (fds i) { offset = z }) j) ≡ f (fds j)
moved f fds i j z h = elim (Bool-cases (i == j)) [
  | inl q ↦ rw q (h (fds i) ∙ ap (λ k. f (fds k)) (==→≡ i j q))
  | inr q ↦ rw q
]

pub opens-moved :
    (fds : ℕ → FileDescriptor) (k : ℕ) (z x : ℤ) (n : ℕ)
    → opens (update fds k (record (fds k) { offset = z })) x n ≡ opens fds x n
unfolding opens
opens-moved fds k z x zero = refl
opens-moved fds k z x (suc n) =
    let e = opens-moved fds k z x n in
    let u = moved (λ d. d.used) fds k n z (λ d. refl) in
    let w = moved (λ d. d.inode_number) fds k n z (λ d. refl) in rw (e, u, w)
