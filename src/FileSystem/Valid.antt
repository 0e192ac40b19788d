-- ===== src/FileSystem/Valid.antt =====
-- What holds of a mounted file system between two calls, and that opening, closing and seeking keep it.
use ec.Base.{
  ℕ, zero, suc, ◌+◌, ◌≤◌, ◌<◌, ◌≡◌, ◌≢◌, refl, sym, ◌∙◌, ap, inl, inr, true, false, not, ◌&&◌, some,
  List, [], ◌∷◌, ◌==◌, if◌then◌else◌, update, Bool-cases, ==→≡, ==→≢, arith, first_index-IsFirst,
  IsFirst,
}
use ec.Base.Int.{ℤ, pos, ◌==ℤ◌, ==ℤ→≡, ==ℤ-refl, incr}
use ec.Base.Blocks.{contains}
use ec.FileSystem.State.{Inode, FileDescriptor, Name, same_name, Fs, store_fd, store_entry}
use ec.FileSystem.Directory.{free_descriptor, entry_named}
use ec.FileSystem.Chain.{IsChain, head_of}

-- Whether a descriptor is open on the file that begins at an inode, as a number.
abbrev pub opens_at : FileDescriptor → ℤ → ℕ
opens_at f x = if f.used && (f.inode_number ==ℤ x) then 1 else 0

-- How many of the first `n` descriptors are.
unfoldable pub opens : (ℕ → FileDescriptor) → ℤ → ℕ → ℕ
opens fds x zero = 0
opens fds x (suc n) = opens fds x n + opens_at (fds n) x

-- `chain` gives the blocks of each file.
pub record IsValid (s : Fs) (chain : ℕ → List ℕ) : Type 0 where
  pub one_name :
      (i j : ℕ)
      → i < 64
      → j < 64
      → (s.directory i).used ≡ true
      → (s.directory j).used ≡ true
      → same_name (s.directory i).name (s.directory j).name ≡ true
      → i ≡ j
  pub cleared : (i : ℕ) → i < 64 → (s.directory i).used ≡ false → (s.directory i).name ≡ []
  pub counted :
      (i : ℕ)
      → i < 64
      → (s.directory i).used ≡ true
      → (s.directory i).count ≡ pos (opens s.fd_array (s.directory i).inode_number 32)
  pub open_file :
      (k : ℕ)
      → k < 32
      → (s.fd_array k).used ≡ true
      → (i : ℕ) × (i < 64)
        × ((s.directory i).used ≡ true)
        × ((s.directory i).inode_number ≡ (s.fd_array k).inode_number)
  pub start :
      (i : ℕ)
      → i < 64
      → (s.directory i).used ≡ true
      → (s.directory i).inode_number ≡ head_of (chain i)
  pub linked : (i : ℕ) → i < 64 → (s.directory i).used ≡ true → IsChain s.table (chain i)
  pub claimed :
      (i n : ℕ)
      → i < 64
      → (s.directory i).used ≡ true
      → contains (chain i) n ≡ true
      → (s.bitmap n == 0) ≡ false
  pub apart :
      (i j n : ℕ)
      → i < 64
      → j < 64
      → (s.directory i).used ≡ true
      → (s.directory j).used ≡ true
      → i ≢ j
      → contains (chain i) n ≡ true
      → contains (chain j) n ≡ false

contains-head : (n : ℕ) (ns : List ℕ) → contains (n ∷ ns) n ≡ true
contains-head n ns = ground arith

heads-apart :
    (t : ℕ → Inode) (a b : List ℕ)
    → IsChain t a
    → ((n : ℕ) → contains a n ≡ true → contains b n ≡ false)
    → head_of b ≢ head_of a
heads-apart t [] b v h e = v.linked
heads-apart t (n ∷ ns) [] v h e = cc
heads-apart t (n ∷ ns) (m ∷ ms) v h e =
    let same : m ≡ n = ground arith in ground (arith, h n (contains-head n ns))

module _ {s : Fs} {chain : ℕ → List ℕ} (v : IsValid s chain) where
  -- Two used entries have different inodes.
  pub inodes_differ :
      (i j : ℕ)
      → i < 64
      → j < 64
      → (s.directory i).used ≡ true
      → (s.directory j).used ≡ true
      → i ≢ j
      → (s.directory j).inode_number ≢ (s.directory i).inode_number
  inodes_differ i j hi hj ui uj ne e =
      heads-apart s.table (chain i) (chain j) (v.linked i hi ui) (λ n. v.apart i j n hi hj ui uj ne)
        (sym (v.start j hj uj) ∙ e ∙ v.start i hi ui)

opens-update_beyond :
    (fds : ℕ → FileDescriptor) (k : ℕ) (f : FileDescriptor) (x : ℤ) (n : ℕ)
    → n ≤ k
    → opens (update fds k f) x n ≡ opens fds x n
unfolding opens
opens-update_beyond fds k f x zero h = refl
opens-update_beyond fds k f x (suc n) h =
    ground (arith, opens-update_beyond fds k f x n (omega arith))

-- A descriptor that changes changes the number by what it contributes.
pub opens-update :
    (fds : ℕ → FileDescriptor) (k : ℕ) (f : FileDescriptor) (x : ℤ) (n : ℕ)
    → k < n
    → opens (update fds k f) x n + opens_at (fds k) x ≡ opens fds x n + opens_at f x
unfolding opens
opens-update fds k f x zero h = absurd (omega arith)
opens-update fds k f x (suc n) h = elim (Bool-cases (k == n)) [
  | inl e ↦ rw e (
      omega (
        arith,
        opens-update_beyond fds k f x n (omega (arith, ==→≡ k n e)),
        ap (λ z. opens_at (fds z) x) (==→≡ k n e),
      ))
  | inr e ↦ rw e (omega (arith, opens-update fds k f x n (omega (arith, ==→≢ k n e))))
]

-- An open name that is not empty belongs to a used entry.
same_name-empty : (a : ℕ) (as' : Name) → same_name (a ∷ as') [] ≡ false
same_name-empty a as' = refl

pub same_name_refl : (a : Name) → same_name a a ≡ true
same_name_refl [] = refl
same_name_refl (c ∷ cs) = ground (arith, same_name_refl cs)

pub same_name→≡ : (a b : Name) → same_name a b ≡ true → a ≡ b
same_name→≡ [] [] h = refl
same_name→≡ [] (b ∷ bs) h = cc
same_name→≡ (a ∷ as') [] h = cc
same_name→≡ (a ∷ as') (b ∷ bs) h = ground (arith, same_name→≡ as' bs)

module _ {s : Fs} {chain : ℕ → List ℕ} (v : IsValid s chain) where
  pub entry_named-used :
      (name : Name) {i : ℕ}
      → name ≢ []
      → entry_named name s ≡ some i
      → (i < 64) × ((s.directory i).used ≡ true) × ((s.directory i).name ≡ name)
  unfolding entry_named
  entry_named-used name {i} ne e =
      let f : IsFirst (λ k. same_name name (s.directory k).name) 0 64 i =
        first_index-IsFirst _ 0 64 e in
      let hi : i < 64 = omega (arith, f.below) in
      let same : name ≡ (s.directory i).name = same_name→≡ name _ f.passes in
      elim (Bool-cases (s.directory i).used) [
        | inl u ↦ (hi, u, sym same)
        | inr u ↦ absurd (ne (same ∙ v.cleared i hi u))
      ]

  pub free_descriptor-unused :
      {k : ℕ} → free_descriptor s ≡ some k → (k < 32) × ((s.fd_array k).used ≡ false)
  unfolding free_descriptor
  free_descriptor-unused {k} e =
      let f : IsFirst (λ i. not (s.fd_array i).used) 0 32 k = first_index-IsFirst _ 0 32 e in
      let p = f.passes in (omega (arith, f.below), ground arith)

-- Descriptor `k` is given the entry `i`.
abbrev pub opened : ℕ → ℕ → Fs → Fs
opened k i s =
    let e = s.directory i in
    store_entry
      (store_fd s k (record { used = true; inode_number = e.inode_number; offset = pos 0 })) i
      (record e { count = incr e.count })

-- Counting again after descriptor `k` has changed.
pub count-opened :
    (s : Fs) (k : ℕ) (f : FileDescriptor) (x : ℤ) (c : ℕ)
    → k < 32
    → opens_at (s.fd_array k) x ≡ 0
    → opens_at f x ≡ c
    → opens (update s.fd_array k f) x 32 ≡ opens s.fd_array x 32 + c
count-opened s k f x c hk z o = omega (arith, opens-update s.fd_array k f x 32 hk)

counted-opened :
    (s : Fs) (chain : ℕ → List ℕ) (k i a : ℕ)
    → IsValid s chain
    → k < 32
    → (s.fd_array k).used ≡ false
    → i < 64
    → (s.directory i).used ≡ true
    → a < 64
    → (s.directory a).used ≡ true
    → ((opened k i s).directory a).count
      ≡ pos (opens (opened k i s).fd_array (s.directory a).inode_number 32)
counted-opened s chain k i a v hk free hi u ha ua =
    let x = (s.directory a).inode_number in
    let f : FileDescriptor = record {
      used = true;
      inode_number = (s.directory i).inode_number;
      offset = pos 0;
    } in
    let none_yet : opens_at (s.fd_array k) x ≡ 0 = ground arith in
    elim (Bool-cases (i == a)) [
      | inl e ↦
          let same : i ≡ a = ==→≡ i a e in
          let one : opens_at f x ≡ 1 =
            ground (arith, ==ℤ-refl x, ap (λ z. (s.directory z).inode_number) same) in
          rw e (
            ap incr (ap (λ z. (s.directory z).count) same ∙ v.counted a ha ua)
            ∙ ap pos (sym (count-opened s k f x 1 hk none_yet one)))
      | inr e ↦
          let other : opens_at f x ≡ 0 = ground (
            arith,
            ==ℤ→≡ (s.directory i).inode_number x,
            inodes_differ v a i ha hi ua u (λ q. ==→≢ i a e (sym q)),
          ) in
          let n = count-opened s k f x 0 hk none_yet other in
          rw e (v.counted a ha ua ∙ ap pos (omega (arith, n)))
    ]

inode-opened :
    (s : Fs) (k i a : ℕ) → ((opened k i s).directory a).inode_number ≡ (s.directory a).inode_number
inode-opened s k i a = ground arith

used-opened : (s : Fs) (k i a : ℕ) → ((opened k i s).directory a).used ≡ (s.directory a).used
used-opened s k i a = ground arith

pub opened-IsValid :
    (s : Fs) (chain : ℕ → List ℕ) (k i : ℕ)
    → IsValid s chain
    → k < 32
    → (s.fd_array k).used ≡ false
    → i < 64
    → (s.directory i).used ≡ true
    → IsValid (opened k i s) chain
opened-IsValid s chain k i v hk free hi u = record {
  one_name = λ a b ha hb ua ub e. v.one_name a b ha hb (ground arith) (ground arith) (ground arith);
  cleared = λ a ha ua. ground (arith, v.cleared a ha);
  counted = λ a ha ua.
      rw (inode-opened s k i a)
        (counted-opened s chain k i a v hk free hi u ha (sym (used-opened s k i a) ∙ ua));
  open_file = λ j hj uj. elim (Bool-cases (k == j)) [
    | inl e ↦ (i, hi, used-opened s k i i ∙ u, inode-opened s k i i ∙ rw e)
    | inr e ↦
        let (a, ha, ua, same) = v.open_file j hj (rw e at uj) in
        (a, ha, used-opened s k i a ∙ ua, inode-opened s k i a ∙ rw e same)
  ];
  start = λ a ha ua. ground (arith, v.start a ha);
  linked = λ a ha ua. v.linked a ha (ground arith);
  claimed = λ a n ha ua c. v.claimed a n ha (ground arith) c;
  apart = λ a b n ha hb ua ub ne c. v.apart a b n ha hb (ground arith) (ground arith) ne c;
}
