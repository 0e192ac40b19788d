-- ===== src/FileSystem/OpenClose.antt =====
-- fs_open and fs_close of fs.c on a valid file system.
use ec.Base.{
  ℕ, suc, ◌+◌, ◌<◌, ◌≡◌, ◌≢◌, refl, sym, ◌∙◌, ap, inl, inr, true, false, ◌&&◌, Option, none, some,
  List, [], ◌==◌, update, Bool-cases, ==→≡, ==→≢, arith, first_index-IsFirst, first_index_total,
  first_index-eq-none, not, IsFirst,
}
use ec.Base.Int.{ℤ, pos, ◌==ℤ◌, ==ℤ→≡, ==ℤ-refl, minus_one, decr}
use ec.FileSystem.State.{FileDescriptor, Name, same_name, Fs, returns, store_fd, store_entry}
use ec.FileSystem.Directory.{
  free_descriptor, entry_named, entry_of_inode, open_entry, open_descriptor, fs_open, close_entry,
  fs_close,
}
use ec.FileSystem.Valid.{
  IsValid, opens, opens_at, opens-update, inodes_differ, same_name_refl, entry_named-used,
  free_descriptor-unused, opened, opened-IsValid,
}

-- What `fs_open` returns and leaves: it refuses when all the descriptors are open or when no used entry has the
-- name.
pub data Opens (name : Name) (s : Fs) (r : ℤ) (s' : Fs) : Type 0 where
  all_open :
      r ≡ minus_one → s' ≡ s → ((k : ℕ) → k < 32 → (s.fd_array k).used ≡ true) → Opens name s r s'
  no_file :
      r ≡ minus_one
      → s' ≡ s
      → ((i : ℕ) → i < 64 → (s.directory i).used ≡ true → (s.directory i).name ≢ name)
      → Opens name s r s'
  opens_file :
      (k i : ℕ)
      → r ≡ pos k
      → k < 32
      → (s.fd_array k).used ≡ false
      → i < 64
      → (s.directory i).used ≡ true
      → (s.directory i).name ≡ name
      → s' ≡ opened k i s
      → Opens name s r s'

Opens-IsValid :
    (name : Name) (s s' : Fs) (chain : ℕ → List ℕ) (r : ℤ)
    → IsValid s chain
    → Opens name s r s'
    → IsValid s' chain
Opens-IsValid name s s' chain r v (all_open _ e _) = rw e v
Opens-IsValid name s s' chain r v (no_file _ e _) = rw e v
Opens-IsValid name s s' chain r v (opens_file k i _ hk free hi u _ e) =
    rw e (opened-IsValid s chain k i v hk free hi u)

none_free : (s : Fs) → free_descriptor s ≡ none → (k : ℕ) → k < 32 → (s.fd_array k).used ≡ true
unfolding free_descriptor
none_free s e k h =
    let q : not (s.fd_array k).used ≡ false =
      first_index-eq-none (λ i. not (s.fd_array i).used) 0 32 k e (omega arith) (omega arith) in
    ground arith

none_named :
    (name : Name) (s : Fs)
    → entry_named name s ≡ none
    → (i : ℕ) → i < 64
    → (s.directory i).used ≡ true
    → (s.directory i).name ≢ name
unfolding entry_named
none_named name s e i h u q =
    let f : same_name name (s.directory i).name ≡ false =
      first_index-eq-none (λ j. same_name name (s.directory j).name) 0 64 i e (omega arith)
        (omega arith) in
    cc (same_name_refl name, ap (same_name name) q)

-- On a valid file system `fs_open` with a name that is not empty always returns, and the file system stays
-- valid. When all 32 descriptors are open it returns -1 and changes nothing, and so it does when no used entry
-- has the name. Otherwise it returns a descriptor that was closed, opens it at offset 0 on the used entry of that
-- name, and counts it.
pub fs_open-Opens :
    (name : Name) (s : Fs) (chain : ℕ → List ℕ)
    → IsValid s chain
    → name ≢ []
    → (r : ℤ) × (s' : Fs) × (fs_open name s ≡ returns r s') × Opens name s r s' × IsValid s' chain
unfolding fs_open
fs_open-Opens name s chain v ne = split (free_descriptor s) refl (entry_named name s) refl
  where
    with_valid :
        (r : ℤ) (s' : Fs)
        → fs_open name s ≡ returns r s'
        → Opens name s r s'
        → (r : ℤ) × (s' : Fs) × (fs_open name s ≡ returns r s')
          × Opens name s r s'
          × IsValid s' chain
    with_valid r s' e o = (r, s', e, o, Opens-IsValid name s s' chain r v o)

    split :
        (o : Option ℕ)
        → free_descriptor s ≡ o
        → (p : Option ℕ) → entry_named name s ≡ p
        → (r : ℤ) × (s' : Fs) × (fs_open name s ≡ returns r s')
          × Opens name s r s'
          × IsValid s' chain
    split none f p g =
        with_valid minus_one s (unfold open_descriptor in rw f refl)
          (all_open refl refl (none_free s f))
    split (some k) f none g =
        with_valid minus_one s (unfold open_descriptor open_entry in rw (f, g) refl)
          (no_file refl refl (none_named name s g))
    split (some k) f (some i) g =
        let (hk, free) = free_descriptor-unused v f in
        let (hi, u, same) = entry_named-used v name ne g in
        with_valid (pos k) (opened k i s) (unfold open_descriptor open_entry in rw (f, g) refl)
          (opens_file k i refl hk free hi u same refl)

-- Descriptor `k`, open on the entry `i`, is closed.
abbrev pub closed : ℕ → ℕ → Fs → Fs
closed k i s =
    let e = s.directory i in
    store_entry (store_fd s k (record { used = false; inode_number = minus_one; offset = pos 0 })) i
      (record e { count = decr e.count })

inode-closed :
    (s : Fs) (k i a : ℕ) → ((closed k i s).directory a).inode_number ≡ (s.directory a).inode_number
inode-closed s k i a = ground arith

used-closed : (s : Fs) (k i a : ℕ) → ((closed k i s).directory a).used ≡ (s.directory a).used
used-closed s k i a = ground arith

counted-closed :
    (s : Fs) (chain : ℕ → List ℕ) (k i a : ℕ)
    → IsValid s chain
    → k < 32
    → (s.fd_array k).used ≡ true
    → i < 64
    → (s.directory i).used ≡ true
    → (s.directory i).inode_number ≡ (s.fd_array k).inode_number
    → a < 64
    → (s.directory a).used ≡ true
    → ((closed k i s).directory a).count
      ≡ pos (opens (closed k i s).fd_array (s.directory a).inode_number 32)
counted-closed s chain k i a v hk busy hi u same ha ua =
    let x = (s.directory a).inode_number in
    let f : FileDescriptor = record { used = false; inode_number = minus_one; offset = pos 0 } in
    let change : opens (update s.fd_array k f) x 32 + opens_at (s.fd_array k) x
        ≡ opens s.fd_array x 32 + 0 =
      opens-update s.fd_array k f x 32 hk in
    elim (Bool-cases (i == a)) [
      | inl e ↦
          let ia : i ≡ a = ==→≡ i a e in
          let one : opens_at (s.fd_array k) x ≡ 1 =
            ground (arith, ==ℤ-refl x, ap (λ z. (s.directory z).inode_number) ia) in
          let fewer : opens s.fd_array x 32 ≡ suc (opens (update s.fd_array k f) x 32) =
            omega arith in
          rw e (ap decr (ap (λ z. (s.directory z).count) ia ∙ v.counted a ha ua ∙ ap pos fewer))
      | inr e ↦
          let other : opens_at (s.fd_array k) x ≡ 0 = ground (
            arith,
            ==ℤ→≡ (s.fd_array k).inode_number x,
            inodes_differ v a i ha hi ua u (λ q. ==→≢ i a e (sym q)),
          ) in
          rw e (v.counted a ha ua ∙ ap pos (omega arith))
    ]

closed-IsValid :
    (s : Fs) (chain : ℕ → List ℕ) (k i : ℕ)
    → IsValid s chain
    → k < 32
    → (s.fd_array k).used ≡ true
    → i < 64
    → (s.directory i).used ≡ true
    → (s.directory i).inode_number ≡ (s.fd_array k).inode_number
    → IsValid (closed k i s) chain
closed-IsValid s chain k i v hk busy hi u same = record {
  one_name = λ a b ha hb ua ub e. v.one_name a b ha hb (ground arith) (ground arith) (ground arith);
  cleared = λ a ha ua. ground (arith, v.cleared a ha);
  counted = λ a ha ua.
      rw (inode-closed s k i a)
        (counted-closed s chain k i a v hk busy hi u same ha (sym (used-closed s k i a) ∙ ua));
  open_file = λ j hj uj. elim (Bool-cases (k == j)) [
    | inl e ↦ cc (rw e at uj)
    | inr e ↦
        let (a, ha, ua, q) = v.open_file j hj (rw e at uj) in
        (a, ha, used-closed s k i a ∙ ua, inode-closed s k i a ∙ rw e q)
  ];
  start = λ a ha ua. ground (arith, v.start a ha);
  linked = λ a ha ua. v.linked a ha (ground arith);
  claimed = λ a n ha ua c. v.claimed a n ha (ground arith) c;
  apart = λ a b n ha hb ua ub ne c. v.apart a b n ha hb (ground arith) (ground arith) ne c;
}

pub entry_of_inode-used :
    (x : ℤ) (s : Fs) {i : ℕ}
    → entry_of_inode x s ≡ some i
    → (i < 64) × ((s.directory i).used ≡ true) × ((s.directory i).inode_number ≡ x)
unfolding entry_of_inode
entry_of_inode-used x s {i} e =
    let f : IsFirst (λ j. (s.directory j).used && ((s.directory j).inode_number ==ℤ x)) 0 64 i =
      first_index-IsFirst _ 0 64 e in
    let t = f.passes in (omega (arith, f.below), ground arith, ==ℤ→≡ _ x (ground arith))

pub entry_of_inode-finds :
    (x : ℤ) (s : Fs) (i : ℕ)
    → i < 64
    → (s.directory i).used ≡ true
    → (s.directory i).inode_number ≡ x
    → (j : ℕ) × (entry_of_inode x s ≡ some j)
unfolding entry_of_inode
entry_of_inode-finds x s i hi u e =
    first_index_total _ 0 64 i (ground (arith, ==ℤ-refl x)) (omega arith) (omega arith)

-- What `fs_close` of a descriptor of the array leaves.
pub data Closes (k : ℕ) (s : Fs) : ℤ → Fs → Type 0 where
  not_open : (s.fd_array k).used ≡ false → Closes k s minus_one s
  closes_file :
      (i : ℕ)
      → (s.fd_array k).used ≡ true
      → i < 64
      → (s.directory i).used ≡ true
      → (s.directory i).inode_number ≡ (s.fd_array k).inode_number
      → Closes k s (pos 0) (closed k i s)

fs_close-eq :
    (k : ℕ) (s : Fs)
    → k < 32
    → fs_close (pos k) s ≡ close_entry k s (entry_of_inode (s.fd_array k).inode_number s)
unfolding fs_close
fs_close-eq k s h = ground arith

-- On a valid file system `fs_close` of a descriptor of the array never faults: one that is not
-- open gives -1 and changes nothing, an open one is closed and taken off the count of its file.
-- The file system stays valid.
pub fs_close-Closes :
    (k : ℕ) (s : Fs) (chain : ℕ → List ℕ)
    → IsValid s chain
    → k < 32
    → (r : ℤ) × (s' : Fs) × (fs_close (pos k) s ≡ returns r s') × Closes k s r s' × IsValid s' chain
unfolding close_entry
fs_close-Closes k s chain v hk = elim (Bool-cases (s.fd_array k).used) [
  | inl u ↦
      let (a, ha, ua, same) = v.open_file k hk u in
      let (i, found) = entry_of_inode-finds (s.fd_array k).inode_number s a ha ua same in
      let (hi, ui, q) = entry_of_inode-used (s.fd_array k).inode_number s found in
      (
        pos 0,
        closed k i s,
        fs_close-eq k s hk ∙ rw found (rw u),
        closes_file i u hi ui q,
        closed-IsValid s chain k i v hk u hi ui q,
      )
  | inr u ↦ (
    minus_one,
    s,
    fs_close-eq k s hk ∙ idle u (entry_of_inode (s.fd_array k).inode_number s),
    not_open u,
    v,
  )
]
  where
    idle : (s.fd_array k).used ≡ false → (o : Option ℕ) → close_entry k s o ≡ returns minus_one s
    idle u none = refl
    idle u (some i) = rw u
