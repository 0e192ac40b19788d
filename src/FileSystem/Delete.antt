-- ===== src/FileSystem/Delete.antt =====
-- fs_delete of fs.c on a valid file system.
use ec.Base.{
  ℕ, zero, suc, ◌<◌, ◌≡◌, ◌≢◌, sym, ◌∙◌, ap, inl, inr, true, false, some, List, [], ◌∷◌, ◌==◌,
  Bool-cases, Option-cases, ==→≡, ==→≢, ≢→==, arith, first_index-eq-none,
}
use ec.Base.Int.{ℤ, pos, ==ℤ-refl, ltb_ℤ, minus_one}
use ec.Base.Blocks.{contains, length-le-of_Below}
use ec.FileSystem.State.{FileDescriptor, Name, same_name, Fs, returns}
use ec.FileSystem.Directory.{entry_named, clear_entry, delete_entry, fs_delete}
use ec.FileSystem.Chain.{
  Linked-agree, IsChain, head_of, freed, bitmap-freed, table-freed, directory-freed, fds-freed,
  free_chain-eq,
}
use ec.FileSystem.Valid.{IsValid, opens, entry_named-used, same_name_refl}

-- A descriptor that is open on a file is counted.
opens_pos :
    (fds : ℕ → FileDescriptor) (x : ℤ) (n k : ℕ)
    → k < n
    → (fds k).used ≡ true
    → (fds k).inode_number ≡ x
    → 0 < opens fds x n
unfolding opens
opens_pos fds x zero k h u e = absurd (omega arith)
opens_pos fds x (suc n) k h u e = elim (Bool-cases (k == n)) [
  | inl q ↦ ground (arith, ==→≡ k n q, ==ℤ-refl x)
  | inr q ↦ omega (arith, opens_pos fds x n k (omega (arith, ==→≢ k n q)) u e)
]

-- What `fs_delete` returns and leaves.
pub data Deletes (name : Name) (s : Fs) (chain : ℕ → List ℕ) : ℤ → Fs → Type 0 where
  no_file :
      ((i : ℕ) → i < 64 → (s.directory i).used ≡ true → same_name name (s.directory i).name ≡ false)
      → Deletes name s chain minus_one s
  is_open :
      (i : ℕ)
      → i < 64
      → (s.directory i).name ≡ name
      → ltb_ℤ (pos 0) (s.directory i).count ≡ true
      → Deletes name s chain minus_one s
  deletes :
      (i : ℕ)
      → i < 64
      → (s.directory i).used ≡ true
      → (s.directory i).name ≡ name
      → ((k : ℕ)
          → k < 32
          → (s.fd_array k).used ≡ true
          → (s.fd_array k).inode_number ≢ (s.directory i).inode_number)
      → Deletes name s chain (pos 0) (clear_entry i (freed (chain i) s))

module _ (s : Fs) (chain : ℕ → List ℕ) (i : ℕ) where
  abbrev deleted : Fs
  deleted = clear_entry i (freed (chain i) s)

  kept :
      (a : ℕ) → (deleted.directory a).used ≡ true → (a ≢ i) × (deleted.directory a ≡ s.directory a)
  kept a u = elim (Bool-cases (i == a)) [
    | inl e ↦ cc (rw e at u)
    | inr e ↦ (λ q. ==→≢ i a e (sym q), rw e (ap (λ d. d a) (directory-freed (chain i) s)))
  ]

  others_kept : (a : ℕ) → a ≢ i → deleted.directory a ≡ s.directory a
  others_kept a ne = rw (≢→== i a (λ q. ne (sym q))) (ap (λ d. d a) (directory-freed (chain i) s))

  elsewhere :
      (ns : List ℕ)
      → IsChain s.table ns
      → ((n : ℕ) → contains ns n ≡ true → contains (chain i) n ≡ false)
      → IsChain deleted.table ns
  elsewhere ns v h = record {
    linked =
        Linked-agree s.table deleted.table ns (λ n c. table-freed (chain i) s n ∙ rw (h n c))
          v.linked;
    different = v.different;
    on_disk = v.on_disk;
  }

  deleted-IsValid :
      IsValid s chain
      → i < 64
      → (s.directory i).used ≡ true
      → ((k : ℕ)
          → k < 32
          → (s.fd_array k).used ≡ true
          → (s.fd_array k).inode_number ≢ (s.directory i).inode_number)
      → IsValid deleted chain
  deleted-IsValid v hi ui idle = record {
    one_name = λ a b ha hb ua ub e.
        let ea = (kept a ua).1 in
        let eb = (kept b ub).1 in
        v.one_name a b ha hb (rw ea at ua) (rw eb at ub) (rw (ea, eb) at e);
    cleared = λ a ha ua. elim (Bool-cases (i == a)) [
      | inl e ↦ rw e
      | inr e ↦
          let ea : deleted.directory a ≡ s.directory a =
            rw e (ap (λ d. d a) (directory-freed (chain i) s)) in
          rw ea (v.cleared a ha (rw ea at ua))
    ];
    counted = λ a ha ua.
        let ea = (kept a ua).1 in rw (ea, fds-freed (chain i) s) (v.counted a ha (rw ea at ua));
    open_file = λ j hj uj.
        let fe : (freed (chain i) s).fd_array j ≡ s.fd_array j =
          ap (λ f. f j) (fds-freed (chain i) s) in
        let (a, ha, ua, q) = v.open_file j hj (rw fe at uj) in
        let ne : a ≢ i =
          (λ w. idle j hj (rw fe at uj) (sym q ∙ ap (λ z. (s.directory z).inode_number) w)) in
        let da : deleted.directory a ≡ s.directory a = others_kept a ne in
        (a, ha, rw da ua, rw (da, fe) q);
    start = λ a ha ua. let ea = (kept a ua).1 in rw ea (v.start a ha (rw ea at ua));
    linked = λ a ha ua.
        let (ne, ea) = kept a ua in
        elsewhere (chain a) (v.linked a ha (rw ea at ua))
          (λ n c. v.apart a i n ha hi (rw ea at ua) ui ne c);
    claimed = λ a n ha ua c.
        let (ne, ea) = kept a ua in
        rw (bitmap-freed (chain i) s n, v.apart a i n ha hi (rw ea at ua) ui ne c)
          (v.claimed a n ha (rw ea at ua) c);
    apart = λ a b n ha hb ua ub ne c.
        let ea = (kept a ua).1 in
        let eb = (kept b ub).1 in v.apart a b n ha hb (rw ea at ua) (rw eb at ub) ne c;
  }

pub count-positive :
    (s : Fs) (chain : ℕ → List ℕ) (i k : ℕ)
    → IsValid s chain
    → i < 64
    → (s.directory i).used ≡ true
    → k < 32
    → (s.fd_array k).used ≡ true
    → (s.fd_array k).inode_number ≡ (s.directory i).inode_number
    → ltb_ℤ (pos 0) (s.directory i).count ≡ true
count-positive s chain i k v hi ui hk uk e =
    rw (v.counted i hi ui)
      (ground (arith, opens_pos s.fd_array (s.directory i).inode_number 32 k hk uk e))

fs_delete-chain :
    (name : Name) (s : Fs) (i : ℕ) (ns : List ℕ)
    → entry_named name s ≡ some i
    → ltb_ℤ (pos 0) (s.directory i).count ≡ false
    → (s.directory i).inode_number ≡ head_of ns
    → IsChain s.table ns
    → fs_delete name s ≡ returns (pos 0) (clear_entry i (freed ns s))
unfolding fs_delete delete_entry
fs_delete-chain name s i [] e c h v = absurd v.linked
fs_delete-chain name s i (n ∷ ns) e c h v =
    rw (e, c, h)
      (free_chain-eq 8193 i n ns s v.linked v.different v.on_disk
        (omega (arith, length-le-of_Below 8192 (n ∷ ns) v.on_disk v.different)))

-- On a valid file system `fs_delete` with a name that is not empty always ends, without a fault.
-- It returns -1 and changes nothing if no file has the name, or if the file is counted as open;
-- else no descriptor is open on the file, and it frees the blocks of its chain and clears its
-- entry. The file system stays valid, with every other file's blocks as they were.
pub fs_delete-Deletes :
    (name : Name) (s : Fs) (chain : ℕ → List ℕ)
    → IsValid s chain
    → name ≢ []
    → (r : ℤ) × (s' : Fs) × (fs_delete name s ≡ returns r s')
      × Deletes name s chain r s'
      × IsValid s' chain
unfolding fs_delete delete_entry
fs_delete-Deletes name s chain v ne = elim (Option-cases (entry_named name s)) [
  | inl none_named ↦ (
    minus_one,
    s,
    rw none_named,
    no_file
        (λ i hi _. unfold entry_named in first_index-eq-none _ 0 64 i none_named (omega arith) hi),
    v,
  )
  | inr (i, e) ↦
      let (hi, ui, same) = entry_named-used v name ne e in
      elim (Bool-cases (ltb_ℤ (pos 0) (s.directory i).count)) [
        | inl c ↦ (minus_one, s, rw (e, c), is_open i hi same c, v)
        | inr c ↦
            let idle : (k : ℕ)
                → k < 32
                → (s.fd_array k).used ≡ true
                → (s.fd_array k).inode_number ≢ (s.directory i).inode_number =
              λ k hk uk q. cc (count-positive s chain i k v hi ui hk uk q, c) in
            (
              pos 0,
              clear_entry i (freed (chain i) s),
              fs_delete-chain name s i (chain i) e c (v.start i hi ui) (v.linked i hi ui),
              deletes i hi ui same idle,
              deleted-IsValid s chain i v hi ui idle,
            )
      ]
]

-- On a valid file system a file, with a name that is not empty, that a descriptor is open on
-- cannot be deleted: `fs_delete` returns -1 and changes nothing.
pub fs_delete-refuses :
    (name : Name) (s : Fs) (chain : ℕ → List ℕ) (i k : ℕ)
    → IsValid s chain
    → name ≢ []
    → i < 64
    → (s.directory i).used ≡ true
    → (s.directory i).name ≡ name
    → k < 32
    → (s.fd_array k).used ≡ true
    → (s.fd_array k).inode_number ≡ (s.directory i).inode_number
    → fs_delete name s ≡ returns minus_one s
unfolding fs_delete delete_entry
fs_delete-refuses name s chain i k v ne hi ui same hk uk q =
    elim (Option-cases (entry_named name s)) [
      | inl none_named ↦ rw none_named
      | inr (j, e) ↦
          let (hj, uj, same') = entry_named-used v name ne e in
          let ij : j ≡ i = v.one_name j i hj hi uj ui (rw (same, same') (same_name_refl name)) in
          rw e (
            rw (
              ap (λ z. ltb_ℤ (pos 0) (s.directory z).count) ij,
              count-positive s chain i k v hi ui hk uk q,
            ))
    ]
