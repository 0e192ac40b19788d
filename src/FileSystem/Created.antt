-- ===== src/FileSystem/Created.antt =====
-- The file system after fs_create of fs.c has made a file.
use ec.Base.{
  ℕ, zero, suc, ◌<◌, ◌≡◌, ◌≢◌, refl, sym, ◌∙◌, ap, inl, inr, true, false, List, [], ◌∷◌, ◌==◌,
  update, Bool-cases, ==→≡, ≢→==, arith,
}
use ec.Base.Int.{ℤ, pos, ==ℤ→≡}
use ec.Base.Blocks.{contains}
use ec.FileSystem.State.{FileDescriptor, Name, same_name, Fs}
use ec.FileSystem.Chain.{Linked-agree, IsChain, head_of}
use ec.FileSystem.Valid.{IsValid, opens}
use ec.FileSystem.CreateSearch.{created, same_name-flip}

contains-of_head : (ns : List ℕ) (n : ℕ) → head_of ns ≡ pos n → contains ns n ≡ true
contains-of_head [] n e = cc
contains-of_head (m ∷ ns) n e = ground arith

opens-zero :
    (fds : ℕ → FileDescriptor) (x : ℤ) (n : ℕ)
    → ((k : ℕ) → k < n → (fds k).used ≡ true → (fds k).inode_number ≢ x)
    → opens fds x n ≡ 0
unfolding opens
opens-zero fds x zero h = refl
opens-zero fds x (suc n) h =
    let rest : opens fds x n ≡ 0 = opens-zero fds x n (λ k l. h k (omega arith)) in
    elim (Bool-cases (fds n).used) [
      | inl u ↦ ground (arith, h n, ==ℤ→≡ (fds n).inode_number x)
      | inr u ↦ ground arith
    ]

module _ (name : Name) (s : Fs) (chain : ℕ → List ℕ) (i n : ℕ) (v : IsValid s chain)
    (new : (j : ℕ)
      → j < 64
      → (s.directory j).used ≡ true
      → same_name name (s.directory j).name ≡ false)
    (hi : i < 64) (unused : (s.directory i).used ≡ false) (hn : n < 8192)
    (free : (s.bitmap n == 0) ≡ true) where
  abbrev s1 : Fs
  s1 = created name i n s

  abbrev chain1 : ℕ → List ℕ
  chain1 = update chain i (n ∷ [])

  -- The free block belongs to no file.
  fresh : (a : ℕ) → a < 64 → (s.directory a).used ≡ true → contains (chain a) n ≡ false
  fresh a ha ua = elim (Bool-cases (contains (chain a) n)) [
    | inl c ↦ cc (v.claimed a n ha ua c, free)
    | inr c ↦ c
  ]

  other_block :
      (a m : ℕ)
      → a < 64
      → (s.directory a).used ≡ true
      → contains (chain a) m ≡ true
      → contains (n ∷ []) m ≡ false
  other_block a m ha ua c = elim (Bool-cases (n == m)) [
    | inl e ↦ cc (c, rw (==→≡ n m e) at (fresh a ha ua))
    | inr e ↦ rw e
  ]

  still_linked : (a : ℕ) → a < 64 → (s.directory a).used ≡ true → IsChain s1.table (chain a)
  still_linked a ha ua = record {
    linked =
        Linked-agree s.table s1.table (chain a) (λ m c. ground (arith, other_block a m ha ua c))
          (v.linked a ha ua).linked;
    different = (v.linked a ha ua).different;
    on_disk = (v.linked a ha ua).on_disk;
  }

  -- No descriptor is open on the new file.
  nobody : (k : ℕ) → k < 32 → (s.fd_array k).used ≡ true → (s.fd_array k).inode_number ≢ pos n
  nobody k hk uk q =
      let (a, ha, ua, same) = v.open_file k hk uk in
      cc (fresh a ha ua, contains-of_head (chain a) n (sym (v.start a ha ua) ∙ same ∙ q))

  pub created-IsValid : IsValid s1 chain1
  created-IsValid = record {
    one_name = λ a b ha hb ua ub e. elim (Bool-cases (i == a)) [
      | inl ea ↦ elim (Bool-cases (i == b)) [
        | inl eb ↦ sym (==→≡ i a ea) ∙ ==→≡ i b eb
        | inr eb ↦ cc (rw (ea, eb) at e, new b hb (rw eb at ub))
      ]
      | inr ea ↦ elim (Bool-cases (i == b)) [
        | inl eb ↦
            cc (rw (ea, eb) at e, same_name-flip (s.directory a).name name, new a ha (rw ea at ua))
        | inr eb ↦ v.one_name a b ha hb (rw ea at ua) (rw eb at ub) (rw (ea, eb) at e)
      ]
    ];
    cleared = λ a ha ua. ground (arith, v.cleared a ha);
    counted = λ a ha ua. elim (Bool-cases (i == a)) [
      | inl e ↦ rw e (ap pos (sym (opens-zero s.fd_array (pos n) 32 nobody)))
      | inr e ↦ rw e (v.counted a ha (rw e at ua))
    ];
    open_file = λ j hj uj.
        let (a, ha, ua, q) = v.open_file j hj uj in
        let ne : (i == a) ≡ false = ≢→== i a (λ w. cc (w, ua, unused)) in
        (a, ha, rw ne ua, rw ne q);
    start = λ a ha ua. elim (Bool-cases (i == a)) [
      | inl e ↦ rw e
      | inr e ↦ rw e (v.start a ha (rw e at ua))
    ];
    linked = λ a ha ua. elim (Bool-cases (i == a)) [
      | inl e ↦ rw e (record { linked = ground arith; different = (tt, tt); on_disk = (hn, tt) })
      | inr e ↦ rw e (still_linked a ha (rw e at ua))
    ];
    claimed = λ a m ha ua c. elim (Bool-cases (i == a)) [
      | inl e ↦ (let k : contains (n ∷ []) m ≡ true = rw e at c in ground arith)
      | inr e ↦ elim (Bool-cases (n == m)) [
        | inl q ↦ rw q refl
        | inr q ↦ rw q (v.claimed a m ha (rw e at ua) (rw e at c))
      ]
    ];
    apart = λ a b m ha hb ua ub ne c. elim (Bool-cases (i == a)) [
      | inl ea ↦
          let eb : (i == b) ≡ false = ≢→== i b (λ w. ne (sym (==→≡ i a ea) ∙ w)) in
          let k : contains (n ∷ []) m ≡ true = rw ea at c in
          let same : n ≡ m = ground arith in rw eb (rw same at (fresh b hb (rw eb at ub)))
      | inr ea ↦ elim (Bool-cases (i == b)) [
        | inl eb ↦ rw eb (other_block a m ha (rw ea at ua) (rw ea at c))
        | inr eb ↦ rw eb (v.apart a b m ha hb (rw ea at ua) (rw eb at ub) ne (rw ea at c))
      ]
    ];
  }
