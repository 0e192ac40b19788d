-- ===== src/FileSystem/Create.antt =====
-- fs_create of fs.c on a valid file system.
use ec.Base.{
  update_self, ℕ, ◌+◌, ◌-◌, ◌≤◌, ◌<◌, ◌≡◌, ◌≢◌, sym, ◌∙◌, inl, inr, true, false, Option, none, some,
  List, [], ◌∷◌, ◌==◌, ltb, update, Bool-cases, Option-cases, ==→≡, ==→≢, arith,
  first_index-IsFirst, first_index-eq-none, IsFirst,
}
use ec.Base.Int.{ℤ, pos, minus_one}
use ec.FileSystem.State.{max_filename_length, Name, length, same_name, Fs, returns}
use ec.FileSystem.Directory.{free_entry, count_files, create_counted, fs_create}
use ec.FileSystem.Valid.{IsValid, same_name→≡}
use ec.FileSystem.CreateSearch.{
  first_free, created, count_files-new, count_files-all, count_files-lt, free_entry-lem, all_used,
  count_files-none, fs_create-long, fs_create-counted, create_counted-free,
}
use ec.FileSystem.Created.{created-IsValid}

-- What `fs_create` returns and leaves, and the blocks of each file afterwards.
pub data Creates (name : Name) (s : Fs) (chain : ℕ → List ℕ) : ℤ → Fs → (ℕ → List ℕ) → Type 0 where
  too_long : max_filename_length < length name → Creates name s chain minus_one s chain
  exists :
      (i : ℕ)
      → i < 64
      → (s.directory i).used ≡ true
      → (s.directory i).name ≡ name
      → Creates name s chain minus_one s chain
  no_entry :
      ((i : ℕ) → i < 64 → (s.directory i).used ≡ true) → Creates name s chain minus_one s chain
  no_block :
      ((n : ℕ) → s.super.data_offset ≤ n → n < 8192 → (s.bitmap n == 0) ≡ false)
      → Creates name s chain minus_one s chain
  creates :
      (i n : ℕ)
      → length name ≤ max_filename_length
      → ((j : ℕ)
          → j < 64
          → (s.directory j).used ≡ true
          → same_name name (s.directory j).name ≡ false)
      → i < 64
      → (s.directory i).used ≡ false
      → s.super.data_offset ≤ n
      → n < 8192
      → (s.bitmap n == 0) ≡ true
      → (created name i n s).directory i
        ≡ record { used = true; inode_number = pos n; name = name; size = pos 0; count = pos 0 }
      → Creates name s chain (pos 0) (created name i n s) (update chain i (n ∷ []))

module _ (name : Name) (s : Fs) (chain : ℕ → List ℕ) (v : IsValid s chain) where
  -- What a call of `fs_create` comes to.
  abbrev Outcome : Type 0
  Outcome =
      (r : ℤ) × (s' : Fs) × (chain' : ℕ → List ℕ) × (fs_create name s ≡ returns r s')
      × Creates name s chain r s' chain'
      × IsValid s' chain'

  taken : ltb 15 (length name) ≡ false → count_files name s 0 64 0 ≡ none → Outcome
  unfolding create_counted
  taken h e =
      let (j, hj, u, t) = count_files-none name s 0 64 0 e in
      (
        minus_one,
        s,
        chain,
        fs_create-counted name s none h e,
        exists j (omega arith) u (sym (same_name→≡ name _ t)),
        v,
      )

  full_directory :
      (c : ℕ)
      → ltb 15 (length name) ≡ false
      → count_files name s 0 64 0 ≡ some c
      → ((i : ℕ) → i < 64 → (s.directory i).used ≡ true)
      → Outcome
  unfolding create_counted
  full_directory c h e all =
      let same : c ≡ 0 + 64 = count_files-all name s 0 64 0 e (λ j _ hj. all j (omega arith)) in
      (
        minus_one,
        s,
        chain,
        fs_create-counted name s (some c) h e ∙ ground (arith, same),
        no_entry all,
        v,
      )

  with_entry :
      (c i : ℕ)
      → ltb 15 (length name) ≡ false
      → count_files name s 0 64 0 ≡ some c
      → free_entry s ≡ some i
      → c ≢ 64
      → Outcome
  with_entry c i h e free ne =
      let from = s.super.data_offset in
      let (hi, unused) = free_entry-lem s free in
      let run = λ (o : Option ℕ) (f : first_free from (8192 - from) s ≡ o).
        fs_create-counted name s (some c) h e ∙ create_counted-free name s c i o ne free f in
      elim (Option-cases (first_free from (8192 - from) s)) [
        | inl f ↦ (
          minus_one,
          s,
          chain,
          run none f,
          no_block (λ n lo hn. first_index-eq-none _ from (8192 - from) n f lo (omega arith)),
          v,
        )
        | inr (n, f) ↦
            let q : IsFirst (λ j. s.bitmap j == 0) from (8192 - from) n =
              first_index-IsFirst _ from (8192 - from) f in
            let hn : n < 8192 = omega (arith, q.from, q.below) in
            let new : (j : ℕ)
                → j < 64
                → (s.directory j).used ≡ true
                → same_name name (s.directory j).name ≡ false =
              λ j hj u. count_files-new name s 0 64 0 j e (omega arith) (omega arith) u in
            (
              pos 0,
              created name i n s,
              update chain i (n ∷ []),
              run (some n) f,
              creates i n (ground (arith, h)) new hi unused q.from hn q.passes
                  (update_self s.directory i _),
              created-IsValid name s chain i n v new hi unused hn q.passes,
            )
      ]

  -- On a valid file system `fs_create` always ends, without a fault. It returns -1 and changes
  -- nothing if the name has more than 15 bytes, if a file has it, if all 64 entries are used, or
  -- if no block is free; else it takes an unused entry and a free block, which becomes the only
  -- block of the new file, which has size and count 0. The file system stays valid.
  pub fs_create-Creates :
      (r : ℤ) × (s' : Fs) × (chain' : ℕ → List ℕ) × (fs_create name s ≡ returns r s')
      × Creates name s chain r s' chain'
      × IsValid s' chain'
  fs_create-Creates = elim (Bool-cases (ltb 15 (length name))) [
    | inl h ↦ (minus_one, s, chain, fs_create-long name s h, too_long (ground (arith, h)), v)
    | inr h ↦ elim (Option-cases (count_files name s 0 64 0)) [
      | inl e ↦ taken h e
      | inr (c, e) ↦ elim (Option-cases (free_entry s)) [
        | inl none_free ↦ full_directory c h e (all_used s none_free)
        | inr (i, free) ↦ elim (Bool-cases (c == 64)) [
          | inl q ↦
              let (hi, unused) = free_entry-lem s free in
              absurd (
                omega (
                  arith,
                  ==→≡ c 64 q,
                  count_files-lt name s 0 64 0 i e (omega arith) (omega arith) unused,
                ))
          | inr q ↦ with_entry c i h e free (==→≢ c 64 q)
        ]
      ]
    ]
  ]
