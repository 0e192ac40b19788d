-- ===== src/FileSystem/Tests.antt =====
-- The theorems about the file system at small states, and runs of the code on them.
use ec.Base.{
  ℕ, zero, suc, ◌+◌, ◌-◌, ◌^◌, ◌≤◌, ◌<◌, ◌≡◌, ◌≢◌, refl, sym, subst, ◌⊎◌, inl, inr, Bool, true,
  false, Option, none, some, List, [], ◌∷◌, ◌==◌, ltb, if◌then◌else◌, update, arith,
}
use ec.Base.Int.{ℤ, pos, negsuc, minus_one}
use ec.FileSystem.State.{Superblock, Bytes, DirectoryEntry, FileDescriptor, Fs, returns}
use ec.FileSystem.Disk.{can_access, block_read, block_write}
use ec.FileSystem.Directory.{
  guard_descriptor, open_descriptor, open_entry, free_descriptor, entry_named, entry_of_inode,
  fs_open, fs_close, fs_create, fs_delete, fs_lseek,
}
use ec.FileSystem.Transfer.{
  write_guarded, write_entry, after_grow, grow, write_grown, write_sized, write_read, read_chain,
  write_back, write_chain, next_of, clamp, gives, fs_read, fs_write,
}
use ec.FileSystem.Valid.{IsValid, opens, opened}
use ec.FileSystem.OpenClose.{Opens, Closes, fs_open-Opens, fs_close-Closes}
use ec.FileSystem.Delete.{Deletes, fs_delete-Deletes}
use ec.FileSystem.Create.{Creates, fs_create-Creates}
use ec.FileSystem.ReadWrite.{written, IsOpen}
use ec.Base.{◌++◌}
use ec.FileSystem.WriteKeeps.{fs_write-IsValid}
use ec.FileSystem.Write.{Writes, fs_write-Writes}
use ec.FileSystem.Read.{Reads, placed, fs_read-Reads, fs_read-fs_write}
use ec.FileSystem.Transfer.{
  free_block, fs_truncate, truncate_guarded, truncate_entry, truncate_from, skip_blocks, cut_chain,
  end_file,
}
use ec.FileSystem.State.{set_next, store_entry}
use ec.FileSystem.Truncate.{KeepsBlocks, fs_truncate-KeepsBlocks}

abbrev super : Superblock
super = record {
  used_block_bitmap_count = 2;
  used_block_bitmap_offset = 1;
  inode_metadata_blocks = 32;
  inode_metadata_offset = 2;
  d_offset = 34;
  d_length = 1;
  data_offset = 4096;
}

abbrev unused_entry : DirectoryEntry
unused_entry = record {
  used = false;
  inode_number = minus_one;
  name = [];
  size = pos 0;
  count = pos 0;
}

abbrev unused_fd : FileDescriptor
unused_fd = record { used = false; inode_number = minus_one; offset = pos 0 }

-- The file "a" has 100 bytes in the block 5000; `count` descriptors are open on it, at the offset 50.
abbrev pub one_file : Bool → Fs
one_file is_open = record {
  super = super;
  table = λ i.
      if i == 5000
      then record { kind = 1; next_direct_offset = minus_one }
      else record { kind = 1; next_direct_offset = negsuc 1 };
  bitmap = λ i. if i == 5000 then 1 else 0;
  fd_array = λ i.
      if i == 0
      then record { used = is_open; inode_number = pos 5000; offset = pos 50 }
      else unused_fd;
  directory = λ i.
      if i == 0
      then record {
        used = true;
        inode_number = pos 5000;
        name = 97 ∷ [];
        size = pos 100;
        count = if is_open then pos 1 else pos 0;
      }
      else unused_entry;
  active = true;
  blocks = λ i a. if i == 5000 then a else 0;
  broken = λ i. false;
}

abbrev pub its_chain : ℕ → List ℕ
its_chain i = 5000 ∷ []

one_file-counts : (b : Bool) → opens (one_file b).fd_array (pos 5000) 32 ≡ (if b then 1 else 0)
unfolding opens
one_file-counts true = refl
one_file-counts false = refl

pub one_file-IsValid : (b : Bool) → IsValid (one_file b) its_chain
one_file-IsValid b = record {
  one_name = λ i j hi hj ui uj h. ground arith;
  cleared = λ i hi u. ground arith;
  counted = λ i hi u.
      let z : i ≡ 0 = ground arith in
      subst
        (λ i.
          ((one_file b).directory i).count
          ≡ pos (opens (one_file b).fd_array ((one_file b).directory i).inode_number 32))
        (sym z) (counts b);
  open_file = λ k hk u. (0, omega arith, refl, ground arith);
  start = λ i hi u. ground arith;
  linked = λ i hi u. record { linked = refl; different = (tt, tt); on_disk = (omega arith, tt) };
  claimed = λ i n hi u h. ground arith;
  apart = λ i j n hi hj ui uj ne h. ground arith;
}
  where
    counts :
        (b : Bool) → (if b then pos 1 else pos 0) ≡ pos (opens (one_file b).fd_array (pos 5000) 32)
    counts true = rw (one_file-counts true)
    counts false = rw (one_file-counts false)

one_file-IsOpen : IsOpen (one_file true) 0 0 50 100 5000 []
unfolding can_access entry_of_inode ec.Base.first_index
one_file-IsOpen = record {
  below = omega arith;
  used = refl;
  found = refl;
  at_offset = refl;
  has_size = refl;
  start = refl;
  linked = refl;
  usable = (refl, tt);
  apart = (tt, tt);
  taken = (omega arith, tt);
  fits = omega arith;
}

one_file-works :
    (b : ℕ) → b < 8192 → (one_file true).bitmap b ≡ 0 → can_access (pos b) (one_file true) ≡ true
unfolding can_access
one_file-works b h f = ground arith

abbrev ab : Bytes
ab k = if k == 0 then 7 else 8

fs_write-Writes_example :
    Writes (one_file true) 0 0 50 100 60 5000 [] ab (fs_write (pos 0) ab 60 (one_file true))
fs_write-Writes_example =
    fs_write-Writes (one_file true) 0 0 50 100 60 5000 [] ab one_file-IsOpen (omega arith)
      (omega arith) one_file-works (omega arith)

fs_write-IsValid_example :
    (m : ℤ) × (s' : Fs) × (ys : List ℕ) × (fs_write (pos 0) ab 60 (one_file true) ≡ returns m s')
    × ((m ≡ pos 60) ⊎ ((m ≡ minus_one) × (free_block s' ≡ none)))
    × IsValid s' (update its_chain 0 (5000 ∷ [] ++ ys))
fs_write-IsValid_example =
    let low : 0 < 64 = omega arith in
    fs_write-IsValid (one_file true) its_chain 0 0 50 100 60 5000 [] ab (one_file-IsValid true) low
      refl refl one_file-IsOpen (omega arith) (omega arith) one_file-works (omega arith)

fs_read-Reads_example :
    Reads (one_file true) 0 0 50 100 20 5000 [] ab (fs_read (pos 0) ab 20 (one_file true))
fs_read-Reads_example =
    fs_read-Reads (one_file true) 0 0 50 100 20 5000 [] ab one_file-IsOpen (omega arith)

a_name : ◌≢◌ {A = List ℕ} (97 ∷ []) []
a_name e = cc

opens_a : fs_open (97 ∷ []) (one_file false) ≡ returns (pos 0) (opened 0 0 (one_file false))
unfolding fs_open open_descriptor open_entry free_descriptor entry_named ec.Base.first_index
opens_a = refl

fs_open-Opens_example :
    (r : ℤ) × (s' : Fs) × (fs_open (97 ∷ []) (one_file false) ≡ returns r s')
    × Opens (97 ∷ []) (one_file false) r s'
    × IsValid s' its_chain
fs_open-Opens_example =
    fs_open-Opens (97 ∷ []) (one_file false) its_chain (one_file-IsValid false) a_name

fs_close-Closes_example :
    (r : ℤ) × (s' : Fs) × (fs_close (pos 0) (one_file true) ≡ returns r s')
    × Closes 0 (one_file true) r s'
    × IsValid s' its_chain
fs_close-Closes_example =
    fs_close-Closes 0 (one_file true) its_chain (one_file-IsValid true) (omega arith)

fs_delete-Deletes_example :
    (r : ℤ) × (s' : Fs) × (fs_delete (97 ∷ []) (one_file false) ≡ returns r s')
    × Deletes (97 ∷ []) (one_file false) its_chain r s'
    × IsValid s' its_chain
fs_delete-Deletes_example =
    fs_delete-Deletes (97 ∷ []) (one_file false) its_chain (one_file-IsValid false) a_name

fs_create-Creates_example :
    (r : ℤ) × (s' : Fs) × (chain' : ℕ → List ℕ) × (fs_create (98 ∷ []) (one_file true)
      ≡ returns r s')
    × Creates (98 ∷ []) (one_file true) its_chain r s' chain'
    × IsValid s' chain'
fs_create-Creates_example =
    fs_create-Creates (98 ∷ []) (one_file true) its_chain (one_file-IsValid true)

abbrev after_write : Fs
after_write = written (one_file true) 0 0 50 110 60 (5000 ∷ []) ab

writes_ab : fs_write (pos 0) ab 60 (one_file true) ≡ returns (pos 60) after_write
unfolding fs_write write_guarded guard_descriptor write_entry after_grow grow write_grown
    write_sized write_read read_chain write_back write_chain block_read block_write can_access
    next_of entry_of_inode clamp ec.Base.first_index
writes_ab = refl

fs_read-fs_write_example :
    (out : Bytes) × (t : Fs) × (fs_lseek (pos 0) (pos 50) after_write
      ≡ returns (pos 0) (placed after_write 0 50))
    × (fs_read (pos 0) ab 60 (placed after_write 0 50) ≡ gives (pos 60) out t)
    × ((k : ℕ) → k < 60 → out k ≡ ab k)
fs_read-fs_write_example =
    let blocks : 4096 < 8192 = omega arith in
    let few : 0 < 60 = omega arith in
    let small : 50 + 60 ≤ 2 ^ 24 = omega arith in
    fs_read-fs_write (one_file true) after_write 0 0 50 100 60 5000 [] ab ab one_file-IsOpen few
      small one_file-works blocks writes_ab

abbrev cut_file : Fs
cut_file =
    set_next
      (store_entry (one_file true) 0 (record ((one_file true).directory 0) { size = pos 10 })) 5000
      (negsuc 1)

truncates :
    fs_truncate (pos 0) (pos 10) (one_file true)
    ≡ returns (pos 0) (set_next cut_file 5000 minus_one)
unfolding fs_truncate truncate_guarded guard_descriptor truncate_entry truncate_from skip_blocks
    cut_chain end_file next_of entry_of_inode ec.Base.first_index
truncates = refl

fs_truncate-KeepsBlocks_example : KeepsBlocks (one_file true) (set_next cut_file 5000 minus_one)
fs_truncate-KeepsBlocks_example =
    fs_truncate-KeepsBlocks (pos 0) (pos 10) (pos 0) (one_file true)
      (set_next cut_file 5000 minus_one) truncates
