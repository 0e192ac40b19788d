-- ===== src/FileSystem/Format.antt =====
-- make_fs of fs.c: a new file system, and what becomes of one that is mounted.
use ec.Base.{
  ℕ, ◌≤◌, ◌<◌, ◌≡◌, ◌⊎◌, refl, ◌∙◌, ap, inl, inr, true, false, none, some, List, [], ltb,
  if◌then◌else◌, update, Bool-cases, arith,
}
use ec.Base.Int.{pos, negsuc, minus_one}
use ec.FileSystem.State.{Name, same_name, Bytes, Fs}
use ec.FileSystem.Layout.{put_super}
use ec.FileSystem.Images.{IsEntry}
use ec.FileSystem.Mount.{
  Host, Unset, Device, more, ends, check, set_file, store_file, make_disk, open_disk, attach,
  close_disk, zeros, new_super, empty_dir, empty_table, directory_image, table_image, bitmap_image,
  zero_entry, zero_inode, load_directory, make_fs, mount_fs,
}
use ec.FileSystem.TableBlocks.{
  Works, with_blocks, write_block-Works, saved, write_table-saved, loaded, loaded-saved,
}
use ec.FileSystem.Remount.{
  step, stop, remounted, mount_fs-eq, load_directory-image, load_directory-beyond, super_back,
}
use ec.FileSystem.Valid.{IsValid, same_name_refl}

-- The blocks of a new file system.
abbrev new_blocks : ℕ → (ℕ → Bytes)
new_blocks kind =
    update
      (saved 16 0 (empty_table kind) (
        update (update zeros 0 (put_super new_super)) 1
          (directory_image (λ i. empty_dir) (put_super new_super))))
      2 (bitmap_image 2 (table_image (empty_table kind) 0))

abbrev made : ℕ → Name → Device → Device
made kind n d = record d {
  fs = record d.fs { active = false; blocks = new_blocks kind };
  handle = none;
  files = λ m.
      if same_name n m
      then some (new_blocks kind)
      else if same_name n m
      then some zeros
      else d.files m;
}

make_fs-eq :
    (h : Host) (u : Unset) (n : Name) (d : Device)
    → d.fs.active ≡ false
    → d.handle ≡ none
    → ((k : ℕ) → k < 20 → d.fs.broken k ≡ false)
    → h.can_create n ≡ true
    → h.can_fill n ≡ true
    → h.can_open n ≡ true
    → make_fs h u (some n) d ≡ ends (pos 0) (made u.kind n d)
unfolding make_fs make_disk open_disk close_disk
make_fs-eq h u n d a hd w c f o =
    let d1 = store_file n zeros d in
    let made_disk : make_disk h (some n) d ≡ more d1 = rw (c, f, hd) in
    let d2 = record d1 { fs = record d.fs { active = true; blocks = zeros }; handle = some n } in
    let opened : open_disk h (some n) d1 ≡ some d2 = rw (a, o, same_name_refl n) in
    let ok : Works d2.fs = (refl, w) in
    let d3 = with_blocks d2 (update zeros 0 (put_super new_super)) in
    let image = directory_image (λ i. empty_dir) (put_super new_super) in
    let d4 = with_blocks d3 (update d3.fs.blocks 1 image) in
    let d5 = with_blocks d4 (saved 16 0 (empty_table u.kind) d4.fs.blocks) in
    step _ made_disk (
      step _ (ap (check d1) opened) (
        step _ (write_block-Works d2 0 (put_super new_super) ok (omega arith)) (
          step _ (write_block-Works d3 1 image ok (omega arith)) (
            step _ (write_table-saved 16 0 (empty_table u.kind) d4 ok (omega arith)) (
              step _
                (write_block-Works d5 2 (bitmap_image 2 (table_image (empty_table u.kind) 0)) ok
                  (omega arith))
                refl)))))

-- A file system without a file, where every block is free in the table of inodes.
pub record IsNew (u : Unset) (s : Fs) : Type 0 where
  pub super_new : s.super ≡ new_super
  pub no_file : (i : ℕ) → i < 64 → ((s.directory i).used ≡ false) × ((s.directory i).name ≡ [])
  pub no_fd : (i : ℕ) → i < 32 → (s.fd_array i).used ≡ false
  pub all_free : (j : ℕ) → j < 8192 → (s.table j).next_direct_offset ≡ negsuc 1
  pub first_bytes : (k : ℕ) → k < 2 → s.bitmap k ≡ b'0'
  pub other_bytes : (k : ℕ) → 2 ≤ k → s.bitmap k ≡ u.bitmap k

IsValid-IsNew : (u : Unset) (s : Fs) → IsNew u s → (chain : ℕ → List ℕ) → IsValid s chain
IsValid-IsNew u s f chain = record {
  one_name = λ i j hi hj ui uj e. absurd (unused i hi ui);
  cleared = λ i hi e. (f.no_file i hi).1;
  counted = λ i hi ui. absurd (unused i hi ui);
  open_file = λ k hk uk. absurd (closed k hk uk);
  start = λ i hi ui. absurd (unused i hi ui);
  linked = λ i hi ui. absurd (unused i hi ui);
  claimed = λ i n hi ui e. absurd (unused i hi ui);
  apart = λ i j n hi hj ui uj ne e. absurd (unused i hi ui);
}
  where
    unused : (i : ℕ) → i < 64 → (s.directory i).used ≡ true → ⊥
    unused i hi e = let g = (f.no_file i hi).0 in cc

    closed : (k : ℕ) → k < 32 → (s.fd_array k).used ≡ true → ⊥
    closed k hk e = let g = f.no_fd k hk in cc

empty_dir-IsEntry : IsEntry empty_dir
empty_dir-IsEntry = record {
  inode_int = omega arith;
  name_ok = tt;
  name_short = omega arith;
  size_int = omega arith;
  count_int = omega arith;
}

mounted-IsNew :
    (u : Unset) (kind : ℕ) (n : Name) (d : Device)
    → kind < 256
    → IsNew u (remounted u n (new_blocks kind) d).fs
mounted-IsNew u kind n d h = record {
  super_new = refl;
  no_file = λ i l. entry i (Bool-cases (ltb i 16));
  no_fd = λ i l. ground arith;
  all_free = λ j l. ap (λ z. z.next_direct_offset) (free j l);
  first_bytes = λ k l. ground arith;
  other_bytes = λ k l. ground arith;
}
  where
    image : Bytes
    image = directory_image (λ i. empty_dir) (put_super new_super)

    entry :
        (i : ℕ)
        → (ltb i 16 ≡ true) ⊎ (ltb i 16 ≡ false)
        → ((load_directory image i).used ≡ false) × ((load_directory image i).name ≡ [])
    entry i (inl e) =
        let q : load_directory image i ≡ empty_dir =
          load_directory-image (λ i. empty_dir) (put_super new_super) i (ground arith)
            empty_dir-IsEntry in
        (ap (λ z. z.used) q, ap (λ z. z.name) q)
    entry i (inr e) =
        let q : load_directory image i ≡ zero_entry =
          load_directory-beyond image i (ground arith) in
        (ap (λ z. z.used) q, ap (λ z. z.name) q)

    free :
        (j : ℕ) → j < 8192 → loaded 16 0 (new_blocks kind) (λ j. zero_inode) j ≡ empty_table kind j
    free j l =
        loaded-saved (update (update zeros 0 (put_super new_super)) 1 image) (empty_table kind)
          (λ j. zero_inode) j l (h, omega arith)

-- On a host that creates, fills and opens the file and on whose disk the blocks 0 to 19 can be accessed, with no
-- disk open and nothing mounted: `make_fs` and then
-- `mount_fs` succeed, and what is mounted is a valid file system without a file or a descriptor, in whose table
-- all 8192 blocks are free. The bitmap however starts with two characters '0', and what follows is what malloc
-- left there.
pub mount_fs-make_fs :
    (h : Host) (u v : Unset) (n : Name) (d : Device) (chain : ℕ → List ℕ)
    → d.mounted ≡ false
    → d.fs.active ≡ false
    → d.handle ≡ none
    → ((k : ℕ) → k < 20 → d.fs.broken k ≡ false)
    → h.can_create n ≡ true
    → h.can_fill n ≡ true
    → h.can_open n ≡ true
    → u.kind < 256
    → (d1 d2 : Device) × (make_fs h u (some n) d ≡ ends (pos 0) d1)
      × (mount_fs h v (some n) d1 ≡ ends (pos 0) d2)
      × IsNew v d2.fs
      × IsValid d2.fs chain
mount_fs-make_fs h u v n d chain e a hd w c f o k =
    let b = new_blocks u.kind in
    let d1 = made u.kind n d in
    let file : d1.files n ≡ some b = rw (same_name_refl n) in
    let new = mounted-IsNew v u.kind n d1 k in
    (
      d1,
      remounted v n b d1,
      make_fs-eq h u n d a hd w c f o,
      mount_fs-eq h v n b d1 e refl w o file super_back,
      new,
      IsValid-IsNew v _ new chain,
    )

-- `make_fs` on the disk that is mounted, on a host that creates and fills the file: it returns -1, and every
-- block of the disk is 0 afterwards, under the file system that is still mounted.
pub make_fs-mounted :
    (h : Host) (u : Unset) (n : Name) (d : Device)
    → d.fs.active ≡ true
    → d.handle ≡ some n
    → h.can_create n ≡ true
    → h.can_fill n ≡ true
    → make_fs h u (some n) d ≡ ends minus_one (with_blocks d zeros)
unfolding make_fs make_disk open_disk
make_fs-mounted h u n d a hd c f =
    let made_disk : make_disk h (some n) d ≡ more (with_blocks d zeros) =
      rw (c, f) (ap (λ z. more (set_file z n zeros d)) hd ∙ rw (same_name_refl n)) in
    let active : open_disk h (some n) (with_blocks d zeros) ≡ none =
      ap
        (λ z.
          if z
          then none
          else if h.can_open n
          then attach n (with_blocks d zeros) (d.files n)
          else none)
        a in
    step _ made_disk (stop _ (ap (check (with_blocks d zeros)) active))
