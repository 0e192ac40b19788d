-- ===== src/FileSystem/Remount.antt =====
-- umount_fs and mount_fs of fs.c: what comes back of a file system.
use ec.Base.{
  ℕ, ◌+◌, ◌*◌, ◌/◌, ◌%◌, ◌≤◌, ◌<◌, ◌≡◌, refl, sym, ◌∙◌, ap, subst, true, false, none, some, ltb,
  if◌then◌else◌, update, arith,
}
use ec.Base.Int.{ℤ, pos, minus_one}
use ec.FileSystem.State.{Name, same_name, Superblock, DirectoryEntry, Bytes, Fs}
use ec.FileSystem.Layout.{shift, put_super, get_super, put_entry, word_byte, to_word, get_word}
use ec.FileSystem.Images.{IsInode, IsEntry, get_entry-put_entry}
use ec.FileSystem.Mount.{
  Host, Unset, Device, Part, more, ends, ◌>>=◌, check, with_fs, open_disk, attach, close_disk,
  detach, new_super, directory_image, zero_entry, zero_inode, load_directory, super_of, no_open_fds,
  mount_fs, free_fds, umount_fs,
}
use ec.FileSystem.TableBlocks.{
  Works, with_blocks, with_table, write_block-Works, read_block-Works, saved, saved-at,
  save_table-saved, loaded, load_table-loaded, loaded-saved,
}
use ec.FileSystem.Valid.{same_name_refl}

-- The blocks that `umount_fs` leaves.
abbrev pub saved_image : Fs → (ℕ → Bytes)
saved_image s = saved 16 0 s.table (
    update (update s.blocks 0 (put_super new_super)) 1
      (directory_image s.directory (put_super new_super)))

abbrev pub unmounted : Name → Device → Device
unmounted n d = record d {
  fs = record (free_fds d.fs) { active = false; blocks = saved_image d.fs };
  mounted = false;
  handle = none;
  files = λ m. if same_name n m then some (saved_image d.fs) else d.files m;
}

-- A part of a call that goes on.
pub step {ℓ κ} :
    {A : Type ℓ} {B : Type κ} {m : Part A} {a : A} (f : A → Part B) {r : Part B}
    → m ≡ more a
    → f a ≡ r
    → (m >>= f) ≡ r
step f e g = ap (λ z. z >>= f) e ∙ g

pub stop {ℓ κ} :
    {A : Type ℓ} {B : Type κ} {m : Part A} (f : A → Part B) {n : ℤ} {d : Device}
    → m ≡ ends n d
    → (m >>= f) ≡ ends n d
stop f e = ap (λ z. z >>= f) e

abbrev with_super : Device → Superblock → Device
with_super d z = with_fs d (record d.fs { super = z })

umount_new :
    (m n : Name) (d : Device)
    → d.mounted ≡ true
    → Works d.fs
    → d.handle ≡ some n
    → umount_fs (some m) (with_super d new_super)
      ≡ ends (pos 0) (unmounted n (with_super d new_super))
unfolding umount_fs close_disk
umount_new m n d e w f =
    let d0 = with_super d new_super in
    let d1 = with_blocks d0 (update d.fs.blocks 0 (put_super new_super)) in
    let image = directory_image d.fs.directory (put_super new_super) in
    let d2 = with_blocks d1 (update d1.fs.blocks 1 image) in
    let d3 = with_blocks d2 (saved_image d.fs) in
    let d4 = with_fs d3 (free_fds d3.fs) in
    let closed : close_disk d4 ≡ some (detach (some n) d4) =
      ap (λ z. if z then some (detach d.handle d4) else none) w.0
      ∙ ap (λ z. some (detach z d4)) f in
    step _ (ap (λ z. if z then more true else ends minus_one d0) e) (
      step _ (write_block-Works d0 0 (put_super new_super) w (omega arith)) (
        step _ (write_block-Works d1 1 image w (omega arith))
          (step _ (save_table-saved 16 0 d2 w (omega arith)) (step _ (ap (check d4) closed) refl))))

pub umount_fs-eq :
    (m n : Name) (d : Device)
    → d.mounted ≡ true
    → Works d.fs
    → d.handle ≡ some n
    → d.fs.super ≡ new_super
    → umount_fs (some m) d ≡ ends (pos 0) (unmounted n d)
umount_fs-eq m n d e w f g =
    subst (λ z. umount_fs (some m) (with_super d z) ≡ ends (pos 0) (unmounted n (with_super d z)))
      (sym g) (umount_new m n d e w f)

abbrev pub remounted : Unset → Name → (ℕ → Bytes) → Device → Device
remounted u n b d = record d {
  fs = no_open_fds (record d.fs {
    active = true;
    blocks = b;
    super = new_super;
    directory = load_directory (b 1);
    table = loaded 16 0 b (λ j. zero_inode);
    bitmap = λ k. if ltb k 2 then b 2 k else u.bitmap k;
  });
  mounted = true;
  handle = some n;
}

pub mount_fs-eq :
    (h : Host) (u : Unset) (n : Name) (b : ℕ → Bytes) (d : Device)
    → d.mounted ≡ false
    → d.fs.active ≡ false
    → ((k : ℕ) → k < 20 → d.fs.broken k ≡ false)
    → h.can_open n ≡ true
    → d.files n ≡ some b
    → get_super (b 0) ≡ some new_super
    → mount_fs h u (some n) d ≡ ends (pos 0) (remounted u n b d)
unfolding mount_fs open_disk
mount_fs-eq h u n b d e a w o f g =
    let d1 = record d { fs = record d.fs { active = true; blocks = b }; handle = some n } in
    let ok : Works d1.fs = (refl, w) in
    let d2 = with_fs d1 (record d1.fs { super = u.super }) in
    let e0 = read_block-Works d2 0 ok (omega arith) in
    let d3 = with_fs d2 (record d2.fs { super = new_super; directory = λ i. zero_entry }) in
    let e1 = read_block-Works d3 1 ok (omega arith) in
    let d4 =
      with_fs d3 (record d3.fs { directory = load_directory (b 1); table = λ j. zero_inode }) in
    let e2 = load_table-loaded 16 0 d4 ok (omega arith) in
    let d5 = with_table d4 (loaded 16 0 b (λ j. zero_inode)) in
    let d6 = with_fs d5 (record d5.fs { bitmap = u.bitmap }) in
    let e3 = read_block-Works d6 2 ok (omega arith) in
    let opened : open_disk h (some n) d ≡ some d1 =
      ap (λ z. if z then none else if h.can_open n then attach n d (d.files n) else none) a
      ∙ ap (λ z. if z then attach n d (d.files n) else none) o
      ∙ ap (attach n d) f in
    step _ (ap (λ z. if z then ends minus_one d else more true) e) (
      step _ (ap (check d) opened)
        (step _ e0 (step _ (ap super_of g) (step _ e1 (step _ e2 (step _ e3 refl))))))

-- What comes back: `s` before `umount_fs`, `t` after `mount_fs`.
pub record Remounted (u : Unset) (s t : Fs) : Type 0 where
  pub same_super : t.super ≡ s.super
  pub same_table : (j : ℕ) → j < 8192 → t.table j ≡ s.table j
  pub same_directory : (i : ℕ) → i < 16 → t.directory i ≡ s.directory i
  pub lost_directory : (i : ℕ) → 16 ≤ i → t.directory i ≡ zero_entry
  pub lost_bitmap : (k : ℕ) → 2 ≤ k → t.bitmap k ≡ u.bitmap k
  pub closed : (i : ℕ) → i < 32 → (t.fd_array i).used ≡ false
  pub same_data : (k : ℕ) → 20 ≤ k → t.blocks k ≡ s.blocks k

image-entry :
    (dir : ℕ → DirectoryEntry) (b : Bytes) (i k : ℕ)
    → i < 64
    → k < 32
    → directory_image dir b (32 * i + k) ≡ put_entry (dir i) k
unfolding directory_image
image-entry dir b i k h l =
    let low : ltb (32 * i + k) 2048 ≡ true = ground arith in
    let e : (32 * i + k) / 32 ≡ i = omega arith in
    let f : (32 * i + k) % 32 ≡ k = omega arith in
    rw low (ap (λ z. put_entry (dir z) ((32 * i + k) % 32)) e ∙ ap (put_entry (dir i)) f)

pub load_directory-image :
    (dir : ℕ → DirectoryEntry) (b : Bytes) (i : ℕ)
    → i < 16
    → IsEntry (dir i)
    → load_directory (directory_image dir b) i ≡ dir i
unfolding load_directory
load_directory-image dir b i h v =
    let low : ltb (32 * i) 512 ≡ true = ground arith in
    rw low (
      get_entry-put_entry (shift (32 * i) (directory_image dir b)) (dir i) v
        (λ k l. image-entry dir b i k (omega arith) l))

pub load_directory-beyond : (b : Bytes) (i : ℕ) → 16 ≤ i → load_directory b i ≡ zero_entry
unfolding load_directory
load_directory-beyond b i h = let high : ltb (32 * i) 512 ≡ false = ground arith in rw high

pub super_back : get_super (put_super new_super) ≡ some new_super
unfolding get_super put_super get_word word_byte to_word
super_back = refl

remounted-Remounted :
    (u : Unset) (n m : Name) (d : Device)
    → d.fs.super ≡ new_super
    → ((j : ℕ) → j < 8192 → IsInode (d.fs.table j))
    → ((i : ℕ) → i < 16 → IsEntry (d.fs.directory i))
    → Remounted u d.fs (remounted u n (saved_image d.fs) (unmounted m d)).fs
remounted-Remounted u n m d g it ie =
    let image = directory_image d.fs.directory (put_super new_super) in
    let b = update (update d.fs.blocks 0 (put_super new_super)) 1 image in
    record {
      same_super = sym g;
      same_table = λ j h. loaded-saved b d.fs.table (λ j. zero_inode) j h (it j h);
      same_directory =
          λ i h. load_directory-image d.fs.directory (put_super new_super) i h (ie i h);
      lost_directory = λ i h. load_directory-beyond image i h;
      lost_bitmap = λ k h. ground arith;
      closed = λ i h. ground arith;
      same_data = λ k h. saved-at 16 0 d.fs.table b k ∙ ground arith;
    }

-- A mounted file system with the superblock of `make_fs` on a disk that works, all of whose numbers fit
-- into an int and whose names into 15 characters: `umount_fs` and then `mount_fs` of the same disk succeed.
-- The superblock, the inode table, the blocks of data and the first 16 entries of the directory come back,
-- and no descriptor is open. The other entries are lost, and so is the bitmap from its third byte on, whose
-- place takes what malloc left there.
pub mount_fs-umount_fs :
    (h : Host) (u : Unset) (m n : Name) (d : Device)
    → d.mounted ≡ true
    → Works d.fs
    → d.handle ≡ some n
    → d.fs.super ≡ new_super
    → h.can_open n ≡ true
    → ((j : ℕ) → j < 8192 → IsInode (d.fs.table j))
    → ((i : ℕ) → i < 16 → IsEntry (d.fs.directory i))
    → (d1 d2 : Device) × (umount_fs (some m) d ≡ ends (pos 0) d1)
      × (mount_fs h u (some n) d1 ≡ ends (pos 0) d2)
      × Remounted u d.fs d2.fs
mount_fs-umount_fs h u m n d e w f g o it ie =
    let file : (unmounted n d).files n ≡ some (saved_image d.fs) = rw (same_name_refl n) in
    (
      unmounted n d,
      remounted u n (saved_image d.fs) (unmounted n d),
      umount_fs-eq m n d e w f g,
      mount_fs-eq h u n (saved_image d.fs) (unmounted n d) refl refl w.1 o file super_back,
      remounted-Remounted u n n d g it ie,
    )
