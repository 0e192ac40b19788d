-- ===== src/FileSystem/TableBlocks.antt =====
-- The loops of umount_fs, mount_fs and make_fs over the blocks of the inode table.
use ec.Base.{
  ℕ, zero, suc, ◌+◌, ◌-◌, ◌*◌, ◌/◌, ◌%◌, ◌≤◌, ◌<◌, ◌≡◌, refl, ◌∙◌, ap, inl, inr, true, false, ◌&&◌,
  ◌==◌, ltb, leb, if◌then◌else◌, update, Bool-cases, arith,
}
use ec.FileSystem.State.{Inode, Bytes, Fs}
use ec.FileSystem.Disk.{can_access, block_read, block_write}
use ec.FileSystem.Layout.{shift, put_inode, get_inode}
use ec.FileSystem.Images.{IsInode, get_inode-put_inode}
use ec.FileSystem.Mount.{
  Device, more, with_fs, write_block, read_block, table_image, write_table, save_table, load_block,
  load_table,
}

-- The disk is open, and the host does not fail at the blocks before those of the data.
abbrev pub Works : Fs → Type 0
Works s = (s.active ≡ true) × ((k : ℕ) → k < 20 → s.broken k ≡ false)

abbrev pub with_blocks : Device → (ℕ → Bytes) → Device
with_blocks d b = with_fs d (record d.fs { blocks = b })

pub write_block-Works :
    (d : Device) (n : ℕ) (b : Bytes)
    → Works d.fs
    → n < 20
    → write_block d n b ≡ more (with_blocks d (update d.fs.blocks n b))
unfolding block_write can_access
write_block-Works d n b w h = let low : ltb n 8192 ≡ true = ground arith in rw (w.0, low, w.1 n h)

pub read_block-Works :
    (d : Device) (n : ℕ) → Works d.fs → n < 20 → read_block d n ≡ more (d.fs.blocks n)
unfolding block_read can_access
read_block-Works d n w h = let low : ltb n 8192 ≡ true = ground arith in rw (w.0, low, w.1 n h)

-- The blocks after the loop.
abbrev pub saved : ℕ → ℕ → (ℕ → Inode) → (ℕ → Bytes) → (ℕ → Bytes)
saved zero i t b = b
saved (suc n) i t b = saved n (i + 1) t (update b (4 + i) (table_image t i))

pub saved-at :
    (n i : ℕ) (t : ℕ → Inode) (b : ℕ → Bytes) (k : ℕ)
    → saved n i t b k ≡ (if leb (4 + i) k && ltb k (4 + i + n) then table_image t (k - 4) else b k)
saved-at zero i t b k = ground arith
saved-at (suc n) i t b k =
    saved-at n (i + 1) t (update b (4 + i) (table_image t i)) k ∙ elim (Bool-cases (4 + i == k)) [
      | inl e ↦ let z : k - 4 ≡ i = ground arith in rw z (ground arith)
      | inr e ↦ ground arith
    ]

pub save_table-saved :
    (n i : ℕ) (d : Device)
    → Works d.fs
    → i + n ≤ 16
    → save_table n 4 i d ≡ more (with_blocks d (saved n i d.fs.table d.fs.blocks))
unfolding save_table
save_table-saved zero i d w h = refl
save_table-saved (suc n) i d w h =
    let low : ltb i 16 ≡ true = ground arith in
    let e = write_block-Works d (4 + i) (table_image d.fs.table i) w (omega arith) in
    rw (low, e)
      (save_table-saved n (i + 1)
        (with_blocks d (update d.fs.blocks (4 + i) (table_image d.fs.table i))) w (omega arith))

pub write_table-saved :
    (n i : ℕ) (t : ℕ → Inode) (d : Device)
    → Works d.fs
    → i + n ≤ 16
    → write_table t n 4 i d ≡ more (with_blocks d (saved n i t d.fs.blocks))
unfolding write_table
write_table-saved zero i t d w h = refl
write_table-saved (suc n) i t d w h =
    let e = write_block-Works d (4 + i) (table_image t i) w (omega arith) in
    rw e (
      write_table-saved n (i + 1) t (with_blocks d (update d.fs.blocks (4 + i) (table_image t i))) w
        (omega arith))

-- The table after the loop of `mount_fs`.
abbrev pub loaded : ℕ → ℕ → (ℕ → Bytes) → (ℕ → Inode) → (ℕ → Inode)
loaded zero i b t = t
loaded (suc n) i b t = loaded n (i + 1) b (load_block t i (b (4 + i)))

abbrev pub with_table : Device → (ℕ → Inode) → Device
with_table d t = with_fs d (record d.fs { table = t })

pub load_table-loaded :
    (n i : ℕ) (d : Device)
    → Works d.fs
    → i + n ≤ 16
    → load_table n 4 i d ≡ more (with_table d (loaded n i d.fs.blocks d.fs.table))
unfolding load_table
load_table-loaded zero i d w h = refl
load_table-loaded (suc n) i d w h =
    let low : ltb i 16 ≡ true = ground arith in
    let e = read_block-Works d (4 + i) w (omega arith) in
    rw (e, low)
      (load_table-loaded n (i + 1) (with_table d (load_block d.fs.table i (d.fs.blocks (4 + i)))) w
        (omega arith))

loaded-before :
    (n i : ℕ) (b : ℕ → Bytes) (t : ℕ → Inode) (j : ℕ) → j < 512 * i → loaded n i b t j ≡ t j
loaded-before zero i b t j h = refl
loaded-before (suc n) i b t j h =
    loaded-before n (i + 1) b (load_block t i (b (4 + i))) j (omega arith) ∙ ground arith

-- An entry comes from its block.
pub loaded-at :
    (n i : ℕ) (b : ℕ → Bytes) (t : ℕ → Inode) (j : ℕ)
    → 512 * i ≤ j
    → j < 512 * (i + n)
    → loaded n i b t j ≡ get_inode (shift (8 * (j % 512)) (b (4 + j / 512)))
loaded-at zero i b t j h k = absurd (omega arith)
loaded-at (suc n) i b t j h k = elim (Bool-cases (ltb j (512 * (i + 1)))) [
  | inl e ↦
      let q : i ≡ j / 512 = ground arith in
      loaded-before n (i + 1) b (load_block t i (b (4 + i))) j (ground arith) ∙ from_block q
  | inr e ↦ loaded-at n (i + 1) b (load_block t i (b (4 + i))) j (ground arith) (omega arith)
]
  where
    from_block :
        i ≡ j / 512
        → load_block t i (b (4 + i)) j ≡ get_inode (shift (8 * (j % 512)) (b (4 + j / 512)))
    from_block q =
        let low : leb (512 * i) j ≡ true = ground arith in
        let high : ltb j (512 * i + 512) ≡ true = ground arith in
        let r : j - 512 * i ≡ j % 512 = omega arith in
        rw (low, high)
          (ap (λ z. get_inode (shift (8 * z) (b (4 + i)))) r
            ∙ ap (λ z. get_inode (shift (8 * (j % 512)) (b (4 + z)))) q)

saved-in :
    (t : ℕ → Inode) (b : ℕ → Bytes) (i : ℕ) → i < 16 → saved 16 0 t b (4 + i) ≡ table_image t i
saved-in t b i h =
    let z : 4 + i - 4 ≡ i = omega arith in saved-at 16 0 t b (4 + i) ∙ rw z (ground arith)

image-at :
    (t : ℕ → Inode) (j k : ℕ)
    → k < 8
    → table_image t (j / 512) (8 * (j % 512) + k) ≡ put_inode (t j) k
unfolding table_image
image-at t j k h =
    let e : 512 * (j / 512) + (8 * (j % 512) + k) / 8 ≡ j = omega arith in
    let f : (8 * (j % 512) + k) % 8 ≡ k = omega arith in
    ap (λ z. put_inode (t z) ((8 * (j % 512) + k) % 8)) e ∙ ap (put_inode (t j)) f

-- What `umount_fs` saves is what `mount_fs` loads.
pub loaded-saved :
    (b : ℕ → Bytes) (t t0 : ℕ → Inode) (j : ℕ)
    → j < 8192
    → IsInode (t j)
    → loaded 16 0 (saved 16 0 t b) t0 j ≡ t j
loaded-saved b t t0 j h v =
    loaded-at 16 0 (saved 16 0 t b) t0 j (omega arith) (omega arith)
    ∙ get_inode-put_inode (shift (8 * (j % 512)) (saved 16 0 t b (4 + j / 512))) (t j) v (λ k l.
      ap (λ z. z (8 * (j % 512) + k)) (saved-in t b (j / 512) (omega arith)) ∙ image-at t j k l)
