-- ===== src/FileSystem/Read.antt =====
-- fs_read of fs.c: what a read gives, and that it gives back what was written.
use ec.Base.{
  ℕ, ◌+◌, ◌*◌, ◌^◌, ◌≤◌, ◌<◌, ◌≡◌, refl, sym, ◌∙◌, ap, subst, inl, inr, true, false, List, [], ◌∷◌,
  ◌++◌, ◌==◌, ltb, if◌then◌else◌, Bool-cases, ≢→==, arith,
}
use ec.Base.Int.{pos, minus_one, ◌-ℤ◌}
use ec.Base.Blocks.{length}
use ec.FileSystem.State.{Bytes, Fs, Return, returns, store_fd}
use ec.FileSystem.Disk.{can_access}
use ec.FileSystem.Directory.{entry_of_inode, seek_entry, seek_guarded, fs_lseek}
use ec.FileSystem.Transfer.{
  read_chain, ReadReturn, gives, read_fault, read_copy, after_read, read_sized, read_entry,
  read_guarded, fs_read, fs_write,
}
use ec.FileSystem.Chain.{Linked}
use ec.FileSystem.Contents.{Usable, read_all, byte_at, read_all-byte_at, read_chain-eq}
use ec.FileSystem.Grow.{Taken}
use ec.FileSystem.ReadWrite.{IsOpen, larger, count_of, room_for, blocks_of-pos, guard_descriptor-eq}
use ec.FileSystem.Write.{Written, Writes, writes, disk_full, fs_write-Writes}

-- The file system with the descriptor `n` at the offset `o`.
abbrev pub placed : Fs → ℕ → ℕ → Fs
placed s n o = store_fd s n (record (s.fd_array n) { offset = pos o })

pub IsOpen-placed :
    (s : Fs) (n i o o' size x : ℕ) (xs : List ℕ)
    → IsOpen s n i o size x xs
    → IsOpen (placed s n o') n i o' size x xs
unfolding entry_of_inode can_access
IsOpen-placed s n i o o' size x xs v = record {
  below = v.below;
  used = ground (arith, v.used);
  found =
      let same : ((placed s n o').fd_array n).inode_number ≡ (s.fd_array n).inode_number =
        ground arith in
      ap (λ k. entry_of_inode k (placed s n o')) same ∙ v.found;
  at_offset = ground arith;
  has_size = v.has_size;
  start = v.start;
  linked = v.linked;
  usable = Usable-placed (x ∷ xs) v.usable;
  apart = v.apart;
  taken = Taken-placed (x ∷ xs) v.taken;
  fits = v.fits;
}
  where
    Taken-placed : (ys : List ℕ) → Taken s ys → Taken (placed s n o') ys
    Taken-placed [] t = tt
    Taken-placed (y ∷ ys) t = (t.0, Taken-placed ys t.1)

    Usable-placed : (ys : List ℕ) → Usable s ys → Usable (placed s n o') ys
    Usable-placed [] t = tt
    Usable-placed (y ∷ ys) t = (t.0, Usable-placed ys t.1)

-- The buffer of the caller after a read of `nbyte` bytes at `o`.
abbrev pub bytes_read : Fs → ℕ → ℕ → ℕ → List ℕ → Bytes → Bytes
bytes_read s size o nbyte xs buf k =
    if ltb k nbyte then read_all 0 (count_of size) xs s.blocks (λ a. 0) (o + k) else buf k

-- What `fs_read` gives: all the bytes, or those up to the end of the file, or it copies from beyond its
-- buffer.
pub data Reads (s : Fs) (n i o size nbyte x : ℕ) (xs : List ℕ) (buf : Bytes)
    : ReadReturn → Type 0 where
  reads_all :
      (out : Bytes)
      → o + nbyte ≤ size
      → ((k : ℕ) → k < nbyte → out k ≡ byte_at s.blocks (x ∷ xs) (o + k))
      → ((k : ℕ) → nbyte ≤ k → out k ≡ buf k)
      → IsOpen (placed s n (o + nbyte)) n i (o + nbyte) size x xs
      → Reads s n i o size nbyte x xs buf (gives (pos nbyte) out (placed s n (o + nbyte)))
  reads_rest :
      (out : Bytes)
      → size < o + nbyte
      → o + nbyte ≤ count_of size * 4096
      → ((k : ℕ) → k < nbyte → out k ≡ byte_at s.blocks (x ∷ xs) (o + k))
      → IsOpen (placed s n size) n i size size x xs
      → Reads s n i o size nbyte x xs buf (gives (pos size -ℤ pos o) out (placed s n size))
  overruns : count_of size * 4096 < o + nbyte → Reads s n i o size nbyte x xs buf read_fault

read_sized-eq :
    (s : Fs) (n o size nbyte x : ℕ) (xs : List ℕ) (buf : Bytes)
    → Linked s.table (x ∷ xs)
    → Usable s (x ∷ xs)
    → size ≤ length (x ∷ xs) * 4096
    → (s.fd_array n).offset ≡ pos o
    → read_sized n (pos x) (pos size) nbyte buf s
      ≡ read_copy n
          (count_of size * 4096)
          (pos size)
          (pos o)
          nbyte
          (read_all 0 (count_of size) (x ∷ xs) s.blocks (λ a. 0))
          buf
          s
unfolding read_sized after_read
read_sized-eq s n o size nbyte x xs buf l u f h =
    ap (λ c. after_read n c (pos size) nbyte buf s (read_chain true 0 c (pos x) (λ a. 0) s))
      (blocks_of-pos size)
    ∙ ap (after_read n (count_of size) (pos size) nbyte buf s)
        (read_chain-eq true 0 (count_of size) x xs (λ a. 0) s l u (room_for (length xs) size f))
    ∙ ap
        (λ q.
          read_copy n (count_of size * 4096) (pos size) q nbyte
            (read_all 0 (count_of size) (x ∷ xs) s.blocks (λ a. 0)) buf s)
        h

fs_read-eq :
    (s : Fs) (n i o size nbyte x : ℕ) (xs : List ℕ) (buf : Bytes)
    → IsOpen s n i o size x xs
    → 0 < nbyte
    → fs_read (pos n) buf nbyte s
      ≡ read_copy n
          (count_of size * 4096)
          (pos size)
          (pos o)
          nbyte
          (read_all 0 (count_of size) (x ∷ xs) s.blocks (λ a. 0))
          buf
          s
unfolding fs_read read_guarded read_entry
fs_read-eq s n i o size nbyte x xs buf v lo =
    let some_bytes : (nbyte == 0) ≡ false = ≢→== nbyte 0 (omega arith) in
    ap (read_guarded nbyte buf s) (guard_descriptor-eq n s v.below v.used)
    ∙ ap
        (λ b.
          if b
          then gives minus_one buf s
          else read_entry n nbyte buf s (entry_of_inode (s.fd_array n).inode_number s))
        some_bytes
    ∙ ap (read_entry n nbyte buf s) v.found
    ∙ ap (λ q. read_sized n q (s.directory i).size nbyte buf s) v.start
    ∙ ap (λ q. read_sized n (pos x) q nbyte buf s) v.has_size
    ∙ read_sized-eq s n o size nbyte x xs buf v.linked v.usable v.fits v.at_offset

bytes_read-at :
    (s : Fs) (size o nbyte x : ℕ) (xs : List ℕ) (buf : Bytes) (k : ℕ)
    → size ≤ length (x ∷ xs) * 4096
    → o + nbyte ≤ count_of size * 4096
    → k < nbyte
    → bytes_read s size o nbyte (x ∷ xs) buf k ≡ byte_at s.blocks (x ∷ xs) (o + k)
bytes_read-at s size o nbyte x xs buf k f h l =
    let t : ltb k nbyte ≡ true = ground arith in
    rw t (
      read_all-byte_at (count_of size) (x ∷ xs) s.blocks (λ a. 0) (o + k)
        (room_for (length xs) size f) (omega arith))

read_copy-Reads :
    (s : Fs) (n i o size nbyte x : ℕ) (xs : List ℕ) (buf : Bytes)
    → IsOpen s n i o size x xs
    → Reads s n i o size nbyte x xs buf (
        read_copy n
          (count_of size * 4096)
          (pos size)
          (pos o)
          nbyte
          (read_all 0 (count_of size) (x ∷ xs) s.blocks (λ a. 0))
          buf
          s)
unfolding read_copy
read_copy-Reads s n i o size nbyte x xs buf v =
    elim (Bool-cases (ltb (count_of size * 4096) (o + nbyte))) [
      | inl e ↦ rw e (overruns (ground arith))
      | inr e ↦
          let fits : o + nbyte ≤ count_of size * 4096 = ground arith in
          elim (Bool-cases (ltb size (o + nbyte))) [
            | inl f ↦
                rw (e, f)
                  (reads_rest (bytes_read s size o nbyte (x ∷ xs) buf) (ground arith) fits
                    (λ k h. bytes_read-at s size o nbyte x xs buf k v.fits fits h)
                    (IsOpen-placed s n i o size size x xs v))
            | inr f ↦
                rw (e, f)
                  (reads_all (bytes_read s size o nbyte (x ∷ xs) buf) (ground arith)
                    (λ k h. bytes_read-at s size o nbyte x xs buf k v.fits fits h)
                    (λ k h. ground arith) (IsOpen-placed s n i o (o + nbyte) size x xs v))
          ]
    ]

-- Through a descriptor that is open on a file of used, working and different blocks, `fs_read` of
-- at least one byte: within the file it gives all the bytes and moves the descriptor behind them;
-- past its end, up to the end of its last block, it returns the number of bytes up to the end of
-- the file and leaves the descriptor there, with all the bytes copied; beyond that it overruns
-- its buffer.
pub fs_read-Reads :
    (s : Fs) (n i o size nbyte x : ℕ) (xs : List ℕ) (buf : Bytes)
    → IsOpen s n i o size x xs
    → 0 < nbyte
    → Reads s n i o size nbyte x xs buf (fs_read (pos n) buf nbyte s)
fs_read-Reads s n i o size nbyte x xs buf v lo =
    subst (λ r. Reads s n i o size nbyte x xs buf r)
      (sym (fs_read-eq s n i o size nbyte x xs buf v lo))
      (read_copy-Reads s n i o size nbyte x xs buf v)

fs_lseek-eq :
    (s : Fs) (n i o size o' x : ℕ) (xs : List ℕ)
    → IsOpen s n i o size x xs
    → o' ≤ size
    → fs_lseek (pos n) (pos o') s ≡ returns (pos 0) (placed s n o')
unfolding fs_lseek seek_guarded seek_entry
fs_lseek-eq s n i o size o' x xs v h =
    ap (seek_guarded (pos o') s) (guard_descriptor-eq n s v.below v.used)
    ∙ ap (seek_entry n (pos o') s) v.found
    ∙ ground (arith, v.has_size)

Reads-all :
    (s : Fs) (n i o size nbyte x : ℕ) (xs : List ℕ) (buf : Bytes) (r : ReadReturn)
    → Reads s n i o size nbyte x xs buf r
    → o + nbyte ≤ size
    → (out : Bytes) × (t : Fs) × (r ≡ gives (pos nbyte) out t)
      × ((k : ℕ) → k < nbyte → out k ≡ byte_at s.blocks (x ∷ xs) (o + k))
Reads-all s n i o size nbyte x xs buf _ (reads_all out h b c v) k =
    (out, placed s n (o + nbyte), refl, b)
Reads-all s n i o size nbyte x xs buf _ (reads_rest out h b c v) k = absurd (omega arith)
Reads-all s n i o size nbyte x xs buf _ (overruns h) k = absurd (omega arith)

Writes-Written :
    (s s' : Fs) (n i o size nbyte x : ℕ) (xs : List ℕ) (buf : Bytes) (r : Return)
    → Writes s n i o size nbyte x xs buf r
    → r ≡ returns (pos nbyte) s'
    → (ys : List ℕ) × Written s s' n i o size nbyte x xs ys buf
Writes-Written s s' n i o size nbyte x xs buf _ (writes ys t w) e =
    let same : t ≡ s' = cc in (ys, subst (λ q. Written s q n i o size nbyte x xs ys buf) same w)
Writes-Written s s' n i o size nbyte x xs buf _ (disk_full t f g h) e = absurd cc

-- Through a descriptor that is open on a file of used, working and different blocks, on a disk
-- with data blocks whose free blocks work: what a complete write of `nbyte` bytes, at least one
-- and below the largest size, has put into the file, a seek back to where it began and a read of
-- as many bytes give back.
pub fs_read-fs_write :
    (s s' : Fs) (n i o size nbyte x : ℕ) (xs : List ℕ) (buf buf' : Bytes)
    → IsOpen s n i o size x xs
    → 0 < nbyte
    → o + nbyte ≤ 2 ^ 24
    → ((b : ℕ) → b < 8192 → s.bitmap b ≡ 0 → can_access (pos b) s ≡ true)
    → s.super.data_offset < 8192
    → fs_write (pos n) buf nbyte s ≡ returns (pos nbyte) s'
    → (out : Bytes) × (t : Fs) × (fs_lseek (pos n) (pos o) s' ≡ returns (pos 0) (placed s' n o))
      × (fs_read (pos n) buf' nbyte (placed s' n o) ≡ gives (pos nbyte) out t)
      × ((k : ℕ) → k < nbyte → out k ≡ buf k)
fs_read-fs_write s s' n i o size nbyte x xs buf buf' v lo hi works p e =
    let (ys, w) =
      Writes-Written s s' n i o size nbyte x xs buf _
        (fs_write-Writes s n i o size nbyte x xs buf v lo hi works p) e in
    let z : ℕ = larger size (o + nbyte) in
    let s2 : Fs = placed s' n o in
    let v2 : IsOpen s2 n i o z x (xs ++ ys) =
      IsOpen-placed s' n i (o + nbyte) o z x (xs ++ ys) w.file in
    let (out, t, r, b) =
      Reads-all s2 n i o z nbyte x (xs ++ ys) buf' _
        (fs_read-Reads s2 n i o z nbyte x (xs ++ ys) buf' v2 lo) (ground arith) in
    (
      out,
      t,
      fs_lseek-eq s' n i (o + nbyte) z o x (xs ++ ys) w.file (ground arith),
      r,
      λ k h. b k h ∙ w.new_bytes (o + k) (omega arith) (omega arith) ∙ ap buf (omega arith),
    )
