-- ===== src/FileSystem/Write.antt =====
-- fs_write of fs.c: what a write does to its file and to the others.
use ec.Base.{
  ℕ, ◌+◌, ◌-◌, ◌*◌, ◌/◌, ◌%◌, ◌^◌, ◌≤◌, ◌<◌, ◌≡◌, sym, ◌∙◌, ap, subst, inl, inr, ◌⊎◌, true, false,
  ◌&&◌, none, some, List, [], ◌∷◌, ◌++◌, ltb, leb, if◌then◌else◌, ==-refl, arith,
}
use ec.Base.Int.{pos, minus_one}
use ec.Base.Blocks.{length, contains, Absent, Different, Below, length-++}
use ec.FileSystem.State.{Bytes, Fs, Return, returns}
use ec.FileSystem.Disk.{can_access}
use ec.FileSystem.Directory.{entry_of_inode}
use ec.FileSystem.Transfer.{Walk, done, failed, bad_index, free_block, after_grow, fs_write}
use ec.FileSystem.Contents.{
  Usable, nth, nth-++, read_all, byte_at, byte_at-write_all, read_all-byte_at, write_all-elsewhere,
}
use ec.FileSystem.Grow.{Extends, Grown, extended, full, Taken, Extends-Taken, grow-Grown}
use ec.FileSystem.ReadWrite.{
  IsOpen, larger, count_of, mixed, written, fs_write-eq, write_grown-eq, entry_of_inode-sizes,
}

-- What a complete write leaves, where `ys` are the blocks that the file has got: the descriptor stands
-- behind the bytes that were written, the file holds them and its other bytes, the blocks of other files
-- hold theirs, and the new blocks were free.
pub record Written (s s' : Fs) (n i o size nbyte x : ℕ) (xs ys : List ℕ) (buf : Bytes)
    : Type 0 where
  pub file : IsOpen s' n i (o + nbyte) (larger size (o + nbyte)) x (xs ++ ys)
  pub new_bytes : (a : ℕ) → o ≤ a → a < o + nbyte → byte_at s'.blocks (x ∷ xs ++ ys) a ≡ buf (a - o)
  pub old_bytes :
      (a : ℕ)
      → a < size
      → (a < o) ⊎ (o + nbyte ≤ a)
      → byte_at s'.blocks (x ∷ xs ++ ys) a ≡ byte_at s.blocks (x ∷ xs) a
  pub other_blocks : (b : ℕ) → Absent b (x ∷ xs ++ ys) → s'.blocks b ≡ s.blocks b
  pub were_free : (b : ℕ) → contains ys b ≡ true → s.bitmap b ≡ 0

pub data Writes (s : Fs) (n i o size nbyte x : ℕ) (xs : List ℕ) (buf : Bytes)
    : Return → Type 0 where
  writes :
      (ys : List ℕ) (s' : Fs)
      → Written s s' n i o size nbyte x xs ys buf
      → Writes s n i o size nbyte x xs buf (returns (pos nbyte) s')
  disk_full :
      (s' : Fs)
      → free_block s' ≡ none
      → s'.blocks ≡ s.blocks
      → s'.directory ≡ s.directory
      → Writes s n i o size nbyte x xs buf (returns minus_one s')

byte_of-written :
    (s : Fs) (n i o z nbyte : ℕ) (zs : List ℕ) (buf : Bytes) (a : ℕ)
    → count_of z ≤ length zs
    → a < z
    → Different zs
    → byte_at (written s n i o z nbyte zs buf).blocks zs a
      ≡ (if leb o a && ltb a (o + nbyte) then buf (a - o) else byte_at s.blocks zs a)
byte_of-written s n i o z nbyte zs buf a h l d =
    byte_at-write_all (count_of z) zs
      (mixed o nbyte buf (read_all 0 (count_of z) zs s.blocks (λ a. 0))) s.blocks a h (omega arith)
      d
    ∙ rw (read_all-byte_at (count_of z) zs s.blocks (λ a. 0) a h (omega arith))

Usable-written :
    (s : Fs) (n i o z nbyte : ℕ) (zs : List ℕ) (buf : Bytes) (xs : List ℕ)
    → Usable s xs
    → Usable (written s n i o z nbyte zs buf) xs
unfolding can_access
Usable-written s n i o z nbyte zs buf [] u = tt
Usable-written s n i o z nbyte zs buf (x ∷ xs) u =
    (u.0, Usable-written s n i o z nbyte zs buf xs u.1)

-- The file is still open after a write in its blocks.
IsOpen-written :
    (s : Fs) (n i o o' size z nbyte x : ℕ) (xs : List ℕ) (buf : Bytes)
    → IsOpen s n i o size x xs
    → z ≤ length (x ∷ xs) * 4096
    → IsOpen (written s n i o' z nbyte (x ∷ xs) buf) n i (o' + nbyte) z x xs
IsOpen-written s n i o o' size z nbyte x xs buf v h =
    let s' : Fs = written s n i o' z nbyte (x ∷ xs) buf in
    let same : (s'.fd_array n).inode_number ≡ (s.fd_array n).inode_number = ground arith in
    record {
      below = v.below;
      used = ground (arith, v.used);
      found =
          ap (λ k. entry_of_inode k s') same
          ∙ entry_of_inode-sizes s s' (s.fd_array n).inode_number (λ k. ground arith)
              (λ k. ground arith)
          ∙ v.found;
      at_offset = ground arith;
      has_size = ground arith;
      start = ground (arith, v.start);
      linked = v.linked;
      usable = Usable-written s n i o' z nbyte (x ∷ xs) buf (x ∷ xs) v.usable;
      apart = v.apart;
      taken = Taken-same (x ∷ xs) v.taken;
      fits = h;
    }
  where
    Taken-same : (ys : List ℕ) → Taken s ys → Taken (written s n i o' z nbyte (x ∷ xs) buf) ys
    Taken-same [] t = tt
    Taken-same (y ∷ ys) t = (t.0, Taken-same ys t.1)

pub IsOpen-extended :
    (s s' : Fs) (n i o size x : ℕ) (xs ys : List ℕ)
    → IsOpen s n i o size x xs
    → Extends s s' x xs ys
    → Usable s' (x ∷ xs ++ ys)
    → IsOpen s' n i o size x (xs ++ ys)
unfolding entry_of_inode
IsOpen-extended s s' n i o size x xs ys v e u = record {
  below = v.below;
  used = subst (λ q. (q.fd_array n).used ≡ true) (sym e.same) v.used;
  found = subst (λ q. entry_of_inode (q.fd_array n).inode_number q ≡ some i) (sym e.same) v.found;
  at_offset = subst (λ q. (q.fd_array n).offset ≡ pos o) (sym e.same) v.at_offset;
  has_size = subst (λ q. (q.directory i).size ≡ pos size) (sym e.same) v.has_size;
  start = subst (λ q. (q.directory i).inode_number ≡ pos x) (sym e.same) v.start;
  linked = e.linked;
  usable = u;
  apart = e.apart;
  taken = Extends-Taken s s' x xs ys v.taken e;
  fits = omega (arith, v.fits, length-++ xs ys);
}

outside : (o n a : ℕ) → (a < o) ⊎ (o + n ≤ a) → (leb o a && ltb a (o + n)) ≡ false
outside o n a (inl h) = ground arith
outside o n a (inr h) = ground arith

written_there :
    (s s1 : Fs) (n i o size nbyte x : ℕ) (xs ys : List ℕ) (buf : Bytes)
    → IsOpen s n i o size x xs
    → Extends s s1 x xs ys
    → Usable s1 (x ∷ xs ++ ys)
    → 0 < nbyte
    → o + nbyte ≤ length (x ∷ xs ++ ys) * 4096
    → Written s
        (written s1 n i o (larger size (o + nbyte)) nbyte (x ∷ xs ++ ys) buf)
        n
        i
        o
        size
        nbyte
        x
        xs
        ys
        buf
written_there s s1 n i o size nbyte x xs ys buf v e u lo room =
    let z : ℕ = larger size (o + nbyte) in
    let v1 = IsOpen-extended s s1 n i o size x xs ys v e u in
    let fits : z ≤ length (x ∷ xs ++ ys) * 4096 = ground (arith, v1.fits) in
    let count : count_of z ≤ length (x ∷ xs ++ ys) = omega arith in
    let same : s1.blocks ≡ s.blocks = ap (λ q. q.blocks) e.same in
    record {
      file = IsOpen-written s1 n i o o size z nbyte x (xs ++ ys) buf v1 fits;
      new_bytes = λ a h k.
          byte_of-written s1 n i o z nbyte (x ∷ xs ++ ys) buf a count (ground arith) e.apart
          ∙ ground arith;
      old_bytes = λ a h k.
          byte_of-written s1 n i o z nbyte (x ∷ xs ++ ys) buf a count (ground arith) e.apart
          ∙ (rw (outside o nbyte a k))
          ∙ ap (λ b. b (nth (x ∷ xs ++ ys) (a / 4096)) (a % 4096)) same
          ∙ ap (λ m. s.blocks m (a % 4096)) (nth-++ (x ∷ xs) ys (a / 4096) (omega (arith, v.fits)));
      other_blocks = λ b h.
          write_all-elsewhere 0 (count_of z) (x ∷ xs ++ ys) _ s1.blocks b h ∙ ap (λ f. f b) same;
      were_free = λ b h. (e.were_free b h).0;
    }

pub Below-of_Usable : (s : Fs) (xs : List ℕ) → Usable s xs → Below 8192 xs
unfolding can_access
Below-of_Usable s [] u = tt
Below-of_Usable s (x ∷ xs) u = (ground (arith, u.0), Below-of_Usable s xs u.1)

pub Usable-extended :
    (s s' : Fs) (x : ℕ) (xs ys : List ℕ)
    → Usable s (x ∷ xs)
    → ((b : ℕ) → b < 8192 → s.bitmap b ≡ 0 → can_access (pos b) s ≡ true)
    → Extends s s' x xs ys
    → Usable s' (x ∷ xs ++ ys)
unfolding can_access
Usable-extended s s' x xs ys u w e =
    subst (λ q. Usable q (x ∷ xs ++ ys)) (sym e.same)
      (Usable-++ (x ∷ xs) ys u (λ b h. let f = e.were_free b h in w b f.2 f.0))
  where
    Usable-++ :
        (ms ns : List ℕ)
        → Usable s ms
        → ((b : ℕ) → contains ns b ≡ true → can_access (pos b) s ≡ true)
        → Usable (record s { table = s'.table; bitmap = s'.bitmap }) (ms ++ ns)
    Usable-++ [] [] u h = tt
    Usable-++ [] (n ∷ ns) u h =
        (h n (ground (arith, ==-refl n)), Usable-++ [] ns tt (λ b c. h b (ground arith)))
    Usable-++ (m ∷ ms) ns u h = (u.0, Usable-++ ms ns u.1 h)

-- Through a descriptor that is open on a file of used, working and different blocks, `fs_write`
-- of at least one byte that stays below the largest size, on a disk with data blocks whose free
-- blocks work: it writes all the bytes where the descriptor stands, taking free blocks for them,
-- keeps every other byte of this file and of the others, and moves the descriptor; or the disk is
-- full, and it returns -1 with no block's bytes and no entry of the directory changed.
pub fs_write-Writes :
    (s : Fs) (n i o size nbyte x : ℕ) (xs : List ℕ) (buf : Bytes)
    → IsOpen s n i o size x xs
    → 0 < nbyte
    → o + nbyte ≤ 2 ^ 24
    → ((b : ℕ) → b < 8192 → s.bitmap b ≡ 0 → can_access (pos b) s ≡ true)
    → s.super.data_offset < 8192
    → Writes s n i o size nbyte x xs buf (fs_write (pos n) buf nbyte s)
unfolding after_grow
fs_write-Writes s n i o size nbyte x xs buf v lo hi works p =
    subst (λ r. Writes s n i o size nbyte x xs buf r)
      (sym (fs_write-eq s n i o size nbyte x xs buf v lo hi))
      (after _ (
        grow-Grown ((o + nbyte - 1) / 4096) x xs s v.linked v.apart
          (Below-of_Usable s (x ∷ xs) v.usable) v.taken p))
  where
    after :
        (w : Walk Fs)
        → Grown s x xs ((o + nbyte - 1) / 4096) w
        → Writes s n i o size nbyte x xs buf (after_grow n i o nbyte buf w)
    after (done s1) (extended ys _ e h) =
        let u = Usable-extended s s1 x xs ys v.usable works e in
        let v1 = IsOpen-extended s s1 n i o size x xs ys v e u in
        let room : o + nbyte ≤ length (x ∷ xs ++ ys) * 4096 = omega (arith, length-++ xs ys) in
        subst (λ r. Writes s n i o size nbyte x xs buf r)
          (sym (
            write_grown-eq s1 n i o size nbyte x (xs ++ ys) buf v1.has_size v1.start v1.linked
              v1.usable v1.fits room hi))
          (writes ys _ (written_there s s1 n i o size nbyte x xs ys buf v e u lo room))
    after (failed s1) (full ys _ e h f) =
        disk_full s1 f (ap (λ q. q.blocks) e.same) (ap (λ q. q.directory) e.same)
    after bad_index g = elim g [ ]
