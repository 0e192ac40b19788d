-- ===== src/FileSystem/ReadWrite.antt =====
-- fs_read and fs_write of fs.c on a file whose chain of blocks is long enough.
use ec.Base.{
  first_index, ℕ, zero, suc, ◌+◌, ◌-◌, ◌*◌, ◌/◌, ◌%◌, ◌^◌, ◌≤◌, ◌<◌, ◌≡◌, refl, ◌∙◌, ap, true,
  false, ◌&&◌, some, List, [], ◌∷◌, ltb, leb, if◌then◌else◌, update, arith,
}
use ec.Base.Int.{ℤ, pos, ◌==ℤ◌, rounds}
use ec.Base.Blocks.{length, Different}
use ec.FileSystem.State.{Bytes, Fs, DirectoryEntry, returns, store_entry}
use ec.FileSystem.Directory.{entry_of_inode, guard_descriptor, passed}
use ec.FileSystem.Transfer.{
  blocks_of, done, read_chain, grow, size_mod, size_after, write_read, write_sized, after_grow,
  clamp, grow_rounds, write_back, write_grown, write_entry, write_guarded, fs_write,
}
use ec.FileSystem.Chain.{Linked}
use ec.FileSystem.Grow.{Taken}
use ec.FileSystem.Contents.{Usable, read_all, write_all, read_chain-eq, write_chain-eq}

-- The descriptor `n` is open on the file of the entry `i`, at the offset `o`. The file has `size` bytes, in
-- the block `x` and the blocks `xs` behind it.
pub record IsOpen (s : Fs) (n i o size x : ℕ) (xs : List ℕ) : Type 0 where
  pub below : n < 32
  pub used : (s.fd_array n).used ≡ true
  pub found : entry_of_inode (s.fd_array n).inode_number s ≡ some i
  pub at_offset : (s.fd_array n).offset ≡ pos o
  pub has_size : (s.directory i).size ≡ pos size
  pub start : (s.directory i).inode_number ≡ pos x
  pub linked : Linked s.table (x ∷ xs)
  pub usable : Usable s (x ∷ xs)
  pub apart : Different (x ∷ xs)
  pub taken : Taken s (x ∷ xs)
  pub fits : size ≤ length (x ∷ xs) * 4096

abbrev pub larger : ℕ → ℕ → ℕ
larger a b = if ltb a b then b else a

abbrev pub count_of : ℕ → ℕ
count_of size = (size - 1) / 4096 + 1

pub blocks_of-pos : (z : ℕ) → rounds (blocks_of (pos z)) ≡ count_of z
blocks_of-pos zero = refl
blocks_of-pos (suc z) = ground arith

new_size : (a b : ℕ) → b ≤ 2 ^ 24 → size_after (pos a) (b % size_mod) ≡ pos (larger a b)
new_size a b h = let e : b % 2 ^ 64 ≡ b = omega arith in rw e (ground arith)

-- The buffer of `fs_write` before it is written back.
abbrev pub mixed : ℕ → ℕ → Bytes → Bytes → Bytes
mixed o nbyte buf buffer a = if leb o a && ltb a (o + nbyte) then buf (a - o) else buffer a

-- The file system after a write to a file that has `z` bytes from then on.
abbrev pub written : Fs → ℕ → ℕ → ℕ → ℕ → ℕ → List ℕ → Bytes → Fs
written s n i o z nbyte xs buf =
    let c = count_of z in
    record s {
      blocks = write_all 0 c xs (mixed o nbyte buf (read_all 0 c xs s.blocks (λ a. 0))) s.blocks;
      directory = update s.directory i (record (s.directory i) { size = pos z });
      fd_array = update s.fd_array n (record (s.fd_array n) { offset = pos (o + nbyte) });
    }

write_back-eq :
    (n o nbyte c x : ℕ) (xs : List ℕ) (buffer buf : Bytes) (s : Fs)
    → Linked s.table (x ∷ xs)
    → Usable s (x ∷ xs)
    → c ≤ length (x ∷ xs)
    → o + nbyte ≤ c * 4096
    → write_back n c o nbyte (pos x) buffer buf s
      ≡ returns (pos nbyte) (record s {
        blocks = write_all 0 c (x ∷ xs) (mixed o nbyte buf buffer) s.blocks;
        fd_array = update s.fd_array n (record (s.fd_array n) { offset = pos (o + nbyte) });
      })
unfolding write_back
write_back-eq n o nbyte c x xs buffer buf s l u h k =
    let f : ltb (c * 4096) (o + nbyte) ≡ false = ground arith in
    rw (f, write_chain-eq 0 c x xs (mixed o nbyte buf buffer) s l u h)

pub Usable-store_entry :
    (s : Fs) (i : ℕ) (e : DirectoryEntry) (xs : List ℕ)
    → Usable s xs
    → Usable (store_entry s i e) xs
unfolding ec.FileSystem.Disk.can_access
Usable-store_entry s i e [] u = tt
Usable-store_entry s i e (x ∷ xs) u = (u.0, Usable-store_entry s i e xs u.1)

pub room_for : (k z : ℕ) → z ≤ suc k * 4096 → count_of z ≤ suc k
room_for k z h = omega arith

write_sized-eq :
    (n i o nbyte z x : ℕ) (xs : List ℕ) (buf : Bytes) (s : Fs)
    → (s.directory i).inode_number ≡ pos x
    → Linked s.table (x ∷ xs)
    → Usable s (x ∷ xs)
    → z ≤ length (x ∷ xs) * 4096
    → o + nbyte ≤ z
    → write_sized n i o nbyte (pos z) buf s
      ≡ returns (pos nbyte) (written s n i o z nbyte (x ∷ xs) buf)
unfolding write_sized write_read
write_sized-eq n i o nbyte z x xs buf s hx l u f k =
    let s1 : Fs = store_entry s i (record (s.directory i) { size = pos z }) in
    let c : ℕ = count_of z in
    let u1 = Usable-store_entry s i (record (s.directory i) { size = pos z }) (x ∷ xs) u in
    let room : c ≤ length (x ∷ xs) = room_for (length xs) z f in
    let b : Bytes = read_all 0 c (x ∷ xs) s.blocks (λ a. 0) in
    let e : read_chain false 0 (rounds (blocks_of (pos z))) (s.directory i).inode_number (λ a. 0) s1
        ≡ done b =
      ap (λ m. read_chain false 0 m (s.directory i).inode_number (λ a. 0) s1) (blocks_of-pos z)
      ∙ ap (λ m. read_chain false 0 c m (λ a. 0) s1) hx
      ∙ read_chain-eq false 0 c x xs (λ a. 0) s1 l u1 room in
    ap (write_read n (rounds (blocks_of (pos z))) o nbyte (s.directory i).inode_number buf s1) e
    ∙ ap (λ m. write_back n m o nbyte (s.directory i).inode_number b buf s1) (blocks_of-pos z)
    ∙ ap (λ m. write_back n c o nbyte m b buf s1) hx
    ∙ write_back-eq n o nbyte c x xs b buf s1 l u1 room (omega arith)

clamp-eq : (o nbyte : ℕ) → o + nbyte ≤ 2 ^ 24 → clamp o nbyte ≡ nbyte
unfolding clamp
clamp-eq o nbyte h = ground arith

grow_rounds-eq :
    (o nbyte : ℕ)
    → 0 < o + nbyte
    → o + nbyte ≤ 2 ^ 24
    → grow_rounds o nbyte ≡ (o + nbyte - 1) / 4096
grow_rounds-eq o nbyte lo hi = omega arith

-- What both calls do with a descriptor that is open.
pub guard_descriptor-eq :
    (n : ℕ) (s : Fs) → n < 32 → (s.fd_array n).used ≡ true → guard_descriptor (pos n) s ≡ passed n
unfolding guard_descriptor
guard_descriptor-eq n s h u = ground arith

-- The call up to the end of the loop that grows the file.
pub fs_write-eq :
    (s : Fs) (n i o size nbyte x : ℕ) (xs : List ℕ) (buf : Bytes)
    → IsOpen s n i o size x xs
    → 0 < nbyte
    → o + nbyte ≤ 2 ^ 24
    → fs_write (pos n) buf nbyte s
      ≡ after_grow n i o nbyte buf (grow ((o + nbyte - 1) / 4096) (pos x) s)
unfolding fs_write write_guarded write_entry
fs_write-eq s n i o size nbyte x xs buf v lo hi =
    ap (write_guarded nbyte buf s) (guard_descriptor-eq n s v.below v.used)
    ∙ ap (λ f. write_entry n f nbyte buf s (entry_of_inode (s.fd_array n).inode_number s))
        v.at_offset
    ∙ ap (write_entry n (pos o) nbyte buf s) v.found
    ∙ ap (λ m. after_grow n i o m buf (grow (grow_rounds o m) (s.directory i).inode_number s))
        (clamp-eq o nbyte hi)
    ∙ ap (λ m. after_grow n i o nbyte buf (grow m (s.directory i).inode_number s))
        (grow_rounds-eq o nbyte (omega arith) hi)
    ∙ ap (λ m. after_grow n i o nbyte buf (grow ((o + nbyte - 1) / 4096) m s)) v.start

pub write_grown-eq :
    (s : Fs) (n i o size nbyte x : ℕ) (xs : List ℕ) (buf : Bytes)
    → (s.directory i).size ≡ pos size
    → (s.directory i).inode_number ≡ pos x
    → Linked s.table (x ∷ xs)
    → Usable s (x ∷ xs)
    → size ≤ length (x ∷ xs) * 4096
    → o + nbyte ≤ length (x ∷ xs) * 4096
    → o + nbyte ≤ 2 ^ 24
    → write_grown n i o nbyte buf s
      ≡ returns (pos nbyte) (written s n i o (larger size (o + nbyte)) nbyte (x ∷ xs) buf)
unfolding write_grown
write_grown-eq s n i o size nbyte x xs buf hs hx l u f r hi =
    ap (λ z. write_sized n i o nbyte (size_after z ((o + nbyte) % size_mod)) buf s) hs
    ∙ ap (λ z. write_sized n i o nbyte z buf s) (new_size size (o + nbyte) hi)
    ∙ write_sized-eq n i o nbyte (larger size (o + nbyte)) x xs buf s hx l u (ground arith)
        (ground arith)

-- An entry keeps its place when the sizes change.
pub entry_of_inode-sizes :
    (s s' : Fs) (inode : ℤ)
    → ((k : ℕ) → (s'.directory k).used ≡ (s.directory k).used)
    → ((k : ℕ) → (s'.directory k).inode_number ≡ (s.directory k).inode_number)
    → entry_of_inode inode s' ≡ entry_of_inode inode s
unfolding entry_of_inode
entry_of_inode-sizes s s' inode u m = λ k. first_index (λ i. u i k && (m i k ==ℤ inode)) 0 64
