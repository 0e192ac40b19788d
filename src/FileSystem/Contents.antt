-- ===== src/FileSystem/Contents.antt =====
-- The contents of a file: what fs.c reads from its chain of blocks, and what it writes there.
use ec.Base.{
  ℕ, zero, suc, ◌+◌, ◌-◌, ◌*◌, ◌/◌, ◌%◌, ◌≤◌, ◌<◌, ◌≡◌, refl, ◌∙◌, ap, inl, inr, Bool, true, false,
  ◌&&◌, some, List, [], ◌∷◌, ◌++◌, ◌==◌, ltb, if◌then◌else◌, update, Bool-cases, ==→≡, ==→≢,
  ==-refl, ≢→==, arith,
}
use ec.Base.Int.{ℤ, pos, ◌==ℤ◌, minus_one}
use ec.Base.Blocks.{length, Absent, Different}
use ec.FileSystem.State.{block_size, Bytes, Fs}
use ec.FileSystem.Disk.{can_access, block_read, block_write}
use ec.FileSystem.Transfer.{
  put_block, get_block, Walk, done, next_of, read_chain, write_chain, grow,
}
use ec.FileSystem.Chain.{Linked}

-- Every block of the list can be read and written.
abbrev pub Usable : Fs → List ℕ → Type 0
Usable s [] = Unit {0}
Usable s (x ∷ xs) = (can_access (pos x) s ≡ true) × Usable s xs

-- The buffer after reading `n` blocks of a file to its places from `i` on.
abbrev pub read_all : ℕ → ℕ → List ℕ → (ℕ → Bytes) → Bytes → Bytes
read_all i zero xs blocks buffer = buffer
read_all i (suc n) [] blocks buffer = buffer
read_all i (suc n) (x ∷ xs) blocks buffer =
    read_all (i + 1) n xs blocks (put_block buffer i (blocks x))

-- The disk after writing `n` blocks of a file from the buffer's places from `i` on.
abbrev pub write_all : ℕ → ℕ → List ℕ → Bytes → (ℕ → Bytes) → ℕ → Bytes
write_all i zero xs buffer blocks = blocks
write_all i (suc n) [] buffer blocks = blocks
write_all i (suc n) (x ∷ xs) buffer blocks =
    write_all (i + 1) n xs buffer (update blocks x (get_block buffer i))

block_read-eq :
    (x : ℕ) (s : Fs) → can_access (pos x) s ≡ true → block_read (pos x) s ≡ some (s.blocks x)
unfolding block_read
block_read-eq x s h = rw h

block_write-eq :
    (x : ℕ) (b : Bytes) (s : Fs)
    → can_access (pos x) s ≡ true
    → block_write (pos x) b s ≡ some (record s { blocks = update s.blocks x b })
unfolding block_write
block_write-eq x b s h = rw h

on_disk : (x : ℕ) (s : Fs) → can_access (pos x) s ≡ true → ltb x 8192 ≡ true
unfolding can_access
on_disk x s h = ground arith

next_of-eq :
    (x : ℕ) (s : Fs)
    → can_access (pos x) s ≡ true
    → next_of (pos x) s ≡ some (s.table x).next_direct_offset
unfolding next_of
next_of-eq x s h = rw (on_disk x s h)

-- One round of the loops.
read_chain-step :
    (stops : Bool) (i n x : ℕ) (buffer : Bytes) (s : Fs) (next : ℤ)
    → can_access (pos x) s ≡ true
    → (s.table x).next_direct_offset ≡ next
    → read_chain stops i (suc n) (pos x) buffer s ≡ (
        if stops && (next ==ℤ minus_one)
        then done (put_block buffer i (s.blocks x))
        else read_chain stops (i + 1) n next (put_block buffer i (s.blocks x)) s)
unfolding read_chain
read_chain-step stops i n x buffer s next h e =
    ground (arith, block_read-eq x s h, next_of-eq x s h)

pub read_chain-eq :
    (stops : Bool) (i n x : ℕ) (xs : List ℕ) (buffer : Bytes) (s : Fs)
    → Linked s.table (x ∷ xs)
    → Usable s (x ∷ xs)
    → n ≤ length (x ∷ xs)
    → read_chain stops i n (pos x) buffer s ≡ done (read_all i n (x ∷ xs) s.blocks buffer)
unfolding read_chain
read_chain-eq stops i zero x xs buffer s l u h = refl
read_chain-eq stops i (suc n) x [] buffer s l u h = last n stops (omega arith)
  where
    last :
        (m : ℕ) (b : Bool)
        → m ≡ 0
        → read_chain b i (suc m) (pos x) buffer s
          ≡ done (read_all i (suc m) (x ∷ []) s.blocks buffer)
    last zero true e = read_chain-step true i 0 x buffer s minus_one u.0 l
    last zero false e = read_chain-step false i 0 x buffer s minus_one u.0 l
    last (suc m) b e = absurd (omega arith)
read_chain-eq stops i (suc n) x (y ∷ xs) buffer s l u h =
    read_chain-step stops i n x buffer s (pos y) u.0 l.0
    ∙ goes stops (done (put_block buffer i (s.blocks x))) (
        read_chain-eq stops (i + 1) n y xs (put_block buffer i (s.blocks x)) s l.1 u.1
          (omega arith))
  where
    goes :
        (b : Bool) (z : Walk Bytes) {r w : Walk Bytes} → r ≡ w → (if b && false then z else r) ≡ w
    goes true z e = e
    goes false z e = e

pub Usable-blocks :
    (s : Fs) (b : ℕ → Bytes) (xs : List ℕ) → Usable s xs → Usable (record s { blocks = b }) xs
unfolding can_access
Usable-blocks s b [] u = tt
Usable-blocks s b (x ∷ xs) u = (u.0, Usable-blocks s b xs u.1)

write_chain-step :
    (i n x : ℕ) (buffer : Bytes) (s : Fs) (next : ℤ)
    → can_access (pos x) s ≡ true
    → (s.table x).next_direct_offset ≡ next
    → write_chain i (suc n) (pos x) buffer s
      ≡ write_chain
          (i + 1)
          n
          next
          buffer
          (record s { blocks = update s.blocks x (get_block buffer i) })
unfolding write_chain
write_chain-step i n x buffer s next h e =
    let s' : Fs = record s { blocks = update s.blocks x (get_block buffer i) } in
    ground (
      arith,
      block_write-eq x (get_block buffer i) s h,
      next_of-eq x s' ((Usable-blocks s s'.blocks (x ∷ []) (h, tt)).0),
    )

pub write_chain-eq :
    (i n x : ℕ) (xs : List ℕ) (buffer : Bytes) (s : Fs)
    → Linked s.table (x ∷ xs)
    → Usable s (x ∷ xs)
    → n ≤ length (x ∷ xs)
    → write_chain i n (pos x) buffer s
      ≡ done (record s { blocks = write_all i n (x ∷ xs) buffer s.blocks })
unfolding write_chain
write_chain-eq i zero x xs buffer s l u h = refl
write_chain-eq i (suc n) x [] buffer s l u h = last n (omega arith)
  where
    last :
        (m : ℕ)
        → m ≡ 0
        → write_chain i (suc m) (pos x) buffer s
          ≡ done (record s { blocks = write_all i (suc m) (x ∷ []) buffer s.blocks })
    last zero e = write_chain-step i 0 x buffer s minus_one u.0 l
    last (suc m) e = absurd (omega arith)
write_chain-eq i (suc n) x (y ∷ xs) buffer s l u h =
    let s' : Fs = record s { blocks = update s.blocks x (get_block buffer i) } in
    write_chain-step i n x buffer s (pos y) u.0 l.0
    ∙ write_chain-eq (i + 1) n y xs buffer s' l.1 (Usable-blocks s s'.blocks (y ∷ xs) u.1)
        (omega arith)

-- The `k`th block of a file, and the byte at an offset of its contents.
abbrev pub nth : List ℕ → ℕ → ℕ
nth [] k = 0
nth (x ∷ xs) zero = x
nth (x ∷ xs) (suc k) = nth xs k

abbrev pub byte_at : (ℕ → Bytes) → List ℕ → ℕ → ℕ
byte_at blocks xs a = blocks (nth xs (a / block_size)) (a % block_size)

pub nth-++ : (xs ys : List ℕ) (k : ℕ) → k < length xs → nth (xs ++ ys) k ≡ nth xs k
nth-++ [] ys k h = absurd (omega arith)
nth-++ (x ∷ xs) ys zero h = refl
nth-++ (x ∷ xs) ys (suc k) h = nth-++ xs ys k (omega arith)

read_all-before :
    (i n : ℕ) (xs : List ℕ) (blocks : ℕ → Bytes) (buffer : Bytes) (a : ℕ)
    → a / 4096 < i
    → read_all i n xs blocks buffer a ≡ buffer a
read_all-before i zero xs blocks buffer a h = refl
read_all-before i (suc n) [] blocks buffer a h = refl
read_all-before i (suc n) (x ∷ xs) blocks buffer a h =
    read_all-before (i + 1) n xs blocks (put_block buffer i (blocks x)) a (omega arith)
    ∙ rw (≢→== (a / 4096) i (omega arith))

-- What the buffer holds at `a` after the read.
read_all-at :
    (i n : ℕ) (xs : List ℕ) (blocks : ℕ → Bytes) (buffer : Bytes) (a : ℕ)
    → n ≤ length xs
    → i ≤ a / 4096
    → a / 4096 < i + n
    → read_all i n xs blocks buffer a ≡ blocks (nth xs (a / 4096 - i)) (a % 4096)
read_all-at i zero xs blocks buffer a h lo hi = absurd (omega arith)
read_all-at i (suc n) [] blocks buffer a h lo hi = absurd (omega arith)
read_all-at i (suc n) (x ∷ xs) blocks buffer a h lo hi = elim (Bool-cases (a / 4096 == i)) [
  | inl e ↦
      let here : a / 4096 - i ≡ 0 = omega (arith, ==→≡ (a / 4096) i e) in
      read_all-before (i + 1) n xs blocks (put_block buffer i (blocks x)) a
        (omega (arith, ==→≡ (a / 4096) i e))
      ∙ rw (e, here)
  | inr e ↦
      let later : a / 4096 - i ≡ suc (a / 4096 - (i + 1)) = omega (arith, ==→≢ (a / 4096) i e) in
      read_all-at (i + 1) n xs blocks (put_block buffer i (blocks x)) a (omega arith)
        (omega (arith, ==→≢ (a / 4096) i e)) (omega arith)
      ∙ rw later
]

-- Blocks that the file does not have keep their bytes.
pub write_all-elsewhere :
    (i n : ℕ) (xs : List ℕ) (buffer : Bytes) (blocks : ℕ → Bytes) (b : ℕ)
    → Absent b xs
    → write_all i n xs buffer blocks b ≡ blocks b
write_all-elsewhere i zero xs buffer blocks b h = refl
write_all-elsewhere i (suc n) [] buffer blocks b h = refl
write_all-elsewhere i (suc n) (x ∷ xs) buffer blocks b h =
    write_all-elsewhere (i + 1) n xs buffer (update blocks x (get_block buffer i)) b h.1
    ∙ rw (≢→== x b h.0)

write_all-nth :
    (i n : ℕ) (xs : List ℕ) (buffer : Bytes) (blocks : ℕ → Bytes) (k : ℕ)
    → n ≤ length xs
    → k < n
    → Different xs
    → write_all i n xs buffer blocks (nth xs k) ≡ get_block buffer (i + k)
write_all-nth i zero xs buffer blocks k h l d = absurd (omega arith)
write_all-nth i (suc n) [] buffer blocks k h l d = absurd (omega arith)
write_all-nth i (suc n) (x ∷ xs) buffer blocks zero h l d =
    let z : i + 0 ≡ i = omega arith in
    write_all-elsewhere (i + 1) n xs buffer (update blocks x (get_block buffer i)) x d.0
    ∙ rw (==-refl x, z)
write_all-nth i (suc n) (x ∷ xs) buffer blocks (suc k) h l d =
    let z : i + suc k ≡ i + 1 + k = omega arith in
    write_all-nth (i + 1) n xs buffer (update blocks x (get_block buffer i)) k (omega arith)
      (omega arith) d.1
    ∙ rw z

-- The contents that a write of the whole buffer leaves.
pub byte_at-write_all :
    (n : ℕ) (xs : List ℕ) (buffer : Bytes) (blocks : ℕ → Bytes) (a : ℕ)
    → n ≤ length xs
    → a < n * 4096
    → Different xs
    → byte_at (write_all 0 n xs buffer blocks) xs a ≡ buffer a
byte_at-write_all n xs buffer blocks a h l d =
    let whole : (0 + a / 4096) * 4096 + a % 4096 ≡ a = omega arith in
    ap (λ b. b (a % 4096)) (write_all-nth 0 n xs buffer blocks (a / 4096) h (omega arith) d)
    ∙ rw whole

pub read_all-byte_at :
    (n : ℕ) (xs : List ℕ) (blocks : ℕ → Bytes) (buffer : Bytes) (a : ℕ)
    → n ≤ length xs
    → a < n * 4096
    → read_all 0 n xs blocks buffer a ≡ byte_at blocks xs a
read_all-byte_at n xs blocks buffer a h l =
    let z : a / 4096 - 0 ≡ a / 4096 = omega arith in
    read_all-at 0 n xs blocks buffer a h (omega arith) (omega arith) ∙ rw z

-- The loop that grows the file changes nothing while the file has the blocks.
pub grow-eq :
    (k x : ℕ) (xs : List ℕ) (s : Fs)
    → Linked s.table (x ∷ xs)
    → Usable s (x ∷ xs)
    → k ≤ length xs
    → grow k (pos x) s ≡ done s
unfolding grow
grow-eq zero x xs s l u h = refl
grow-eq (suc k) x [] s l u h = absurd (omega arith)
grow-eq (suc k) x (y ∷ xs) s l u h = ground (arith, on_disk x s u.0, l.0, grow-eq k y xs s l.1 u.1)
