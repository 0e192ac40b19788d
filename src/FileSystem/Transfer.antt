-- ===== src/FileSystem/Transfer.antt =====
-- fs_read, fs_write and fs_truncate of fs.c.
use ec.Base.{
  ℕ, zero, suc, ◌+◌, ◌-◌, ◌*◌, ◌/◌, ◌%◌, ◌^◌, Bool, true, false, not, ◌&&◌, Option, none, some,
  ◌==◌, ltb, leb, if◌then◌else◌, first_index,
}
use ec.Base.Int.{
  ℤ, pos, negsuc, ◌==ℤ◌, ltb_ℤ, incr, decr, minus_one, to_size, to_int, div_ℤ, ◌-ℤ◌, rounds,
}
use ec.FileSystem.State.{
  max_filesize, disk_blocks, block_size, Bytes, Fs, Return, returns, fault, out_of_fuel, store_fd,
  store_entry, set_next, set_bitmap,
}
use ec.FileSystem.Directory.{entry_of_inode, Guard, refused, beyond, passed, guard_descriptor}
use ec.FileSystem.Disk.{block_read, block_write}

abbrev pub size_mod : ℕ
size_mod = 2 ^ 64

-- `(size - 1) / BLOCK_SIZE + 1`
abbrev pub blocks_of : ℤ → ℤ
blocks_of size = incr (div_ℤ (decr size) block_size)

-- The block at `buffer + i * BLOCK_SIZE` is replaced.
abbrev pub put_block : Bytes → ℕ → Bytes → Bytes
put_block buffer i b a = if a / block_size == i then b (a % block_size) else buffer a

-- `buffer + i * BLOCK_SIZE`
abbrev pub get_block : Bytes → ℕ → Bytes
get_block buffer i a = buffer (i * block_size + a)

-- How a loop over the blocks of a file ends: with a result, by `return -1`, or by an access beyond the
-- table.
pub data Walk (A : Type 0) : Type 0 where
  done : A → Walk A
  failed : Fs → Walk A
  bad_index : Walk A

-- `Table[inode].next_direct_offset`
unfoldable pub next_of : ℤ → Fs → Option ℤ
next_of (negsuc n) s = none
next_of (pos n) s = if ltb n disk_blocks then some (s.table n).next_direct_offset else none

-- The loop of `fs_read`, which stops at the end of the chain, and that of `fs_write`, which does not.
unfoldable pub read_chain : Bool → ℕ → ℕ → ℤ → Bytes → Fs → Walk Bytes
read_chain stops i zero inode buffer s = done buffer
read_chain stops i (suc n) inode buffer s = elim (block_read inode s) [
  | none ↦ failed s
  | some b ↦ elim (next_of inode s) [
    | none ↦ bad_index
    | some next ↦
        if stops && (next ==ℤ minus_one)
        then done (put_block buffer i b)
        else read_chain stops (i + 1) n next (put_block buffer i b) s
  ]
]

-- What `fs_read` leaves: its result, the bytes at `buf` and the file system.
pub data ReadReturn : Type 0 where
  gives : ℤ → Bytes → Fs → ReadReturn
  read_fault : ReadReturn

-- `memcpy(buf, buffer + offset, nbyte)` and what follows it, where `capacity` is the buffer's size. A copy
-- from beyond the buffer is a fault.
unfoldable pub read_copy : ℕ → ℕ → ℤ → ℤ → ℕ → Bytes → Bytes → Fs → ReadReturn
read_copy n capacity size (negsuc o) nbyte buffer buf s = read_fault
read_copy n capacity size (pos o) nbyte buffer buf s =
    if ltb capacity (o + nbyte)
    then read_fault
    else (let out : Bytes = λ k. if ltb k nbyte then buffer (o + k) else buf k in
        if ltb (to_size size) (o + nbyte)
        then gives (size -ℤ pos o) out (store_fd s n (record (s.fd_array n) { offset = size }))
        else gives (pos nbyte) out
            (store_fd s n (record (s.fd_array n) { offset = pos (o + nbyte) })))

-- `fs_read` from the end of its loop on, for the entry `i` of `count` blocks.
unfoldable pub after_read : ℕ → ℕ → ℤ → ℕ → Bytes → Fs → Walk Bytes → ReadReturn
after_read n count size nbyte buf s (failed s') = gives minus_one buf s
after_read n count size nbyte buf s bad_index = read_fault
after_read n count size nbyte buf s (done buffer) =
    read_copy n (count * block_size) size (s.fd_array n).offset nbyte buffer buf s

unfoldable pub read_sized : ℕ → ℤ → ℤ → ℕ → Bytes → Fs → ReadReturn
read_sized n inode size nbyte buf s =
    let count = rounds (blocks_of size) in
    after_read n count size nbyte buf s (read_chain true 0 count inode (λ a. 0) s)

unfoldable pub read_entry : ℕ → ℕ → Bytes → Fs → Option ℕ → ReadReturn
read_entry n nbyte buf s none = read_fault
read_entry n nbyte buf s (some i) =
    read_sized n (s.directory i).inode_number (s.directory i).size nbyte buf s

unfoldable pub read_guarded : ℕ → Bytes → Fs → Guard → ReadReturn
read_guarded nbyte buf s refused = gives minus_one buf s
read_guarded nbyte buf s beyond = read_fault
read_guarded nbyte buf s (passed n) =
    if nbyte == 0
    then gives minus_one buf s
    else read_entry n nbyte buf s (entry_of_inode (s.fd_array n).inode_number s)

unfoldable pub fs_read : ℤ → Bytes → ℕ → Fs → ReadReturn
fs_read fildes buf nbyte s = read_guarded nbyte buf s (guard_descriptor fildes s)

-- The block that the inner loop of `fs_write` takes.
unfoldable pub free_block : Fs → Option ℕ
free_block s =
    first_index (λ j. s.bitmap j == 0) s.super.data_offset (disk_blocks - s.super.data_offset)

-- The block `j` becomes the last of the file that ended at `n`.
abbrev pub link_block : ℕ → ℕ → Fs → Fs
link_block n j s = set_next (set_next (set_bitmap s j 1) n (pos j)) j minus_one

-- The loop of `fs_write` that gives the file the blocks that it needs.
unfoldable pub grow : ℕ → ℤ → Fs → Walk Fs
grow zero inode s = done s
grow (suc k) inode s = elim inode [
  | negsuc n ↦ bad_index
  | pos n ↦
      if not (ltb n disk_blocks)
      then bad_index
      else if (s.table n).next_direct_offset ==ℤ minus_one
      then elim (free_block s) [
        | none ↦ if ltb s.super.data_offset disk_blocks then failed s else grow k minus_one s
        | some j ↦ grow k ((link_block n j s).table n).next_direct_offset (link_block n j s)
      ]
      else grow k (s.table n).next_direct_offset s
]

-- The last loop of `fs_write`.
unfoldable pub write_chain : ℕ → ℕ → ℤ → Bytes → Fs → Walk Fs
write_chain i zero inode buffer s = done s
write_chain i (suc n) inode buffer s = elim (block_write inode (get_block buffer i) s) [
  | none ↦ failed s
  | some s' ↦ elim (next_of inode s') [
    | none ↦ bad_index
    | some next ↦ write_chain (i + 1) n next buffer s'
  ]
]

-- `fs_write` from the copy into the buffer on.
unfoldable pub write_back : ℕ → ℕ → ℕ → ℕ → ℤ → Bytes → Bytes → Fs → Return
write_back n count o nbyte inode buffer buf s =
    if ltb (count * block_size) (o + nbyte)
    then fault
    else (let mixed : Bytes = λ a. if leb o a && ltb a (o + nbyte) then buf (a - o) else buffer a in
        elim (write_chain 0 count inode mixed s) [
          | failed s' ↦ returns minus_one s'
          | bad_index ↦ fault
          | done s' ↦
              returns (pos nbyte)
                (store_fd s' n (record (s'.fd_array n) { offset = pos (o + nbyte) }))
        ])

-- `fs_write` from the end of the loop that reads the file on.
unfoldable pub write_read : ℕ → ℕ → ℕ → ℕ → ℤ → Bytes → Fs → Walk Bytes → Return
write_read n count o nbyte inode buf s (failed s') = returns minus_one s
write_read n count o nbyte inode buf s bad_index = fault
write_read n count o nbyte inode buf s (done buffer) = write_back n count o nbyte inode buffer buf s

-- `fs_write` with the blocks in place, where `size` is the size of the file from now on.
unfoldable pub write_sized : ℕ → ℕ → ℕ → ℕ → ℤ → Bytes → Fs → Return
write_sized n i o nbyte size buf s =
    let e = s.directory i in
    let s1 = store_entry s i (record e { size = size }) in
    let count = rounds (blocks_of size) in
    write_read n count o nbyte e.inode_number buf s1
      (read_chain false 0 count e.inode_number (λ a. 0) s1)

-- The size of a file after a write up to `wanted`.
abbrev pub size_after : ℤ → ℕ → ℤ
size_after size wanted = if ltb (to_size size) wanted then pos wanted else size

unfoldable pub write_grown : ℕ → ℕ → ℕ → ℕ → Bytes → Fs → Return
write_grown n i o nbyte buf s =
    write_sized n i o nbyte (size_after (s.directory i).size ((o + nbyte) % size_mod)) buf s

-- `nbyte` is cut down to what the largest file leaves room for.
unfoldable pub clamp : ℕ → ℕ → ℕ
clamp o nbyte =
    if ltb max_filesize ((o + nbyte) % size_mod)
    then (max_filesize + size_mod - o) % size_mod
    else nbyte

-- `(offset + nbyte - 1) / BLOCK_SIZE` on size_t, the rounds of the loop that grows the file
abbrev pub grow_rounds : ℕ → ℕ → ℕ
grow_rounds o nbyte = (o + nbyte + size_mod - 1) % size_mod / block_size

unfoldable pub after_grow : ℕ → ℕ → ℕ → ℕ → Bytes → Walk Fs → Return
after_grow n i o nbyte buf (failed s) = returns minus_one s
after_grow n i o nbyte buf bad_index = fault
after_grow n i o nbyte buf (done s) = write_grown n i o nbyte buf s

unfoldable pub write_entry : ℕ → ℤ → ℕ → Bytes → Fs → Option ℕ → Return
write_entry n offset nbyte buf s none = fault
write_entry n (negsuc o) nbyte buf s (some i) = fault
write_entry n (pos o) nbyte buf s (some i) =
    let nbyte' = clamp o nbyte in
    after_grow n i o nbyte' buf (grow (grow_rounds o nbyte') (s.directory i).inode_number s)

unfoldable pub write_guarded : ℕ → Bytes → Fs → Guard → Return
write_guarded nbyte buf s refused = returns minus_one s
write_guarded nbyte buf s beyond = fault
write_guarded nbyte buf s (passed n) =
    write_entry n (s.fd_array n).offset nbyte buf s (entry_of_inode (s.fd_array n).inode_number s)

unfoldable pub fs_write : ℤ → Bytes → ℕ → Fs → Return
fs_write fildes buf nbyte s = write_guarded nbyte buf s (guard_descriptor fildes s)

-- The loop of `fs_truncate` over the blocks that stay: the last one.
unfoldable pub skip_blocks : ℕ → ℤ → Fs → Option ℤ
skip_blocks zero inode s = some inode
skip_blocks (suc k) inode s = elim (next_of inode s) [
  | none ↦ none
  | some next ↦ skip_blocks k next s
]

-- The `while` loop of `fs_truncate`.
unfoldable pub cut_chain : ℕ → ℤ → Fs → Option (Option Fs)
cut_chain zero inode s = none
cut_chain (suc fuel) (negsuc n) s = if n == 0 then some (some s) else some none
cut_chain (suc fuel) (pos n) s =
    let rest = cut_chain fuel (s.table n).next_direct_offset (set_next s n (negsuc 1)) in
    if ltb n disk_blocks then rest else some none

-- `Table[truncate].next_direct_offset = -1` and the result.
unfoldable pub end_file : ℤ → Fs → Return
end_file (negsuc n) s = fault
end_file (pos n) s = if ltb n disk_blocks then returns (pos 0) (set_next s n minus_one) else fault

unfoldable pub truncate_from : Fs → Option ℤ → Return
truncate_from s none = fault
truncate_from s (some inode) = elim (cut_chain (disk_blocks + 2) inode s) [
  | none ↦ out_of_fuel
  | some none ↦ fault
  | some (some s') ↦ end_file inode s'
]

unfoldable pub truncate_entry : ℤ → Fs → Option ℕ → Return
truncate_entry length s none = fault
truncate_entry length s (some i) =
    let e = s.directory i in
    let s1 = store_entry s i (record e { size = to_int length }) in
    if ltb_ℤ e.size length
    then returns minus_one s
    else truncate_from s1 (skip_blocks (rounds (div_ℤ (decr length) block_size)) e.inode_number s1)

unfoldable pub truncate_guarded : ℤ → Fs → Guard → Return
truncate_guarded length s refused = returns minus_one s
truncate_guarded length s beyond = fault
truncate_guarded length s (passed n) =
    truncate_entry length s (entry_of_inode (s.fd_array n).inode_number s)

unfoldable pub fs_truncate : ℤ → ℤ → Fs → Return
fs_truncate fildes length s = truncate_guarded length s (guard_descriptor fildes s)
