-- ===== src/FileSystem/Directory.antt =====
-- fs_open, fs_close, fs_create, fs_delete, fs_get_filesize, fs_listfiles and fs_lseek of fs.c.
use ec.Base.{
  ℕ, zero, suc, ◌+◌, ◌-◌, true, false, not, ◌&&◌, ◌||◌, Option, none, some, List, [], ◌∷◌, ◌==◌,
  ltb, if◌then◌else◌, update, first_index,
}
use ec.Base.Int.{ℤ, pos, negsuc, ◌==ℤ◌, ltb_ℤ, incr, decr, minus_one}
use ec.FileSystem.State.{
  max_filename_length, max_num_of_files, max_file_descriptor, disk_blocks, Name, length, same_name,
  DirectoryEntry, Fs, Return, returns, fault, out_of_fuel, store_fd, store_entry, set_next,
  set_bitmap,
}

-- The first loop of `fs_open`.
unfoldable pub free_descriptor : Fs → Option ℕ
free_descriptor s = first_index (λ i. not (s.fd_array i).used) 0 max_file_descriptor

-- The loop of `fs_open` and `fs_delete` for a name. It does not ask whether the entry is used.
unfoldable pub entry_named : Name → Fs → Option ℕ
entry_named name s = first_index (λ i. same_name name (s.directory i).name) 0 max_num_of_files

-- The loop for the used entry with an inode number.
unfoldable pub entry_of_inode : ℤ → Fs → Option ℕ
entry_of_inode inode s =
    first_index (λ i. (s.directory i).used && ((s.directory i).inode_number ==ℤ inode)) 0
      max_num_of_files

unfoldable pub open_entry : ℕ → Fs → Option ℕ → Return
open_entry fildes s none = returns minus_one s
open_entry fildes s (some i) =
    let e = s.directory i in
    returns (pos fildes) (
      store_entry
        (store_fd s fildes (record { used = true; inode_number = e.inode_number; offset = pos 0 }))
        i (record e { count = incr e.count }))

unfoldable pub open_descriptor : Name → Fs → Option ℕ → Return
open_descriptor name s none = returns minus_one s
open_descriptor name s (some fildes) = open_entry fildes s (entry_named name s)

unfoldable pub fs_open : Name → Fs → Return
fs_open name s = open_descriptor name s (free_descriptor s)

-- The end of `fs_close`, with the entry that its loop has found.
unfoldable pub close_entry : ℕ → Fs → Option ℕ → Return
close_entry fildes s none = returns minus_one s
close_entry fildes s (some i) =
    if not (s.fd_array fildes).used
    then returns minus_one s
    else (let e = s.directory i in
        returns (pos 0) (
          store_entry
            (store_fd s fildes (record { used = false; inode_number = minus_one; offset = pos 0 }))
            i (record e { count = decr e.count })))

-- `fs_close` has no test of its argument: the array is read only if an entry is used.
unfoldable pub fs_close : ℤ → Fs → Return
fs_close (negsuc n) s = elim (first_index (λ i. (s.directory i).used) 0 max_num_of_files) [
  | none ↦ returns minus_one s
  | some _ ↦ fault
]
fs_close (pos n) s =
    if ltb n max_file_descriptor
    then close_entry n s (entry_of_inode (s.fd_array n).inode_number s)
    else elim (first_index (λ i. (s.directory i).used) 0 max_num_of_files) [
      | none ↦ returns minus_one s
      | some _ ↦ fault
    ]

-- The first loop of `fs_create`, over the entries from `i`: `none` if the name is taken, else the
-- number of used entries.
unfoldable pub count_files : Name → Fs → ℕ → ℕ → ℕ → Option ℕ
count_files name s i zero count = some count
count_files name s i (suc n) count =
    let skip = count_files name s (i + 1) n count in
    let next = count_files name s (i + 1) n (count + 1) in
    if (s.directory i).used
    then (if same_name name (s.directory i).name then none else next)
    else skip

unfoldable pub free_entry : Fs → Option ℕ
free_entry s = first_index (λ i. not (s.directory i).used) 0 max_num_of_files

-- A free block becomes the first block of a file.
abbrev pub claim : ℕ → Fs → Fs
claim inode s = record (set_bitmap s inode 1) {
  table = update s.table inode (record { kind = 1; next_direct_offset = minus_one });
}

abbrev pub new_entry : Name → ℕ → DirectoryEntry
new_entry name inode = record {
  used = true;
  inode_number = pos inode;
  name = name;
  size = pos 0;
  count = pos 0;
}

-- The loop of `fs_create` over the blocks from `inode`.
unfoldable pub create_loop : Name → ℕ → ℕ → Fs → Return
create_loop name inode zero s = returns minus_one s
create_loop name inode (suc n) s =
    let busy = create_loop name (inode + 1) n s in
    let full = create_loop name (inode + 1) n (claim inode s) in
    if s.bitmap inode == 0
    then elim (free_entry (claim inode s)) [
      | some i ↦ returns (pos 0) (store_entry (claim inode s) i (new_entry name inode))
      | none ↦ full
    ]
    else busy

unfoldable pub create_counted : Name → Fs → Option ℕ → Return
create_counted name s none = returns minus_one s
create_counted name s (some count) =
    if count == max_num_of_files
    then returns minus_one s
    else create_loop name s.super.data_offset (disk_blocks - s.super.data_offset) s

unfoldable pub fs_create : Name → Fs → Return
fs_create name s =
    if ltb max_filename_length (length name)
    then returns minus_one s
    else create_counted name s (count_files name s 0 max_num_of_files 0)

-- The end of `fs_delete`.
abbrev pub clear_entry : ℕ → Fs → Fs
clear_entry i s =
    store_entry s i
      (record { used = false; inode_number = minus_one; name = []; size = pos 0; count = pos 0 })

-- The `while` loop of `fs_delete` and what follows it. Each round marks a block of the table as free.
unfoldable pub free_chain : ℕ → ℕ → ℤ → Fs → Return
free_chain zero index inode s = out_of_fuel
free_chain (suc fuel) index (negsuc n) s = fault
free_chain (suc fuel) index (pos n) s =
    let next = (s.table n).next_direct_offset in
    let rest = free_chain fuel index next (set_next (set_bitmap s n 0) n (negsuc 1)) in
    if ltb n disk_blocks
    then (if next ==ℤ minus_one
        then returns (pos 0) (clear_entry index (set_next (set_bitmap s n 0) n (negsuc 1)))
        else rest)
    else fault

unfoldable pub delete_entry : Fs → Option ℕ → Return
delete_entry s none = returns minus_one s
delete_entry s (some i) =
    if ltb_ℤ (pos 0) (s.directory i).count
    then returns minus_one s
    else free_chain (disk_blocks + 1) i (s.directory i).inode_number s

unfoldable pub fs_delete : Name → Fs → Return
fs_delete name s = delete_entry s (entry_named name s)

unfoldable pub filesize_of : Fs → Option ℕ → Return
filesize_of s none = returns minus_one s
filesize_of s (some i) = returns (s.directory i).size s

-- `fs_get_filesize` reads the array, with no test of its argument, only if an entry is used.
unfoldable pub fs_get_filesize : ℤ → Fs → Return
fs_get_filesize (pos n) s =
    if ltb n max_file_descriptor
    then filesize_of s (entry_of_inode (s.fd_array n).inode_number s)
    else elim (first_index (λ i. (s.directory i).used) 0 max_num_of_files) [
      | none ↦ returns minus_one s
      | some _ ↦ fault
    ]
fs_get_filesize (negsuc n) s = elim (first_index (λ i. (s.directory i).used) 0 max_num_of_files) [
  | none ↦ returns minus_one s
  | some _ ↦ fault
]

-- `fs_listfiles`: the names in the array, before its terminating NULL.
unfoldable pub list_from : Fs → ℕ → ℕ → List Name
list_from s i zero = []
list_from s i (suc n) =
    let rest = list_from s (i + 1) n in
    if (s.directory i).used then (s.directory i).name ∷ rest else rest

unfoldable pub fs_listfiles : Fs → List Name
fs_listfiles s = list_from s 0 max_num_of_files

-- The guard of `fs_lseek`, `fs_read`, `fs_write` and `fs_truncate`. Its bound lets `max_file_descriptor`
-- through, which is beyond the array.
pub data Guard : Type 0 where
  refused beyond : Guard
  passed : ℕ → Guard

unfoldable pub guard_descriptor : ℤ → Fs → Guard
guard_descriptor (negsuc n) s = refused
guard_descriptor (pos n) s =
    if ltb max_file_descriptor n
    then refused
    else if n == max_file_descriptor
    then beyond
    else if (s.fd_array n).used
    then passed n
    else refused

unfoldable pub seek_entry : ℕ → ℤ → Fs → Option ℕ → Return
seek_entry n offset s none = returns minus_one s
seek_entry n offset s (some i) =
    if ltb_ℤ offset (pos 0) || ltb_ℤ (s.directory i).size offset
    then returns minus_one s
    else returns (pos 0) (store_fd s n (record (s.fd_array n) { offset = offset }))

unfoldable pub seek_guarded : ℤ → Fs → Guard → Return
seek_guarded offset s refused = returns minus_one s
seek_guarded offset s beyond = fault
seek_guarded offset s (passed n) =
    seek_entry n offset s (entry_of_inode (s.fd_array n).inode_number s)

unfoldable pub fs_lseek : ℤ → ℤ → Fs → Return
fs_lseek fildes offset s = seek_guarded offset s (guard_descriptor fildes s)
