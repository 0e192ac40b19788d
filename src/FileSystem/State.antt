-- ===== src/FileSystem/State.antt =====
-- The data of fs.c: the structures, the global variables and the disk under them.
use ec.Base.{
  ℕ, suc, ◌^◌, Bool, true, false, ◌&&◌, Option, none, some, List, [], ◌∷◌, ◌==◌, ltb, if◌then◌else◌,
  update,
}
use ec.Base.Int.{ℤ, pos, negsuc}

abbrev pub max_filename_length : ℕ
max_filename_length = 15

abbrev pub max_num_of_files : ℕ
max_num_of_files = 64

abbrev pub max_file_descriptor : ℕ
max_file_descriptor = 32

abbrev pub max_filesize : ℕ
max_filesize = 2 ^ 24

abbrev pub disk_blocks : ℕ
disk_blocks = 8192

abbrev pub block_size : ℕ
block_size = 4096

-- A C string: its bytes before the terminating 0.
abbrev pub Name : Type 0
Name = List ℕ

-- `strlen`
abbrev pub length : Name → ℕ
length [] = 0
length (c ∷ cs) = suc (length cs)

-- `strcmp(a, b) == 0`
abbrev pub same_name : Name → Name → Bool
same_name [] [] = true
same_name (a ∷ as') (b ∷ bs) = (a == b) && same_name as' bs
same_name _ _ = false

-- `Superblock`
pub record Superblock : Type 0 where
  pub used_block_bitmap_count : ℕ
  pub used_block_bitmap_offset : ℕ
  pub inode_metadata_blocks : ℕ
  pub inode_metadata_offset : ℕ
  pub d_offset : ℕ
  pub d_length : ℕ
  pub data_offset : ℕ

-- `Inode`: the block behind this one, -1 at the end of a file and -2 if the block is free.
pub record Inode : Type 0 where
  pub kind : ℕ
  pub next_direct_offset : ℤ

-- `Directory_Entry`
pub record DirectoryEntry : Type 0 where
  pub used : Bool
  pub inode_number : ℤ
  pub name : Name
  pub size : ℤ
  pub count : ℤ

-- `File_Descriptor`
pub record FileDescriptor : Type 0 where
  pub used : Bool
  pub inode_number : ℤ
  pub offset : ℤ

-- The bytes of a block or of a buffer, by offset.
abbrev pub Bytes : Type 0
Bytes = ℕ → ℕ

-- The global variables of a mounted file system, and the virtual disk of disk.c: whether it is open, its
-- blocks, and at which of them the host's lseek, read and write fail.
pub record Fs : Type 0 where
  pub super : Superblock
  pub table : ℕ → Inode
  pub bitmap : ℕ → ℕ
  pub fd_array : ℕ → FileDescriptor
  pub directory : ℕ → DirectoryEntry
  pub active : Bool
  pub blocks : ℕ → Bytes
  pub broken : ℕ → Bool

-- How a call ends: it returns a number, or it accesses an array out of its bounds, or its loop has used
-- up its fuel.
pub data Return : Type 0 where
  returns : ℤ → Fs → Return
  fault : Return
  out_of_fuel : Return

-- `fd_array[fildes]`, if it is in the array.
abbrev pub fd_at : Fs → ℤ → Option FileDescriptor
fd_at s (pos n) = if ltb n max_file_descriptor then some (s.fd_array n) else none
fd_at s (negsuc n) = none

-- `Table[inode]`, if it is in the table.
abbrev pub inode_at : Fs → ℤ → Option Inode
inode_at s (pos n) = if ltb n disk_blocks then some (s.table n) else none
inode_at s (negsuc n) = none

abbrev pub store_fd : Fs → ℕ → FileDescriptor → Fs
store_fd s i f = record s { fd_array = update s.fd_array i f }

abbrev pub store_entry : Fs → ℕ → DirectoryEntry → Fs
store_entry s i e = record s { directory = update s.directory i e }

-- `Table[i].next_direct_offset = n`
abbrev pub set_next : Fs → ℕ → ℤ → Fs
set_next s i n = record s {
  table = update s.table i (record (s.table i) { next_direct_offset = n });
}

abbrev pub set_bitmap : Fs → ℕ → ℕ → Fs
set_bitmap s i v = record s { bitmap = update s.bitmap i v }
