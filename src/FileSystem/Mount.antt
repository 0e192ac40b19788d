-- ===== src/FileSystem/Mount.antt =====
-- make_disk, open_disk and close_disk of disk.c, and make_fs, mount_fs and umount_fs of fs.c.
use ec.Base.{
  ℕ, zero, suc, ◌+◌, ◌-◌, ◌*◌, ◌/◌, ◌%◌, Bool, true, false, ◌&&◌, Option, none, some, [], ltb, leb,
  if◌then◌else◌,
}
use ec.Base.Int.{ℤ, pos, negsuc, minus_one}
use ec.FileSystem.State.{
  max_num_of_files, max_file_descriptor, disk_blocks, block_size, Name, same_name, Superblock,
  Inode, DirectoryEntry, FileDescriptor, Bytes, Fs,
}
use ec.FileSystem.Disk.{block_read, block_write}
use ec.FileSystem.Layout.{shift, put_inode, get_inode, put_entry, get_entry, put_super, get_super}

-- The host: which files it opens and creates, whether it writes all of a new one, and what a file holds when
-- it does not.
pub record Host : Type 0 where
  pub can_open : Name → Bool
  pub can_create : Name → Bool
  pub can_fill : Name → Bool
  pub leftover : Name → ℕ → Bytes

-- What a block from malloc and a variable without a value hold.
pub record Unset : Type 0 where
  pub super : Superblock
  pub bitmap : ℕ → ℕ
  pub kind : ℕ

-- The file system with the flag `mounted`, the file under the open disk, and the other files of the host.
-- The blocks of the open disk are those in `fs`.
pub record Device : Type 0 where
  pub fs : Fs
  pub mounted : Bool
  pub handle : Option Name
  pub files : Name → Option (ℕ → Bytes)

-- How a part of a call ends: it goes on, it returns a number, it accesses a block out of its bounds, or the
-- superblock has a negative number.
pub data Part {ℓ} (A : Type ℓ) : Type ℓ where
  more : A → Part A
  ends : ℤ → Device → Part A
  fault : Part A
  negative : Part A

infixl 5 ◌>>=◌
abbrev pub ◌>>=◌ {ℓ κ} : {A : Type ℓ} {B : Type κ} → Part A → (A → Part B) → Part B
more a >>= f = f a
ends n d >>= f = ends n d
fault >>= f = fault
negative >>= f = negative

-- `if(... == -1) return -1;`
abbrev pub check {ℓ} : {A : Type ℓ} → Device → Option A → Part A
check d none = ends minus_one d
check d (some a) = more a

abbrev pub with_fs : Device → Fs → Device
with_fs d s = record d { fs = s }

abbrev pub written : Device → Option Fs → Option Device
written d none = none
written d (some s) = some (with_fs d s)

abbrev pub write_block : Device → ℕ → Bytes → Part Device
write_block d n b = check d (written d (block_write (pos n) b d.fs))

abbrev pub read_block : Device → ℕ → Part Bytes
read_block d n = check d (block_read (pos n) d.fs)

-- A file gets new contents, also when it is the one under the open disk.
abbrev pub store_file : Name → (ℕ → Bytes) → Device → Device
store_file n b d = record d { files = λ m. if same_name n m then some b else d.files m }

abbrev pub set_file : Option Name → Name → (ℕ → Bytes) → Device → Device
set_file none n b d = store_file n b d
set_file (some m) n b d =
    if same_name m n then with_fs d (record d.fs { blocks = b }) else store_file n b d

abbrev pub zeros : ℕ → Bytes
zeros n k = 0

-- `make_disk`, where `none` is a null pointer
unfoldable pub make_disk : Host → Option Name → Device → Part Device
make_disk h none d = ends minus_one d
make_disk h (some n) d =
    if h.can_create n
    then (if h.can_fill n
        then more (set_file d.handle n zeros d)
        else ends minus_one (set_file d.handle n (h.leftover n) d))
    else ends minus_one d

-- `open_disk`
abbrev pub attach : Name → Device → Option (ℕ → Bytes) → Option Device
attach n d none = none
attach n d (some b) =
    some (record d { fs = record d.fs { active = true; blocks = b }; handle = some n })

unfoldable pub open_disk : Host → Option Name → Device → Option Device
open_disk h none d = none
open_disk h (some n) d =
    if d.fs.active then none else if h.can_open n then attach n d (d.files n) else none

-- `close_disk`
abbrev pub detach : Option Name → Device → Device
detach none d = record d { fs = record d.fs { active = false } }
detach (some n) d = record d {
  fs = record d.fs { active = false };
  handle = none;
  files = λ m. if same_name n m then some d.fs.blocks else d.files m;
}

unfoldable pub close_disk : Device → Option Device
close_disk d = if d.fs.active then some (detach d.handle d) else none

-- The superblock that `make_fs` computes.
abbrev pub d_length : ℕ
d_length = 32 * max_num_of_files / block_size + 1

abbrev pub new_super : Superblock
new_super = record {
  d_offset = 1;
  d_length = d_length;
  used_block_bitmap_offset = d_length + 1;
  used_block_bitmap_count = disk_blocks / block_size;
  inode_metadata_offset = disk_blocks / block_size + (d_length + 1);
  inode_metadata_blocks = 8 * disk_blocks / block_size;
  data_offset = 8 * disk_blocks / block_size + (disk_blocks / block_size + (d_length + 1));
}

abbrev pub empty_dir : DirectoryEntry
empty_dir = record {
  used = false;
  inode_number = minus_one;
  name = [];
  size = pos 0;
  count = pos 0;
}

-- The entries of the directory, over what the buffer held before.
unfoldable pub directory_image : (ℕ → DirectoryEntry) → Bytes → Bytes
directory_image dir b k =
    if ltb k (32 * max_num_of_files) then put_entry (dir (k / 32)) (k % 32) else b k

-- The block `i` of the inode table.
unfoldable pub table_image : (ℕ → Inode) → ℕ → Bytes
table_image t i k = put_inode (t (512 * i + k / 8)) (k % 8)

-- The loops over the blocks of the inode table. The table has room for 16 of them.
unfoldable pub write_table : (ℕ → Inode) → ℕ → ℕ → ℕ → Device → Part Device
write_table t zero offset i d = more d
write_table t (suc n) offset i d = do
  e ← write_block d (offset + i) (table_image t i)
  write_table t n offset (i + 1) e

abbrev pub in_table : ℕ → Part Bool
in_table i = if ltb i 16 then more true else fault

unfoldable pub save_table : ℕ → ℕ → ℕ → Device → Part Device
save_table zero offset i d = more d
save_table (suc n) offset i d = do
  ok ← in_table i
  e ← write_block d (offset + i) (table_image d.fs.table i)
  save_table n offset (i + 1) e

abbrev pub load_block : (ℕ → Inode) → ℕ → Bytes → (ℕ → Inode)
load_block t i b j =
    if leb (512 * i) j && ltb j (512 * i + 512)
    then get_inode (shift (8 * (j - 512 * i)) b)
    else t j

unfoldable pub load_table : ℕ → ℕ → ℕ → Device → Part Device
load_table zero offset i d = more d
load_table (suc n) offset i d = do
  b ← read_block d (offset + i)
  ok ← in_table i
  load_table n offset (i + 1) (with_fs d (record d.fs { table = load_block d.fs.table i b }))

-- `'0'` over the first bytes of the buffer.
abbrev pub bitmap_image : ℕ → Bytes → Bytes
bitmap_image n b k = if ltb k n then b'0' else b k

abbrev pub empty_table : ℕ → ℕ → Inode
empty_table kind j = record { kind = kind; next_direct_offset = negsuc 1 }

-- `make_fs`
unfoldable pub make_fs : Host → Unset → Option Name → Device → Part Device
make_fs h u disk_name d = do
  d1 ← make_disk h disk_name d
  d2 ← check d1 (open_disk h disk_name d1)
  d3 ← write_block d2 0 (put_super new_super)
  d4 ← write_block d3 new_super.d_offset (directory_image (λ i. empty_dir) (put_super new_super))
  d5 ←
      write_table (empty_table u.kind) new_super.inode_metadata_blocks
        new_super.inode_metadata_offset 0 d4
  d6 ←
      write_block d5 new_super.used_block_bitmap_offset
        (bitmap_image new_super.used_block_bitmap_count (table_image (empty_table u.kind) 0))
  d7 ← check d6 (close_disk d6)
  ends (pos 0) d7

-- What calloc leaves in the directory and in the table.
abbrev pub zero_entry : DirectoryEntry
zero_entry = record { used = false; inode_number = pos 0; name = []; size = pos 0; count = pos 0 }

abbrev pub zero_inode : Inode
zero_inode = record { kind = 0; next_direct_offset = pos 0 }

-- `sizeof(Directory)` is that of a pointer, 8, so that 8 * 64 bytes are copied.
unfoldable pub load_directory : Bytes → ℕ → DirectoryEntry
load_directory b i =
    if ltb (32 * i) (8 * max_num_of_files) then get_entry (shift (32 * i) b) else zero_entry

abbrev pub super_of : Option Superblock → Part Superblock
super_of none = negative
super_of (some s) = more s

abbrev pub load_bitmap : Device → ℕ → Bytes → Part Device
load_bitmap d n b =
    if leb n block_size
    then more (with_fs d (record d.fs { bitmap = λ k. if ltb k n then b k else d.fs.bitmap k }))
    else fault

-- `mount_fs`
abbrev pub not_mounted : Device → Part Bool
not_mounted d = if d.mounted then ends minus_one d else more true

abbrev pub no_open_fds : Fs → Fs
no_open_fds s = record s {
  fd_array = λ i.
      if ltb i max_file_descriptor then record (s.fd_array i) { used = false } else s.fd_array i;
}

unfoldable pub mount_fs : Host → Unset → Option Name → Device → Part Device
mount_fs h u disk_name d = do
  ok ← not_mounted d
  d1 ← check d (open_disk h disk_name d)
  d2 ← more (with_fs d1 (record d1.fs { super = u.super }))
  b ← read_block d2 0
  sb ← super_of (get_super b)
  d3 ← more (with_fs d2 (record d2.fs { super = sb; directory = λ i. zero_entry }))
  c ← read_block d3 sb.d_offset
  d4 ← more (with_fs d3 (record d3.fs { directory = load_directory c; table = λ j. zero_inode }))
  d5 ← load_table sb.inode_metadata_blocks sb.inode_metadata_offset 0 d4
  d6 ← more (with_fs d5 (record d5.fs { bitmap = u.bitmap }))
  e ← read_block d6 sb.used_block_bitmap_offset
  d7 ← load_bitmap d6 sb.used_block_bitmap_count e
  ends (pos 0) (record d7 { fs = no_open_fds d7.fs; mounted = true })

-- `umount_fs`
abbrev pub can_umount : Option Name → Device → Part Bool
can_umount none d = ends minus_one d
can_umount (some n) d = if d.mounted then more true else ends minus_one d

abbrev pub free_fd : FileDescriptor → FileDescriptor
free_fd f = if f.used then record { used = false; inode_number = minus_one; offset = pos 0 } else f

abbrev pub free_fds : Fs → Fs
free_fds s = record s {
  fd_array = λ i. if ltb i max_file_descriptor then free_fd (s.fd_array i) else s.fd_array i;
}

unfoldable pub umount_fs : Option Name → Device → Part Device
umount_fs disk_name d = do
  ok ← can_umount disk_name d
  d1 ← write_block d 0 (put_super d.fs.super)
  d2 ← write_block d1 d.fs.super.d_offset (directory_image d.fs.directory (put_super d.fs.super))
  d3 ← save_table d.fs.super.inode_metadata_blocks d.fs.super.inode_metadata_offset 0 d2
  d4 ← more (with_fs d3 (free_fds d3.fs))
  d5 ← check d4 (close_disk d4)
  ends (pos 0) (record d5 { mounted = false })
