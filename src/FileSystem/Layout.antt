-- ===== src/FileSystem/Layout.antt =====
-- The images of the structures of fs.c in a block: 4 bytes for an int, the lowest first, and each int at a
-- multiple of 4. The bytes between the fields and those behind the end of a name are written as 0.
use ec.Base.{
  ℕ, zero, suc, ◌+◌, ◌-◌, ◌*◌, ◌/◌, ◌%◌, ◌^◌, Bool, ◌&&◌, not, Option, none, some, [], ◌∷◌, ◌==◌,
  ltb, if◌then◌else◌,
}
use ec.Base.Int.{ℤ, pos, negsuc}
use ec.FileSystem.State.{Name, Superblock, Inode, DirectoryEntry, Bytes}

-- An int as the number of its 4 bytes, and back.
unfoldable pub to_word : ℤ → ℕ
to_word (pos n) = n % 2 ^ 32
to_word (negsuc n) = 2 ^ 32 - 1 - n % 2 ^ 32

unfoldable pub of_word : ℕ → ℤ
of_word u = if ltb u (2 ^ 31) then pos u else negsuc (2 ^ 32 - 1 - u)

unfoldable pub word_byte : ℕ → ℕ → ℕ
word_byte u zero = u % 256
word_byte u (suc zero) = u / 256 % 256
word_byte u (suc (suc zero)) = u / 256 / 256 % 256
word_byte u (suc (suc (suc k))) = u / 256 / 256 / 256 % 256

unfoldable pub get_word : Bytes → ℕ → ℕ
get_word b o = b o + 256 * b (o + 1) + 65536 * b (o + 2) + 16777216 * b (o + 3)

abbrev pub shift : ℕ → Bytes → Bytes
shift o b k = b (o + k)

-- `Inode`: 8 bytes
unfoldable pub put_inode : Inode → Bytes
put_inode e k =
    if k == 0
    then e.kind % 256
    else if ltb k 4
    then 0
    else word_byte (to_word e.next_direct_offset) (k - 4)

unfoldable pub get_inode : Bytes → Inode
get_inode b = record { kind = b 0; next_direct_offset = of_word (get_word b 4) }

unfoldable pub name_byte : Name → ℕ → ℕ
name_byte [] k = 0
name_byte (c ∷ s) zero = c % 256
name_byte (c ∷ s) (suc k) = name_byte s k

unfoldable pub get_name : ℕ → Bytes → Name
get_name zero b = []
get_name (suc n) b = let rest = get_name n (shift 1 b) in if b 0 == 0 then [] else b 0 ∷ rest

-- `Directory_Entry`: 32 bytes, with a name of 16
unfoldable pub put_entry : DirectoryEntry → Bytes
put_entry e k =
    if k == 0
    then (if e.used then 1 else 0)
    else if ltb k 4
    then 0
    else if ltb k 8
    then word_byte (to_word e.inode_number) (k - 4)
    else if ltb k 24
    then name_byte e.name (k - 8)
    else if ltb k 28
    then word_byte (to_word e.size) (k - 24)
    else word_byte (to_word e.count) (k - 28)

unfoldable pub get_entry : Bytes → DirectoryEntry
get_entry b = record {
  used = not (b 0 == 0);
  inode_number = of_word (get_word b 4);
  name = get_name 16 (shift 8 b);
  size = of_word (get_word b 24);
  count = of_word (get_word b 28);
}

-- `Superblock`: 28 bytes at the start of a block of zeros. A negative number in it has no model.
abbrev pub super_word : Superblock → ℕ → ℕ
super_word s k =
    if k == 0
    then s.used_block_bitmap_count
    else if k == 1
    then s.used_block_bitmap_offset
    else if k == 2
    then s.inode_metadata_blocks
    else if k == 3
    then s.inode_metadata_offset
    else if k == 4
    then s.d_offset
    else if k == 5
    then s.d_length
    else s.data_offset

unfoldable pub put_super : Superblock → Bytes
put_super s k = if ltb k 28 then word_byte (to_word (pos (super_word s (k / 4)))) (k % 4) else 0

abbrev pub in_int : Bytes → ℕ → Bool
in_int b o = ltb (get_word b o) (2 ^ 31)

unfoldable pub get_super : Bytes → Option Superblock
get_super b =
    if in_int b 0
      && in_int b 4
      && in_int b 8
      && in_int b 12
      && in_int b 16
      && in_int b 20
      && in_int b 24
    then some (record {
      used_block_bitmap_count = get_word b 0;
      used_block_bitmap_offset = get_word b 4;
      inode_metadata_blocks = get_word b 8;
      inode_metadata_offset = get_word b 12;
      d_offset = get_word b 16;
      d_length = get_word b 20;
      data_offset = get_word b 24;
    })
    else none
