-- ===== src/FileSystem/Disk.antt =====
-- block_read and block_write of disk.c.
use ec.Base.{Bool, false, not, ◌&&◌, Option, none, some, ltb, if◌then◌else◌, update}
use ec.Base.Int.{ℤ, pos, negsuc}
use ec.FileSystem.State.{disk_blocks, Bytes, Fs}

-- The tests of both functions: the disk is open, the block is in range, and the host's calls succeed.
unfoldable pub can_access : ℤ → Fs → Bool
can_access (negsuc n) s = false
can_access (pos n) s = s.active && ltb n disk_blocks && not (s.broken n)

-- `none` where the function returns -1.
unfoldable pub block_read : ℤ → Fs → Option Bytes
block_read (negsuc n) s = none
block_read (pos n) s = if can_access (pos n) s then some (s.blocks n) else none

unfoldable pub block_write : ℤ → Bytes → Fs → Option Fs
block_write (negsuc n) b s = none
block_write (pos n) b s =
    if can_access (pos n) s then some (record s { blocks = update s.blocks n b }) else none
