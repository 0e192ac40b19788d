-- ===== src/FileSystem/MountTests.antt =====
-- The theorems about make_fs, mount_fs and umount_fs at a small disk.
use ec.Base.{
  ℕ, ◌<◌, ◌≡◌, ◌≢◌, refl, inl, inr, true, false, none, some, [], ◌∷◌, ◌==◌, Bool-cases, arith,
}
use ec.Base.Int.{pos, minus_one}
use ec.FileSystem.State.{Name, returns}
use ec.FileSystem.Directory.{fs_delete}
use ec.FileSystem.Images.{IsInode, IsEntry}
use ec.FileSystem.Mount.{Host, Unset, Device, ends, new_super, zeros, make_fs, mount_fs, umount_fs}
use ec.FileSystem.TableBlocks.{Works}
use ec.FileSystem.Remount.{Remounted, mount_fs-umount_fs}
use ec.FileSystem.Format.{IsNew, mount_fs-make_fs}
use ec.FileSystem.LeftOpen.{fs_delete-remounted}
use ec.FileSystem.Valid.{IsValid}
use ec.FileSystem.Tests.{one_file, its_chain, one_file-IsValid}

abbrev host : Host
host = record {
  can_open = λ n. true;
  can_create = λ n. true;
  can_fill = λ n. true;
  leftover = λ n. zeros;
}

abbrev unset : Unset
unset = record { super = new_super; bitmap = λ k. 7; kind = 5 }

abbrev disk : Name
disk = b'd' ∷ []

-- The file "a" with a descriptor that is open on it, on the mounted disk "d".
abbrev device : Device
device = record {
  fs = record (one_file true) { super = new_super };
  mounted = true;
  handle = some disk;
  files = λ n. none;
}

device-IsValid : IsValid device.fs its_chain
device-IsValid =
    let v = one_file-IsValid true in
    record {
      one_name = v.one_name;
      cleared = v.cleared;
      counted = v.counted;
      open_file = v.open_file;
      start = v.start;
      linked = v.linked;
      claimed = v.claimed;
      apart = v.apart;
    }

device-IsInode : (j : ℕ) → j < 8192 → IsInode (device.fs.table j)
device-IsInode j h = elim (Bool-cases (j == 5000)) [
  | inl e ↦ rw e (omega arith, omega arith)
  | inr e ↦ rw e (omega arith, omega arith)
]

device-IsEntry : (i : ℕ) → i < 16 → IsEntry (device.fs.directory i)
device-IsEntry i h = elim (Bool-cases (i == 0)) [
  | inl e ↦ rw e (record {
    inode_int = omega arith;
    name_ok = (omega arith, omega arith, tt);
    name_short = omega arith;
    size_int = omega arith;
    count_int = omega arith;
  })
  | inr e ↦ rw e (record {
    inode_int = omega arith;
    name_ok = tt;
    name_short = omega arith;
    size_int = omega arith;
    count_int = omega arith;
  })
]

device-Works : Works device.fs
device-Works = (refl, λ k h. refl)

mount_fs-umount_fs_example :
    (d1 d2 : Device) × (umount_fs (some disk) device ≡ ends (pos 0) d1)
    × (mount_fs host unset (some disk) d1 ≡ ends (pos 0) d2)
    × Remounted unset device.fs d2.fs
mount_fs-umount_fs_example =
    mount_fs-umount_fs host unset disk disk device refl device-Works refl refl refl device-IsInode
      device-IsEntry

a_name : ◌≢◌ {A = Name} (b'a' ∷ []) []
a_name e = cc

fs_delete-remounted_example :
    (d1 d2 : Device) × (umount_fs (some disk) device ≡ ends (pos 0) d1)
    × (mount_fs host unset (some disk) d1 ≡ ends (pos 0) d2)
    × ((l : ℕ) → l < 32 → (d2.fs.fd_array l).used ≡ false)
    × (fs_delete (b'a' ∷ []) d2.fs ≡ returns minus_one d2.fs)
fs_delete-remounted_example =
    let low : 0 < 16 = omega arith in
    let high : 0 < 32 = omega arith in
    fs_delete-remounted host unset disk disk device its_chain (b'a' ∷ []) 0 0 refl device-Works refl
      refl refl device-IsInode device-IsEntry device-IsValid a_name low refl refl high refl refl

-- No disk is open.
abbrev idle : Device
idle = record {
  fs = record (one_file false) { active = false };
  mounted = false;
  handle = none;
  files = λ n. none;
}

mount_fs-make_fs_example :
    (d1 d2 : Device) × (make_fs host unset (some disk) idle ≡ ends (pos 0) d1)
    × (mount_fs host unset (some disk) d1 ≡ ends (pos 0) d2)
    × IsNew unset d2.fs
    × IsValid d2.fs its_chain
mount_fs-make_fs_example =
    let small : 5 < 256 = omega arith in
    mount_fs-make_fs host unset unset disk idle its_chain refl refl refl (λ k h. refl) refl refl
      refl small
