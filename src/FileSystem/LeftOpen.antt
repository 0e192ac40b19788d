-- ===== src/FileSystem/LeftOpen.antt =====
-- umount_fs of fs.c with a descriptor that is still open.
use ec.Base.{
  ℕ, ◌<◌, ◌≡◌, ◌≢◌, sym, ◌∙◌, ap, inl, inr, true, false, some, List, [], ltb, Bool-cases,
  Option-cases, arith, IsFirst, first_index-IsFirst,
}
use ec.Base.Int.{pos, minus_one, ltb_ℤ}
use ec.FileSystem.State.{Name, same_name, Fs, returns}
use ec.FileSystem.Directory.{entry_named, delete_entry, fs_delete}
use ec.FileSystem.Images.{IsInode, IsEntry}
use ec.FileSystem.Mount.{Host, Unset, Device, ends, new_super, mount_fs, umount_fs}
use ec.FileSystem.TableBlocks.{Works}
use ec.FileSystem.Remount.{Remounted, mount_fs-umount_fs}
use ec.FileSystem.Valid.{IsValid, same_name_refl, same_name→≡}
use ec.FileSystem.Delete.{count-positive}

-- An entry with the name, in what comes back of a valid file system, counts the descriptor.
named-counts :
    (u : Unset) (name : Name) (s t : Fs) (chain : ℕ → List ℕ) (i j k : ℕ)
    → Remounted u s t
    → IsValid s chain
    → name ≢ []
    → i < 16
    → (s.directory i).used ≡ true
    → (s.directory i).name ≡ name
    → k < 32
    → (s.fd_array k).used ≡ true
    → (s.fd_array k).inode_number ≡ (s.directory i).inode_number
    → j < 64
    → name ≡ (t.directory j).name
    → ltb_ℤ (pos 0) (t.directory j).count ≡ true
named-counts u name s t chain i j k r v ne hi ui ni hk uk q hj same = elim (Bool-cases (ltb j 16)) [
  | inr e ↦ absurd (ne (same ∙ ap (λ z. z.name) (r.lost_directory j (ground arith))))
  | inl e ↦
      let back : t.directory j ≡ s.directory j = r.same_directory j (ground arith) in
      let here : name ≡ (s.directory j).name = same ∙ ap (λ z. z.name) back in
      elim (Bool-cases (s.directory j).used) [
        | inr uj ↦ absurd (ne (here ∙ v.cleared j hj uj))
        | inl uj ↦
            let hi' : i < 64 = omega arith in
            let ij : i ≡ j =
              v.one_name i j hi' hj ui uj (rw (ni, sym here) (same_name_refl name)) in
            ap (λ z. ltb_ℤ (pos 0) z.count) back
            ∙ ap (λ z. ltb_ℤ (pos 0) (s.directory z).count) (sym ij)
            ∙ count-positive s chain i k v hi' ui hk uk q
      ]
]

fs_delete-counted :
    (name : Name) (t : Fs)
    → ((j : ℕ) → j < 64 → name ≡ (t.directory j).name → ltb_ℤ (pos 0) (t.directory j).count ≡ true)
    → fs_delete name t ≡ returns minus_one t
unfolding fs_delete delete_entry entry_named
fs_delete-counted name t h = elim (Option-cases (entry_named name t)) [
  | inl e ↦ ap (delete_entry t) e
  | inr (j, e) ↦
      let f : IsFirst (λ k. same_name name (t.directory k).name) 0 64 j =
        first_index-IsFirst _ 0 64 e in
      ap (delete_entry t) e ∙ rw (h j (omega (arith, f.below)) (same_name→≡ name _ f.passes))
]

-- A valid file system as in the theorem on `umount_fs` and `mount_fs`, with a descriptor that is open on a file
-- with a name among the first 16 entries: after the two calls no descriptor is open, but `fs_delete` returns
-- -1 on the file.
pub fs_delete-remounted :
    (h : Host) (u : Unset) (m n : Name) (d : Device) (chain : ℕ → List ℕ) (name : Name) (i k : ℕ)
    → d.mounted ≡ true
    → Works d.fs
    → d.handle ≡ some n
    → d.fs.super ≡ new_super
    → h.can_open n ≡ true
    → ((j : ℕ) → j < 8192 → IsInode (d.fs.table j))
    → ((j : ℕ) → j < 16 → IsEntry (d.fs.directory j))
    → IsValid d.fs chain
    → name ≢ []
    → i < 16
    → (d.fs.directory i).used ≡ true
    → (d.fs.directory i).name ≡ name
    → k < 32
    → (d.fs.fd_array k).used ≡ true
    → (d.fs.fd_array k).inode_number ≡ (d.fs.directory i).inode_number
    → (d1 d2 : Device) × (umount_fs (some m) d ≡ ends (pos 0) d1)
      × (mount_fs h u (some n) d1 ≡ ends (pos 0) d2)
      × ((l : ℕ) → l < 32 → (d2.fs.fd_array l).used ≡ false)
      × (fs_delete name d2.fs ≡ returns minus_one d2.fs)
fs_delete-remounted h u m n d chain name i k e w f g o it ie v ne hi ui ni hk uk q =
    let (d1, d2, a, b, r) = mount_fs-umount_fs h u m n d e w f g o it ie in
    (
      d1,
      d2,
      a,
      b,
      r.closed,
      fs_delete-counted name d2.fs
          (λ j hj same. named-counts u name d.fs d2.fs chain i j k r v ne hi ui ni hk uk q hj same),
    )
