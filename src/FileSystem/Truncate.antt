-- ===== src/FileSystem/Truncate.antt =====
-- fs_truncate of fs.c: what it keeps, whatever it is called with.
use ec.Base.{
  ℕ, zero, suc, ◌≡◌, refl, ◌∙◌, subst, inl, inr, Option, none, some, ◌==◌, ltb, Bool-cases,
}
use ec.Base.Int.{ℤ, pos, negsuc, ltb_ℤ}
use ec.FileSystem.State.{Fs, Return, returns, fault, out_of_fuel, set_next}
use ec.FileSystem.Directory.{entry_of_inode, Guard, refused, beyond, passed, guard_descriptor}
use ec.FileSystem.Transfer.{
  cut_chain, end_file, truncate_from, truncate_entry, truncate_guarded, fs_truncate,
}

-- The bitmap, the descriptors and the blocks' bytes are those of before.
pub record KeepsBlocks (s s' : Fs) : Type 0 where
  pub bitmap : s'.bitmap ≡ s.bitmap
  pub fd_array : s'.fd_array ≡ s.fd_array
  pub blocks : s'.blocks ≡ s.blocks

abbrev Keeps : Fs → Return → Type 0
Keeps s (returns r s') = KeepsBlocks s s'
Keeps s fault = Unit {0}
Keeps s out_of_fuel = Unit {0}

abbrev KeepsCut : Fs → Option (Option Fs) → Type 0
KeepsCut s none = Unit {0}
KeepsCut s (some none) = Unit {0}
KeepsCut s (some (some s')) = KeepsBlocks s s'

KeepsCut-set_next :
    (s : Fs) (n : ℕ) (x : ℤ) (r : Option (Option Fs)) → KeepsCut (set_next s n x) r → KeepsCut s r
KeepsCut-set_next s n x none k = tt
KeepsCut-set_next s n x (some none) k = tt
KeepsCut-set_next s n x (some (some s')) k = record {
  bitmap = k.bitmap;
  fd_array = k.fd_array;
  blocks = k.blocks;
}

cut_chain-Keeps : (fuel : ℕ) (inode : ℤ) (s : Fs) → KeepsCut s (cut_chain fuel inode s)
unfolding cut_chain
cut_chain-Keeps zero inode s = tt
cut_chain-Keeps (suc fuel) (negsuc n) s = elim (Bool-cases (n == 0)) [
  | inl e ↦ rw e (record { bitmap = refl; fd_array = refl; blocks = refl })
  | inr e ↦ rw e tt
]
cut_chain-Keeps (suc fuel) (pos n) s = elim (Bool-cases (ltb n 8192)) [
  | inl e ↦ rw e (
      KeepsCut-set_next s n (negsuc 1) _
        (cut_chain-Keeps fuel (s.table n).next_direct_offset (set_next s n (negsuc 1))))
  | inr e ↦ rw e tt
]

end_file-Keeps : (inode : ℤ) (s s' : Fs) → KeepsBlocks s s' → Keeps s (end_file inode s')
unfolding end_file
end_file-Keeps (negsuc n) s s' k = tt
end_file-Keeps (pos n) s s' k = elim (Bool-cases (ltb n 8192)) [
  | inl e ↦ rw e (record { bitmap = k.bitmap; fd_array = k.fd_array; blocks = k.blocks })
  | inr e ↦ rw e tt
]

truncate_from-Keeps : (s0 s : Fs) (o : Option ℤ) → KeepsBlocks s0 s → Keeps s0 (truncate_from s o)
unfolding truncate_from
truncate_from-Keeps s0 s none k = tt
truncate_from-Keeps s0 s (some inode) k =
    split (cut_chain 8194 inode s) (cut_chain-Keeps 8194 inode s)
  where
    split :
        (r : Option (Option Fs))
        → KeepsCut s r
        → Keeps s0
            (elim r [ none ↦ out_of_fuel | some none ↦ fault | some (some s') ↦ end_file inode s' ])
    split none c = tt
    split (some none) c = tt
    split (some (some s')) c = end_file-Keeps inode s0 s' (record {
      bitmap = c.bitmap ∙ k.bitmap;
      fd_array = c.fd_array ∙ k.fd_array;
      blocks = c.blocks ∙ k.blocks;
    })

truncate_entry-Keeps : (length : ℤ) (s : Fs) (o : Option ℕ) → Keeps s (truncate_entry length s o)
unfolding truncate_entry
truncate_entry-Keeps length s none = tt
truncate_entry-Keeps length s (some i) = elim (Bool-cases (ltb_ℤ (s.directory i).size length)) [
  | inl e ↦ rw e (record { bitmap = refl; fd_array = refl; blocks = refl })
  | inr e ↦
      rw e (truncate_from-Keeps s _ _ (record { bitmap = refl; fd_array = refl; blocks = refl }))
]

truncate_guarded-Keeps : (length : ℤ) (s : Fs) (g : Guard) → Keeps s (truncate_guarded length s g)
unfolding truncate_guarded
truncate_guarded-Keeps length s refused = record { bitmap = refl; fd_array = refl; blocks = refl }
truncate_guarded-Keeps length s beyond = tt
truncate_guarded-Keeps length s (passed n) =
    truncate_entry-Keeps length s (entry_of_inode (s.fd_array n).inode_number s)

-- Whatever `fs_truncate` is called with, when it returns the bitmap marks the same blocks as used as before,
-- those that it has cut off too, and no descriptor and no block's bytes have changed.
pub fs_truncate-KeepsBlocks :
    (fildes length r : ℤ) (s s' : Fs)
    → fs_truncate fildes length s ≡ returns r s'
    → KeepsBlocks s s'
unfolding fs_truncate
fs_truncate-KeepsBlocks fildes length r s s' e =
    subst (λ z. Keeps s z) e (truncate_guarded-Keeps length s (guard_descriptor fildes s))
