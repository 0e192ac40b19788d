-- ===== src/FileSystem/Chain.antt =====
-- The blocks of a file as the inode table links them, and `fs_delete` of fs.c on them.
use ec.Base.{
  ℕ, zero, suc, ◌≤◌, ◌≡◌, ◌≢◌, refl, ◌∙◌, true, false, some, List, [], ◌∷◌, if◌then◌else◌, update,
  arith,
}
use ec.Base.Int.{ℤ, pos, negsuc, ltb_ℤ, minus_one}
use ec.Base.Blocks.{length, contains, Absent, Different, Below, length-le-of_Below}
use ec.FileSystem.State.{Inode, Name, Fs, returns, set_next, set_bitmap}
use ec.FileSystem.Directory.{entry_named, clear_entry, free_chain, delete_entry, fs_delete}

-- The table links these blocks, in this order, and ends the file behind the last.
abbrev pub Linked : (ℕ → Inode) → List ℕ → Type 0
Linked t [] = ⊥
Linked t (n ∷ []) = (t n).next_direct_offset ≡ minus_one
Linked t (n ∷ m ∷ ns) = ((t n).next_direct_offset ≡ pos m) × Linked t (m ∷ ns)

-- The blocks of a file: linked, different, and on the disk.
pub record IsChain (t : ℕ → Inode) (ns : List ℕ) : Type 0 where
  pub linked : Linked t ns
  pub different : Different ns
  pub on_disk : Below 8192 ns

abbrev pub head_of : List ℕ → ℤ
head_of [] = minus_one
head_of (n ∷ ns) = pos n

pub Linked-update :
    (t : ℕ → Inode) (a : ℕ) (v : Inode) (ns : List ℕ)
    → Absent a ns
    → Linked t ns
    → Linked (update t a v) ns
Linked-update t a v [] p l = l
Linked-update t a v (n ∷ []) p l = ground (arith, p.0)
Linked-update t a v (n ∷ m ∷ ns) p l =
    (ground (arith, p.0, l.0), Linked-update t a v (m ∷ ns) p.1 l.1)

-- A chain depends on what the table says of its own blocks.
pub Linked-agree :
    (t u : ℕ → Inode) (ns : List ℕ)
    → ((n : ℕ) → contains ns n ≡ true → (u n).next_direct_offset ≡ (t n).next_direct_offset)
    → Linked t ns
    → Linked u ns
Linked-agree t u [] h l = l
Linked-agree t u (n ∷ []) h l = h n (ground arith) ∙ l
Linked-agree t u (n ∷ m ∷ ns) h l =
    (h n (ground arith) ∙ l.0, Linked-agree t u (m ∷ ns) (λ k c. h k (later k c)) l.1)
  where
    later : (k : ℕ) → contains (m ∷ ns) k ≡ true → contains (n ∷ m ∷ ns) k ≡ true
    later k c = ground arith

-- The file system with these blocks marked free in the bitmap and in the table.
abbrev pub freed : List ℕ → Fs → Fs
freed [] s = s
freed (n ∷ ns) s = freed ns (set_next (set_bitmap s n 0) n (negsuc 1))

pub bitmap-freed :
    (ns : List ℕ) (s : Fs) (b : ℕ)
    → (freed ns s).bitmap b ≡ (if contains ns b then 0 else s.bitmap b)
bitmap-freed [] s b = refl
bitmap-freed (n ∷ ns) s b =
    bitmap-freed ns (set_next (set_bitmap s n 0) n (negsuc 1)) b ∙ ground arith

pub table-freed :
    (ns : List ℕ) (s : Fs) (b : ℕ)
    → ((freed ns s).table b).next_direct_offset
      ≡ (if contains ns b then negsuc 1 else (s.table b).next_direct_offset)
table-freed [] s b = refl
table-freed (n ∷ ns) s b =
    table-freed ns (set_next (set_bitmap s n 0) n (negsuc 1)) b ∙ ground arith

pub directory-freed : (ns : List ℕ) (s : Fs) → (freed ns s).directory ≡ s.directory
directory-freed [] s = refl
directory-freed (n ∷ ns) s = directory-freed ns (set_next (set_bitmap s n 0) n (negsuc 1))

pub fds-freed : (ns : List ℕ) (s : Fs) → (freed ns s).fd_array ≡ s.fd_array
fds-freed [] s = refl
fds-freed (n ∷ ns) s = fds-freed ns (set_next (set_bitmap s n 0) n (negsuc 1))

pub free_chain-eq :
    (fuel index n : ℕ) (ns : List ℕ) (s : Fs)
    → Linked s.table (n ∷ ns)
    → Different (n ∷ ns)
    → Below 8192 (n ∷ ns)
    → length (n ∷ ns) ≤ fuel
    → free_chain fuel index (pos n) s ≡ returns (pos 0) (clear_entry index (freed (n ∷ ns) s))
unfolding free_chain
free_chain-eq zero index n ns s l d b h = absurd (omega arith)
free_chain-eq (suc fuel) index n [] s l d b h = ground (arith, b.0, l)
free_chain-eq (suc fuel) index n (m ∷ ns) s l d b h =
    let s1 = set_next (set_bitmap s n 0) n (negsuc 1) in
    let l1 : Linked s1.table (m ∷ ns) = Linked-update s.table n _ (m ∷ ns) d.0 l.1 in
    ground (arith, b.0, l.0, free_chain-eq fuel index m ns s1 l1 d.1 b.1)

-- `fs_delete` of a closed file ends, frees every block of the file and no other, marks them free in the
-- inode table, and clears the entry; the other entries stay.
pub fs_delete-frees :
    (name : Name) (s : Fs) (i : ℕ) (ns : List ℕ)
    → entry_named name s ≡ some i
    → ltb_ℤ (pos 0) (s.directory i).count ≡ false
    → (s.directory i).inode_number ≡ head_of ns
    → IsChain s.table ns
    → (s' : Fs) × (fs_delete name s ≡ returns (pos 0) s')
      × ((b : ℕ) → s'.bitmap b ≡ (if contains ns b then 0 else s.bitmap b))
      × ((b : ℕ)
          → (s'.table b).next_direct_offset
            ≡ (if contains ns b then negsuc 1 else (s.table b).next_direct_offset))
      × ((s'.directory i).used ≡ false)
      × ((j : ℕ) → j ≢ i → s'.directory j ≡ s.directory j)
unfolding fs_delete delete_entry
fs_delete-frees name s i [] e c h v = absurd v.linked
fs_delete-frees name s i (n ∷ ns) e c h v = (
  clear_entry i (freed (n ∷ ns) s),
  rw (e, c, h)
      (free_chain-eq 8193 i n ns s v.linked v.different v.on_disk
        (omega (arith, length-le-of_Below 8192 (n ∷ ns) v.on_disk v.different))),
  bitmap-freed (n ∷ ns) s,
  table-freed (n ∷ ns) s,
  ground arith,
  λ j ne. ground (arith, directory-freed (n ∷ ns) s),
)
