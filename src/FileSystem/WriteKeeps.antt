-- ===== src/FileSystem/WriteKeeps.antt =====
-- fs_write of fs.c on a valid file system.
use ec.Base.{
  ℕ, ◌+◌, ◌-◌, ◌*◌, ◌/◌, ◌≤◌, ◌<◌, ◌^◌, ◌≡◌, ◌⊎◌, refl, sym, ◌∙◌, ap, subst, inl, inr, true, none,
  List, ◌∷◌, ◌++◌, update, arith,
}
use ec.Base.Int.{ℤ, pos, minus_one}
use ec.Base.Blocks.{length, length-++}
use ec.FileSystem.State.{Fs, DirectoryEntry, Bytes, same_name, returns}
use ec.FileSystem.Disk.{can_access}
use ec.FileSystem.Transfer.{Walk, done, failed, bad_index, free_block, after_grow, fs_write}
use ec.FileSystem.Valid.{IsValid, opens}
use ec.FileSystem.Grow.{Extends, Grown, extended, full, grow-Grown}
use ec.FileSystem.ReadWrite.{written, IsOpen, larger, fs_write-eq, write_grown-eq}
use ec.FileSystem.Write.{Usable-extended, IsOpen-extended, Below-of_Usable}
use ec.FileSystem.WriteValid.{
  chain-Extends, apart-Extends, claimed-Extends, start-Extends, resized, moved, opens-moved,
}

-- A file that gets blocks.
IsValid-Extends :
    (s s1 : Fs) (chain : ℕ → List ℕ) (i x : ℕ) (xs ys : List ℕ)
    → IsValid s chain
    → i < 64
    → (s.directory i).used ≡ true
    → chain i ≡ x ∷ xs
    → Extends s s1 x xs ys
    → IsValid s1 (update chain i (x ∷ xs ++ ys))
IsValid-Extends s s1 chain i x xs ys v hi ui c e =
    subst (λ q. IsValid q (update chain i (x ∷ xs ++ ys))) (sym e.same)
      (record {
        one_name = v.one_name;
        cleared = v.cleared;
        counted = v.counted;
        open_file = v.open_file;
        start = start-Extends v hi ui c e;
        linked = chain-Extends v hi ui c e;
        claimed = claimed-Extends v hi ui c e;
        apart = apart-Extends v hi ui c e;
      })

-- A write in the blocks of a file.
IsValid-written :
    (s : Fs) (chain : ℕ → List ℕ) (n i o z nbyte : ℕ) (ms : List ℕ) (buf : Bytes)
    → IsValid s chain
    → IsValid (written s n i o z nbyte ms buf) chain
IsValid-written s chain n i o z nbyte ms buf v = record {
  one_name = λ j k hj hk uj uk h.
      v.one_name j k hj hk (sym (used j) ∙ uj) (sym (used k) ∙ uk) (names j k h);
  cleared = λ j hj uj. name j ∙ v.cleared j hj (sym (used j) ∙ uj);
  counted = λ j hj uj.
      resized (λ d. d.count) s.directory i j (pos z) (λ d. refl)
      ∙ v.counted j hj (sym (used j) ∙ uj)
      ∙ ap (λ q. pos (opens s.fd_array q 32)) (sym (inode j))
      ∙ ap (λ q. pos q) (sym (opens-moved s.fd_array n (pos (o + nbyte)) _ 32));
  open_file = λ k hk uk.
      let (j, hj, uj, e) =
        v.open_file k hk
          (sym (moved (λ d. d.used) s.fd_array n k (pos (o + nbyte)) (λ d. refl)) ∙ uk) in
      (
        j,
        hj,
        used j ∙ uj,
        inode j
            ∙ e
            ∙ sym (moved (λ d. d.inode_number) s.fd_array n k (pos (o + nbyte)) (λ d. refl)),
      );
  start = λ j hj uj. inode j ∙ v.start j hj (sym (used j) ∙ uj);
  linked = λ j hj uj. v.linked j hj (sym (used j) ∙ uj);
  claimed = λ j b hj uj h. v.claimed j b hj (sym (used j) ∙ uj) h;
  apart =
      λ j k b hj hk uj uk ne h. v.apart j k b hj hk (sym (used j) ∙ uj) (sym (used k) ∙ uk) ne h;
}
  where
    dir : ℕ → DirectoryEntry
    dir = (written s n i o z nbyte ms buf).directory

    used : (j : ℕ) → (dir j).used ≡ (s.directory j).used
    used j = resized (λ d. d.used) s.directory i j (pos z) (λ d. refl)

    name : (j : ℕ) → (dir j).name ≡ (s.directory j).name
    name j = resized (λ d. d.name) s.directory i j (pos z) (λ d. refl)

    inode : (j : ℕ) → (dir j).inode_number ≡ (s.directory j).inode_number
    inode j = resized (λ d. d.inode_number) s.directory i j (pos z) (λ d. refl)

    names :
        (j k : ℕ)
        → same_name (dir j).name (dir k).name ≡ true
        → same_name (s.directory j).name (s.directory k).name ≡ true
    names j k h =
        ap (λ q. same_name q (s.directory k).name) (sym (name j))
        ∙ ap (same_name (dir j).name) (sym (name k))
        ∙ h

-- On a valid file system, through a descriptor that is open on a file of used, working and different blocks, and
-- on a disk with data blocks whose free blocks work: `fs_write` of at least one byte that stays below the
-- largest size always ends, without a fault. It returns the number of bytes, or it returns -1 and then no data
-- block is free. The file system is valid afterwards in both cases: the file has the blocks that it had and
-- others behind them, and every other file has its own.
pub fs_write-IsValid :
    (s : Fs) (chain : ℕ → List ℕ) (n i o size nbyte x : ℕ) (xs : List ℕ) (buf : Bytes)
    → IsValid s chain
    → i < 64
    → (s.directory i).used ≡ true
    → chain i ≡ x ∷ xs
    → IsOpen s n i o size x xs
    → 0 < nbyte
    → o + nbyte ≤ 2 ^ 24
    → ((b : ℕ) → b < 8192 → s.bitmap b ≡ 0 → can_access (pos b) s ≡ true)
    → s.super.data_offset < 8192
    → (m : ℤ) × (s' : Fs) × (ys : List ℕ) × (fs_write (pos n) buf nbyte s ≡ returns m s')
      × ((m ≡ pos nbyte) ⊎ ((m ≡ minus_one) × (free_block s' ≡ none)))
      × IsValid s' (update chain i (x ∷ xs ++ ys))
unfolding after_grow
fs_write-IsValid s chain n i o size nbyte x xs buf v hi ui c f lo high works p =
    let (m, s', ys, e, r, w) = after _ (
      grow-Grown ((o + nbyte - 1) / 4096) x xs s f.linked f.apart
        (Below-of_Usable s (x ∷ xs) f.usable) f.taken p) in
    (m, s', ys, fs_write-eq s n i o size nbyte x xs buf f lo high ∙ e, r, w)
  where
    after :
        (w : Walk Fs)
        → Grown s x xs ((o + nbyte - 1) / 4096) w
        → (m : ℤ) × (s' : Fs) × (ys : List ℕ) × (after_grow n i o nbyte buf w ≡ returns m s')
          × ((m ≡ pos nbyte) ⊎ ((m ≡ minus_one) × (free_block s' ≡ none)))
          × IsValid s' (update chain i (x ∷ xs ++ ys))
    after (done s1) (extended ys _ e h) =
        let u = Usable-extended s s1 x xs ys f.usable works e in
        let f1 = IsOpen-extended s s1 n i o size x xs ys f e u in
        let room : o + nbyte ≤ length (x ∷ xs ++ ys) * 4096 = omega (arith, length-++ xs ys) in
        (
          pos nbyte,
          _,
          ys,
          write_grown-eq s1 n i o size nbyte x (xs ++ ys) buf f1.has_size f1.start f1.linked
              f1.usable f1.fits room high,
          inl refl,
          IsValid-written s1 (update chain i (x ∷ xs ++ ys)) n i o (larger size (o + nbyte)) nbyte
              (x ∷ xs ++ ys) buf (IsValid-Extends s s1 chain i x xs ys v hi ui c e),
        )
    after (failed s1) (full ys _ e h g) =
        (minus_one, s1, ys, refl, inr (refl, g), IsValid-Extends s s1 chain i x xs ys v hi ui c e)
    after bad_index g = elim g [ ]
