-- ===== src/Tls/Access.antt =====
-- tls_write and tls_read of tls.c: the whole calls.
use ec.Base.{
  ℕ, zero, suc, ◌+◌, ◌-◌, ◌/◌, ◌^◌, ◌≤◌, ◌<◌, ◌≡◌, ◌≢◌, refl, ◌∙◌, ap, inl, inr, true, false,
  Option, none, some, ◌==◌, ltb, update, update_self, update_ne, Bool-cases, ==→≡, ==→≢, arith,
}
use ec.Base.Int.{pos}
use ec.Tls.State.{prot_none, prot_read, prot_write, Tls, returns, bind}
use ec.Tls.Table.{hash_function, find, find_from}
use ec.Tls.Storage.{
  protect_pages, write_bytes, read_bytes, end_of, write_locked, write_storage, write_item,
  tls_write, read_locked, read_storage, read_item, tls_read,
}
use ec.Tls.Isolation.{AllAt, byte_of, HasSlot, IsShared, SameTable}
use ec.Tls.Write.{Wrote, write_bytes-Wrote}
use ec.Tls.Protect.{protected, IsShared-protected, protect_pages-eq}

-- The thread `tid` has an item, whose storage `t` has `size` bytes, each in one of its pages.
pub record Has (s : Tls) (tid t size : ℕ) : Type 0 where
  pub item : ℕ
  pub found : find tid s ≡ returns (some item) s
  pub its : (s.items item).tls ≡ t
  pub is_live : s.live_storage t ≡ true
  pub has_size : (s.storages t).size ≡ size
  pub slots : (a : ℕ) → a < size → a / s.page_size < (s.storages t).page_num

read_bytes-eq :
    (n t count index : ℕ) (buffer : ℕ → ℕ) (s : Tls)
    → IsShared s
    → ((a : ℕ) → index ≤ a → a < index + n → HasSlot s t (a / s.page_size))
    → index + n < 2 ^ 31
    → AllAt prot_read s t
    → (out : ℕ → ℕ) × (read_bytes n t count index buffer s ≡ returns out s)
      × ((j : ℕ) → j < n → out (count + j) ≡ byte_of s t (index + j))
      × ((j : ℕ) → j < count → out j ≡ buffer j)
unfolding read_bytes
read_bytes-eq zero t count index buffer s v h small w =
    (buffer, refl, λ j l. absurd (omega arith), λ j l. refl)
read_bytes-eq (suc n) t count index buffer s v h small w =
    let h0 : HasSlot s t (index / s.page_size) = h index (omega arith) (omega arith) in
    let live : s.live_page ((s.storages t).pages (index / s.page_size)) ≡ true =
      v.has_page t (index / s.page_size) h0 in
    let c : ℕ = byte_of s t index in
    let (out, e, b, k) =
      read_bytes-eq n t (count + 1) (index + 1) (update buffer count c) s v
        (λ a lo hi. h a (omega arith) (omega arith)) (omega arith) w in
    let low : ltb index (2 ^ 31) ≡ true = ground arith in
    (
      out,
      rw (low, live, v.mapped _ live, w (index / s.page_size) h0.1) e,
      (λ j l. elim (Bool-cases (j == 0)) [
        | inl z ↦
            let z' : j ≡ 0 = ==→≡ j 0 z in
            let here : count + j ≡ count = omega arith in
            let there : index ≡ index + j = omega arith in
            ap out here
            ∙ k count (omega arith)
            ∙ update_self buffer count c
            ∙ ap (byte_of s t) there
        | inr z ↦
            let z' : j ≢ 0 = ==→≢ j 0 z in
            let here : count + j ≡ count + 1 + (j - 1) = omega (arith, z') in
            let there : index + 1 + (j - 1) ≡ index + j = omega (arith, z') in
            ap out here ∙ b (j - 1) (omega (arith, z')) ∙ ap (byte_of s t) there
      ]),
      λ j l. k j (omega arith) ∙ update_ne buffer count j c (omega arith),
    )

find_from-keeps :
    (fuel fuel' tid i : ℕ) (s s' : Tls) (x : Option ℕ)
    → fuel ≤ fuel'
    → SameTable s s'
    → find_from fuel tid s x ≡ returns (some i) s
    → find_from fuel' tid s' x ≡ returns (some i) s'
unfolding find_from
find_from-keeps zero fuel' tid i s s' x h q e = absurd cc
find_from-keeps (suc fuel) zero tid i s s' x h q e = absurd (omega arith)
find_from-keeps (suc fuel) (suc fuel') tid i s s' none h q e = absurd cc
find_from-keeps (suc fuel) (suc fuel') tid i s s' (some j) h q e =
    let at_items : (s'.items j).tid ≡ (s.items j).tid = ap (λ z. (z j).tid) q.items in
    elim (Bool-cases (s.live_item j)) [
      | inr l ↦ absurd (cc (rw l at e))
      | inl l ↦
          let l' : s'.live_item j ≡ true = ap (λ z. z j) q.live_item ∙ l in
          elim (Bool-cases ((s.items j).tid == tid)) [
            | inl g ↦
                let g' : ((s'.items j).tid == tid) ≡ true = ap (λ z. z == tid) at_items ∙ g in
                let same : j ≡ i = cc (rw (l, g) at e) in
                rw (l', g') (ap (λ z. returns (some z) s') same)
            | inr g ↦
                let g' : ((s'.items j).tid == tid) ≡ false = ap (λ z. z == tid) at_items ∙ g in
                rw (l', g')
                  (ap (λ z. find_from fuel' tid s' (z j).next) q.items
                    ∙ find_from-keeps fuel fuel' tid i s s' (s.items j).next (omega arith) q
                        (rw (l, g) at e))
          ]
    ]

pub find-keeps :
    (tid i : ℕ) (s s' : Tls)
    → SameTable s s'
    → find tid s ≡ returns (some i) s
    → find tid s' ≡ returns (some i) s'
unfolding find
find-keeps tid i s s' q e =
    ap (λ z. find_from (suc s'.next) tid s' (z (hash_function tid))) q.table
    ∙ find_from-keeps (suc s.next) (suc s'.next) tid i s s' (s.table (hash_function tid))
        (omega (arith, q.grows)) q e

fits_lem :
    (size bound offset length : ℕ)
    → size ≡ bound
    → offset + length ≤ bound
    → bound < 2 ^ 32
    → ltb size (end_of offset length) ≡ false
fits_lem size bound offset length e h z = ground (arith, e)

rounds_lem :
    (offset length bound : ℕ)
    → offset + length ≤ bound
    → bound < 2 ^ 32
    → end_of offset length - offset ≡ length
rounds_lem offset length bound h z = omega arith

tls_write-eq :
    (tid t size offset length : ℕ) (buffer : ℕ → ℕ) (s : Tls)
    → Has s tid t size
    → offset + length ≤ size
    → size < 2 ^ 32
    → tls_write tid offset length buffer s
      ≡ write_locked (s.storages t).page_num length t offset buffer s
unfolding tls_write write_item write_storage
tls_write-eq tid t size offset length buffer s h k z =
    ap (λ r. bind r (λ e s'. write_item offset length buffer s' e)) h.found
    ∙ ap (write_storage offset length buffer s) h.its
    ∙ rw (
      h.is_live,
      fits_lem (s.storages t).size size offset length h.has_size k z,
      rounds_lem offset length size k z,
    )

tls_read-eq :
    (tid t size offset length : ℕ) (buffer : ℕ → ℕ) (s : Tls)
    → Has s tid t size
    → offset + length ≤ size
    → size < 2 ^ 32
    → tls_read tid offset length buffer s
      ≡ read_locked (s.storages t).page_num length t offset buffer s
unfolding tls_read read_item read_storage
tls_read-eq tid t size offset length buffer s h k z =
    ap (λ r. bind r (λ e s'. read_item offset length buffer s' e)) h.found
    ∙ ap (read_storage offset length buffer s) h.its
    ∙ rw (
      h.is_live,
      fits_lem (s.storages t).size size offset length h.has_size k z,
      rounds_lem offset length size k z,
    )

-- On storages whose live pages have mappings of their own and count the storages that share them,
-- each in the same slot: `tls_write` of a thread that has a storage, inside it, to an end below 2 ^ 31 and
-- with the host giving every mapping: it returns 0, the storage holds the bytes of the buffer, and no other
-- byte of it and no byte of another storage has changed, whether they share pages or not.
pub tls_write-Wrote :
    (tid t size offset length : ℕ) (buffer : ℕ → ℕ) (s : Tls)
    → IsShared s
    → Has s tid t size
    → offset + length ≤ size
    → size < 2 ^ 32
    → offset + length < 2 ^ 31
    → ((q : ℕ) → s.maps q ≡ true)
    → (s' : Tls) × (tls_write tid offset length buffer s ≡ returns (pos 0) s')
      × Wrote s s' length t 0 offset buffer
unfolding write_locked
tls_write-Wrote tid t size offset length buffer s v h k z b m =
    let n : ℕ = (s.storages t).page_num in
    let (f, e1, _, sets) = protect_pages-eq 0 n t prot_write s v h.is_live (omega arith) in
    let s1 : Tls = protected f s in
    let (s2, e2, w) =
      write_bytes-Wrote length t 0 offset buffer s1 (IsShared-protected f s v)
        (λ a lo hi. (h.is_live, h.slots a (omega arith))) m b
        (λ j hj. sets j (omega arith) (omega arith)) in
    let (g, e3, _, _) =
      protect_pages-eq 0 n t prot_none s2 w.valid (ap (λ l. l t) w.live ∙ h.is_live)
        (omega (arith, w.page_num t)) in
    (
      protected g s2,
      tls_write-eq tid t size offset length buffer s h k z
          ∙ ap
              (λ r. bind r (λ _ s1.
                bind (write_bytes length t 0 offset buffer s1)
                  (λ _ s2. bind (protect_pages 0 n t prot_none s2) (λ _ s3. returns (pos 0) s3))))
              e1
          ∙ ap
              (λ r.
                bind r
                  (λ _ s2. bind (protect_pages 0 n t prot_none s2) (λ _ s3. returns (pos 0) s3)))
              e2
          ∙ ap (λ r. bind r (λ _ s3. returns (pos 0) s3)) e3,
      record {
        valid = IsShared-protected g s2 w.valid;
        page_size = w.page_size;
        live = w.live;
        same_table = record {
          items = w.same_table.items;
          table = w.same_table.table;
          live_item = w.same_table.live_item;
          grows = w.same_table.grows;
        };
        sizes = w.sizes;
        page_num = w.page_num;
        new_bytes = w.new_bytes;
        others = w.others;
      },
    )

-- `tls_read` of a thread that has a storage, inside it and to an end below 2 ^ 31: it returns 0 and gives the bytes of the storage.
pub tls_read-gives :
    (tid t size offset length : ℕ) (buffer : ℕ → ℕ) (s : Tls)
    → IsShared s
    → Has s tid t size
    → offset + length ≤ size
    → size < 2 ^ 32
    → offset + length < 2 ^ 31
    → (out : ℕ → ℕ) × (s' : Tls) × (tls_read tid offset length buffer s ≡ returns (pos 0, out) s')
      × ((j : ℕ) → j < length → out j ≡ byte_of s t (offset + j))
unfolding read_locked
tls_read-gives tid t size offset length buffer s v h k z bound =
    let n : ℕ = (s.storages t).page_num in
    let (f, e1, _, sets) = protect_pages-eq 0 n t prot_read s v h.is_live (omega arith) in
    let s1 : Tls = protected f s in
    let v1 : IsShared s1 = IsShared-protected f s v in
    let (out, e2, b, _) =
      read_bytes-eq length t 0 offset buffer s1 v1 (λ a lo hi. (h.is_live, h.slots a (omega arith)))
        bound (λ j hj. sets j (omega arith) (omega arith)) in
    let (g, e3, _, _) = protect_pages-eq 0 n t prot_none s1 v1 h.is_live (omega arith) in
    (
      out,
      protected g s1,
      tls_read-eq tid t size offset length buffer s h k z
          ∙ ap
              (λ r. bind r (λ _ s1. bind (read_bytes length t 0 offset buffer s1) (λ out s2.
                bind (protect_pages 0 n t prot_none s2) (λ _ s3. returns (pos 0, out) s3))))
              e1
          ∙ ap
              (λ r. bind r (λ out s2.
                bind (protect_pages 0 n t prot_none s2) (λ _ s3. returns (pos 0, out) s3)))
              e2
          ∙ ap (λ r. bind r (λ _ s3. returns (pos 0, out) s3)) e3,
      λ j l. ap out (omega arith) ∙ b j l,
    )
