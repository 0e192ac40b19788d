-- ===== src/Tls/Write.antt =====
-- tls_write of tls.c byte by byte: the writer's storage holds the buffer, every other storage what it held.
use ec.Base.{
  ℕ, zero, suc, ◌+◌, ◌-◌, ◌/◌, ◌%◌, ◌^◌, ==-refl, ◌≤◌, ◌<◌, ◌≡◌, ◌≢◌, ◌⊎◌, refl, sym, ◌∙◌, ap,
  subst, inl, inr, true, ◌==◌, ltb, Bool-cases, ==→≡, ==→≢, arith,
}
use ec.Tls.State.{prot_write, Tls, returns, bind}
use ec.Tls.Storage.{copied, put_byte, store_byte, write_byte, write_bytes}
use ec.Tls.Isolation.{AllAt, byte_of, HasSlot, IsShared, SameTable, Isolates, put-Isolates}
use ec.Tls.Copy.{pages-copied, page_num-copied, copied-IsShared, copied-AllAt, copy-Isolates}

-- A byte of a page of the writer.
store_byte-eq :
    (s : Tls) (t k a c : ℕ)
    → IsShared s
    → HasSlot s t k
    → AllAt prot_write s t
    → store_byte ((s.storages t).pages k) a c s
      ≡ returns tt (put_byte ((s.storages t).pages k) a c s)
unfolding store_byte
store_byte-eq s t k a c v h w =
    rw (v.mapped ((s.storages t).pages k) (v.has_page t k h), w k h.1) refl

store_copy-eq :
    (s : Tls) (t k a c : ℕ) (v : IsShared s) (h : HasSlot s t k)
    → 2 ≤ (s.page ((s.storages t).pages k)).ref_count
    → AllAt prot_write s t
    → store_byte s.next a c (copied t k ((s.storages t).pages k) s)
      ≡ returns tt (put_byte s.next a c (copied t k ((s.storages t).pages k) s))
store_copy-eq s t k a c v h many w =
    let s1 : Tls = copied t k ((s.storages t).pages k) s in
    let own : (s1.storages t).pages k ≡ s.next =
      pages-copied s t k v h many t k ∙ rw (==-refl t, ==-refl k) refl in
    let h1 : HasSlot s1 t k = (h.0, omega (arith, h.1, page_num-copied s t k v h many t)) in
    subst (λ z. store_byte z a c s1 ≡ returns tt (put_byte z a c s1)) own
      (store_byte-eq s1 t k a c (copied-IsShared s t k v h many) h1 (copied-AllAt s t k v h many w))

-- The write of one byte ends, and only the writer's storage changes, at that byte.
write_byte-Isolates :
    (s : Tls) (t index c : ℕ)
    → IsShared s
    → HasSlot s t (index / s.page_size)
    → ((q : ℕ) → s.maps q ≡ true)
    → index < 2 ^ 31
    → AllAt prot_write s t
    → (s' : Tls) × (write_byte t index c s ≡ returns tt s')
      × Isolates s s' t index c
      × AllAt prot_write s' t
unfolding write_byte
write_byte-Isolates s t index c v h m small w =
    let k : ℕ = index / s.page_size in
    let p : ℕ = (s.storages t).pages k in
    let live : s.live_page p ≡ true = v.has_page t k h in
    let low : ltb index (2 ^ 31) ≡ true = ground arith in
    elim (Bool-cases (ltb 1 (s.page p).ref_count)) [
      | inl e ↦ (
        _,
        rw (low, live, e, m s.next, v.mapped p live, w k h.1)
            (store_copy-eq s t k (index % s.page_size) c v h (ground arith) w),
        copy-Isolates s t k v h (ground arith) index c refl,
        copied-AllAt s t k v h (ground arith) w,
      )
      | inr e ↦ (
        _,
        rw (low, live, e) (store_byte-eq s t k (index % s.page_size) c v h w),
        put-Isolates s t index c v h (ground arith),
        w,
      )
    ]

-- What the loop of `tls_write` leaves: the bytes from `index` on are those of the buffer from `count` on.
pub record Wrote (s s' : Tls) (n t count index : ℕ) (buffer : ℕ → ℕ) : Type 0 where
  pub valid : IsShared s'
  pub page_size : s'.page_size ≡ s.page_size
  pub live : s'.live_storage ≡ s.live_storage
  pub same_table : SameTable s s'
  pub sizes : (u : ℕ) → (s'.storages u).size ≡ (s.storages u).size
  pub page_num : (u : ℕ) → (s'.storages u).page_num ≡ (s.storages u).page_num
  pub new_bytes :
      (a : ℕ) → index ≤ a → a < index + n → byte_of s' t a ≡ buffer (count + (a - index))
  pub others :
      (u a : ℕ)
      → HasSlot s u (a / s.page_size)
      → (u ≢ t) ⊎ ((a < index) ⊎ (index + n ≤ a))
      → byte_of s' u a ≡ byte_of s u a

moved :
    (s s' : Tls) (t index c u a : ℕ)
    → Isolates s s' t index c
    → HasSlot s u (a / s.page_size)
    → HasSlot s' u (a / s'.page_size)
moved s s' t index c u a i h =
    (ap (λ l. l u) i.live ∙ h.0, omega (arith, h.1, i.page_num u, ap (λ z. a / z) i.page_size))

pub SameTable-trans : (s s1 s2 : Tls) → SameTable s s1 → SameTable s1 s2 → SameTable s s2
SameTable-trans s s1 s2 a b = record {
  items = b.items ∙ a.items;
  table = b.table ∙ a.table;
  live_item = b.live_item ∙ a.live_item;
  grows = omega (arith, a.grows, b.grows);
}

Wrote-next :
    (s s1 s2 : Tls) (n t count index : ℕ) (buffer : ℕ → ℕ)
    → HasSlot s t (index / s.page_size)
    → Isolates s s1 t index (buffer count)
    → Wrote s1 s2 n t (count + 1) (index + 1) buffer
    → Wrote s s2 (suc n) t count index buffer
Wrote-next s s1 s2 n t count index buffer h i w = record {
  valid = w.valid;
  page_size = w.page_size ∙ i.page_size;
  live = w.live ∙ i.live;
  same_table = SameTable-trans s s1 s2 i.same_table w.same_table;
  sizes = λ u. w.sizes u ∙ i.sizes u;
  page_num = λ u. w.page_num u ∙ i.page_num u;
  new_bytes = λ a lo hi. elim (Bool-cases (a == index)) [
    | inl e ↦
        let same : index ≡ a = sym (==→≡ a index e) in
        let first : count + (a - index) ≡ count = omega arith in
        w.others t a
          (moved s s1 t index (buffer count) t a i
            (subst (λ z. HasSlot s t (z / s.page_size)) same h))
          (inr (inl (omega arith)))
        ∙ subst (λ z. byte_of s1 t z ≡ buffer count) same i.written
        ∙ ap buffer (sym first)
    | inr e ↦
        let ne : a ≢ index = ==→≢ a index e in
        w.new_bytes a (omega (arith, ne)) (omega arith) ∙ ap buffer (omega (arith, ne))
  ];
  others = λ u a g d.
      w.others u a (moved s s1 t index (buffer count) u a i g) (later u a d)
      ∙ i.others u a g (now u a d);
}
  where
    later :
        (u a : ℕ)
        → (u ≢ t) ⊎ ((a < index) ⊎ (index + suc n ≤ a))
        → (u ≢ t) ⊎ ((a < index + 1) ⊎ (index + 1 + n ≤ a))
    later u a (inl d) = inl d
    later u a (inr (inl d)) = inr (inl (omega arith))
    later u a (inr (inr d)) = inr (inr (omega arith))

    now : (u a : ℕ) → (u ≢ t) ⊎ ((a < index) ⊎ (index + suc n ≤ a)) → (u ≢ t) ⊎ (a ≢ index)
    now u a (inl d) = inl d
    now u a (inr (inl d)) = inr (λ e. omega arith)
    now u a (inr (inr d)) = inr (λ e. omega arith)

-- The loop of `tls_write` on storages that share pages, inside the writer's storage, below 2 ^ 31, with pages that
-- can be written and with the host giving every mapping: it ends without a fault, the writer's storage holds the bytes of the buffer, and no other
-- byte of it and no byte of any other storage has changed, shared pages or not.
pub write_bytes-Wrote :
    (n t count index : ℕ) (buffer : ℕ → ℕ) (s : Tls)
    → IsShared s
    → ((a : ℕ) → index ≤ a → a < index + n → HasSlot s t (a / s.page_size))
    → ((q : ℕ) → s.maps q ≡ true)
    → index + n < 2 ^ 31
    → AllAt prot_write s t
    → (s' : Tls) × (write_bytes n t count index buffer s ≡ returns tt s')
      × Wrote s s' n t count index buffer
unfolding write_bytes
write_bytes-Wrote zero t count index buffer s v h m small p = (
  s,
  refl,
  record {
    valid = v;
    page_size = refl;
    live = refl;
    same_table = record { items = refl; table = refl; live_item = refl; grows = omega arith };
    sizes = λ u. refl;
    page_num = λ u. refl;
    new_bytes = λ a lo hi. absurd (omega arith);
    others = λ u a g d. refl;
  },
)
write_bytes-Wrote (suc n) t count index buffer s v h m small p =
    let h0 : HasSlot s t (index / s.page_size) = h index (omega arith) (omega arith) in
    let (s1, e, i, p1) = write_byte-Isolates s t index (buffer count) v h0 m (omega arith) p in
    let (s2, f, w) =
      write_bytes-Wrote n t (count + 1) (index + 1) buffer s1 i.valid
        (λ a lo hi. moved s s1 t index (buffer count) t a i (h a (omega arith) (omega arith)))
        (λ q. ap (λ z. z q) i.maps ∙ m q) (omega arith) p1 in
    (
      s2,
      ap (λ r. bind r (λ _. write_bytes n t (count + 1) (index + 1) buffer)) e ∙ f,
      Wrote-next s s1 s2 n t count index buffer h0 i w,
    )
