-- ===== src/Tls/CreateShared.antt =====
-- tls_create of tls.c: the new storage shares no page, and the storages stay valid.
use ec.Base.{
  ℕ, zero, suc, ◌+◌, ◌/◌, ◌%◌, ◌<◌, ◌≡◌, ◌≢◌, refl, sym, ◌∙◌, ap, subst, fun_ext, inl, inr, Bool,
  true, false, none, ◌*◌, ◌==◌, if◌then◌else◌, update_self, Bool-cases, ==→≡, ==-refl, ≢→==, arith,
}
use ec.Base.Int.{pos, minus_one}
use ec.Tls.State.{Tls, Storage, returns, bind}
use ec.Tls.Table.{find, add}
use ec.Tls.Life.{new_storage, new_item, tls_init, create_for, tls_create}
use ec.Tls.Shares.{shares, shares_at}
use ec.Tls.Isolation.{IsShared, HasSlot}
use ec.Tls.NewPage.{shares-next}
use ec.Tls.Create.{find-add}
use ec.Tls.Access.{Has}
use native.Mathlib.Nat.{div-add-mod', div-lt_iff_lt-mul, lt-div-mul-add}
use ec.Tls.CreateLoop.{trim, create_pages-trim}

shares-agree :
    (st st' : ℕ → Storage) (live live' : ℕ → Bool) (k p n : ℕ)
    → ((u : ℕ) → u < n → (live u ≡ live' u) × (st u ≡ st' u))
    → shares st live k p n ≡ shares st' live' k p n
unfolding shares
shares-agree st st' live live' k p zero h = refl
shares-agree st st' live live' k p (suc n) h =
    let e = shares-agree st st' live live' k p n (λ u l. h u (omega arith)) in
    let (a, b) = h n (omega arith) in
    let f : shares_at (live n) (st n) k p ≡ shares_at (live' n) (st' n) k p =
      ap (λ z. shares_at z (st n) k p) a ∙ ap (λ z. shares_at (live' n) z k p) b in
    omega (arith, e, f)

-- A new storage without a slot.
module _ (s : Tls) (v : IsShared s) (size n : ℕ) where
  abbrev empty : Tls
  empty = trim s.next 0 (new_storage size n (λ k. 0) s)

  old_slot : (u l : ℕ) → HasSlot empty u l → (HasSlot s u l) × (empty.storages u ≡ s.storages u)
  old_slot u l h = elim (Bool-cases (s.next == u)) [
    | inl e ↦ let low : l < 0 = rw e at h.1 in absurd (omega (arith, low))
    | inr e ↦ ((rw e at h.0, rw e at h.1), rw e)
  ]

  empty-shares :
      (l p : ℕ)
      → shares empty.storages empty.live_storage l p (s.next + 1)
        ≡ shares s.storages s.live_storage l p s.next
  unfolding shares
  empty-shares l p =
      let m : s.next + 1 ≡ suc s.next = omega arith in
      let last : shares_at (empty.live_storage s.next) (empty.storages s.next) l p ≡ 0 =
        rw (==-refl s.next) (ground arith) in
      let rest : shares empty.storages empty.live_storage l p s.next
          ≡ shares s.storages s.live_storage l p s.next =
        shares-agree empty.storages s.storages empty.live_storage s.live_storage l p s.next
          (λ u h. before u h) in
      ap (shares empty.storages empty.live_storage l p) m ∙ omega (arith, last, rest)
    where
      before :
          (u : ℕ)
          → u < s.next
          → (empty.live_storage u ≡ s.live_storage u) × (empty.storages u ≡ s.storages u)
      before u h = let ne : (s.next == u) ≡ false = ground arith in (rw ne, rw ne)

  pub empty-IsShared : IsShared empty
  empty-IsShared = record {
    below = λ u h. elim (Bool-cases (s.next == u)) [
      | inl e ↦ omega (arith, ==→≡ s.next u e)
      | inr e ↦ omega (arith, v.below u (rw e at h))
    ];
    page_below = λ p h. (omega (arith, (v.page_below p h).0), omega (arith, (v.page_below p h).1));
    apart = v.apart;
    mapped = v.mapped;
    has_page = λ u l h.
        let (o, q) = old_slot u l h in
        ap (λ z. s.live_page (z.pages l)) q ∙ v.has_page u l (o.0, o.1);
    one_slot = λ u w k l h g e.
        let (o, q) = old_slot u k h in
        let (o', q') = old_slot w l g in
        v.one_slot u w k l o o' (sym (ap (λ z. z.pages k) q) ∙ e ∙ ap (λ z. z.pages l) q');
    counted = λ u l h.
        let (o, q) = old_slot u l h in
        ap (λ z. (s.page (z.pages l)).ref_count) q
        ∙ v.counted u l o
        ∙ sym (empty-shares l ((s.storages u).pages l))
        ∙ sym (ap (λ z. shares empty.storages empty.live_storage l (z.pages l) (s.next + 1)) q);
  }

-- An item does not matter.
pub new_item-IsShared : (tid t : ℕ) (s : Tls) → IsShared s → IsShared (new_item tid t s)
new_item-IsShared tid t s v = record {
  below = λ u h. omega (arith, v.below u h);
  page_below = λ p h. (omega (arith, (v.page_below p h).0), omega (arith, (v.page_below p h).1));
  apart = v.apart;
  mapped = v.mapped;
  has_page = v.has_page;
  one_slot = v.one_slot;
  counted = λ u l h. v.counted u l h ∙ sym (next_none s.storages l ((s.storages u).pages l));
}
  where
    next_none :
        (st : ℕ → Storage) (l p : ℕ)
        → shares st s.live_storage l p (s.next + 1) ≡ shares st s.live_storage l p s.next
    next_none st l p = shares-next s v st l p

pub add-IsShared : (tid i : ℕ) (s : Tls) → IsShared s → IsShared (add tid i s)
unfolding add
add-IsShared tid i s v = record {
  below = v.below;
  page_below = v.page_below;
  apart = v.apart;
  mapped = v.mapped;
  has_page = v.has_page;
  one_slot = v.one_slot;
  counted = v.counted;
}

pub trim-full : (t n : ℕ) (s : Tls) → (s.storages t).page_num ≡ n → trim t n s ≡ s
trim-full t n s e = ap (λ st. record s { storages = st }) (fun_ext (λ j. same j))
  where
    same : (j : ℕ) → (trim t n s).storages j ≡ s.storages j
    same j = elim (Bool-cases (t == j)) [
      | inl q ↦
          rw q
            (ap (λ z. record (s.storages t) { page_num = z }) (sym e) ∙ ap s.storages (==→≡ t j q))
      | inr q ↦ rw q
    ]

-- The bytes of a storage are in the pages that are counted for its size, the last of which may be used in part.
in_pages : (size d a : ℕ) → d ≢ 0 → a < size → a / d < size / d + (if size % d == 0 then 0 else 1)
in_pages size d a ne h =
    let pos_d : 0 < d = omega (arith, ne) in
    let whole : size / d * d + size % d ≡ size = div-add-mod' size d in
    elim (Bool-cases (size % d == 0)) [
      | inl e ↦
          let r : size % d ≡ 0 = ==→≡ (size % d) 0 e in
          rw e ((div-lt_iff_lt-mul pos_d).1 (omega (arith, whole, r)))
      | inr e ↦ rw e ((div-lt_iff_lt-mul pos_d).1 (omega (arith, lt-div-mul-add {a = size} pos_d)))
    ]

-- A new item that is put in the table gives its thread the storage.
pub Has-add :
    (tid t size : ℕ) (s1 : Tls)
    → s1.live_storage t ≡ true
    → (s1.storages t).size ≡ size
    → ((a : ℕ) → a < size → a / s1.page_size < (s1.storages t).page_num)
    → Has (add tid s1.next (new_item tid t s1)) tid t size
unfolding add
Has-add tid t size s1 l z k = record {
  item = s1.next;
  found =
      find-add tid s1.next (new_item tid t s1) (ground (arith, ==-refl s1.next))
        (ground (arith, ==-refl s1.next));
  its = ground (arith, ==-refl s1.next);
  is_live = l;
  has_size = z;
  slots = k;
}

create_for-IsShared :
    (tid size : ℕ) (s : Tls)
    → ((q : ℕ) → s.maps q ≡ true)
    → s.page_size ≢ 0
    → IsShared s
    → (s' : Tls) × (create_for tid size s none ≡ returns (pos 0) s')
      × IsShared s'
      × Has s' tid s.next size
unfolding create_for
create_for-IsShared tid size s m d v =
    let n = size / s.page_size + (if size % s.page_size == 0 then 0 else 1) in
    let t = s.next in
    let s0 = new_storage size n (λ k. 0) s in
    let live : s0.live_storage t ≡ true = rw (==-refl t) in
    let (s1, e, w, f) = create_pages-trim n 0 t s0 m live (empty-IsShared s v size n) in
    let count : (s1.storages t).page_num ≡ 0 + n = f.page_num ∙ rw (==-refl t) (omega arith) in
    let w1 : IsShared s1 = subst IsShared (trim-full t (0 + n) s1 count) w in
    (
      add tid s1.next (new_item tid t s1),
      ap
          (λ r. bind r (λ ok s1.
            if ok
            then returns (pos 0) (add tid s1.next (new_item tid t s1))
            else returns minus_one s1))
          e,
      add-IsShared tid s1.next (new_item tid t s1) (new_item-IsShared tid t s1 w1),
      Has-add tid t size s1 (ap (λ z. z t) f.live_storage ∙ live)
          (f.size ∙ ap (λ z. z.size) (update_self s.storages t _))
          (λ a h.
            omega (arith, in_pages size s.page_size a d h, count, ap (λ z. a / z) f.page_size)),
    )

-- On storages whose live pages have mappings of their own and count the storages that share them, each in the
-- same slot, with the host giving every mapping: `tls_create` of a thread without a storage and of a size that
-- is not 0, with a page size that is not 0, returns 0. The thread then has an item with a new storage of that
-- size, each byte of which has its page, and the storages are still such.
pub tls_create-IsShared :
    (tid size : ℕ) (s : Tls)
    → IsShared (tls_init s)
    → find tid (tls_init s) ≡ returns none (tls_init s)
    → ((q : ℕ) → (tls_init s).maps q ≡ true)
    → (tls_init s).page_size ≢ 0
    → size ≢ 0
    → (s' : Tls) × (tls_create tid size s ≡ returns (pos 0) s')
      × IsShared s'
      × Has s' tid (tls_init s).next size
tls_create-IsShared tid size s v e m d ne =
    let (s', f, w, h) = create_for-IsShared tid size (tls_init s) m d v in
    let whole : tls_create tid size s ≡ returns (pos 0) s' = unfolded s' f in (s', whole, w, h)
  where
    unfolded :
        (s' : Tls)
        → create_for tid size (tls_init s) none ≡ returns (pos 0) s'
        → tls_create tid size s ≡ returns (pos 0) s'
    unfolded s' f =
        let z : (size == 0) ≡ false = ≢→== size 0 ne in
        unfold tls_create in rw z (ap (λ r. bind r (λ x s1. create_for tid size s1 x)) e ∙ f)
