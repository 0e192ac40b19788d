-- ===== src/Tls/SharedPage.antt =====
-- The pages of tls_clone (tls.c): a storage shares a page of another one, in the same slot.
use ec.Base.{
  ℕ, ◌+◌, ◌≡◌, ◌≢◌, sym, ◌∙◌, ap, inl, inr, true, ◌==◌, update, Bool-cases, ==→≡, ==→≢, ==-refl,
  arith,
}
use ec.Tls.State.{Tls, Storage}
use ec.Tls.Shares.{shares, shares_at, shares-update}
use ec.Tls.Isolation.{IsShared, HasSlot}
use ec.Tls.NewPage.{widened, slot-cases}

-- The storage `c` gets the page of `t` for one more slot.
abbrev pub joined : ℕ → ℕ → Tls → Tls
joined c t s =
    let p = (s.storages t).pages (s.storages c).page_num in
    record s {
      storages = widened s.storages c p;
      page = update s.page p (record (s.page p) { ref_count = (s.page p).ref_count + 1 });
    }

module _ (s : Tls) (c t : ℕ) (v : IsShared s) (live_c : s.live_storage c ≡ true)
    (theirs : HasSlot s t (s.storages c).page_num) where
  abbrev slot : ℕ
  slot = (s.storages c).page_num

  abbrev shared : ℕ
  shared = (s.storages t).pages slot

  same_address : (p : ℕ) → ((joined c t s).page p).address ≡ (s.page p).address
  same_address p = elim (Bool-cases (shared == p)) [
    | inl e ↦ rw e (ap (λ z. (s.page z).address) (==→≡ shared p e))
    | inr e ↦ rw e
  ]

  joined-one_slot :
      (u w k l : ℕ)
      → HasSlot (joined c t s) u k
      → HasSlot (joined c t s) w l
      → ((joined c t s).storages u).pages k ≡ ((joined c t s).storages w).pages l
      → k ≡ l
  joined-one_slot u w k l h g e = elim (slot-cases s c shared u k h.0 h.1) [
    | inl (a, b, d) ↦ elim (slot-cases s c shared w l g.0 g.1) [
      | inl (a', b', d') ↦ b ∙ sym b'
      | inr (o, d') ↦ b ∙ v.one_slot t w slot l theirs o (sym d ∙ e ∙ d')
    ]
    | inr (o, d) ↦ elim (slot-cases s c shared w l g.0 g.1) [
      | inl (a', b', d') ↦ v.one_slot u t k slot o theirs (sym d ∙ e ∙ d') ∙ sym b'
      | inr (o', d') ↦ v.one_slot u w k l o o' (sym d ∙ e ∙ d')
    ]
  ]

  shares-slot :
      shares (joined c t s).storages s.live_storage slot shared s.next
      ≡ shares s.storages s.live_storage slot shared s.next + 1
  shares-slot =
      let w : Storage = record (s.storages c) {
        page_num = slot + 1;
        pages = update (s.storages c).pages slot shared;
      } in
      let a : shares_at (s.live_storage c) (s.storages c) slot shared ≡ 0 = ground arith in
      let b : shares_at (s.live_storage c) w slot shared ≡ 1 =
        ground (arith, live_c, ==-refl slot, ==-refl shared) in
      omega (
        arith,
        shares-update s.storages s.live_storage slot shared c w s.next (v.below c live_c),
        a,
        b,
      )

  shares-other :
      (l p : ℕ)
      → shared ≢ p
      → shares (joined c t s).storages s.live_storage l p s.next
        ≡ shares s.storages s.live_storage l p s.next
  shares-other l p ne =
      let w : Storage = record (s.storages c) {
        page_num = slot + 1;
        pages = update (s.storages c).pages slot shared;
      } in
      let same : shares_at (s.live_storage c) (s.storages c) l p
          ≡ shares_at (s.live_storage c) w l p =
        elim (Bool-cases (slot == l)) [
          | inl e ↦ let z : slot ≡ l = ==→≡ slot l e in ground arith
          | inr e ↦ let z : slot ≢ l = ==→≢ slot l e in ground arith
        ] in
      omega (arith, shares-update s.storages s.live_storage l p c w s.next (v.below c live_c), same)

  -- The counts of the shared page, and of another one.
  count-slot :
      ((joined c t s).page shared).ref_count
      ≡ shares (joined c t s).storages s.live_storage slot shared s.next
  count-slot = rw (==-refl shared) (ap (λ z. z + 1) (v.counted t slot theirs) ∙ sym shares-slot)

  count-old :
      (u l p : ℕ)
      → HasSlot s u l
      → (s.storages u).pages l ≡ p
      → ((joined c t s).page p).ref_count ≡ shares (joined c t s).storages s.live_storage l p s.next
  count-old u l p o q = elim (Bool-cases (shared == p)) [
    | inl e ↦
        let same : shared ≡ p = ==→≡ shared p e in
        let here : l ≡ slot = v.one_slot u t l slot o theirs (q ∙ sym same) in
        ap (λ z. ((joined c t s).page z).ref_count) (sym same)
        ∙ count-slot
        ∙ ap (λ z. shares (joined c t s).storages s.live_storage slot z s.next) same
        ∙ ap (λ z. shares (joined c t s).storages s.live_storage z p s.next) (sym here)
    | inr e ↦ rw e (
        ap (λ z. (s.page z).ref_count) (sym q)
        ∙ v.counted u l o
        ∙ ap (λ z. shares s.storages s.live_storage l z s.next) q
        ∙ sym (shares-other l p (==→≢ shared p e)))
  ]

  joined-counted :
      (u l : ℕ)
      → HasSlot (joined c t s) u l
      → ((joined c t s).page (((joined c t s).storages u).pages l)).ref_count
        ≡ shares
            (joined c t s).storages
            s.live_storage
            l
            (((joined c t s).storages u).pages l)
            s.next
  joined-counted u l h = elim (slot-cases s c shared u l h.0 h.1) [
    | inl (a, b, d) ↦
        ap (λ p. ((joined c t s).page p).ref_count) d
        ∙ count-slot
        ∙ sym (ap (λ p. shares (joined c t s).storages s.live_storage slot p s.next) d)
        ∙ sym (
            ap
              (λ z.
                shares (joined c t s).storages s.live_storage z
                  (((joined c t s).storages u).pages l) s.next)
              b)
    | inr (o, d) ↦ count-old u l (((joined c t s).storages u).pages l) o (sym d)
  ]

  pub joined-IsShared : IsShared (joined c t s)
  joined-IsShared = record {
    below = v.below;
    page_below = λ p h. ((v.page_below p h).0, omega (arith, (v.page_below p h).1, same_address p));
    apart = λ p q h g e. v.apart p q h g (sym (same_address p) ∙ e ∙ same_address q);
    mapped = λ p h. ap s.mapped (same_address p) ∙ v.mapped p h;
    has_page = λ u l h. elim (slot-cases s c shared u l h.0 h.1) [
      | inl (a, b, d) ↦ ap s.live_page d ∙ v.has_page t slot theirs
      | inr (o, d) ↦ ap s.live_page d ∙ v.has_page u l o
    ];
    one_slot = joined-one_slot;
    counted = joined-counted;
  }
