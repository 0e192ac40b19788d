-- ===== src/Tls/NewPage.antt =====
-- The pages of tls_create (tls.c): each is mapped on its own and has one storage.
use ec.Base.{
  ℕ, zero, suc, ◌+◌, ◌<◌, ◌≡◌, ◌≢◌, ◌⊎◌, refl, sym, ◌∙◌, ap, subst, inl, inr, Bool, true, false,
  ◌&&◌, ◌==◌, ltb, update, Bool-cases, ==→≡, ==→≢, ==-refl, arith,
}
use ec.Tls.State.{Tls, Storage, prot_none}
use ec.Tls.Shares.{shares, shares_at, shares-update}
use ec.Tls.Isolation.{IsShared, HasSlot}

-- A page that no storage has in its slot.
shares_none :
    (st : ℕ → Storage) (live : ℕ → Bool) (k p n : ℕ)
    → ((u : ℕ) → u < n → live u ≡ true → k < (st u).page_num → (st u).pages k ≢ p)
    → shares st live k p n ≡ 0
unfolding shares
shares_none st live k p zero h = refl
shares_none st live k p (suc n) h =
    let e = shares_none st live k p n (λ u l. h u (omega arith)) in
    let f : shares_at (live n) (st n) k p ≡ 0 =
      elim (Bool-cases (live n && ltb k (st n).page_num)) [
        | inl q ↦
            let ne : (st n).pages k ≢ p = h n (omega arith) (ground arith) (ground arith) in
            ground arith
        | inr q ↦ ground arith
      ] in
    omega (arith, e, f)

-- The storage `t` gets the page `q` for one more slot.
abbrev pub widened : (ℕ → Storage) → ℕ → ℕ → (ℕ → Storage)
widened st t q = update st t (record (st t) {
  page_num = (st t).page_num + 1;
  pages = update (st t).pages (st t).page_num q;
})

-- It is a new page.
abbrev pub wider : ℕ → Tls → Tls
wider t s =
    let q = s.next in
    record s {
      page = update s.page q (record { address = q; ref_count = 1 });
      live_page = update s.live_page q true;
      storages = widened s.storages t q;
      memory = update s.memory q (λ a. 0);
      mapped = update s.mapped q true;
      protection = update s.protection q prot_none;
      next = q + 1;
    }

-- What a slot of the wider storages is: the new one, or one of before.
abbrev Slots : Tls → ℕ → ℕ → ℕ → ℕ → Type 0
Slots s t q u l =
    ((u ≡ t) × (l ≡ (s.storages t).page_num) × ((widened s.storages t q u).pages l ≡ q))
    ⊎ (HasSlot s u l × ((widened s.storages t q u).pages l ≡ (s.storages u).pages l))

pub slot-cases :
    (s : Tls) (t q u l : ℕ)
    → s.live_storage u ≡ true
    → l < (widened s.storages t q u).page_num
    → Slots s t q u l
slot-cases s t q u l k h = elim (Bool-cases (t == u)) [
  | inl e ↦ elim (Bool-cases ((s.storages t).page_num == l)) [
    | inl f ↦ inl (sym (==→≡ t u e), sym (==→≡ _ l f), rw (e, f))
    | inr f ↦
        let same : t ≡ u = ==→≡ t u e in
        let low : l < (s.storages t).page_num + 1 = rw e at h in
        let lt : l < (s.storages t).page_num = omega (arith, ==→≢ _ l f, low) in
        inr (
          (k, subst (λ z. l < (s.storages z).page_num) same lt),
          rw (e, f) (ap (λ z. (s.storages z).pages l) same),
        )
  ]
  | inr e ↦ inr ((k, rw e at h), rw e)
]

-- What the next block counts for, which is no storage yet.
pub shares-next :
    (s : Tls) (v : IsShared s) (st : ℕ → Storage) (l p : ℕ)
    → shares st s.live_storage l p (s.next + 1) ≡ shares st s.live_storage l p s.next
unfolding shares
shares-next s v st l p =
    let n : s.next + 1 ≡ suc s.next = omega arith in
    ap (shares st s.live_storage l p) n ∙ elim (Bool-cases (s.live_storage s.next)) [
      | inl e ↦ absurd (omega (arith, v.below s.next e))
      | inr e ↦ rw e (omega arith)
    ]

module _ (s : Tls) (t : ℕ) (v : IsShared s) (live : s.live_storage t ≡ true) where
  old_page : (u l : ℕ) → HasSlot s u l → (s.storages u).pages l < s.next
  old_page u l h = (v.page_below _ (v.has_page u l h)).0

  wider-one_slot :
      (u w k l : ℕ)
      → HasSlot (wider t s) u k
      → HasSlot (wider t s) w l
      → ((wider t s).storages u).pages k ≡ ((wider t s).storages w).pages l
      → k ≡ l
  wider-one_slot u w k l h g e = elim (slot-cases s t s.next u k h.0 h.1) [
    | inl (a, b, c) ↦ elim (slot-cases s t s.next w l g.0 g.1) [
      | inl (a', b', c') ↦ b ∙ sym b'
      | inr (o, c') ↦ absurd (omega (arith, old_page w l o, sym c ∙ e ∙ c'))
    ]
    | inr (o, c) ↦ elim (slot-cases s t s.next w l g.0 g.1) [
      | inl (a', b', c') ↦ absurd (omega (arith, old_page u k o, sym c ∙ e ∙ c'))
      | inr (o', c') ↦ v.one_slot u w k l o o' (sym c ∙ e ∙ c')
    ]
  ]

  t_below : t < s.next
  t_below = v.below t live

  shares-new :
      shares (wider t s).storages s.live_storage (s.storages t).page_num s.next (s.next + 1) ≡ 1
  shares-new =
      let k = (s.storages t).page_num in
      let st = (wider t s).storages in
      let w : Storage = record (s.storages t) {
        page_num = k + 1;
        pages = update (s.storages t).pages k s.next;
      } in
      let a : shares s.storages s.live_storage k s.next s.next ≡ 0 =
        shares_none s.storages s.live_storage k s.next s.next
          (λ u l g h e. omega (arith, old_page u k (g, h), e)) in
      let b : shares_at (s.live_storage t) (s.storages t) k s.next ≡ 0 = ground arith in
      let c : shares_at (s.live_storage t) w k s.next ≡ 1 =
        ground (arith, live, ==-refl k, ==-refl s.next) in
      omega (
        arith,
        shares-next s v st k s.next,
        shares-update s.storages s.live_storage k s.next t w s.next t_below,
        a,
        b,
        c,
      )

  shares-old :
      (l p : ℕ)
      → p < s.next
      → shares (wider t s).storages s.live_storage l p (s.next + 1)
        ≡ shares s.storages s.live_storage l p s.next
  shares-old l p h =
      let k = (s.storages t).page_num in
      let w : Storage = record (s.storages t) {
        page_num = k + 1;
        pages = update (s.storages t).pages k s.next;
      } in
      let same : shares_at (s.live_storage t) (s.storages t) l p
          ≡ shares_at (s.live_storage t) w l p =
        elim (Bool-cases (k == l)) [
          | inl e ↦ let z : k ≡ l = ==→≡ k l e in ground arith
          | inr e ↦ let z : k ≢ l = ==→≢ k l e in ground arith
        ] in
      omega (
        arith,
        shares-next s v (wider t s).storages l p,
        shares-update s.storages s.live_storage l p t w s.next t_below,
        same,
      )

  wider-counted :
      (u l : ℕ)
      → HasSlot (wider t s) u l
      → ((wider t s).page (((wider t s).storages u).pages l)).ref_count
        ≡ shares
            (wider t s).storages
            (wider t s).live_storage
            l
            (((wider t s).storages u).pages l)
            (wider t s).next
  wider-counted u l h = elim (slot-cases s t s.next u l h.0 h.1) [
    | inl (a, b, c) ↦
        ap (λ p. (update s.page s.next (record { address = s.next; ref_count = 1 }) p).ref_count) c
        ∙ rw (==-refl s.next) (sym shares-new)
        ∙ sym (
            ap
              (λ p.
                shares (wider t s).storages s.live_storage (s.storages t).page_num p (s.next + 1))
              c)
        ∙ sym (
            ap
              (λ z.
                shares (wider t s).storages s.live_storage z (((wider t s).storages u).pages l)
                  (s.next + 1))
              b)
    | inr (o, c) ↦
        let p = (s.storages u).pages l in
        let ne : (s.next == p) ≡ false = ground (arith, old_page u l o) in
        ap (λ p. (update s.page s.next (record { address = s.next; ref_count = 1 }) p).ref_count) c
        ∙ rw ne (v.counted u l o ∙ sym (shares-old l p (old_page u l o)))
        ∙ sym (ap (λ p. shares (wider t s).storages s.live_storage l p (s.next + 1)) c)
  ]

  pub wider-IsShared : IsShared (wider t s)
  wider-IsShared = record {
    below = λ u h. omega (arith, v.below u h);
    page_below = λ p h. elim (Bool-cases (s.next == p)) [
      | inl e ↦ (omega (arith, ==→≡ s.next p e), rw e (omega arith))
      | inr e ↦
          let o = v.page_below p (rw e at h) in (omega (arith, o.0), rw e (omega (arith, o.1)))
    ];
    apart = λ p r h g e. elim (Bool-cases (s.next == p)) [
      | inl a ↦ elim (Bool-cases (s.next == r)) [
        | inl b ↦ sym (==→≡ s.next p a) ∙ ==→≡ s.next r b
        | inr b ↦ absurd (omega (arith, (v.page_below r (rw b at g)).1, rw (a, b) at e))
      ]
      | inr a ↦ elim (Bool-cases (s.next == r)) [
        | inl b ↦ absurd (omega (arith, (v.page_below p (rw a at h)).1, rw (a, b) at e))
        | inr b ↦ v.apart p r (rw a at h) (rw b at g) (rw (a, b) at e)
      ]
    ];
    mapped = λ p h. elim (Bool-cases (s.next == p)) [
      | inl e ↦ rw (e, ==-refl s.next)
      | inr e ↦
          let o = v.page_below p (rw e at h) in
          let ne : (s.next == (s.page p).address) ≡ false = ground (arith, o.1) in
          rw (e, ne) (v.mapped p (rw e at h))
    ];
    has_page = λ u l h. elim (slot-cases s t s.next u l h.0 h.1) [
      | inl (a, b, c) ↦ ap (update s.live_page s.next true) c ∙ rw (==-refl s.next)
      | inr (o, c) ↦
          let ne : (s.next == (s.storages u).pages l) ≡ false = ground (arith, old_page u l o) in
          ap (update s.live_page s.next true) c ∙ rw ne (v.has_page u l o)
    ];
    one_slot = wider-one_slot;
    counted = wider-counted;
  }
