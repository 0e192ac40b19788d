-- ===== src/Tls/CloneLoop.antt =====
-- The loop of tls_clone of tls.c.
use ec.Base.{
  ℕ, zero, suc, ◌+◌, ◌≤◌, ◌<◌, ◌≡◌, ◌≢◌, refl, sym, ◌∙◌, ap, subst, fun_ext, inl, inr, true, ◌==◌,
  update, update_ne, Bool-cases, ==→≡, ==→≢, ==-refl, ≢→==, arith,
}
use ec.Tls.State.{Tls, returns, set_storage, set_page}
use ec.Tls.Life.{share_pages}
use ec.Tls.Isolation.{IsShared, HasSlot}
use ec.Tls.NewPage.{widened}
use ec.Tls.SharedPage.{joined, joined-IsShared}
use ec.Tls.CreateLoop.{trim}

-- One round of the loop.
abbrev share : ℕ → ℕ → ℕ → Tls → Tls
share k c t s =
    let p = (s.storages t).pages k in
    set_page (set_storage s c (record (s.storages c) { pages = update (s.storages c).pages k p })) p
      (record (s.page p) { ref_count = (s.page p).ref_count + 1 })

trim-other : (c k t : ℕ) (s : Tls) → c ≢ t → (trim c k s).storages t ≡ s.storages t
trim-other c k t s ne = rw (≢→== c t ne)

trim-share :
    (k c t : ℕ) (s : Tls) → c ≢ t → trim c (k + 1) (share k c t s) ≡ joined c t (trim c k s)
trim-share k c t s ne =
    let p = (s.storages t).pages k in
    let same : p ≡ ((trim c k s).storages t).pages ((trim c k s).storages c).page_num =
      rw (==-refl c) (sym (ap (λ z. z.pages k) (trim-other c k t s ne))) in
    ap
      (λ st. record s {
        storages = st;
        page = update s.page p (record (s.page p) { ref_count = (s.page p).ref_count + 1 });
      })
      (fun_ext (λ j. at j))
    ∙ ap
        (λ q. record s {
          storages = widened (trim c k s).storages c q;
          page = update s.page q (record (s.page q) { ref_count = (s.page q).ref_count + 1 });
        })
        same
  where
    at :
        (j : ℕ)
        → (trim c (k + 1) (share k c t s)).storages j
          ≡ widened (trim c k s).storages c ((s.storages t).pages k) j
    at j = elim (Bool-cases (c == j)) [ inl e ↦ rw (e, ==-refl c) | inr e ↦ rw e ]

-- What the loop over the slots from `k` on does to the storage `c`, and what it leaves as it is.
pub record Shares (s s' : Tls) (k n c t : ℕ) : Type 0 where
  pub live_storage : s'.live_storage ≡ s.live_storage
  pub page_num : (s'.storages c).page_num ≡ (s.storages c).page_num
  pub size : (s'.storages c).size ≡ (s.storages c).size
  pub target : s'.storages t ≡ s.storages t
  pub items : s'.items ≡ s.items
  pub live_item : s'.live_item ≡ s.live_item
  pub page_size : s'.page_size ≡ s.page_size
  pub memory : s'.memory ≡ s.memory
  pub address : (p : ℕ) → (s'.page p).address ≡ (s.page p).address
  pub kept : (l : ℕ) → l < k → (s'.storages c).pages l ≡ (s.storages c).pages l
  pub filled : (l : ℕ) → k ≤ l → l < k + n → (s'.storages c).pages l ≡ (s.storages t).pages l

Shares-zero : (s : Tls) (k c t : ℕ) → Shares s s k 0 c t
Shares-zero s k c t = record {
  live_storage = refl;
  page_num = refl;
  size = refl;
  target = refl;
  items = refl;
  live_item = refl;
  page_size = refl;
  memory = refl;
  address = λ p. refl;
  kept = λ l h. refl;
  filled = λ l lo hi. absurd (omega arith);
}

Shares-next :
    (s s' : Tls) (k n c t : ℕ)
    → c ≢ t
    → Shares (share k c t s) s' (k + 1) n c t
    → Shares s s' k (suc n) c t
Shares-next s s' k n c t ne f =
    let same : (share k c t s).storages t ≡ s.storages t = rw (≢→== c t ne) in
    let mine : (l : ℕ)
        → ((share k c t s).storages c).pages l
          ≡ update (s.storages c).pages k ((s.storages t).pages k) l =
      λ l. rw (==-refl c) in
    record {
      live_storage = f.live_storage;
      page_num = f.page_num ∙ rw (==-refl c);
      size = f.size ∙ rw (==-refl c);
      target = f.target ∙ same;
      items = f.items;
      live_item = f.live_item;
      page_size = f.page_size;
      memory = f.memory;
      address = λ p. f.address p ∙ address p;
      kept = λ l h.
          f.kept l (omega arith)
          ∙ mine l
          ∙ update_ne (s.storages c).pages k l ((s.storages t).pages k) (omega arith);
      filled = λ l lo hi. elim (Bool-cases (k == l)) [
        | inl e ↦
            f.kept l (omega (arith, ==→≡ k l e))
            ∙ mine l
            ∙ rw e (ap (s.storages t).pages (==→≡ k l e))
        | inr e ↦ f.filled l (omega (arith, ==→≢ k l e)) (omega arith) ∙ ap (λ z. z.pages l) same
      ];
    }
  where
    address : (p : ℕ) → ((share k c t s).page p).address ≡ (s.page p).address
    address p = elim (Bool-cases ((s.storages t).pages k == p)) [
      | inl e ↦ rw e (ap (λ z. (s.page z).address) (==→≡ _ p e))
      | inr e ↦ rw e
    ]

pub share_pages-trim :
    (n k c t : ℕ) (s : Tls)
    → c ≢ t
    → s.live_storage c ≡ true
    → s.live_storage t ≡ true
    → k + n ≤ (s.storages t).page_num
    → IsShared (trim c k s)
    → (s' : Tls) × (share_pages k n c t s ≡ returns tt s')
      × IsShared (trim c (k + n) s')
      × Shares s s' k n c t
unfolding share_pages
share_pages-trim zero k c t s ne lc lt h v =
    (s, refl, subst (λ z. IsShared (trim c z s)) (omega arith) v, Shares-zero s k c t)
share_pages-trim (suc n) k c t s ne lc lt h v =
    let other = trim-other c k t s ne in
    let slot : k < ((trim c k s).storages t).page_num =
      subst (λ z. k < z.page_num) (sym other) (omega arith) in
    let live : s.live_page ((s.storages t).pages k) ≡ true =
      ap (λ z. s.live_page (z.pages k)) (sym other) ∙ v.has_page t k (lt, slot) in
    let theirs : HasSlot (trim c k s) t ((trim c k s).storages c).page_num =
      (lt, subst (λ z. z < ((trim c k s).storages t).page_num) (rw (==-refl c)) slot) in
    let v1 : IsShared (trim c (k + 1) (share k c t s)) =
      subst IsShared (sym (trim-share k c t s ne)) (joined-IsShared (trim c k s) c t v lc theirs) in
    let same : ((share k c t s).storages t) ≡ s.storages t = rw (≢→== c t ne) in
    let (s', e, w, f) =
      share_pages-trim n (k + 1) c t (share k c t s) ne lc lt
        (subst (λ z. k + 1 + n ≤ z.page_num) (sym same) (omega arith)) v1 in
    (
      s',
      rw live e,
      subst (λ z. IsShared (trim c z s')) (omega arith) w,
      Shares-next s s' k n c t ne f,
    )
