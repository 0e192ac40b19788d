-- ===== src/Tls/CreateLoop.antt =====
-- The loop of tls_create of tls.c.
use ec.Base.{
  ℕ, zero, suc, ◌+◌, ◌≡◌, refl, sym, ◌∙◌, ap, subst, fun_ext, inl, inr, true, ◌==◌, update,
  Bool-cases, ==-refl, arith,
}
use ec.Tls.State.{Tls, returns}
use ec.Tls.Life.{new_page, create_pages}
use ec.Tls.Isolation.{IsShared}
use ec.Tls.NewPage.{wider, wider-IsShared}

-- The state in which the storage `t` has only the slots that the loop has filled.
abbrev pub trim : ℕ → ℕ → Tls → Tls
trim t k s = record s { storages = update s.storages t (record (s.storages t) { page_num = k }) }

trim-new_page : (t k : ℕ) (s : Tls) → trim t (k + 1) (new_page t k s) ≡ wider t (trim t k s)
trim-new_page t k s =
    ap (λ st. record (wider t (trim t k s)) { storages = st }) (fun_ext (λ j. same j))
  where
    same :
        (j : ℕ) → (trim t (k + 1) (new_page t k s)).storages j ≡ (wider t (trim t k s)).storages j
    same j = elim (Bool-cases (t == j)) [ inl e ↦ rw (e, ==-refl t) | inr e ↦ rw e ]

-- What the loop leaves as it is.
pub record Fills (s s' : Tls) (t : ℕ) : Type 0 where
  pub live_storage : s'.live_storage ≡ s.live_storage
  pub page_num : (s'.storages t).page_num ≡ (s.storages t).page_num
  pub maps : s'.maps ≡ s.maps
  pub page_size : s'.page_size ≡ s.page_size
  pub size : (s'.storages t).size ≡ (s.storages t).size

pub create_pages-trim :
    (n k t : ℕ) (s : Tls)
    → ((q : ℕ) → s.maps q ≡ true)
    → s.live_storage t ≡ true
    → IsShared (trim t k s)
    → (s' : Tls) × (create_pages k n t s ≡ returns true s')
      × IsShared (trim t (k + n) s')
      × Fills s s' t
unfolding create_pages
create_pages-trim zero k t s m l v = (
  s,
  refl,
  subst (λ z. IsShared (trim t z s)) (omega arith) v,
  record { live_storage = refl; page_num = refl; maps = refl; page_size = refl; size = refl },
)
create_pages-trim (suc n) k t s m l v =
    let v1 : IsShared (trim t (k + 1) (new_page t k s)) =
      subst IsShared (sym (trim-new_page t k s)) (wider-IsShared (trim t k s) t v l) in
    let (s', e, w, f) = create_pages-trim n (k + 1) t (new_page t k s) m l v1 in
    let here : (((new_page t k s).storages t).page_num) ≡ (s.storages t).page_num =
      rw (==-refl t) in
    (
      s',
      rw (m s.next) e,
      subst (λ z. IsShared (trim t z s')) (omega arith) w,
      record {
        live_storage = f.live_storage;
        page_num = f.page_num ∙ here;
        maps = f.maps;
        page_size = f.page_size;
        size = f.size ∙ rw (==-refl t);
      },
    )
