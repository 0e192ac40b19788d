-- ===== src/Tls/Protect.antt =====
-- The loops of tls_write and tls_read of tls.c that protect and unprotect the pages of a storage.
use ec.Base.{
  ℕ, zero, suc, ◌+◌, ◌≤◌, ◌<◌, ◌≡◌, refl, sym, ◌∙◌, ap, inl, inr, true, ◌==◌, update, update_self,
  Bool-cases, ==→≡, ==→≢, arith,
}
use ec.Tls.State.{Protection, Tls, returns, bind}
use ec.Tls.Storage.{protect_page, protect_pages}
use ec.Tls.Isolation.{IsShared}

abbrev pub protected : (ℕ → Protection) → Tls → Tls
protected f s = record s { protection = f }

protect_page-eq :
    (p : ℕ) (prot : Protection) (s : Tls)
    → s.live_page p ≡ true
    → s.mapped (s.page p).address ≡ true
    → protect_page p prot s ≡ returns tt (protected (update s.protection (s.page p).address prot) s)
unfolding protect_page
protect_page-eq p prot s l m = rw (l, m)

pub IsShared-protected : (f : ℕ → Protection) (s : Tls) → IsShared s → IsShared (protected f s)
IsShared-protected f s v = record {
  below = v.below;
  page_below = v.page_below;
  apart = v.apart;
  mapped = v.mapped;
  has_page = v.has_page;
  one_slot = v.one_slot;
  counted = v.counted;
}

-- The loops that protect the pages of a live storage end, and change the protections only.
pub protect_pages-eq :
    (k n t : ℕ) (prot : Protection) (s : Tls)
    → IsShared s
    → s.live_storage t ≡ true
    → k + n ≤ (s.storages t).page_num
    → (f : ℕ → Protection) × (protect_pages k n t prot s ≡ returns tt (protected f s))
      × ((m : ℕ) → s.protection m ≡ prot → f m ≡ prot)
      × ((j : ℕ) → k ≤ j → j < k + n → f (s.page ((s.storages t).pages j)).address ≡ prot)
unfolding protect_pages
protect_pages-eq k zero t prot s v l h =
    (s.protection, refl, (λ m e. e), λ j lo hi. absurd (omega arith))
protect_pages-eq k (suc n) t prot s v l h =
    let p : ℕ = (s.storages t).pages k in
    let live : s.live_page p ≡ true = v.has_page t k (l, omega arith) in
    let g : ℕ → Protection = update s.protection (s.page p).address prot in
    let (f, e, stays, sets) =
      protect_pages-eq (k + 1) n t prot (protected g s) (IsShared-protected g s v) l
        (omega arith) in
    (
      f,
      ap (λ r. bind r (λ _. protect_pages (k + 1) n t prot))
            (protect_page-eq p prot s live (v.mapped p live))
          ∙ e,
      (λ m q.
          stays m
            (elim (Bool-cases ((s.page p).address == m)) [ inl x ↦ rw x refl | inr x ↦ rw x q ])),
      λ j lo hi. elim (Bool-cases (k == j)) [
        | inl x ↦ stays (s.page ((s.storages t).pages j)).address (
            ap (λ z. g (s.page ((s.storages t).pages z)).address) (sym (==→≡ k j x))
            ∙ update_self s.protection (s.page p).address prot)
        | inr x ↦ sets j (omega (arith, ==→≢ k j x)) (omega arith)
      ],
    )
