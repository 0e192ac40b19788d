-- ===== src/Tls/Copy.antt =====
-- The private copy that tls_write of tls.c makes of a shared page.
use ec.Base.{
  ℕ, suc, ◌+◌, ◌-◌, ◌/◌, ◌%◌, ◌≤◌, ◌<◌, ◌≡◌, ◌≢◌, ◌⊎◌, refl, sym, ◌∙◌, ap, subst, inl, inr, true,
  false, ◌&&◌, ◌==◌, ltb, if◌then◌else◌, update, update_self, update_ne, Bool-cases, ==→≡, ==-refl,
  ≢→==, arith,
}
use ec.Tls.State.{prot_none, prot_write, Storage, Tls}
use ec.Tls.Storage.{copied, put_byte}
use ec.Tls.Shares.{shares, shares_at, shares-update, shares-zero}
use ec.Tls.Isolation.{AllAt, byte_of, HasSlot, IsShared, Isolates, slot_share, put-Isolates}

module _ (s : Tls) (t k : ℕ) (v : IsShared s) (h : HasSlot s t k)
    (many : 2 ≤ (s.page ((s.storages t).pages k)).ref_count) where
  abbrev p : ℕ
  p = (s.storages t).pages k

  abbrev s1 : Tls
  s1 = copied t k p s

  p_live : s.live_page p ≡ true
  p_live = v.has_page t k h

  p_below : p < s.next
  p_below = (v.page_below p p_live).0

  pub page_num-copied : (u : ℕ) → (s1.storages u).page_num ≡ (s.storages u).page_num
  page_num-copied u = ground arith

  size-copied : (u : ℕ) → (s1.storages u).size ≡ (s.storages u).size
  size-copied u = ground arith

  slot_before : (u l : ℕ) → HasSlot s1 u l → HasSlot s u l
  slot_before u l g = (g.0, subst (λ z. l < z) (page_num-copied u) g.1)

  pub pages-copied :
      (u l : ℕ)
      → (s1.storages u).pages l ≡ (if (t == u) && (k == l) then s.next else (s.storages u).pages l)
  pages-copied u l = ground arith

  -- A slot has the copy, or a page that it had before.
  slots :
      (u l : ℕ)
      → HasSlot s1 u l
      → ((t ≡ u) × (k ≡ l) × ((s1.storages u).pages l ≡ s.next))
        ⊎ (((s1.storages u).pages l ≡ (s.storages u).pages l) × (((t == u) && (k == l)) ≡ false))
  slots u l g = elim (Bool-cases ((t == u) && (k == l))) [
    | inl e ↦ inl (ground arith, ground arith, pages-copied u l ∙ rw e)
    | inr e ↦ inr (pages-copied u l ∙ rw e, e)
  ]

  live_before : (r : ℕ) → s1.live_page r ≡ true → (r ≡ s.next) ⊎ (s.live_page r ≡ true)
  live_before r g = elim (Bool-cases (s.next == r)) [
    | inl e ↦ inl (sym (==→≡ s.next r e))
    | inr e ↦ inr (rw e at g)
  ]

  old_ne : (r : ℕ) → s.live_page r ≡ true → r < s.next
  old_ne r g = (v.page_below r g).0

  address_old : (r : ℕ) → s.live_page r ≡ true → (s1.page r).address ≡ (s.page r).address
  address_old r g = let lt : r < s.next = old_ne r g in ground arith

  page_new : (s1.page s.next) ≡ record { address = s.next; ref_count = 1 }
  page_new = ground (arith, p_below, ==-refl s.next)

  ref_old :
      (r : ℕ)
      → s.live_page r ≡ true
      → (s1.page r).ref_count ≡ (s.page r).ref_count - (if p == r then 1 else 0)
  ref_old r g =
      let lt : r < s.next = old_ne r g in
      elim (Bool-cases (p == r)) [
        | inl e ↦ rw e (ap (λ z. (s.page z).ref_count - 1) (==→≡ p r e))
        | inr e ↦ rw (e, ≢→== s.next r (omega arith)) (omega arith)
      ]

  dead : s.live_storage s.next ≡ false
  dead = elim (Bool-cases (s.live_storage s.next)) [
    | inl e ↦ absurd (omega (arith, v.below s.next e))
    | inr e ↦ e
  ]

  shares-copied :
      (l r : ℕ)
      → shares s1.storages s.live_storage l r (suc s.next)
          + shares_at (s.live_storage t) (s.storages t) l r
        ≡ shares s.storages s.live_storage l r s.next
          + shares_at (s.live_storage t) (s1.storages t) l r
  unfolding shares
  shares-copied l r =
      let new : Storage = record (s.storages t) { pages = update (s.storages t).pages k s.next } in
      let u = shares-update s.storages s.live_storage l r t new s.next (v.below t h.0) in
      rw (dead, ==-refl t) (omega (arith, u))

  new_slot : ℕ → ℕ → ℕ
  new_slot l r = shares_at (s.live_storage t) (s1.storages t) l r

  count_new : shares s1.storages s.live_storage k s.next (suc s.next) ≡ 1
  count_new =
      let none_old : shares s.storages s.live_storage k s.next s.next ≡ 0 =
        shares-zero s.storages s.live_storage k s.next s.next (λ u lu. absent u) in
      let was : shares_at (s.live_storage t) (s.storages t) k s.next ≡ 0 = absent t in
      let is : shares_at (s.live_storage t) (s1.storages t) k s.next ≡ 1 =
        ground (arith, h.0, h.1, ==-refl t, ==-refl k, ==-refl s.next) in
      omega (arith, shares-copied k s.next, none_old, was, is)
    where
      absent : (u : ℕ) → shares_at (s.live_storage u) (s.storages u) k s.next ≡ 0
      absent u = elim (Bool-cases (s.live_storage u && ltb k (s.storages u).page_num)) [
        | inl e ↦
            let lt : (s.storages u).pages k < s.next =
              old_ne ((s.storages u).pages k) (v.has_page u k (ground arith, ground arith)) in
            ground (arith, ≢→== ((s.storages u).pages k) s.next (omega arith))
        | inr e ↦ ground arith
      ]

  copy_elsewhere :
      (l r : ℕ)
      → (k == l) ≡ true
      → (s.next == r) ≡ false
      → shares_at (s.live_storage t) (s1.storages t) l r ≡ 0
  copy_elsewhere l r f g = ground (arith, ==-refl t, f, g)

  before_elsewhere :
      (l r : ℕ)
      → ((s.storages t).pages l == r) ≡ false
      → shares_at (s.live_storage t) (s.storages t) l r ≡ 0
  before_elsewhere l r f = ground (arith, f)

  count_old :
      (u l : ℕ)
      → HasSlot s u l
      → shares s1.storages s.live_storage l ((s.storages u).pages l) (suc s.next)
        ≡ shares s.storages s.live_storage l ((s.storages u).pages l) s.next
          - (if p == (s.storages u).pages l then 1 else 0)
  count_old u l g =
      let r : ℕ = (s.storages u).pages l in
      let lt : r < s.next = old_ne r (v.has_page u l g) in
      elim (Bool-cases (p == r)) [
        | inl e ↦
            let same : k ≡ l = v.one_slot t u k l h g (==→≡ p r e) in
            let was : shares_at (s.live_storage t) (s.storages t) l r ≡ 1 =
              subst (λ z. shares_at (s.live_storage t) (s.storages t) z r ≡ 1) same
                (subst (λ z. shares_at (s.live_storage t) (s.storages t) k z ≡ 1) (==→≡ p r e)
                  (slot_share s t k h)) in
            let is : shares_at (s.live_storage t) (s1.storages t) l r ≡ 0 =
              copy_elsewhere l r (subst (λ z. (k == z) ≡ true) same (==-refl k))
                (≢→== s.next r (omega arith)) in
            rw e (omega (arith, shares-copied l r, was, is))
        | inr e ↦
            let same : shares_at (s.live_storage t) (s.storages t) l r
                ≡ shares_at (s.live_storage t) (s1.storages t) l r =
              elim (Bool-cases (k == l)) [
                | inl f ↦
                    before_elsewhere l r
                      (subst (λ z. ((s.storages t).pages z == r) ≡ false) (==→≡ k l f) e)
                    ∙ sym (copy_elsewhere l r f (≢→== s.next r (omega arith)))
                | inr f ↦ rw (==-refl t, f)
              ] in
            rw e (omega (arith, shares-copied l r, same))
      ]

  page_below-copied :
      (r : ℕ)
      → (r ≡ s.next) ⊎ (s.live_page r ≡ true)
      → (r < s.next + 1) × ((s1.page r).address < s.next + 1)
  page_below-copied r (inl e) =
      let a : (s1.page r).address ≡ s.next =
        ap (λ z. (s1.page z).address) e ∙ ap (λ z. z.address) page_new in
      (omega arith, omega (arith, a))
  page_below-copied r (inr e) =
      (omega (arith, old_ne r e), omega (arith, address_old r e, (v.page_below r e).1))

  apart-copied :
      (q r : ℕ)
      → (q ≡ s.next) ⊎ (s.live_page q ≡ true)
      → (r ≡ s.next) ⊎ (s.live_page r ≡ true)
      → (s1.page q).address ≡ (s1.page r).address
      → q ≡ r
  apart-copied q r (inl a) (inl b) e = a ∙ sym b
  apart-copied q r (inl a) (inr b) e =
      let c : (s1.page q).address ≡ s.next =
        ap (λ z. (s1.page z).address) a ∙ ap (λ z. z.address) page_new in
      absurd (omega (arith, c, e, address_old r b, (v.page_below r b).1))
  apart-copied q r (inr a) (inl b) e =
      let c : (s1.page r).address ≡ s.next =
        ap (λ z. (s1.page z).address) b ∙ ap (λ z. z.address) page_new in
      absurd (omega (arith, c, e, address_old q a, (v.page_below q a).1))
  apart-copied q r (inr a) (inr b) e = v.apart q r a b (sym (address_old q a) ∙ e ∙ address_old r b)

  mapped-copied :
      (r : ℕ) → (r ≡ s.next) ⊎ (s.live_page r ≡ true) → s1.mapped (s1.page r).address ≡ true
  mapped-copied r (inl e) =
      ap (λ z. s1.mapped (s1.page z).address) e
      ∙ ap (λ z. s1.mapped z.address) page_new
      ∙ update_self s.mapped s.next true
  mapped-copied r (inr e) =
      ap s1.mapped (address_old r e)
      ∙ update_ne s.mapped s.next (s.page r).address true (omega (arith, (v.page_below r e).1))
      ∙ v.mapped r e

  has_page-copied : (u l : ℕ) → HasSlot s1 u l → s1.live_page ((s1.storages u).pages l) ≡ true
  has_page-copied u l g = elim (slots u l g) [
    | inl (_, _, e) ↦ ap s1.live_page e ∙ ground (arith, ==-refl s.next)
    | inr (e, _) ↦
        let old : s.live_page ((s.storages u).pages l) ≡ true =
          v.has_page u l (slot_before u l g) in
        ap s1.live_page e ∙ ground (arith, old)
  ]

  one_slot-copied :
      (u w l m : ℕ)
      → HasSlot s1 u l
      → HasSlot s1 w m
      → (s1.storages u).pages l ≡ (s1.storages w).pages m
      → l ≡ m
  one_slot-copied u w l m gu gw e = elim (slots u l gu) [
    | inl (_, a, c) ↦ elim (slots w m gw) [
      | inl (_, b, d) ↦ sym a ∙ b
      | inr (d, _) ↦
          absurd (omega (arith, old_ne _ (v.has_page w m (slot_before w m gw)), sym c ∙ e ∙ d))
    ]
    | inr (c, _) ↦ elim (slots w m gw) [
      | inl (_, b, d) ↦
          absurd (omega (arith, old_ne _ (v.has_page u l (slot_before u l gu)), sym c ∙ e ∙ d))
      | inr (d, _) ↦ v.one_slot u w l m (slot_before u l gu) (slot_before w m gw) (sym c ∙ e ∙ d)
    ]
  ]

  counted-copied :
      (u l : ℕ)
      → HasSlot s1 u l
      → (s1.page ((s1.storages u).pages l)).ref_count
        ≡ shares s1.storages s.live_storage l ((s1.storages u).pages l) (suc s.next)
  counted-copied u l g = elim (slots u l g) [
    | inl (_, a, e) ↦
        ap (λ z. (s1.page z).ref_count) e
        ∙ ap (λ z. z.ref_count) page_new
        ∙ sym (
            ap (λ z. shares s1.storages s.live_storage l z (suc s.next)) e
            ∙ subst (λ z. shares s1.storages s.live_storage z s.next (suc s.next) ≡ 1) a count_new)
    | inr (e, _) ↦
        let r : ℕ = (s.storages u).pages l in
        let gs = slot_before u l g in
        ap (λ z. (s1.page z).ref_count) e
        ∙ ref_old r (v.has_page u l gs)
        ∙ ap (λ z. z - (if p == r then 1 else 0)) (v.counted u l gs)
        ∙ sym (count_old u l gs)
        ∙ sym (ap (λ z. shares s1.storages s.live_storage l z (suc s.next)) e)
  ]

  -- The copy leaves every storage with pages of its own or shared ones, counted as before.
  pub copied-IsShared : IsShared s1
  copied-IsShared = record {
    below = λ u g. omega (arith, v.below u g);
    page_below = λ r g. page_below-copied r (live_before r g);
    apart = λ q r gq gr e. apart-copied q r (live_before q gq) (live_before r gr) e;
    mapped = λ r g. mapped-copied r (live_before r g);
    has_page = has_page-copied;
    one_slot = one_slot-copied;
    counted = λ u l g.
        counted-copied u l g
        ∙ ap (λ z. shares s1.storages s.live_storage l ((s1.storages u).pages l) z) (omega arith);
  }

  -- The pages of the writer that could be written can be written, and so can the copy.
  pub copied-AllAt : AllAt prot_write s t → AllAt prot_write s1 t
  copied-AllAt w l hl =
      let a : ℕ = (s.page p).address in
      let low : a < s.next = (v.page_below p p_live).1 in
      elim (slots t l (h.0, hl)) [
        | inl (_, _, e) ↦
            ap (λ z. s1.protection (s1.page z).address) e
            ∙ ap (λ z. s1.protection z.address) page_new
            ∙ update_ne (update s.protection s.next prot_write) a s.next prot_none (omega arith)
            ∙ update_self s.protection s.next prot_write
        | inr (e, f) ↦
            let r : ℕ = (s.storages t).pages l in
            let gs : HasSlot s t l = slot_before t l (h.0, hl) in
            let old : s.live_page r ≡ true = v.has_page t l gs in
            let ne : a ≢ (s.page r).address = (λ q. cc (
              rw (==-refl t) at f,
              ==-refl k,
              v.one_slot t t k l h gs (v.apart p r p_live old q),
            )) in
            ap (λ z. s1.protection (s1.page z).address) e
            ∙ ap s1.protection (address_old r old)
            ∙ update_ne (update s.protection s.next prot_write) a (s.page r).address prot_none ne
            ∙ update_ne s.protection s.next (s.page r).address prot_write
                (omega (arith, (v.page_below r old).1))
            ∙ w l gs.1
      ]

  -- And it changes no byte of any storage.
  pub byte_of-copied : (u a : ℕ) → HasSlot s u (a / s.page_size) → byte_of s1 u a ≡ byte_of s u a
  byte_of-copied u a g =
      let l : ℕ = a / s.page_size in
      let g1 : HasSlot s1 u l = (g.0, subst (λ z. l < z) (sym (page_num-copied u)) g.1) in
      elim (slots u l g1) [
        | inl (tu, kl, e) ↦
            let own : (s.storages t).pages k ≡ (s.storages u).pages l =
              ap (λ z. (s.storages z).pages k) tu ∙ ap (s.storages u).pages kl in
            ap (λ z. s1.memory (s1.page z).address (a % s.page_size)) e
            ∙ ap (λ z. s1.memory z.address (a % s.page_size)) page_new
            ∙ ap (λ m. m (a % s.page_size))
                (update_self s.memory s.next (s.memory (s.page p).address))
            ∙ ap (λ z. s.memory (s.page z).address (a % s.page_size)) own
        | inr (e, _) ↦
            let r : ℕ = (s.storages u).pages l in
            let old : s.live_page r ≡ true = v.has_page u l g in
            ap (λ z. s1.memory (s1.page z).address (a % s.page_size)) e
            ∙ ap (λ z. s1.memory z (a % s.page_size)) (address_old r old)
            ∙ ap (λ m. m (a % s.page_size))
                (update_ne s.memory s.next (s.page r).address (s.memory (s.page p).address)
                  (omega (arith, (v.page_below r old).1)))
      ]

  pub copy-Isolates :
      (index c : ℕ)
      → index / s.page_size ≡ k
      → Isolates s (put_byte s.next (index % s.page_size) c s1) t index c
  copy-Isolates index c e =
      let own : (s1.storages t).pages (index / s.page_size) ≡ s.next =
        ap (s1.storages t).pages e ∙ pages-copied t k ∙ rw (==-refl t, ==-refl k) in
      let g1 : HasSlot s1 t (index / s.page_size) =
        (h.0, omega (arith, h.1, e, page_num-copied t)) in
      let few : (s1.page ((s1.storages t).pages (index / s.page_size))).ref_count ≤ 1 =
        (let one : (s1.page ((s1.storages t).pages (index / s.page_size))).ref_count ≡ 1 =
            ap (λ z. (s1.page z).ref_count) own ∙ ap (λ z. z.ref_count) page_new in
          omega (arith, one)) in
      let i = put-Isolates s1 t index c copied-IsShared g1 few in
      subst (λ z. Isolates s (put_byte z (index % s.page_size) c s1) t index c) own
        (record {
          valid = i.valid;
          page_size = refl;
          maps = refl;
          live = refl;
          same_table = record { items = refl; table = refl; live_item = refl; grows = omega arith };
          sizes = size-copied;
          page_num = page_num-copied;
          written = i.written;
          others = λ u a g d.
              i.others u a (g.0, subst (λ z. a / s.page_size < z) (sym (page_num-copied u)) g.1) d
              ∙ byte_of-copied u a g;
        })
