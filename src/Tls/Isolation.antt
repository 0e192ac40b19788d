-- ===== src/Tls/Isolation.antt =====
-- tls_write of tls.c on storages that share pages: a write is seen by its own storage only.
use ec.Base.{
  ℕ, ◌+◌, ◌*◌, ◌/◌, ◌%◌, ◌≤◌, ◌<◌, ◌≡◌, ◌≢◌, ◌⊎◌, refl, sym, ◌∙◌, ap, subst, inl, inr, true, false,
  ◌==◌, update, Bool-cases, ==→≡, ==→≢, ==-refl, ≢→==, arith,
}
use native.Mathlib.Nat.{div-add-mod'}
use ec.Tls.State.{Protection, Tls}
use ec.Tls.Storage.{put_byte}
use ec.Tls.Shares.{shares, shares_at, shares-two}

-- The byte at an offset of a storage.
abbrev pub byte_of : Tls → ℕ → ℕ → ℕ
byte_of s t a = s.memory (s.page ((s.storages t).pages (a / s.page_size))).address (a % s.page_size)

-- The storage `t` is live and has the slot `k`.
abbrev pub HasSlot : Tls → ℕ → ℕ → Type 0
HasSlot s t k = (s.live_storage t ≡ true) × (k < (s.storages t).page_num)

-- The pages of the storage `t` have this protection.
abbrev pub AllAt : Protection → Tls → ℕ → Type 0
AllAt prot s t =
    (k : ℕ)
    → k < (s.storages t).page_num
    → s.protection (s.page ((s.storages t).pages k)).address ≡ prot

-- The pages of the live storages are live, have mappings of their own, and count the storages that share
-- them, each in the same slot.
pub record IsShared (s : Tls) : Type 0 where
  pub below : (t : ℕ) → s.live_storage t ≡ true → t < s.next
  pub page_below : (p : ℕ) → s.live_page p ≡ true → (p < s.next) × ((s.page p).address < s.next)
  pub apart :
      (p q : ℕ)
      → s.live_page p ≡ true
      → s.live_page q ≡ true
      → (s.page p).address ≡ (s.page q).address
      → p ≡ q
  pub mapped : (p : ℕ) → s.live_page p ≡ true → s.mapped (s.page p).address ≡ true
  pub has_page : (t k : ℕ) → HasSlot s t k → s.live_page ((s.storages t).pages k) ≡ true
  pub one_slot :
      (t u k l : ℕ)
      → HasSlot s t k
      → HasSlot s u l
      → (s.storages t).pages k ≡ (s.storages u).pages l
      → k ≡ l
  pub counted :
      (t k : ℕ)
      → HasSlot s t k
      → (s.page ((s.storages t).pages k)).ref_count
        ≡ shares s.storages s.live_storage k ((s.storages t).pages k) s.next

-- The table of items is the same in both, and no block's number is given again.
pub record SameTable (s s' : Tls) : Type 0 where
  pub items : s'.items ≡ s.items
  pub table : s'.table ≡ s.table
  pub live_item : s'.live_item ≡ s.live_item
  pub grows : s.next ≤ s'.next

-- What the write of a byte leaves.
pub record Isolates (s s' : Tls) (t index c : ℕ) : Type 0 where
  pub valid : IsShared s'
  pub page_size : s'.page_size ≡ s.page_size
  pub maps : s'.maps ≡ s.maps
  pub live : s'.live_storage ≡ s.live_storage
  pub same_table : SameTable s s'
  pub sizes : (u : ℕ) → (s'.storages u).size ≡ (s.storages u).size
  pub page_num : (u : ℕ) → (s'.storages u).page_num ≡ (s.storages u).page_num
  pub written : byte_of s' t index ≡ c
  pub others :
      (u a : ℕ)
      → HasSlot s u (a / s.page_size)
      → (u ≢ t) ⊎ (a ≢ index)
      → byte_of s' u a ≡ byte_of s u a

pub slot_share :
    (s : Tls) (t k : ℕ)
    → HasSlot s t k
    → shares_at (s.live_storage t) (s.storages t) k ((s.storages t).pages k) ≡ 1
slot_share s t k h = ground (arith, h.0, h.1, ==-refl ((s.storages t).pages k))

elsewhere :
    (memory : ℕ → ℕ → ℕ) (m n a b c : ℕ)
    → (m ≢ n) ⊎ (a ≢ b)
    → update memory m (update (memory m) a c) n b ≡ memory n b
elsewhere memory m n a b c (inl h) = rw (≢→== m n h)
elsewhere memory m n a b c (inr h) = elim (Bool-cases (m == n)) [
  | inl e ↦ rw (==→≡ m n e, ==-refl n, ≢→== a b h)
  | inr e ↦ rw e
]

same_offset : (d a b : ℕ) → a / d ≡ b / d → a % d ≡ b % d → a ≡ b
same_offset d a b h g =
    sym (div-add-mod' a d)
    ∙ ap (λ z. z * d + a % d) h
    ∙ ap (λ z. b / d * d + z) g
    ∙ div-add-mod' b d

-- Two storages with one page in a slot share it.
shared_twice :
    (s : Tls) (t u k l : ℕ)
    → IsShared s
    → HasSlot s t k
    → HasSlot s u l
    → (s.storages u).pages l ≡ (s.storages t).pages k
    → u ≢ t
    → 2 ≤ (s.page ((s.storages t).pages k)).ref_count
shared_twice s t u k l v ht hu e ne =
    let same : l ≡ k = v.one_slot u t l k hu ht e in
    let p : ℕ = (s.storages t).pages k in
    let hu' : HasSlot s u k = subst (λ z. HasSlot s u z) same hu in
    let e' : (s.storages u).pages k ≡ p = sym (ap (s.storages u).pages same) ∙ e in
    let one : shares_at (s.live_storage t) (s.storages t) k p ≡ 1 = slot_share s t k ht in
    let two : shares_at (s.live_storage u) (s.storages u) k p ≡ 1 =
      subst (λ z. shares_at (s.live_storage u) (s.storages u) k z ≡ 1) e' (slot_share s u k hu') in
    omega (
      arith,
      v.counted t k ht,
      one,
      two,
      shares-two s.storages s.live_storage k p u t s.next (v.below u hu.0) (v.below t ht.0) ne,
    )

-- The write of a byte to a page that is not shared.
pub put-Isolates :
    (s : Tls) (t index c : ℕ)
    → IsShared s
    → HasSlot s t (index / s.page_size)
    → (s.page ((s.storages t).pages (index / s.page_size))).ref_count ≤ 1
    → Isolates s
        (put_byte ((s.storages t).pages (index / s.page_size)) (index % s.page_size) c s)
        t
        index
        c
put-Isolates s t index c v h one =
    let k : ℕ = index / s.page_size in
    let p : ℕ = (s.storages t).pages k in
    record {
      valid = record {
        below = v.below;
        page_below = v.page_below;
        apart = v.apart;
        mapped = v.mapped;
        has_page = v.has_page;
        one_slot = v.one_slot;
        counted = v.counted;
      };
      page_size = refl;
      maps = refl;
      live = refl;
      same_table = record { items = refl; table = refl; live_item = refl; grows = omega arith };
      sizes = λ u. refl;
      page_num = λ u. refl;
      written = ground arith;
      others = λ u a g d.
          let q : ℕ = (s.storages u).pages (a / s.page_size) in
          elsewhere s.memory (s.page p).address (s.page q).address (index % s.page_size)
            (a % s.page_size) c (apart u a g d (Bool-cases (q == p)) (Bool-cases (u == t)));
    }
  where
    apart :
        (u a : ℕ)
        → HasSlot s u (a / s.page_size)
        → (u ≢ t) ⊎ (a ≢ index)
        → (((s.storages u).pages (a / s.page_size) == (s.storages t).pages (index / s.page_size))
            ≡ true)
          ⊎ (((s.storages u).pages (a / s.page_size) == (s.storages t).pages (index / s.page_size))
              ≡ false)
        → ((u == t) ≡ true) ⊎ ((u == t) ≡ false)
        → ((s.page ((s.storages t).pages (index / s.page_size))).address
            ≢ (s.page ((s.storages u).pages (a / s.page_size))).address)
          ⊎ (index % s.page_size ≢ a % s.page_size)
    apart u a g d (inr e) w = inl (λ same. ==→≢ _ _ e (
        sym (
          v.apart _ _ (v.has_page t (index / s.page_size) h) (v.has_page u (a / s.page_size) g)
            same)))
    apart u a g (inl ne) (inl e) (inl f) = absurd (ne (==→≡ u t f))
    apart u a g (inr ne) (inl e) (inl f) = inr (λ same.
        ne (same_offset s.page_size a index (v.one_slot u t _ _ g h (==→≡ _ _ e)) (sym same)))
    apart u a g d (inl e) (inr f) = absurd (
        omega (
          arith,
          one,
          shared_twice s t u (index / s.page_size) (a / s.page_size) v h g (==→≡ _ _ e)
              (==→≢ u t f),
        ))
