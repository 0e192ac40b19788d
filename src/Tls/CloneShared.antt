-- ===== src/Tls/CloneShared.antt =====
-- tls_clone of tls.c: the new storage shares every page, and the storages stay valid.
use ec.Base.{
  ℕ, ◌+◌, ◌/◌, ◌%◌, ◌≤◌, ◌<◌, ◌≡◌, ◌≢◌, sym, ◌∙◌, ap, subst, true, false, none, some, ◌==◌,
  update_self, ==-refl, ≢→==, arith,
}
use ec.Base.Int.{pos}
use ec.Tls.State.{Tls, returns, bind}
use ec.Tls.Table.{find, add}
use ec.Tls.Life.{new_storage, new_item, clone_item, tls_clone}
use ec.Tls.Isolation.{byte_of, IsShared}
use ec.Tls.CreateShared.{empty-IsShared, new_item-IsShared, add-IsShared, trim-full}
use ec.Tls.Create.{find-add}
use ec.Tls.Access.{Has}
use ec.Tls.CloneLoop.{Shares, share_pages-trim}

-- The storage `c` is a clone of `t`, which is as before: it has the same pages and the same bytes.
pub record IsClone (s s' : Tls) (c t size : ℕ) : Type 0 where
  pub target : s'.storages t ≡ s.storages t
  pub page_num : (s'.storages c).page_num ≡ (s.storages t).page_num
  pub pages :
      (l : ℕ) → l < (s.storages t).page_num → (s'.storages c).pages l ≡ (s.storages t).pages l
  pub bytes : (a : ℕ) → a < size → byte_of s' c a ≡ byte_of s t a

-- The state in which the loop begins.
abbrev prepared : ℕ → ℕ → Tls → Tls
prepared tid t s =
    new_storage (s.storages t).size (s.storages t).page_num (λ k. 0) (new_item tid (s.next + 1) s)

Shares-IsClone :
    (s s' : Tls) (tid t size : ℕ)
    → s.next + 1 ≢ t
    → ((a : ℕ) → a < size → a / s.page_size < (s.storages t).page_num)
    → Shares (prepared tid t s) s' 0 (s.storages t).page_num (s.next + 1) t
    → IsClone s s' (s.next + 1) t size
Shares-IsClone s s' tid t size ne slots g =
    let c : ℕ = s.next + 1 in
    let old : (prepared tid t s).storages t ≡ s.storages t = rw (≢→== c t ne) in
    let filled : (l : ℕ)
        → l < (s.storages t).page_num
        → (s'.storages c).pages l ≡ (s.storages t).pages l =
      λ l h. g.filled l (omega arith) (omega arith) ∙ ap (λ z. z.pages l) old in
    record {
      target = g.target ∙ old;
      page_num = g.page_num ∙ rw (==-refl c);
      pages = filled;
      bytes = λ a h.
          ap (λ z. s'.memory (s'.page ((s'.storages c).pages (a / z))).address (a % z)) g.page_size
          ∙ ap (λ z. s'.memory (s'.page z).address (a % s.page_size))
              (filled (a / s.page_size) (slots a h))
          ∙ ap (λ z. s'.memory z (a % s.page_size)) (g.address _)
          ∙ ap (λ z. z (s.page ((s.storages t).pages (a / s.page_size))).address (a % s.page_size))
              g.memory;
    }

Shares-Has :
    (s s' : Tls) (tid t size : ℕ)
    → ((a : ℕ) → a < size → a / s.page_size < (s.storages t).page_num)
    → (s.storages t).size ≡ size
    → Shares (prepared tid t s) s' 0 (s.storages t).page_num (s.next + 1) t
    → Has (add tid s.next s') tid (s.next + 1) size
unfolding add
Shares-Has s s' tid t size slots z g =
    let c : ℕ = s.next + 1 in
    let item : s'.items s.next ≡ record { tid = tid; tls = c; next = none } =
      ap (λ z. z s.next) g.items ∙ update_self s.items s.next _ in
    let its : (s'.items s.next).tls ≡ c = ap (λ z. z.tls) item in
    let num : (s'.storages c).page_num ≡ (s.storages t).page_num = g.page_num ∙ rw (==-refl c) in
    record {
      item = s.next;
      found =
          find-add tid s.next s'
            (ap (λ z. z s.next) g.live_item ∙ update_self s.live_item s.next true)
            (ap (λ z. z.tid) item);
      its = ground (arith, ==-refl s.next, its);
      is_live = ap (λ z. z c) g.live_storage ∙ rw (==-refl c);
      has_size = g.size ∙ rw (==-refl c) z;
      slots = λ a h. omega (arith, slots a h, num, ap (λ z. a / z) g.page_size);
    }

IsClone-add :
    (s s' : Tls) (tid i c t size : ℕ) → IsClone s s' c t size → IsClone s (add tid i s') c t size
unfolding add
IsClone-add s s' tid i c t size q = record {
  target = q.target;
  page_num = q.page_num;
  pages = q.pages;
  bytes = q.bytes;
}

clone_item-IsShared :
    (tid i size : ℕ) (s : Tls)
    → IsShared s
    → s.live_storage (s.items i).tls ≡ true
    → (s.storages (s.items i).tls).size ≡ size
    → ((a : ℕ) → a < size → a / s.page_size < (s.storages (s.items i).tls).page_num)
    → (s' : Tls) × (clone_item tid s none (some i) ≡ returns (pos 0) s')
      × IsShared s'
      × Has s' tid (s.next + 1) size
      × IsClone s s' (s.next + 1) (s.items i).tls size
unfolding clone_item
clone_item-IsShared tid i size s v l z slots =
    let t = (s.items i).tls in
    let e = s.next in
    let c = e + 1 in
    let n = (s.storages t).page_num in
    let s1 = new_item tid c s in
    let s2 = new_storage (s.storages t).size n (λ k. 0) s1 in
    let below : t < s.next = v.below t l in
    let ne : c ≢ t = (λ q. omega (arith, q, below)) in
    let off : (c == t) ≡ false = ≢→== c t ne in
    let live_c : s2.live_storage c ≡ true = rw (==-refl c) in
    let live_t : s2.live_storage t ≡ true = rw off l in
    let kept : s2.storages t ≡ s.storages t = rw off in
    let (s3, f, w, g) =
      share_pages-trim n 0 c t s2 ne live_c live_t
        (subst (λ z. 0 + n ≤ z.page_num) (sym kept) (omega arith))
        (empty-IsShared s1 (new_item-IsShared tid c s v) (s.storages t).size n) in
    let count : (s3.storages c).page_num ≡ 0 + n = g.page_num ∙ rw (==-refl c) (omega arith) in
    let w1 : IsShared s3 = subst IsShared (trim-full c (0 + n) s3 count) w in
    (
      add tid e s3,
      rw l (ap (λ r. bind r (λ _ s3. returns (pos 0) (add tid e s3))) f),
      add-IsShared tid e s3 w1,
      Shares-Has s s3 tid t size slots z g,
      IsClone-add s s3 tid e c t size (Shares-IsClone s s3 tid t size ne slots g),
    )

-- On storages whose live pages have mappings of their own and count the storages that share them, each in the
-- same slot: `tls_clone` of a thread without a storage, from a thread that has one, returns 0. The thread then
-- has an item with a new storage of the same size, which has the page of the other in every slot, and each of
-- its bytes; the other storage is as before, and the storages are still such.
pub tls_clone-IsShared :
    (tid target t size : ℕ) (s : Tls)
    → IsShared s
    → find tid s ≡ returns none s
    → Has s target t size
    → (s' : Tls) × (tls_clone tid target s ≡ returns (pos 0) s')
      × IsShared s'
      × Has s' tid (s.next + 1) size
      × IsClone s s' (s.next + 1) t size
tls_clone-IsShared tid target t size s v none_yet o =
    let same : t ≡ (s.items o.item).tls = sym o.its in
    let (s', f, w, h, c) =
      clone_item-IsShared tid o.item size s v (ap s.live_storage o.its ∙ o.is_live)
        (ap (λ z. (s.storages z).size) o.its ∙ o.has_size)
        (λ a l. subst (λ z. a / s.page_size < (s.storages z).page_num) same (o.slots a l)) in
    let whole : tls_clone tid target s ≡ returns (pos 0) s' = unfolded s' f in
    (s', whole, w, h, subst (λ z. IsClone s s' (s.next + 1) z size) o.its c)
  where
    unfolded :
        (s' : Tls)
        → clone_item tid s none (some o.item) ≡ returns (pos 0) s'
        → tls_clone tid target s ≡ returns (pos 0) s'
    unfolded s' f =
        unfold tls_clone in
        ap (λ r. bind r (λ x s1. bind (find target s1) (λ y s2. clone_item tid s2 x y))) none_yet
        ∙ ap (λ r. bind r (λ y s2. clone_item tid s2 none y)) o.found
        ∙ f
