-- ===== src/Tls/Life.antt =====
-- tls_create, tls_destroy and tls_clone of tls.c.
use ec.Base.{
  ℕ, zero, suc, ◌+◌, ◌-◌, ◌/◌, ◌%◌, Bool, true, false, not, Option, none, some, ◌==◌, if◌then◌else◌,
  update,
}
use ec.Base.Int.{ℤ, pos, minus_one}
use ec.Tls.State.{prot_none, Tls, Result, returns, fault, bind, set_item, set_storage, set_page}
use ec.Tls.Table.{find, add, remove}

-- A new page for the slot `k` of the storage `t`.
abbrev pub new_page : ℕ → ℕ → Tls → Tls
new_page t k s =
    let q = s.next in
    record s {
      page = update s.page q (record { address = q; ref_count = 1 });
      live_page = update s.live_page q true;
      storages =
          update s.storages t (record (s.storages t) { pages = update (s.storages t).pages k q });
      memory = update s.memory q (λ a. 0);
      mapped = update s.mapped q true;
      protection = update s.protection q prot_none;
      next = q + 1;
    }

-- The loop of `tls_create`; `false` when a mapping fails.
unfoldable pub create_pages : ℕ → ℕ → ℕ → Tls → Result Bool
create_pages k zero t s = returns true s
create_pages k (suc n) t s =
    if s.maps s.next then create_pages (k + 1) n t (new_page t k s) else returns false s

-- A new storage, and a new item of the thread for it.
abbrev pub new_storage : ℕ → ℕ → (ℕ → ℕ) → Tls → Tls
new_storage size page_num pages s =
    record (set_storage s s.next (record { size = size; page_num = page_num; pages = pages })) {
      live_storage = update s.live_storage s.next true;
      next = s.next + 1;
    }

abbrev pub new_item : ℕ → ℕ → Tls → Tls
new_item tid t s = record (set_item s s.next (record { tid = tid; tls = t; next = none })) {
  live_item = update s.live_item s.next true;
  next = s.next + 1;
}

-- `tls_init`, on the first call.
abbrev pub tls_init : Tls → Tls
tls_init s =
    if s.is_first_call then record s { is_first_call = false; page_size = s.host_page_size } else s

unfoldable pub create_for : ℕ → ℕ → Tls → Option ℕ → Result ℤ
create_for tid size s (some i) = returns minus_one s
create_for tid size s none =
    let n = size / s.page_size + (if size % s.page_size == 0 then 0 else 1) in
    let t = s.next in
    bind (create_pages 0 n t (new_storage size n (λ k. 0) s)) (λ ok s1.
      if ok then returns (pos 0) (add tid s1.next (new_item tid t s1)) else returns minus_one s1)

unfoldable pub tls_create : ℕ → ℕ → Tls → Result ℤ
tls_create tid size s =
    if size == 0
    then returns minus_one (tls_init s)
    else bind (find tid (tls_init s)) (λ e s'. create_for tid size s' e)

-- One round of the loop of `tls_destroy`.
unfoldable pub drop_page : ℕ → Tls → Result Unit
drop_page p s =
    if not (s.live_page p)
    then fault
    else if (s.page p).ref_count == 1
    then returns tt (record s {
      mapped = update s.mapped (s.page p).address false;
      live_page = update s.live_page p false;
    })
    else returns tt (set_page s p (record (s.page p) { ref_count = (s.page p).ref_count - 1 }))

unfoldable pub drop_pages : ℕ → ℕ → ℕ → Tls → Result Unit
drop_pages k zero t s = returns tt s
drop_pages k (suc n) t s = bind (drop_page ((s.storages t).pages k) s) (λ _. drop_pages (k + 1) n t)

unfoldable pub destroy_item : Tls → Option ℕ → Result ℤ
destroy_item s none = returns minus_one s
destroy_item s (some i) =
    let t = (s.items i).tls in
    if s.live_storage t
    then bind (drop_pages 0 (s.storages t).page_num t s) (λ _ s1. returns (pos 0) (record s1 {
      live_storage = update s1.live_storage t false;
      live_item = update s1.live_item i false;
    }))
    else fault

unfoldable pub tls_destroy : ℕ → Tls → Result ℤ
tls_destroy tid s = bind (remove tid s) (λ e s'. destroy_item s' e)

-- The loop of `tls_clone`: the storage `c` shares the pages of `t`.
unfoldable pub share_pages : ℕ → ℕ → ℕ → ℕ → Tls → Result Unit
share_pages k zero c t s = returns tt s
share_pages k (suc n) c t s =
    let p = (s.storages t).pages k in
    let s1 = set_storage s c (record (s.storages c) { pages = update (s.storages c).pages k p }) in
    let rest =
      share_pages (k + 1) n c t
        (set_page s1 p (record (s.page p) { ref_count = (s.page p).ref_count + 1 })) in
    if s.live_page p then rest else fault

unfoldable pub clone_item : ℕ → Tls → Option ℕ → Option ℕ → Result ℤ
clone_item tid s (some i) target = returns minus_one s
clone_item tid s none none = returns minus_one s
clone_item tid s none (some i) =
    let t = (s.items i).tls in
    let e = s.next in
    let s1 = new_item tid (e + 1) s in
    let s2 = new_storage (s.storages t).size (s.storages t).page_num (λ k. 0) s1 in
    if s.live_storage t
    then bind (share_pages 0 (s.storages t).page_num (e + 1) t s2)
        (λ _ s3. returns (pos 0) (add tid e s3))
    else fault

unfoldable pub tls_clone : ℕ → ℕ → Tls → Result ℤ
tls_clone tid target s =
    bind (find tid s) (λ clone s1. bind (find target s1) (λ item s2. clone_item tid s2 clone item))
