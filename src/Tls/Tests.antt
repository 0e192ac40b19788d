-- ===== src/Tls/Tests.antt =====
-- The theorems about thread local storage at two threads that share a page, and runs of the code.
use ec.Base.{List, [], ◌∷◌, ◌⊎◌, inl, inr, Bool-cases}
use ec.Base.Blocks.{contains}
use ec.Tls.State.{exits}
use ec.Tls.CreateShared.{tls_create-IsShared}
use ec.Tls.CloneShared.{IsClone, tls_clone-IsShared}
use ec.Tls.PageFault.{handle_page_fault}
use ec.Tls.Handler.{IsTable, Maps, NoneMaps, handle_page_fault-Maps}
use ec.Base.{
  ℕ, ◌+◌, ◌^◌, ◌≤◌, ◌<◌, ◌≡◌, refl, sym, subst, true, false, none, some, ◌==◌, if◌then◌else◌,
  update, arith,
}
use ec.Base.Int.{pos}
use ec.Tls.State.{prot_none, Tls, returns, fault}
use ec.Tls.Table.{find, find_from, remove, remove_at, remove_from}
use ec.Tls.Life.{tls_destroy, destroy_item, drop_pages, drop_page}
use ec.Tls.Destroy.{tls_write-tls_destroy}
use ec.Tls.Storage.{tls_write, tls_read}
use ec.Tls.Shares.{shares}
use ec.Tls.Isolation.{byte_of, IsShared}
use ec.Tls.Write.{Wrote}
use ec.Tls.Access.{Has, tls_write-Wrote}
use ec.Tls.ReadBack.{tls_read-tls_write, tls_read-tls_write_other}
use ec.Tls.State.{set_page, set_storage}
use ec.Tls.Table.{add}
use ec.Tls.Life.{
  new_page, create_pages, new_storage, new_item, create_for, tls_create, share_pages, clone_item,
  tls_clone,
}

-- The threads 1 and 2 have the items 3 and 4 and the storages 1 and 2 of 100 bytes, which share the page 0.
abbrev two_threads : Tls
two_threads = record {
  is_first_call = false;
  host_page_size = 4096;
  page_size = 4096;
  table = λ i. if i == 1 then some 3 else if i == 2 then some 4 else none;
  items = λ i. record { tid = if i == 3 then 1 else 2; tls = if i == 3 then 1 else 2; next = none };
  live_item = λ i. if i == 3 then true else if i == 4 then true else false;
  storages = λ t. record { size = 100; page_num = 1; pages = λ k. 0 };
  live_storage = λ t. if t == 1 then true else if t == 2 then true else false;
  page = λ p. record { address = 0; ref_count = 2 };
  live_page = λ p. if p == 0 then true else false;
  memory = λ m a. a;
  protection = λ m. prot_none;
  mapped = λ m. true;
  maps = λ m. true;
  next = 5;
}

two_share : shares two_threads.storages two_threads.live_storage 0 0 5 ≡ 2
unfolding shares
two_share = refl

two_threads-IsShared : IsShared two_threads
two_threads-IsShared = record {
  below = λ t l. ground arith;
  page_below = λ p l. (ground arith, omega arith);
  apart = λ p q lp lq e. ground arith;
  mapped = λ p l. refl;
  has_page = λ t k h. refl;
  one_slot = λ t u k l h g e. omega (arith, h.1, g.1);
  counted = λ t k h.
      let z : k ≡ 0 = omega (arith, h.1) in
      subst (λ k. 2 ≡ shares two_threads.storages two_threads.live_storage k 0 5) (sym z)
        (sym two_share);
}

one_Has : Has two_threads 1 1 100
unfolding find find_from
one_Has = record {
  item = 3;
  found = refl;
  its = refl;
  is_live = refl;
  has_size = refl;
  slots = λ a l. omega arith;
}

two_Has : Has two_threads 2 2 100
unfolding find find_from
two_Has = record {
  item = 4;
  found = refl;
  its = refl;
  is_live = refl;
  has_size = refl;
  slots = λ a l. omega arith;
}

abbrev sevens : ℕ → ℕ
sevens k = 7

fits : 10 + 4 ≤ 100
fits = omega arith

small : 100 < 2 ^ 32
small = omega arith

tls_read-tls_write_other_example :
    (s' : Tls) × (out : ℕ → ℕ) × (s2 : Tls) × (tls_write 1 10 4 sevens two_threads
      ≡ returns (pos 0) s')
    × (tls_read 2 10 4 sevens s' ≡ returns (pos 0, out) s2)
    × ((j : ℕ) → j < 4 → out j ≡ byte_of two_threads 2 (10 + j))
tls_read-tls_write_other_example =
    tls_read-tls_write_other 1 1 100 10 4 2 2 100 10 4 sevens sevens two_threads
      two_threads-IsShared one_Has fits small (omega arith) (λ q. refl) two_Has
      (λ e. omega (arith, e)) fits small (omega arith)

tls_write-Wrote_example :
    (s' : Tls) × (tls_write 1 10 4 sevens two_threads ≡ returns (pos 0) s')
    × Wrote two_threads s' 4 1 0 10 sevens
tls_write-Wrote_example =
    tls_write-Wrote 1 1 100 10 4 sevens two_threads two_threads-IsShared one_Has fits small
      (omega arith) (λ q. refl)

abbrev after_destroy : Tls
after_destroy = record two_threads {
  page = update two_threads.page 0 (record { address = 0; ref_count = 1 });
  live_storage = update two_threads.live_storage 1 false;
  live_item = update two_threads.live_item 3 false;
}

destroys : tls_destroy 1 two_threads ≡ returns (pos 0) after_destroy
unfolding tls_destroy remove remove_at remove_from destroy_item drop_pages drop_page
destroys = refl

tls_write-tls_destroy_example :
    (find 1 after_destroy ≡ fault) × (tls_write 1 0 4 sevens after_destroy ≡ fault)
tls_write-tls_destroy_example =
    tls_write-tls_destroy 1 0 4 sevens two_threads after_destroy destroys

abbrev after_create : Tls
after_create = add 5 7 (new_item 5 5 (new_page 5 0 (new_storage 100 1 (λ k. 0) two_threads)))

creates_five : tls_create 5 100 two_threads ≡ returns (pos 0) after_create
unfolding tls_create create_for create_pages find find_from add
creates_five = refl

no_five : find 5 two_threads ≡ returns none two_threads
unfolding find find_from
no_five = refl

abbrev cloned : Tls
cloned = new_storage 100 1 (λ k. 0) (new_item 5 6 two_threads)

abbrev after_clone : Tls
after_clone = add 5 5 (
    set_page
      (set_storage cloned 6
        (record (cloned.storages 6) { pages = update (cloned.storages 6).pages 0 0 }))
      0 (record { address = 0; ref_count = 3 }))

clones_one : tls_clone 5 1 two_threads ≡ returns (pos 0) after_clone
unfolding tls_clone clone_item share_pages find find_from add
clones_one = refl

-- Items 3 and 4 stand in the buckets 1 and 2.
abbrev two_lists : ℕ → List ℕ
two_lists b = if b == 1 then 3 ∷ [] else if b == 2 then 4 ∷ [] else []

two_lists-IsTable : IsTable two_threads two_lists
two_lists-IsTable b h = elim (Bool-cases (b == 1)) [
  | inl e ↦ rw e ((refl, refl, refl, refl), omega arith)
  | inr e ↦ elim (Bool-cases (b == 2)) [
    | inl f ↦ rw (e, f) ((refl, refl, refl, refl), omega arith)
    | inr f ↦ rw (e, f) (refl, omega arith)
  ]
]

handle_page_fault-Maps_example :
    ((handle_page_fault 7 two_threads ≡ exits)
      × (c : ℕ) × (i : ℕ) × (c < 23)
      × (contains (two_lists c) i ≡ true)
      × Maps two_threads 7 i)
    ⊎ ((handle_page_fault 7 two_threads ≡ returns tt two_threads)
        × ((c : ℕ) → c < 23 → NoneMaps two_threads 7 (two_lists c)))
handle_page_fault-Maps_example =
    handle_page_fault-Maps two_threads 7 two_lists two_threads-IsShared two_lists-IsTable

tls_create-IsShared_example :
    (s' : Tls) × (tls_create 5 100 two_threads ≡ returns (pos 0) s') × IsShared s' × Has s' 5 5 100
tls_create-IsShared_example =
    tls_create-IsShared 5 100 two_threads two_threads-IsShared no_five (λ q. refl)
      (λ e. omega (arith, e)) (λ e. omega (arith, e))

tls_clone-IsShared_example :
    (s' : Tls) × (tls_clone 5 1 two_threads ≡ returns (pos 0) s')
    × IsShared s'
    × Has s' 5 6 100
    × IsClone two_threads s' 6 1 100
tls_clone-IsShared_example =
    tls_clone-IsShared 5 1 1 100 two_threads two_threads-IsShared no_five one_Has

tls_read-tls_write_example :
    (s' : Tls) × (out : ℕ → ℕ) × (s2 : Tls) × (tls_write 1 10 4 sevens two_threads
      ≡ returns (pos 0) s')
    × (tls_read 1 10 4 sevens s' ≡ returns (pos 0, out) s2)
    × ((j : ℕ) → j < 4 → out j ≡ sevens j)
tls_read-tls_write_example =
    tls_read-tls_write 1 1 100 10 4 sevens sevens two_threads two_threads-IsShared one_Has fits
      small (omega arith) (λ q. refl)
