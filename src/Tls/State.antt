-- ===== src/Tls/State.antt =====
-- The data of tls.c: pages, storages, the items of the hash table, and the memory that mmap gives.
use ec.Base.{ℕ, Bool, true, false, Option, update}

-- `HASH`
abbrev pub table_size : ℕ
table_size = 23

-- `Page`. The address is the number of the mapping that begins there.
pub record Page : Type 0 where
  pub address : ℕ
  pub ref_count : ℕ

-- `ThreadLocalStorage`
pub record Storage : Type 0 where
  pub size : ℕ
  pub page_num : ℕ
  pub pages : ℕ → ℕ

-- `Item`
pub record Item : Type 0 where
  pub tid : ℕ
  pub tls : ℕ
  pub next : Option ℕ

-- What `mprotect` last allowed.
pub data Protection : Type 0 where
  prot_none : Protection
  prot_read : Protection
  prot_write : Protection

-- Whether memory with this protection can be read, and written; on x86-64 writable memory can be read.
abbrev pub can_read : Protection → Bool
can_read prot_none = false
can_read prot_read = true
can_read prot_write = true

abbrev pub can_write : Protection → Bool
can_write prot_none = false
can_write prot_read = false
can_write prot_write = true

-- The table, and the heap of items, storages and pages: each block has a number, and is live from malloc
-- to free. A mapping has its bytes and its protection. `next` is the number of the next block or mapping,
-- and `maps` tells whether the host gives a mapping of that number.
pub record Tls : Type 0 where
  pub is_first_call : Bool
  pub host_page_size : ℕ
  pub page_size : ℕ
  pub table : ℕ → Option ℕ
  pub items : ℕ → Item
  pub live_item : ℕ → Bool
  pub storages : ℕ → Storage
  pub live_storage : ℕ → Bool
  pub page : ℕ → Page
  pub live_page : ℕ → Bool
  pub memory : ℕ → ℕ → ℕ
  pub protection : ℕ → Protection
  pub mapped : ℕ → Bool
  pub maps : ℕ → Bool
  pub next : ℕ

-- How a call ends: it returns, it accesses a block that is not live or memory that is not mapped, the
-- process exits, or its loop has used up its fuel.
pub data Result (A : Type 0) : Type 0 where
  returns : A → Tls → Result A
  fault : Result A
  exits : Result A
  out_of_fuel : Result A

abbrev pub set_item : Tls → ℕ → Item → Tls
set_item s i x = record s { items = update s.items i x }

abbrev pub set_storage : Tls → ℕ → Storage → Tls
set_storage s t x = record s { storages = update s.storages t x }

abbrev pub set_page : Tls → ℕ → Page → Tls
set_page s p x = record s { page = update s.page p x }

-- What follows a part of a call that may end it.
abbrev pub bind : {A B : Type 0} → Result A → (A → Tls → Result B) → Result B
bind (returns x s) f = f x s
bind fault f = fault
bind exits f = exits
bind out_of_fuel f = out_of_fuel
