-- ===== src/Tls/Storage.antt =====
-- tls_read and tls_write of tls.c, with the protection of pages.
use ec.Base.{
  ℕ, zero, suc, ◌+◌, ◌-◌, ◌/◌, ◌%◌, ◌^◌, Bool, true, not, ◌&&◌, ◌||◌, Option, none, some, ltb,
  if◌then◌else◌, update,
}
use ec.Base.Int.{ℤ, pos, minus_one}
use ec.Tls.State.{
  Protection, prot_none, prot_read, prot_write, can_read, can_write, Tls, Result, returns, fault,
  exits, bind,
}
use ec.Tls.Table.{find}

-- `mprotect` of a page's mapping. It fails on memory that is not mapped, and the process exits.
unfoldable pub protect_page : ℕ → Protection → Tls → Result Unit
protect_page p prot s =
    if not (s.live_page p)
    then fault
    else if s.mapped (s.page p).address
    then returns tt (record s { protection = update s.protection (s.page p).address prot })
    else exits

-- The loops that call tls_protect or tls_unprotect for the pages of a storage, from the `k`th on.
unfoldable pub protect_pages : ℕ → ℕ → ℕ → Protection → Tls → Result Unit
protect_pages k zero t prot s = returns tt s
protect_pages k (suc n) t prot s =
    bind (protect_page ((s.storages t).pages k) prot s) (λ _. protect_pages (k + 1) n t prot)

-- The page `p` of slot `k` of the storage `t` is copied to a new one, which is not shared.
abbrev pub copied : ℕ → ℕ → ℕ → Tls → Tls
copied t k p s =
    let q = s.next in
    record s {
      page =
          update (update s.page q (record { address = q; ref_count = 1 })) p
            (record (s.page p) { ref_count = (s.page p).ref_count - 1 });
      live_page = update s.live_page q true;
      storages =
          update s.storages t (record (s.storages t) { pages = update (s.storages t).pages k q });
      memory = update s.memory q (s.memory (s.page p).address);
      mapped = update s.mapped q true;
      protection = update (update s.protection q prot_write) (s.page p).address prot_none;
      next = q + 1;
    }

-- `*page_byte = c`
abbrev pub put_byte : ℕ → ℕ → ℕ → Tls → Tls
put_byte p a c s =
    let m = (s.page p).address in record s { memory = update s.memory m (update (s.memory m) a c) }

-- An access to a mapping that is gone or protected raises SIGSEGV.
unfoldable pub store_byte : ℕ → ℕ → ℕ → Tls → Result Unit
store_byte p a c s =
    let m = (s.page p).address in
    if s.mapped m && can_write (s.protection m) then returns tt (put_byte p a c s) else fault

abbrev pub readable : ℕ → Tls → Bool
readable m s = s.mapped m && can_read (s.protection m)

-- One round of the loop of `tls_write`. From 2 ^ 31 on the int `index` is negative, and `pages` is read out of
-- bounds. `memcpy` reads the shared page.
unfoldable pub write_byte : ℕ → ℕ → ℕ → Tls → Result Unit
write_byte t index c s =
    let k = index / s.page_size in
    let p = (s.storages t).pages k in
    if not (ltb index (2 ^ 31)) || not (s.live_page p)
    then fault
    else if ltb 1 (s.page p).ref_count
    then if s.maps s.next && readable (s.page p).address s
      then store_byte s.next (index % s.page_size) c (copied t k p s)
      else fault
    else store_byte p (index % s.page_size) c s

-- The loop of `tls_write` from the byte `count` of the buffer and the byte `index` of the storage on.
unfoldable pub write_bytes : ℕ → ℕ → ℕ → ℕ → (ℕ → ℕ) → Tls → Result Unit
write_bytes zero t count index buffer s = returns tt s
write_bytes (suc n) t count index buffer s =
    bind (write_byte t index (buffer count) s) (λ _. write_bytes n t (count + 1) (index + 1) buffer)

-- The loop of `tls_read`.
unfoldable pub read_bytes : ℕ → ℕ → ℕ → ℕ → (ℕ → ℕ) → Tls → Result (ℕ → ℕ)
read_bytes zero t count index buffer s = returns buffer s
read_bytes (suc n) t count index buffer s =
    let p = (s.storages t).pages (index / s.page_size) in
    let c = s.memory (s.page p).address (index % s.page_size) in
    let rest = read_bytes n t (count + 1) (index + 1) (update buffer count c) s in
    if ltb index (2 ^ 31) && s.live_page p && readable (s.page p).address s then rest else fault

-- `offset + length` on unsigned int, and the rounds of the loops up to it.
abbrev pub end_of : ℕ → ℕ → ℕ
end_of offset length = (offset + length) % 2 ^ 32

-- `tls_write` between the two calls on the mutex.
unfoldable pub write_locked : ℕ → ℕ → ℕ → ℕ → (ℕ → ℕ) → Tls → Result ℤ
write_locked page_num rounds t offset buffer s =
    bind (protect_pages 0 page_num t prot_write s) (λ _ s1.
      bind (write_bytes rounds t 0 offset buffer s1)
        (λ _ s2. bind (protect_pages 0 page_num t prot_none s2) (λ _ s3. returns (pos 0) s3)))

-- `tls_write` and `tls_read` on the storage of the calling thread.
unfoldable pub write_storage : ℕ → ℕ → (ℕ → ℕ) → Tls → ℕ → Result ℤ
write_storage offset length buffer s t =
    if not (s.live_storage t)
    then fault
    else if ltb (s.storages t).size (end_of offset length)
    then returns minus_one s
    else write_locked (s.storages t).page_num (end_of offset length - offset) t offset buffer s

unfoldable pub write_item : ℕ → ℕ → (ℕ → ℕ) → Tls → Option ℕ → Result ℤ
write_item offset length buffer s none = returns minus_one s
write_item offset length buffer s (some i) = write_storage offset length buffer s (s.items i).tls

unfoldable pub tls_write : ℕ → ℕ → ℕ → (ℕ → ℕ) → Tls → Result ℤ
tls_write tid offset length buffer s =
    bind (find tid s) (λ e s'. write_item offset length buffer s' e)

-- `tls_read` between the two calls on the mutex.
unfoldable pub read_locked : ℕ → ℕ → ℕ → ℕ → (ℕ → ℕ) → Tls → Result (ℤ × (ℕ → ℕ))
read_locked page_num rounds t offset buffer s =
    bind (protect_pages 0 page_num t prot_read s) (λ _ s1.
      bind (read_bytes rounds t 0 offset buffer s1) (λ out s2.
        bind (protect_pages 0 page_num t prot_none s2) (λ _ s3. returns (pos 0, out) s3)))

unfoldable pub read_storage : ℕ → ℕ → (ℕ → ℕ) → Tls → ℕ → Result (ℤ × (ℕ → ℕ))
read_storage offset length buffer s t =
    if not (s.live_storage t)
    then fault
    else if ltb (s.storages t).size (end_of offset length)
    then returns (minus_one, buffer) s
    else read_locked (s.storages t).page_num (end_of offset length - offset) t offset buffer s

unfoldable pub read_item : ℕ → ℕ → (ℕ → ℕ) → Tls → Option ℕ → Result (ℤ × (ℕ → ℕ))
read_item offset length buffer s none = returns (minus_one, buffer) s
read_item offset length buffer s (some i) = read_storage offset length buffer s (s.items i).tls

unfoldable pub tls_read : ℕ → ℕ → ℕ → (ℕ → ℕ) → Tls → Result (ℤ × (ℕ → ℕ))
tls_read tid offset length buffer s =
    bind (find tid s) (λ e s'. read_item offset length buffer s' e)
