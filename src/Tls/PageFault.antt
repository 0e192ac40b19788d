-- ===== src/Tls/PageFault.antt =====
-- tls_handle_page_fault of tls.c. The fault lies in the page of memory with the number `a`, which is what
-- is left of the address when the bits below the page size are cleared.
use ec.Base.{ℕ, zero, suc, ◌+◌, Option, none, some, ◌==◌, if◌then◌else◌}
use ec.Tls.State.{table_size, Tls, Result, returns, fault, exits, out_of_fuel, bind}

-- The loop over the pages of a storage, from the slot `j` on: the thread exits at the page of the fault.
unfoldable pub scan_pages : ℕ → ℕ → ℕ → ℕ → Tls → Result Unit
scan_pages a t j zero s = returns tt s
scan_pages a t j (suc n) s =
    let p = (s.storages t).pages j in
    let rest = scan_pages a t (j + 1) n s in
    if s.live_page p then (if (s.page p).address == a then exits else rest) else fault

-- The loop along a list of the table.
unfoldable pub scan_list : ℕ → ℕ → Option ℕ → Tls → Result Unit
scan_list zero a element s = out_of_fuel
scan_list (suc fuel) a none s = returns tt s
scan_list (suc fuel) a (some i) s =
    let t = (s.items i).tls in
    let rest =
      bind (scan_pages a t 0 (s.storages t).page_num s)
        (λ _ s1. scan_list fuel a (s.items i).next s1) in
    if s.live_item i then (if s.live_storage t then rest else fault) else fault

-- The loop over the table.
unfoldable pub scan_table : ℕ → ℕ → ℕ → Tls → Result Unit
scan_table a i zero s = returns tt s
scan_table a i (suc n) s =
    bind (scan_list (suc s.next) a (s.table i) s) (λ _ s1. scan_table a (i + 1) n s1)

-- `tls_handle_page_fault`: it returns when it raises the signal again, with the default action.
unfoldable pub handle_page_fault : ℕ → Tls → Result Unit
handle_page_fault a s = scan_table a 0 table_size s
