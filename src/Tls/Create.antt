-- ===== src/Tls/Create.antt =====
-- Add of tls.c: Find gives the new item to its thread.
use ec.Base.{ℕ, ◌≡◌, true, some, ==-refl, arith}
use ec.Tls.State.{Tls, returns}
use ec.Tls.Table.{hash_function, find_from, find, add}

-- `Add` puts an item where `Find` finds it.
pub find-add :
    (tid i : ℕ) (s : Tls)
    → s.live_item i ≡ true
    → (s.items i).tid ≡ tid
    → find tid (add tid i s) ≡ returns (some i) (add tid i s)
unfolding find find_from add
find-add tid i s l e = ground (arith, ==-refl (hash_function tid), ==-refl i, l, e, ==-refl tid)
