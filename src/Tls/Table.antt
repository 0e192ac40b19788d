-- ===== src/Tls/Table.antt =====
-- The hash table of tls.c: HashFunction, Find, Add and Remove.
use ec.Base.{ℕ, zero, suc, ◌%◌, ◌^◌, Option, none, some, ◌==◌, if◌then◌else◌, update}
use ec.Tls.State.{table_size, Tls, Result, returns, fault, out_of_fuel, set_item}

abbrev pub hash_function : ℕ → ℕ
hash_function tid = tid % 2 ^ 32 % table_size

-- The loop along a list of the table, for the item of a thread. A list has at most as many items as
-- blocks have been given.
unfoldable pub find_from : ℕ → ℕ → Tls → Option ℕ → Result (Option ℕ)
find_from zero tid s element = out_of_fuel
find_from (suc fuel) tid s none = returns none s
find_from (suc fuel) tid s (some i) =
    let rest = find_from fuel tid s (s.items i).next in
    if s.live_item i then (if (s.items i).tid == tid then returns (some i) s else rest) else fault

unfoldable pub find : ℕ → Tls → Result (Option ℕ)
find tid s = find_from (suc s.next) tid s (s.table (hash_function tid))

-- `Add` puts the item at the head of the list of the calling thread.
unfoldable pub add : ℕ → ℕ → Tls → Tls
add tid i s =
    let index = hash_function tid in
    record (set_item s i (record (s.items i) { next = s.table index })) {
      table = update s.table index (some i);
    }

-- The loop of `Remove` and what follows it. When it has passed an item it reads the `next` of the item that
-- it has stopped at, also if there is none.
unfoldable pub remove_from : ℕ → ℕ → Tls → Option ℕ → Result (Option ℕ)
remove_from zero tid s current = out_of_fuel
remove_from (suc fuel) tid s none = fault
remove_from (suc fuel) tid s (some i) =
    let rest = remove_from fuel tid s (s.items i).next in
    if s.live_item i then (if (s.items i).tid == tid then returns (some i) s else rest) else fault

unfoldable pub remove_at : ℕ → Tls → Option ℕ → Result (Option ℕ)
remove_at tid s none = returns none s
remove_at tid s (some i) = remove_from (suc s.next) tid s (some i)

unfoldable pub remove : ℕ → Tls → Result (Option ℕ)
remove tid s = remove_at tid s (s.table (hash_function tid))
