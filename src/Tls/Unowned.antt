-- ===== src/Tls/Unowned.antt =====
-- tls_destroy of tls.c, called by a thread that has no storage.
use ec.Base.{ℕ, zero, suc, ◌≡◌, refl, ap, inl, inr, Option, none, some, ◌==◌, Bool-cases}
use ec.Base.Int.{ℤ, minus_one}
use ec.Tls.State.{Tls, Result, returns, fault, bind}
use ec.Tls.Table.{hash_function, find_from, find, remove_from, remove_at, remove}
use ec.Tls.Life.{destroy_item, tls_destroy}

-- How the call ends, by the first item of the thread's list.
abbrev pub unowned : Tls → Option ℕ → Result ℤ
unowned s none = returns minus_one s
unowned s (some i) = fault

remove_from-none :
    (fuel tid : ℕ) (s : Tls) (x : Option ℕ)
    → find_from fuel tid s x ≡ returns none s
    → remove_from fuel tid s x ≡ fault
unfolding find_from remove_from
remove_from-none zero tid s x e = absurd cc
remove_from-none (suc fuel) tid s none e = refl
remove_from-none (suc fuel) tid s (some j) e = elim (Bool-cases (s.live_item j)) [
  | inr l ↦ rw l
  | inl l ↦ elim (Bool-cases ((s.items j).tid == tid)) [
    | inl g ↦ absurd (cc (rw (l, g) at e))
    | inr g ↦ rw (l, g) (remove_from-none fuel tid s (s.items j).next (rw (l, g) at e))
  ]
]

-- `tls_destroy` of a thread whose search finds no storage returns -1 and changes nothing if its list is empty,
-- but accesses a null pointer if there is an item of another thread in it.
pub tls_destroy-unowned :
    (tid : ℕ) (s : Tls)
    → find tid s ≡ returns none s
    → tls_destroy tid s ≡ unowned s (s.table (hash_function tid))
unfolding find tls_destroy remove remove_at destroy_item
tls_destroy-unowned tid s e = split (s.table (hash_function tid)) e
  where
    split :
        (x : Option ℕ)
        → find_from (suc s.next) tid s x ≡ returns none s
        → bind (remove_at tid s x) (λ y s'. destroy_item s' y) ≡ unowned s x
    split none f = refl
    split (some i) f =
        ap (λ r. bind r (λ y s'. destroy_item s' y))
          (remove_from-none (suc s.next) tid s (some i) f)
