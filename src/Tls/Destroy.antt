-- ===== src/Tls/Destroy.antt =====
-- tls_destroy of tls.c: the item that it frees stays in the table.
use ec.Base.{
  ℕ, zero, suc, ◌+◌, ◌≤◌, ◌≡◌, refl, sym, ◌∙◌, ap, subst, inl, inr, true, false, Option, none, some,
  ◌==◌, update, Bool-cases, ==-refl, arith,
}
use ec.Base.Int.{pos}
use ec.Tls.State.{Tls, Result, returns, fault, exits, out_of_fuel, bind}
use ec.Tls.Table.{hash_function, find_from, find, remove_from, remove_at, remove}
use ec.Tls.Storage.{tls_write, write_item}
use ec.Tls.Life.{drop_page, drop_pages, destroy_item, tls_destroy}
use ec.Tls.Isolation.{SameTable}
use ec.Tls.Write.{SameTable-trans}

-- If this ends by returning, it has left the table as it was.
abbrev Keeps : {A : Type 0} → Tls → Result A → Type 0
Keeps s (returns x s') = SameTable s s'
Keeps s fault = Unit {0}
Keeps s exits = Unit {0}
Keeps s out_of_fuel = Unit {0}

drop_page-Keeps : (p : ℕ) (s : Tls) → Keeps s (drop_page p s)
unfolding drop_page
drop_page-Keeps p s = elim (Bool-cases (s.live_page p)) [
  | inr e ↦ rw e tt
  | inl e ↦ elim (Bool-cases ((s.page p).ref_count == 1)) [
    | inl f ↦
        rw (e, f) (record { items = refl; table = refl; live_item = refl; grows = omega arith })
    | inr f ↦
        rw (e, f) (record { items = refl; table = refl; live_item = refl; grows = omega arith })
  ]
]

Keeps-trans : {A : Type 0} (s s1 : Tls) (r : Result A) → SameTable s s1 → Keeps s1 r → Keeps s r
Keeps-trans s s1 (returns x s2) a b = SameTable-trans s s1 s2 a b
Keeps-trans s s1 fault a b = tt
Keeps-trans s s1 exits a b = tt
Keeps-trans s s1 out_of_fuel a b = tt

Keeps-bind :
    {A B : Type 0} (s : Tls) (r : Result A) (f : A → Tls → Result B)
    → Keeps s r
    → ((x : A) (s1 : Tls) → Keeps s1 (f x s1))
    → Keeps s (bind r f)
Keeps-bind s (returns x s1) f a h = Keeps-trans s s1 (f x s1) a (h x s1)
Keeps-bind s fault f a h = tt
Keeps-bind s exits f a h = tt
Keeps-bind s out_of_fuel f a h = tt

drop_pages-Keeps : (k n t : ℕ) (s : Tls) → Keeps s (drop_pages k n t s)
unfolding drop_pages
drop_pages-Keeps k zero t s = record {
  items = refl;
  table = refl;
  live_item = refl;
  grows = omega arith;
}
drop_pages-Keeps k (suc n) t s =
    Keeps-bind s (drop_page ((s.storages t).pages k) s) (λ _. drop_pages (k + 1) n t)
      (drop_page-Keeps ((s.storages t).pages k) s) (λ x s1. drop_pages-Keeps (k + 1) n t s1)

-- The item `i` has been freed, and the table still holds it.
record Dangles (s s' : Tls) (i : ℕ) : Type 0 where
  items : s'.items ≡ s.items
  table : s'.table ≡ s.table
  freed : s'.live_item ≡ update s.live_item i false
  grows : s.next ≤ s'.next

find_from-Dangles :
    (fuel fuel' tid i : ℕ) (s s' : Tls) (x : Option ℕ)
    → fuel ≤ fuel'
    → Dangles s s' i
    → remove_from fuel tid s x ≡ returns (some i) s
    → find_from fuel' tid s' x ≡ fault
unfolding find_from remove_from
find_from-Dangles zero fuel' tid i s s' x h q e = absurd cc
find_from-Dangles (suc fuel) zero tid i s s' x h q e = absurd (omega arith)
find_from-Dangles (suc fuel) (suc fuel') tid i s s' none h q e = absurd cc
find_from-Dangles (suc fuel) (suc fuel') tid i s s' (some j) h q e =
    let at_items : (s'.items j).tid ≡ (s.items j).tid = ap (λ z. (z j).tid) q.items in
    elim (Bool-cases (s'.live_item j)) [
      | inr l' ↦ rw l'
      | inl l' ↦
          let l : update s.live_item i false j ≡ true = sym (ap (λ z. z j) q.freed) ∙ l' in
          let ne : (i == j) ≡ false = ground arith in
          let live : s.live_item j ≡ true = rw ne at l in
          elim (Bool-cases ((s.items j).tid == tid)) [
            | inl g ↦
                let same : j ≡ i = cc (rw (live, g) at e) in
                absurd (cc (rw (sym same, ==-refl j) at ne))
            | inr g ↦
                let g' : ((s'.items j).tid == tid) ≡ false = ap (λ z. z == tid) at_items ∙ g in
                rw (l', g')
                  (ap (λ z. find_from fuel' tid s' (z j).next) q.items
                    ∙ find_from-Dangles fuel fuel' tid i s s' (s.items j).next (omega arith) q
                        (rw (live, g) at e))
          ]
    ]

find-Dangles :
    (tid i : ℕ) (s s' : Tls)
    → remove tid s ≡ returns (some i) s
    → Dangles s s' i
    → find tid s' ≡ fault
unfolding find remove remove_at
find-Dangles tid i s s' e q = split (s.table (hash_function tid)) refl
  where
    found_nothing : returns none s ≡ returns (some i) s → ⊥
    found_nothing g = cc

    split :
        (x : Option ℕ)
        → s.table (hash_function tid) ≡ x
        → find_from (suc s'.next) tid s' (s'.table (hash_function tid)) ≡ fault
    split none f = absurd (found_nothing (sym (ap (remove_at tid s) f) ∙ e))
    split (some x) f =
        ap (λ z. find_from (suc s'.next) tid s' (z (hash_function tid))) q.table
        ∙ ap (find_from (suc s'.next) tid s') f
        ∙ find_from-Dangles (suc s.next) (suc s'.next) tid i s s' (some x) (omega (arith, q.grows))
            q (rw f at e)

-- `Remove` changes nothing.
abbrev Stays : Tls → Result (Option ℕ) → Type 0
Stays s (returns x s') = s' ≡ s
Stays s fault = Unit {0}
Stays s exits = Unit {0}
Stays s out_of_fuel = Unit {0}

remove_from-Stays : (fuel tid : ℕ) (s : Tls) (x : Option ℕ) → Stays s (remove_from fuel tid s x)
unfolding remove_from
remove_from-Stays zero tid s x = tt
remove_from-Stays (suc fuel) tid s none = tt
remove_from-Stays (suc fuel) tid s (some j) = elim (Bool-cases (s.live_item j)) [
  | inr l ↦ rw l tt
  | inl l ↦ elim (Bool-cases ((s.items j).tid == tid)) [
    | inl g ↦ rw (l, g) refl
    | inr g ↦ rw (l, g) (remove_from-Stays fuel tid s (s.items j).next)
  ]
]

remove-Stays : (tid : ℕ) (s : Tls) → Stays s (remove tid s)
unfolding remove remove_at
remove-Stays tid s = split (s.table (hash_function tid))
  where
    split : (x : Option ℕ) → Stays s (remove_at tid s x)
    split none = refl
    split (some i) = remove_from-Stays (suc s.next) tid s (some i)

destroy_item-Dangles :
    (i : ℕ) (s s' : Tls) → destroy_item s (some i) ≡ returns (pos 0) s' → Dangles s s' i
unfolding destroy_item
destroy_item-Dangles i s s' e = elim (Bool-cases (s.live_storage (s.items i).tls)) [
  | inr l ↦ absurd (cc (rw l at e))
  | inl l ↦
      split (drop_pages 0 (s.storages (s.items i).tls).page_num (s.items i).tls s)
        (drop_pages-Keeps 0 (s.storages (s.items i).tls).page_num (s.items i).tls s) (rw l at e)
]
  where
    split :
        (r : Result Unit)
        → Keeps s r
        → bind r (λ _ s1. returns (pos 0) (record s1 {
          live_storage = update s1.live_storage (s.items i).tls false;
          live_item = update s1.live_item i false;
        }))
          ≡ returns (pos 0) s'
        → Dangles s s' i
    split (returns x s1) k f =
        let same : record s1 {
          live_storage = update s1.live_storage (s.items i).tls false;
          live_item = update s1.live_item i false;
        }
            ≡ s' =
          cc in
        subst (λ z. Dangles s z i) same
          (record {
            items = k.items;
            table = k.table;
            freed = ap (λ z. update z i false) k.live_item;
            grows = k.grows;
          })
    split fault k f = absurd cc
    split exits k f = absurd cc
    split out_of_fuel k f = absurd cc

-- After a successful `tls_destroy` the freed item is still in the table: the next search for the thread's
-- storage accesses freed memory, and so does the thread's next `tls_write`.
pub tls_write-tls_destroy :
    (tid offset length : ℕ) (buffer : ℕ → ℕ) (s s' : Tls)
    → tls_destroy tid s ≡ returns (pos 0) s'
    → (find tid s' ≡ fault) × (tls_write tid offset length buffer s' ≡ fault)
unfolding tls_destroy tls_write destroy_item
tls_write-tls_destroy tid offset length buffer s s' e =
    let f : find tid s' ≡ fault = split (remove tid s) refl (remove-Stays tid s) e in
    (f, ap (λ r. bind r (λ x s1. write_item offset length buffer s1 x)) f)
  where
    split :
        (r : Result (Option ℕ))
        → remove tid s ≡ r
        → Stays s r
        → bind r (λ x s1. destroy_item s1 x) ≡ returns (pos 0) s'
        → find tid s' ≡ fault
    split (returns none s1) q k g = absurd cc
    split (returns (some i) s1) q k g =
        find-Dangles tid i s s' (q ∙ ap (returns (some i)) k)
          (destroy_item-Dangles i s s' (ap (λ z. destroy_item z (some i)) (sym k) ∙ g))
    split fault q k g = absurd cc
    split exits q k g = absurd cc
    split out_of_fuel q k g = absurd cc
