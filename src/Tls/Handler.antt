-- ===== src/Tls/Handler.antt =====
-- The handler of page faults of tls.c: which faults end the thread.
use ec.Base.{
  ℕ, zero, suc, ◌+◌, ◌≤◌, ◌<◌, ◌≡◌, ◌≢◌, ◌⊎◌, refl, ◌∙◌, ap, subst, inl, inr, true, Option, none,
  some, List, [], ◌∷◌, ◌==◌, Bool-cases, ==→≡, ==→≢, arith,
}
use ec.Base.Blocks.{length, contains}
use ec.Tls.State.{Tls, Result, returns, exits, bind}
use ec.Tls.Isolation.{IsShared}
use ec.Tls.PageFault.{scan_pages, scan_list, scan_table, handle_page_fault}

-- The list of live items with live storages from an item on.
abbrev pub IsItems : Tls → Option ℕ → List ℕ → Type 0
IsItems s element [] = element ≡ none
IsItems s element (i ∷ is) =
    (element ≡ some i)
    × (s.live_item i ≡ true)
    × (s.live_storage (s.items i).tls ≡ true)
    × IsItems s (s.items i).next is

-- A page of the item's storage has the mapping `a`.
abbrev pub Maps : Tls → ℕ → ℕ → Type 0
Maps s a i =
    let t = (s.items i).tls in
    (k : ℕ) × (k < (s.storages t).page_num) × ((s.page ((s.storages t).pages k)).address ≡ a)

abbrev pub NoneMaps : Tls → ℕ → List ℕ → Type 0
NoneMaps s a [] = Unit {0}
NoneMaps s a (i ∷ is) = (Maps s a i → ⊥) × NoneMaps s a is

-- How a loop ends: at an item with the page, or behind the items, none of which has it.
abbrev pub Ends : Tls → ℕ → List ℕ → Result Unit → Type 0
Ends s a is r =
    ((r ≡ exits) × (i : ℕ) × (contains is i ≡ true) × Maps s a i)
    ⊎ ((r ≡ returns tt s) × NoneMaps s a is)

scan_pages-ends :
    (s : Tls) (a t j n : ℕ)
    → ((k : ℕ) → k < j + n → s.live_page ((s.storages t).pages k) ≡ true)
    → ((scan_pages a t j n s ≡ exits)
        × (k : ℕ) × (k < j + n)
        × ((s.page ((s.storages t).pages k)).address ≡ a))
      ⊎ ((scan_pages a t j n s ≡ returns tt s)
          × ((k : ℕ) → j ≤ k → k < j + n → (s.page ((s.storages t).pages k)).address ≢ a))
unfolding scan_pages
scan_pages-ends s a t j zero h = inr (refl, λ k lo hi. absurd (omega arith))
scan_pages-ends s a t j (suc n) h =
    let live = h j (omega arith) in
    elim (Bool-cases ((s.page ((s.storages t).pages j)).address == a)) [
      | inl e ↦ inl (rw (live, e), j, omega arith, ==→≡ _ a e)
      | inr e ↦ elim (scan_pages-ends s a t (j + 1) n (λ k l. h k (omega arith))) [
        | inl (f, k, l, g) ↦ inl (rw (live, e) f, k, omega arith, g)
        | inr (f, g) ↦ inr (
          rw (live, e) f,
          λ k lo hi. elim (Bool-cases (j == k)) [
            | inl q ↦
                subst (λ z. (s.page ((s.storages t).pages z)).address ≢ a) (==→≡ j k q) (==→≢ _ a e)
            | inr q ↦ g k (omega (arith, ==→≢ j k q)) (omega arith)
          ],
        )
      ]
    ]

scan_list-Ends :
    (s : Tls) (fuel a : ℕ) (element : Option ℕ) (is : List ℕ)
    → IsShared s
    → IsItems s element is
    → length is < fuel
    → Ends s a is (scan_list fuel a element s)
unfolding scan_list
scan_list-Ends s zero a element is v l h = absurd (omega arith)
scan_list-Ends s (suc fuel) a element [] v l h = inr (ap (λ z. scan_list (suc fuel) a z s) l, tt)
scan_list-Ends s (suc fuel) a element (i ∷ is) v l h =
    let t = (s.items i).tls in
    let here : scan_list (suc fuel) a element s
        ≡ bind (scan_pages a t 0 (s.storages t).page_num s)
            (λ _ s1. scan_list fuel a (s.items i).next s1) =
      ap (λ z. scan_list (suc fuel) a z s) l.0 ∙ rw (l.1, l.2) in
    elim (scan_pages-ends s a t 0 (s.storages t).page_num
      (λ k k_lt. v.has_page t k (l.2, omega arith))) [
        | inl (e, k, k_lt, g) ↦ inl (
          here ∙ ap (λ r. bind r (λ _ s1. scan_list fuel a (s.items i).next s1)) e,
          i,
          ground arith,
          (k, omega arith, g),
        )
        | inr (e, g) ↦
            let next = here ∙ ap (λ r. bind r (λ _ s1. scan_list fuel a (s.items i).next s1)) e in
            let not_here : Maps s a i → ⊥ = λ (k, k_lt, m). g k (omega arith) (omega arith) m in
            elim (scan_list-Ends s fuel a (s.items i).next is v l.3 (omega arith)) [
              | inl (f, j, c, m) ↦ inl (next ∙ f, j, ground arith, m)
              | inr (f, m) ↦ inr (next ∙ f, (not_here, m))
            ]
      ]

-- The table as lists of live items with live storages.
abbrev pub IsTable : Tls → (ℕ → List ℕ) → Type 0
IsTable s lists = (b : ℕ) → b < 23 → IsItems s (s.table b) (lists b) × (length (lists b) ≤ s.next)

scan_table-ends :
    (s : Tls) (a b n : ℕ) (lists : ℕ → List ℕ)
    → IsShared s
    → IsTable s lists
    → b + n ≤ 23
    → ((scan_table a b n s ≡ exits)
        × (c : ℕ) × (i : ℕ) × (c < 23)
        × (contains (lists c) i ≡ true)
        × Maps s a i)
      ⊎ ((scan_table a b n s ≡ returns tt s)
          × ((c : ℕ) → b ≤ c → c < b + n → NoneMaps s a (lists c)))
unfolding scan_table
scan_table-ends s a b zero lists v l h = inr (refl, λ c lo hi. absurd (omega arith))
scan_table-ends s a b (suc n) lists v l h =
    let (items, few) = l b (omega arith) in
    elim (scan_list-Ends s (suc s.next) a (s.table b) (lists b) v items (omega arith)) [
      | inl (e, i, c, m) ↦
          inl (ap (λ r. bind r (λ _ s1. scan_table a (b + 1) n s1)) e, b, i, omega arith, c, m)
      | inr (e, m) ↦
          let next = ap (λ r. bind r (λ _ s1. scan_table a (b + 1) n s1)) e in
          elim (scan_table-ends s a (b + 1) n lists v l (omega arith)) [
            | inl (f, c, i, lt, k, g) ↦ inl (next ∙ f, c, i, lt, k, g)
            | inr (f, g) ↦ inr (
              next ∙ f,
              λ c lo hi. elim (Bool-cases (b == c)) [
                | inl q ↦ subst (λ z. NoneMaps s a (lists z)) (==→≡ b c q) m
                | inr q ↦ g c (omega (arith, ==→≢ b c q)) (omega arith)
              ],
            )
          ]
    ]

-- On storages whose live pages have mappings of their own and count the storages that share them, each in the
-- same slot, and a table whose lists hold live items with live storages: `tls_handle_page_fault` ends the
-- thread exactly when the fault lies in a page of an item's storage, and else raises the signal again. It
-- accesses nothing that is freed, and follows each list to its end.
pub handle_page_fault-Maps :
    (s : Tls) (a : ℕ) (lists : ℕ → List ℕ)
    → IsShared s
    → IsTable s lists
    → ((handle_page_fault a s ≡ exits)
        × (c : ℕ) × (i : ℕ) × (c < 23)
        × (contains (lists c) i ≡ true)
        × Maps s a i)
      ⊎ ((handle_page_fault a s ≡ returns tt s) × ((c : ℕ) → c < 23 → NoneMaps s a (lists c)))
unfolding handle_page_fault
handle_page_fault-Maps s a lists v l = elim (scan_table-ends s a 0 23 lists v l (omega arith)) [
  | inl r ↦ inl r
  | inr (f, g) ↦ inr (f, λ c h. g c (omega arith) (omega arith))
]
