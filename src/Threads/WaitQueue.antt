-- ===== src/Threads/WaitQueue.antt =====
-- The linked list of ec440threads.h is a first-in first-out queue of thread IDs.
use ec.Base.{
  ℕ, ◌≡◌, refl, ◌≢◌, sym, Option, none, some, List, [], ◌∷◌, ◌++◌, ◌==◌, if◌then◌else◌, update,
  subst, ≢→==, arith,
}
use ec.Threads.WaitList.{Node, Nodes, load, Waiters, insert_tail, get_head}

-- The nodes of a list, in order: each with its address.
abbrev pub Cells : Type 0
Cells = List (ℕ × ℕ)

abbrev pub first_of_cells : Cells → ℕ
first_of_cells [] = 0
first_of_cells (c ∷ cs) = c.0

abbrev pub last_of_cells : Cells → ℕ
last_of_cells [] = 0
last_of_cells (c ∷ []) = c.0
last_of_cells (c ∷ d ∷ cs) = last_of_cells (d ∷ cs)

-- No node of the list stands at the address.
abbrev pub Apart : ℕ → Cells → Type 0
Apart a [] = Unit {0}
Apart a (c ∷ cs) = (c.0 ≢ a) × Apart a cs

-- The heap holds the nodes, each linked to the one behind it, at different addresses.
abbrev pub Chain : Nodes → Cells → Type 0
Chain h [] = Unit {0}
Chain h (c ∷ cs) =
    (c.0 ≢ 0)
    × (h c.0 ≡ some (record { tid = c.1; next = first_of_cells cs }))
    × Apart c.0 cs
    × Chain h cs

-- The list as the code holds it stands for the cells.
pub record IsQueue (w : Waiters) (cs : Cells) : Type 0 where
  pub head : w.list ≡ first_of_cells cs
  pub last : w.tail ≡ last_of_cells cs
  pub chain : Chain w.nodes cs

abbrev pub ids : Cells → List ℕ
ids [] = []
ids (c ∷ cs) = c.1 ∷ ids cs

-- A write elsewhere keeps a chain.
Chain-update :
    (h : Nodes) (a : ℕ) (v : Option Node) (cs : Cells)
    → Apart a cs
    → Chain h cs
    → Chain (update h a v) cs
Chain-update h a v [] p ch = tt
Chain-update h a v (c ∷ cs) p ch =
    (ch.0, rw (≢→== a c.0 (λ e. p.0 (sym e))) ch.1, ch.2, Chain-update h a v cs p.1 ch.3)

Apart-append : (a b t : ℕ) (cs : Cells) → Apart a cs → b ≢ a → Apart a (cs ++ (b, t) ∷ [])
Apart-append a b t [] p h = (h, tt)
Apart-append a b t (c ∷ cs) p h = (p.0, Apart-append a b t cs p.1 h)

first-append : (c b : ℕ × ℕ) (cs : Cells) → first_of_cells ((c ∷ cs) ++ b ∷ []) ≡ c.0
first-append c b cs = refl

last-append : (b : ℕ × ℕ) (cs : Cells) → last_of_cells (cs ++ b ∷ []) ≡ b.0
last-append b [] = refl
last-append b (c ∷ []) = refl
last-append b (c ∷ d ∷ cs) = last-append b (d ∷ cs)

Apart-last : (a : ℕ) (c : ℕ × ℕ) (cs : Cells) → Apart a (c ∷ cs) → last_of_cells (c ∷ cs) ≢ a
Apart-last a c [] p = p.0
Apart-last a c (d ∷ cs) p = Apart-last a d cs p.1

-- The last cell's node.
last-node :
    (h : Nodes) (c : ℕ × ℕ) (cs : Cells)
    → Chain h (c ∷ cs)
    → (t : ℕ) × (h (last_of_cells (c ∷ cs)) ≡ some (record { tid = t; next = 0 }))
      × (last_of_cells (c ∷ cs) ≢ 0)
last-node h c [] ch = (c.1, ch.1, ch.0)
last-node h c (d ∷ cs) ch = last-node h d cs ch.3

-- Linking a fresh node behind the last one extends the chain by it.
Chain-extend :
    (h : Nodes) (c : ℕ × ℕ) (cs : Cells) (fresh tid t : ℕ)
    → Chain h (c ∷ cs)
    → Apart fresh (c ∷ cs)
    → fresh ≢ 0
    → h fresh ≡ some (record { tid = tid; next = 0 })
    → h (last_of_cells (c ∷ cs)) ≡ some (record { tid = t; next = 0 })
    → Chain
        (update h (last_of_cells (c ∷ cs)) (some (record { tid = t; next = fresh })))
        ((c ∷ cs) ++ (fresh, tid) ∷ [])
Chain-extend h c [] fresh tid t ch p nz hf hl =
    (ch.0, ground arith, (λ e. p.0 (sym e), tt), (nz, rw (≢→== c.0 fresh p.0) hf, tt, tt))
Chain-extend h c (d ∷ cs) fresh tid t ch p nz hf hl =
    let last = last_of_cells (d ∷ cs) in
    (
      ch.0,
      rw (≢→== last c.0 (Apart-last c.0 d cs ch.2)) ch.1,
      Apart-append c.0 fresh tid (d ∷ cs) ch.2 (λ e. p.0 (sym e)),
      Chain-extend h d cs fresh tid t ch.3 p.1 nz hf hl,
    )

insert_tail-nonempty :
    (fresh tid : ℕ) (w : Waiters) (c : ℕ × ℕ) (cs : Cells) (t : ℕ)
    → fresh ≢ 0
    → w.list ≢ 0
    → w.tail ≢ 0
    → update w.nodes fresh (some (record { tid = tid; next = 0 })) w.tail
      ≡ some (record { tid = t; next = 0 })
    → insert_tail fresh tid w
      ≡ some (record {
        list = w.list;
        tail = fresh;
        nodes =
            update
              (update w.nodes fresh (some (record { tid = tid; next = 0 })))
              w.tail
              (some (record { tid = t; next = fresh }));
      })
unfolding insert_tail load
insert_tail-nonempty fresh tid w c cs t nz nl nt e =
    rw (≢→== fresh 0 nz, ≢→== w.list 0 nl, ≢→== w.tail 0 nt, e)

-- With a fresh node from `malloc`, `insert_tail` faults on no dereference, and puts the thread behind
-- those that the list holds.
pub insert_tail-IsQueue :
    (fresh tid : ℕ) (w : Waiters) (cs : Cells)
    → IsQueue w cs
    → fresh ≢ 0
    → Apart fresh cs
    → (w' : Waiters) × (insert_tail fresh tid w ≡ some w') × IsQueue w' (cs ++ (fresh, tid) ∷ [])
unfolding insert_tail
insert_tail-IsQueue fresh tid w [] q nz p = (
  record {
    list = fresh;
    tail = fresh;
    nodes = update w.nodes fresh (some (record { tid = tid; next = 0 }));
  },
  rw (≢→== fresh 0 nz, q.head),
  record { head = refl; last = refl; chain = (nz, ground arith, tt, tt) },
)
insert_tail-IsQueue fresh tid w (c ∷ cs) q nz p =
    let h = update w.nodes fresh (some (record { tid = tid; next = 0 })) in
    let ch : Chain h (c ∷ cs) = Chain-update w.nodes fresh _ (c ∷ cs) p q.chain in
    let (t, at_last, nt) = last-node h c cs ch in
    (
      record {
        list = w.list;
        tail = fresh;
        nodes = update h w.tail (some (record { tid = t; next = fresh }));
      },
      insert_tail-nonempty fresh tid w c cs t nz (rw q.head q.chain.0) (rw q.last nt)
          (rw q.last at_last),
      record {
        head = q.head;
        last = sym (last-append (fresh, tid) (c ∷ cs));
        chain =
            subst
              (λ a.
                Chain (update h a (some (record { tid = t; next = fresh })))
                  ((c ∷ cs) ++ (fresh, tid) ∷ []))
              (sym q.last) (Chain-extend h c cs fresh tid t ch p nz (ground arith) at_last);
      },
    )

tail-after :
    (h : Nodes) (tail : ℕ) (c : ℕ × ℕ) (cs : Cells)
    → tail ≡ last_of_cells (c ∷ cs)
    → Chain h cs
    → (if first_of_cells cs == 0 then 0 else tail) ≡ last_of_cells cs
tail-after h tail c [] e ch = refl
tail-after h tail c (d ∷ cs) e ch = rw (≢→== d.0 0 ch.0) e

-- `get_head` on a list that is not empty faults on no dereference, hands over the thread that has
-- waited longest, and leaves the others in their order; the freed node is no longer allocated.
pub get_head-IsQueue :
    (w : Waiters) (c : ℕ × ℕ) (cs : Cells)
    → IsQueue w (c ∷ cs)
    → (w' : Waiters) × (get_head w ≡ some (c.1, w')) × IsQueue w' cs × (w'.nodes c.0 ≡ none)
unfolding get_head load
get_head-IsQueue w c cs q = (
  record {
    list = first_of_cells cs;
    tail = if first_of_cells cs == 0 then 0 else w.tail;
    nodes = update w.nodes w.list none;
  },
  ground (arith, q.head, q.chain.1, ≢→== c.0 0 q.chain.0),
  record {
    head = refl;
    last = tail-after w.nodes w.tail c cs q.last q.chain.3;
    chain =
        subst (λ a. Chain (update w.nodes a none) cs) (sym q.head)
          (Chain-update w.nodes c.0 none cs q.chain.2 q.chain.3);
  },
  ground (arith, q.head),
)
