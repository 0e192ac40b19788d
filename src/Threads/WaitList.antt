-- ===== src/Threads/WaitList.antt =====
-- The linked list of waiting threads of ec440threads.h, over an explicit heap of nodes.
use ec.Base.{ℕ, Bool, Option, none, some, ◌==◌, if◌then◌else◌, update}

-- `linked_list`; the address 0 is NULL.
pub record Node : Type 0 where
  pub tid : ℕ
  pub next : ℕ

abbrev pub Nodes : Type 0
Nodes = ℕ → Option Node

-- `*p`, a fault at NULL and where no node is allocated
unfoldable pub load : Nodes → ℕ → Option Node
load h p = if p == 0 then none else h p

-- The list's head and tail with the heap.
pub record Waiters : Type 0 where
  pub list : ℕ
  pub tail : ℕ
  pub nodes : Nodes

link_last : ℕ → ℕ → ℕ → Nodes → Option Node → Option Waiters
link_last fresh list tail h none = none
link_last fresh list tail h (some n) =
    some (record {
      list = list;
      tail = fresh;
      nodes = update h tail (some (record n { next = fresh }));
    })

-- `insert_tail`, where `fresh` is what `malloc` returns. `none` is a fault.
unfoldable pub insert_tail : ℕ → ℕ → Waiters → Option Waiters
unfolding link_last
insert_tail fresh tid w =
    let h = update w.nodes fresh (some (record { tid = tid; next = 0 })) in
    if fresh == 0
    then none
    else if w.list == 0
    then some (record { list = fresh; tail = fresh; nodes = h })
    else link_last fresh w.list w.tail h (load h w.tail)

unlink_first : Waiters → Option Node → Option (ℕ × Waiters)
unlink_first w none = none
unlink_first w (some n) = some (
  n.tid,
  record {
    list = n.next;
    tail = if n.next == 0 then 0 else w.tail;
    nodes = update w.nodes w.list none;
  },
)

-- `get_head` with a place for the thread's ID: the ID, and the list without its first node, which is
-- freed.
unfoldable pub get_head : Waiters → Option (ℕ × Waiters)
unfolding unlink_first load
get_head w = unlink_first w (load w.nodes w.list)

-- `is_empty`
abbrev pub is_empty : ℕ → Bool
is_empty list = list == 0
