-- ===== src/Queue.antt =====
-- src/server/net/queue.c: the queue of connections that wait for a worker, as nodes in memory. A
-- node is found by its address; `calloc` gives the address of a new one, and NULL is `none`.
pub mod Fifo
mod Tests
use wind_cloud_v.Shared.{
  ℕ, suc, ◌+◌, ◌-◌, ◌≡◌, Bool, List, [], ◌∷◌, Option, none, some, ◌==◌, if◌then◌else◌,
}

pub record QueueNode : Type 0 where
  pub fd : ℕ
  pub next : Option ℕ

pub record Queue : Type 0 where
  pub head : Option ℕ
  pub last : Option ℕ
  pub size : ℕ

abbrev pub Memory : Type 0
Memory = ℕ → Option QueueNode

abbrev pub write : Memory → ℕ → Option QueueNode → Memory
write memory a node b = if b == a then node else memory b

-- `p->pNext = a`; nothing happens where the model finds no node at p.
unfoldable pub set_next : Memory → Option ℕ → ℕ → Memory
set_next memory none a = memory
set_next memory (some p) a = elim (memory p) [
  | none ↦ memory
  | some node ↦ write memory p (some (record node { next = some a }))
]

-- enQueue, with the address that `calloc` gives.
unfoldable pub enqueue : ℕ → ℕ → Memory × Queue → Memory × Queue
unfolding set_next
enqueue a fd (memory, q) =
    let made = write memory a (some (record { fd = fd; next = none })) in
    if q.size == 0
    then (made, record { head = some a; last = some a; size = q.size + 1 })
    else (set_next made q.last a, record q { last = some a; size = q.size + 1 })

-- The first node is read and freed; `none` is the result -1.
unfoldable pub dequeue_node : ℕ → QueueNode → Memory × Queue → Option ℕ × (Memory × Queue)
dequeue_node p node (memory, q) = (
  some node.fd,
  (
    write memory p none,
    record { head = node.next; last = if q.size == 1 then none else q.last; size = q.size - 1 },
  ),
)

unfoldable pub dequeue : Memory × Queue → Option ℕ × (Memory × Queue)
unfolding dequeue_node
dequeue (memory, q) = if q.size == 0 then (none, (memory, q)) else elim q.head [
  | none ↦ (none, (memory, q))
  | some p ↦ elim (memory p) [
    | none ↦ (none, (memory, q))
    | some node ↦ dequeue_node p node (memory, q)
  ]
]
