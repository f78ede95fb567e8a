-- ===== src/Queue/Fifo.antt =====
-- The linked queue as a list.
use wind_cloud_v.Shared.{
  ℕ, suc, ◌+◌, ◌≡◌, refl, sym, ◌∙◌, Bool, true, false, not, ◌&&◌, List, [], ◌∷◌, ◌++◌, Option, none,
  some, ◌==◌, if◌then◌else◌, arith, length, length-append,
}
use mathlib.Core.Path.{subst}
use wind_cloud_v.Queue.{QueueNode, Queue, Memory, write, set_next, enqueue, dequeue, dequeue_node}

-- An address and the descriptor that its node holds.
abbrev pub Cells : Type 0
Cells = List (ℕ × ℕ)

pub absent : ℕ → Cells → Bool
absent a [] = true
absent a ((b, _) ∷ cells) = not (b == a) && absent a cells

-- From `p` on, the nodes of `cells`, at different addresses.
unfoldable pub IsChain : Memory → Option ℕ → Cells → Type 0
IsChain memory p [] = p ≡ none
IsChain memory p ((a, fd) ∷ cells) =
    (p ≡ some a)
    × (absent a cells ≡ true)
    × ((next : Option ℕ) × (memory a ≡ some (record { fd = fd; next = next }))
        × IsChain memory next cells)

unfoldable pub last_of : Option ℕ → Cells → Option ℕ
last_of p [] = p
last_of p ((a, _) ∷ cells) = last_of (some a) cells

-- The queue holds these cells.
pub record IsQueue (memory : Memory) (q : Queue) (cells : Cells) : Type 0 where
  pub chain : IsChain memory q.head cells
  pub ends : q.last ≡ last_of none cells
  pub counts : q.size ≡ length cells

frame :
    (memory : Memory) (p : Option ℕ) (b : ℕ) (to : Option QueueNode) (cells : Cells)
    → absent b cells ≡ true
    → IsChain memory p cells
    → IsChain (write memory b to) p cells
unfolding absent IsChain
frame memory p b to [] h c = c
frame memory p b to ((a, fd) ∷ cells) h (e, d, (next, m, c)) =
    (e, d, (next, ground arith, frame memory next b to cells (ground arith) c))

-- A free address is none of the chain's.
absent-IsChain :
    (memory : Memory) (p : Option ℕ) (b : ℕ) (cells : Cells)
    → memory b ≡ none
    → IsChain memory p cells
    → absent b cells ≡ true
unfolding absent IsChain
absent-IsChain memory p b [] f c = refl
absent-IsChain memory p b ((a, fd) ∷ cells) f (e, d, (next, m, c)) =
    ground (arith, f, m, absent-IsChain memory next b cells f c)

dequeue-eq :
    (memory : Memory) (q : Queue) (a n : ℕ) (front : QueueNode)
    → q.size ≡ suc n
    → q.head ≡ some a
    → memory a ≡ some front
    → dequeue (memory, q) ≡ dequeue_node a front (memory, q)
unfolding dequeue
dequeue-eq memory q a n front s e m = ground arith

-- The new last node.
dequeue-ends :
    (q : Queue) (a fd : ℕ) (cells : Cells)
    → q.last ≡ last_of none ((a, fd) ∷ cells)
    → q.size ≡ suc (length cells)
    → (if q.size == 1 then none else q.last) ≡ last_of none cells
unfolding last_of
dequeue-ends q a fd [] e s = ground arith
dequeue-ends q a fd (c ∷ cells) e s = ground arith

-- dequeue takes the first descriptor that the queue holds, and leaves the others in their order.
pub dequeue-IsQueue :
    (memory : Memory) (q : Queue) (a fd : ℕ) (cells : Cells)
    → IsQueue memory q ((a, fd) ∷ cells)
    → ((dequeue (memory, q)).0 ≡ some fd)
      × IsQueue (dequeue (memory, q)).1.0 (dequeue (memory, q)).1.1 cells
unfolding dequeue_node IsChain
dequeue-IsQueue memory q a fd cells h =
    let (e, d, (next, m, c)) = h.chain in
    rw (dequeue-eq memory q a (length cells) (record { fd = fd; next = next }) h.counts e m) (
      refl,
      record {
        chain = frame memory next a none cells d c;
        ends = dequeue-ends q a fd cells h.ends h.counts;
        counts = omega (arith, h.counts);
      },
    )

absent-append :
    (a b fd : ℕ) (cells : Cells)
    → absent a cells ≡ true
    → (b == a) ≡ false
    → absent a (cells ++ ((b, fd) ∷ [])) ≡ true
unfolding absent
absent-append a b fd [] h n = ground arith
absent-append a b fd ((c, _) ∷ cells) h n = ground (arith, absent-append a b fd cells)

absent-last_of :
    (a c end : ℕ) (cells : Cells)
    → (c == a) ≡ false
    → absent a cells ≡ true
    → last_of (some c) cells ≡ some end
    → (a == end) ≡ false
unfolding absent last_of
absent-last_of a c end [] n h e = ground arith
absent-last_of a c end ((d, _) ∷ cells) n h e =
    absent-last_of a d end cells (ground arith) (ground arith) e

-- A memory that differs from another at the last node of a chain, which points to b, and at b,
-- which is new.
record Links (memory linked : Memory) (end b fd : ℕ) : Type 0 where
  same : (x : ℕ) → (x == end) ≡ false → (x == b) ≡ false → linked x ≡ memory x
  points :
      (first : ℕ) (next : Option ℕ)
      → memory end ≡ some (record { fd = first; next = next })
      → linked end ≡ some (record { fd = first; next = some b })
  new : linked b ≡ some (record { fd = fd; next = none })
  free : memory b ≡ none

link-IsChain :
    (memory linked : Memory) (p : Option ℕ) (a first end b fd : ℕ) (cells : Cells)
    → Links memory linked end b fd
    → last_of (some a) cells ≡ some end
    → IsChain memory p ((a, first) ∷ cells)
    → IsChain linked p ((a, first) ∷ (cells ++ ((b, fd) ∷ [])))
unfolding IsChain last_of absent
link-IsChain memory linked p a first end b fd [] l z (e, d, (next, m, c)) =
    let here : a ≡ end = ground arith in
    (
      e,
      ground (arith, m, l.free),
      (some b, rw here (l.points first next (rw here at m)), (refl, refl, (none, l.new, refl))),
    )
link-IsChain memory linked p a first end b fd ((a', second) ∷ cells) l z (e, d, (next, m, c)) =
    let far : (a == b) ≡ false = ground (arith, m, l.free) in
    let other : (b == a) ≡ false = ground arith in
    (
      e,
      absent-append a b fd ((a', second) ∷ cells) d other,
      (
        next,
        l.same a (absent-last_of a a' end cells (ground arith) (ground arith) z) far ∙ m,
        link-IsChain memory linked next a' second end b fd cells l z c,
      ),
    )

last-node :
    (memory : Memory) (p : Option ℕ) (a first end : ℕ) (cells : Cells)
    → last_of (some a) cells ≡ some end
    → IsChain memory p ((a, first) ∷ cells)
    → (f : ℕ) × (memory end ≡ some (record { fd = f; next = none }))
unfolding IsChain last_of
last-node memory p a first end [] z (e, d, (next, m, c)) = (first, ground arith)
last-node memory p a first end ((a', second) ∷ cells) z (e, d, (next, m, c)) =
    last-node memory next a' second end cells z c

last_of-some : (a : ℕ) (cells : Cells) → (end : ℕ) × (last_of (some a) cells ≡ some end)
unfolding last_of
last_of-some a [] = (a, refl)
last_of-some a ((b, _) ∷ cells) = last_of-some b cells

last_of-append :
    (p : Option ℕ) (b fd : ℕ) (cells : Cells) → last_of p (cells ++ ((b, fd) ∷ [])) ≡ some b
unfolding last_of
last_of-append p b fd [] = refl
last_of-append p b fd ((c, _) ∷ cells) = last_of-append (some c) b fd cells

set_next-Links :
    (memory : Memory) (end b fd f : ℕ)
    → memory end ≡ some (record { fd = f; next = none })
    → memory b ≡ none
    → Links memory
        (set_next (write memory b (some (record { fd = fd; next = none }))) (some end) b)
        end
        b
        fd
unfolding set_next
set_next-Links memory end b fd f e free =
    let far : (end == b) ≡ false = ground (arith, e, free) in
    record {
      same = λ x m n. ground (arith, e);
      points = λ first next h. ground (arith, e, h);
      new = ground (arith, e);
      free = free;
    }

enqueue-eq :
    (memory : Memory) (q : Queue) (b fd n : ℕ)
    → q.size ≡ suc n
    → enqueue b fd (memory, q) ≡ (
      set_next (write memory b (some (record { fd = fd; next = none }))) q.last b,
      record q { last = some b; size = q.size + 1 },
    )
unfolding enqueue
enqueue-eq memory q b fd n s = ground arith

-- enqueue puts a descriptor behind all that the queue holds, when `calloc` gives a free address.
pub enqueue-IsQueue :
    (memory : Memory) (q : Queue) (b fd : ℕ) (cells : Cells)
    → memory b ≡ none
    → IsQueue memory q cells
    → IsQueue (enqueue b fd (memory, q)).0 (enqueue b fd (memory, q)).1 (cells ++ ((b, fd) ∷ []))
unfolding enqueue IsChain absent last_of
enqueue-IsQueue memory q b fd [] free h =
    rw h.counts
      (record { chain = (refl, refl, (none, ground arith, refl)); ends = refl; counts = refl })
enqueue-IsQueue memory q b fd ((a, first) ∷ cells) free h =
    let (end, z) = last_of-some a cells in
    let (f, m) = last-node memory q.head a first end cells z h.chain in
    rw (enqueue-eq memory q b fd (length cells) h.counts) (record {
      chain =
          subst
            (λ l.
              IsChain (set_next (write memory b (some (record { fd = fd; next = none }))) l b)
                q.head ((a, first) ∷ (cells ++ ((b, fd) ∷ []))))
            (sym (h.ends ∙ z))
            (link-IsChain memory
              (set_next (write memory b (some (record { fd = fd; next = none }))) (some end) b)
              q.head a first end b fd cells (set_next-Links memory end b fd f m free) z h.chain);
      ends = sym (last_of-append (some a) b fd cells);
      counts = omega (arith, h.counts, length-append cells ((b, fd) ∷ []));
    })
