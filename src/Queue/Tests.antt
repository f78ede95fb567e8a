-- ===== src/Queue/Tests.antt =====
-- One connection through the queue.
use wind_cloud_v.Shared.{◌≡◌, refl, [], ◌∷◌, none, some}
use wind_cloud_v.Queue.{Queue, Memory, enqueue, dequeue}
use wind_cloud_v.Queue.Fifo.{IsQueue, enqueue-IsQueue, dequeue-IsQueue, IsChain, last_of}

abbrev no_memory : Memory
no_memory a = none

abbrev empty : Queue
empty = record { head = none; last = none; size = 0 }

empty-IsQueue : IsQueue no_memory empty []
unfolding IsChain last_of
empty-IsQueue = record { chain = refl; ends = refl; counts = refl }

enqueue-IsQueue_example :
    IsQueue (enqueue 10 5 (no_memory, empty)).0 (enqueue 10 5 (no_memory, empty)).1 ((10, 5) ∷ [])
enqueue-IsQueue_example = enqueue-IsQueue no_memory empty 10 5 [] refl empty-IsQueue

-- The queue with one connection.
enqueue_once :
    IsQueue (enqueue 10 5 (no_memory, empty)).0 (enqueue 10 5 (no_memory, empty)).1 ((10, 5) ∷ [])
enqueue_once = enqueue-IsQueue no_memory empty 10 5 [] refl empty-IsQueue

dequeue-IsQueue_example :
    ((dequeue (enqueue 10 5 (no_memory, empty))).0 ≡ some 5)
    × IsQueue
        (dequeue (enqueue 10 5 (no_memory, empty))).1.0
        (dequeue (enqueue 10 5 (no_memory, empty))).1.1
        []
dequeue-IsQueue_example =
    dequeue-IsQueue (enqueue 10 5 (no_memory, empty)).0 (enqueue 10 5 (no_memory, empty)).1 10 5 []
      enqueue_once
