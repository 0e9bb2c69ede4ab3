-- ===== src/TaskQueue/Fifo.antt =====
-- What a task queue promises: a FIFO of at most as many items as the pool has.
use psp.Base.{Option, none, some, ℕ, List, [], ◌∷◌, ◌++◌, length, ltb, if◌then◌else◌}
use psp.TaskQueue.{Item}

-- an item that finds the queue full is dropped
unfoldable pub enqueue : ℕ → List Item → Item → List Item
enqueue capacity q e = if ltb (length q) capacity then q ++ (e ∷ []) else q

unfoldable pub dequeue : List Item → Option Item × List Item
dequeue [] = (none, [])
dequeue (e ∷ q) = (some e, q)
