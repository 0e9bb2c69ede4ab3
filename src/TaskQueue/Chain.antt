-- ===== src/TaskQueue/Chain.antt =====
-- The linked list of a task queue: which tasks it holds, at which addresses.
use psp.Base.{ℕ, Ptr, null, ◌≤◌, ◌≡◌, ◌≢◌, List, [], ◌∷◌, All, length}
use psp.Mempool.Laws.{IsPool, Owned}
use psp.TaskQueue.{Item, Task, TaskQueue, TaskMemory}

-- address and contents of each task, oldest first
abbrev pub Cells : Type 0
Cells = List (Ptr × Item)

-- the `next` pointers lead from `p` through these tasks to NULL
abbrev pub Chain : (Ptr → Task) → Ptr → Cells → Type 0
Chain t p [] = p ≡ null
Chain t p ((a, e) ∷ xs) = (p ≡ a) × (a ≢ null) × ((t a).item ≡ e) × Chain t (t a).next xs

abbrev pub last_address : Ptr → Cells → Ptr
last_address p [] = p
last_address p ((a, e) ∷ xs) = last_address a xs

-- `p` is no address of the list
abbrev pub Apart : Ptr → Cells → Type 0
Apart p xs = All (λ (c : Ptr × Item). c.0 ≢ p) xs

abbrev pub Distinct : Cells → Type 0
Distinct [] = Unit
Distinct ((a, e) ∷ xs) = Apart a xs × Distinct xs

-- a queue that holds `xs`, all of whose tasks are in use and are the only ones in use
pub record IsQueue (tq : TaskQueue) (mem : TaskMemory) (xs : Cells) : Type 0 where
  pub chain : Chain mem.task tq.head xs
  pub last : 1 ≤ length xs → tq.tail ≡ last_address null xs
  pub distinct : Distinct xs
  pub owned : All (λ (c : Ptr × Item). Owned mem.pool c.0) xs
  pub pool : IsPool mem.pool
  pub count : mem.pool.allocated ≡ length xs

abbrev pub items : Cells → List Item
items [] = []
items ((a, e) ∷ xs) = e ∷ items xs

-- what a client sees of a queue
pub record Represents (tq : TaskQueue) (mem : TaskMemory) (capacity : ℕ) (q : List Item)
    : Type 0 where
  pub cells : Cells
  pub queue : IsQueue tq mem cells
  pub contents : items cells ≡ q
  pub bound : mem.pool.capacity ≡ capacity
