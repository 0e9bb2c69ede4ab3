-- ===== src/AppWorker/Answer.antt =====
-- An answer always finds a place in the outbound queue.
use psp.Base.{ℕ, Ptr, ◌+◌, ◌≡◌, some, List, length, take, drop}
use psp.Lrpc.Linked.{Linked}
use psp.Udp.Transmit.{Outbound}
use psp.AppWorker.{AppWorker, take_payload}

-- what is known after `app_dequeue` has given a request
record Dequeued (t : ℕ) (q : List Ptr) (w w1 : AppWorker) (payload : ℕ) : Type 0 where
  taken : (take_payload w).0 ≡ some payload
  outbound : Outbound (t + length (take 8 q)) (drop 8 q) w1.udp
