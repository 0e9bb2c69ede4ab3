-- ===== src/LrpcContext/Transfer.antt =====
-- `push` and `pop` over channels that are linked.
use psp.Base.{
  ℕ, ◌≡◌, refl, Option, none, some, List, [], ◌∷◌, ◌++◌, length, arith, ltb, Bool-cases, inl, inr,
  if◌then◌else◌, update, update_self, Run, ok,
}
use psp.Lrpc.{Memory, ChanOut, ChanIn}
use psp.Lrpc.Queue
use psp.Lrpc.Queue.{Entry}
use psp.Lrpc.Linked.{Linked}
use psp.Lrpc.Send.{lrpc_send-Sent}
use psp.Lrpc.Recv.{lrpc_recv-Received}
use psp.LrpcContext.{LrpcContext, try_again, lrpc_tx, push, pop}

-- the outcome of a push to a peer
pub record Pushed (h : ℕ) (q : List Entry) (payload peer_id : ℕ) (inn : ChanIn)
    (r : Run (ℕ × LrpcContext × Memory)) : Type 0 where
  pub seen : ℕ
  pub ctx : LrpcContext
  pub mem : Memory
  pub runs : r ≡ ok (if ltb (length q) 4096 then 0 else try_again, ctx, mem)
  pub linked :
      Linked h seen
        (if ltb (length q) 4096 then q ++ ((lrpc_tx, payload) ∷ []) else q)
        (ctx.egress peer_id)
        inn
        mem

-- Over a linked channel to the peer `push` delivers the payload behind the messages in flight and
-- returns 0 while fewer than 4096 are, and returns `EAGAIN` and delivers nothing otherwise.
pub push-Pushed :
    {h s : ℕ} {inn : ChanIn} {m : Memory} (q : List Entry) (payload peer_id : ℕ) (ctx : LrpcContext)
    → Linked h s q (ctx.egress peer_id) inn m
    → Pushed h q payload peer_id inn (push payload peer_id ctx m)
unfolding push Queue.send
push-Pushed q payload peer_id ctx l =
    let done = lrpc_send-Sent lrpc_tx payload l (omega arith) in
    let there = update_self ctx.egress peer_id done.out in
    elim (Bool-cases (ltb (length q) 4096)) [
      | inl room ↦ record {
        seen = done.seen;
        ctx = record ctx { egress = update ctx.egress peer_id done.out };
        mem = done.mem;
        runs = rw (done.runs, room);
        linked = rw (room, there) (rw room at done.linked);
      }
      | inr full ↦ record {
        seen = done.seen;
        ctx = record ctx { egress = update ctx.egress peer_id done.out };
        mem = done.mem;
        runs = rw (done.runs, full);
        linked = rw (full, there) (rw full at done.linked);
      }
    ]

-- the payload of the oldest message, and the rest
abbrev pub first_payload : List Entry → Option ℕ
first_payload [] = none
first_payload (e ∷ q) = some e.1

-- the outcome of a pop from a peer
pub record Popped (s : ℕ) (q : List Entry) (peer_id : ℕ) (out : ChanOut)
    (r : Option ℕ × LrpcContext × Memory) : Type 0 where
  pub count : ℕ
  pub result : r.0 ≡ first_payload q
  pub linked : Linked count s (Queue.recv q).1 out (r.1.ingress peer_id) r.2

-- Over a linked channel from the peer `pop` yields the payload of the oldest message in flight and
-- takes it off the channel, or fails if there is none.
pub pop-Popped :
    {h s : ℕ} {out : ChanOut} {m : Memory} (q : List Entry) (peer_id : ℕ) (ctx : LrpcContext)
    → Linked h s q out (ctx.ingress peer_id) m
    → Popped s q peer_id out (pop peer_id ctx m)
unfolding pop Queue.recv
pop-Popped [] peer_id ctx l =
    let done = lrpc_recv-Received [] l in
    rw (done.result, pop)
      (record {
        count = done.count;
        result = refl;
        linked = rw (update_self ctx.ingress peer_id _) done.linked;
      })
pop-Popped (e ∷ q) peer_id ctx l =
    let done = lrpc_recv-Received (e ∷ q) l in
    rw (done.result, pop)
      (record {
        count = done.count;
        result = refl;
        linked = rw (update_self ctx.ingress peer_id _) done.linked;
      })
