-- ===== src/Lrpc/Examples.antt =====
-- A channel over one cleared buffer, and the same channel with one message in flight.
use psp.Base.{ℕ, ◌+◌, ◌%◌, ◌^◌, ◌≤◌, ◌<◌, ◌≡◌, refl, false, [], ◌∷◌, arith, ◌==◌, if◌then◌else◌, ok}
use psp.Lrpc.{Msg, Memory, ChanOut, lrpc_send, lrpc_recv}
use psp.Lrpc.Linked.{IsOld, Linked}
use psp.Lrpc.Send.{Sent, lrpc_send-Sent}
use psp.Lrpc.Recv.{Received, lrpc_recv-Received}
use psp.Lrpc.Runs.{send, recv, run, run_queue, run_refines, fresh_out, fresh_in, fresh-Linked}

abbrev pub no_msg : Msg
no_msg = record { cmd = 0; payload = 0 }

abbrev pub cleared : Memory
cleared = record { table = λ p i. no_msg; word = λ p. 0 }

start-Linked : Linked 0 0 [] (fresh_out 16 32) (fresh_in 16 32) cleared
start-Linked = fresh-Linked (record { table = λ i. refl; word = refl })

-- command 5 with payload 6 is in flight
abbrev pub one_sent : Memory
one_sent = record {
  table = λ p i. if i == 0 then record { cmd = 2 ^ 63 + 5; payload = 6 } else no_msg;
  word = λ p. 0;
}

abbrev pub one_out : ChanOut
one_out = record (fresh_out 16 32) { send_head = 1 }

IsOld-slots : (i : ℕ) → 1 ≤ i → i < 4096 → IsOld (one_sent.table 16 (i % 4096)) i
IsOld-slots i lo hi = let clear : (i % 4096 == 0) ≡ false = ground arith in rw clear (omega arith)

pub one-Linked : Linked 0 0 ((5, 6) ∷ []) one_out (fresh_in 16 32) one_sent
one-Linked = record {
  out_size = refl;
  in_size = refl;
  same_tbl = refl;
  same_wb = refl;
  sent = refl;
  seen = refl;
  received = refl;
  written_back = refl;
  seen_le = omega arith;
  fits = omega arith;
  messages = (record { cmd = refl; payload = refl; small = omega arith }, tt);
  old = IsOld-slots;
}

run_refines_example :
    run (recv ∷ send (5, 6) ∷ send (7, 8) ∷ recv ∷ []) (fresh_out 16 32) (fresh_in 16 32) cleared
    ≡ ok (run_queue (recv ∷ send (5, 6) ∷ send (7, 8) ∷ recv ∷ []) [])
run_refines_example =
    run_refines (recv ∷ send (5, 6) ∷ send (7, 8) ∷ recv ∷ []) start-Linked
      (omega arith, (omega arith, tt))

lrpc_send-Sent_example :
    Sent 0 ((5, 6) ∷ []) (7, 8) (fresh_in 16 32) (lrpc_send one_out 7 8 one_sent)
lrpc_send-Sent_example = lrpc_send-Sent 7 8 one-Linked (omega arith)

lrpc_recv-Received_example : Received 0 ((5, 6) ∷ []) one_out (lrpc_recv (fresh_in 16 32) one_sent)
lrpc_recv-Received_example = lrpc_recv-Received ((5, 6) ∷ []) one-Linked
