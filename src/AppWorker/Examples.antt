-- ===== src/AppWorker/Examples.antt =====
-- A worker with one request in the dispatcher's channel and two packets to send.
use psp.Base.{◌^◌, true, [], ◌∷◌, ◌==◌, ◌&&◌, if◌then◌else◌}
use psp.Lrpc.{Memory}
use psp.Lrpc.Linked.{Linked}
use psp.Lrpc.Runs.{fresh_in, fresh_out}
use psp.Lrpc.Examples.{no_msg}
use psp.Udp.Examples.{two_packets, packets}
use psp.Udp.Transmit.{fill_all}
use psp.AppWorker.{AppWorker, take_payload}

-- the request for the packet at 6 is in the first channel, and the second is empty
abbrev one_request : Memory
one_request = record {
  table = λ p i. if p == 16 && i == 0 then record { cmd = 2 ^ 63; payload = 6 } else no_msg;
  word = λ p. 0;
}

abbrev worker : AppWorker
worker = record {
  udp = two_packets;
  lrpc_ctx = record { ingress = λ k. fresh_in 16 32; egress = λ k. fresh_out 48 64 };
  notify = true;
  memory = one_request;
  mbufs = packets;
}

-- the worker after `app_dequeue`, which has sent both packets
abbrev sender : AppWorker
sender = record ((take_payload worker).1) {
  udp = record two_packets { push_tail = 5 };
  mbufs = fill_all 1 two_packets (9 ∷ 10 ∷ []) packets;
}
