-- ===== src/Client/Examples.antt =====
-- Worker 3 with one request, which has no packet yet.
use psp.Base.{null, ◌≡◌, refl, none, List, arith, length, ok, panic}
use psp.ReqType.{short}
use psp.Udp.{eagain}
use psp.Udp.Examples.{two_packets, packets}
use psp.ClientTypes.{psp_mb, ClientRequest}
use psp.Client.{Client, gen_next_req}
use psp.Client.Messages.{Generated, gen_next_req-Generated}
use psp.Client.Retry.{gen_and_send, left_over, gen_next_req-aborts}

abbrev pub fifth_request : ClientRequest
fifth_request = record {
  id = 5;
  mbuf = 0;
  run_ns = 1000;
  type = short;
  sending = 0;
  completed = 0;
  schedule_id = 0;
}

abbrev pub worker_3 : Client
worker_3 = record {
  worker_id = 3;
  requests = λ i. fifth_request;
  size = 8;
  send_offset = 0;
  next_cr = none;
  udp = record two_packets { push_head = 3 };
  mbufs = packets;
  freed = List.[];
}

gen_next_req-Generated_example :
    (c : Client) × (gen_next_req 64 psp_mb 16 5 worker_3 ≡ ok (0, c))
    × Generated 64 psp_mb 16 5 worker_3 c
gen_next_req-Generated_example =
    gen_next_req-Generated 64 psp_mb 16 5 worker_3 refl (omega arith) refl (λ e. omega (arith, e))
      (cc) (omega arith) (λ raw. omega arith) (omega arith) (omega arith)

gen_next_req-aborts_example :
    (gen_next_req null psp_mb 16 5 worker_3 ≡ ok (eagain, left_over psp_mb 16 5 worker_3))
    × (gen_and_send 1 length 9 5 64 psp_mb 16 5 (left_over psp_mb 16 5 worker_3) ≡ panic)
gen_next_req-aborts_example =
    gen_next_req-aborts psp_mb 16 5 worker_3 1 length 9 64 refl (omega arith) refl refl
      (omega arith)
