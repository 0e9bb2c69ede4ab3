-- ===== src/Backend/Examples.antt =====
-- A request of type `SHORT` with id 5, from worker 0, in packet 7.
use psp.Base.{ℕ, ◌≡◌, refl, some, List, ◌++◌, update, update_ne}
use psp.Udp.{Mbufs, data_size}
use psp.Udp.Examples.{packets}
use psp.ClientTypes.{psp_mb, ClientRequest}
use psp.Client.{Client, word, answer_position, tag, store, bytes_of, put_message}
use psp.Client.Examples.{worker_3, fifth_request}
use psp.Client.Messages.{Generated}
use psp.Backend.{Counters, mb_process_request}
use psp.Backend.Answers.{IsBytes, round_trip}

-- the id that worker 3 writes in request 5
abbrev bytes : ℕ → ℕ
bytes = update (update (λ i. 0) 0 5) 3 24

abbrev received : Mbufs
received = λ p. record (packets 0) { payload = word bytes; l4_len = 0 }

abbrev counters : Counters
counters = record { n_requests = 0; n_first = 0; n_second = 0 }

-- the message of the client's request, by its bytes
abbrev message_bytes : List ℕ
message_bytes = bytes_of 4 (tag 3 5) ++ (bytes_of 4 1 ++ (bytes_of 4 4 ++ bytes_of 4 1000))

abbrev sent_request : ClientRequest
sent_request = record fifth_request { id = tag 3 5; mbuf = 64 }

abbrev prepared : Client
prepared = record worker_3 {
  next_cr = some 5;
  requests = update worker_3.requests 5 sent_request;
  mbufs = update packets 64 (put_message 16 message_bytes (packets 64));
}

prepared-Generated : Generated 64 psp_mb 16 5 worker_3 prepared
unfolding update
prepared-Generated = record {
  next = refl;
  mbuf = refl;
  others = λ j ne. update_ne worker_3.requests 5 sent_request j ne;
  answer = refl;
}

prepared-IsBytes : IsBytes (prepared.mbufs 64) (store 0 message_bytes (λ i. 12))
unfolding update
prepared-IsBytes i = refl

round_trip_example :
    (data_size ((mb_process_request 64 counters prepared.mbufs).2 64) ≡ 12)
    × (answer_position psp_mb 3 ((mb_process_request 64 counters prepared.mbufs).2 64) ≡ 5)
round_trip_example =
    round_trip 64 16 5 worker_3 prepared 64 counters prepared.mbufs
      (store 0 message_bytes (λ i. 12)) prepared-Generated prepared-IsBytes refl
