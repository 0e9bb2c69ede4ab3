-- ===== src/Request/Examples.antt =====
-- A ring with one request.
use psp.Base.{◌≡◌, refl, [], ◌∷◌, arith}
use psp.ReqType.{unknown}
use psp.Request.{RequestType, push_to_rqueue}
use psp.Request.Ring.{IsRing, pushed, push_status, push_to_rqueue-IsRing}

abbrev one_request : RequestType
one_request = record {
  type = unknown;
  rqueue = λ i. 9;
  tsqueue = λ i. 77;
  rqueue_tail = 4095;
  rqueue_head = 4096;
}

one_request-IsRing : IsRing 4095 (9 ∷ []) (77 ∷ []) one_request
one_request-IsRing = record {
  requests = (refl, tt);
  stamps = (refl, tt);
  same_length = refl;
  tail = refl;
  head = refl;
  fits = omega arith;
}

push_to_rqueue-IsRing_example :
    ((push_to_rqueue 10 78 one_request).0 ≡ push_status (9 ∷ []))
    × IsRing 4095
        (pushed (9 ∷ []) (9 ∷ []) 10)
        (pushed (9 ∷ []) (77 ∷ []) 78)
        (push_to_rqueue 10 78 one_request).1
push_to_rqueue-IsRing_example = push_to_rqueue-IsRing 10 78 one_request-IsRing
