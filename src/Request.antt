-- ===== src/Request.antt =====
-- include/psp/libos/Request.hh: the ring of requests of a type, and the operation of the dispatcher
-- that fills it (src/c++/libos/su/dispatch_su.cc).
mod Examples
pub mod Ring
use psp.Base.{ℕ, ◌+◌, ◌-◌, Bool, true, false, ◌==◌, if◌then◌else◌, bit_and, update, add32, sub32}
use psp.ReqType.{ReqType}

-- `RQUEUE_LEN` and `EXFULL`
abbrev pub rqueue_len : ℕ
rqueue_len = 4096

abbrev pub exfull : ℕ
exfull = 54

-- the fields of `RequestType` that its ring has
pub record RequestType : Type 0 where
  pub type : ReqType
  pub rqueue : ℕ → ℕ
  pub tsqueue : ℕ → ℕ
  pub rqueue_tail : ℕ
  pub rqueue_head : ℕ

-- `push_to_rqueue`; the result is the status
unfoldable pub push_to_rqueue : ℕ → ℕ → RequestType → ℕ × RequestType
push_to_rqueue req tsc rtype =
    if sub32 rtype.rqueue_head rtype.rqueue_tail == rqueue_len then (exfull, rtype) else (
      0,
      record rtype {
        tsqueue = update rtype.tsqueue (bit_and rtype.rqueue_head (rqueue_len - 1)) tsc;
        rqueue = update rtype.rqueue (bit_and rtype.rqueue_head (rqueue_len - 1)) req;
        rqueue_head = add32 rtype.rqueue_head 1;
      },
    )
