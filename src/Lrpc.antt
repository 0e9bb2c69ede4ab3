-- ===== src/Lrpc.antt =====
-- include/psp/libos/io/lrpc.h: the shared-memory message channel between two threads.
-- A channel's `tbl` and `recv_head_wb` are addresses in a memory that both ends share.
pub mod Examples
pub mod Slots
pub mod Linked
pub mod Queue
pub mod Recv
pub mod Runs
pub mod Send
use psp.Base.{
  ℕ, Ptr, ◌+◌, ◌-◌, ◌^◌, bit_and, bit_or, Bool, true, false, not, Option, none, some, leb, ◌==◌,
  if◌then◌else◌, update, add32, sub32, Run, ok, panic,
}

-- `struct lrpc_msg`
pub record Msg : Type 0 where
  pub cmd : ℕ
  pub payload : ℕ

-- the message tables and the write-back words, by address
pub record Memory : Type 0 where
  pub table : Ptr → ℕ → Msg
  pub word : Ptr → ℕ

-- `struct lrpc_chan_out`
pub record ChanOut : Type 0 where
  pub tbl : Ptr
  pub recv_head_wb : Ptr
  pub send_head : ℕ
  pub send_tail : ℕ
  pub size : ℕ

-- `struct lrpc_chan_in`
pub record ChanIn : Type 0 where
  pub tbl : Ptr
  pub recv_head_wb : Ptr
  pub recv_head : ℕ
  pub size : ℕ

-- `LRPC_DONE_PARITY` and `LRPC_CMD_MASK`
abbrev pub done_parity : ℕ
done_parity = 2 ^ 63

abbrev pub cmd_mask : ℕ
cmd_mask = 2 ^ 63 - 1

-- `(head & size) ? 0 : LRPC_DONE_PARITY`
abbrev pub parity : ℕ → ℕ → ℕ
parity head size = if bit_and head size == 0 then done_parity else 0

-- `head & (size - 1)`
abbrev pub slot : ℕ → ℕ → ℕ
slot head size = bit_and head (sub32 size 1)

abbrev pub store_msg : Ptr → ℕ → Msg → Memory → Memory
store_msg p i v m = record m { table = update m.table p (update (m.table p) i v) }

-- The write that `lrpc_send` and `__lrpc_send` have in common.
unfoldable pub post : ChanOut → ℕ → ℕ → Memory → Bool × ChanOut × Memory
post chan cmd payload m = (
  true,
  record chan { send_head = add32 chan.send_head 1 },
  store_msg chan.tbl (slot chan.send_head chan.size)
      (record { cmd = bit_or cmd (parity chan.send_head chan.size); payload = payload }) m,
)

-- `__lrpc_send`
unfoldable pub send_slow : ChanOut → ℕ → ℕ → Memory → Run (Bool × ChanOut × Memory)
send_slow chan cmd payload m =
    if sub32 chan.send_head chan.send_tail == chan.size
    then (let chan' : ChanOut = record chan { send_tail = m.word chan.recv_head_wb } in
        if sub32 chan'.send_head chan'.send_tail == chan'.size
        then ok (false, chan', m)
        else ok (post chan' cmd payload m))
    else panic

-- `lrpc_send`
unfoldable pub lrpc_send : ChanOut → ℕ → ℕ → Memory → Run (Bool × ChanOut × Memory)
lrpc_send chan cmd payload m =
    if bit_and cmd done_parity == 0
    then (if leb chan.size (sub32 chan.send_head chan.send_tail)
        then send_slow chan cmd payload m
        else ok (post chan cmd payload m))
    else panic

-- `lrpc_get_cached_send_window` and `lrpc_get_cached_length`
unfoldable pub lrpc_get_cached_send_window : ChanOut → ℕ
lrpc_get_cached_send_window chan = add32 (sub32 chan.size chan.send_head) chan.send_tail

unfoldable pub lrpc_get_cached_length : ChanOut → ℕ
lrpc_get_cached_length chan = sub32 chan.send_head chan.send_tail

-- `lrpc_poll_send_tail`
unfoldable pub lrpc_poll_send_tail : ChanOut → Memory → ℕ × ChanOut
lrpc_poll_send_tail chan m =
    (m.word chan.recv_head_wb, record chan { send_tail = m.word chan.recv_head_wb })

-- `is_power_of_two`, as the initialisers use it on an `unsigned int`
abbrev pub is_power_of_two : ℕ → Bool
is_power_of_two x = if x == 0 then false else bit_and x (sub32 x 1) == 0

-- `lrpc_init_out`; `none` is `-EINVAL`
unfoldable pub lrpc_init_out : Ptr → ℕ → Ptr → Option ChanOut
lrpc_init_out tbl size recv_head_wb =
    if is_power_of_two size
    then some (record {
      tbl = tbl;
      recv_head_wb = recv_head_wb;
      send_head = 0;
      send_tail = 0;
      size = size;
    })
    else none

-- `lrpc_init_in`
unfoldable pub lrpc_init_in : Ptr → ℕ → Ptr → Option ChanIn
lrpc_init_in tbl size recv_head_wb =
    if is_power_of_two size
    then some (record { tbl = tbl; recv_head_wb = recv_head_wb; recv_head = 0; size = size })
    else none

-- the message that the receiver looks at
abbrev pub next_msg : ChanIn → Memory → Msg
next_msg chan m = m.table chan.tbl (slot chan.recv_head chan.size)

-- `lrpc_recv`; `some (cmd, payload)` is `true` with the two results
unfoldable pub lrpc_recv : ChanIn → Memory → Option (ℕ × ℕ) × ChanIn × Memory
lrpc_recv chan m =
    let msg = next_msg chan m in
    if bit_and msg.cmd done_parity == parity chan.recv_head chan.size
    then (let head = add32 chan.recv_head 1 in
        (
          some (bit_and msg.cmd cmd_mask, msg.payload),
          record chan { recv_head = head },
          record m { word = update m.word chan.recv_head_wb head },
        ))
    else (none, chan, m)

-- `lrpc_empty`
unfoldable pub lrpc_empty : ChanIn → Memory → Bool
lrpc_empty chan m =
    not (bit_and (next_msg chan m).cmd done_parity == parity chan.recv_head chan.size)
