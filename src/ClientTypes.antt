-- ===== src/ClientTypes.antt =====
-- src/c++/apps/client/msg.hh and schedule.hh: the requests of the client and the types of its packets.
mod Examples
pub mod Names
use Prim.Native.String.{String}
use text.Mathlib.Text.{◌==◌}
use psp.Base.{ℕ, Ptr, if◌then◌else◌}
use psp.ReqType.{
  ReqType, unknown, page, regex, new_order, payment, delivery, order_status, stock_level,
}

-- `pkt_type` and `str_to_ptype`
pub data PktType : Type 0 where
  psp_mb : PktType
  ix : PktType
  raw : PktType
  other : PktType

unfoldable pub str_to_ptype : String → PktType
str_to_ptype type =
    if type == "PSP_MB"
    then psp_mb
    else if type == "IX"
    then ix
    else if type == "RAW"
    then raw
    else other

-- `ClientRequest`, and its own `str_to_type`
pub record ClientRequest : Type 0 where
  pub id : ℕ
  pub mbuf : Ptr
  pub run_ns : ℕ
  pub type : ReqType
  pub sending : ℕ
  pub completed : ℕ
  pub schedule_id : ℕ

unfoldable pub client_str_to_type : String → ReqType
client_str_to_type type =
    if type == "REGEX"
    then regex
    else if type == "PAGE"
    then page
    else if type == "Payment"
    then payment
    else if type == "NewOrder"
    then new_order
    else if type == "Delivery"
    then delivery
    else if type == "StockLevel"
    then stock_level
    else if type == "OrderStatus"
    then order_status
    else unknown
