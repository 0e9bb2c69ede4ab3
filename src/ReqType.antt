-- ===== src/ReqType.antt =====
-- include/psp/libos/Request.hh: the types of requests, with their names.
pub mod Names
use Prim.Native.String.{String}
use text.Mathlib.Text.{◌==◌}
use psp.Base.{Bool, true, false, if◌then◌else◌}

-- `ReqType`
pub data ReqType : Type 0 where
  unknown : ReqType
  short : ReqType
  long : ReqType
  page : ReqType
  regex : ReqType
  new_order : ReqType
  payment : ReqType
  delivery : ReqType
  order_status : ReqType
  stock_level : ReqType
  get : ReqType
  scan : ReqType

-- `req_type_str`
unfoldable pub req_type_str : ReqType → String
req_type_str unknown = "UNKNOWN"
req_type_str short = "SHORT"
req_type_str long = "LONG"
req_type_str page = "PAGE"
req_type_str regex = "REGEX"
req_type_str new_order = "NewOrder"
req_type_str payment = "Payment"
req_type_str delivery = "Delivery"
req_type_str order_status = "OrderStatus"
req_type_str stock_level = "StockLevel"
req_type_str get = "GET"
req_type_str scan = "SCAN"

-- `str_to_type`
unfoldable pub str_to_type : String → ReqType
str_to_type type =
    if type == "REGEX"
    then regex
    else if type == "PAGE"
    then page
    else if type == "Payment"
    then payment
    else if type == "NewOrder"
    then new_order
    else if type == "Delivery"
    then delivery
    else if type == "StockLevel"
    then stock_level
    else if type == "OrderStatus"
    then order_status
    else if type == "SHORT"
    then short
    else if type == "LONG"
    then long
    else if type == "GET"
    then get
    else if type == "SCAN"
    then scan
    else unknown
