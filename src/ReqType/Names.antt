-- ===== src/ReqType/Names.antt =====
-- The names of the types of requests.
use Prim.Native.String.{String}
use text.Mathlib.TextEquality.{eq_iff}
use psp.Base.{◌≡◌, ◌≢◌, refl, arith}
use psp.ReqType.{
  ReqType, unknown, short, long, page, regex, new_order, payment, delivery, order_status,
  stock_level, get, scan, req_type_str, str_to_type,
}

-- `str_to_type` reads back the name of every type.
pub str_to_type-req_type_str : (t : ReqType) → str_to_type (req_type_str t) ≡ t
unfolding str_to_type req_type_str
str_to_type-req_type_str unknown = refl
str_to_type-req_type_str short = refl
str_to_type-req_type_str long = refl
str_to_type-req_type_str page = refl
str_to_type-req_type_str regex = refl
str_to_type-req_type_str new_order = refl
str_to_type-req_type_str payment = refl
str_to_type-req_type_str delivery = refl
str_to_type-req_type_str order_status = refl
str_to_type-req_type_str stock_level = refl
str_to_type-req_type_str get = refl
str_to_type-req_type_str scan = refl

-- A text that `str_to_type` reads as a type other than `UNKNOWN` is the name of that type.
pub req_type_str-str_to_type :
    (s : String) → str_to_type s ≢ unknown → req_type_str (str_to_type s) ≡ s
unfolding str_to_type req_type_str
req_type_str-str_to_type s known = ground (
  arith,
  eq_iff s "REGEX",
  eq_iff s "PAGE",
  eq_iff s "Payment",
  eq_iff s "NewOrder",
  eq_iff s "Delivery",
  eq_iff s "StockLevel",
  eq_iff s "OrderStatus",
  eq_iff s "SHORT",
  eq_iff s "LONG",
  eq_iff s "GET",
  eq_iff s "SCAN",
)
