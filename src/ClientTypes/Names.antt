-- ===== src/ClientTypes/Names.antt =====
-- The types that the client reads, against those of the server.
use Prim.Native.String.{String}
use text.Mathlib.TextEquality.{eq_iff}
use psp.Base.{◌≡◌, arith}
use psp.ReqType.{ReqType, unknown, short, long, get, scan, str_to_type}
use psp.ClientTypes.{client_str_to_type}

-- a type as the client knows it
abbrev pub known_type : ReqType → ReqType
known_type short = unknown
known_type long = unknown
known_type get = unknown
known_type scan = unknown
known_type t = t

-- The client's `str_to_type` agrees with the server's on every text, except that it reads the names
-- of the types `SHORT`, `LONG`, `GET` and `SCAN` as `UNKNOWN`.
pub client_str_to_type_lem : (s : String) → client_str_to_type s ≡ known_type (str_to_type s)
unfolding client_str_to_type str_to_type
client_str_to_type_lem s = ground (
  arith,
  eq_iff s "REGEX",
  eq_iff s "PAGE",
  eq_iff s "Payment",
  eq_iff s "NewOrder",
  eq_iff s "Delivery",
  eq_iff s "StockLevel",
  eq_iff s "OrderStatus",
  eq_iff s "SHORT",
  eq_iff s "LONG",
  eq_iff s "GET",
  eq_iff s "SCAN",
)
