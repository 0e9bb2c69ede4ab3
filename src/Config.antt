-- ===== src/Config.antt =====
-- src/c++/libos/common/persephone.cc: how the types of requests in the configuration become the
-- dispatcher's tables, and how many queues and workers it sets up. What the file says is an
-- argument; include/psp/libos/su/DispatchSu.hh has the dispatcher's modes.
mod Examples
pub mod Policy
pub mod Registered
pub mod Order
pub mod Latest
use Prim.Native.String.{String}
use psp.Base.{
  ℕ, zero, suc, ◌+◌, ◌-◌, ◌*◌, ◌^◌, Bool, true, false, not, Option, none, some, List, [], ◌∷◌,
  length, ltb, ◌==◌, if◌then◌else◌, update, Run, ok, panic, fault, ◌>>=◌,
}
use psp.ReqType.{ReqType, unknown, str_to_type}
use psp.Client.{type_number}
use psp.Config.Policy.{DispatchMode, is_cfcfs}

-- `ReqType::LAST`
abbrev pub last_type : ℕ
last_type = 12

-- what the file says of a type: its name, and its mean service time as a whole number with its
-- deadline, if it has one
pub record TypeNode : Type 0 where
  pub type_name : String
  pub timing : Option (ℕ × ℕ)

-- a `RequestType` as it is made, without its ratio and its empty ring
pub record NewType : Type 0 where
  pub type : ReqType
  pub mean_ns : ℕ
  pub deadline : ℕ

-- a `std::map` by a number: in ascending order, and a key that is there gets the new value
abbrev pub OrderedMap : Type 0
OrderedMap = List (ℕ × NewType)

unfoldable pub insert : ℕ → NewType → OrderedMap → OrderedMap
insert k v [] = (k, v) ∷ []
insert k v ((k', v') ∷ m) =
    let rest = insert k v m in
    if ltb k k' then (k, v) ∷ (k', v') ∷ m else if k == k' then (k, v) ∷ m else (k', v') ∷ rest

-- the loop that registers the types, from type `i` on
unfoldable pub register : ℕ → List TypeNode → OrderedMap → OrderedMap
register i [] m = m
register i (node ∷ nodes) m = register (i + 1) nodes (elim node.timing [
  | some t ↦
      insert t.0 (record { type = str_to_type node.type_name; mean_ns = t.0; deadline = t.1 }) m
  | none ↦ insert i (record { type = str_to_type node.type_name; mean_ns = i + 1; deadline = 0 }) m
])

-- the tables of the dispatcher
pub record Tables : Type 0 where
  pub rtypes : ℕ → NewType
  pub n_rtypes : ℕ
  pub type_to_nsorder : ℕ → ℕ

-- an entry of both tables; `rtypes` has `LAST` places
unfoldable pub set_entry : ℕ → NewType → Tables → Run Tables
set_entry i r t =
    if ltb i last_type
    then ok (record t {
      rtypes = update t.rtypes i r;
      type_to_nsorder = update t.type_to_nsorder (type_number r.type) i;
    })
    else fault

-- the loop over the map, from place `i` on; the result counts the places
unfoldable pub fill : ℕ → OrderedMap → Tables → Run (ℕ × Tables)
fill i [] t = ok (i, t)
fill i ((k, r) ∷ m) t = do t' ← set_entry i r t; fill (i + 1) m t'

-- the part of the constructor that registers the types that the file declares, if it declares any;
-- `exit` is `panic` too
unfoldable pub register_types : DispatchMode → Option (List TypeNode) → Tables → Run Tables
register_types dp none t = if is_cfcfs dp then ok t else panic
register_types dp (some nodes) t = if ltb last_type (length nodes) then panic else (do
  (i, t') ← fill 0 (if is_cfcfs dp then [] else register 0 nodes []) t
  set_entry i (record { type = unknown; mean_ns = 0; deadline = 0 }) (record t' { n_rtypes = i }))
