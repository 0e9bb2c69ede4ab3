-- ===== src/Config/Policy.antt =====
-- include/psp/libos/su/DispatchSu.hh: the modes of the dispatcher and their names.
use Prim.Native.String.{String}
use text.Mathlib.Text.{◌==◌}
use psp.Base.{Bool, true, false, if◌then◌else◌, ◌≡◌, refl}

-- `dispatch_mode`
pub data DispatchMode : Type 0 where
  dfcfs : DispatchMode
  cfcfs : DispatchMode
  sjf : DispatchMode
  darc : DispatchMode
  edf : DispatchMode
  unknown_mode : DispatchMode

-- `dp_str`
unfoldable pub dp_str : DispatchMode → String
dp_str dfcfs = "DFCFS"
dp_str cfcfs = "CFCFS"
dp_str sjf = "SJF"
dp_str darc = "DARC"
dp_str edf = "EDF"
dp_str unknown_mode = "UNKNOWN"

-- `str_to_dp`
unfoldable pub str_to_dp : String → DispatchMode
str_to_dp dp =
    if dp == "CFCFS"
    then cfcfs
    else if dp == "DFCFS"
    then dfcfs
    else if dp == "SJF"
    then sjf
    else if dp == "DARC"
    then darc
    else if dp == "EDF"
    then edf
    else unknown_mode

abbrev pub is_cfcfs : DispatchMode → Bool
is_cfcfs cfcfs = true
is_cfcfs dp = false

-- `str_to_dp` reads back the name of every mode.
str_to_dp-dp_str : (dp : DispatchMode) → str_to_dp (dp_str dp) ≡ dp
unfolding str_to_dp dp_str
str_to_dp-dp_str dfcfs = refl
str_to_dp-dp_str cfcfs = refl
str_to_dp-dp_str sjf = refl
str_to_dp-dp_str darc = refl
str_to_dp-dp_str edf = refl
str_to_dp-dp_str unknown_mode = refl
