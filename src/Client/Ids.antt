-- ===== src/Client/Ids.antt =====
-- The worker's number in the ids of requests, of client.hh.
use psp.Base.{ℕ, ◌*◌, ◌%◌, ◌^◌, ◌<◌, ◌≡◌, arith, bit_or}
use psp.Base.Bits.{bit_or-shift, bit_xor-shift, bit_xor-unshift}
use psp.Client.{tag}

-- the number in place
place : (w : ℕ) → w < 32 → w * 2 ^ 27 % 2 ^ 32 ≡ w * 2 ^ 27
place w h = omega arith

-- For an id below 2^27 and a worker below 32, `id ^= worker_id << 27` is what `|=` would be, and
-- doing it again gives the id back.
pub tag_lem :
    (w id : ℕ)
    → w < 32
    → id < 2 ^ 27
    → (tag w id ≡ bit_or id (w * 2 ^ 27)) × (tag w (tag w id) ≡ id)
tag_lem w id small low =
    let out = bit_xor-shift 27 w id low in
    (
      rw (place w small) (cc (out, bit_or-shift 27 w id low)),
      rw (place w small) (rw out (bit_xor-unshift 27 w id low)),
    )

pub tag_bound : (w id : ℕ) → w < 32 → id < 2 ^ 27 → tag w id < 2 ^ 32
tag_bound w id small low = rw (place w small) (rw (bit_xor-shift 27 w id low) (omega arith))
