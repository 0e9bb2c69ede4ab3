-- ===== src/Lrpc/Slots.antt =====
-- The masks of lrpc.h in arithmetic, for the queue length in use: which slot a position has, and
-- how the parity bit tells one lap round the table from the next.
use psp.Base.{ℕ, ◌+◌, ◌-◌, ◌*◌, ◌/◌, ◌%◌, ◌^◌, ◌<◌, bit_and, bit_or, ◌≡◌, arith}
use psp.Base.Bits.{bit_and-mask, bit_and-bit, bit_or-bit, bit_or-zero}
use psp.Lrpc.{parity, slot, done_parity, cmd_mask}

-- 1 on the laps whose messages carry no parity bit
abbrev pub turn : ℕ → ℕ
turn i = i / 4096 % 2

pub slot_lem : (i : ℕ) → slot (i % 2 ^ 32) 4096 ≡ i % 4096
slot_lem i = omega (arith, bit_and-mask 12 (i % 2 ^ 32))

pub parity_lem : (i : ℕ) → parity (i % 2 ^ 32) 4096 ≡ (1 - turn i) * 2 ^ 63
parity_lem i = ground (arith, bit_and-bit 12 (i % 2 ^ 32))

pub parity_bit : (c : ℕ) → bit_and c done_parity ≡ c / 2 ^ 63 % 2 * 2 ^ 63
parity_bit c = bit_and-bit 63 c

pub cmd_bits : (c : ℕ) → bit_and c cmd_mask ≡ c % 2 ^ 63
cmd_bits c = bit_and-mask 63 c

-- the command that is stored at position `i`
pub stamp_lem :
    (c i : ℕ) → c < 2 ^ 63 → bit_or c (parity (i % 2 ^ 32) 4096) ≡ c + (1 - turn i) * 2 ^ 63
stamp_lem c i h = rw (parity_lem i) (ground (arith, bit_or-bit 63 c h, bit_or-zero c))
