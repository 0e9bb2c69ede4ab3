-- ===== src/Lrpc/Queue.antt =====
-- What a channel promises: a FIFO of at most `lrpc_q_len` messages.
use psp.Base.{
  ℕ, Bool, true, false, Option, none, some, List, [], ◌∷◌, ◌++◌, length, ltb, if◌then◌else◌,
}

-- `LRPC_Q_LEN`
abbrev pub lrpc_q_len : ℕ
lrpc_q_len = 4096

-- command and payload
abbrev pub Entry : Type 0
Entry = ℕ × ℕ

unfoldable pub send : List Entry → Entry → Bool × List Entry
send q e = if ltb (length q) lrpc_q_len then (true, q ++ (e ∷ [])) else (false, q)

unfoldable pub recv : List Entry → Option Entry × List Entry
recv [] = (none, [])
recv (e ∷ q) = (some e, q)
