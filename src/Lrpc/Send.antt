-- ===== src/Lrpc/Send.antt =====
-- `lrpc_send` on a linked channel: it sends exactly when the queue has room.
use mathlib.Core.Path.{subst}
use native.Mathlib.Decide.{dec_lt}
use psp.Base.{
  ℕ, ◌+◌, ◌-◌, ◌*◌, ◌%◌, ◌^◌, ◌≤◌, ◌<◌, bit_and, bit_or, ◌≡◌, refl, Bool, true, false, List, [],
  ◌∷◌, ◌++◌, length, length-append, arith, ltb, leb, ◌==◌, update, update_self, update_ne, sub32,
  Run, ok,
}
use psp.Lrpc.{Msg, Memory, ChanOut, ChanIn, done_parity, slot, parity, post, send_slow, lrpc_send}
use psp.Lrpc.Queue
use psp.Lrpc.Queue.{Entry, lrpc_q_len}
use psp.Lrpc.Slots.{turn, slot_lem, parity_bit, stamp_lem}
use psp.Lrpc.Linked.{Holds, HoldsAll, Linked}

-- the messages in flight are not in the slot that is written
HoldsAll-update :
    (t : ℕ → Msg) (v : Msg) (h j : ℕ) (q : List Entry)
    → h + length q ≤ j
    → j < h + 4096
    → HoldsAll t h q
    → HoldsAll (update t (j % 4096) v) h q
HoldsAll-update t v h j [] le lt a = a
HoldsAll-update t v h j (e ∷ q) le lt a = (
  rw (update_ne t (j % 4096) v (h % 4096) (omega arith)) a.0,
  HoldsAll-update t v (h + 1) j q (omega arith) (omega arith) a.1,
)

-- and the new one follows them
HoldsAll-append :
    (t : ℕ → Msg) (h j : ℕ) (q : List Entry) (e : Entry)
    → j ≡ h + length q
    → HoldsAll t h q
    → Holds (t (j % 4096)) j e
    → HoldsAll t h (q ++ (e ∷ []))
HoldsAll-append t h j [] e p a n =
    let at : j ≡ h = omega arith in (subst (λ k. Holds (t (k % 4096)) k e) at n, tt)
HoldsAll-append t h j (d ∷ q) e p a n = (a.0, HoldsAll-append t (h + 1) j q e (omega arith) a.1 n)

module _ {h s : ℕ} {q : List Entry} {out : ChanOut} {inn : ChanIn} {m : Memory} (c p : ℕ)
    (l : Linked h s q out inn m) (small : c < 2 ^ 63) where
  -- what the write stores at the next position
  abbrev stamped : Msg
  stamped = record { cmd = c + (1 - turn (h + length q)) * 2 ^ 63; payload = p }

  slot_next : slot out.send_head out.size ≡ (h + length q) % 4096
  slot_next = rw (l.sent, l.out_size) (slot_lem (h + length q))

  stamp_next : bit_or c (parity out.send_head out.size) ≡ c + (1 - turn (h + length q)) * 2 ^ 63
  stamp_next = rw (l.sent, l.out_size) (stamp_lem c (h + length q) small)

  table_post :
      (post out c p m).2.table inn.tbl ≡ update (m.table inn.tbl) ((h + length q) % 4096) stamped
  unfolding post
  table_post = rw (l.same_tbl, update_self, slot_next, stamp_next)

  abbrev table' : ℕ → Msg
  table' = update (m.table inn.tbl) ((h + length q) % 4096) stamped

  count : length (q ++ ((c, p) ∷ [])) ≡ length q + 1
  count = length-append q ((c, p) ∷ [])

  -- with room for one more, the write adds the message
  post-Linked :
      h + length q < s + 4096
      → Linked h s (q ++ ((c, p) ∷ [])) (post out c p m).1 inn (post out c p m).2
  unfolding post
  post-Linked room = record {
    out_size = l.out_size;
    in_size = l.in_size;
    same_tbl = l.same_tbl;
    same_wb = l.same_wb;
    sent = omega (arith, l.sent, count);
    seen = l.seen;
    received = l.received;
    written_back = l.written_back;
    seen_le = l.seen_le;
    fits = omega (arith, count);
    messages = rw table_post (
        HoldsAll-append table' h (h + length q) q (c, p) refl
          (HoldsAll-update (m.table inn.tbl) stamped h (h + length q) q (omega arith)
            (omega (arith, l.seen_le)) l.messages)
          (rw update_self (record { cmd = refl; payload = refl; small = small })));
    old = λ i lo hi. rw table_post (
        rw
          (update_ne (m.table inn.tbl) ((h + length q) % 4096) stamped (i % 4096)
            (omega (arith, count)))
          (l.old i (omega (arith, count)) hi));
  }

module _ {h s : ℕ} {q : List Entry} {out : ChanOut} {inn : ChanIn} {m : Memory}
    (l : Linked h s q out inn m) where
  -- the sender's own count of what is in flight
  pub cached_lem : sub32 out.send_head out.send_tail ≡ h + length q - s
  cached_lem = omega (arith, l.sent, l.seen, l.fits, l.seen_le)

  abbrev refreshed : ChanOut
  refreshed = record out { send_tail = m.word out.recv_head_wb }

  -- reading the write-back word tells the sender all that was received
  refresh-Linked : Linked h h q refreshed inn m
  refresh-Linked = record {
    out_size = l.out_size;
    in_size = l.in_size;
    same_tbl = l.same_tbl;
    same_wb = l.same_wb;
    sent = l.sent;
    seen = rw l.same_wb l.written_back;
    received = l.received;
    written_back = l.written_back;
    seen_le = omega arith;
    fits = omega (arith, l.fits, l.seen_le);
    messages = l.messages;
    old = l.old;
  }

-- the outcome of a send: what the queue does, on a channel that is linked again
pub record Sent (h : ℕ) (q : List Entry) (e : Entry) (inn : ChanIn)
    (r : Run (Bool × ChanOut × Memory)) : Type 0 where
  pub seen : ℕ
  pub out : ChanOut
  pub mem : Memory
  pub runs : r ≡ ok ((Queue.send q e).0, out, mem)
  pub linked : Linked h seen (Queue.send q e).1 out inn mem

module _ {h s : ℕ} {q : List Entry} {out : ChanOut} {inn : ChanIn} {m : Memory} (c p : ℕ)
    (l : Linked h s q out inn m) (small : c < 2 ^ 63) where
  no_parity : (bit_and c done_parity == 0) ≡ true
  no_parity = ground (arith, parity_bit c)

  posted :
      h + length q < s + 4096
      → Linked h s (Queue.send q (c, p)).1 (post out c p m).1 inn (post out c p m).2
  unfolding Queue.send
  posted room =
      let few : ltb (length q) lrpc_q_len ≡ true = ground (arith, l.seen_le) in
      rw few (post-Linked c p l small room)

  accepted : h + length q < s + 4096 → (Queue.send q (c, p)).0 ≡ true
  unfolding Queue.send
  accepted room = let few : ltb (length q) lrpc_q_len ≡ true = ground (arith, l.seen_le) in rw few

  post_ok :
      h + length q < s + 4096
      → ok (post out c p m) ≡ ok ((Queue.send q (c, p)).0, (post out c p m).1, (post out c p m).2)
  unfolding post
  post_ok room = rw (accepted room)

  -- with room by the sender's own count
  fast-Sent : h + length q < s + 4096 → Sent h q (c, p) inn (lrpc_send out c p m)
  unfolding lrpc_send
  fast-Sent room =
      let free : leb out.size (sub32 out.send_head out.send_tail) ≡ false =
        ground (arith, cached_lem l, l.out_size, l.fits, l.seen_le) in
      rw (no_parity, free)
        (record {
          seen = s;
          out = (post out c p m).1;
          mem = (post out c p m).2;
          runs = post_ok room;
          linked = posted room;
        })

  -- a full queue refuses the message
  refused :
      (out' : ChanOut)
      → Linked h h q out' inn m
      → length q ≡ 4096
      → Sent h q (c, p) inn (ok (false, out', m))
  unfolding Queue.send
  refused out' l' full =
      let more : ltb (length q) lrpc_q_len ≡ false = ground arith in
      record { seen = h; out = out'; mem = m; runs = rw more; linked = rw more l' }

module _ {h s : ℕ} {q : List Entry} {out : ChanOut} {inn : ChanIn} {m : Memory} (c p : ℕ)
    (l : Linked h s q out inn m) (small : c < 2 ^ 63) where
  -- with no room by its own count, the sender reads how far the receiver is
  slow-Sent : h + length q ≡ s + 4096 → Sent h q (c, p) inn (send_slow out c p m)
  unfolding send_slow
  slow-Sent full = rw enter (elim (dec_lt (length q) 4096) [
    | yes room ↦ rw (again room) (record {
      seen = h;
      out = (post (refreshed l) c p m).1;
      mem = (post (refreshed l) c p m).2;
      runs = post_ok c p (refresh-Linked l) small (omega arith);
      linked = posted c p (refresh-Linked l) small (omega arith);
    })
    | no none_left ↦
        rw (still none_left)
          (refused c p l small (refreshed l) (refresh-Linked l) (omega (arith, l.fits, l.seen_le)))
  ])
    where
      enter : (sub32 out.send_head out.send_tail == out.size) ≡ true
      enter = ground (arith, cached_lem l, l.out_size)

      now : sub32 out.send_head (m.word out.recv_head_wb) ≡ length q
      now = omega (arith, cached_lem (refresh-Linked l))

      again : length q < 4096 → (sub32 out.send_head (m.word out.recv_head_wb) == out.size) ≡ false
      again room = ground (arith, now, l.out_size)

      still :
          ¬ (length q < 4096) → (sub32 out.send_head (m.word out.recv_head_wb) == out.size) ≡ true
      still none_left = ground (arith, now, l.out_size, l.fits, l.seen_le)

  -- On a linked channel `lrpc_send` takes a message whose command leaves bit 63 clear exactly when
  -- fewer than 4096 are in flight, whatever the sender knew of the receiver, and leaves the
  -- channel linked.
  pub lrpc_send-Sent : Sent h q (c, p) inn (lrpc_send out c p m)
  unfolding lrpc_send
  lrpc_send-Sent = elim (dec_lt (h + length q) (s + 4096)) [
    | yes room ↦ fast-Sent c p l small room
    | no full ↦
        let busy : leb out.size (sub32 out.send_head out.send_tail) ≡ true =
          ground (arith, cached_lem l, l.out_size, l.fits, l.seen_le) in
        rw (no_parity c p l small, busy) (slow-Sent (omega (arith, l.fits)))
  ]
