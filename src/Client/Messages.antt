-- ===== src/Client/Messages.antt =====
-- `gen_next_req` of client.hh: what it writes is what an answer is found by.
use psp.Base.{
  ℕ, Ptr, null, ◌+◌, ◌-◌, ◌^◌, ◌≤◌, ◌<◌, ◌≡◌, ◌≢◌, refl, ap, ◌∙◌, false, none, some, List, [], ◌∷◌,
  ◌++◌, arith, ltb, lt→ltb, ne→==, update, update_self, update_ne, add32, ok,
}
use psp.Udp.{Mbuf}
use psp.ClientTypes.{PktType, psp_mb, ix, raw, other, ClientRequest}
use psp.Client.{
  Client, word, store, bytes_of, ones, ix_message, message, put_message, tag, get_mbuf,
  gen_next_req, answer_id, answer_position, type_number,
}
use psp.Client.Ids.{tag_lem, tag_bound}

-- what is stored later lies behind
store_before : (i : ℕ) (bs : List ℕ) (b : ℕ → ℕ) (j : ℕ) → j < i → store i bs b j ≡ b j
store_before i [] b j lt = refl
store_before i (x ∷ bs) b j lt =
    rw (store_before (i + 1) bs (update b i x) j (omega arith)) (update_ne b i x j (omega arith))

pub word-store :
    (i : ℕ) (bs : List ℕ) (b : ℕ → ℕ) (j : ℕ) → j + 4 ≤ i → word (store i bs b) j ≡ word b j
word-store i bs b j le =
    rw
      (
        store_before i bs b j (omega arith),
        store_before i bs b (j + 1) (omega arith),
        store_before i bs b (j + 2) (omega arith),
        store_before i bs b (j + 3) (omega arith),
      )
      refl

-- the bytes of a number, one by one
four_bytes : (v i : ℕ) (b : ℕ → ℕ) → v < 2 ^ 32 → word (store i (bytes_of 4 v) b) i ≡ v
unfolding update
four_bytes v i b lt = ground arith

pub word-bytes :
    (v i : ℕ) (rest : List ℕ) (b : ℕ → ℕ)
    → v < 2 ^ 32
    → word (store i (bytes_of 4 v ++ rest) b) i ≡ v
word-bytes v i rest b lt =
    word-store (i + 1 + 1 + 1 + 1) rest (store i (bytes_of 4 v) b) i (omega arith)
    ∙ four_bytes v i b lt

-- where the id stands in a message
abbrev pub id_at : PktType → ℕ
id_at ix = 18
id_at ptype = 0

-- the id in each message
message-id :
    (ptype : PktType) (pkt_size w : ℕ) (cr : ClientRequest) (pkt : Mbuf)
    → ptype ≢ other
    → 4 ≤ pkt_size
    → (ptype ≡ raw → pkt_size ≤ 982)
    → cr.id < 2 ^ 32
    → (len : ℕ) × (bs : List ℕ) × (message ptype pkt_size w cr ≡ ok (len, bs))
      × (answer_id ptype (put_message len bs pkt) ≡ cr.id)
unfolding message
message-id ix pkt_size w cr pkt known size most lt = (
  42,
  ix_message w cr,
  refl,
  word-bytes cr.id 18 (bytes_of 4 42 ++ (bytes_of 8 cr.run_ns ++ bytes_of 8 0))
      (store 0
        (bytes_of 2 (type_number cr.type) ++ (bytes_of 2 42 ++ (bytes_of 12 0 ++ bytes_of 2 w)))
        (λ i. pkt.payload i))
      lt,
)
message-id raw pkt_size w cr pkt known size most lt =
    let long : ltb pkt_size 4 ≡ false = ground arith in
    let short : ltb 982 pkt_size ≡ false = ground (arith, most refl) in
    let bs = bytes_of 4 cr.id ++ ones (pkt_size - 4) in
    (
      pkt_size,
      bs,
      rw (long, short) refl,
      word-bytes cr.id 0 (ones (pkt_size - 4)) (λ i. pkt.payload i) lt,
    )
message-id psp_mb pkt_size w cr pkt known size most lt = (
  16,
  bytes_of 4 cr.id ++ (bytes_of 4 (type_number cr.type) ++ (bytes_of 4 4 ++ bytes_of 4 cr.run_ns)),
  refl,
  word-bytes cr.id 0 (bytes_of 4 (type_number cr.type) ++ (bytes_of 4 4 ++ bytes_of 4 cr.run_ns))
      (λ i. pkt.payload i) lt,
)
message-id other pkt_size w cr pkt known size most lt = absurd (known refl)

-- the request that is built next, and what is known of it
module _ (alloc : Ptr) (ptype : PktType) (pkt_size send_index : ℕ) (c : Client) where
  abbrev pub next_position : ℕ
  next_position = add32 send_index c.send_offset

  abbrev pub next_request : ClientRequest
  next_request = c.requests next_position

  -- `gen_next_req` made the request ready in the packet `alloc`
  pub record Generated (c' : Client) : Type 0 where
    pub next : c'.next_cr ≡ some next_position
    pub mbuf : (c'.requests next_position).mbuf ≡ alloc
    pub others : (j : ℕ) → j ≢ next_position → c'.requests j ≡ c.requests j
    pub answer : answer_position ptype c.worker_id (c'.mbufs alloc) ≡ next_request.id

  -- When no request is prepared, `gen_next_req` prepares the next one of the schedule, which has no
  -- packet yet, in a packet that the pool gives, and leaves the other requests as they are: for a
  -- known type of packet, which has room for the id and, if it is a raw one, at most the 982 bytes that
  -- its buffer has behind the headers, a worker below 32 and an id below 2^27, an answer
  -- that carries this message is looked up at the id that the request had.
  pub gen_next_req-Generated :
      c.next_cr ≡ none
      → next_position < c.size
      → next_request.mbuf ≡ null
      → alloc ≢ null
      → ptype ≢ other
      → 4 ≤ pkt_size
      → (ptype ≡ raw → pkt_size ≤ 982)
      → c.worker_id < 32
      → next_request.id < 2 ^ 27
      → (c' : Client) × (gen_next_req alloc ptype pkt_size send_index c ≡ ok (0, c')) × Generated c'
  unfolding gen_next_req get_mbuf
  gen_next_req-Generated fresh inside empty given known size most small low =
      let cr : ClientRequest = record next_request { id = tag c.worker_id next_request.id } in
      let (len, bs, written, answers) =
        message-id ptype pkt_size c.worker_id cr (c.mbufs alloc) known size most
          (tag_bound c.worker_id next_request.id small low) in
      let i = next_position in
      let prepared : Client = record c {
        next_cr = some i;
        requests = update (update c.requests i cr) i (record cr { mbuf = alloc });
        mbufs = update c.mbufs alloc (put_message len bs (c.mbufs alloc));
      } in
      (
        prepared,
        rw (fresh, lt→ltb next_position c.size inside, written, empty, ne→== alloc null given) refl,
        record {
          next = refl;
          mbuf = rw (update_self (update c.requests i cr) i (record cr { mbuf = alloc })) refl;
          others = λ j ne.
              rw (update_ne (update c.requests i cr) i (record cr { mbuf = alloc }) j ne)
                (update_ne c.requests i cr j ne);
          answer =
              rw (update_self c.mbufs alloc (put_message len bs (c.mbufs alloc)))
                (ap (tag c.worker_id) answers ∙ (tag_lem c.worker_id next_request.id small low).1);
        },
      )
