-- ===== src/OnwireV1/RoundTrip.antt =====
-- From libknet/onwire_v1.c:prep_tx_bufs_v1 on the sender to libknet/threads_rx.c:_pckt_defrag on
-- the receiver.
use kronosnet.Base.{
  ℕ, zero, suc, ◌+◌, ◌-◌, ◌*◌, ◌/◌, ◌%◌, ◌≤◌, ◌<◌, ◌≡◌, refl, sym, ap, subst, ◌∙◌, fun_ext, Bool,
  true, false, some, List, [], ◌∷◌, arith, ◌==◌, if◌then◌else◌, get_or, length, truthy,
}
use kronosnet.State.{Handle, DefragBuf}
use kronosnet.Defrag.{max_packet_size}
use kronosnet.Defrag.Layout.{slot_div}
use kronosnet.Defrag.Fragments.{fragment}
use kronosnet.Defrag.Assemble.{Arrival, assemble, Order, occurs, Between, arrivals}
use kronosnet.Defrag.Reassembly.{assemble_any_order}
use kronosnet.OnwireV1.{
  TxMsg, DataHeader, frag_count, split_loop, data_header, prep_tx_bufs_v1, received,
}
use kronosnet.OnwireV1.Split.{split_msg, get_or-split_loop, length-split_loop}

-- the number of fragments, before it is stored in a uint8_t
abbrev pub pieces : ℕ → ℕ → ℕ
pieces inlen mtu = (inlen + (mtu - 1)) / mtu

cover :
    (q inlen mtu : ℕ)
    → 0 < mtu
    → mtu < inlen
    → q * mtu ≤ inlen + (mtu - 1)
    → inlen + (mtu - 1) < q * mtu + mtu
    → (1 < q) × ((q - 1) * mtu < inlen) × (inlen ≤ q * mtu)
cover zero inlen mtu pos long a b = absurd (omega arith)
cover (suc zero) inlen mtu pos long a b = absurd (omega arith)
cover (suc (suc q)) inlen mtu pos long a b =
    let e : suc (suc q) - 1 ≡ suc q = omega arith in rw e (omega arith)

-- The pieces cover the data, and the last one is not empty.
pieces_lem :
    (inlen mtu : ℕ)
    → 0 < mtu
    → mtu < inlen
    → (1 < pieces inlen mtu)
      × ((pieces inlen mtu - 1) * mtu < inlen)
      × (inlen ≤ pieces inlen mtu * mtu)
pieces_lem inlen mtu pos long =
    let (a, b) = slot_div mtu (inlen + (mtu - 1)) pos in
    cover (pieces inlen mtu) inlen mtu pos long a b

-- the sender's messages as they arrive: each entry names a message (from 1) and the time
unfoldable pub sent_arrivals : (ℕ → ℕ) → List TxMsg → TxMsg → Order → List Arrival
sent_arrivals packet msgs pad [] = []
sent_arrivals packet msgs pad ((k, now) ∷ ks) =
    (received packet (get_or msgs (k - 1) pad), now) ∷ sent_arrivals packet msgs pad ks

received-split_msg :
    (packet : ℕ → ℕ) (h : DataHeader) (mtu n inlen k : ℕ)
    → h.frag_num ≡ n
    → 0 < k
    → k ≤ n
    → n < 255
    → received packet (split_msg h mtu n inlen (k - 1))
      ≡ fragment packet mtu n (inlen - (n - 1) * mtu) k
unfolding received split_msg fragment
received-split_msg packet h mtu n inlen k e a b c =
    λ i. record { payload = fun_ext offset i; len = length_eq i; frags = e i; frag_seq = seq_eq i }
  where
    offset : (j : ℕ) → packet (mtu * (k - 1) + j) ≡ packet ((k - 1) * mtu + j)
    offset j = ap packet (omega arith)

    seq_eq : (k - 1 + 1) % 256 ≡ k
    seq_eq = omega arith

    length_eq :
        (if k - 1 + 1 == n then inlen - (k - 1) * mtu else mtu)
        ≡ (if k == n then inlen - (n - 1) * mtu else mtu)
    length_eq = ground (arith, λ (q : k ≡ n). ap (λ (x : ℕ). inlen - (x - 1) * mtu) q)

module _ (knet_h : Handle) (packet : ℕ → ℕ) (inlen mtu seq channel bcast : ℕ) (compressed : Bool)
    (pad : TxMsg) (pos : 0 < mtu) (long : mtu < inlen) (fits : inlen ≤ max_packet_size)
    (few : pieces inlen mtu < 255) where
  abbrev pub msgs : List TxMsg
  msgs = prep_tx_bufs_v1 knet_h inlen mtu seq channel bcast compressed

  abbrev n : ℕ
  n = pieces inlen mtu

  abbrev common : DataHeader
  common = data_header knet_h inlen mtu seq channel bcast compressed

  frag_num_lem : common.frag_num ≡ n
  unfolding data_header frag_count
  frag_num_lem = omega arith

  msgs_lem : msgs ≡ split_loop n 0 inlen mtu common
  unfolding prep_tx_bufs_v1
  msgs_lem = ground (arith, frag_num_lem, pieces_lem inlen mtu pos long)

  -- The sender cuts the data in ceil(inlen / mtu) messages.
  length-msgs : length msgs ≡ n
  length-msgs = rw msgs_lem (length-split_loop n 0 inlen mtu common)

  get_or-msgs :
      (k : ℕ) → 0 < k → k ≤ n → get_or msgs (k - 1) pad ≡ split_msg common mtu n inlen (k - 1)
  get_or-msgs k a b =
      let (c, d, e) = pieces_lem inlen mtu pos long in
      let s : n ≡ suc (n - 1) = omega arith in
      let top : n ≡ 0 + (n - 1) + 1 = omega arith in
      let at : k - 1 ≡ 0 + (k - 1) = omega arith in
      let all : inlen ≡ inlen - 0 * mtu = omega arith in
      ap (λ ms. get_or ms (k - 1) pad) msgs_lem
      ∙ ap (λ t. get_or (split_loop t 0 inlen mtu common) (k - 1) pad) s
      ∙ ap (λ l. get_or (split_loop (suc (n - 1)) 0 l mtu common) (k - 1) pad) all
      ∙ get_or-split_loop (n - 1) 0 (k - 1) inlen mtu common pad (omega arith) (omega arith)
          (subst (λ t. inlen ≤ t * mtu) top e) (omega arith)
      ∙ ap (λ t. split_msg common mtu t inlen (0 + (k - 1))) (sym top)
      ∙ ap (λ t. split_msg common mtu n inlen t) (sym at)

  sent_arrivals_lem :
      (ks : Order)
      → Between n ks
      → sent_arrivals packet msgs pad ks ≡ arrivals packet mtu n (inlen - (n - 1) * mtu) ks
  unfolding sent_arrivals
  sent_arrivals_lem [] ok = refl
  sent_arrivals_lem ((k, now) ∷ ks) (a, b, ok) =
      let one =
        ap (received packet) (get_or-msgs k a b)
        ∙ received-split_msg packet common mtu n inlen k frag_num_lem a b few in
      λ i. (one i, now) ∷ sent_arrivals_lem ks ok i

  -- A packet that is longer than the MTU, and needs fewer than 255 fragments, is cut by the sender
  -- so that its messages, received in any order and with any repetitions by a buffer that is free
  -- (whatever it held before), make the receiver hand over a packet of the same length with the
  -- same bytes as soon as every message has arrived once.
  pub assemble-prep_tx_bufs :
      (b : DefragBuf) (ks : Order)
      → truthy b.in_use ≡ false
      → Between n ks
      → ((k : ℕ) → 0 < k → k ≤ n → occurs k ks ≡ true)
      → (out : ℕ → ℕ) × (assemble seq b (sent_arrivals packet msgs pad ks)
          ≡ some (some (inlen, out)))
        × ((x : ℕ) → x < inlen → out x ≡ packet x)
  assemble-prep_tx_bufs b ks idle ok all =
      let (c, d, e) = pieces_lem inlen mtu pos long in
      let whole : (n - 1) * mtu + (inlen - (n - 1) * mtu) ≡ inlen = omega arith in
      let (out, eq, same) =
        assemble_any_order packet mtu n (inlen - (n - 1) * mtu) pos c few (omega arith)
          (rw whole fits) seq b ks idle ok all in
      (
        out,
        ap (assemble seq b) (sent_arrivals_lem ks ok) ∙ eq ∙ ap (λ t. some (some (t, out))) whole,
        λ x below. same x (omega arith),
      )
