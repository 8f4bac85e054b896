-- ===== src/Defrag/Fragments.antt =====
-- What a reassembly buffer holds while the fragments of one packet arrive in any order
-- (libknet/threads_rx.c:_pckt_defrag).
use kronosnet.Base.{
  ℕ, ◌+◌, ◌-◌, ◌*◌, ◌/◌, ◌%◌, ◌≤◌, ◌<◌, ◌≡◌, ◌⊎◌, inr, refl, true, false, none, some, arith, ◌==◌,
  if◌then◌else◌, truthy, update, move,
}
use kronosnet.State.{DefragBuf}
use kronosnet.Defrag.{
  Fragment, max_packet_size, note_size, place, finish, count_fragment, add_fragment,
}
use kronosnet.Defrag.Marks.{marks, marks-update, marks-le}
use kronosnet.Defrag.Layout.{div_slot, slot_div, div_below, slot_mono}

-- The k-th of `n` fragments (from 1) of a packet: `mtu` bytes each, and `last` in the final one.
unfoldable pub fragment : (ℕ → ℕ) → ℕ → ℕ → ℕ → ℕ → Fragment
fragment packet mtu n last k = record {
  payload = λ j. packet ((k - 1) * mtu + j);
  len = if k == n then last else mtu;
  frags = n;
  frag_seq = k;
}

module _ (packet : ℕ → ℕ) (mtu n last : ℕ) where
  pub record Partial (b : DefragBuf) : Type 0 where
    pub used : truthy b.in_use ≡ true
    pub recv : b.frag_recv ≡ marks n b.frag_map
    pub size : (b.frag_size ≡ 0) ⊎ (b.frag_size ≡ mtu)
    pub sized : (k : ℕ) → 0 < k → k < n → truthy (b.frag_map k) ≡ true → b.frag_size ≡ mtu
    pub first : truthy b.last_first ≡ true → truthy (b.frag_map n) ≡ true
    pub body :
        (x : ℕ) → x < (n - 1) * mtu → truthy (b.frag_map (x / mtu + 1)) ≡ true → b.buf x ≡ packet x
    pub last_size : truthy (b.frag_map n) ≡ true → b.last_frag_size ≡ last
    pub last_stored :
        (j : ℕ)
        → truthy (b.frag_map n) ≡ true
        → truthy b.last_first ≡ true
        → j < last
        → b.buf (max_packet_size - last + j) ≡ packet ((n - 1) * mtu + j)
    pub last_placed :
        (j : ℕ)
        → truthy (b.frag_map n) ≡ true
        → truthy b.last_first ≡ false
        → j < last
        → b.buf ((n - 1) * mtu + j) ≡ packet ((n - 1) * mtu + j)

-- What the buffer becomes, by the three ways to store a fragment.
module _ (packet : ℕ → ℕ) (mtu n last : ℕ) (b : DefragBuf) where
  abbrev pub marked : ℕ → DefragBuf → DefragBuf
  marked k c = record c { frag_recv = (c.frag_recv + 1) % 256; frag_map = update c.frag_map k 1 }

  abbrev pub with_body : ℕ → DefragBuf
  with_body k = marked k (record b {
    frag_size = mtu;
    buf = move b.buf ((k - 1) * mtu) (λ j. packet ((k - 1) * mtu + j)) 0 mtu;
  })

  abbrev pub with_last : DefragBuf
  with_last = marked n (record b {
    last_frag_size = last;
    buf = move b.buf ((n - 1) * b.frag_size) (λ j. packet ((n - 1) * mtu + j)) 0 last;
  })

  abbrev pub with_last_first : DefragBuf
  with_last_first = marked n (record b {
    buf = move b.buf (max_packet_size - last) (λ j. packet ((n - 1) * mtu + j)) 0 last;
    last_first = 1;
    last_frag_size = last;
  })

module _ (packet : ℕ → ℕ) (mtu n last : ℕ) (pos : 0 < mtu) (many : 1 < n) (few : n < 255)
    (some_last : 0 < last) (fits : (n - 1) * mtu + last ≤ max_packet_size) (b : DefragBuf)
    (p : Partial packet mtu n last b) where
  body_end : (k : ℕ) → 0 < k → k < n → (k - 1) * mtu + mtu ≤ (n - 1) * mtu
  body_end k h lt = slot_mono mtu (k - 1) (n - 1) (omega arith)

  pub with_body-Partial :
      (k : ℕ)
      → 0 < k
      → k < n
      → truthy (b.frag_map k) ≡ false
      → Partial packet mtu n last (with_body packet mtu n last b k)
  with_body-Partial k h lt new = record {
    used = p.used;
    recv = ground (arith, p.recv, marks-update n k b.frag_map, marks-le n b.frag_map);
    size = inr refl;
    sized = λ _ _ _ _. refl;
    first = λ e. ground (arith, p.first e);
    body = λ x below e. ground (arith, p.body x below, div_slot mtu (k - 1) x, slot_div mtu x pos);
    last_size = λ e. ground (arith, p.last_size);
    last_stored = λ j e f below. ground (arith, p.last_stored j, body_end k h lt);
    last_placed = λ j e f below. ground (arith, p.last_placed j, body_end k h lt);
  }

  pub with_last-Partial :
      b.frag_size ≡ mtu
      → truthy (b.frag_map n) ≡ false
      → Partial packet mtu n last (with_last packet mtu n last b)
  with_last-Partial sized new = record {
    used = p.used;
    recv = ground (arith, p.recv, marks-update n n b.frag_map, marks-le n b.frag_map);
    size = p.size;
    sized = λ k h lt e. sized;
    first = λ e. ground arith;
    body = λ x below e. ground (arith, p.body x below, div_below mtu (n - 1) x pos below);
    last_size = λ e. refl;
    last_stored = λ j e f below. ground (arith, p.first);
    last_placed = λ j e f below. ground arith;
  }

  pub with_last_first-Partial :
      b.frag_size ≡ 0
      → truthy (b.frag_map n) ≡ false
      → Partial packet mtu n last (with_last_first packet mtu n last b)
  with_last_first-Partial unsized new = record {
    used = p.used;
    recv = ground (arith, p.recv, marks-update n n b.frag_map, marks-le n b.frag_map);
    size = p.size;
    sized = λ k h lt e. ground (arith, p.sized k);
    first = λ e. ground arith;
    body = λ x below e. ground (arith, p.sized (x / mtu + 1), div_below mtu (n - 1) x pos below);
    last_size = λ e. refl;
    last_stored = λ j e f below. ground arith;
    last_placed = λ j e f below. cc;
  }

  -- Which of the three the code computes.
  pub add_body :
      (k : ℕ)
      → 0 < k
      → k < n
      → truthy (b.frag_map k) ≡ false
      → add_fragment b (fragment packet mtu n last k) ≡ (
          let c = with_body packet mtu n last b k in
          if c.frag_recv == n then finish c n else some (c, none))
  unfolding add_fragment note_size place count_fragment fragment
  add_body k h lt new = ground (arith, body_end k h lt)

  pub add_last :
      b.frag_size ≡ mtu
      → truthy (b.frag_map n) ≡ false
      → add_fragment b (fragment packet mtu n last n) ≡ (
          let c = with_last packet mtu n last b in
          if c.frag_recv == n then finish c n else some (c, none))
  unfolding add_fragment note_size place count_fragment fragment
  add_last sized new = ground arith

  pub add_last_first :
      b.frag_size ≡ 0
      → truthy (b.frag_map n) ≡ false
      → add_fragment b (fragment packet mtu n last n) ≡ (
          let c = with_last_first packet mtu n last b in
          if c.frag_recv == n then finish c n else some (c, none))
  unfolding add_fragment note_size place count_fragment fragment
  add_last_first unsized new = ground arith

  pub add_again :
      (k : ℕ)
      → k ≤ n
      → truthy (b.frag_map k) ≡ true
      → add_fragment b (fragment packet mtu n last k) ≡ some (b, none)
  unfolding add_fragment fragment
  add_again k le old = ground arith
