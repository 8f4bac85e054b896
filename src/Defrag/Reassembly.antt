-- ===== src/Defrag/Reassembly.antt =====
-- A packet is handed over once all its fragments have arrived, in any order, and is the packet
-- that was sent (libknet/threads_rx.c:_pckt_defrag).
use kronosnet.Base.{
  ℕ, ◌+◌, ◌-◌, ◌*◌, ◌≤◌, ◌<◌, ◌≡◌, inl, inr, refl, sym, ap, ◌≢◌, true, false, ◌||◌, none, some,
  List, [], ◌∷◌, arith, ◌==◌, truthy, Bool-cases,
}
use mathlib.Core.Bool.{false≢true}
use kronosnet.State.{Timespec, DefragBuf, zero_defrag_buf}
use kronosnet.Defrag.{max_packet_size, claim}
use kronosnet.Defrag.Marks.{marks, marks-le, marks-zero, marks_all, marks_unmarked}
use kronosnet.Defrag.Fragments.{fragment, Partial, add_again}
use kronosnet.Defrag.Assemble.{
  Arrival, assemble, assemble_next, assemble_done, Order, occurs, Between, arrivals, Stored, store,
  finished, finish_lem, finished_lem, Delivers,
}

module _ (packet : ℕ → ℕ) (mtu n last : ℕ) (pos : 0 < mtu) (many : 1 < n) (few : n < 255)
    (some_last : 0 < last) (fits : (n - 1) * mtu + last ≤ max_packet_size) where
  -- The buffer as it is when the next fragment is added.
  claim-Partial :
      (seq : ℕ) (now : Timespec) (b : DefragBuf)
      → Partial packet mtu n last b
      → Partial packet mtu n last (claim b seq now)
  unfolding claim
  claim-Partial seq now b p = rw p.used p'
    where
      p' : Partial packet mtu n last (record b { last_update = now })
      p' = record {
        used = p.used;
        recv = p.recv;
        size = p.size;
        sized = p.sized;
        first = p.first;
        body = p.body;
        last_size = p.last_size;
        last_stored = p.last_stored;
        last_placed = p.last_placed;
      }

  frag_map-claim :
      (seq : ℕ) (now : Timespec) (b : DefragBuf)
      → Partial packet mtu n last b
      → (claim b seq now).frag_map ≡ b.frag_map
  unfolding claim
  frag_map-claim seq now b p = rw p.used

  module _ (seq : ℕ) (b : DefragBuf) (now : Timespec) (k : ℕ) (ks : Order)
      (p : Partial packet mtu n last (claim b seq now)) where
    abbrev first_arrival : Arrival
    first_arrival = (fragment packet mtu n last k, now)

    abbrev rest : List Arrival
    rest = arrivals packet mtu n last ks

    assemble_again :
        k ≤ n
        → truthy ((claim b seq now).frag_map k) ≡ true
        → assemble seq b (first_arrival ∷ rest) ≡ assemble seq (claim b seq now) rest
    assemble_again le old =
        assemble_next seq b (claim b seq now) first_arrival rest
          (add_again packet mtu n last pos many few some_last fits (claim b seq now) p k le old)

    assemble_last :
        (s : Stored packet mtu n last pos many few some_last fits (claim b seq now) k)
        → s.next.frag_recv ≡ n
        → Delivers packet mtu n last pos many few some_last fits
            (assemble seq b (first_arrival ∷ rest))
    assemble_last s e =
        let full : marks n s.next.frag_map ≡ n = ground (arith, s.partial.recv) in
        let (c, eq) =
          finish_lem packet mtu n last pos many few some_last fits s.next s.partial full in
        (
          finished packet mtu n last pos many few some_last fits s.next,
          assemble_done seq b c first_arrival rest _ (ground (arith, s.step, eq)),
          finished_lem packet mtu n last pos many few some_last fits s.next s.partial full,
        )

    assemble_more :
        (s : Stored packet mtu n last pos many few some_last fits (claim b seq now) k)
        → s.next.frag_recv ≢ n
        → assemble seq b (first_arrival ∷ rest) ≡ assemble seq s.next rest
    assemble_more s ne = assemble_next seq b s.next first_arrival rest (ground (arith, s.step))

  assemble_all :
      (seq : ℕ) (b : DefragBuf) (ks : Order)
      → Partial packet mtu n last b
      → marks n b.frag_map < n
      → Between n ks
      → ((k : ℕ) → 0 < k → k ≤ n → (truthy (b.frag_map k) || occurs k ks) ≡ true)
      → Delivers packet mtu n last pos many few some_last fits
          (assemble seq b (arrivals packet mtu n last ks))
  assemble_all seq b [] q unfinished ok all =
      absurd (omega (arith, marks_all n b.frag_map (λ k h le. ground (arith, all k h le))))
  assemble_all seq b ((k, now) ∷ ks) q unfinished (h, le, ok) all =
      let p = claim-Partial seq now b q in
      let same = frag_map-claim seq now b q in
      let at = λ (j : ℕ). ap (λ (f : ℕ → ℕ). f j) same in
      elim (Bool-cases (truthy ((claim b seq now).frag_map k))) [
        | inl old ↦ rw (assemble_again seq b now k ks p le old) (
            assemble_all seq (claim b seq now) ks p (rw same unfinished) ok
              (λ j a c. ground (arith, all j a c, at j, at k)))
        | inr new ↦
            let s =
              store packet mtu n last pos many few some_last fits (claim b seq now) k p h le new in
            elim (Bool-cases (s.next.frag_recv == n)) [
              | inl e ↦ assemble_last seq b now k ks p s (ground arith)
              | inr e ↦ rw (assemble_more seq b now k ks p s (ground arith)) (
                  assemble_all seq s.next ks s.partial
                    (ground (arith, s.partial.recv, marks-le n s.next.frag_map)) ok
                    (λ j a c. ground (arith, all j a c, at j, ap (λ (f : ℕ → ℕ). f j) s.marks_of)))
            ]
      ]

  assemble_missing :
      (seq : ℕ) (b : DefragBuf) (ks : Order) (m : ℕ)
      → Partial packet mtu n last b
      → Between n ks
      → 0 < m
      → m ≤ n
      → truthy (b.frag_map m) ≡ false
      → occurs m ks ≡ false
      → assemble seq b (arrivals packet mtu n last ks) ≡ some none
  assemble_missing seq b [] m q ok a c new absent = unfold assemble in refl
  assemble_missing seq b ((k, now) ∷ ks) m q (h, le, ok) a c new absent =
      let p = claim-Partial seq now b q in
      let same = ap (λ (f : ℕ → ℕ). f m) (frag_map-claim seq now b q) in
      elim (Bool-cases (truthy ((claim b seq now).frag_map k))) [
        | inl old ↦ rw (assemble_again seq b now k ks p le old) (
            assemble_missing seq (claim b seq now) ks m p ok a c (ground (arith, same))
              (ground arith))
        | inr fresh ↦
            let s =
              store packet mtu n last pos many few some_last fits (claim b seq now) k p h le
                fresh in
            let still : truthy (s.next.frag_map m) ≡ false =
              ground (arith, same, ap (λ (f : ℕ → ℕ). f m) s.marks_of) in
            rw
              (assemble_more seq b now k ks p s
                (λ e. omega (arith, s.partial.recv, marks_unmarked n m s.next.frag_map a c still)))
              (assemble_missing seq s.next ks m s.partial ok a c still (ground arith))
      ]

  free-Partial :
      (seq : ℕ) (now : Timespec) (b : DefragBuf)
      → truthy b.in_use ≡ false
      → Partial packet mtu n last (claim b seq now) × ((claim b seq now).frag_map ≡ (λ _. 0))
  unfolding claim
  free-Partial seq now b idle = rw idle (p, refl)
    where
      p :
          Partial packet mtu n last
            (record zero_defrag_buf { in_use = 1; pckt_seq = seq; last_update = now })
      p = record {
        used = refl;
        recv = sym (marks-zero n);
        size = inl refl;
        sized = λ k a c e. cc;
        first = λ e. cc;
        body = λ x a e. cc;
        last_size = λ e. cc;
        last_stored = λ j e f a. cc;
        last_placed = λ j e f a. cc;
      }

  assemble-claim :
      (seq : ℕ) (now : Timespec) (b : DefragBuf) (k : ℕ) (ks : Order)
      → assemble seq b (arrivals packet mtu n last ((k, now) ∷ ks))
        ≡ assemble seq (claim b seq now) (arrivals packet mtu n last ((k, now) ∷ ks))
  unfolding assemble claim
  assemble-claim seq now b k ks = ground (arith, Bool-cases (truthy b.in_use))

  -- From a buffer that is free, in whatever state it was left: the fragments in any order, with
  -- repetitions, make up the packet as soon as the last missing one is there.
  pub assemble_any_order :
      (seq : ℕ) (b : DefragBuf) (ks : Order)
      → truthy b.in_use ≡ false
      → Between n ks
      → ((k : ℕ) → 0 < k → k ≤ n → occurs k ks ≡ true)
      → Delivers packet mtu n last pos many few some_last fits
          (assemble seq b (arrivals packet mtu n last ks))
  assemble_any_order seq b [] idle ok all = absurd (false≢true (all 1 (omega arith) (omega arith)))
  assemble_any_order seq b ((k, now) ∷ ks) idle ok all =
      let (p, none_yet) = free-Partial seq now b idle in
      rw (assemble-claim seq now b k ks) (
        assemble_all seq (claim b seq now) ((k, now) ∷ ks) p
          (omega (arith, marks-zero n, ap (marks n) none_yet)) ok
          (λ j a c. ground (arith, all j a c)))

  -- A buffer that is free takes fragments of one packet in any order and with any repetitions: while
  -- one of them is missing nothing is handed over, and no access leaves an array. The sizes are those
  -- of a packet that was cut, and fit the buffer.
  pub assemble_incomplete :
      (seq : ℕ) (b : DefragBuf) (ks : Order) (m : ℕ)
      → truthy b.in_use ≡ false
      → Between n ks
      → 0 < m
      → m ≤ n
      → occurs m ks ≡ false
      → assemble seq b (arrivals packet mtu n last ks) ≡ some none
  assemble_incomplete seq b [] m idle ok a c absent = unfold assemble in refl
  assemble_incomplete seq b ((k, now) ∷ ks) m idle ok a c absent =
      let (p, none_yet) = free-Partial seq now b idle in
      rw (assemble-claim seq now b k ks) (
        assemble_missing seq (claim b seq now) ((k, now) ∷ ks) m p ok a c (rw none_yet refl) absent)
