-- ===== src/SeqNum/Refine.antt =====
-- The receiver's duplicate detection (libknet/host.c:_seq_num_lookup and _seq_num_set, called as
-- libknet/threads_rx.c:_process_data calls them) against a receiver that remembers every number.
use kronosnet.Base.{
  ℕ, ◌+◌, ◌%◌, ◌≤◌, ◌<◌, ◌≡◌, refl, Bool, true, false, not, List, [], ◌∷◌, ◌&&◌, arith, ◌==◌,
  if◌then◌else◌, truthy,
}
use kronosnet.State.{Host, Handle}
use kronosnet.SeqNum.{cbuffer_size, seq_num_lookup, seq_num_set}
use kronosnet.SeqNum.Window.{rx_seq_num-seq_num_set}
use kronosnet.SeqNum.Lookup.{later, IsLooked, lookup_in_window}

-- An arriving packet: its sequence number, and the outcome of the steps of `_process_data` between
-- the look-up and the mark, which are not modelled: whether the packet is delivered.
abbrev pub Arrival : Type 0
Arrival = ℕ × Bool

-- The order in which `_process_data` looks up a number and marks it: only what was delivered is
-- marked.
unfoldable pub arrive : Handle → Host → Arrival → Bool × Host
arrive knet_h host (s, ok) =
    let (fresh, c) = seq_num_lookup knet_h host s 0 0 in
    if truthy fresh && ok then (true, seq_num_set c s 0) else (false, c)

unfoldable pub deliveries : Handle → Host → List Arrival → List Bool
deliveries knet_h host [] = []
deliveries knet_h host (a ∷ rest) =
    let (out, host') = arrive knet_h host a in out ∷ deliveries knet_h host' rest

abbrev pub contains : ℕ → List ℕ → Bool
contains s [] = false
contains s (x ∷ xs) = if s == x then true else contains s xs

-- The specification: deliver what can be delivered and has not been before.
unfoldable pub ideal_deliveries : List ℕ → List Arrival → List Bool
ideal_deliveries seen [] = []
ideal_deliveries seen ((s, ok) ∷ rest) =
    if contains s seen
    then false ∷ ideal_deliveries seen rest
    else (if ok
        then true ∷ ideal_deliveries (s ∷ seen) rest
        else false ∷ ideal_deliveries seen rest)

-- Numbers that arrive fewer than 4096 late, or at most 61440 ahead, with no rollover.
abbrev pub InWindow : ℕ → List Arrival → Type 0
InWindow rx [] = Unit
InWindow rx ((s, ok) ∷ rest) =
    (0 < s) × (s < 65536) × (rx < s + 4096) × (s ≤ rx + 61440) × InWindow (later rx s) rest

abbrev AllBelow : ℕ → List ℕ → Type 0
AllBelow n [] = Unit
AllBelow n (x ∷ xs) = (x ≤ n) × AllBelow n xs

-- The circular buffer holds what has been seen of the last 4096 numbers.
pub record Tracks (host : Host) (seen : List ℕ) : Type 0 where
  pub started : 0 < host.rx_seq_num
  pub small : host.rx_seq_num < 65536
  pub below : AllBelow host.rx_seq_num seen
  pub agree :
      (u : ℕ)
      → u ≤ host.rx_seq_num
      → host.rx_seq_num < u + 4096
      → truthy (host.circular_buffer (u % cbuffer_size)) ≡ contains u seen

AllBelow-mono : (m n : ℕ) (xs : List ℕ) → m ≤ n → AllBelow m xs → AllBelow n xs
AllBelow-mono m n [] h a = tt
AllBelow-mono m n (x ∷ xs) h a = (omega arith, AllBelow-mono m n xs h a.1)

contains_above : (n s : ℕ) (xs : List ℕ) → AllBelow n xs → n < s → contains s xs ≡ false
contains_above n s [] a h = refl
contains_above n s (x ∷ xs) a h = ground (arith, contains_above n s xs a.1 h)

circular_buffer-seq_num_set :
    (host : Host) (s i : ℕ)
    → (seq_num_set host s 0).circular_buffer i
      ≡ (if i == s % cbuffer_size then 1 else host.circular_buffer i)
unfolding seq_num_set
circular_buffer-seq_num_set host s i = ground arith

module _ (knet_h : Handle) (host : Host) (seen : List ℕ) (s : ℕ) (t : Tracks host seen)
    (pos : 0 < s) (small : s < 65536) (near : host.rx_seq_num < s + 4096)
    (ahead : s ≤ host.rx_seq_num + 61440) where
  abbrev looked : ℕ × Host
  looked = seq_num_lookup knet_h host s 0 0

  looked_lem : IsLooked host s looked
  looked_lem = lookup_in_window knet_h host s t.started t.small small near ahead

  looked_answer : truthy looked.0 ≡ not (contains s seen)
  looked_answer =
      ground (arith, looked_lem.answered, t.agree s, contains_above host.rx_seq_num s seen t.below)

  looked_agree :
      (u : ℕ)
      → u ≤ looked.1.rx_seq_num
      → looked.1.rx_seq_num < u + 4096
      → truthy (looked.1.circular_buffer (u % cbuffer_size)) ≡ contains u seen
  looked_agree u a b = ground (
    arith,
    looked_lem.moved,
    looked_lem.kept u,
    looked_lem.cleared u,
    t.agree u,
    contains_above host.rx_seq_num u seen t.below,
  )

  looked-Tracks : Tracks looked.1 seen
  looked-Tracks = record {
    started = ground (arith, looked_lem.moved, t.started);
    small = ground (arith, looked_lem.moved, t.small);
    below = AllBelow-mono host.rx_seq_num _ seen (ground (arith, looked_lem.moved)) t.below;
    agree = looked_agree;
  }

  marked-Tracks : Tracks (seq_num_set looked.1 s 0) (s ∷ seen)
  marked-Tracks = record {
    started = ground (arith, rx_seq_num-seq_num_set looked.1 s 0, looked-Tracks.started);
    small = ground (arith, rx_seq_num-seq_num_set looked.1 s 0, looked-Tracks.small);
    below = (
      ground (arith, rx_seq_num-seq_num_set looked.1 s 0, looked_lem.moved),
      AllBelow-mono host.rx_seq_num _ seen
          (ground (arith, rx_seq_num-seq_num_set looked.1 s 0, looked_lem.moved)) t.below,
    );
    agree = λ u a b. ground (
      arith,
      rx_seq_num-seq_num_set looked.1 s 0,
      looked_lem.moved,
      circular_buffer-seq_num_set looked.1 s (u % cbuffer_size),
      looked_agree u,
    );
  }

-- While the numbers do not roll over, and every one arrives fewer than 4096 behind or at most 61440
-- ahead of the newest one, in any order and with any repetitions, the receiver delivers exactly the
-- packets that a receiver with an unbounded memory of the delivered numbers would deliver. The
-- circular buffer agrees with that memory at the start.
pub deliveries_refine :
    (knet_h : Handle) (host : Host) (seen : List ℕ) (arrivals : List Arrival)
    → Tracks host seen
    → InWindow host.rx_seq_num arrivals
    → deliveries knet_h host arrivals ≡ ideal_deliveries seen arrivals
unfolding deliveries arrive ideal_deliveries
deliveries_refine knet_h host seen [] t w = refl
deliveries_refine knet_h host seen ((s, ok) ∷ rest) t (pos, small, near, ahead, w) =
    let c = seq_num_lookup knet_h host s 0 0 in
    let looked_t = looked-Tracks knet_h host seen s t pos small near ahead in
    let marked_t = marked-Tracks knet_h host seen s t pos small near ahead in
    let moved = (looked_lem knet_h host seen s t pos small near ahead).moved in
    let w' : InWindow c.1.rx_seq_num rest = rw moved w in
    ground (
      arith,
      looked_answer knet_h host seen s t pos small near ahead,
      deliveries_refine knet_h c.1 seen rest looked_t w',
      deliveries_refine knet_h (seq_num_set c.1 s 0) (s ∷ seen) rest marked_t
          (rw rx_seq_num-seq_num_set w'),
    )
