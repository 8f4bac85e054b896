-- ===== src/SeqNum/Lookup.antt =====
-- What libknet/host.c:_seq_num_lookup answers, and what it leaves in the circular buffer.
use kronosnet.Base.{
  ℕ, ◌+◌, ◌%◌, ◌≤◌, ◌<◌, ◌≡◌, inl, inr, true, not, arith, ltb, if◌then◌else◌, truthy, Bool-cases,
}
use kronosnet.State.{Host, Handle}
use kronosnet.SeqNum.{
  cbuffer_size, seq_dist, clean_cbuf, advance, cbuf_of, prepare, seq_num_lookup, seq_num_set,
}
use kronosnet.SeqNum.Window.{
  rx_seq_num-prepare, cbuf_of-prepare, seq_dist_self, seq_dist_new, seq_num_set_seen,
  rx_seq_num-seq_num_set, clean_cbuf_cleared, clean_cbuf_kept, clean_cbuf_emptied,
}

-- A marked number in the ring is a duplicate.
pub lookup_seen :
    (knet_h : Handle) (host : Host) (s d : ℕ)
    → s < 65536
    → seq_dist host.rx_seq_num s < cbuffer_size
    → truthy (cbuf_of host d (s % cbuffer_size)) ≡ true
    → (seq_num_lookup knet_h host s d 0).0 ≡ 0
unfolding seq_num_lookup
lookup_seen knet_h host s d small near seen = ground (
  arith,
  rx_seq_num-prepare knet_h host s 0,
  cbuf_of-prepare knet_h host s d (s % cbuffer_size),
  seq_dist_self s small,
)

-- After a lookup the number is in the ring.
pub lookup_near :
    (knet_h : Handle) (host : Host) (s d clear : ℕ)
    → s < 65536
    → seq_dist (seq_num_lookup knet_h host s d clear).1.rx_seq_num s < cbuffer_size
unfolding seq_num_lookup advance
lookup_near knet_h host s d clear small = ground (arith, seq_dist_self s small)

-- A number that has been marked is a duplicate from then on, whatever the state was before and
-- however the buffers had to be cleared for it, in either of the two circular buffers.
pub lookup-set-lookup :
    (knet_h : Handle) (host : Host) (s d clear : ℕ)
    → s < 65536
    → (seq_num_lookup knet_h (seq_num_set (seq_num_lookup knet_h host s d clear).1 s d) s d 0).0 ≡ 0
lookup-set-lookup knet_h host s d clear small =
    let c = (seq_num_lookup knet_h host s d clear).1 in
    lookup_seen knet_h (seq_num_set c s d) s d small
      (ground (arith, rx_seq_num-seq_num_set c s d, lookup_near knet_h host s d clear small))
      (ground (arith, seq_num_set_seen c s d))

-- the newest number after an arrival
abbrev pub later : ℕ → ℕ → ℕ
later rx s = if ltb rx s then s else rx

-- What a lookup of a number in the window answers, and what it leaves in the buffer.
pub record IsLooked (host : Host) (s : ℕ) (r : ℕ × Host) : Type 0 where
  pub moved : r.1.rx_seq_num ≡ later host.rx_seq_num s
  pub answered : truthy r.0 ≡ (
      if ltb host.rx_seq_num s
      then true
      else not (truthy (host.circular_buffer (s % cbuffer_size))))
  pub kept :
      (u : ℕ)
      → u ≤ host.rx_seq_num
      → later host.rx_seq_num s < u + 4096
      → r.1.circular_buffer (u % cbuffer_size) ≡ host.circular_buffer (u % cbuffer_size)
  pub cleared :
      (u : ℕ)
      → host.rx_seq_num < u
      → u ≤ s
      → s < u + 4096
      → r.1.circular_buffer (u % cbuffer_size) ≡ 0

module _ (knet_h : Handle) (host : Host) (s : ℕ) (started : 0 < host.rx_seq_num) (small : s < 65536)
    (newest : host.rx_seq_num < 65536) where
  dist_old : s ≤ host.rx_seq_num → host.rx_seq_num < s + 4096 → seq_dist host.rx_seq_num s < 4096
  unfolding seq_dist
  dist_old le near = ground arith

  lookup_old :
      s ≤ host.rx_seq_num
      → host.rx_seq_num < s + 4096
      → IsLooked host s (seq_num_lookup knet_h host s 0 0)
  unfolding seq_num_lookup
  lookup_old le near = record {
    moved = ground (arith, rx_seq_num-prepare knet_h host s 0, dist_old le near);
    answered = ground (
      arith,
      rx_seq_num-prepare knet_h host s 0,
      dist_old le near,
      cbuf_of-prepare knet_h host s 0 (s % cbuffer_size),
    );
    kept = λ u a b. ground (
      arith,
      rx_seq_num-prepare knet_h host s 0,
      dist_old le near,
      cbuf_of-prepare knet_h host s 0 (u % cbuffer_size),
    );
    cleared = λ u a b c. absurd (omega arith);
  }

  slide :
      (u : ℕ)
      → host.rx_seq_num < s
      → s ≤ host.rx_seq_num + 4096
      → (seq_num_lookup knet_h host s 0 0).1.circular_buffer (u % cbuffer_size)
        ≡ clean_cbuf
            (s % cbuffer_size)
            ((host.rx_seq_num + 1) % cbuffer_size)
            (prepare knet_h host s 0).circular_buffer
            (u % cbuffer_size)
  unfolding seq_num_lookup advance
  slide u lt near =
      ground (arith, rx_seq_num-prepare knet_h host s 0, seq_dist_new host.rx_seq_num s lt small)

  leap :
      (u : ℕ)
      → host.rx_seq_num + 4096 < s
      → s ≤ host.rx_seq_num + 61440
      → (seq_num_lookup knet_h host s 0 0).1.circular_buffer (u % cbuffer_size) ≡ 0
  unfolding seq_num_lookup advance
  leap u lt near = ground (
    arith,
    rx_seq_num-prepare knet_h host s 0,
    seq_dist_new host.rx_seq_num s,
    clean_cbuf_emptied (prepare knet_h host s 0).circular_buffer (s % cbuffer_size)
        ((s + 1) % cbuffer_size) u,
  )

  lookup_new :
      host.rx_seq_num < s
      → s ≤ host.rx_seq_num + 61440
      → IsLooked host s (seq_num_lookup knet_h host s 0 0)
  unfolding seq_num_lookup advance
  lookup_new lt near = record {
    moved =
        ground (arith, rx_seq_num-prepare knet_h host s 0, seq_dist_new host.rx_seq_num s lt small);
    answered =
        ground (arith, rx_seq_num-prepare knet_h host s 0, seq_dist_new host.rx_seq_num s lt small);
    kept = λ u a b. ground (
      arith,
      slide u,
      clean_cbuf_kept (prepare knet_h host s 0).circular_buffer host.rx_seq_num s u,
      cbuf_of-prepare knet_h host s 0 (u % cbuffer_size),
    );
    cleared = λ u a b c. ground (
      arith,
      slide u,
      leap u,
      clean_cbuf_cleared (prepare knet_h host s 0).circular_buffer host.rx_seq_num s u,
    );
  }

pub lookup_in_window :
    (knet_h : Handle) (host : Host) (s : ℕ)
    → 0 < host.rx_seq_num
    → host.rx_seq_num < 65536
    → s < 65536
    → host.rx_seq_num < s + 4096
    → s ≤ host.rx_seq_num + 61440
    → IsLooked host s (seq_num_lookup knet_h host s 0 0)
lookup_in_window knet_h host s started newest small near ahead =
    elim (Bool-cases (ltb host.rx_seq_num s)) [
      | inl e ↦ lookup_new knet_h host s started small newest (ground arith) ahead
      | inr e ↦ lookup_old knet_h host s started small newest (ground arith) near
    ]
