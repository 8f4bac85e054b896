-- ===== src/SeqNum/Bounds.antt =====
-- Memory bounds and the expiry rule of libknet/host.c: what the lookup may write, and which
-- reassembly buffers it takes back.
use kronosnet.Base.{ℕ, ◌+◌, ◌-◌, ◌%◌, ◌≤◌, ◌<◌, ◌≡◌, true, ◌&&◌, arith, ltb, if◌then◌else◌, truthy}
use kronosnet.SeqNum.Window.{seq_dist_old}
use kronosnet.SeqNum.Lookup.{lookup_seen}
use kronosnet.State.{Host, Handle}
use kronosnet.SeqNum.{
  cbuffer_size, seq_num_t, outside_window, reclaim_span, reclaim_buf, reclaim_old_defrag_bufs,
  clear_cbuffers, clear_defrag_bufs_stats, seq_dist, clean_cbuf, advance, prepare, seq_num_lookup,
}

-- how far `p` lies behind `seq`, round the 16-bit counter
abbrev pub behind : ℕ → ℕ → ℕ
behind seq p = (seq + 65536 - p) % 65536

outside_window_lem :
    (seq p span : ℕ)
    → seq < 65536
    → p < 65536
    → span < 65534
    → outside_window (seq_num_t (seq + 1)) (seq_num_t (seq + 65536 - (span + 1))) p
      ≡ ltb span (behind seq p)
unfolding outside_window
outside_window_lem seq p span hs hp hw = ground arith

-- A reassembly buffer in use is taken back exactly if its packet lies more than the window (the
-- larger of `defrag_bufs_max` and the allocated count) behind the newest one, counted round the
-- 16-bit rollover; buffers that are not allocated are left alone.
pub reclaim_exact :
    (knet_h : Handle) (host : Host) (seq i : ℕ)
    → seq < 65536
    → (host.defrag_bufs i).pckt_seq < 65536
    → reclaim_span knet_h host < 65534
    → (reclaim_old_defrag_bufs knet_h host seq).defrag_bufs i ≡ (
        if ltb i host.allocated_defrag_bufs
          && ltb (reclaim_span knet_h host) (behind seq (host.defrag_bufs i).pckt_seq)
        then (if truthy (host.defrag_bufs i).in_use
            then record (host.defrag_bufs i) { in_use = 0 }
            else host.defrag_bufs i)
        else host.defrag_bufs i)
unfolding reclaim_old_defrag_bufs reclaim_buf
reclaim_exact knet_h host seq i hs hp hw = ground (
  arith,
  outside_window_lem seq (host.defrag_bufs i).pckt_seq (reclaim_span knet_h host) hs hp hw,
)

-- Nothing is written past the arrays of `a` on the way to `b`.
pub record KeepsOutside (a b : Host) (i : ℕ) : Type 0 where
  pub seen : cbuffer_size ≤ i → b.circular_buffer i ≡ a.circular_buffer i
  pub seen_defrag : cbuffer_size ≤ i → b.circular_buffer_defrag i ≡ a.circular_buffer_defrag i
  pub bufs : a.allocated_defrag_bufs ≤ i → b.defrag_bufs i ≡ a.defrag_bufs i
  pub allocated : b.allocated_defrag_bufs ≡ a.allocated_defrag_bufs

prepare-KeepsOutside :
    (knet_h : Handle) (host : Host) (s clear i : ℕ)
    → KeepsOutside host (prepare knet_h host s clear) i
unfolding prepare reclaim_old_defrag_bufs clear_cbuffers clear_defrag_bufs_stats
prepare-KeepsOutside knet_h host s clear i = ground arith

advance-KeepsOutside : (host : Host) (s dist i : ℕ) → KeepsOutside host (advance host s dist) i
unfolding advance clean_cbuf
advance-KeepsOutside host s dist i = ground arith

-- Whatever its arguments, `_seq_num_lookup` writes neither past the two circular buffers nor past
-- the allocated reassembly buffers, and it does not change how many of those are allocated.
pub seq_num_lookup-KeepsOutside :
    (knet_h : Handle) (host : Host) (s d clear i : ℕ)
    → KeepsOutside host (seq_num_lookup knet_h host s d clear).1 i
unfolding seq_num_lookup
seq_num_lookup-KeepsOutside knet_h host s d clear i =
    let c = prepare knet_h host s clear in
    ground (
      arith,
      prepare-KeepsOutside knet_h host s clear i,
      advance-KeepsOutside c s (seq_dist c.rx_seq_num s) i,
    )

-- The number exactly 4096 behind the newest one is still taken to be in the ring, but its slot is
-- the newest number's: once the newest number is marked, the old one is refused, seen or not.
pub seq_num_lookup_alias :
    (knet_h : Handle) (host : Host) (s : ℕ)
    → host.rx_seq_num ≡ s + 4096
    → host.rx_seq_num < 65536
    → truthy (host.circular_buffer (host.rx_seq_num % cbuffer_size)) ≡ true
    → (seq_num_lookup knet_h host s 0 0).0 ≡ 0
seq_num_lookup_alias knet_h host s e small marked =
    lookup_seen knet_h host s 0 (omega arith) (ground (arith, seq_dist_old host.rx_seq_num s))
      (ground arith)
