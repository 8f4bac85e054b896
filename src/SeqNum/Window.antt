-- ===== src/SeqNum/Window.antt =====
-- What libknet/host.c:_seq_num_lookup keeps and forgets when the window moves.
use kronosnet.Base.{ℕ, ◌+◌, ◌-◌, ◌%◌, ◌≤◌, ◌<◌, ◌≡◌, arith, ◌==◌, if◌then◌else◌, truthy, fill}
use kronosnet.State.{Host, Handle}
use kronosnet.SeqNum.{
  cbuffer_size, clear_cbuffers, reclaim_old_defrag_bufs, seq_dist, clean_cbuf, cbuf_of, prepare,
  seq_num_set, clear_defrag_bufs_stats,
}

pub rx_seq_num-prepare :
    (knet_h : Handle) (host : Host) (s clear : ℕ)
    → (prepare knet_h host s clear).rx_seq_num
      ≡ (if truthy clear then s else if host.rx_seq_num == 0 then s else host.rx_seq_num)
unfolding prepare reclaim_old_defrag_bufs clear_cbuffers clear_defrag_bufs_stats
rx_seq_num-prepare knet_h host s clear = ground arith

pub cbuf_of-prepare :
    (knet_h : Handle) (host : Host) (s d i : ℕ)
    → cbuf_of (prepare knet_h host s 0) d i ≡ cbuf_of host d i
unfolding prepare reclaim_old_defrag_bufs
cbuf_of-prepare knet_h host s d i = ground arith

-- An old number at most 4096 behind, or the newest number, is in the ring.
pub seq_dist_old : (dst s : ℕ) → s < dst → dst < 65536 → seq_dist dst s ≡ dst - s - 1
unfolding seq_dist
seq_dist_old dst s h k = ground arith

pub seq_dist_self : (s : ℕ) → s < 65536 → seq_dist s s ≡ 0
unfolding seq_dist
seq_dist_self s h = ground arith

pub seq_dist_new : (dst s : ℕ) → dst < s → s < 65536 → seq_dist dst s ≡ 65536 - (s - dst)
unfolding seq_dist
seq_dist_new dst s h k = ground arith

pub seq_num_set_seen :
    (host : Host) (s d : ℕ) → cbuf_of (seq_num_set host s d) d (s % cbuffer_size) ≡ 1
unfolding seq_num_set
seq_num_set_seen host s d = ground arith

pub rx_seq_num-seq_num_set :
    (host : Host) (s d : ℕ) → (seq_num_set host s d).rx_seq_num ≡ host.rx_seq_num
unfolding seq_num_set
rx_seq_num-seq_num_set host s d = ground arith

-- The slots of the numbers after the newest one, up to the new one, are emptied.
pub clean_cbuf_cleared :
    (cbuf : ℕ → ℕ) (dst s u : ℕ)
    → dst < u
    → u ≤ s
    → s ≤ dst + 4096
    → clean_cbuf (s % cbuffer_size) ((dst + 1) % cbuffer_size) cbuf (u % cbuffer_size) ≡ 0
unfolding clean_cbuf
clean_cbuf_cleared cbuf dst s u h k l = ground arith

-- The slots of the numbers up to the newest one that stay in the ring are kept.
pub clean_cbuf_kept :
    (cbuf : ℕ → ℕ) (dst s u : ℕ)
    → u ≤ dst
    → dst < s
    → s < u + 4096
    → clean_cbuf (s % cbuffer_size) ((dst + 1) % cbuffer_size) cbuf (u % cbuffer_size)
      ≡ cbuf (u % cbuffer_size)
unfolding clean_cbuf
clean_cbuf_kept cbuf dst s u h k l = ground arith

pub clean_cbuf_emptied :
    (cbuf : ℕ → ℕ) (head tail u : ℕ)
    → clean_cbuf head tail (fill cbuf 0 cbuffer_size 0) (u % cbuffer_size) ≡ 0
unfolding clean_cbuf
clean_cbuf_emptied cbuf head tail u = ground arith
