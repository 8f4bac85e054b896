-- ===== src/SeqNum.antt =====
-- libknet/host.c: the circular buffers that recognise a packet seen before, and the expiry of
-- reassembly buffers. `knet_h` stands for the handle, of which only `defrag_bufs_max` is read.
pub mod Window
pub mod Lookup
pub mod Bounds
mod Tests
pub mod Refine
use kronosnet.Base.{
  ℕ, ◌+◌, ◌-◌, ◌%◌, Bool, ◌&&◌, ◌||◌, ltb, leb, ◌==◌, if◌then◌else◌, truthy, fill, update,
  map_below,
}
use kronosnet.State.{DefragBuf, Host, Handle, zero_defrag_buf}

-- SEQ_MAX of onwire.h
abbrev pub seq_max : ℕ
seq_max = 65535

-- KNET_CBUFFER_SIZE of internals.h
abbrev pub cbuffer_size : ℕ
cbuffer_size = 4096

-- the conversion to seq_num_t
abbrev pub seq_num_t : ℕ → ℕ
seq_num_t n = n % 65536

unfoldable pub clear_defrag_bufs_stats : Host → Host
clear_defrag_bufs_stats host = record host {
  in_use_defrag_buffers = fill host.in_use_defrag_buffers 0 255 0;
  in_use_defrag_buffers_samples = 0;
  in_use_defrag_buffers_index = 0;
}

unfoldable pub clear_cbuffers : Host → ℕ → Host
clear_cbuffers host rx_seq_num = clear_defrag_bufs_stats (record host {
  circular_buffer = fill host.circular_buffer 0 cbuffer_size 0;
  rx_seq_num = rx_seq_num;
  circular_buffer_defrag = fill host.circular_buffer_defrag 0 cbuffer_size 0;
  defrag_bufs = fill host.defrag_bufs 0 host.allocated_defrag_bufs zero_defrag_buf;
})

-- the test on one buffer, both branches of `tail > head`
unfoldable pub outside_window : ℕ → ℕ → ℕ → Bool
outside_window head tail seq =
    if ltb head tail then leb head seq && leb seq tail else leb head seq || leb seq tail

unfoldable pub reclaim_buf : ℕ → ℕ → DefragBuf → DefragBuf
reclaim_buf head tail b =
    if truthy b.in_use
    then (if outside_window head tail b.pckt_seq then record b { in_use = 0 } else b)
    else b

-- the larger of the two bounds that `tail` is computed from
abbrev pub reclaim_span : Handle → Host → ℕ
reclaim_span knet_h host =
    if ltb host.allocated_defrag_bufs knet_h.defrag_bufs_max
    then knet_h.defrag_bufs_max
    else host.allocated_defrag_bufs

unfoldable pub reclaim_old_defrag_bufs : Handle → Host → ℕ → Host
reclaim_old_defrag_bufs knet_h host seq_num =
    let head = seq_num_t (seq_num + 1) in
    let tail = seq_num_t (seq_num + 65536 - (reclaim_span knet_h host + 1)) in
    record host {
      defrag_bufs = map_below host.allocated_defrag_bufs (reclaim_buf head tail) host.defrag_bufs;
    }

-- `seq_dist`: both branches are computed in int and stored in a seq_num_t.
unfoldable pub seq_dist : ℕ → ℕ → ℕ
seq_dist dst seq =
    if ltb seq dst then seq_num_t (seq_max - seq + dst) else seq_num_t (dst + 65536 - seq)

-- the memsets at the end of the function, on one of the two buffers
unfoldable pub clean_cbuf : ℕ → ℕ → (ℕ → ℕ) → ℕ → ℕ
clean_cbuf head tail cbuf =
    if ltb head tail
    then fill (fill cbuf tail (cbuffer_size - tail) 0) 0 (head + 1) 0
    else fill cbuf tail (head - tail + 1) 0

-- the path of a number that is not in the ring
unfoldable pub advance : Host → ℕ → ℕ → Host
advance host seq_num dist =
    let far = leb dist (seq_max - cbuffer_size) in
    let cbuf = if far then fill host.circular_buffer 0 cbuffer_size 0 else host.circular_buffer in
    let cbuf_defrag =
      if far
      then fill host.circular_buffer_defrag 0 cbuffer_size 0
      else host.circular_buffer_defrag in
    let dst = if far then seq_num else host.rx_seq_num in
    let head = seq_num % cbuffer_size in
    let tail = (dst + 1) % cbuffer_size in
    record host {
      circular_buffer = clean_cbuf head tail cbuf;
      circular_buffer_defrag = clean_cbuf head tail cbuf_defrag;
      rx_seq_num = seq_num;
    }

abbrev pub cbuf_of : Host → ℕ → ℕ → ℕ
cbuf_of host defrag_buf =
    if truthy defrag_buf then host.circular_buffer_defrag else host.circular_buffer

-- what happens before the distance is computed
unfoldable pub prepare : Handle → Host → ℕ → ℕ → Host
prepare knet_h host seq_num clear_buf =
    let a = if host.rx_seq_num == 0 then record host { rx_seq_num = seq_num } else host in
    let b = if truthy clear_buf then clear_cbuffers a seq_num else a in
    reclaim_old_defrag_bufs knet_h b b.rx_seq_num

unfoldable pub seq_num_lookup : Handle → Host → ℕ → ℕ → ℕ → ℕ × Host
seq_num_lookup knet_h host seq_num defrag_buf clear_buf =
    let c = prepare knet_h host seq_num clear_buf in
    let dist = seq_dist c.rx_seq_num seq_num in
    if ltb dist cbuffer_size
    then ((if cbuf_of c defrag_buf (seq_num % cbuffer_size) == 0 then 1 else 0), c)
    else (1, advance c seq_num dist)

unfoldable pub seq_num_set : Host → ℕ → ℕ → Host
seq_num_set host seq_num defrag_buf =
    if truthy defrag_buf
    then record host {
      circular_buffer_defrag = update host.circular_buffer_defrag (seq_num % cbuffer_size) 1;
    }
    else record host { circular_buffer = update host.circular_buffer (seq_num % cbuffer_size) 1 }
