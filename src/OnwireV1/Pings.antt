-- ===== src/OnwireV1/Pings.antt =====
-- What a ping does to the receiver's buffers (libknet/onwire_v1.c:process_ping_v1).
use kronosnet.Base.{ℕ, ◌<◌, ◌≡◌, ◌≢◌, ◌⊎◌, inl, inr, sym, ap, subst, lt→ltb, true, arith, truthy}
use kronosnet.State.{Host, Handle}
use kronosnet.SeqNum.{
  cbuffer_size, seq_num_lookup, prepare, clear_cbuffers, clear_defrag_bufs_stats,
  reclaim_old_defrag_bufs, reclaim_buf, seq_dist,
}
use kronosnet.SeqNum.Window.{seq_dist_self}
use kronosnet.OnwireV1.{PingPacket, note_untimed, process_ping_v1}

-- Nothing is remembered of the sender but its number `seq`.
pub record IsWiped (seq : ℕ) (host : Host) : Type 0 where
  pub newest : host.rx_seq_num ≡ seq
  pub seen : (i : ℕ) → i < cbuffer_size → host.circular_buffer i ≡ 0
  pub seen_defrag : (i : ℕ) → i < cbuffer_size → host.circular_buffer_defrag i ≡ 0
  pub bufs_free : (i : ℕ) → i < host.allocated_defrag_bufs → (host.defrag_bufs i).in_use ≡ 0
  pub usage : (i : ℕ) → i < 255 → host.in_use_defrag_buffers i ≡ 0
  pub usage_samples : host.in_use_defrag_buffers_samples ≡ 0
  pub usage_index : host.in_use_defrag_buffers_index ≡ 0

prepare-IsWiped : (knet_h : Handle) (host : Host) (s : ℕ) → IsWiped s (prepare knet_h host s 1)
unfolding prepare reclaim_old_defrag_bufs clear_cbuffers clear_defrag_bufs_stats reclaim_buf
prepare-IsWiped knet_h host s = record {
  newest = ground arith;
  seen = λ i h. ground arith;
  seen_defrag = λ i h. ground arith;
  bufs_free = λ i h. ground arith;
  usage = λ i h. ground arith;
  usage_samples = ground arith;
  usage_index = ground arith;
}

in_ring :
    (knet_h : Handle) (host : Host) (s c : ℕ)
    → seq_dist (prepare knet_h host s c).rx_seq_num s < cbuffer_size
    → (seq_num_lookup knet_h host s 0 c).1 ≡ prepare knet_h host s c
unfolding seq_num_lookup
in_ring knet_h host s c h = rw (lt→ltb _ _ h)

lookup-IsWiped :
    (knet_h : Handle) (host : Host) (s : ℕ)
    → s < 65536
    → IsWiped s (seq_num_lookup knet_h host s 0 1).1
lookup-IsWiped knet_h host s small =
    let w = prepare-IsWiped knet_h host s in
    let near : seq_dist (prepare knet_h host s 1).rx_seq_num s < cbuffer_size =
      omega (arith, seq_dist_self s small, ap (λ (r : ℕ). seq_dist r s) w.newest) in
    subst (IsWiped s) (sym (in_ring knet_h host s 1 near)) w

-- The first copy of an untimed ping from a peer that sent no data since the last one, and a timed
-- ping with number 0 that is not a repetition, make the receiver forget the peer's packets: it has
-- restarted. Both circular buffers and all reassembly buffers are free, and the samples of the
-- use of the reassembly buffers, their count and the index of the next one are 0.
pub process_ping-IsWiped :
    (knet_h : Handle) (host : Host) (ping : PingPacket)
    → ping.seq_num < 65536
    → (ping.timed ≡ 0) × (ping.seq_num ≢ host.untimed_rx_seq_num) × (host.got_data ≡ 0)
      ⊎ (ping.timed ≡ 1) × (ping.seq_num ≢ host.timed_rx_seq_num) × (ping.seq_num ≡ 0)
    → IsWiped ping.seq_num (process_ping_v1 knet_h host ping)
process_ping-IsWiped knet_h host ping small (inl (a, b, c)) =
    let noted = record host { untimed_rx_seq_num = ping.seq_num } in
    let eq : process_ping_v1 knet_h host ping ≡ (seq_num_lookup knet_h noted ping.seq_num 0 1).1 =
      unfold process_ping_v1 note_untimed in ground arith in
    subst (IsWiped ping.seq_num) (sym eq) (lookup-IsWiped knet_h noted ping.seq_num small)
process_ping-IsWiped knet_h host ping small (inr (a, b, c)) =
    let noted = record host { timed_rx_seq_num = ping.seq_num } in
    let eq : process_ping_v1 knet_h host ping ≡ (seq_num_lookup knet_h noted 0 0 1).1 =
      unfold process_ping_v1 note_untimed in ground arith in
    subst (IsWiped ping.seq_num) (sym eq) (
      subst (λ s. IsWiped s (seq_num_lookup knet_h noted 0 0 1).1) (sym c)
        (lookup-IsWiped knet_h noted 0 (omega arith)))

-- Data in between keep the buffers: the number is looked up like any other.
pub process_ping_after_data :
    (knet_h : Handle) (host : Host) (ping : PingPacket)
    → ping.timed ≡ 0
    → truthy host.got_data ≡ true
    → ping.seq_num ≢ host.untimed_rx_seq_num
    → process_ping_v1 knet_h host ping
      ≡ (seq_num_lookup knet_h
          (record host { untimed_rx_seq_num = ping.seq_num; got_data = 0 })
          ping.seq_num
          0
          0).1
unfolding process_ping_v1 note_untimed
process_ping_after_data knet_h host ping a b c = ground arith
