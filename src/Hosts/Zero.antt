-- ===== src/Hosts/Zero.antt =====
-- Structs of libknet/internals.h and libknet/libknet.h after memset to zero.
use kronosnet.State.{LinkStats, LinkStatus, Link, HostStatus, Host, zero_timespec, zero_defrag_buf}

abbrev zero_stats : LinkStats
zero_stats = record {
  rx_ping_packets = 0;
  tx_ping_packets = 0;
  rx_ping_bytes = 0;
  tx_ping_bytes = 0;
  rx_pong_packets = 0;
  tx_pong_packets = 0;
  rx_pong_bytes = 0;
  tx_pong_bytes = 0;
  tx_ping_errors = 0;
  tx_ping_retries = 0;
  tx_pong_errors = 0;
  tx_pong_retries = 0;
  rx_pmtu_packets = 0;
  rx_pmtu_bytes = 0;
  tx_pmtu_errors = 0;
  tx_pmtu_retries = 0;
  latency_ave = 0;
  latency_min = 0;
  latency_max = 0;
  latency_samples = 0;
  up_count = 0;
  down_count = 0;
  last_up_times = λ _. 0;
  last_down_times = λ _. 0;
  last_up_time_index = 0;
  last_down_time_index = 0;
}

abbrev zero_status : LinkStatus
zero_status = record {
  enabled = 0;
  connected = 0;
  dynconnected = 0;
  mtu = 0;
  proto_overhead = 0;
  pong_last = zero_timespec;
  stats = zero_stats;
}

abbrev pub zero_link : Link
zero_link = record {
  status = zero_status;
  link_id = 0;
  transport = 0;
  priority = 0;
  dynamic = 0;
  has_valid_mtu = 0;
  configured = 0;
  transport_connected = 0;
  flags = 0;
  ping_interval = 0;
  ping_last = zero_timespec;
  last_ping_size = 0;
  proto_overhead = 0;
  last_good_mtu = 0;
  last_bad_mtu = 0;
  last_sent_mtu = 0;
  last_recv_mtu = 0;
  pmtud_crypto_timeout_multiplier = 0;
  dst_family = 0;
  src_addr = 0;
  dst_addr = 0;
  pong_timeout = 0;
  pong_timeout_adj = 0;
  pong_timeout_backoff = 0;
  latency_max_samples = 0;
  pong_count = 0;
  received_pong = 0;
  pmtud_last = zero_timespec;
}

abbrev zero_host_status : HostStatus
zero_host_status = record { reachable = 0; remote = 0; external = 0 }

abbrev pub zero_host : Host
zero_host = record {
  host_id = 0;
  link_handler_policy = 0;
  status = zero_host_status;
  onwire_ver = 0;
  onwire_max_ver = 0;
  circular_buffer = λ _. 0;
  rx_seq_num = 0;
  untimed_rx_seq_num = 0;
  timed_rx_seq_num = 0;
  got_data = 0;
  defrag_bufs = λ _. zero_defrag_buf;
  allocated_defrag_bufs = 0;
  in_use_defrag_buffers = λ _. 0;
  in_use_defrag_buffers_samples = 0;
  in_use_defrag_buffers_index = 0;
  circular_buffer_defrag = λ _. 0;
  link = λ _. zero_link;
  active_link_entries = 0;
  active_links = λ _. 0;
}
