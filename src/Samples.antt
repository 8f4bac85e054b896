-- ===== src/Samples.antt =====
-- Concrete states for the tests: a node, a host and a link as they are after set-up.
use kronosnet.Base.{true, ℕ, some, none, [], ◌∷◌, ◌+◌, ◌==◌, if◌then◌else◌}
use kronosnet.State.{LinkStats, Link, Host, Handle, zero_timespec, zero_defrag_buf, zero_sock}

abbrev pub zero_stats : LinkStats
zero_stats = record {
  rx_ping_packets = 0;
  tx_ping_packets = 0;
  rx_ping_bytes = 0;
  tx_ping_bytes = 0;
  rx_pong_packets = 0;
  tx_pong_packets = 0;
  rx_pong_bytes = 0;
  tx_pong_bytes = 0;
  tx_ping_errors = 0;
  tx_ping_retries = 0;
  tx_pong_errors = 0;
  tx_pong_retries = 0;
  rx_pmtu_packets = 0;
  rx_pmtu_bytes = 0;
  tx_pmtu_errors = 0;
  tx_pmtu_retries = 0;
  latency_ave = 0;
  latency_min = 0;
  latency_max = 0;
  latency_samples = 0;
  up_count = 0;
  down_count = 0;
  last_up_times = λ _. 0;
  last_down_times = λ _. 0;
  last_up_time_index = 0;
  last_down_time_index = 0;
}

abbrev pub idle_link : ℕ → Link
idle_link id = record {
  status = record {
    enabled = 0;
    connected = 0;
    dynconnected = 0;
    mtu = 0;
    proto_overhead = 0;
    pong_last = zero_timespec;
    stats = zero_stats;
  };
  link_id = id;
  transport = 1;
  priority = 0;
  dynamic = 0;
  has_valid_mtu = 0;
  configured = 1;
  transport_connected = 1;
  flags = 0;
  ping_interval = 1000000;
  ping_last = zero_timespec;
  last_ping_size = 0;
  proto_overhead = 8;
  last_good_mtu = 0;
  last_bad_mtu = 0;
  last_sent_mtu = 0;
  last_recv_mtu = 0;
  pmtud_crypto_timeout_multiplier = 2;
  dst_family = 2;
  src_addr = 10 + id;
  dst_addr = 20 + id;
  pong_timeout = 2000000;
  pong_timeout_adj = 2000000;
  pong_timeout_backoff = 10;
  latency_max_samples = 2048;
  pong_count = 5;
  received_pong = 0;
  pmtud_last = zero_timespec;
}

abbrev pub new_host : Host
new_host = record {
  host_id = 2;
  link_handler_policy = 0;
  status = record { reachable = 0; remote = 0; external = 0 };
  onwire_ver = 0;
  onwire_max_ver = 0;
  circular_buffer = λ _. 0;
  rx_seq_num = 0;
  untimed_rx_seq_num = 0;
  timed_rx_seq_num = 0;
  got_data = 0;
  defrag_bufs = λ _. zero_defrag_buf;
  allocated_defrag_bufs = 4;
  in_use_defrag_buffers = λ _. 0;
  in_use_defrag_buffers_samples = 0;
  in_use_defrag_buffers_index = 0;
  circular_buffer_defrag = λ _. 0;
  link = idle_link;
  active_link_entries = 0;
  active_links = λ _. 0;
}

-- Node 1, which knows host 2.
abbrev pub node : Handle
node = record {
  host_id = 1;
  host_list = 2 ∷ [];
  host_ids = 2 ∷ [];
  host_index = λ id. if id == 2 then some new_host else none;
  enabled = 1;
  sockfd = λ i. if i == 0 then record zero_sock { app_fd = 9; in_use = 1 } else zero_sock;
  sock_notify = true;
  has_loop_link = 0;
  loop_link = 0;
  threads_timer_res = 200000;
  onwire_ver_remap = 0;
  crypto_in_use_config = 0;
  crypto_instance = λ _. none;
  crypto_only = 0;
  use_access_lists = 0;
  rx_odd_packets = 0;
  tx_seq_num = 0;
  data_mtu = 1000;
  manual_mtu = 0;
  pmtud_interval = 60;
  pmtud_running = 0;
  pmtud_forcerun = 0;
  pmtud_abort = 0;
  onwire_ver = 1;
  onwire_min_ver = 1;
  onwire_max_ver = 3;
  onwire_force_ver = 0;
  sec_block_size = 16;
  sec_hash_size = 32;
  sec_salt_size = 16;
  compress_model = 0;
  compress_level = 0;
  compress_threshold = 100;
  compress_int_data = λ _. 0;
  defrag_bufs_min = 4;
  defrag_bufs_max = 16;
  defrag_bufs_shrink_threshold = 25;
  defrag_bufs_usage_samples = 255;
  defrag_bufs_reclaim_policy = 0;
  defrag_bufs_usage_samples_timespan = 10;
  defrag_bufs_last_run = zero_timespec;
}
