-- ===== src/State.antt =====
-- The state that the threads share: the structs of libknet/internals.h and the status structs of
-- libknet/libknet.h, with the fields that the modelled functions read or write.
use kronosnet.Base.{ℕ, Bool, Option, List}

-- struct timespec
pub record Timespec : Type 0 where
  pub tv_sec : ℕ
  pub tv_nsec : ℕ

-- struct knet_link_stats
pub record LinkStats : Type 0 where
  pub rx_ping_packets : ℕ
  pub tx_ping_packets : ℕ
  pub rx_ping_bytes : ℕ
  pub tx_ping_bytes : ℕ
  pub rx_pong_packets : ℕ
  pub tx_pong_packets : ℕ
  pub rx_pong_bytes : ℕ
  pub tx_pong_bytes : ℕ
  pub tx_ping_errors : ℕ
  pub tx_ping_retries : ℕ
  pub tx_pong_errors : ℕ
  pub tx_pong_retries : ℕ
  pub rx_pmtu_packets : ℕ
  pub rx_pmtu_bytes : ℕ
  pub tx_pmtu_errors : ℕ
  pub tx_pmtu_retries : ℕ
  pub latency_ave : ℕ
  pub latency_min : ℕ
  pub latency_max : ℕ
  pub latency_samples : ℕ
  pub up_count : ℕ
  pub down_count : ℕ
  pub last_up_times : ℕ → ℕ
  pub last_down_times : ℕ → ℕ
  pub last_up_time_index : ℕ
  pub last_down_time_index : ℕ

-- struct knet_link_status
pub record LinkStatus : Type 0 where
  pub enabled : ℕ
  pub connected : ℕ
  pub dynconnected : ℕ
  pub mtu : ℕ
  pub proto_overhead : ℕ
  pub pong_last : Timespec
  pub stats : LinkStats

-- struct knet_link; `dst_family` is dst_addr.ss_family, `src_addr` a number for the bytes of the
-- source address, `dst_addr` one for the IP address in dst_addr: 0 for those of memset.
pub record Link : Type 0 where
  pub status : LinkStatus
  pub link_id : ℕ
  pub transport : ℕ
  pub priority : ℕ
  pub dynamic : ℕ
  pub has_valid_mtu : ℕ
  pub configured : ℕ
  pub transport_connected : ℕ
  pub flags : ℕ
  pub ping_interval : ℕ
  pub ping_last : Timespec
  pub last_ping_size : ℕ
  pub proto_overhead : ℕ
  pub last_good_mtu : ℕ
  pub last_bad_mtu : ℕ
  pub last_sent_mtu : ℕ
  pub last_recv_mtu : ℕ
  pub pmtud_crypto_timeout_multiplier : ℕ
  pub dst_family : ℕ
  pub src_addr : ℕ
  pub dst_addr : ℕ
  pub pong_timeout : ℕ
  pub pong_timeout_adj : ℕ
  pub pong_timeout_backoff : ℕ
  pub latency_max_samples : ℕ
  pub pong_count : ℕ
  pub received_pong : ℕ
  pub pmtud_last : Timespec

-- struct knet_host_defrag_buf
pub record DefragBuf : Type 0 where
  pub buf : ℕ → ℕ
  pub in_use : ℕ
  pub pckt_seq : ℕ
  pub frag_recv : ℕ
  pub frag_map : ℕ → ℕ
  pub last_first : ℕ
  pub frag_size : ℕ
  pub last_frag_size : ℕ
  pub last_update : Timespec

-- struct knet_host_status
pub record HostStatus : Type 0 where
  pub reachable : ℕ
  pub remote : ℕ
  pub external : ℕ

-- struct knet_host
pub record Host : Type 0 where
  pub host_id : ℕ
  pub link_handler_policy : ℕ
  pub status : HostStatus
  pub onwire_ver : ℕ
  pub onwire_max_ver : ℕ
  pub circular_buffer : ℕ → ℕ
  pub rx_seq_num : ℕ
  pub untimed_rx_seq_num : ℕ
  pub timed_rx_seq_num : ℕ
  pub got_data : ℕ
  pub defrag_bufs : ℕ → DefragBuf
  pub allocated_defrag_bufs : ℕ
  pub in_use_defrag_buffers : ℕ → ℕ
  pub in_use_defrag_buffers_samples : ℕ
  pub in_use_defrag_buffers_index : ℕ
  pub circular_buffer_defrag : ℕ → ℕ
  pub link : ℕ → Link
  pub active_link_entries : ℕ
  pub active_links : ℕ → ℕ

-- struct knet_sock; sockfd[0] and sockfd[1] are `app_fd` and `knet_fd`
pub record Sock : Type 0 where
  pub app_fd : ℕ
  pub knet_fd : ℕ
  pub is_socket : ℕ
  pub is_created : ℕ
  pub in_use : ℕ
  pub has_error : ℕ

-- struct crypto_instance; `key` stands for what model_instance points to
pub record CryptoInstance : Type 0 where
  pub model : ℕ
  pub key : ℕ
  pub sec_block_size : ℕ
  pub sec_hash_size : ℕ
  pub sec_salt_size : ℕ

-- struct knet_handle. `host_list` are the ids of the list from `host_head`, `host_index` holds the
-- objects: a host is found by its id, which is also what its address stands for. `sock_notify` is
-- whether sock_notify_fn is set.
pub record Handle : Type 0 where
  pub host_id : ℕ
  pub host_list : List ℕ
  pub host_ids : List ℕ
  pub host_index : ℕ → Option Host
  pub enabled : ℕ
  pub sockfd : ℕ → Sock
  pub sock_notify : Bool
  pub has_loop_link : ℕ
  pub loop_link : ℕ
  pub threads_timer_res : ℕ
  pub onwire_ver_remap : ℕ
  pub crypto_in_use_config : ℕ
  pub crypto_instance : ℕ → Option CryptoInstance
  pub crypto_only : ℕ
  pub use_access_lists : ℕ
  pub rx_odd_packets : ℕ
  pub tx_seq_num : ℕ
  pub data_mtu : ℕ
  pub manual_mtu : ℕ
  pub pmtud_interval : ℕ
  pub pmtud_running : ℕ
  pub pmtud_forcerun : ℕ
  pub pmtud_abort : ℕ
  pub onwire_ver : ℕ
  pub onwire_min_ver : ℕ
  pub onwire_max_ver : ℕ
  pub onwire_force_ver : ℕ
  pub sec_block_size : ℕ
  pub sec_hash_size : ℕ
  pub sec_salt_size : ℕ
  pub compress_model : ℕ
  pub compress_level : ℕ
  pub compress_threshold : ℕ
  pub compress_int_data : ℕ → ℕ
  pub defrag_bufs_min : ℕ
  pub defrag_bufs_max : ℕ
  pub defrag_bufs_shrink_threshold : ℕ
  pub defrag_bufs_usage_samples : ℕ
  pub defrag_bufs_reclaim_policy : ℕ
  pub defrag_bufs_usage_samples_timespan : ℕ
  pub defrag_bufs_last_run : Timespec

abbrev pub zero_timespec : Timespec
zero_timespec = record { tv_sec = 0; tv_nsec = 0 }

-- memset(&host->defrag_bufs[i], 0, sizeof(struct knet_host_defrag_buf))
abbrev pub zero_defrag_buf : DefragBuf
zero_defrag_buf = record {
  buf = λ _. 0;
  in_use = 0;
  pckt_seq = 0;
  frag_recv = 0;
  frag_map = λ _. 0;
  last_first = 0;
  frag_size = 0;
  last_frag_size = 0;
  last_update = zero_timespec;
}

-- memset(&knet_h->sockfd[channel], 0, sizeof(struct knet_sock))
abbrev pub zero_sock : Sock
zero_sock = record {
  app_fd = 0;
  knet_fd = 0;
  is_socket = 0;
  is_created = 0;
  in_use = 0;
  has_error = 0;
}
