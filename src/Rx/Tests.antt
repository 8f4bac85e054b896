-- ===== src/Rx/Tests.antt =====
-- The theorems on received packets at concrete inputs, and runs of the code.
use kronosnet.Base.{ℕ, ◌≡◌, refl, true, false, none, some, List, [], ◌∷◌}
use kronosnet.State.{Host, Handle, zero_timespec}
use kronosnet.Samples.{node}
use kronosnet.OnwireV1.{Header, PingPacket}
use kronosnet.Onwire.{handle_onwire_version, common_ver, hosts_of, agree_ver}
use kronosnet.Delivery.{RxEnv}
use kronosnet.Heartbeat.{PingEnd}
use kronosnet.Rx.{
  Payload, header_of, store_max_ver, Message, ParseEnv, decrypt_packet, max_ver, packet_checks,
  is_from, find_link, check_rx_acl, ping_source, other_source, ParseEnd, dispatch, handle_on,
  parse_ping, parse_from, parse_clear, parse_recv_from_links,
}
use kronosnet.Rx.Checked.{IsChecked, parse_recv_from_links-IsChecked}
use kronosnet.Rx.Dropped.{IsLeft, parse_recv_from_links_dropped}

abbrev header : Header
header = record { kh_version = 1; kh_type = 0x81; kh_node = 2; kh_max_ver = 2 }

-- a ping of host 2 for a link
abbrev ping_on : ℕ → PingPacket
ping_on i = record { header = header; link = i; time = zero_timespec; seq_num = 0; timed = 1 }

abbrev delivery_env : RxEnv
delivery_env = record {
  locked = true;
  now = zero_timespec;
  granted = true;
  decompress = λ model packet. none;
  filter = none;
  writes = [];
  notified = true;
  time = 0;
}

-- every buffer is read as the packet `p`, and the access lists reject all
abbrev env_of : Payload → ParseEnv
env_of p = record {
  ops = record { crypt = λ inst m. none; decrypt = λ inst m. none };
  view = λ bytes. p;
  onwire_locked = true;
  accepts = λ link. false;
  stats_locked = true;
  pmtud_locked = true;
  clock = zero_timespec;
  heart = record { notified = true; now = 0; locked = true };
  replies = record {
    encrypt = λ len. some len;
    tx_locked = true;
    retries = 0;
    end = PingEnd.whole;
  };
  delivery = delivery_env;
}

-- ten bytes from the address of link 3
abbrev message : Message
message = record { bytes = 0 ∷ 1 ∷ 2 ∷ 3 ∷ 4 ∷ 5 ∷ 6 ∷ 7 ∷ 8 ∷ 9 ∷ []; ip = 23; family = 2 }

abbrev clear_node : Handle
clear_node = record node { sec_block_size = 0; sec_hash_size = 0; sec_salt_size = 0 }

abbrev guarded : Handle
guarded = record clear_node { use_access_lists = 1 }

handled_run :
    (parse_recv_from_links node (env_of (Payload.pong (ping_on 3))) message).end
    ≡ ParseEnd.handled none
unfolding parse_recv_from_links decrypt_packet parse_clear packet_checks header_of max_ver
    store_max_ver parse_from other_source find_link is_from check_rx_acl handle_on dispatch
handled_run = refl

parse_recv_from_links-IsChecked_example :
    (inbuf : List ℕ) × (host : Host) × (i : ℕ) × IsChecked node
      (env_of (Payload.pong (ping_on 3)))
      message
      inbuf
      host
      i
parse_recv_from_links-IsChecked_example =
    parse_recv_from_links-IsChecked node (env_of (Payload.pong (ping_on 3))) message none
      handled_run

rejected_run :
    (parse_recv_from_links guarded (env_of (Payload.ping (ping_on 3))) message).end
    ≡ ParseEnd.dropped
unfolding parse_recv_from_links decrypt_packet parse_clear packet_checks header_of max_ver
    store_max_ver parse_from parse_ping handle_onwire_version common_ver hosts_of agree_ver
    ping_source check_rx_acl handle_on
rejected_run = refl

parse_recv_from_links_dropped_example :
    IsLeft guarded
      (env_of (Payload.ping (ping_on 3)))
      message
      (parse_recv_from_links guarded (env_of (Payload.ping (ping_on 3))) message).handle
parse_recv_from_links_dropped_example =
    parse_recv_from_links_dropped guarded (env_of (Payload.ping (ping_on 3))) message refl
      rejected_run

-- The ping that the access lists reject has changed the agreed version from 1 to 2.
version_run :
    (parse_recv_from_links guarded (env_of (Payload.ping (ping_on 3))) message).handle.onwire_ver
    ≡ 2
unfolding parse_recv_from_links decrypt_packet parse_clear packet_checks header_of max_ver
    store_max_ver parse_from parse_ping handle_onwire_version common_ver hosts_of agree_ver
    ping_source check_rx_acl handle_on
version_run = refl
