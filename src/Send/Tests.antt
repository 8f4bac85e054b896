-- ===== src/Send/Tests.antt =====
-- The theorems on packets of the application at concrete inputs, and runs of the code.
use kronosnet.Base.{
  ◌≡◌, ◌≢◌, ◌⊎◌, inl, length, refl, true, false, none, some, [], ◌∷◌, ◌==◌, if◌then◌else◌, truthy,
}
use kronosnet.State.{Host, Handle, zero_timespec}
use kronosnet.Samples.{new_host}
use kronosnet.Defrag.{Packet}
use kronosnet.OnwireV1.{prep_tx_bufs_v1, split_loop, data_header, frag_count}
use kronosnet.Crypto.{encrypt_and_sign}
use kronosnet.Crypto.Toy.{toy_ops, toy_ops-IsCipher, instance_of, sender, receiver}
use kronosnet.Dests.{get_data_dests, find_dests, unicast_loop, can_reach, is_local}
use kronosnet.Heartbeat.{PingEnd}
use kronosnet.Heartbeat.Rounds.{send_pings}
use kronosnet.Tx.{SockError, dispatch_to_links, dispatch_loop, send_msgs, get_tx_seq_num}
use kronosnet.Send.{
  SendEnv, SockEnd, Sent, SyncEnv, SyncEnd, parse_recv_from_sock, send_sync, returns_zero,
  choose_dests, send_to, send_remote, take_seq_num, compress_data, prep_tx_bufs, encrypt_bufs,
  encrypt_loop, send_hosts, send_numbered, dispatch_to_local, local_loop,
}
use kronosnet.Send.Readable.{IsReadable, parse_recv_from_sock-IsReadable}
use kronosnet.Send.Sync.{IsSentTo, send_sync_zero}

-- Every packet goes to host 2; a message is laid out as its number and its length; the sockets take all.
abbrev send_env : SendEnv
send_env = record {
  filter = some (λ packet channel. (record { bcast = some 0; dst_host_ids = 2 ∷ [] }, channel));
  local_writes = [];
  compress = λ model level packet. none;
  seq_locked = 0;
  rounds = λ id link_idx. record {
    env = record { notified = true; now = 0; locked = true };
    ping_env = record {
      onwire_locked = true;
      seq_locked = true;
      encrypt = λ len. some len;
      stats_locked = true;
      retries = 0;
      end = PingEnd.whole;
    };
    clock = some zero_timespec;
  };
  pings_locked = false;
  ops = toy_ops;
  encode = λ packet msg. msg.header.frag_seq ∷ msg.data_len ∷ [];
  socket = λ id link_idx. record { sent_msgs = some 3; verdict = SockError.ignore } ∷ [];
}

-- node 1 with key 5 in use, and with host 2 reachable on link 4
abbrev near_host : Host
near_host = record new_host {
  status = record { reachable = 1; remote = 0; external = 0 };
  active_link_entries = 1;
  active_links = λ _. 4;
}

abbrev source : Handle
source = record sender { host_index = λ id. if id == 2 then some near_host else none }

-- 2500 bytes, which are three fragments of at most 1000
abbrev packet : Packet
packet = (2500, λ i. i)

sent_run : (parse_recv_from_sock source send_env packet 0 1 true).end ≡ SockEnd.sent
unfolding parse_recv_from_sock choose_dests get_data_dests find_dests unicast_loop can_reach
    is_local send_to dispatch_to_local local_loop send_remote take_seq_num get_tx_seq_num send_pings
    compress_data send_numbered prep_tx_bufs prep_tx_bufs_v1 split_loop data_header frag_count
    encrypt_bufs encrypt_loop encrypt_and_sign send_hosts dispatch_to_links dispatch_loop send_msgs
sent_run = refl

parse_recv_from_sock-IsReadable_example :
    IsReadable send_env source receiver packet 1
      (parse_recv_from_sock source send_env packet 0 1 true)
parse_recv_from_sock-IsReadable_example =
    parse_recv_from_sock-IsReadable source receiver send_env packet 0 1 true
      (record {
        cipher = toy_ops-IsCipher;
        keyed = inl (refl, refl, refl, refl);
        inst = instance_of 5;
        used = refl;
        known = refl;
        has = refl;
      })
      sent_run

messages_run :
    (parse_recv_from_sock source send_env packet 0 1 true).messages
    ≡ (5 ∷ 1 ∷ 1000 ∷ []) ∷ (5 ∷ 2 ∷ 1000 ∷ []) ∷ (5 ∷ 3 ∷ 500 ∷ []) ∷ []
unfolding parse_recv_from_sock choose_dests get_data_dests find_dests unicast_loop can_reach
    is_local send_to dispatch_to_local local_loop send_remote take_seq_num get_tx_seq_num send_pings
    compress_data send_numbered prep_tx_bufs prep_tx_bufs_v1 split_loop data_header frag_count
    encrypt_bufs encrypt_loop encrypt_and_sign send_hosts dispatch_to_links dispatch_loop send_msgs
messages_run = refl

abbrev free_locks : SyncEnv
free_locks = record { locked = 0; onwire_locked = true; tx_locked = 0 }

sync_run : returns_zero (send_sync source free_locks send_env packet 0) ≡ true
unfolding returns_zero send_sync parse_recv_from_sock choose_dests get_data_dests find_dests
    unicast_loop can_reach is_local send_to dispatch_to_local local_loop send_remote take_seq_num
    get_tx_seq_num send_pings compress_data send_numbered prep_tx_bufs prep_tx_bufs_v1 split_loop
    data_header frag_count encrypt_bufs encrypt_loop encrypt_and_sign send_hosts dispatch_to_links
    dispatch_loop send_msgs
sync_run = refl

send_sync_zero_example :
    ((r : Sent) × (send_sync source free_locks send_env packet 0 ≡ SyncEnd.parsed r)
      × (r.end ≡ SockEnd.sent)
      × IsSentTo send_env
          (truthy source.has_loop_link)
          (length r.messages)
          (take_seq_num source send_env).1
          r.calls)
    ⊎ (send_sync source free_locks send_env packet 0 ≡ SyncEnd.nothing_done)
      × ((true ≡ false) ⊎ (truthy source.onwire_ver_remap ≡ false) × (source.onwire_ver ≢ 1))
send_sync_zero_example = send_sync_zero source free_locks send_env packet 0 sync_run

-- 0 is returned although nothing was sent: the mutex of the on-wire version could not be taken.
idle_run :
    returns_zero (send_sync source (record free_locks { onwire_locked = false }) send_env packet 0)
    ≡ true
unfolding returns_zero send_sync
idle_run = refl
