-- ===== src/Delivery/Tests.antt =====
-- The theorems on the delivery at concrete inputs, and runs of the code.
use kronosnet.Base.{◌≡◌, refl, true, none, some, [], ◌∷◌, arith}
use kronosnet.State.{Host, zero_timespec}
use kronosnet.Samples.{new_host, node}
use kronosnet.SeqNum.{
  seq_num_lookup, prepare, reclaim_old_defrag_bufs, clear_cbuffers, seq_dist, seq_num_set,
}
use kronosnet.Delivery.{
  WriteEnd, deliver_loop, deliver_data, DataPacket, RxEnv, check_destination, Outcome, pass_up,
  process_packet, process_data,
}
use kronosnet.Delivery.Once.{is_written, process_data-once}
use kronosnet.Delivery.Writes.{Tiles, deliver_data-Tiles}

abbrev test_env : RxEnv
test_env = record {
  locked = true;
  now = zero_timespec;
  granted = true;
  decompress = λ model packet. none;
  filter = none;
  writes = some 60 ∷ some 40 ∷ [];
  notified = true;
  time = 0;
}

-- 100 bytes, in one piece
abbrev test_packet : DataPacket
test_packet = record {
  version = 1;
  seq_num = 7;
  channel = 0;
  decompress_type = 0;
  body = record { payload = λ i. i; len = 100; frags = 1; frag_seq = 1 };
}

abbrev reachable_host : Host
reachable_host = record new_host { status = record (new_host.status) { reachable = 1 } }

written_run : is_written (process_data node test_env 0 test_packet reachable_host).outcome ≡ true
unfolding process_data process_packet pass_up check_destination deliver_data deliver_loop
    seq_num_lookup prepare reclaim_old_defrag_bufs clear_cbuffers seq_dist seq_num_set
written_run = refl

process_data-once_example :
    (process_data node test_env 1 test_packet
      (process_data node test_env 0 test_packet reachable_host).src_host).outcome
    ≡ Outcome.dropped
process_data-once_example =
    process_data-once node test_env test_env 0 1 test_packet test_packet reachable_host
      (omega arith) refl refl written_run

two_writes : (deliver_data (some 60 ∷ some 40 ∷ []) 100).0 ≡ WriteEnd.written
unfolding deliver_data deliver_loop
two_writes = refl

deliver_data-Tiles_example : Tiles 0 100 (deliver_data (some 60 ∷ some 40 ∷ []) 100).1
deliver_data-Tiles_example =
    deliver_data-Tiles (some 60 ∷ some 40 ∷ []) 100 (omega arith) two_writes

-- Two short writes: the third call starts at byte 20 again, and the packet counts as written.
deliver_data_run : deliver_data (some 60 ∷ some 20 ∷ some 80 ∷ []) 100 ≡ (
  WriteEnd.written,
  record { start = 0; count = 60 }
      ∷ record { start = 60; count = 20 }
      ∷ record { start = 20; count = 80 }
      ∷ [],
)
unfolding deliver_data deliver_loop
deliver_data_run = refl

-- Channel 200, which is -56 on the wire, leads outside sockfd.
overrun_run :
    (process_data node test_env 0 (record test_packet { channel = 200 }) reachable_host).outcome
    ≡ Outcome.crashed
unfolding process_data process_packet pass_up check_destination deliver_data deliver_loop
    seq_num_lookup prepare reclaim_old_defrag_bufs clear_cbuffers seq_dist seq_num_set
overrun_run = refl
