-- ===== src/OnwireV1/Tests.antt =====
-- The theorems on version 1 packets at concrete inputs, and runs of the code.
use kronosnet.Base.{
  ℕ, ◌+◌, ◌*◌, ◌≡◌, ◌<◌, ◌≤◌, refl, inl, true, false, some, none, List, [], ◌∷◌, arith,
}
use kronosnet.State.{Host, Timespec, DefragBuf, zero_defrag_buf}
use kronosnet.Samples.{new_host, node}
use kronosnet.Defrag.Assemble.{assemble, Order, occurs, arrivals}
use kronosnet.Defrag.Reassembly.{assemble_incomplete}
use kronosnet.SeqNum.{seq_num_lookup}
use kronosnet.OnwireV1.{
  TxMsg, PingPacket, prep_tx_bufs_v1, process_ping_v1, data_header, frag_count,
}
use kronosnet.OnwireV1.RoundTrip.{sent_arrivals, assemble-prep_tx_bufs}
use kronosnet.OnwireV1.Pings.{IsWiped, process_ping-IsWiped, process_ping_after_data}

abbrev letters : ℕ → ℕ
letters x = 97 + x

abbrev pad : TxMsg
pad = record {
  header = unfold data_header in data_header node 5 2 7 0 0 false;
  base = 0;
  data_len = 0;
}

abbrev at : ℕ → Timespec
at n = record { tv_sec = n; tv_nsec = 0 }

-- the last fragment first, one of them twice
abbrev shuffled : Order
shuffled = (3, at 1) ∷ (1, at 2) ∷ (3, at 3) ∷ (2, at 4) ∷ []

-- a buffer with leftovers of another packet
abbrev dirty : DefragBuf
dirty = record zero_defrag_buf { buf = λ x. x * 7; frag_recv = 2; last_first = 1; frag_size = 9 }

shuffled-occurs : (k : ℕ) → 0 < k → k ≤ 3 → occurs k shuffled ≡ true
shuffled-occurs k a b = ground arith

assemble-prep_tx_bufs_example :
    (out : ℕ → ℕ) × (assemble 7 dirty
        (sent_arrivals letters (prep_tx_bufs_v1 node 5 2 7 0 0 false) pad shuffled)
      ≡ some (some (5, out)))
    × ((x : ℕ) → x < 5 → out x ≡ letters x)
assemble-prep_tx_bufs_example =
    assemble-prep_tx_bufs node letters 5 2 7 0 0 false pad (omega arith) (omega arith) (omega arith)
      (omega arith) dirty shuffled refl (omega arith) shuffled-occurs

assemble_incomplete_example :
    assemble 7 dirty (arrivals letters 2 3 1 ((3, at 1) ∷ (1, at 2) ∷ (3, at 3) ∷ [])) ≡ some none
assemble_incomplete_example =
    assemble_incomplete letters 2 3 1 (omega arith) (omega arith) (omega arith) (omega arith)
      (omega arith) 7 dirty ((3, at 1) ∷ (1, at 2) ∷ (3, at 3) ∷ []) 2 refl (omega arith)
      (omega arith) (omega arith) refl

abbrev lengths : List TxMsg → List ℕ
lengths [] = []
lengths (m ∷ ms) = m.data_len ∷ lengths ms

prep_tx_bufs_run : lengths (prep_tx_bufs_v1 node 5 2 7 0 0 false) ≡ 2 ∷ 2 ∷ 1 ∷ []
unfolding prep_tx_bufs_v1 data_header frag_count kronosnet.OnwireV1.split_loop
prep_tx_bufs_run = refl

abbrev ping : PingPacket
ping = record {
  header = record { kh_version = 1; kh_type = 0x81; kh_node = 2; kh_max_ver = 1 };
  link = 0;
  time = at 5;
  seq_num = 40;
  timed = 0;
}

abbrev active_host : Host
active_host = record new_host { rx_seq_num = 900; circular_buffer = λ _. 1 }

process_ping-IsWiped_example : IsWiped 40 (process_ping_v1 node active_host ping)
process_ping-IsWiped_example =
    process_ping-IsWiped node active_host ping (omega arith) (inl (refl, (λ e. omega arith), refl))

process_ping_after_data_run :
    process_ping_v1 node (record active_host { got_data = 1 }) ping
    ≡ (seq_num_lookup node (record active_host { untimed_rx_seq_num = 40; got_data = 0 }) 40 0 0).1
process_ping_after_data_run =
    process_ping_after_data node (record active_host { got_data = 1 }) ping refl refl
      (λ e. omega arith)
