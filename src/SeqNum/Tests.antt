-- ===== src/SeqNum/Tests.antt =====
-- The theorems on sequence numbers at concrete inputs, and runs of the code.
use kronosnet.Base.{◌+◌, ◌≡◌, refl, true, false, List, [], ◌∷◌, arith, update}
use kronosnet.State.{Host, DefragBuf, zero_defrag_buf}
use kronosnet.Samples.{new_host, node}
use kronosnet.SeqNum.{seq_num_lookup, reclaim_old_defrag_bufs}
use kronosnet.SeqNum.Refine.{Arrival, deliveries, ideal_deliveries, Tracks, deliveries_refine}
use kronosnet.SeqNum.Bounds.{reclaim_exact, KeepsOutside, seq_num_lookup-KeepsOutside}

abbrev at_100 : Host
at_100 = record new_host { rx_seq_num = 100 }

at_100-Tracks : Tracks at_100 []
at_100-Tracks = record {
  started = omega arith;
  small = omega arith;
  below = tt;
  agree = λ u a b. refl;
}

-- late, repeated, far ahead, not delivered the first time
abbrev script : List Arrival
script =
    (99, true)
    ∷ (101, false)
    ∷ (99, true)
    ∷ (101, true)
    ∷ (6000, true)
    ∷ (101 + 2000, true)
    ∷ (6000, true)
    ∷ []

deliveries_refine_example :
    deliveries node at_100 ((99, true) ∷ (101, false) ∷ (101, true) ∷ (5000, true) ∷ [])
    ≡ ideal_deliveries [] ((99, true) ∷ (101, false) ∷ (101, true) ∷ (5000, true) ∷ [])
deliveries_refine_example =
    deliveries_refine node at_100 [] ((99, true) ∷ (101, false) ∷ (101, true) ∷ (5000, true) ∷ [])
      at_100-Tracks (omega arith)

ideal_deliveries_run :
    ideal_deliveries [] script ≡ true ∷ false ∷ false ∷ true ∷ true ∷ true ∷ false ∷ []
unfolding ideal_deliveries
ideal_deliveries_run = refl

abbrev busy_buf : DefragBuf
busy_buf = record zero_defrag_buf { in_use = 1; pckt_seq = 65500 }

abbrev wrapped : Host
wrapped = record new_host { defrag_bufs = update new_host.defrag_bufs 2 busy_buf }

-- The counter has wrapped round: packet 65500 lies 46 behind packet 10, the window is 16.
reclaim_exact_example :
    (reclaim_old_defrag_bufs node wrapped 10).defrag_bufs 2 ≡ record busy_buf { in_use = 0 }
reclaim_exact_example = reclaim_exact node wrapped 10 2 (omega arith) (omega arith) (omega arith)

seq_num_lookup-KeepsOutside_example :
    KeepsOutside at_100 (seq_num_lookup node at_100 9000 0 1).1 4100
seq_num_lookup-KeepsOutside_example = seq_num_lookup-KeepsOutside node at_100 9000 0 1 4100

abbrev marked_5000 : Host
marked_5000 = record new_host {
  rx_seq_num = 5000;
  circular_buffer = update new_host.circular_buffer 904 1;
}
