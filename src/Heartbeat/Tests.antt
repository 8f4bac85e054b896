-- ===== src/Heartbeat/Tests.antt =====
-- The theorems on the heartbeat at concrete inputs, and runs of the code.
use kronosnet.Base.{
  ℕ, ◌≡◌, refl, true, none, some, List, [], ◌∷◌, ◌/◌, ◌<◌, ◌≤◌, inl, arith, map, ltb, leb,
}
use kronosnet.State.{Timespec, Link}
use kronosnet.Samples.{idle_link, node}
use kronosnet.OnwireV1.{PingPacket, type_pong, process_pong_v1}
use kronosnet.Heartbeat.{Env, PingEnv, PingEnd, next_ave, note_latency, timespec_diff, beats}
use kronosnet.Heartbeat.Latency.{IsMeasured, mean, note_latency-IsMean}
use kronosnet.Heartbeat.Run.{Event, step, run, IsSound}
use kronosnet.Heartbeat.Steady.{run-IsSound}
use kronosnet.Heartbeat.Up.{Pong, pong_event, run-connected}
use kronosnet.Heartbeat.Timeout.{run_silent}
use kronosnet.Heartbeat.Rounds.{Round}
use kronosnet.Heartbeat.Period.{count_rounds, count_rounds-start}

abbrev at_time : ℕ → ℕ → Timespec
at_time s n = record { tv_sec = s; tv_nsec = n }

abbrev test_env : Env
test_env = record { notified = true; now = 100; locked = true }

abbrev test_ping_env : PingEnv
test_ping_env = record {
  onwire_locked = true;
  seq_locked = true;
  encrypt = λ n. some n;
  stats_locked = true;
  retries = 1;
  end = PingEnd.whole;
}

-- the reply to a ping sent at 5.000000001 s
abbrev pong_packet : PingPacket
pong_packet = record {
  header = record { kh_version = 1; kh_type = type_pong; kh_node = 2; kh_max_ver = 3 };
  link = 0;
  time = at_time 5 1;
  seq_num = 7;
  timed = 1;
}

-- it takes 2 ms
abbrev test_pong : Pong
test_pong = record { env = test_env; clock = at_time 5 2000001; inbuf = pong_packet; len = 26 }

abbrev down_link : Link
down_link = record (idle_link 0) {
  status = record ((idle_link 0).status) { enabled = 1 };
  pong_count = 2;
}

abbrev up_link : Link
up_link = record down_link {
  status = record (down_link.status) { connected = 1; pong_last = at_time 5 2000001 };
}

idle_link-IsMeasured : IsMeasured (idle_link 0)
idle_link-IsMeasured = record {
  precision = omega arith;
  precision_fits = omega arith;
  product_fits = omega arith;
  samples = omega arith;
}

up_link-IsSound : IsSound up_link
up_link-IsSound = record {
  measured = record {
    precision = omega arith;
    precision_fits = omega arith;
    product_fits = omega arith;
    samples = omega arith;
  };
  settings = omega arith;
  ave = omega arith;
  max = omega arith;
  backoff_pos = omega arith;
  backoff_max = omega arith;
  adj_min = omega arith;
  adj_max = omega arith;
  pongs = omega arith;
  pong_count = omega arith;
  connected = omega arith;
}

down_link-IsSound : IsSound down_link
down_link-IsSound = record {
  measured = record {
    precision = omega arith;
    precision_fits = omega arith;
    product_fits = omega arith;
    samples = omega arith;
  };
  settings = omega arith;
  ave = omega arith;
  max = omega arith;
  backoff_pos = omega arith;
  backoff_max = omega arith;
  adj_min = omega arith;
  adj_max = omega arith;
  pongs = omega arith;
  pong_count = omega arith;
  connected = omega arith;
}

note_latency-IsMean_example :
    let stats = (note_latency (idle_link 0) 2000).status.stats in
    (stats.latency_ave ≡ mean 0 stats.latency_samples 2000)
    × (stats.latency_ave ≤ 5000)
    × (1 ≤ stats.latency_samples)
    × (stats.latency_samples ≤ 2048)
note_latency-IsMean_example =
    note_latency-IsMean (idle_link 0) 2000 5000 idle_link-IsMeasured (omega arith) (omega arith)
      (omega arith)

abbrev test_events : List Event
test_events =
    pong_event test_pong
    ∷ Event.adjust
    ∷ Event.round test_env test_ping_env (some (at_time 6 0)) 1
    ∷ []

run-IsSound_example : IsSound (run node test_events down_link)
run-IsSound_example = run-IsSound node test_events down_link down_link-IsSound

timely : ltb (timespec_diff (process_pong_v1 pong_packet) (at_time 5 2000001) / 1000) 2000000 ≡ true
unfolding timespec_diff process_pong_v1
timely = refl

timely_lt : timespec_diff (process_pong_v1 pong_packet) (at_time 5 2000001) / 1000 < 2000000
timely_lt = ground (arith, timely)

run-connected_example :
    (run node (map pong_event (test_pong ∷ test_pong ∷ test_pong ∷ [])) down_link).status.connected
    ≡ 1
run-connected_example =
    run-connected node (test_pong ∷ test_pong ∷ test_pong ∷ []) down_link down_link-IsSound
      (omega arith) ((refl, timely_lt), ((refl, timely_lt), ((refl, timely_lt), tt)))

old_pong : leb 24000000000 (timespec_diff (at_time 5 2000001) (at_time 30 0)) ≡ true
unfolding timespec_diff
old_pong = refl

up_link-beats : beats up_link ≡ true
unfolding beats
up_link-beats = refl

run_silent_example :
    (step node
      (Event.round test_env test_ping_env (some (at_time 30 0)) 1)
      (run node (Event.adjust ∷ []) up_link)).status.connected
    ≡ 0
run_silent_example =
    run_silent node (Event.adjust ∷ []) test_env test_ping_env (at_time 30 0) 1 up_link
      up_link-IsSound (refl, tt) (up_link-beats, refl) (ground arith)
      (refl, refl, refl, refl, inl refl) (ground (arith, old_pong))

abbrev test_rounds : ℕ → ℕ → Round
test_rounds id link_idx = record {
  env = test_env;
  ping_env = test_ping_env;
  clock = some (at_time 6 0);
}

-- A timer resolution that knet_handle_set_threads_timer_res accepts.
count_rounds_run : count_rounds 1500000 1 1 ≡ none
count_rounds_run = count_rounds-start 1500000 1 (omega arith)

-- With a pong timeout of ten seconds the product of the average and the number of samples overflows:
-- an average of three seconds, 2047 samples and another pong of three seconds give 0.9 seconds.
next_ave_run : next_ave 3000000 2047 3000000 ≡ 901823
unfolding next_ave
next_ave_run = refl
