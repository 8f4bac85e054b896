-- ===== src/Pmtud/Tests.antt =====
-- The theorems on the path MTU at concrete inputs, and runs of the code.
use kronosnet.Base.{
  ℕ, ◌≡◌, refl, true, false, none, some, [], Bool, ◌<◌, if◌then◌else◌, ◌==◌, inl, inr, arith, leb,
  u32, Bool-cases,
}
use kronosnet.State.{Timespec, Link, Host, Handle}
use kronosnet.Samples.{idle_link, new_host, node}
use kronosnet.Onwire.{size_sub, calc_max_data_outlen}
use kronosnet.Heartbeat.{timespec_diff}
use kronosnet.Pmtud.{Answer, Result, ipproto_overhead, check_link_pmtud, max_probes}
use kronosnet.Pmtud.Bisect.{IsPlain, IsPath}
use kronosnet.Pmtud.Discovery.{check_link_pmtud-finds}
use kronosnet.Pmtud.Acked.{app_mtu, check_link_pmtud-acked}
use kronosnet.Pmtud.Round.{PmtudEnv, has_path, pmtud_round}
use kronosnet.Pmtud.Stale.{pmtud_round-stale}

-- a network for packets of up to 1500 bytes
abbrev test_net : ℕ → ℕ → Answer
test_net i n = if leb n 1500 then Answer.replied n true else Answer.timed_out

test_net-IsPath : IsPath 1500 1500 test_net
test_net-IsPath i n = elim (Bool-cases (leb n 1500)) [
  | inl small ↦ inl (ground (arith, small), (true, ground (arith, small)))
  | inr large ↦ inr (inl (ground (arith, large), inl (ground (arith, large))))
]

abbrev plain_node : Handle
plain_node = record node { sec_block_size = 0; sec_hash_size = 0; sec_salt_size = 0 }

plain_node-IsPlain : IsPlain plain_node
plain_node-IsPlain = record {
  small = record { block = omega arith; salt = omega arith; hash = omega arith };
  block = refl;
  crypto = refl;
  version = refl;
}

abbrev pinged_link : Link
pinged_link = record (idle_link 0) {
  status = record ((idle_link 0).status) { enabled = 1; connected = 1 };
  last_ping_size = 26;
}

overhead_run : ipproto_overhead pinged_link ≡ some 28
unfolding ipproto_overhead
overhead_run = refl

check_link_pmtud-finds_example :
    ((check_link_pmtud plain_node pinged_link true test_net).0 ≡ Result.found)
    × ((check_link_pmtud plain_node pinged_link true test_net).1.status.mtu
        ≡ u32 (calc_max_data_outlen plain_node (size_sub 1500 28)))
check_link_pmtud-finds_example =
    check_link_pmtud-finds plain_node pinged_link 28 1500 1500 test_net plain_node-IsPlain
      test_net-IsPath overhead_run (refl, refl) (omega arith) (omega arith)
      (omega arith, omega arith)

found_run : (check_link_pmtud plain_node pinged_link true test_net).0 ≡ Result.found
found_run = check_link_pmtud-finds_example.0

check_link_pmtud-acked_example :
    (overhead i n : ℕ) × (fast : Bool) × (ipproto_overhead pinged_link ≡ some overhead)
    × (i < max_probes)
    × (test_net i n ≡ Answer.replied n fast)
    × ((check_link_pmtud plain_node pinged_link true test_net).1.status.mtu
        ≡ app_mtu plain_node overhead n)
check_link_pmtud-acked_example =
    check_link_pmtud-acked plain_node pinged_link true test_net found_run

-- the MTU of Ethernet
mtu_run : u32 (calc_max_data_outlen plain_node (size_sub 1500 28)) ≡ 1446
unfolding calc_max_data_outlen
mtu_run = refl

abbrev late_second : Timespec
late_second = record { tv_sec = 3; tv_nsec = 500000000 }

abbrev test_env : ℕ → ℕ → PmtudEnv
test_env id link_idx = record {
  clock_now = some (record { tv_sec = 10; tv_nsec = 0 });
  clock_end = none;
  locked = true;
  answer = test_net;
}

abbrev done_link : Link
done_link = record pinged_link {
  has_valid_mtu = 1;
  pmtud_last = record { tv_sec = 9; tv_nsec = 0 };
}

abbrev done_host : Host
done_host = record new_host { link = λ i. if i == 0 then done_link else pinged_link }

abbrev busy_node : Handle
busy_node = record plain_node { host_index = λ id. if id == 2 then some done_host else none }

done_link-path : has_path done_link ≡ true
unfolding has_path
done_link-path = refl

not_due :
    leb 60000000000
      (timespec_diff (record { tv_sec = 9; tv_nsec = 0 }) (record { tv_sec = 10; tv_nsec = 0 }))
    ≡ false
unfolding timespec_diff
not_due = refl

pmtud_round-stale_example :
    pmtud_round busy_node test_env true
    ≡ (record busy_node { pmtud_abort = 0; pmtud_running = 0; pmtud_forcerun = 0 }, true, none)
pmtud_round-stale_example =
    pmtud_round-stale busy_node test_env 2 [] done_host (record { tv_sec = 10; tv_nsec = 0 }) refl
      refl (refl, refl) refl done_link-path not_due
