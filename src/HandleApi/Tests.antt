-- ===== src/HandleApi/Tests.antt =====
-- The theorem on data descriptors at a concrete input, and runs of the code.
use kronosnet.Base.{ℕ, ◌≡◌, refl, true, none, some, ◌<◌}
use kronosnet.Samples.{node}
use kronosnet.HandleApi.{
  SockEnv, datafd_max, find_sock, find_unused, choose_channel, is_taken, set_up_sock, watch_sock,
  add_to_channel, add_datafd,
}
use kronosnet.HandleApi.Channels.{IsNew, IsFound, remove_datafd-add_datafd}
use kronosnet.HandleApi.Settings.{is_power_of_two, set_host_defrag_bufs}

abbrev test_env : SockEnv
test_env = record {
  locked = 0;
  cloexec_err = 0;
  nonblock_err = 0;
  is_socket = true;
  socketpair = some (15, 16);
  socketpair_err = 0;
  epoll_err = 0;
}

add_run :
    ((add_datafd test_env node 0 none).errno ≡ 0)
    × ((add_datafd test_env node 0 none).channel ≡ some 1)
unfolding add_datafd find_sock find_unused choose_channel is_taken set_up_sock watch_sock
    add_to_channel
add_run = (refl, refl)

pair_run : IsNew node (some (15, 16))
unfolding find_sock
pair_run = (refl, refl)

-- Channel 0 of the node is in use: the new socket pair gets channel 1.
remove_datafd-add_datafd_example :
    let r = add_datafd test_env node 0 none in
    (c : ℕ) × (r.channel ≡ some c) × (c < datafd_max) × IsFound test_env node r.datafd c r.handle
remove_datafd-add_datafd_example =
    remove_datafd-add_datafd test_env test_env node 0 none pair_run add_run.0 refl refl

settings_run :
    ((set_host_defrag_bufs node 2 32 25 1 0).0 ≡ 0)
    × ((set_host_defrag_bufs node 3 32 25 1 0).0 ≡ 22)
unfolding set_host_defrag_bufs is_power_of_two
settings_run = (refl, refl)
