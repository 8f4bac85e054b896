-- ===== src/LinkConfig/Tests.antt =====
-- The theorems on the configuration of links at concrete inputs, and runs of the code.
use kronosnet.Base.{
  ◌≡◌, ◌≢◌, ◌⊎◌, refl, true, some, none, List, [], ◌∷◌, arith, ◌==◌, if◌then◌else◌,
}
use kronosnet.State.{Host, Handle}
use kronosnet.Samples.{node, idle_link, new_host}
use kronosnet.Onwire.{hosts_of}
use kronosnet.Links.{link_updown, count_updown}
use kronosnet.Heartbeat.Run.{Event}
use kronosnet.Hosts.{is_configured, ebusy, host_add, host_list_update, make_host, new_link}
use kronosnet.Hosts.Listed.{HostCall}
use kronosnet.Timers.{put_link}
use kronosnet.LinkConfig.{
  Config, ConfigEnv, first_err, refuse, other_family, check_args, check_link, default_link, clashes,
  any_clash, check_setup, configured_link, wiped_link, note_loop, set_config,
}
use kronosnet.LinkConfig.Clear.{clear_config, set_enable}
use kronosnet.LinkConfig.Life.{IsAllReady}
use kronosnet.LinkConfig.Ready.{LinkCall, link_calls, link_calls-IsAllReady}
use kronosnet.LinkConfig.Sound.{IsRefused, IsFree, set_config_fails}

abbrev test_config : Config
test_config = record {
  transport = 1;
  src_addr = some (record { bytes = 77; ip = 7; family = 2 });
  dst_addr = some (record { bytes = 78; ip = 8; family = 2 });
  flags = 0;
}

abbrev test_env : ConfigEnv
test_env = record {
  locked = 0;
  src_err = 0;
  dst_err = 0;
  mutex_err = 0;
  transport_err = 0;
  proto_overhead = 8;
  transport_connected = 1;
  acl_err = 0;
}

-- host 2 without links
abbrev bare_host : Host
bare_host = record new_host { link = λ i. record (idle_link i) { configured = 0 } }

abbrev bare_node : Handle
bare_node = record node { host_index = λ id. if id == 2 then some bare_host else none }

-- a node without hosts, and calls that add host 2 and configure, enable, disable and clear a link of it
abbrev empty_node : Handle
empty_node = record node { host_index = λ _. none }

empty_node-IsAllReady : IsAllReady empty_node.host_index
empty_node-IsAllReady id i host known = absurd (ground (arith, known))

abbrev test_calls : List LinkCall
test_calls =
    LinkCall.host (HostCall.add 2 0 true)
    ∷ LinkCall.configure 2 0 test_config test_env
    ∷ LinkCall.enable 2 0 1 0 true 100
    ∷ LinkCall.event 2 0 Event.adjust
    ∷ LinkCall.enable 2 0 0 0 true 101
    ∷ LinkCall.clear 2 0 (record { locked = 0; acl_err = 0; transport_err = 0 })
    ∷ []

link_calls-IsAllReady_example : IsAllReady (link_calls empty_node test_calls).host_index
link_calls-IsAllReady_example = link_calls-IsAllReady empty_node test_calls empty_node-IsAllReady

config_run : (set_config bare_node 2 0 test_config test_env).0 ≡ 0
unfolding set_config check_args check_link check_setup first_err refuse other_family any_clash
    clashes hosts_of default_link is_configured note_loop
config_run = refl

-- once configured and enabled, the link takes part in the heartbeat, and cannot be cleared
abbrev three_calls : List LinkCall
three_calls =
    LinkCall.host (HostCall.add 2 0 true)
    ∷ LinkCall.configure 2 0 test_config test_env
    ∷ LinkCall.enable 2 0 1 0 true 100
    ∷ []

clear_run :
    (clear_config
      (link_calls empty_node three_calls)
      2
      0
      (record { locked = 0; acl_err = 0; transport_err = 0 })).0
    ≡ ebusy
unfolding set_config check_args check_link check_setup first_err refuse other_family any_clash
    clashes hosts_of default_link configured_link is_configured note_loop host_add host_list_update
    make_host new_link put_link set_enable link_updown count_updown clear_config
clear_run = refl

busy_run : (set_config node 2 0 test_config test_env).0 ≢ 0
unfolding set_config check_args check_link first_err refuse other_family is_configured
busy_run = ground arith

set_config_fails_example :
    let r = set_config node 2 0 test_config test_env in
    (r.1 ≡ node) × IsRefused node new_host 2 0 test_config test_env r.0
    ⊎ (r.1 ≡ put_link node 2 0 new_host (wiped_link 0))
      × IsFree node new_host 2 0 test_config test_env r.0
set_config_fails_example = set_config_fails node 2 0 test_config test_env new_host refl busy_run

-- knet_host_add sets latency_min to UINT32_MAX, but after a failed call it is 0, and stays 0.
wiped_run :
    ((wiped_link 0).status.stats.latency_min ≡ 0)
    × ((default_link test_config (wiped_link 0)).status.stats.latency_min ≡ 0)
unfolding wiped_link default_link
wiped_run = (refl, refl)
