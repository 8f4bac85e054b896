-- ===== src/Timers/Tests.antt =====
-- The theorems on the timers at concrete inputs, and runs of the code.
use kronosnet.Base.{◌≡◌, refl, true, false, some, none, List, [], ◌∷◌, arith, ◌==◌, if◌then◌else◌}
use kronosnet.State.{Handle}
use kronosnet.Samples.{node, idle_link, new_host}
use kronosnet.Onwire.{hosts_of}
use kronosnet.Timers.{is_short, any_short, hosts_short, set_threads_timer_res}
use kronosnet.Timers.Fit.{is_slow}
use kronosnet.Timers.Calls.{Fits, TimerCall, timer_calls, timer_calls-Fits}

node-Fits : Fits node
unfolding hosts_of hosts_short any_short is_short
node-Fits = record { listed = λ id. ground arith; fast = refl }

abbrev test_calls : List TimerCall
test_calls =
    TimerCall.timer_res 5000 0
    ∷ TimerCall.ping_timers 2 0 10 20 100 0
    ∷ TimerCall.timer_res 30000 0
    ∷ []

timer_calls-Fits_example : Fits (timer_calls node test_calls)
timer_calls-Fits_example = timer_calls-Fits node test_calls (refl, (refl, (refl, tt))) node-Fits

-- A resolution of 5 ms, a link with a pong timeout of 20 ms, and the default resolution of 200 ms, which
-- is set without a test.
abbrev quick_node : Handle
quick_node = record node {
  threads_timer_res = 5000;
  host_index = λ id.
      if id == 2
      then some (record new_host { link = λ i. record (idle_link i) { pong_timeout = 20000 } })
      else none;
}

reset_run :
    (is_slow quick_node ≡ false)
    × ((set_threads_timer_res quick_node 0 0).0 ≡ 0)
    × (is_slow (set_threads_timer_res quick_node 0 0).1 ≡ true)
unfolding set_threads_timer_res hosts_of hosts_short any_short is_short
reset_run = (refl, refl, refl)

-- above a second, where the heartbeat thread divides by zero
long_run :
    ((set_threads_timer_res node 1500000 0).0 ≡ 0)
    × ((set_threads_timer_res node 1500000 0).1.threads_timer_res ≡ 1500000)
unfolding set_threads_timer_res hosts_of hosts_short any_short is_short
long_run = (refl, refl)
