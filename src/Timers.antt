-- ===== src/Timers.antt =====
-- The timers of libknet: knet_handle_set_threads_timer_res of libknet/threads_common.c, and
-- knet_link_set_ping_timers and knet_link_set_pong_count of libknet/links.c. `locked` is what
-- get_global_wrlock returns; the result of a function is its errno, 0 on success, and the handle. A
-- time_t is a natural number: one below 0 is refused like 0.
mod Fit
mod Calls
mod Tests
use kronosnet.Base.{
  ℕ, zero, suc, ◌+◌, ◌*◌, Bool, true, false, ◌&&◌, ◌||◌, not, Option, none, some, List, [], ◌∷◌,
  ltb, leb, ◌==◌, if◌then◌else◌, truthy, update, u64,
}
use kronosnet.State.{Link, Host, Handle}
use kronosnet.Onwire.{hosts_of}
use kronosnet.Hosts.{einval}

abbrev pub enosys : ℕ
enosys = 38

-- KNET_THREADS_TIMER_RES
abbrev pub default_timer_res : ℕ
default_timer_res = 200000

-- a configured link whose pong timeout is below a timer resolution
unfoldable pub is_short : ℕ → Link → Bool
is_short timeres link = truthy link.configured && ltb link.pong_timeout timeres

-- the loop over `n` links from `link_idx` on
unfoldable pub any_short : ℕ → ℕ → ℕ → (ℕ → Link) → Bool
any_short zero link_idx timeres link = false
any_short (suc n) link_idx timeres link =
    is_short timeres (link link_idx) || any_short n (link_idx + 1) timeres link

-- the loop over the hosts: what `found` is at its end
unfoldable pub hosts_short : ℕ → List Host → Bool
hosts_short timeres [] = false
hosts_short timeres (host ∷ hosts) = any_short 8 0 timeres host.link || hosts_short timeres hosts

unfoldable pub set_threads_timer_res : Handle → ℕ → ℕ → ℕ × Handle
set_threads_timer_res knet_h timeres locked =
    if ltb 0 timeres && ltb timeres 1000
    then (einval, knet_h)
    else (if truthy locked
        then (locked, knet_h)
        else (if truthy timeres
            then (if ltb knet_h.threads_timer_res timeres
                  && hosts_short timeres (hosts_of knet_h.host_index knet_h.host_list)
                then (einval, knet_h)
                else (0, record knet_h { threads_timer_res = timeres }))
            else (0, record knet_h { threads_timer_res = default_timer_res })))

-- a link of a host replaced
unfoldable pub put_link : Handle → ℕ → ℕ → Host → Link → Handle
put_link knet_h host_id link_id host link = record knet_h {
  host_index =
      update knet_h.host_index host_id
        (some (record host { link = update host.link link_id link }));
}

unfoldable pub set_ping_timers : Handle → ℕ → ℕ → ℕ → ℕ → ℕ → ℕ → ℕ × Handle
set_ping_timers knet_h host_id link_id interval timeout precision locked =
    let ping_interval = u64 (interval * 1000) in
    let pong_timeout = u64 (timeout * 1000) in
    if leb 8 link_id || interval == 0
    then (einval, knet_h)
    else (if timeout == 0
        then (enosys, knet_h)
        else (if precision == 0
            then (einval, knet_h)
            else (if truthy locked then (locked, knet_h) else elim (knet_h.host_index host_id) [
              | none ↦ (einval, knet_h)
              | some host ↦
                  if not (truthy (host.link link_id).configured)
                    || ltb pong_timeout knet_h.threads_timer_res
                  then (einval, knet_h)
                  else (
                    0,
                    put_link knet_h host_id link_id host (record (host.link link_id) {
                      ping_interval = ping_interval;
                      pong_timeout = pong_timeout;
                      latency_max_samples = precision;
                    }),
                  )
            ])))

unfoldable pub set_pong_count : Handle → ℕ → ℕ → ℕ → ℕ → ℕ × Handle
set_pong_count knet_h host_id link_id pong_count locked =
    if leb 8 link_id || ltb pong_count 1
    then (einval, knet_h)
    else (if truthy locked then (locked, knet_h) else elim (knet_h.host_index host_id) [
      | none ↦ (einval, knet_h)
      | some host ↦ if not (truthy (host.link link_id).configured) then (einval, knet_h) else (
        0,
        put_link knet_h host_id link_id host
            (record (host.link link_id) { pong_count = pong_count }),
      )
    ])
