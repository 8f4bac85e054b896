-- ===== src/Heartbeat/Sound.antt =====
-- Every event keeps a link sound (libknet/threads_heartbeat.c).
use kronosnet.Base.{
  ℕ, zero, suc, ◌*◌, ◌≤◌, ◌≡◌, inl, inr, refl, Bool, ◌&&◌, ◌||◌, not, Option, none, some, arith,
  leb, ◌==◌, truthy, u64, Bool-cases, Option-cases,
}
use kronosnet.State.{Timespec, Link, Handle}
use kronosnet.Links.{link_updown, count_updown}
use kronosnet.Heartbeat.Run.{IsSound}
use kronosnet.Heartbeat.{
  Env, PingEnv, PingEnd, timespec_diff, reset_link, link_down, count_ping, sendto_ping, make_ping,
  check_timeout, send_ping,
}

-- what soundness depends on, but for `connected`
abbrev core : Link → ℕ × ℕ × ℕ × ℕ × ℕ × ℕ × ℕ × ℕ × ℕ
core link = (
  link.latency_max_samples, link.pong_timeout, link.status.stats.latency_samples,
  link.status.stats.latency_ave, link.status.stats.latency_max, link.pong_timeout_backoff,
  link.pong_timeout_adj, link.received_pong, link.pong_count,
)

abbrev settings : Link → ℕ × ℕ × ℕ
settings link = (link.latency_max_samples, link.pong_timeout, link.pong_count)

-- `b` has the settings of `a`; the rest is shown.
pub IsSound-renew :
    (a b : Link)
    → IsSound a
    → settings b ≡ settings a
    → b.status.stats.latency_samples ≤ a.latency_max_samples
    → b.status.stats.latency_ave ≤ a.pong_timeout
    → b.status.stats.latency_max ≤ a.pong_timeout
    → (1 ≤ b.pong_timeout_backoff) × (b.pong_timeout_backoff ≤ 10)
    → (a.pong_timeout ≤ b.pong_timeout_adj) × (b.pong_timeout_adj ≤ 12 * a.pong_timeout)
    → b.received_pong ≤ a.pong_count
    → b.status.connected ≤ 1
    → IsSound b
IsSound-renew a b s k samples ave max backoff adj pongs connected = record {
  measured = record {
    precision = ground (arith, k, s.measured.precision);
    precision_fits = ground (arith, k, s.measured.precision_fits);
    product_fits = ground (arith, k, s.measured.product_fits);
    samples = ground (arith, k, samples);
  };
  settings = ground (arith, k, s.settings);
  ave = ground (arith, k, ave);
  max = ground (arith, k, max);
  backoff_pos = backoff.0;
  backoff_max = backoff.1;
  adj_min = ground (arith, k, adj);
  adj_max = ground (arith, k, adj);
  pongs = ground (arith, k, pongs);
  pong_count = ground (arith, k, s.pong_count);
  connected = connected;
}

core-IsSound : (a b : Link) → core b ≡ core a → b.status.connected ≤ 1 → IsSound a → IsSound b
core-IsSound a b k le s =
    IsSound-renew a b s (ground (arith, k)) (ground (arith, k, s.measured.samples))
      (ground (arith, k, s.ave)) (ground (arith, k, s.max))
      (ground (arith, k, s.backoff_pos), ground (arith, k, s.backoff_max))
      (ground (arith, k, s.adj_min), ground (arith, k, s.adj_max)) (ground (arith, k, s.pongs)) le

link_updown-core :
    (notified : Bool) (link : Link) (enabled connected now : ℕ) (locked : Bool)
    → core (link_updown notified link enabled connected now locked).0 ≡ core link
unfolding link_updown count_updown
link_updown-core notified link enabled connected now locked = ground arith

pub link_updown-IsSound :
    (notified : Bool) (link : Link) (enabled connected now : ℕ) (locked : Bool)
    → connected ≤ 1
    → IsSound link
    → IsSound (link_updown notified link enabled connected now locked).0
unfolding link_updown count_updown
link_updown-IsSound notified link enabled connected now locked le s =
    core-IsSound link _ (link_updown-core notified link enabled connected now locked)
      (ground (arith, s.connected)) s

reset_link-IsSound : (link : Link) → IsSound link → IsSound (reset_link link)
unfolding reset_link
reset_link-IsSound link s =
    IsSound-renew link _ s refl s.measured.samples s.ave s.max (omega arith, omega arith)
      (s.adj_min, s.adj_max) (omega arith) s.connected

link_down-IsSound : (env : Env) (link : Link) → IsSound link → IsSound (link_down env link).0
unfolding link_down
link_down-IsSound env link s =
    let r = reset_link-IsSound link s in
    elim (Bool-cases ((reset_link link).status.connected == 1)) [
      | inl e ↦ rw (e) (
          link_updown-IsSound env.notified (reset_link link) (reset_link link).status.enabled 0
            env.now env.locked (omega arith) r)
      | inr e ↦ rw (e) r
    ]

sendto_ping-core :
    (retries : ℕ) (end : PingEnd) (clock : Timespec) (outlen : ℕ) (link : Link)
    → (core (sendto_ping retries end clock outlen link) ≡ core link)
      × ((sendto_ping retries end clock outlen link).status.connected ≡ link.status.connected)
unfolding sendto_ping count_ping
sendto_ping-core zero PingEnd.whole clock outlen link = (refl, refl)
sendto_ping-core zero PingEnd.internal clock outlen link = (refl, refl)
sendto_ping-core zero PingEnd.ignore clock outlen link = (refl, refl)
sendto_ping-core (suc n) end clock outlen link = sendto_ping-core n end clock outlen _

check_timeout-IsSound :
    (env : Env) (pong_last clock : Timespec) (link : Link)
    → IsSound link
    → IsSound (check_timeout env pong_last clock link).0
unfolding check_timeout
check_timeout-IsSound env pong_last clock link s =
    elim (Bool-cases (
      truthy pong_last.tv_nsec
      && leb (u64 (link.pong_timeout_adj * 1000)) (timespec_diff pong_last clock))) [
        | inl e ↦ rw (e) (link_down-IsSound env link s)
        | inr e ↦ rw (e) s
      ]

sendto_ping-IsSound :
    (retries : ℕ) (end : PingEnd) (clock : Timespec) (outlen : ℕ) (link : Link)
    → IsSound link
    → IsSound (sendto_ping retries end clock outlen link)
sendto_ping-IsSound retries end clock outlen link s =
    let (same, connected) = sendto_ping-core retries end clock outlen link in
    core-IsSound link _ same (omega (arith, connected, s.connected)) s

pub send_ping-IsSound :
    (knet_h : Handle) (env : Env) (ping_env : PingEnv) (clock : Option Timespec) (link : Link)
    (timed : ℕ)
    → IsSound link
    → IsSound (send_ping knet_h env ping_env clock link timed).0
unfolding send_ping
send_ping-IsSound knet_h env ping_env none link timed s =
    elim (Bool-cases (link.transport_connected == 0)) [
      | inl e ↦ rw (e) (link_down-IsSound env link s)
      | inr e ↦ rw (e) s
    ]
send_ping-IsSound knet_h env ping_env (some clock) link timed s =
    elim (Bool-cases (link.transport_connected == 0)) [
      | inl e ↦ rw (e) (link_down-IsSound env link s)
      | inr e ↦
          elim (Bool-cases (
            leb (u64 (link.ping_interval * 1000)) (timespec_diff link.ping_last clock)
            || not (truthy timed))) [
              | inl due ↦ elim (Option-cases (make_ping knet_h ping_env link clock timed)) [
                | inl lost ↦ rw (e, due, lost) s
                | inr (outlen, made) ↦
                    rw (e, due, made)
                      (check_timeout-IsSound env link.status.pong_last clock _
                        (sendto_ping-IsSound ping_env.retries ping_env.end clock outlen link s))
              ]
              | inr idle ↦
                  rw (e, idle) (check_timeout-IsSound env link.status.pong_last clock link s)
            ]
    ]
