-- ===== src/LinkConfig/Life.antt =====
-- The life of a link between knet_link_set_config and knet_link_clear_config (libknet/links.c), with
-- what the heartbeat does to it in between.
use kronosnet.Base.{
  ℕ, zero, suc, ◌≡◌, ◌⊎◌, inl, inr, refl, subst, Bool, true, Option, some, arith, ◌==◌, truthy,
  Bool-cases, Option-cases,
}
use kronosnet.State.{Timespec, Link, Host, Handle}
use kronosnet.OnwireV1.{PingPacket}
use kronosnet.Links.{link_updown, count_updown}
use kronosnet.Heartbeat.{
  Env, PingEnv, PingEnd, note_latency, count_pong, receive_pong, process_pong, count_ping,
  sendto_ping, make_ping, reset_link, link_down, check_timeout, send_ping, adjust_pong_timeout,
}
use kronosnet.Heartbeat.Run.{Event, step, IsSound}
use kronosnet.Heartbeat.Steady.{step-IsSound}
use kronosnet.Timers.{put_link}
use kronosnet.LinkConfig.{Config, ConfigEnv, default_link, configured_link, wiped_link}
use kronosnet.Heartbeat.Sound.{IsSound-renew, link_updown-IsSound}
use kronosnet.LinkConfig.Sound.{IsFresh, configured_link-IsSound}

link_down-configured :
    (env : Env) (link : Link) → (link_down env link).0.configured ≡ link.configured
unfolding link_down reset_link link_updown count_updown
link_down-configured env link = ground arith

check_timeout-configured :
    (env : Env) (pong_last clock : Timespec) (link : Link)
    → (check_timeout env pong_last clock link).0.configured ≡ link.configured
unfolding check_timeout
check_timeout-configured env pong_last clock link = ground (arith, link_down-configured env link)

sendto_ping-configured :
    (n : ℕ) (end : PingEnd) (clock : Timespec) (outlen : ℕ) (link : Link)
    → (sendto_ping n end clock outlen link).configured ≡ link.configured
unfolding sendto_ping count_ping
sendto_ping-configured zero PingEnd.whole clock outlen link = refl
sendto_ping-configured zero PingEnd.internal clock outlen link = refl
sendto_ping-configured zero PingEnd.ignore clock outlen link = refl
sendto_ping-configured (suc n) end clock outlen link = sendto_ping-configured n end clock outlen _

process_pong-configured :
    (knet_h : Handle) (env : Env) (clock : Timespec) (link : Link) (inbuf : PingPacket) (len : ℕ)
    → (process_pong knet_h env clock link inbuf len).0.configured ≡ link.configured
unfolding process_pong count_pong note_latency receive_pong link_updown count_updown
process_pong-configured knet_h env clock link inbuf len = ground arith

send_ping-configured :
    (knet_h : Handle) (env : Env) (ping_env : PingEnv) (clock : Option Timespec) (link : Link)
    (timed : ℕ)
    → (send_ping knet_h env ping_env clock link timed).0.configured ≡ link.configured
unfolding send_ping
send_ping-configured knet_h env ping_env clock link timed =
    elim (Bool-cases (link.transport_connected == 0)) [
      | inl e ↦ rw (e) (link_down-configured env link)
      | inr e ↦ elim (Option-cases clock) [
        | inl gone ↦ rw (e, gone) refl
        | inr (now, known) ↦ elim (Option-cases (make_ping knet_h ping_env link now timed)) [
          | inl failed ↦
              ground (
                arith,
                e,
                known,
                failed,
                check_timeout-configured env link.status.pong_last now link,
              )
          | inr (outlen, made) ↦
              let sent = sendto_ping ping_env.retries ping_env.end now outlen link in
              ground (
                arith,
                e,
                known,
                made,
                check_timeout-configured env link.status.pong_last now link,
                check_timeout-configured env link.status.pong_last now sent,
                sendto_ping-configured ping_env.retries ping_env.end now outlen link,
              )
        ]
      ]
    ]

step-configured :
    (knet_h : Handle) (e : Event) (link : Link) → (step knet_h e link).configured ≡ link.configured
step-configured knet_h (Event.pong env clock inbuf len) link =
    process_pong-configured knet_h env clock link inbuf len
step-configured knet_h (Event.round env ping_env clock timed) link =
    ground (arith, send_ping-configured knet_h env ping_env clock link timed)
step-configured knet_h Event.adjust link = unfold adjust_pong_timeout in ground arith

-- a link that is not configured has heard nothing, and one that is configured is sound
abbrev pub IsReady : Link → Type 0
IsReady link = (link.configured ≡ 0) × IsFresh link ⊎ (truthy link.configured ≡ true) × IsSound link

pub step-IsReady :
    (knet_h : Handle) (e : Event) (link : Link)
    → truthy link.configured ≡ true
    → IsReady link
    → IsReady (step knet_h e link)
step-IsReady knet_h e link set (inl (unset, fresh)) = absurd (ground (arith, set, unset))
step-IsReady knet_h e link set (inr (same, s)) =
    inr (ground (arith, set, step-configured knet_h e link), step-IsSound knet_h e link s)

pub link_updown-IsReady :
    (notified : Bool) (link : Link) (enabled now : ℕ)
    → truthy link.configured ≡ true
    → IsReady link
    → IsReady (link_updown notified link enabled link.status.connected now true).0
link_updown-IsReady notified link enabled now set (inl (unset, fresh)) =
    absurd (ground (arith, set, unset))
link_updown-IsReady notified link enabled now set (inr (same, s)) = inr (
  unfold link_updown in ground (arith, set),
  link_updown-IsSound notified link enabled link.status.connected now true s.connected s,
)

pub wiped_link-IsReady : (i : ℕ) → IsReady (wiped_link i)
unfolding wiped_link
wiped_link-IsReady i = inl (refl, record { ave = refl; max = refl; pongs = refl; connected = refl })

pub configured_link-IsReady :
    (knet_h : Handle) (c : Config) (env : ConfigEnv) (link : Link)
    → IsFresh link
    → IsReady (configured_link knet_h c env (default_link c link))
configured_link-IsReady knet_h c env link fresh =
    inr (unfold configured_link in ground arith, configured_link-IsSound knet_h c env link fresh)

pub unset-IsFresh : (link : Link) → link.configured ≡ 0 → IsReady link → IsFresh link
unset-IsFresh link unset (inl (same, fresh)) = fresh
unset-IsFresh link unset (inr (set, s)) = absurd (ground (arith, set, unset))

pub unconnected-IsReady :
    (link : Link) → IsReady link → IsReady (record link { transport_connected = 0 })
unconnected-IsReady link (inl (unset, fresh)) = inl (
  unset,
  record { ave = fresh.ave; max = fresh.max; pongs = fresh.pongs; connected = fresh.connected },
)
unconnected-IsReady link (inr (set, s)) = inr (
  set,
  IsSound-renew link (record link { transport_connected = 0 }) s refl s.measured.samples s.ave s.max
      (s.backoff_pos, s.backoff_max) (s.adj_min, s.adj_max) s.pongs s.connected,
)

-- every link of every known host
abbrev pub IsAllReady : (ℕ → Option Host) → Type 0
IsAllReady index = (id i : ℕ) (host : Host) → index id ≡ some host → IsReady (host.link i)

pub put_link-IsAllReady :
    (knet_h : Handle) (id i : ℕ) (host : Host) (link : Link)
    → IsAllReady knet_h.host_index
    → ((j : ℕ) → IsReady (host.link j))
    → IsReady link
    → IsAllReady (put_link knet_h id i host link).host_index
unfolding put_link
put_link-IsAllReady knet_h id i host link all own new x j h known = elim (Bool-cases (x == id)) [
  | inr other ↦ all x j h (ground (arith, known, other))
  | inl here ↦ elim (Bool-cases (j == i)) [
    | inl there ↦ subst IsReady (ground (arith, known, here, there)) new
    | inr apart ↦ subst IsReady (ground (arith, known, here, apart)) (own j)
  ]
]
