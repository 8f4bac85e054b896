-- ===== src/Heartbeat/Silence.antt =====
-- How a silent link goes down (libknet/threads_heartbeat.c:send_ping, _link_down).
use kronosnet.Base.{
  ℕ, zero, suc, ◌*◌, ◌≤◌, ◌≡◌, ◌⊎◌, inl, inr, refl, ◌∙◌, Bool, true, false, ◌&&◌, ◌||◌, not, Option,
  none, some, List, [], ◌∷◌, arith, leb, ◌==◌, if◌then◌else◌, truthy, u64, Bool-cases, Option-cases,
  All,
}
use kronosnet.State.{Timespec, Link, Handle}
use kronosnet.Links.{link_updown, count_updown}
use kronosnet.Heartbeat.Run.{Event, step, run, IsSound}
use kronosnet.Heartbeat.Steady.{step-IsSound}
use kronosnet.Heartbeat.{
  Env, PingEnv, PingEnd, timespec_diff, reset_link, link_down, count_ping, sendto_ping, make_ping,
  check_timeout, send_ping, beats, adjust_pong_timeout,
}

abbrev pub is_pong : Event → Bool
is_pong (Event.pong env clock inbuf len) = true
is_pong (Event.round env ping_env clock timed) = false
is_pong Event.adjust = false

-- what the timeout of a link depends on
abbrev pub signs : Link → Timespec × ℕ × ℕ × ℕ × Bool
signs link = (
  link.status.pong_last,
  link.transport_connected,
  link.pong_timeout,
  link.status.connected,
  beats link,
)

abbrev pub Quiet : Link → Link → Type 0
Quiet link link' = (link'.status.connected ≡ 0) ⊎ (signs link' ≡ signs link)

pub link_down-connected :
    (env : Env) (link : Link)
    → link.status.connected ≤ 1
    → (link_down env link).0.status.connected ≡ 0
unfolding link_down reset_link link_updown count_updown
link_down-connected env link le = ground arith

pub sendto_ping-signs :
    (retries : ℕ) (end : PingEnd) (clock : Timespec) (outlen : ℕ) (link : Link)
    → (signs (sendto_ping retries end clock outlen link) ≡ signs link)
      × ((sendto_ping retries end clock outlen link).pong_timeout_adj ≡ link.pong_timeout_adj)
unfolding sendto_ping count_ping beats
sendto_ping-signs zero PingEnd.whole clock outlen link = (refl, refl)
sendto_ping-signs zero PingEnd.internal clock outlen link = (refl, refl)
sendto_ping-signs zero PingEnd.ignore clock outlen link = (refl, refl)
sendto_ping-signs (suc n) end clock outlen link = sendto_ping-signs n end clock outlen _

-- whether the pong is too old
abbrev pub late : Timespec → Timespec → ℕ → Bool
late pong_last clock adj =
    truthy pong_last.tv_nsec && leb (u64 (adj * 1000)) (timespec_diff pong_last clock)

check_timeout-Quiet :
    (env : Env) (pong_last clock : Timespec) (link link' : Link)
    → link.status.connected ≤ 1
    → signs link' ≡ signs link
    → Quiet link (check_timeout env pong_last clock link').0
unfolding check_timeout
check_timeout-Quiet env pong_last clock link link' le same =
    elim (Bool-cases (late pong_last clock link'.pong_timeout_adj)) [
      | inl e ↦ inl (rw (e) (link_down-connected env link' (ground (arith, le, same))))
      | inr e ↦ inr (rw (e) same)
    ]

send_ping-Quiet :
    (knet_h : Handle) (env : Env) (ping_env : PingEnv) (clock : Option Timespec) (link : Link)
    (timed : ℕ)
    → link.status.connected ≤ 1
    → Quiet link (send_ping knet_h env ping_env clock link timed).0
unfolding send_ping
send_ping-Quiet knet_h env ping_env none link timed le =
    elim (Bool-cases (link.transport_connected == 0)) [
      | inl e ↦ inl (rw (e) (link_down-connected env link le))
      | inr e ↦ inr (rw (e) refl)
    ]
send_ping-Quiet knet_h env ping_env (some clock) link timed le =
    elim (Bool-cases (link.transport_connected == 0)) [
      | inl e ↦ inl (rw (e) (link_down-connected env link le))
      | inr e ↦
          elim (Bool-cases (
            leb (u64 (link.ping_interval * 1000)) (timespec_diff link.ping_last clock)
            || not (truthy timed))) [
              | inl due ↦ elim (Option-cases (make_ping knet_h ping_env link clock timed)) [
                | inl lost ↦ rw (e, due, lost) (inr refl)
                | inr (outlen, made) ↦
                    rw (e, due, made)
                      (check_timeout-Quiet env link.status.pong_last clock link _ le
                        (sendto_ping-signs ping_env.retries ping_env.end clock outlen link).0)
              ]
              | inr idle ↦
                  rw (e, idle)
                    (check_timeout-Quiet env link.status.pong_last clock link link le refl)
            ]
    ]

if-Quiet :
    (b : Bool) (link link' : Link) → Quiet link link' → Quiet link (if b then link' else link)
if-Quiet true link link' q = q
if-Quiet false link link' q = inr refl

pub step-Quiet :
    (knet_h : Handle) (e : Event) (link : Link)
    → is_pong e ≡ false
    → link.status.connected ≤ 1
    → Quiet link (step knet_h e link)
step-Quiet knet_h (Event.pong env clock inbuf len) link q le = ground arith
step-Quiet knet_h (Event.round env ping_env clock timed) link q le =
    if-Quiet (beats link) link _ (send_ping-Quiet knet_h env ping_env clock link timed le)
step-Quiet knet_h Event.adjust link q le = inr (unfold adjust_pong_timeout beats in ground arith)

-- Without a pong, a link is down or its signs are the old ones.
pub run-Quiet :
    (knet_h : Handle) (events : List Event) (link : Link)
    → IsSound link
    → All (λ e. is_pong e ≡ false) events
    → Quiet link (run knet_h events link)
run-Quiet knet_h [] link s quiet = inr refl
run-Quiet knet_h (e ∷ events) link s (q, quiet) =
    let rest = run-Quiet knet_h events (step knet_h e link) (step-IsSound knet_h e link s) quiet in
    let now = step-Quiet knet_h e link q s.connected in
    elim rest [
      | inl down ↦ inl down
      | inr same ↦ elim now [
        | inl down ↦ inl (ground (arith, same, down))
        | inr first ↦ inr (same ∙ first)
      ]
    ]
