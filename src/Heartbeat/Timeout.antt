-- ===== src/Heartbeat/Timeout.antt =====
-- When a link is taken down (libknet/threads_heartbeat.c:send_ping).
use kronosnet.Base.{
  ℕ, ◌*◌, ◌^◌, ◌≤◌, ◌<◌, ◌≡◌, ◌≢◌, ◌⊎◌, inl, inr, refl, sym, subst, ap, ap₂, ◌∙◌, Bool, true, false,
  ◌||◌, not, some, List, arith, leb, ◌==◌, if◌then◌else◌, truthy, u64, Bool-cases, All,
}
use kronosnet.State.{Timespec, Link, Handle}
use kronosnet.OnwireV1.{prep_ping_v1, header_ping_size}
use kronosnet.Heartbeat.Silence.{
  is_pong, late, link_down-connected, sendto_ping-signs, step-Quiet, run-Quiet,
}
use kronosnet.Heartbeat.Run.{Event, step, run, IsSound}
use kronosnet.Heartbeat.Steady.{run-IsSound}
use kronosnet.Heartbeat.{
  Env, PingEnv, timespec_diff, sendto_ping, make_ping, check_timeout, send_ping, beats,
}

-- A ping can be made and sent: the mutexes are taken, the version is one that is understood, and the
-- encryption, if there is one, works.
abbrev pub IsAble : Handle → PingEnv → Type 0
IsAble knet_h ping_env =
    (ping_env.onwire_locked ≡ true)
    × (ping_env.seq_locked ≡ true)
    × (ping_env.stats_locked ≡ true)
    × ((truthy knet_h.onwire_ver_remap || knet_h.onwire_ver == 1) ≡ true)
    × ((truthy knet_h.crypto_in_use_config ≡ false)
        ⊎ ((n : ℕ) × (ping_env.encrypt header_ping_size ≡ some n)))

make_ping_able :
    (knet_h : Handle) (ping_env : PingEnv) (link : Link) (clock : Timespec) (timed : ℕ)
    → IsAble knet_h ping_env
    → (n : ℕ) × (make_ping knet_h ping_env link clock timed ≡ some n)
unfolding make_ping prep_ping_v1
make_ping_able knet_h ping_env link clock timed (a, b, c, d, inl plain) =
    (header_ping_size, rw (a, d, b, plain, c) refl)
make_ping_able knet_h ping_env link clock timed (a, b, c, d, inr (n, e)) =
    elim (Bool-cases (truthy knet_h.crypto_in_use_config)) [
      | inl crypt ↦ (n, rw (a, d, b, crypt, e, c) refl)
      | inr plain ↦ (header_ping_size, rw (a, d, b, plain, c) refl)
    ]

check_timeout-late :
    (env : Env) (pong_last clock : Timespec) (link : Link)
    → link.status.connected ≤ 1
    → (check_timeout env pong_last clock link).0.status.connected
      ≡ (if late pong_last clock link.pong_timeout_adj then 0 else link.status.connected)
unfolding check_timeout
check_timeout-late env pong_last clock link le =
    elim (Bool-cases (late pong_last clock link.pong_timeout_adj)) [
      | inl e ↦ rw (e) (link_down-connected env link le)
      | inr e ↦ rw (e) refl
    ]

-- A round on a link whose transport is connected, where a ping can be made, takes the link down if
-- a pong was noted and is at least as old as the adjusted timeout, and otherwise leaves it as it is.
pub send_ping-late :
    (knet_h : Handle) (env : Env) (ping_env : PingEnv) (clock : Timespec) (link : Link) (timed : ℕ)
    → link.status.connected ≤ 1
    → truthy link.transport_connected ≡ true
    → IsAble knet_h ping_env
    → (send_ping knet_h env ping_env (some clock) link timed).0.status.connected ≡ (
        if late link.status.pong_last clock link.pong_timeout_adj then 0 else link.status.connected)
unfolding send_ping
send_ping-late knet_h env ping_env clock link timed le up able =
    let up' : (link.transport_connected == 0) ≡ false = ground (arith, up) in
    let (outlen, made) = make_ping_able knet_h ping_env link clock timed able in
    let sent = sendto_ping ping_env.retries ping_env.end clock outlen link in
    let (same, adj) = sendto_ping-signs ping_env.retries ping_env.end clock outlen link in
    let conn : sent.status.connected ≡ link.status.connected = ground (arith, same) in
    elim (Bool-cases (
      leb (u64 (link.ping_interval * 1000)) (timespec_diff link.ping_last clock)
      || not (truthy timed))) [
        | inl due ↦
            rw (up', due, made)
              (check_timeout-late env link.status.pong_last clock sent (omega (arith, conn, le))
                ∙ ap₂ (λ (adj c : ℕ). if late link.status.pong_last clock adj then 0 else c) adj
                    conn)
        | inr idle ↦ rw (up', idle) (check_timeout-late env link.status.pong_last clock link le)
      ]

late_old :
    (pong_last clock : Timespec) (adj timeout : ℕ)
    → pong_last.tv_nsec ≢ 0
    → adj ≤ 12 * timeout
    → 12 * timeout < 2 ^ 32
    → 12 * timeout * 1000 ≤ timespec_diff pong_last clock
    → late pong_last clock adj ≡ true
late_old pong_last clock adj timeout noted a b c = ground (arith, noted, a, b, c)

-- A sound link that has noted a pong, which is not on a full second, and whose transport is connected:
-- whatever rounds and adjustments follow without another pong, the first round that can ping, with
-- the pong at least twelve pong timeouts old, finds the link down or takes it down.
pub run_silent :
    (knet_h : Handle) (events : List Event) (env : Env) (ping_env : PingEnv) (clock : Timespec)
    (timed : ℕ) (link : Link)
    → IsSound link
    → All (λ e. is_pong e ≡ false) events
    → (beats link ≡ true) × (truthy link.transport_connected ≡ true)
    → link.status.pong_last.tv_nsec ≢ 0
    → IsAble knet_h ping_env
    → 12 * link.pong_timeout * 1000 ≤ timespec_diff link.status.pong_last clock
    → (let last = Event.round env ping_env (some clock) timed in
        (step knet_h last (run knet_h events link)).status.connected ≡ 0)
run_silent knet_h events env ping_env clock timed link s quiet (beat, up) noted able old =
    let link' = run knet_h events link in
    let s' = run-IsSound knet_h events link s in
    let last = Event.round env ping_env (some clock) timed in
    elim (run-Quiet knet_h events link s quiet) [
      | inl down ↦ elim (step-Quiet knet_h last link' refl s'.connected) [
        | inl gone ↦ gone
        | inr same ↦ ground (arith, same, down)
      ]
      | inr same ↦
          let beat' : beats link' ≡ true = ap (λ t. t.4) same ∙ beat in
          let pong : link'.status.pong_last ≡ link.status.pong_last = ap (λ t. t.0) same in
          let timeout : link'.pong_timeout ≡ link.pong_timeout = ap (λ t. t.2) same in
          let up' : truthy link'.transport_connected ≡ true = ground (arith, same, up) in
          let is_late : late link'.status.pong_last clock link'.pong_timeout_adj ≡ true =
            late_old link'.status.pong_last clock link'.pong_timeout_adj link.pong_timeout
              (subst (λ (t : Timespec). t.tv_nsec ≢ 0) (sym pong) noted)
              (omega (arith, s'.adj_max, timeout)) s.settings
              (subst (λ (t : Timespec). 12 * link.pong_timeout * 1000 ≤ timespec_diff t clock)
                (sym pong) old) in
          rw (beat') (
            send_ping-late knet_h env ping_env clock link' timed s'.connected up' able
            ∙ ap (λ (b : Bool). if b then 0 else link'.status.connected) is_late)
    ]
