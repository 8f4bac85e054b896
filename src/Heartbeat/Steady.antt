-- ===== src/Heartbeat/Steady.antt =====
-- Pongs, adjustments and hence all events keep a link sound (libknet/threads_heartbeat.c).
use native.Mathlib.Nat.{mul-le-mul_left}
use kronosnet.Base.{
  ℕ, ◌+◌, ◌*◌, ◌/◌, ◌^◌, ◌≤◌, ◌<◌, ◌≡◌, inl, inr, refl, true, ◌&&◌, ◌||◌, not, List, [], ◌∷◌, arith,
  ltb, leb, ◌==◌, truthy, Bool-cases,
}
use kronosnet.State.{Timespec, Link, Handle}
use kronosnet.OnwireV1.{PingPacket, process_pong_v1}
use kronosnet.Heartbeat.Latency.{note_latency-IsMean}
use kronosnet.Heartbeat.Sound.{IsSound-renew, link_updown-IsSound, send_ping-IsSound}
use kronosnet.Heartbeat.Run.{Event, step, run, IsSound}
use kronosnet.Heartbeat.{
  Env, timespec_diff, note_latency, count_pong, note_extremes, receive_pong, process_pong, beats,
  next_backoff, adjusted, adjust_pong_timeout,
}

next_backoff-IsBetween : (b : ℕ) → 1 ≤ b → b ≤ 10 → (1 ≤ next_backoff b) × (next_backoff b ≤ 10)
unfolding next_backoff
next_backoff-IsBetween b pos le = ground arith

pub adjusted-exact :
    (t b a : ℕ)
    → (1 ≤ b) × (b ≤ 10)
    → a ≤ t
    → 12 * t < 2 ^ 32
    → (adjusted t b a ≡ t * b + 2 * a) × (t ≤ t * b + 2 * a) × (t * b + 2 * a ≤ 12 * t)
unfolding adjusted
adjusted-exact t b a (pos, le) small fits =
    let low : t * 1 ≤ t * b = mul-le-mul_left t pos in
    let high : t * b ≤ t * 10 = mul-le-mul_left t le in omega (arith, low, high)

adjust-IsSound : (link : Link) → IsSound link → IsSound (adjust_pong_timeout link)
unfolding adjust_pong_timeout
adjust-IsSound link s =
    let b = next_backoff-IsBetween link.pong_timeout_backoff s.backoff_pos s.backoff_max in
    let (exact, low, high) =
      adjusted-exact link.pong_timeout (next_backoff link.pong_timeout_backoff)
        link.status.stats.latency_ave b s.ave s.settings in
    elim (Bool-cases (beats link)) [
      | inl e ↦ rw (e) (
          IsSound-renew link _ s refl s.measured.samples s.ave s.max b
            (omega (arith, exact, low), omega (arith, exact, high)) s.pongs s.connected)
      | inr e ↦ rw (e) s
    ]

-- a pong on time, of at most the timeout
pub note_latency-IsSound :
    (link : Link) (latency : ℕ)
    → latency ≤ link.pong_timeout
    → IsSound link
    → IsSound (note_latency link latency)
note_latency-IsSound link latency le s =
    let (exact, ave, pos, few) =
      note_latency-IsMean link latency link.pong_timeout s.measured (omega arith) s.ave le in
    IsSound-renew link (note_latency link latency) s (unfold note_latency in refl) few ave
      (unfold note_latency in s.max) (unfold note_latency in (s.backoff_pos, s.backoff_max))
      (unfold note_latency in (s.adj_min, s.adj_max)) (unfold note_latency in s.pongs)
      (unfold note_latency in s.connected)

count_pong-IsSound : (env : Env) (link : Link) → IsSound link → IsSound (count_pong env link).0
unfolding count_pong
count_pong-IsSound env link s =
    elim (Bool-cases (
      ltb link.status.stats.latency_ave link.pong_timeout_adj
      && not (truthy link.status.connected))) [
        | inl e ↦ elim (Bool-cases (leb link.pong_count link.received_pong)) [
          | inl up ↦
              rw (e, up)
                (link_updown-IsSound env.notified link link.status.enabled 1 env.now true
                  (omega arith) s)
          | inr more ↦
              rw (e, more)
                (IsSound-renew link _ s refl s.measured.samples s.ave s.max
                  (s.backoff_pos, s.backoff_max) (s.adj_min, s.adj_max)
                  (ground (arith, more, s.pong_count)) s.connected)
        ]
        | inr e ↦ rw (e) s
      ]

note_extremes-IsSound :
    (link : Link)
    → IsSound link
    → IsSound
        (record link { status = record (link.status) { stats = note_extremes link.status.stats } })
unfolding note_extremes
note_extremes-IsSound link s =
    IsSound-renew link _ s refl s.measured.samples s.ave (ground (arith, s.ave, s.max))
      (s.backoff_pos, s.backoff_max) (s.adj_min, s.adj_max) s.pongs s.connected

pub receive_pong-IsSound :
    (link : Link) (clock : Timespec) (len : ℕ)
    → IsSound link
    → IsSound (receive_pong link clock len)
unfolding receive_pong
receive_pong-IsSound link clock len s =
    IsSound-renew link _ s refl s.measured.samples s.ave s.max (s.backoff_pos, s.backoff_max)
      (s.adj_min, s.adj_max) s.pongs s.connected

process_pong-IsSound :
    (knet_h : Handle) (env : Env) (clock : Timespec) (link : Link) (inbuf : PingPacket) (len : ℕ)
    → IsSound link
    → IsSound (process_pong knet_h env clock link inbuf len).0
unfolding process_pong
process_pong-IsSound knet_h env clock link inbuf len s =
    let received = receive_pong link clock len in
    let latency = timespec_diff (process_pong_v1 inbuf) clock / 1000 in
    let r = receive_pong-IsSound link clock len s in
    elim (Bool-cases (truthy knet_h.onwire_ver_remap || inbuf.header.kh_version == 1)) [
      | inl known ↦ elim (Bool-cases (ltb received.pong_timeout latency)) [
        | inl late ↦ rw (known, late) r
        | inr timely ↦
            rw (known, timely)
              (note_extremes-IsSound _ (
                count_pong-IsSound env _
                  (note_latency-IsSound received latency (ground (arith, timely)) r)))
      ]
      | inr other ↦ rw (other) r
    ]

pub step-IsSound :
    (knet_h : Handle) (e : Event) (link : Link) → IsSound link → IsSound (step knet_h e link)
step-IsSound knet_h (Event.pong env clock inbuf len) link s =
    process_pong-IsSound knet_h env clock link inbuf len s
step-IsSound knet_h (Event.round env ping_env clock timed) link s = elim (Bool-cases (beats link)) [
  | inl e ↦ rw (e) (send_ping-IsSound knet_h env ping_env clock link timed s)
  | inr e ↦ rw (e) s
]
step-IsSound knet_h Event.adjust link s = adjust-IsSound link s

-- Whatever pongs arrive and whatever the heartbeat does, in any order, a sound link stays sound: its
-- average and highest latency are at most the pong timeout, the adjusted timeout is between the pong
-- timeout and twelve times of it, the backoff is between 1 and 10, and no more pongs are counted
-- than are asked for.
pub run-IsSound :
    (knet_h : Handle) (events : List Event) (link : Link)
    → IsSound link
    → IsSound (run knet_h events link)
run-IsSound knet_h [] link s = s
run-IsSound knet_h (e ∷ events) link s =
    run-IsSound knet_h events (step knet_h e link) (step-IsSound knet_h e link s)
