-- ===== src/Heartbeat/Up.antt =====
-- How a link comes up (libknet/threads_heartbeat.c:process_pong).
use kronosnet.Base.{
  ℕ, ◌+◌, ◌-◌, ◌/◌, ◌<◌, ◌≡◌, sym, subst, ◌∙◌, true, false, ◌||◌, List, [], ◌∷◌, map, arith, ltb,
  leb, ◌==◌, if◌then◌else◌, truthy, All, length,
}
use kronosnet.State.{Timespec, Link, Handle}
use kronosnet.OnwireV1.{PingPacket, process_pong_v1}
use kronosnet.Links.{link_updown, count_updown}
use kronosnet.Heartbeat.Latency.{note_latency-IsMean}
use kronosnet.Heartbeat.Run.{Event, step, run, IsSound}
use kronosnet.Heartbeat.Steady.{step-IsSound, receive_pong-IsSound, note_latency-IsSound}
use kronosnet.Heartbeat.{
  Env, timespec_diff, note_latency, count_pong, note_extremes, receive_pong, process_pong,
}

-- a pong of `len` bytes that arrives at `clock`
pub record Pong : Type 0 where
  pub env : Env
  pub clock : Timespec
  pub inbuf : PingPacket
  pub len : ℕ

abbrev pub pong_event : Pong → Event
pong_event p = Event.pong p.env p.clock p.inbuf p.len

-- in microseconds
abbrev pub latency : Pong → ℕ
latency p = timespec_diff (process_pong_v1 p.inbuf) p.clock / 1000

-- of a version that is understood, and fast enough
abbrev pub IsTimely : Handle → ℕ → Pong → Type 0
IsTimely knet_h timeout p =
    ((truthy knet_h.onwire_ver_remap || p.inbuf.header.kh_version == 1) ≡ true)
    × (latency p < timeout)

abbrev received : Link → Pong → Link
received link p = note_latency (receive_pong link p.clock p.len) (latency p)

received-ave :
    (link : Link) (p : Pong)
    → IsSound link
    → link.status.stats.latency_ave < link.pong_timeout
    → latency p < link.pong_timeout
    → (received link p).status.stats.latency_ave < link.pong_timeout
received-ave link p s a l =
    let (exact, ave, pos, few) =
      note_latency-IsMean (receive_pong link p.clock p.len) (latency p) (link.pong_timeout - 1)
        (receive_pong-IsSound link p.clock p.len s).measured (unfold receive_pong in omega arith)
        (unfold receive_pong in omega (arith, a)) (omega (arith, l)) in
    omega (arith, ave, a)

-- a pong on time, seen from outside
abbrev Counted : Link → Link → Type 0
Counted link link' =
    (link'.pong_timeout ≡ link.pong_timeout)
    × (link'.pong_count ≡ link.pong_count)
    × (link'.status.stats.latency_ave < link.pong_timeout)
    × (link'.status.connected
        ≡ (if truthy link.status.connected || leb link.pong_count link.received_pong then 1 else 0))
    × (link'.received_pong ≡ (
        if truthy link.status.connected || leb link.pong_count link.received_pong
        then link.received_pong
        else link.received_pong + 1))

count_pong-Counted :
    (env : Env) (link : Link)
    → IsSound link
    → link.status.stats.latency_ave < link.pong_timeout
    → Counted link (count_pong env link).0
unfolding count_pong link_updown count_updown
count_pong-Counted env link s a = ground (arith, s.adj_min, s.connected, s.pong_count, a)

process_pong-Counted :
    (knet_h : Handle) (link : Link) (p : Pong)
    → IsSound link
    → link.status.stats.latency_ave < link.pong_timeout
    → IsTimely knet_h link.pong_timeout p
    → Counted link (process_pong knet_h p.env p.clock link p.inbuf p.len).0
process_pong-Counted knet_h link p s a (known, fast) =
    let r = receive_pong-IsSound link p.clock p.len s in
    let timely : ltb (receive_pong link p.clock p.len).pong_timeout (latency p) ≡ false =
      unfold receive_pong in ground (arith, fast) in
    let sound =
      note_latency-IsSound (receive_pong link p.clock p.len) (latency p)
        (unfold receive_pong in omega (arith, fast)) r in
    let c =
      count_pong-Counted p.env (received link p) sound
        (unfold receive_pong note_latency in received-ave link p s a fast) in
    unfold process_pong receive_pong note_latency note_extremes in rw (known, timely) c

-- A link whose average latency is below the timeout, and which hears pongs of a known version that
-- are faster than the timeout, one after the other: it is up after them if it was before, or if
-- there were more of them than pong_count less the pongs counted so far, and otherwise it is not.
pub run-connected :
    (knet_h : Handle) (pongs : List Pong) (link : Link)
    → IsSound link
    → link.status.stats.latency_ave < link.pong_timeout
    → All (IsTimely knet_h link.pong_timeout) pongs
    → (run knet_h (map pong_event pongs) link).status.connected ≡ (
        if truthy link.status.connected || ltb (link.pong_count - link.received_pong) (length pongs)
        then 1
        else 0)
run-connected knet_h [] link s a timely = ground (arith, s.connected)
run-connected knet_h (p ∷ pongs) link s a (t, timely) =
    let link' = step knet_h (pong_event p) link in
    let (same, count, a', connected, received) = process_pong-Counted knet_h link p s a t in
    let rest =
      run-connected knet_h pongs link' (step-IsSound knet_h (pong_event p) link s)
        (omega (arith, a', same))
        (subst (λ timeout. All (IsTimely knet_h timeout) pongs) (sym same) timely) in
    rest ∙ ground (arith, s.pongs, connected, received, count)
