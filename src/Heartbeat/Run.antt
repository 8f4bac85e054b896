-- ===== src/Heartbeat/Run.antt =====
-- The life of a link between calls of the API: pongs that arrive, rounds of the heartbeat thread and
-- adjustments of the timeout, in any order (libknet/threads_heartbeat.c).
use kronosnet.Base.{ℕ, ◌*◌, ◌^◌, ◌≤◌, ◌<◌, Option, List, [], ◌∷◌, if◌then◌else◌}
use kronosnet.State.{Timespec, Link, Handle}
use kronosnet.OnwireV1.{PingPacket}
use kronosnet.Heartbeat.Latency.{IsMeasured}
use kronosnet.Heartbeat.{Env, PingEnv, process_pong, send_ping, beats, adjust_pong_timeout}

pub data Event : Type 0 where
  pong : Env → Timespec → PingPacket → ℕ → Event
  round : Env → PingEnv → Option Timespec → ℕ → Event
  adjust : Event

abbrev pub step : Handle → Event → Link → Link
step knet_h (Event.pong env clock inbuf len) link = (process_pong knet_h env clock link inbuf len).0
step knet_h (Event.round env ping_env clock timed) link =
    if beats link then (send_ping knet_h env ping_env clock link timed).0 else link
step knet_h Event.adjust link = adjust_pong_timeout link

abbrev pub run : Handle → List Event → Link → Link
run knet_h [] link = link
run knet_h (e ∷ events) link = run knet_h events (step knet_h e link)

-- What holds of a link at all times. The settings are below 32 bits, so that nothing wraps around.
pub record IsSound (link : Link) : Type 0 where
  pub measured : IsMeasured link
  pub settings : 12 * link.pong_timeout < 2 ^ 32
  pub ave : link.status.stats.latency_ave ≤ link.pong_timeout
  pub max : link.status.stats.latency_max ≤ link.pong_timeout
  pub backoff_pos : 1 ≤ link.pong_timeout_backoff
  pub backoff_max : link.pong_timeout_backoff ≤ 10
  pub adj_min : link.pong_timeout ≤ link.pong_timeout_adj
  pub adj_max : link.pong_timeout_adj ≤ 12 * link.pong_timeout
  pub pongs : link.received_pong ≤ link.pong_count
  pub pong_count : link.pong_count < 256
  pub connected : link.status.connected ≤ 1
