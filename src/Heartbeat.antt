-- ===== src/Heartbeat.antt =====
-- libknet/threads_heartbeat.c: pings, pongs and the timeouts of links, and the macro timespec_diff
-- of libknet/threads_common.h. The clocks, sockets, mutexes and the encryption are arguments.
mod Latency
pub mod Run
pub mod Sound
pub mod Steady
mod Up
mod Silence
mod Timeout
pub mod Rounds
mod Visits
mod Period
mod Tests
use kronosnet.Base.{
  ℕ, zero, suc, ◌+◌, ◌-◌, ◌*◌, ◌/◌, ◌%◌, ◌^◌, Bool, true, false, ◌&&◌, ◌||◌, not, Option, none,
  some, List, [], ◌∷◌, ltb, leb, ◌==◌, if◌then◌else◌, truthy, u8, u32, u64,
}
use kronosnet.State.{Timespec, LinkStats, Link, Host, Handle, zero_timespec}
use kronosnet.OnwireV1.{PingPacket, process_pong_v1, prep_ping_v1}
use kronosnet.Links.{Effect, link_updown}

-- The difference in nanoseconds, an unsigned long long.
unfoldable pub timespec_diff : Timespec → Timespec → ℕ
timespec_diff start end =
    if ltb start.tv_sec end.tv_sec
    then u64 ((end.tv_sec - start.tv_sec) * 1000000000 + end.tv_nsec + 2 ^ 64 - start.tv_nsec)
    else u64 (end.tv_nsec + 2 ^ 64 - start.tv_nsec)

-- KNET_LINK_PONG_TIMEOUT_BACKOFF
abbrev pub pong_timeout_backoff : ℕ
pong_timeout_backoff = 10

-- KNET_LINK_DYNIP
abbrev pub link_dynip : ℕ
link_dynip = 1

abbrev transport_loopback : ℕ
transport_loopback = 0

-- What link_updown is told by its surroundings: whether the user set a callback, the time of the day,
-- and whether the mutex of the statistics is taken.
pub record Env : Type 0 where
  pub notified : Bool
  pub now : ℕ
  pub locked : Bool

-- how a link is reset
unfoldable pub reset_link : Link → Link
reset_link link = record link {
  pmtud_last = zero_timespec;
  received_pong = 0;
  status = record (link.status) { pong_last = record (link.status.pong_last) { tv_nsec = 0 } };
  pong_timeout_backoff = pong_timeout_backoff;
}

unfoldable pub link_down : Env → Link → Link × List Effect
link_down env link =
    let link' = reset_link link in
    if link'.status.connected == 1
    then (let (down, effects, ok) =
          link_updown env.notified link' link'.status.enabled 0 env.now env.locked in
        (down, effects))
    else (link', [])

-- the new number of samples
unfoldable pub next_samples : Link → ℕ
next_samples link =
    let samples = u32 (link.status.stats.latency_samples + 1) in
    if leb link.latency_max_samples samples then link.latency_max_samples else samples

-- The new average: `latency` is of this pong, in microseconds. The product is one of uint32_t.
unfoldable pub next_ave : ℕ → ℕ → ℕ → ℕ
next_ave ave samples latency =
    u32 (u64 (u32 (ave * u32 (samples + 2 ^ 32 - 1)) + latency) / samples)

-- the link with a sample counted and the average renewed
unfoldable pub note_latency : Link → ℕ → Link
note_latency link latency = record link {
  status = record (link.status) {
    stats = record (link.status.stats) {
      latency_samples = next_samples link;
      latency_ave = next_ave link.status.stats.latency_ave (next_samples link) latency;
    };
  };
}

-- a pong on time counts, or brings the link up
unfoldable pub count_pong : Env → Link → Link × List Effect
count_pong env link =
    if ltb link.status.stats.latency_ave link.pong_timeout_adj && not (truthy link.status.connected)
    then (if leb link.pong_count link.received_pong
        then (let (up, effects, ok) =
              link_updown env.notified link link.status.enabled 1 env.now true in
            (up, effects))
        else (record link { received_pong = u8 (link.received_pong + 1) }, []))
    else (link, [])

unfoldable pub note_extremes : LinkStats → LinkStats
note_extremes stats = record stats {
  latency_max =
      if ltb stats.latency_max stats.latency_ave then stats.latency_ave else stats.latency_max;
  latency_min =
      if ltb stats.latency_ave stats.latency_min then stats.latency_ave else stats.latency_min;
}

-- arrival of a pong of `len` bytes at `clock`, before its contents are looked at
unfoldable pub receive_pong : Link → Timespec → ℕ → Link
receive_pong link clock len = record link {
  status = record (link.status) {
    pong_last = clock;
    stats = record (link.status.stats) {
      rx_pong_packets = u64 (link.status.stats.rx_pong_packets + 1);
      rx_pong_bytes = u64 (link.status.stats.rx_pong_bytes + len);
    };
  };
}

-- The monotonic clock, which is not checked, shows `clock`.
unfoldable pub process_pong : Handle → Env → Timespec → Link → PingPacket → ℕ → Link × List Effect
process_pong knet_h env clock link inbuf len =
    let received = receive_pong link clock len in
    let latency = timespec_diff (process_pong_v1 inbuf) clock / 1000 in
    let (counted, effects) = count_pong env (note_latency received latency) in
    if truthy knet_h.onwire_ver_remap || inbuf.header.kh_version == 1
    then (if ltb received.pong_timeout latency then (received, []) else (
      record counted {
        status = record (counted.status) { stats = note_extremes counted.status.stats };
      },
      effects,
    ))
    else (received, [])

-- what the socket made of a ping after `retries` calls that asked for another one
pub data PingEnd : Type 0 where
  whole : PingEnd
  internal : PingEnd
  ignore : PingEnd

-- How a ping is sent: the mutex of the on-wire version, that of the sequence number, the encryption,
-- which maps a length to that of its result, the mutex of the statistics, and the socket.
pub record PingEnv : Type 0 where
  pub onwire_locked : Bool
  pub seq_locked : Bool
  pub encrypt : ℕ → Option ℕ
  pub stats_locked : Bool
  pub retries : ℕ
  pub end : PingEnd

-- one call of sendto
unfoldable pub count_ping : Timespec → ℕ → Link → Link
count_ping clock outlen link = record link {
  ping_last = clock;
  status = record (link.status) {
    stats = record (link.status.stats) {
      tx_ping_packets = u64 (link.status.stats.tx_ping_packets + 1);
      tx_ping_bytes = u64 (link.status.stats.tx_ping_bytes + outlen);
    };
  };
}

abbrev with_stats : Link → LinkStats → Link
with_stats link stats = record link { status = record (link.status) { stats = stats } }

-- the loop over `retry:`
unfoldable pub sendto_ping : ℕ → PingEnd → Timespec → ℕ → Link → Link
sendto_ping zero end clock outlen link =
    let sent = count_ping clock outlen link in
    elim end [
      | PingEnd.whole ↦ record sent { last_ping_size = outlen }
      | PingEnd.internal ↦ with_stats sent (record (sent.status.stats) {
        tx_ping_errors = u32 (sent.status.stats.tx_ping_errors + 1);
      })
      | PingEnd.ignore ↦ sent
    ]
sendto_ping (suc n) end clock outlen link =
    let sent = count_ping clock outlen link in
    sendto_ping n end clock outlen (
      with_stats sent (record (sent.status.stats) {
        tx_ping_retries = u32 (sent.status.stats.tx_ping_retries + 1);
      }))

-- The length of the ping on the wire, or `none` if it cannot be made.
unfoldable pub make_ping : Handle → PingEnv → Link → Timespec → ℕ → Option ℕ
make_ping knet_h env link clock timed =
    if not env.onwire_locked || not (truthy knet_h.onwire_ver_remap || knet_h.onwire_ver == 1)
    then none
    else elim (prep_ping_v1 knet_h link knet_h.onwire_ver clock timed env.seq_locked) [
      | none ↦ none
      | some (packet, outlen) ↦
          elim (if truthy knet_h.crypto_in_use_config then env.encrypt outlen else some outlen) [
            | none ↦ none
            | some outlen' ↦ if env.stats_locked then some outlen' else none
          ]
    ]

-- the end of send_ping, with the pong that was last when it began
unfoldable pub check_timeout : Env → Timespec → Timespec → Link → Link × List Effect
check_timeout env pong_last clock link =
    if truthy pong_last.tv_nsec
      && leb (u64 (link.pong_timeout_adj * 1000)) (timespec_diff pong_last clock)
    then link_down env link
    else (link, [])

-- `clock` is `none` if the monotonic clock cannot be read. The count of encrypted pings is left out.
unfoldable pub send_ping : Handle → Env → PingEnv → Option Timespec → Link → ℕ → Link × List Effect
send_ping knet_h env ping_env clock_now link timed =
    if link.transport_connected == 0 then link_down env link else elim clock_now [
      | none ↦ (link, [])
      | some clock ↦
          if leb (u64 (link.ping_interval * 1000)) (timespec_diff link.ping_last clock)
            || not (truthy timed)
          then elim (make_ping knet_h ping_env link clock timed) [
            | none ↦ (link, [])
            | some outlen ↦
                check_timeout env link.status.pong_last clock
                  (sendto_ping ping_env.retries ping_env.end clock outlen link)
          ]
          else check_timeout env link.status.pong_last clock link
    ]

-- The links of the heartbeat: enabled, not the loop link, and with an address if it is dynamic.
unfoldable pub beats : Link → Bool
beats link = not (
    not (link.status.enabled == 1)
    || link.transport == transport_loopback
    || (link.dynamic == link_dynip && not (link.status.dynconnected == 1)))

unfoldable pub next_backoff : ℕ → ℕ
next_backoff backoff = if ltb 1 backoff then backoff - 1 else backoff

-- KNET_LINK_PONG_TIMEOUT_LAT_MUL is 2; the first product is one of unsigned long long
unfoldable pub adjusted : ℕ → ℕ → ℕ → ℕ
adjusted pong_timeout backoff latency_ave = u64 (pong_timeout * backoff + u32 (latency_ave * 2))

-- one link's round of _adjust_pong_timeouts
unfoldable pub adjust_pong_timeout : Link → Link
adjust_pong_timeout link =
    let backoff = next_backoff link.pong_timeout_backoff in
    if beats link
    then record link {
      pong_timeout_backoff = backoff;
      pong_timeout_adj = adjusted link.pong_timeout backoff link.status.stats.latency_ave;
    }
    else link
