-- ===== src/Rx/Replies.antt =====
-- The answers to a ping (libknet/threads_heartbeat.c: process_ping, send_pong) and to a PMTUd packet
-- (libknet/threads_pmtud.c: send_pmtud_reply). A failure of the statistics' mutex is not noticed there.
use kronosnet.Base.{
  ℕ, zero, suc, ◌+◌, Bool, ◌||◌, Option, none, some, ◌==◌, if◌then◌else◌, truthy, update, u32, u64,
}
use kronosnet.State.{LinkStats, Link, Host, Handle}
use kronosnet.OnwireV1.{PingPacket, PmtudPacket, prep_pong_v1, process_ping_v1, prep_pmtud_reply_v1}
use kronosnet.Heartbeat.{PingEnd}

-- How a reply is sent: the encryption, which maps a length to that of its result, the mutex of the TX
-- thread, how often the socket asks for another call, and how the last one ends.
pub record ReplyEnv : Type 0 where
  pub encrypt : ℕ → Option ℕ
  pub tx_locked : Bool
  pub retries : ℕ
  pub end : PingEnd

abbrev with_stats : Link → LinkStats → Link
with_stats link stats = record link { status = record (link.status) { stats = stats } }

-- the length that is sent, or `none` for a version or an encryption that fails
unfoldable pub reply_len : Handle → ReplyEnv → ℕ → ℕ → Option ℕ
reply_len knet_h env version outlen =
    if truthy knet_h.onwire_ver_remap || version == 1
    then (if truthy knet_h.crypto_in_use_config then env.encrypt outlen else some outlen)
    else none

-- the loop over `retry:` of send_pong
unfoldable pub sendto_pong : ℕ → PingEnd → ℕ → LinkStats → LinkStats
sendto_pong zero end outlen stats = record stats {
  tx_pong_errors = elim end [
    | PingEnd.internal ↦ u32 (stats.tx_pong_errors + 1)
    | PingEnd.whole ↦ stats.tx_pong_errors
    | PingEnd.ignore ↦ stats.tx_pong_errors
  ];
  tx_pong_packets = u64 (stats.tx_pong_packets + 1);
  tx_pong_bytes = u64 (stats.tx_pong_bytes + outlen);
}
sendto_pong (suc n) end outlen stats =
    sendto_pong n end outlen (record stats { tx_pong_retries = u32 (stats.tx_pong_retries + 1) })

-- The link, and the pong that is given to the socket.
unfoldable pub send_pong : Handle → ReplyEnv → Link → PingPacket → Link × Option PingPacket
send_pong knet_h env link inbuf =
    let (pong, len) = prep_pong_v1 knet_h inbuf in
    elim (reply_len knet_h env inbuf.header.kh_version len) [
      | none ↦ (link, none)
      | some outlen ↦
          if truthy link.transport_connected
          then (
            with_stats link (sendto_pong env.retries env.end outlen link.status.stats),
            some pong,
          )
          else (link, none)
    ]

-- arrival of a ping of `len` bytes
unfoldable pub count_ping_rx : Link → ℕ → Link
count_ping_rx link len = with_stats link (record (link.status.stats) {
  rx_ping_packets = u64 (link.status.stats.rx_ping_packets + 1);
  rx_ping_bytes = u64 (link.status.stats.rx_ping_bytes + len);
})

unfoldable pub process_ping :
    Handle → ReplyEnv → ℕ → Host → PingPacket → ℕ → Host × Option PingPacket
process_ping knet_h env i host inbuf len =
    let counted = record host { link = update host.link i (count_ping_rx (host.link i) len) } in
    let noted = process_ping_v1 knet_h counted inbuf in
    let (link, sent) = send_pong knet_h env (noted.link i) inbuf in
    if truthy knet_h.onwire_ver_remap || inbuf.header.kh_version == 1
    then (record noted { link = update noted.link i link }, sent)
    else (counted, none)

-- the loop over `retry:` of send_pmtud_reply
unfoldable pub sendto_reply : ℕ → PingEnd → LinkStats → LinkStats
sendto_reply zero end stats = record stats {
  tx_pmtu_errors = elim end [
    | PingEnd.whole ↦ stats.tx_pmtu_errors
    | PingEnd.internal ↦ u32 (stats.tx_pmtu_errors + 1)
    | PingEnd.ignore ↦ u32 (stats.tx_pmtu_errors + 1)
  ];
}
sendto_reply (suc n) end stats =
    sendto_reply n end (record stats { tx_pmtu_retries = u32 (stats.tx_pmtu_retries + 1) })

unfoldable pub send_pmtud_reply : Handle → ReplyEnv → Link → PmtudPacket → Link × Option PmtudPacket
send_pmtud_reply knet_h env link inbuf =
    let (reply, len) = prep_pmtud_reply_v1 knet_h inbuf in
    elim (reply_len knet_h env inbuf.header.kh_version len) [
      | none ↦ (link, none)
      | some outlen ↦
          if env.tx_locked
          then (if truthy link.transport_connected
              then (
                with_stats link (sendto_reply env.retries env.end link.status.stats),
                some reply,
              )
              else (link, none))
          else (link, none)
    ]
