-- ===== src/Delivery.antt =====
-- libknet/threads_rx.c: what happens to a data packet after it was decrypted (_process_data). The
-- decompression, the filter and the application's socket are arguments; statistics are left out.

mod Writes
pub mod Bounds
pub mod Once
mod Tests
use kronosnet.Base.{
  ℕ, ◌+◌, ◌-◌, Bool, true, false, ◌&&◌, ◌||◌, not, length, Option, none, some, List, [], ◌∷◌, ltb,
  leb, ◌==◌, if◌then◌else◌, truthy, update, member,
}
use kronosnet.State.{Timespec, Link, Host, Handle}
use kronosnet.SeqNum.{seq_num_lookup, seq_num_set}
use kronosnet.Defrag.{Fragment, Packet, pckt_defrag}
use kronosnet.Dests.{Filtered, max_host}
use kronosnet.Links.{Effect, link_updown}

-- How a write ends: all is written, an error, or none of the answers is left.
pub data WriteEnd : Type 0 where
  written : WriteEnd
  failed : WriteEnd
  waiting : WriteEnd

-- a call of writev that took `count` bytes from `start` on
pub record Write : Type 0 where
  pub start : ℕ
  pub count : ℕ

-- The loop of `_deliver_data` over `retry:`, for `room` bytes of data; `outlen` is the value that the
-- last call returned. An answer is what writev returns, `none` for -1.
unfoldable pub deliver_loop : List (Option ℕ) → ℕ → ℕ → WriteEnd × List Write
deliver_loop [] outlen room = (WriteEnd.waiting, [])
deliver_loop (none ∷ answers) outlen room = (WriteEnd.failed, [])
deliver_loop (some n ∷ answers) outlen room =
    let iov_len = room - outlen in
    let write : Write = record { start = outlen; count = n } in
    let (end, writes) = deliver_loop answers n room in
    if n == 0
    then (WriteEnd.failed, [])
    else (if ltb n iov_len
        then (end, write ∷ writes)
        else (if n == iov_len
            then (WriteEnd.written, write ∷ [])
            else (WriteEnd.failed, write ∷ [])))

unfoldable pub deliver_data : List (Option ℕ) → ℕ → WriteEnd × List Write
deliver_data answers room = deliver_loop answers 0 room

-- A data packet as get_data_header_info_v1 and get_data_v1 find it, without its header. `version` is
-- kh_version.
pub record DataPacket : Type 0 where
  pub version : ℕ
  pub seq_num : ℕ
  pub channel : ℕ
  pub decompress_type : ℕ
  pub body : Fragment

-- The surroundings: whether the statistics' locks are taken, the clock, realloc, the decompression,
-- the filter with the channel it chooses, what the socket answers, and what link_updown is told.
pub record RxEnv : Type 0 where
  pub locked : Bool
  pub now : Timespec
  pub granted : Bool
  pub decompress : ℕ → Packet → Option Packet
  pub filter : Option (Packet → ℕ → Filtered × ℕ)
  pub writes : List (Option ℕ)
  pub notified : Bool
  pub time : ℕ

-- The channel, or `none` for -1.
unfoldable pub check_destination :
    Handle → Option (Packet → ℕ → Filtered × ℕ) → Packet → ℕ → Option ℕ
check_destination knet_h none packet channel = some channel
check_destination knet_h (some filter) packet channel =
    let (filtered, channel') = filter packet channel in
    elim filtered.bcast [
      | none ↦ none
      | some bcast ↦
          if not (truthy bcast)
            && (not (truthy (length filtered.dst_host_ids))
                || ltb max_host (length filtered.dst_host_ids)
                || not (member knet_h.host_id filtered.dst_host_ids))
          then none
          else some channel'
    ]

-- A host that is not reachable yet, on a link that has heard a pong, is taken as up.
unfoldable pub fast_data_up : RxEnv → Host → ℕ → Bool × Host × List Effect
fast_data_up env host link_id =
    let link = host.link link_id in
    let (up, effects, ok) = link_updown env.notified link link.status.enabled 1 env.time true in
    if truthy link.received_pong
    then (true, record host { link = update host.link link_id up }, effects)
    else (false, host, [])

-- What becomes of a packet. crashed stands for an access outside an array. passed: the application was
-- written to, on a channel.
pub data Outcome : Type 0 where
  crashed : Outcome
  dropped : Outcome
  passed : ℕ → Packet → WriteEnd → List Write → Outcome

pub record Processed : Type 0 where
  pub src_host : Host
  pub outcome : Outcome
  pub effects : List Effect

abbrev drop : Host → List Effect → Processed
drop host effects = record { src_host = host; outcome = Outcome.dropped; effects = effects }

-- from the test of `knet_h->enabled` on
-- KNET_DATAFD_MAX + 1
abbrev pub sockfd_entries : ℕ
sockfd_entries = 33

-- The entry of sockfd is read at the channel, an int8_t that is not tested: a negative one is 128 or more.
unfoldable pub pass_up : Handle → RxEnv → ℕ → ℕ → Packet → Host → List Effect → Processed
pass_up knet_h env seq_num channel packet host effects =
    if not (knet_h.enabled == 1)
    then drop host effects
    else elim (check_destination knet_h env.filter packet channel) [
      | none ↦ drop host effects
      | some channel' ↦
          let (end, writes) = deliver_data env.writes packet.0 in
          let done : Outcome = Outcome.passed channel' packet end writes in
          if leb sockfd_entries channel'
          then record { src_host = host; outcome = Outcome.crashed; effects = effects }
          else (if not (truthy (knet_h.sockfd channel').in_use)
              then drop host effects
              else elim end [
                | WriteEnd.written ↦ record {
                  src_host = seq_num_set host seq_num 0;
                  outcome = done;
                  effects = effects;
                }
                | WriteEnd.failed ↦ record { src_host = host; outcome = done; effects = effects }
                | WriteEnd.waiting ↦ record { src_host = host; outcome = done; effects = effects }
              ])
    ]

-- A whole packet: from the decompression on.
unfoldable pub process_packet : Handle → RxEnv → ℕ → DataPacket → Packet → Host → Processed
process_packet knet_h env link_id p packet host =
    let plain =
      if truthy p.decompress_type then env.decompress p.decompress_type packet else some packet in
    let (up, host', effects) = fast_data_up env host link_id in
    if truthy p.decompress_type && not env.locked then drop host [] else elim plain [
      | none ↦ drop host []
      | some packet' ↦
          if truthy host.status.reachable
          then pass_up knet_h env p.seq_num p.channel packet' host []
          else (if up
              then pass_up knet_h env p.seq_num p.channel packet' host' effects
              else drop host [])
    ]

-- `link_id` is the link that the packet came from.
unfoldable pub process_data : Handle → RxEnv → ℕ → DataPacket → Host → Processed
process_data knet_h env link_id p src_host =
    let host = record src_host { got_data = 1 } in
    let (fresh, looked) = seq_num_lookup knet_h host p.seq_num 0 0 in
    if not env.locked
    then drop src_host []
    else (if not (truthy knet_h.onwire_ver_remap || p.version == 1)
        then drop host []
        else (if not (truthy fresh)
            then drop looked []
            else (if ltb 1 p.body.frags
                then elim (pckt_defrag knet_h looked p.seq_num p.body env.now env.granted) [
                  | none ↦ record { src_host = looked; outcome = Outcome.crashed; effects = [] }
                  | some (host', whole) ↦ elim whole [
                    | none ↦ drop host' []
                    | some packet ↦ process_packet knet_h env link_id p packet host'
                  ]
                ]
                else process_packet knet_h env link_id p (p.body.len, p.body.payload) looked)))
