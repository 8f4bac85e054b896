-- ===== src/Rx.antt =====
-- libknet/threads_rx.c:_parse_recv_from_links: what happens to a packet from its arrival on a socket to its
-- handling, with the answers to pings (libknet/threads_heartbeat.c) and to PMTUd packets
-- (libknet/threads_pmtud.c). How bytes are read as a struct knet_header is an argument.
pub mod Replies
mod Sources
mod Accepted
pub mod Checked
pub mod Dropped
mod Faults
mod Tests
use kronosnet.Base.{
  ℕ, zero, suc, ◌+◌, Bool, true, false, ◌&&◌, ◌||◌, not, Option, none, some, List, [], ◌∷◌, length,
  ltb, leb, ◌==◌, if◌then◌else◌, truthy, update, u64,
}
use kronosnet.State.{Timespec, LinkStats, Link, Host, Handle}
use kronosnet.Crypto.{Ops, Crypted, is_loaded, authenticate_and_decrypt}
use kronosnet.OnwireV1.{Header, PingPacket, PmtudPacket, process_pmtud_reply_v1}
use kronosnet.Onwire.{handle_onwire_version}
use kronosnet.Links.{Effect}
use kronosnet.Delivery.{DataPacket, RxEnv, Outcome, process_data}
use kronosnet.Heartbeat.{Env, link_dynip, process_pong}
use kronosnet.Rx.Replies.{ReplyEnv, process_ping, send_pmtud_reply}

-- a packet, by its kh_type
pub data Payload : Type 0 where
  ping : PingPacket → Payload
  pong : PingPacket → Payload
  pmtud : PmtudPacket → Payload
  pmtud_reply : PmtudPacket → Payload
  user_data : Header → DataPacket → Payload
  unknown : Header → Payload

unfoldable pub header_of : Payload → Header
header_of (Payload.ping p) = p.header
header_of (Payload.pong p) = p.header
header_of (Payload.pmtud p) = p.header
header_of (Payload.pmtud_reply p) = p.header
header_of (Payload.user_data h p) = h
header_of (Payload.unknown h) = h

-- the packet with the version that _packet_checks stores in it
unfoldable pub store_max_ver : ℕ → Payload → Payload
store_max_ver v (Payload.ping p) =
    Payload.ping (record p { header = record (p.header) { kh_max_ver = v } })
store_max_ver v (Payload.pong p) =
    Payload.pong (record p { header = record (p.header) { kh_max_ver = v } })
store_max_ver v (Payload.pmtud p) =
    Payload.pmtud (record p { header = record (p.header) { kh_max_ver = v } })
store_max_ver v (Payload.pmtud_reply p) =
    Payload.pmtud_reply (record p { header = record (p.header) { kh_max_ver = v } })
store_max_ver v (Payload.user_data h p) = Payload.user_data (record h { kh_max_ver = v }) p
store_max_ver v (Payload.unknown h) = Payload.unknown (record h { kh_max_ver = v })

-- What arrives: the bytes, and the sender's address, as a number for the IP address and its family.
pub record Message : Type 0 where
  pub bytes : List ℕ
  pub ip : ℕ
  pub family : ℕ

-- The surroundings: the cipher, the view of bytes as a packet, the mutex of the on-wire version, what
-- check_validate answers for a link and this sender, the mutex of the link's statistics, the clock, and
-- those of the parts.
pub record ParseEnv : Type 0 where
  pub ops : Ops
  pub view : List ℕ → Payload
  pub onwire_locked : Bool
  pub accepts : Link → Bool
  pub stats_locked : Bool
  pub pmtud_locked : Bool
  pub clock : Timespec
  pub heart : Env
  pub replies : ReplyEnv
  pub delivery : RxEnv

-- _decrypt_packet; failed is NULL
unfoldable pub decrypt_packet : Ops → Handle → List ℕ → Crypted
decrypt_packet ops knet_h inbuf =
    if is_loaded knet_h 1 || is_loaded knet_h 2
    then elim (authenticate_and_decrypt ops knet_h inbuf) [
      | Crypted.fault ↦ Crypted.fault
      | Crypted.failed ↦ if knet_h.crypto_only == 1 then Crypted.failed else Crypted.done inbuf
      | Crypted.done out ↦ Crypted.done out
    ]
    else (if knet_h.crypto_only == 1 then Crypted.failed else Crypted.done inbuf)

-- kh_max_ver, which old versions left 0
unfoldable pub max_ver : Header → ℕ
max_ver inbuf = if truthy inbuf.kh_max_ver then inbuf.kh_max_ver else 1

-- _packet_checks: whether it returns 0
unfoldable pub packet_checks : Handle → Header → ℕ → Bool
packet_checks knet_h inbuf len = not (
    ltb len 7
    || ltb (max_ver inbuf) knet_h.onwire_min_ver
    || ltb knet_h.onwire_max_ver inbuf.kh_version
    || not (truthy knet_h.onwire_force_ver)
      && ltb inbuf.kh_version knet_h.onwire_ver
      && ltb inbuf.kh_version (max_ver inbuf))

-- the count of packets that fail them, KNET_RX_ODD_PACKETS_THRESHOLD being 20
unfoldable pub count_odd : Handle → Handle
count_odd knet_h = record knet_h {
  rx_odd_packets = if ltb knet_h.rx_odd_packets 20 then knet_h.rx_odd_packets + 1 else 0;
}

-- cmpaddr(&link->dst_addr, sender) == 0
unfoldable pub is_from : Message → Link → Bool
is_from msg link = link.dst_family == msg.family && link.dst_addr == msg.ip

-- _check_rx_acl
unfoldable pub check_rx_acl : Handle → ParseEnv → Link → Bool
check_rx_acl knet_h env link = if truthy knet_h.use_access_lists then env.accepts link else true

-- transport_link_dyn_connect: nothing for the loopback transport, 0; SCTP, 2, also notes that it is connected.
-- The number of the socket that it sends on from then is left out.
unfoldable pub dyn_connect : Link → Link
dyn_connect link = if link.transport == 0 then link else record link {
  status = record (link.status) { dynconnected = 1 };
  transport_connected = if link.transport == 2 then 1 else link.transport_connected;
}

-- _handle_dynip
unfoldable pub handle_dynip : Message → Link → Link
handle_dynip msg link =
    let known =
      if is_from msg link
      then link
      else record link { dst_addr = msg.ip; dst_family = msg.family } in
    if link.dynamic == link_dynip then dyn_connect known else link

-- The link that a packet is handled on. crashed stands for one outside the array of links.
pub data Source : Type 0 where
  crashed : Source
  rejected : Source
  accepted : ℕ → Source

-- the loop over the links, with `n` rounds left at link `i`, the array of a host having eight
unfoldable pub find_link : ℕ → ℕ → Message → Host → Source
find_link zero i msg host = Source.rejected
find_link (suc n) i msg host =
    let rest = find_link n (i + 1) msg host in
    if leb 8 i
    then Source.crashed
    else (if is_from msg (host.link i) then Source.accepted i else rest)

abbrev pub find_host : Handle → ℕ → Host → Host
find_host knet_h id host = elim (knet_h.host_index id) [ none ↦ host | some host' ↦ host' ]

-- for a ping, after _handle_onwire_version
unfoldable pub ping_source : Handle → ParseEnv → PingPacket → Host → Source
ping_source knet_h env p host =
    if not (truthy knet_h.onwire_ver_remap || p.header.kh_version == 1)
    then Source.rejected
    else (if leb 8 p.link
        then Source.crashed
        else (if check_rx_acl knet_h env (host.link p.link)
            then Source.accepted p.link
            else Source.rejected))

-- for any other packet
unfoldable pub other_source : Handle → ParseEnv → Message → Host → Source
other_source knet_h env msg host = elim (find_link 8 0 msg host) [
  | Source.crashed ↦ Source.crashed
  | Source.rejected ↦ Source.rejected
  | Source.accepted i ↦
      if check_rx_acl knet_h env (host.link i) then Source.accepted i else Source.rejected
]

-- What is sent back, if anything.
pub data Reply : Type 0 where
  nothing : Reply
  pong_reply : PingPacket → Reply
  mtu_reply : PmtudPacket → Reply

-- How it ends: fault for an access outside an array or through a null pointer, dropped for a return before
-- the packet is handled, handled with what was delivered, if it is data.
pub data ParseEnd : Type 0 where
  fault : ParseEnd
  dropped : ParseEnd
  handled : Option Outcome → ParseEnd

pub record Parsed : Type 0 where
  pub handle : Handle
  pub end : ParseEnd
  pub reply : Reply
  pub effects : List Effect

abbrev stop : Handle → ParseEnd → Parsed
stop knet_h end = record { handle = knet_h; end = end; reply = Reply.nothing; effects = [] }

abbrev pub put_host : Handle → ℕ → Host → Handle
put_host knet_h id host = record knet_h { host_index = update knet_h.host_index id (some host) }

abbrev pub with_link : Host → ℕ → Link → Host
with_link host i link = record host { link = update host.link i link }

-- the count of a PMTUd packet
unfoldable pub count_pmtu : Link → ℕ → Link
count_pmtu link len = record link {
  status = record (link.status) {
    stats = record (link.status.stats) {
      rx_pmtu_packets = u64 (link.status.stats.rx_pmtu_packets + 1);
      rx_pmtu_bytes = u64 (link.status.stats.rx_pmtu_bytes + len);
    };
  };
}

-- process_pmtud_reply
unfoldable pub process_pmtud_reply : Handle → Bool → Link → PmtudPacket → Link
process_pmtud_reply knet_h locked link inbuf =
    if locked && (truthy knet_h.onwire_ver_remap || inbuf.header.kh_version == 1)
    then record link { last_recv_mtu = process_pmtud_reply_v1 inbuf }
    else link

abbrev done_with : Handle → ℕ → Host → Option Outcome → Reply → List Effect → Parsed
done_with knet_h id host outcome reply effects = record {
  handle = put_host knet_h id host;
  end = ParseEnd.handled outcome;
  reply = reply;
  effects = effects;
}

-- the switch over kh_type, on link `i` of host `id`, for a packet of `len` bytes
unfoldable pub dispatch : Handle → ParseEnv → ℕ → ℕ → Host → ℕ → Payload → Parsed
dispatch knet_h env id i host len (Payload.user_data h p) =
    let r = process_data knet_h env.delivery i p host in
    let done = done_with knet_h id r.src_host (some r.outcome) Reply.nothing r.effects in
    elim r.outcome [
      | Outcome.crashed ↦ stop knet_h ParseEnd.fault
      | Outcome.dropped ↦ done
      | Outcome.passed channel packet end writes ↦ done
    ]
dispatch knet_h env id i host len (Payload.ping p) =
    let (host', sent) = process_ping knet_h env.replies i host p len in
    done_with knet_h id host' none
      (elim sent [ none ↦ Reply.nothing | some q ↦ Reply.pong_reply q ]) []
dispatch knet_h env id i host len (Payload.pong p) =
    let (link, effects) = process_pong knet_h env.heart env.clock (host.link i) p len in
    done_with knet_h id (with_link host i link) none Reply.nothing effects
dispatch knet_h env id i host len (Payload.pmtud p) =
    let (link, sent) = send_pmtud_reply knet_h env.replies (count_pmtu (host.link i) len) p in
    done_with knet_h id (with_link host i link) none
      (elim sent [ none ↦ Reply.nothing | some q ↦ Reply.mtu_reply q ]) []
dispatch knet_h env id i host len (Payload.pmtud_reply p) =
    let link = process_pmtud_reply knet_h env.pmtud_locked (count_pmtu (host.link i) len) p in
    done_with knet_h id (with_link host i link) none Reply.nothing []
dispatch knet_h env id i host len (Payload.unknown h) = stop knet_h ParseEnd.dropped

-- from the choice of the link on
unfoldable pub handle_on : Handle → ParseEnv → ℕ → Host → ℕ → Payload → Source → Parsed
handle_on knet_h env id host len p Source.crashed = stop knet_h ParseEnd.fault
handle_on knet_h env id host len p Source.rejected = stop knet_h ParseEnd.dropped
handle_on knet_h env id host len p (Source.accepted i) =
    if env.stats_locked then dispatch knet_h env id i host len p else stop knet_h ParseEnd.dropped

-- a ping brings the versions of its host, and a dynamic link its address
unfoldable pub parse_ping : Handle → ParseEnv → Message → Host → ℕ → PingPacket → Parsed
parse_ping knet_h env msg host len p =
    let id = p.header.kh_node in
    let (noted, told) =
      handle_onwire_version knet_h host p.header.kh_version p.header.kh_max_ver env.onwire_locked in
    let host' = find_host noted id host in
    let source = ping_source noted env p host' in
    let moved = with_link host' p.link (handle_dynip msg (host'.link p.link)) in
    elim source [
      | Source.crashed ↦ stop noted ParseEnd.fault
      | Source.rejected ↦ stop noted ParseEnd.dropped
      | Source.accepted i ↦
          handle_on (put_host noted id moved) env id moved len (Payload.ping p) (Source.accepted i)
    ]

-- a packet that passed the checks
unfoldable pub parse_from : Handle → ParseEnv → Message → Host → ℕ → Payload → Parsed
parse_from knet_h env msg host len (Payload.ping p) = parse_ping knet_h env msg host len p
parse_from knet_h env msg host len (Payload.pong p) =
    handle_on knet_h env p.header.kh_node host len (Payload.pong p)
      (other_source knet_h env msg host)
parse_from knet_h env msg host len (Payload.pmtud p) =
    handle_on knet_h env p.header.kh_node host len (Payload.pmtud p)
      (other_source knet_h env msg host)
parse_from knet_h env msg host len (Payload.pmtud_reply p) =
    handle_on knet_h env p.header.kh_node host len (Payload.pmtud_reply p)
      (other_source knet_h env msg host)
parse_from knet_h env msg host len (Payload.user_data h p) =
    handle_on knet_h env h.kh_node host len (Payload.user_data h p)
      (other_source knet_h env msg host)
parse_from knet_h env msg host len (Payload.unknown h) =
    handle_on knet_h env h.kh_node host len (Payload.unknown h) (other_source knet_h env msg host)

-- from the decrypted bytes on
unfoldable pub parse_clear : Handle → ParseEnv → Message → List ℕ → Parsed
parse_clear knet_h env msg inbuf =
    let p = env.view inbuf in
    let h = header_of p in
    if not (packet_checks knet_h h (length inbuf))
    then stop (count_odd knet_h) ParseEnd.dropped
    else elim (knet_h.host_index h.kh_node) [
      | none ↦ stop knet_h ParseEnd.dropped
      | some host ↦ parse_from knet_h env msg host (length inbuf) (store_max_ver (max_ver h) p)
    ]

unfoldable pub parse_recv_from_links : Handle → ParseEnv → Message → Parsed
parse_recv_from_links knet_h env msg = elim (decrypt_packet env.ops knet_h msg.bytes) [
  | Crypted.fault ↦ stop knet_h ParseEnd.fault
  | Crypted.failed ↦ stop knet_h ParseEnd.dropped
  | Crypted.done inbuf ↦ parse_clear knet_h env msg inbuf
]
