-- ===== src/Send.antt =====
-- libknet/threads_tx.c: what happens to a packet of the application until its fragments are given to the
-- sockets (_parse_recv_from_sock), and knet_send_sync. The statistics are left out.
pub mod Transmits
mod Stages
mod Readable
mod Sync
mod Tests
use kronosnet.Base.{
  ℕ, zero, suc, ◌+◌, ◌-◌, Bool, true, false, ◌&&◌, ◌||◌, not, length, Option, none, some, List, [],
  ◌∷◌, map, ltb, leb, ◌==◌, if◌then◌else◌, truthy, update,
}
use kronosnet.State.{Host, Handle}
use kronosnet.Defrag.{Packet}
use kronosnet.OnwireV1.{TxMsg, prep_tx_bufs_v1}
use kronosnet.Dests.{Filtered, DataDests, DestsResult, get_data_dests, einval}
use kronosnet.Delivery.{WriteEnd, Write}
use kronosnet.Crypto.{Ops, Crypted, encrypt_and_sign}
use kronosnet.Heartbeat.Rounds.{Round, Note, send_pings}
use kronosnet.Tx.{Answer, SendEnd, Dispatched, get_tx_seq_num, dispatch_to_links}
use kronosnet.HandleApi.{datafd_max}

abbrev pub echild : ℕ
echild = 10

abbrev pub enetdown : ℕ
enetdown = 100

abbrev pub ecanceled : ℕ
ecanceled = 125

-- The surroundings: the filter with the channel it chooses, what the application's socket and those of a
-- host's links answer, the compression by a model and level, the lock of the sequence number, how
-- _send_pings goes, the cipher, and how a message is laid out in bytes, given the data it is cut from.
pub record SendEnv : Type 0 where
  pub filter : Option (Packet → ℕ → Filtered × ℕ)
  pub local_writes : List (Option ℕ)
  pub compress : ℕ → ℕ → Packet → Option Packet
  pub seq_locked : ℕ
  pub rounds : ℕ → ℕ → Round
  pub pings_locked : Bool
  pub ops : Ops
  pub encode : Packet → TxMsg → List ℕ
  pub socket : ℕ → ℕ → List Answer

-- How it ends: refused is -1 with an errno, crashed an access outside an array or through a null pointer,
-- not_compressed an error of the compression, stopped an error of a socket.
pub data SockEnd : Type 0 where
  refused : ℕ → SockEnd
  crashed : SockEnd
  local_stopped : WriteEnd → SockEnd
  not_compressed : SockEnd
  stopped : SendEnd → SockEnd
  sent : SockEnd

-- The handle, how it ends, what was written locally, the messages, which of them went to which host, and
-- the effects of pings.
pub record Sent : Type 0 where
  pub handle : Handle
  pub end : SockEnd
  pub writes : List Write
  pub messages : List (List ℕ)
  pub calls : List (ℕ × Dispatched)
  pub notes : List Note

abbrev give_up : Handle → SockEnd → Sent
give_up knet_h end = record {
  handle = knet_h;
  end = end;
  writes = [];
  messages = [];
  calls = [];
  notes = [];
}

-- The loop of _dispatch_to_local over `local_retry:`; `written` is any result that is not negative.
unfoldable pub local_loop : List (Option ℕ) → ℕ → ℕ → WriteEnd × List Write
local_loop [] start buflen = (WriteEnd.waiting, [])
local_loop (none ∷ answers) start buflen = (WriteEnd.failed, [])
local_loop (some n ∷ answers) start buflen =
    let (end, writes) = local_loop answers (start + n) (buflen - n) in
    let write : Write = record { start = start; count = n } in
    if ltb 0 n && ltb n buflen then (end, write ∷ writes) else (WriteEnd.written, write ∷ [])

unfoldable pub dispatch_to_local : SendEnv → ℕ → WriteEnd × List Write
dispatch_to_local env inlen = local_loop env.local_writes 0 inlen

-- _compress_data: the data, and whether they are compressed
unfoldable pub compress_data : Handle → SendEnv → Packet → Option (Packet × Bool)
compress_data knet_h env buf =
    if truthy knet_h.compress_model && ltb knet_h.compress_threshold buf.0
    then elim (env.compress knet_h.compress_model knet_h.compress_level buf) [
      | none ↦ none
      | some out ↦ if ltb out.0 buf.0 then some (out, true) else some (buf, false)
    ]
    else some (buf, false)

-- _prep_tx_bufs, with KNET_PMTUD_MIN_MTU_V4 while the MTU is not known
unfoldable pub prep_tx_bufs : Handle → ℕ → ℕ → ℕ → ℕ → ℕ → Bool → Option (List TxMsg)
prep_tx_bufs knet_h onwire_ver inlen tx_seq_num channel bcast data_compressed =
    if truthy knet_h.onwire_ver_remap || onwire_ver == 1
    then some (
        prep_tx_bufs_v1 knet_h inlen (if truthy knet_h.data_mtu then knet_h.data_mtu else 576)
          tx_seq_num channel bcast data_compressed)
    else none

pub data Encrypted : Type 0 where
  fault : Encrypted
  failed : Encrypted
  done : List (List ℕ) → Encrypted

-- the loop over the messages
unfoldable pub encrypt_loop : Ops → Handle → List (List ℕ) → Encrypted
encrypt_loop ops knet_h [] = Encrypted.done []
encrypt_loop ops knet_h (m ∷ ms) = elim (encrypt_and_sign ops knet_h m) [
  | Crypted.fault ↦ Encrypted.fault
  | Crypted.failed ↦ Encrypted.failed
  | Crypted.done c ↦ elim (encrypt_loop ops knet_h ms) [
    | Encrypted.fault ↦ Encrypted.fault
    | Encrypted.failed ↦ Encrypted.failed
    | Encrypted.done cs ↦ Encrypted.done (c ∷ cs)
  ]
]

-- _encrypt_bufs
unfoldable pub encrypt_bufs : Ops → Handle → List (List ℕ) → Encrypted
encrypt_bufs ops knet_h ms =
    if truthy knet_h.crypto_in_use_config then encrypt_loop ops knet_h ms else Encrypted.done ms

abbrev pub Walk : Type 0
Walk = Handle × SockEnd × List (ℕ × Dispatched)

abbrev after_call : ℕ → Dispatched → Walk → Walk
after_call id d rest = (rest.0, rest.1, (id, d) ∷ rest.2)

-- The loops of _prep_and_send_msgs over the destinations: hosts of the list that are not reachable are
-- passed over, those that the filter named are sent to.
unfoldable pub send_hosts : SendEnv → Bool → ℕ → List ℕ → Handle → Walk
send_hosts env bcast msgs_to_send [] knet_h = (knet_h, SockEnd.sent, [])
send_hosts env bcast msgs_to_send (id ∷ ids) knet_h = elim (knet_h.host_index id) [
  | none ↦ (knet_h, SockEnd.crashed, [])
  | some host ↦
      let d = dispatch_to_links host (env.socket id) msgs_to_send in
      let knet_h' = record knet_h { host_index = update knet_h.host_index id (some d.dst_host) } in
      let skipped = send_hosts env bcast msgs_to_send ids knet_h in
      let rest = send_hosts env bcast msgs_to_send ids knet_h' in
      if bcast && not (truthy host.status.reachable) then skipped else elim d.end [
        | SendEnd.sent_all ↦ after_call id d rest
        | SendEnd.ignored ↦ after_call id d rest
        | SendEnd.failed ↦ (knet_h', SockEnd.stopped SendEnd.failed, (id, d) ∷ [])
        | SendEnd.again ↦ (knet_h', SockEnd.stopped SendEnd.again, (id, d) ∷ [])
        | SendEnd.waiting ↦ (knet_h', SockEnd.stopped SendEnd.waiting, (id, d) ∷ [])
      ]
]

-- from _prep_tx_bufs on, with the sequence number
unfoldable pub send_numbered :
    Handle → SendEnv → Packet → Bool → ℕ → ℕ → ℕ → DataDests → List Note → Sent
send_numbered knet_h env buf data_compressed tx_seq_num channel onwire_ver d notes =
    let finish = λ (walk : Walk) (out : List (List ℕ)).
      let r : Sent = record {
        handle = walk.0;
        end = walk.1;
        writes = [];
        messages = out;
        calls = walk.2;
        notes = notes;
      } in
      r in
    elim (prep_tx_bufs knet_h onwire_ver buf.0 tx_seq_num channel d.bcast data_compressed) [
      | none ↦ finish (knet_h, SockEnd.refused einval, []) []
      | some msgs ↦ elim (encrypt_bufs env.ops knet_h (map (env.encode buf) msgs)) [
        | Encrypted.fault ↦ finish (knet_h, SockEnd.crashed, []) []
        | Encrypted.failed ↦ finish (knet_h, SockEnd.refused echild, []) []
        | Encrypted.done out ↦
            finish
              (send_hosts env (truthy d.bcast) (length out)
                (if truthy d.bcast then knet_h.host_list else d.dst_host_ids) knet_h)
              out
      ]
    ]

-- _get_tx_seq_num, with the pings that it sends at some numbers
unfoldable pub take_seq_num : Handle → SendEnv → ℕ × Handle × List Note
take_seq_num knet_h env =
    let (seq, ping, counted) = get_tx_seq_num knet_h in
    let (pinged, notes) = send_pings counted 0 env.rounds env.pings_locked in
    if ping then (seq, pinged, notes) else (seq, counted, [])

-- from _compress_data on
unfoldable pub send_remote : Handle → SendEnv → Packet → ℕ → ℕ → DataDests → Sent
send_remote knet_h env buf channel onwire_ver d =
    let (seq, counted, notes) = take_seq_num knet_h env in
    elim (compress_data knet_h env buf) [
      | none ↦ give_up knet_h SockEnd.not_compressed
      | some (ready, data_compressed) ↦
          if truthy env.seq_locked
          then give_up knet_h (SockEnd.refused env.seq_locked)
          else send_numbered counted env ready data_compressed seq channel onwire_ver d notes
    ]

-- from the sending to our own host on
-- sockfd has KNET_DATAFD_MAX + 1 entries
unfoldable pub send_to : Handle → SendEnv → Packet → ℕ → ℕ → DataDests → Sent
send_to knet_h env buf channel onwire_ver d =
    let (end, writes) = dispatch_to_local env buf.0 in
    let remote = send_remote knet_h env buf channel onwire_ver d in
    if truthy d.send_local
    then (if ltb datafd_max channel then give_up knet_h SockEnd.crashed else elim end [
      | WriteEnd.written ↦ record remote { writes = writes }
      | WriteEnd.failed ↦ record (give_up knet_h (SockEnd.local_stopped WriteEnd.failed)) {
        writes = writes;
      }
      | WriteEnd.waiting ↦ record (give_up knet_h (SockEnd.local_stopped WriteEnd.waiting)) {
        writes = writes;
      }
    ])
    else remote

-- _get_data_dests, with the channel of the filter
unfoldable pub choose_dests : Handle → SendEnv → Packet → ℕ → Bool → DestsResult × ℕ
choose_dests knet_h env buf channel is_sync = elim env.filter [
  | none ↦ (get_data_dests knet_h none is_sync, channel)
  | some filter ↦
      let (filtered, channel') = filter buf channel in
      (get_data_dests knet_h (some filtered) is_sync, channel')
]

-- _parse_recv_from_sock
unfoldable pub parse_recv_from_sock : Handle → SendEnv → Packet → ℕ → ℕ → Bool → Sent
parse_recv_from_sock knet_h env buf channel onwire_ver is_sync =
    let (chosen, channel') = choose_dests knet_h env buf channel is_sync in
    if not (knet_h.enabled == 1)
    then give_up knet_h (SockEnd.refused ecanceled)
    else (if not (truthy knet_h.onwire_ver_remap || onwire_ver == 1)
        then give_up knet_h (SockEnd.refused einval)
        else elim chosen [
          | DestsResult.error errno ↦ give_up knet_h (SockEnd.refused errno)
          | DestsResult.dests d ↦ send_to knet_h env buf channel' onwire_ver d
        ])

-- The locks of knet_send_sync: an errno or 0, and whether the mutex of the on-wire version is taken.
pub record SyncEnv : Type 0 where
  pub locked : ℕ
  pub onwire_locked : Bool
  pub tx_locked : ℕ

-- How it returns: -1 with an errno, 0 although nothing was done, or as _parse_recv_from_sock.
pub data SyncEnd : Type 0 where
  refused : ℕ → SyncEnd
  nothing_done : SyncEnd
  parsed : Sent → SyncEnd

-- knet_send_sync, with a buffer and a channel of 0 or more
unfoldable pub send_sync : Handle → SyncEnv → SendEnv → Packet → ℕ → SyncEnd
send_sync knet_h locks env buff channel =
    if buff.0 == 0 || ltb 65536 buff.0 || leb datafd_max channel
    then SyncEnd.refused einval
    else (if truthy locks.locked then SyncEnd.refused locks.locked else elim env.filter [
      | none ↦ SyncEnd.refused enetdown
      | some filter ↦
          if not (truthy (knet_h.sockfd channel).in_use)
          then SyncEnd.refused einval
          else (if not locks.onwire_locked
              then SyncEnd.nothing_done
              else (if truthy locks.tx_locked
                  then SyncEnd.refused locks.tx_locked
                  else (if not (truthy knet_h.onwire_ver_remap || knet_h.onwire_ver == 1)
                      then SyncEnd.nothing_done
                      else SyncEnd.parsed
                          (parse_recv_from_sock knet_h env buff channel knet_h.onwire_ver true))))
    ])

-- whether the result is 0
unfoldable pub returns_zero : SyncEnd → Bool
returns_zero (SyncEnd.refused errno) = false
returns_zero SyncEnd.nothing_done = true
returns_zero (SyncEnd.parsed r) = elim r.end [
  | SockEnd.refused errno ↦ false
  | SockEnd.crashed ↦ false
  | SockEnd.local_stopped end ↦ false
  | SockEnd.not_compressed ↦ false
  | SockEnd.stopped end ↦ false
  | SockEnd.sent ↦ true
]
