-- ===== src/Tx.antt =====
-- libknet/threads_tx.c: the sequence number of a packet, and sending its fragments on the active
-- links of a host. What the socket answers is an argument.
pub mod Seq
pub mod Sending
pub mod Used
pub mod RoundRobin
mod Tests
use kronosnet.Base.{
  ℕ, zero, suc, ◌+◌, ◌-◌, ◌%◌, ◌/◌, Bool, true, false, ◌&&◌, ◌||◌, Option, none, some, List, [],
  ◌∷◌, ltb, ◌==◌, if◌then◌else◌, truthy, update, move,
}
use kronosnet.State.{Link, Host, Handle}
use kronosnet.SeqNum.{seq_max}
use kronosnet.DstCache.{policy_rr}

-- The number for the next packet and whether all hosts are pinged; the mutex is taken.
unfoldable pub get_tx_seq_num : Handle → ℕ × Bool × Handle
get_tx_seq_num knet_h =
    let next = (knet_h.tx_seq_num + 1) % 65536 in
    let seq = if next == 0 then 1 else next in
    (seq, seq % (seq_max / 8) == 0, record knet_h { tx_seq_num = seq })

-- what transport_tx_sock_error makes of an answer
pub data SockError : Type 0 where
  internal : SockError
  ignore : SockError
  retry : SockError

-- An answer of the socket: how many messages it took, `none` for -1, and the transport's verdict.
pub record Answer : Type 0 where
  pub sent_msgs : Option ℕ
  pub verdict : SockError

-- How sending on one link ends: all messages passed to the socket, an error that the transport
-- ignores, one that it does not, or no progress in two calls. `waiting` is for the end of the answers.
pub data SendEnd : Type 0 where
  sent_all : SendEnd
  ignored : SendEnd
  failed : SendEnd
  again : SendEnd
  waiting : SendEnd

-- a call that passed on `count` messages from `start` on
pub record Chunk : Type 0 where
  pub start : ℕ
  pub count : ℕ

-- The loop of `_dispatch_to_links` over `retry:`. The chunks are those that the socket took.
unfoldable pub send_msgs : List Answer → ℕ → Bool → ℕ → SendEnd × List Chunk
send_msgs [] prev_sent progress msgs_to_send = (SendEnd.waiting, [])
send_msgs (a ∷ answers) prev_sent progress msgs_to_send = elim a.verdict [
  | SockError.internal ↦ (SendEnd.failed, [])
  | SockError.retry ↦ send_msgs answers prev_sent progress msgs_to_send
  | SockError.ignore ↦ elim a.sent_msgs [
    | none ↦ (SendEnd.ignored, [])
    | some k ↦
        let chunk : Chunk = record { start = prev_sent; count = k } in
        let (end, chunks) = send_msgs answers (prev_sent + k) (truthy k) msgs_to_send in
        if ltb (prev_sent + k) msgs_to_send
        then (if truthy k || progress then (end, chunk ∷ chunks) else (SendEnd.again, chunk ∷ []))
        else (SendEnd.sent_all, chunk ∷ [])
  ]
]

-- the rotation under the round-robin policy
unfoldable pub rotate : Host → Host
rotate host = record host {
  active_links =
      update (move host.active_links 0 host.active_links 1 7) (host.active_link_entries - 1)
        (host.active_links 0);
}

-- the end, the host, and the links that were used
pub record Dispatched : Type 0 where
  pub end : SendEnd
  pub dst_host : Host
  pub used : List ℕ

abbrev pub transport_loopback : ℕ
transport_loopback = 0

abbrev pub use_link : ℕ → Dispatched → Dispatched
use_link l d = record d { used = l ∷ d.used }

-- The loop over the active links, `n` of them left from `link_idx` on; `socket` are the answers on
-- each link. The mutex of the link's statistics, which are left out, is taken.
unfoldable pub dispatch_loop : ℕ → ℕ → Host → (ℕ → List Answer) → ℕ → Dispatched
dispatch_loop zero link_idx host socket msgs_to_send = record {
  end = SendEnd.sent_all;
  dst_host = host;
  used = [];
}
dispatch_loop (suc n) link_idx host socket msgs_to_send =
    let l = host.active_links link_idx in
    let rest = dispatch_loop n (link_idx + 1) host socket msgs_to_send in
    let over =
      if host.link_handler_policy == policy_rr && ltb 1 host.active_link_entries
      then record { end = SendEnd.sent_all; dst_host = rotate host; used = l ∷ [] }
      else use_link l rest in
    if (host.link l).transport == transport_loopback
    then rest
    else elim (send_msgs (socket l) 0 true msgs_to_send).0 [
      | SendEnd.sent_all ↦ over
      | SendEnd.ignored ↦ over
      | SendEnd.failed ↦ record { end = SendEnd.failed; dst_host = host; used = l ∷ [] }
      | SendEnd.again ↦ record { end = SendEnd.again; dst_host = host; used = l ∷ [] }
      | SendEnd.waiting ↦ record { end = SendEnd.waiting; dst_host = host; used = l ∷ [] }
    ]

unfoldable pub dispatch_to_links : Host → (ℕ → List Answer) → ℕ → Dispatched
dispatch_to_links host socket msgs_to_send =
    dispatch_loop host.active_link_entries 0 host socket msgs_to_send
