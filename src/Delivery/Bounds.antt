-- ===== src/Delivery/Bounds.antt =====
-- When a data packet leads outside an array (libknet/threads_rx.c:_process_data).
use kronosnet.Base.{
  ℕ, ◌≤◌, ◌≡◌, ◌⊎◌, inl, inr, true, ◌&&◌, ◌||◌, not, some, List, [], arith, ltb, leb, ◌==◌, truthy,
  if◌then◌else◌, Bool-cases, Option-cases,
}
use kronosnet.State.{Host, Handle}
use kronosnet.SeqNum.{seq_num_lookup}
use kronosnet.Defrag.{Packet}
use kronosnet.Dests.{Filtered}
use kronosnet.Links.{Effect}
use kronosnet.Delivery.{
  deliver_data, DataPacket, RxEnv, check_destination, fast_data_up, Outcome, sockfd_entries,
  pass_up, process_packet, process_data,
}
use kronosnet.Delivery.Once.{WriteEnd-cases, with_data}

-- the application has a filter, or the channel has no entry in sockfd
abbrev pub IsOffChannel : RxEnv → ℕ → Type 0
IsOffChannel env channel =
    ((filter : Packet → ℕ → Filtered × ℕ) × (env.filter ≡ some filter)) ⊎ (sockfd_entries ≤ channel)

module _ (knet_h : Handle) (env : RxEnv) where
  pass_up-crashed :
      (seq_num channel : ℕ) (packet : Packet) (host : Host) (effects : List Effect)
      → (pass_up knet_h env seq_num channel packet host effects).outcome ≡ Outcome.crashed
      → IsOffChannel env channel
  unfolding pass_up check_destination
  pass_up-crashed seq_num channel packet host effects e = elim (Option-cases env.filter) [
    | inr given ↦ inl given
    | inl free ↦ elim (Bool-cases (not (knet_h.enabled == 1))) [
      | inl off ↦ absurd (ground (arith, off, e))
      | inr on ↦ elim (Bool-cases (leb sockfd_entries channel)) [
        | inl past ↦ inr (ground (arith, past))
        | inr low ↦ elim (Bool-cases (not (truthy (knet_h.sockfd channel).in_use))) [
          | inl unused ↦ absurd (ground (arith, free, on, low, unused, e))
          | inr used ↦ elim (WriteEnd-cases (deliver_data env.writes packet.0).0) [
            | inl done ↦ absurd (ground (arith, free, on, low, used, done, e))
            | inr (inl failed) ↦ absurd (ground (arith, free, on, low, used, failed, e))
            | inr (inr more) ↦ absurd (ground (arith, free, on, low, used, more, e))
          ]
        ]
      ]
    ]
  ]

  process_packet-crashed :
      (link_id : ℕ) (p : DataPacket) (packet : Packet) (host : Host)
      → (process_packet knet_h env link_id p packet host).outcome ≡ Outcome.crashed
      → IsOffChannel env p.channel
  unfolding process_packet
  process_packet-crashed link_id p packet host e =
      let plain =
        if truthy p.decompress_type then env.decompress p.decompress_type packet else some packet in
      let up = fast_data_up env host link_id in
      elim (Bool-cases (truthy p.decompress_type && not env.locked)) [
        | inl lost ↦ absurd (ground (arith, lost, e))
        | inr kept ↦ elim (Option-cases plain) [
          | inl bad ↦ absurd (ground (arith, kept, bad, e))
          | inr (packet', good) ↦ elim (Bool-cases (truthy host.status.reachable)) [
            | inl reached ↦
                pass_up-crashed p.seq_num p.channel packet' host []
                  (ground (arith, kept, good, reached, e))
            | inr unreached ↦ elim (Bool-cases up.0) [
              | inl fast ↦
                  pass_up-crashed p.seq_num p.channel packet' up.1 up.2
                    (ground (arith, kept, good, unreached, fast, e))
              | inr slow ↦ absurd (ground (arith, kept, good, unreached, slow, e))
            ]
          ]
        ]
      ]

-- A data packet that leads outside an array is a fragment, or it or the filter chose its channel.
pub process_data-crashed :
    (knet_h : Handle) (env : RxEnv) (link_id : ℕ) (p : DataPacket) (host : Host)
    → (process_data knet_h env link_id p host).outcome ≡ Outcome.crashed
    → (ltb 1 p.body.frags ≡ true) ⊎ IsOffChannel env p.channel
unfolding process_data
process_data-crashed knet_h env link_id p host e =
    let looked = (seq_num_lookup knet_h (with_data host) p.seq_num 0 0).1 in
    elim (Bool-cases (ltb 1 p.body.frags)) [
      | inl fragment ↦ inl fragment
      | inr single ↦ elim (Bool-cases (not env.locked)) [
        | inl lost ↦ absurd (ground (arith, lost, e))
        | inr kept ↦ elim (Bool-cases (not (truthy knet_h.onwire_ver_remap || p.version == 1))) [
          | inl other ↦ absurd (ground (arith, kept, other, e))
          | inr known ↦
              elim (Bool-cases
                (not (truthy (seq_num_lookup knet_h (with_data host) p.seq_num 0 0).0))) [
                  | inl old ↦ absurd (ground (arith, kept, known, old, e))
                  | inr fresh ↦ inr (
                      process_packet-crashed knet_h env link_id p (p.body.len, p.body.payload)
                        looked (ground (arith, kept, known, fresh, single, e)))
                ]
        ]
      ]
    ]
