-- ===== src/Delivery/Once.antt =====
-- A packet that was delivered is not delivered again (libknet/threads_rx.c:_process_data).
use kronosnet.Base.{
  ℕ, ◌%◌, ◌<◌, ◌≡◌, ◌⊎◌, inl, inr, refl, sym, subst, ap, ◌∙◌, Bool, true, false, ◌&&◌, ◌||◌, not,
  some, List, [], arith, ltb, leb, ◌==◌, truthy, if◌then◌else◌, Bool-cases, Option-cases,
}
use kronosnet.State.{Host, Handle}
use kronosnet.SeqNum.{cbuffer_size, seq_num_lookup, seq_num_set, seq_dist}
use kronosnet.SeqNum.Window.{rx_seq_num-seq_num_set, seq_num_set_seen}
use kronosnet.SeqNum.Lookup.{lookup_seen, lookup_near}
use kronosnet.Defrag.{Packet}
use kronosnet.Links.{Effect}
use kronosnet.Delivery.{
  WriteEnd, deliver_data, DataPacket, RxEnv, check_destination, fast_data_up, Outcome,
  sockfd_entries, pass_up, process_packet, process_data,
}

-- the application has taken all of the packet
abbrev pub is_written : Outcome → Bool
is_written Outcome.crashed = false
is_written Outcome.dropped = false
is_written (Outcome.passed channel packet WriteEnd.written writes) = true
is_written (Outcome.passed channel packet WriteEnd.failed writes) = false
is_written (Outcome.passed channel packet WriteEnd.waiting writes) = false

pub WriteEnd-cases :
    (e : WriteEnd) → (e ≡ WriteEnd.written) ⊎ (e ≡ WriteEnd.failed) ⊎ (e ≡ WriteEnd.waiting)
WriteEnd-cases WriteEnd.written = inl refl
WriteEnd-cases WriteEnd.failed = inr (inl refl)
WriteEnd-cases WriteEnd.waiting = inr (inr refl)

module _ (knet_h : Handle) (env : RxEnv) where
  pass_up-written :
      (seq_num channel : ℕ) (packet : Packet) (host : Host) (effects : List Effect)
      → is_written (pass_up knet_h env seq_num channel packet host effects).outcome ≡ true
      → (pass_up knet_h env seq_num channel packet host effects).src_host
        ≡ seq_num_set host seq_num 0
  unfolding pass_up
  pass_up-written seq_num channel packet host effects e =
      elim (Bool-cases (not (knet_h.enabled == 1))) [
        | inl off ↦ ground (arith, off, e)
        | inr on ↦ elim (Option-cases (check_destination knet_h env.filter packet channel)) [
          | inl gone ↦ ground (arith, on, gone, e)
          | inr (channel', found) ↦ elim (Bool-cases (leb sockfd_entries channel')) [
            | inl past ↦ ground (arith, on, found, past, e)
            | inr low ↦ elim (Bool-cases (not (truthy (knet_h.sockfd channel').in_use))) [
              | inl unused ↦ ground (arith, on, found, low, unused, e)
              | inr used ↦ elim (WriteEnd-cases (deliver_data env.writes packet.0).0) [
                | inl done ↦ rw (on, found, low, used, done) refl
                | inr (inl failed) ↦ ground (arith, on, found, low, used, failed, e)
                | inr (inr more) ↦ ground (arith, on, found, low, used, more, e)
              ]
            ]
          ]
        ]
      ]

  -- a host with `s` marked, and otherwise the numbers of `host`
  abbrev Marked : ℕ → Host → Host → Type 0
  Marked s host host' = (h : Host) × (host' ≡ seq_num_set h s 0) × (h.rx_seq_num ≡ host.rx_seq_num)

  fast_data_up-rx_seq_num :
      (host : Host) (link_id : ℕ) → (fast_data_up env host link_id).1.rx_seq_num ≡ host.rx_seq_num
  unfolding fast_data_up
  fast_data_up-rx_seq_num host link_id = ground arith

  process_packet-written :
      (link_id : ℕ) (p : DataPacket) (packet : Packet) (host : Host)
      → is_written (process_packet knet_h env link_id p packet host).outcome ≡ true
      → Marked p.seq_num host (process_packet knet_h env link_id p packet host).src_host
  unfolding process_packet
  process_packet-written link_id p packet host e =
      let plain =
        if truthy p.decompress_type then env.decompress p.decompress_type packet else some packet in
      let up = fast_data_up env host link_id in
      elim (Bool-cases (truthy p.decompress_type && not env.locked)) [
        | inl lost ↦ ground (arith, lost, e)
        | inr kept ↦ elim (Option-cases plain) [
          | inl bad ↦ ground (arith, kept, bad, e)
          | inr (packet', good) ↦ elim (Bool-cases (truthy host.status.reachable)) [
            | inl reached ↦
                let e' : is_written (pass_up knet_h env p.seq_num p.channel packet' host []).outcome
                    ≡ true =
                  ground (arith, kept, good, reached, e) in
                rw (kept, good, reached)
                  (host, pass_up-written p.seq_num p.channel packet' host [] e', refl)
            | inr unreached ↦ elim (Bool-cases up.0) [
              | inl fast ↦
                  let e' : is_written
                        (pass_up knet_h env p.seq_num p.channel packet' up.1 up.2).outcome
                      ≡ true =
                    ground (arith, kept, good, unreached, fast, e) in
                  rw (kept, good, unreached, fast)
                    (
                      up.1,
                      pass_up-written p.seq_num p.channel packet' up.1 up.2 e',
                      fast_data_up-rx_seq_num host link_id,
                    )
              | inr slow ↦ ground (arith, kept, good, unreached, slow, e)
            ]
          ]
        ]
      ]

-- a host as it is looked up
abbrev pub with_data : Host → Host
with_data host = record host { got_data = 1 }

process_data-seen :
    (knet_h : Handle) (env : RxEnv) (link_id : ℕ) (p : DataPacket) (host : Host)
    → truthy (seq_num_lookup knet_h (with_data host) p.seq_num 0 0).0 ≡ false
    → (process_data knet_h env link_id p host).outcome ≡ Outcome.dropped
unfolding process_data
process_data-seen knet_h env link_id p host old = ground (arith, old)

process_data-written :
    (knet_h : Handle) (env : RxEnv) (link_id : ℕ) (p : DataPacket) (host : Host)
    → ltb 1 p.body.frags ≡ false
    → is_written (process_data knet_h env link_id p host).outcome ≡ true
    → Marked knet_h env p.seq_num
        (seq_num_lookup knet_h (with_data host) p.seq_num 0 0).1
        (process_data knet_h env link_id p host).src_host
unfolding process_data
process_data-written knet_h env link_id p host single e =
    let looked = (seq_num_lookup knet_h (with_data host) p.seq_num 0 0).1 in
    let packet : Packet = (p.body.len, p.body.payload) in
    elim (Bool-cases (not env.locked)) [
      | inl lost ↦ ground (arith, lost, e)
      | inr kept ↦ elim (Bool-cases (not (truthy knet_h.onwire_ver_remap || p.version == 1))) [
        | inl other ↦ ground (arith, kept, other, e)
        | inr known ↦
            elim (Bool-cases
              (not (truthy (seq_num_lookup knet_h (with_data host) p.seq_num 0 0).0))) [
                | inl old ↦ ground (arith, kept, known, old, e)
                | inr fresh ↦
                    let e' : is_written (process_packet knet_h env link_id p packet looked).outcome
                        ≡ true =
                      ground (arith, kept, known, fresh, single, e) in
                    rw (kept, known, fresh, single)
                      (process_packet-written knet_h env link_id p packet looked e')
              ]
      ]
    ]

-- A packet in one piece that the application has taken as a whole is not passed on again: if a packet
-- with its number is processed next, from any link and with any contents, it is dropped.
pub process_data-once :
    (knet_h : Handle) (env env' : RxEnv) (link_id link_id' : ℕ) (p p' : DataPacket) (host : Host)
    → p.seq_num < 65536
    → p'.seq_num ≡ p.seq_num
    → ltb 1 p.body.frags ≡ false
    → is_written (process_data knet_h env link_id p host).outcome ≡ true
    → (process_data knet_h env' link_id' p'
        (process_data knet_h env link_id p host).src_host).outcome
      ≡ Outcome.dropped
process_data-once knet_h env env' link_id link_id' p p' host small same single e =
    let (h, marked, newest) = process_data-written knet_h env link_id p host single e in
    let after = (process_data knet_h env link_id p host).src_host in
    let near = lookup_near knet_h (with_data host) p.seq_num 0 0 small in
    let rx : (with_data after).rx_seq_num
        ≡ (seq_num_lookup knet_h (with_data host) p.seq_num 0 0).1.rx_seq_num =
      ap (λ (x : Host). x.rx_seq_num) marked ∙ rx_seq_num-seq_num_set h p.seq_num 0 ∙ newest in
    let seen : truthy ((with_data after).circular_buffer (p.seq_num % cbuffer_size)) ≡ true =
      ap (λ (x : Host). truthy (x.circular_buffer (p.seq_num % cbuffer_size))) marked
      ∙ ap truthy (seq_num_set_seen h p.seq_num 0) in
    let old =
      lookup_seen knet_h (with_data after) p.seq_num 0 small
        (subst (λ (r : ℕ). seq_dist r p.seq_num < cbuffer_size) (sym rx) near) seen in
    process_data-seen knet_h env' link_id' p' after (
      subst (λ (s : ℕ). truthy (seq_num_lookup knet_h (with_data after) s 0 0).0 ≡ false) (sym same)
        (ap truthy old))
