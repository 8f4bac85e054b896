-- ===== src/Rx/Dropped.antt =====
-- What a packet changes that is not handled (libknet/threads_rx.c:_parse_recv_from_links).
use kronosnet.Base.{
  ℕ, ◌≡◌, ◌⊎◌, inl, inr, refl, sym, ap, ◌∙◌, subst, true, false, none, some, List, length, arith,
  Bool-cases, Option-cases,
}
use kronosnet.State.{Host, Handle}
use kronosnet.Crypto.{Crypted}
use kronosnet.Defrag.{Packet}
use kronosnet.Delivery.{WriteEnd, Write, Outcome, process_data}
use kronosnet.OnwireV1.{PingPacket}
use kronosnet.Onwire.{handle_onwire_version}
use kronosnet.Rx.{
  Payload, header_of, store_max_ver, Message, ParseEnv, decrypt_packet, max_ver, packet_checks,
  count_odd, Source, find_host, ping_source, other_source, ParseEnd, Parsed, dispatch, handle_on,
  parse_ping, parse_from, parse_clear, parse_recv_from_links,
}
use kronosnet.Rx.Checked.{Crypted-cases}
use kronosnet.Rx.Sources.{Source-cases}

pub Outcome-cases :
    (o : Outcome)
    → (o ≡ Outcome.crashed)
      ⊎ (o ≡ Outcome.dropped)
      ⊎ ((channel : ℕ) × (packet : Packet) × (end : WriteEnd) × (writes : List Write) × (o
            ≡ Outcome.passed channel packet end writes))
Outcome-cases Outcome.crashed = inl refl
Outcome-cases Outcome.dropped = inr (inl refl)
Outcome-cases (Outcome.passed channel packet end writes) =
    inr (inr (channel, packet, end, writes, refl))

dispatch_dropped :
    (knet_h : Handle) (env : ParseEnv) (id i : ℕ) (host : Host) (len : ℕ) (p : Payload)
    → (dispatch knet_h env id i host len p).end ≡ ParseEnd.dropped
    → (dispatch knet_h env id i host len p).handle ≡ knet_h
unfolding dispatch
dispatch_dropped knet_h env id i host len (Payload.ping p) e = absurd (ground (arith, e))
dispatch_dropped knet_h env id i host len (Payload.pong p) e = absurd (ground (arith, e))
dispatch_dropped knet_h env id i host len (Payload.pmtud p) e = absurd (ground (arith, e))
dispatch_dropped knet_h env id i host len (Payload.pmtud_reply p) e = absurd (ground (arith, e))
dispatch_dropped knet_h env id i host len (Payload.user_data h p) e =
    elim (Outcome-cases (process_data knet_h env.delivery i p host).outcome) [
      | inl crash ↦ absurd (ground (arith, crash, e))
      | inr (inl drop) ↦ absurd (ground (arith, drop, e))
      | inr (inr (channel, packet, end, writes, pass)) ↦ absurd (ground (arith, pass, e))
    ]
dispatch_dropped knet_h env id i host len (Payload.unknown h) e = refl

handle_on_dropped :
    (knet_h : Handle) (env : ParseEnv) (id : ℕ) (host : Host) (len : ℕ) (p : Payload)
    (source : Source)
    → (handle_on knet_h env id host len p source).end ≡ ParseEnd.dropped
    → (handle_on knet_h env id host len p source).handle ≡ knet_h
unfolding handle_on
handle_on_dropped knet_h env id host len p Source.crashed e = refl
handle_on_dropped knet_h env id host len p Source.rejected e = refl
handle_on_dropped knet_h env id host len p (Source.accepted i) e =
    elim (Bool-cases env.stats_locked) [
      | inl locked ↦
          let same : handle_on knet_h env id host len p (Source.accepted i)
              ≡ dispatch knet_h env id i host len p =
            ground (arith, locked) in
          ap (λ (r : Parsed). r.handle) same
          ∙ dispatch_dropped knet_h env id i host len p (ap (λ (r : Parsed). r.end) (sym same) ∙ e)
      | inr free ↦ ground (arith, free)
    ]

-- the handle after the versions that a ping brings are noted
abbrev pub noted_by : Handle → ParseEnv → Host → PingPacket → Handle
noted_by knet_h env host p =
    (handle_onwire_version knet_h host p.header.kh_version p.header.kh_max_ver env.onwire_locked).0

parse_ping_dropped :
    (knet_h : Handle) (env : ParseEnv) (msg : Message) (host : Host) (len : ℕ) (p : PingPacket)
    → env.stats_locked ≡ true
    → (parse_ping knet_h env msg host len p).end ≡ ParseEnd.dropped
    → (parse_ping knet_h env msg host len p).handle ≡ noted_by knet_h env host p
unfolding parse_ping handle_on dispatch
parse_ping_dropped knet_h env msg host len p locked e =
    let noted = noted_by knet_h env host p in
    elim (Source-cases (ping_source noted env p (find_host noted p.header.kh_node host))) [
      | inl crash ↦ absurd (ground (arith, crash, e))
      | inr (inl reject) ↦ ground (arith, reject)
      | inr (inr (i, accept)) ↦ absurd (ground (arith, accept, locked, e))
    ]

-- the handle after a packet that passed the checks
abbrev pub noted_of : Handle → ParseEnv → Host → Payload → Handle
noted_of knet_h env host (Payload.ping p) = noted_by knet_h env host p
noted_of knet_h env host (Payload.pong p) = knet_h
noted_of knet_h env host (Payload.pmtud p) = knet_h
noted_of knet_h env host (Payload.pmtud_reply p) = knet_h
noted_of knet_h env host (Payload.user_data h p) = knet_h
noted_of knet_h env host (Payload.unknown h) = knet_h

-- What decrypted bytes leave that are not handled.
abbrev pub IsClearLeft : Handle → ParseEnv → List ℕ → Handle → Type 0
IsClearLeft knet_h env inbuf after =
    let p = env.view inbuf in
    let h = header_of p in
    let passed = packet_checks knet_h h (length inbuf) in
    ((passed ≡ false) × (after ≡ count_odd knet_h))
    ⊎ ((passed ≡ true) × (knet_h.host_index h.kh_node ≡ none) × (after ≡ knet_h))
    ⊎ ((host : Host) × (passed ≡ true)
        × (knet_h.host_index h.kh_node ≡ some host)
        × (after ≡ noted_of knet_h env host (store_max_ver (max_ver h) p)))

-- What a packet leaves that is not handled: the handle as it was, if it could not be decrypted or its host
-- is not known; the count of odd packets changed, if it fails the checks; and otherwise, if it is a ping,
-- the versions noted that it brings for its host.
abbrev pub IsLeft : Handle → ParseEnv → Message → Handle → Type 0
IsLeft knet_h env msg after =
    ((decrypt_packet env.ops knet_h msg.bytes ≡ Crypted.failed) × (after ≡ knet_h))
    ⊎ ((inbuf : List ℕ) × (decrypt_packet env.ops knet_h msg.bytes ≡ Crypted.done inbuf)
        × IsClearLeft knet_h env inbuf after)

parse_from_dropped :
    (knet_h : Handle) (env : ParseEnv) (msg : Message) (host : Host) (len : ℕ) (p : Payload)
    → env.stats_locked ≡ true
    → (parse_from knet_h env msg host len p).end ≡ ParseEnd.dropped
    → (parse_from knet_h env msg host len p).handle ≡ noted_of knet_h env host p
unfolding parse_from
parse_from_dropped knet_h env msg host len (Payload.ping p) locked e =
    parse_ping_dropped knet_h env msg host len p locked e
parse_from_dropped knet_h env msg host len (Payload.pong p) locked e =
    handle_on_dropped knet_h env p.header.kh_node host len (Payload.pong p)
      (other_source knet_h env msg host) e
parse_from_dropped knet_h env msg host len (Payload.pmtud p) locked e =
    handle_on_dropped knet_h env p.header.kh_node host len (Payload.pmtud p)
      (other_source knet_h env msg host) e
parse_from_dropped knet_h env msg host len (Payload.pmtud_reply p) locked e =
    handle_on_dropped knet_h env p.header.kh_node host len (Payload.pmtud_reply p)
      (other_source knet_h env msg host) e
parse_from_dropped knet_h env msg host len (Payload.user_data h p) locked e =
    handle_on_dropped knet_h env h.kh_node host len (Payload.user_data h p)
      (other_source knet_h env msg host) e
parse_from_dropped knet_h env msg host len (Payload.unknown h) locked e =
    handle_on_dropped knet_h env h.kh_node host len (Payload.unknown h)
      (other_source knet_h env msg host) e

parse_clear_dropped :
    (knet_h : Handle) (env : ParseEnv) (msg : Message) (inbuf : List ℕ)
    → env.stats_locked ≡ true
    → (parse_clear knet_h env msg inbuf).end ≡ ParseEnd.dropped
    → IsClearLeft knet_h env inbuf (parse_clear knet_h env msg inbuf).handle
unfolding parse_clear
parse_clear_dropped knet_h env msg inbuf locked e =
    let p = env.view inbuf in
    let h = header_of p in
    elim (Bool-cases (packet_checks knet_h h (length inbuf))) [
      | inr odd ↦ inl (odd, ground (arith, odd))
      | inl passed ↦ elim (Option-cases (knet_h.host_index h.kh_node)) [
        | inl gone ↦ inr (inl (passed, gone, ground (arith, passed, gone)))
        | inr (host, known) ↦
            let stored = store_max_ver (max_ver h) p in
            let same : parse_clear knet_h env msg inbuf
                ≡ parse_from knet_h env msg host (length inbuf) stored =
              ground (arith, passed, known) in
            let left =
              parse_from_dropped knet_h env msg host (length inbuf) stored locked
                (ap (λ (r : Parsed). r.end) (sym same) ∙ e) in
            inr (inr (host, passed, known, ap (λ (r : Parsed). r.handle) same ∙ left))
      ]
    ]

-- A packet that is not handled, while its link's statistics can be locked, leaves the handle as it was; if
-- it fails the checks of its length and versions, with just the count of odd packets changed; and if it is
-- a ping that passes them, of a known host, with just the versions noted that it brings, also when the
-- access lists reject it.
pub parse_recv_from_links_dropped :
    (knet_h : Handle) (env : ParseEnv) (msg : Message)
    → env.stats_locked ≡ true
    → (parse_recv_from_links knet_h env msg).end ≡ ParseEnd.dropped
    → IsLeft knet_h env msg (parse_recv_from_links knet_h env msg).handle
unfolding parse_recv_from_links
parse_recv_from_links_dropped knet_h env msg locked e =
    elim (Crypted-cases (decrypt_packet env.ops knet_h msg.bytes)) [
      | inl crash ↦ absurd (ground (arith, crash, e))
      | inr (inl failed) ↦ inl (failed, ground (arith, failed))
      | inr (inr (inbuf, opened)) ↦
          let same : parse_recv_from_links knet_h env msg ≡ parse_clear knet_h env msg inbuf =
            ground (arith, opened) in
          let left =
            parse_clear_dropped knet_h env msg inbuf locked
              (ap (λ (r : Parsed). r.end) (sym same) ∙ e) in
          inr (
            inbuf,
            opened,
            subst (λ (r : Parsed). IsClearLeft knet_h env inbuf r.handle) (sym same) left,
          )
    ]
