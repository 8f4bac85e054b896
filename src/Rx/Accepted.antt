-- ===== src/Rx/Accepted.antt =====
-- On which links packets are handled (libknet/threads_rx.c:_parse_recv_from_links).
use kronosnet.Base.{
  ℕ, ◌<◌, ◌≡◌, inl, inr, refl, sym, ap, ◌∙◌, subst, Bool, true, Option, some, arith, Bool-cases,
}
use kronosnet.State.{Link, Host, Handle}
use kronosnet.OnwireV1.{PingPacket}
use kronosnet.Onwire.{handle_onwire_version, agree_ver}
use kronosnet.Delivery.{Outcome}
use kronosnet.Rx.{
  Payload, header_of, store_max_ver, Message, ParseEnv, is_from, Source, find_host, ping_source,
  other_source, ParseEnd, Parsed, handle_dynip, put_host, with_link, dispatch, handle_on,
  parse_ping, parse_from,
}
use kronosnet.Rx.Sources.{
  IsAllowed, IsItsLink, IsSource, Source-cases, other_source-accepted, ping_source-IsSource,
}

-- The versions that a ping brings leave the links as they are.
noted-link :
    (knet_h : Handle) (id v m : ℕ) (locked : Bool) (host : Host)
    → knet_h.host_index id ≡ some host
    → (find_host (handle_onwire_version knet_h host v m locked).0 id host).link ≡ host.link
unfolding handle_onwire_version agree_ver
noted-link knet_h id v m locked host known = ground (arith, known)

noted-acl :
    (knet_h : Handle) (v m : ℕ) (locked : Bool) (host : Host)
    → (handle_onwire_version knet_h host v m locked).0.use_access_lists ≡ knet_h.use_access_lists
unfolding handle_onwire_version agree_ver
noted-acl knet_h v m locked host = ground arith

handle_on-accepted :
    (knet_h : Handle) (env : ParseEnv) (id : ℕ) (host : Host) (len : ℕ) (p : Payload)
    (source : Source) (o : Option Outcome)
    → (handle_on knet_h env id host len p source).end ≡ ParseEnd.handled o
    → (i : ℕ) × (source ≡ Source.accepted i)
      × (handle_on knet_h env id host len p source ≡ dispatch knet_h env id i host len p)
unfolding handle_on
handle_on-accepted knet_h env id host len p Source.crashed o e = cc
handle_on-accepted knet_h env id host len p Source.rejected o e = cc
handle_on-accepted knet_h env id host len p (Source.accepted i) o e =
    elim (Bool-cases env.stats_locked) [
      | inl locked ↦ (i, refl, ground (arith, locked))
      | inr free ↦ absurd (ground (arith, free, e))
    ]

-- The handling of a packet on link `i`. A ping has brought its versions and, for that link, its address.
abbrev pub handling_on : Handle → ParseEnv → Message → Host → ℕ → Payload → ℕ → Parsed
handling_on knet_h env msg host len (Payload.ping p) i =
    let id = p.header.kh_node in
    let noted =
      (handle_onwire_version knet_h host p.header.kh_version p.header.kh_max_ver
        env.onwire_locked).0 in
    let host' = find_host noted id host in
    let moved = with_link host' i (handle_dynip msg (host'.link i)) in
    dispatch (put_host noted id moved) env id i moved len (Payload.ping p)
handling_on knet_h env msg host len (Payload.pong p) i =
    dispatch knet_h env p.header.kh_node i host len (Payload.pong p)
handling_on knet_h env msg host len (Payload.pmtud p) i =
    dispatch knet_h env p.header.kh_node i host len (Payload.pmtud p)
handling_on knet_h env msg host len (Payload.pmtud_reply p) i =
    dispatch knet_h env p.header.kh_node i host len (Payload.pmtud_reply p)
handling_on knet_h env msg host len (Payload.user_data h p) i =
    dispatch knet_h env h.kh_node i host len (Payload.user_data h p)
handling_on knet_h env msg host len (Payload.unknown h) i =
    dispatch knet_h env h.kh_node i host len (Payload.unknown h)

handled_other :
    (knet_h : Handle) (env : ParseEnv) (msg : Message) (id : ℕ) (host : Host) (len : ℕ)
    (p : Payload) (o : Option Outcome)
    → let out = handle_on knet_h env id host len p (other_source knet_h env msg host) in
      out.end ≡ ParseEnd.handled o
      → (i : ℕ) × ((i < 8)
          × IsAllowed knet_h.use_access_lists env (host.link i)
          × (is_from msg (host.link i) ≡ true))
        × (out ≡ dispatch knet_h env id i host len p)
handled_other knet_h env msg id host len p o e =
    let (i, accept, same) =
      handle_on-accepted knet_h env id host len p (other_source knet_h env msg host) o e in
    (i, other_source-accepted knet_h env msg host i accept, same)

parse_ping-IsSource :
    (knet_h : Handle) (env : ParseEnv) (msg : Message) (host : Host) (len : ℕ) (p : PingPacket)
    (o : Option Outcome)
    → knet_h.host_index p.header.kh_node ≡ some host
    → (parse_ping knet_h env msg host len p).end ≡ ParseEnd.handled o
    → (i : ℕ) × IsSource knet_h.use_access_lists env msg (Payload.ping p) host.link i
      × (parse_ping knet_h env msg host len p
          ≡ handling_on knet_h env msg host len (Payload.ping p) i)
unfolding parse_ping
parse_ping-IsSource knet_h env msg host len p o known e =
    let id = p.header.kh_node in
    let v = p.header.kh_version in
    let m = p.header.kh_max_ver in
    let noted = (handle_onwire_version knet_h host v m env.onwire_locked).0 in
    let host' = find_host noted id host in
    let links = noted-link knet_h id v m env.onwire_locked host known in
    let lists = noted-acl knet_h v m env.onwire_locked host in
    let moved = with_link host' p.link (handle_dynip msg (host'.link p.link)) in
    elim (Source-cases (ping_source noted env p host')) [
      | inl crash ↦ absurd (ground (arith, crash, e))
      | inr (inl reject) ↦ absurd (ground (arith, reject, e))
      | inr (inr (i, accept)) ↦
          let source = ping_source-IsSource noted env msg p host' i accept in
          let on : parse_ping knet_h env msg host len p
              ≡ handle_on (put_host noted id moved) env id moved len (Payload.ping p)
                  (Source.accepted i) =
            ground (arith, accept) in
          let (j, here, same) =
            handle_on-accepted (put_host noted id moved) env id moved len (Payload.ping p)
              (Source.accepted i) o (ap (λ (r : Parsed). r.end) (sym on) ∙ e) in
          let named : i ≡ p.link = source.2 in
          (
            i,
            subst (λ l. IsSource knet_h.use_access_lists env msg (Payload.ping p) l i) links
                (subst (λ u. IsSource u env msg (Payload.ping p) host'.link i) lists source),
            on ∙ same ∙ ground (arith, here, named),
          )
    ]

pub parse_from-IsSource :
    (knet_h : Handle) (env : ParseEnv) (msg : Message) (host : Host) (len : ℕ) (p : Payload)
    (o : Option Outcome)
    → knet_h.host_index (header_of p).kh_node ≡ some host
    → (parse_from knet_h env msg host len p).end ≡ ParseEnd.handled o
    → (i : ℕ) × IsSource knet_h.use_access_lists env msg p host.link i
      × (parse_from knet_h env msg host len p ≡ handling_on knet_h env msg host len p i)
unfolding parse_from header_of
parse_from-IsSource knet_h env msg host len (Payload.ping p) o known e =
    parse_ping-IsSource knet_h env msg host len p o known e
parse_from-IsSource knet_h env msg host len (Payload.pong p) o known e =
    handled_other knet_h env msg p.header.kh_node host len (Payload.pong p) o e
parse_from-IsSource knet_h env msg host len (Payload.pmtud p) o known e =
    handled_other knet_h env msg p.header.kh_node host len (Payload.pmtud p) o e
parse_from-IsSource knet_h env msg host len (Payload.pmtud_reply p) o known e =
    handled_other knet_h env msg p.header.kh_node host len (Payload.pmtud_reply p) o e
parse_from-IsSource knet_h env msg host len (Payload.user_data h p) o known e =
    handled_other knet_h env msg h.kh_node host len (Payload.user_data h p) o e
parse_from-IsSource knet_h env msg host len (Payload.unknown h) o known e =
    handled_other knet_h env msg h.kh_node host len (Payload.unknown h) o e

pub store_max_ver-node :
    (v : ℕ) (p : Payload) → (header_of (store_max_ver v p)).kh_node ≡ (header_of p).kh_node
unfolding header_of store_max_ver
store_max_ver-node v (Payload.ping p) = refl
store_max_ver-node v (Payload.pong p) = refl
store_max_ver-node v (Payload.pmtud p) = refl
store_max_ver-node v (Payload.pmtud_reply p) = refl
store_max_ver-node v (Payload.user_data h p) = refl
store_max_ver-node v (Payload.unknown h) = refl

pub store_max_ver-IsItsLink :
    (v : ℕ) (msg : Message) (p : Payload) (link : ℕ → Link) (i : ℕ)
    → IsItsLink msg (store_max_ver v p) link i
    → IsItsLink msg p link i
unfolding store_max_ver
store_max_ver-IsItsLink v msg (Payload.ping p) link i e = e
store_max_ver-IsItsLink v msg (Payload.pong p) link i e = e
store_max_ver-IsItsLink v msg (Payload.pmtud p) link i e = e
store_max_ver-IsItsLink v msg (Payload.pmtud_reply p) link i e = e
store_max_ver-IsItsLink v msg (Payload.user_data h p) link i e = e
store_max_ver-IsItsLink v msg (Payload.unknown h) link i e = e
