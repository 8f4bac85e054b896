-- ===== src/Rx/Sources.antt =====
-- How the link of a received packet is chosen (libknet/threads_rx.c:_parse_recv_from_links).
use kronosnet.Base.{
  ℕ, zero, suc, ◌+◌, ◌<◌, ◌≡◌, ◌⊎◌, inl, inr, refl, subst, true, false, ◌||◌, arith, leb, ◌==◌,
  truthy, Bool-cases,
}
use kronosnet.State.{Link, Host, Handle}
use kronosnet.OnwireV1.{PingPacket}
use kronosnet.Rx.{
  Payload, Message, ParseEnv, is_from, find_link, check_rx_acl, Source, ping_source, other_source,
}

-- A link that the access lists, if they are used, allow for the sender.
abbrev pub IsAllowed : ℕ → ParseEnv → Link → Type 0
IsAllowed acl env link = (truthy acl ≡ false) ⊎ (env.accepts link ≡ true)

acl-IsAllowed :
    (knet_h : Handle) (env : ParseEnv) (link : Link)
    → check_rx_acl knet_h env link ≡ true
    → IsAllowed knet_h.use_access_lists env link
unfolding check_rx_acl
acl-IsAllowed knet_h env link e = elim (Bool-cases (truthy knet_h.use_access_lists)) [
  | inl on ↦ inr (rw (on) at e)
  | inr off ↦ inl off
]

pub Source-cases :
    (s : Source)
    → (s ≡ Source.crashed) ⊎ (s ≡ Source.rejected) ⊎ ((i : ℕ) × (s ≡ Source.accepted i))
Source-cases Source.crashed = inl refl
Source-cases Source.rejected = inr (inl refl)
Source-cases (Source.accepted i) = inr (inr (i, refl))

find_link-accepted :
    (n k i : ℕ) (msg : Message) (host : Host)
    → find_link n k msg host ≡ Source.accepted i
    → (i < 8) × (is_from msg (host.link i) ≡ true)
unfolding find_link
find_link-accepted zero k i msg host e = cc
find_link-accepted (suc n) k i msg host e = elim (Bool-cases (leb 8 k)) [
  | inl past ↦ absurd (ground (arith, past, e))
  | inr low ↦ elim (Bool-cases (is_from msg (host.link k))) [
    | inl here ↦
        let same : k ≡ i = ground (arith, low, here, e) in
        subst (λ l. (l < 8) × (is_from msg (host.link l) ≡ true)) same (ground (arith, low), here)
    | inr there ↦ find_link-accepted n (k + 1) i msg host (ground (arith, low, there, e))
  ]
]

-- The link of a packet: for a ping the one that it names, for any other one with the sender's address.
abbrev pub IsItsLink : Message → Payload → (ℕ → Link) → ℕ → Type 0
IsItsLink msg (Payload.ping p) link i = i ≡ p.link
IsItsLink msg (Payload.pong p) link i = is_from msg (link i) ≡ true
IsItsLink msg (Payload.pmtud p) link i = is_from msg (link i) ≡ true
IsItsLink msg (Payload.pmtud_reply p) link i = is_from msg (link i) ≡ true
IsItsLink msg (Payload.user_data h p) link i = is_from msg (link i) ≡ true
IsItsLink msg (Payload.unknown h) link i = is_from msg (link i) ≡ true

-- what an accepted link is
abbrev pub IsSource : ℕ → ParseEnv → Message → Payload → (ℕ → Link) → ℕ → Type 0
IsSource acl env msg q link i = (i < 8) × IsAllowed acl env (link i) × IsItsLink msg q link i

pub other_source-accepted :
    (knet_h : Handle) (env : ParseEnv) (msg : Message) (host : Host) (i : ℕ)
    → other_source knet_h env msg host ≡ Source.accepted i
    → (i < 8)
      × IsAllowed knet_h.use_access_lists env (host.link i)
      × (is_from msg (host.link i) ≡ true)
unfolding other_source
other_source-accepted knet_h env msg host i e = elim (Source-cases (find_link 8 0 msg host)) [
  | inl crash ↦ absurd (ground (arith, crash, e))
  | inr (inl gone) ↦ absurd (ground (arith, gone, e))
  | inr (inr (j, found)) ↦ elim (Bool-cases (check_rx_acl knet_h env (host.link j))) [
    | inr refused ↦ absurd (ground (arith, found, refused, e))
    | inl passed ↦
        let (lt, from) = find_link-accepted 8 0 j msg host found in
        let same : j ≡ i = ground (arith, found, passed, e) in
        subst
          (λ l.
            (l < 8)
            × IsAllowed knet_h.use_access_lists env (host.link l)
            × (is_from msg (host.link l) ≡ true))
          same (lt, acl-IsAllowed knet_h env (host.link j) passed, from)
  ]
]

pub ping_source-IsSource :
    (knet_h : Handle) (env : ParseEnv) (msg : Message) (p : PingPacket) (host : Host) (i : ℕ)
    → ping_source knet_h env p host ≡ Source.accepted i
    → IsSource knet_h.use_access_lists env msg (Payload.ping p) host.link i
unfolding ping_source
ping_source-IsSource knet_h env msg p host i e =
    elim (Bool-cases (truthy knet_h.onwire_ver_remap || p.header.kh_version == 1)) [
      | inr other ↦ absurd (ground (arith, other, e))
      | inl first ↦ elim (Bool-cases (leb 8 p.link)) [
        | inl past ↦ absurd (ground (arith, first, past, e))
        | inr low ↦ elim (Bool-cases (check_rx_acl knet_h env (host.link p.link))) [
          | inr refused ↦ absurd (ground (arith, first, low, refused, e))
          | inl passed ↦
              let same : p.link ≡ i = ground (arith, first, low, passed, e) in
              subst (IsSource knet_h.use_access_lists env msg (Payload.ping p) host.link) same
                (ground (arith, low), acl-IsAllowed knet_h env (host.link p.link) passed, refl)
        ]
      ]
    ]
