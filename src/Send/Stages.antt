-- ===== src/Send/Stages.antt =====
-- The stages of libknet/threads_tx.c:_parse_recv_from_sock that a packet has passed when it is sent.
use kronosnet.Base.{
  ℕ, ◌≡◌, ◌⊎◌, ◌∙◌, inl, inr, refl, ap, sym, Bool, ◌||◌, some, List, arith, ltb, ◌==◌, truthy,
  Bool-cases, Option-cases,
}
use kronosnet.State.{Handle}
use kronosnet.Defrag.{Packet}
use kronosnet.Dests.{DataDests, DestsResult}
use kronosnet.Delivery.{WriteEnd, Write}
use kronosnet.HandleApi.{datafd_max}
use kronosnet.Send.{
  SendEnv, SockEnd, Sent, compress_data, take_seq_num, send_numbered, send_remote, send_to,
  dispatch_to_local, choose_dests, parse_recv_from_sock,
}

WriteEnd-cases :
    (x : WriteEnd) → (x ≡ WriteEnd.failed) ⊎ (x ≡ WriteEnd.waiting) ⊎ (x ≡ WriteEnd.written)
WriteEnd-cases WriteEnd.failed = inl refl
WriteEnd-cases WriteEnd.waiting = inr (inl refl)
WriteEnd-cases WriteEnd.written = inr (inr refl)

DestsResult-cases :
    (x : DestsResult)
    → ((errno : ℕ) × (x ≡ DestsResult.error errno)) ⊎ (d : DataDests) × (x ≡ DestsResult.dests d)
DestsResult-cases (DestsResult.error errno) = inl (errno, refl)
DestsResult-cases (DestsResult.dests d) = inr (d, refl)

-- The last stage, with what was written locally.
abbrev pub numbered : Handle → SendEnv → ℕ → Packet → Bool → ℕ → DataDests → List Write → Sent
numbered knet_h env onwire_ver ready compressed channel d writes =
    let (seq, counted, notes) = take_seq_num knet_h env in
    record (send_numbered counted env ready compressed seq channel onwire_ver d notes) {
      writes = writes;
    }

abbrev pub Remote : Handle → SendEnv → Packet → ℕ → ℕ → DataDests → Sent → Type 0
Remote knet_h env buf channel onwire_ver d out =
    (ready : Packet) × (compressed : Bool) × (writes : List Write) × (compress_data knet_h env buf
      ≡ some (ready, compressed))
    × (out ≡ numbered knet_h env onwire_ver ready compressed channel d writes)

send_remote-Remote :
    (knet_h : Handle) (env : SendEnv) (buf : Packet) (channel ver : ℕ) (d : DataDests)
    → (send_remote knet_h env buf channel ver d).end ≡ SockEnd.sent
    → Remote knet_h env buf channel ver d (send_remote knet_h env buf channel ver d)
unfolding send_remote
send_remote-Remote knet_h env buf channel ver d e =
    let (seq, counted, notes) = take_seq_num knet_h env in
    elim (Option-cases (compress_data knet_h env buf)) [
      | inl not_made ↦ absurd (ground (arith, not_made, e))
      | inr ((ready, compressed), made) ↦ elim (Bool-cases (truthy env.seq_locked)) [
        | inl locked ↦ absurd (ground (arith, made, locked, e))
        | inr free ↦
            let last = send_numbered counted env ready compressed seq channel ver d notes in
            (ready, compressed, last.writes, made, ground (arith, made, free))
      ]
    ]

send_to-Remote :
    (knet_h : Handle) (env : SendEnv) (buf : Packet) (channel ver : ℕ) (d : DataDests)
    → (send_to knet_h env buf channel ver d).end ≡ SockEnd.sent
    → Remote knet_h env buf channel ver d (send_to knet_h env buf channel ver d)
unfolding send_to
send_to-Remote knet_h env buf channel ver d e = elim (Bool-cases (truthy d.send_local)) [
  | inr away ↦
      let same : send_to knet_h env buf channel ver d ≡ send_remote knet_h env buf channel ver d =
        ground (arith, away) in
      let (ready, compressed, writes, made, last) =
        send_remote-Remote knet_h env buf channel ver d (ap (λ (x : Sent). x.end) (sym same) ∙ e) in
      (ready, compressed, writes, made, same ∙ last)
  | inl at_home ↦ elim (Bool-cases (ltb datafd_max channel)) [
    | inl high ↦ absurd (ground (arith, at_home, high, e))
    | inr low ↦
        let (end, answered) = dispatch_to_local env buf.0 in
        elim (WriteEnd-cases end) [
          | inl failed ↦ absurd (ground (arith, at_home, low, failed, e))
          | inr (inl waiting) ↦ absurd (ground (arith, at_home, low, waiting, e))
          | inr (inr written) ↦
              let same : send_to knet_h env buf channel ver d
                  ≡ record (send_remote knet_h env buf channel ver d) { writes = answered } =
                ground (arith, at_home, low, written) in
              let (ready, compressed, writes, made, last) =
                send_remote-Remote knet_h env buf channel ver d
                  (ap (λ (x : Sent). x.end) (sym same) ∙ e) in
              (
                ready,
                compressed,
                answered,
                made,
                same ∙ ap (λ (x : Sent). record x { writes = answered }) last,
              )
        ]
  ]
]

-- A packet that was sent had destinations, was compressed if that was asked for, and came to the last
-- stage, which is all that its end depends on.
pub parse_recv_from_sock-Remote :
    (knet_h : Handle) (env : SendEnv) (buf : Packet) (channel onwire_ver : ℕ) (is_sync : Bool)
    → let out = parse_recv_from_sock knet_h env buf channel onwire_ver is_sync in
      let (chosen, channel') = choose_dests knet_h env buf channel is_sync in
      out.end ≡ SockEnd.sent
      → (d : DataDests) × (chosen ≡ DestsResult.dests d)
        × Remote knet_h env buf channel' onwire_ver d out
unfolding parse_recv_from_sock
parse_recv_from_sock-Remote knet_h env buf channel ver is_sync e =
    let (chosen, channel') = choose_dests knet_h env buf channel is_sync in
    elim (Bool-cases (knet_h.enabled == 1)) [
      | inr disabled ↦ absurd (ground (arith, disabled, e))
      | inl enabled ↦ elim (Bool-cases (truthy knet_h.onwire_ver_remap || ver == 1)) [
        | inr other ↦ absurd (ground (arith, enabled, other, e))
        | inl known ↦ elim (DestsResult-cases chosen) [
          | inl (errno, refused) ↦ absurd (ground (arith, enabled, known, refused, e))
          | inr (d, found) ↦
              let same : parse_recv_from_sock knet_h env buf channel ver is_sync
                  ≡ send_to knet_h env buf channel' ver d =
                ground (arith, enabled, known, found) in
              let (ready, compressed, writes, made, last) =
                send_to-Remote knet_h env buf channel' ver d
                  (ap (λ (x : Sent). x.end) (sym same) ∙ e) in
              (d, found, (ready, compressed, writes, made, same ∙ last))
        ]
      ]
    ]
