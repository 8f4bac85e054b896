-- ===== src/Send/Sync.antt =====
-- What a result of 0 from libknet/threads_tx.c:knet_send_sync means.
use kronosnet.Base.{
  ℕ, ◌≤◌, ◌≡◌, ◌≢◌, ◌⊎◌, ◌∙◌, inl, inr, refl, ap, subst, sym, Bool, true, false, length, some, List,
  [], ◌∷◌, map, arith, truthy, Bool-cases, Option-cases,
}
use kronosnet.State.{Host, Handle}
use kronosnet.Defrag.{Packet}
use kronosnet.Dests.{Filtered, is_local, DataDests, DestsResult, get_data_dests}
use kronosnet.Dests.Reachable.{
  length-filter, Passes, dests-Passes, find_dests-unicast, remote_ok, Someone, filter as only,
}
use kronosnet.Tx.{Dispatched, dispatch_to_links}
use kronosnet.Tx.Used.{SendEnd-cases, goes_on, network_links, IsUsed, dispatch_to_links-IsUsed}
use kronosnet.Heartbeat.Rounds.{Note}
use kronosnet.Send.{
  SendEnv, SockEnd, Sent, encrypt_bufs, prep_tx_bufs, send_hosts, send_numbered, take_seq_num,
  choose_dests, parse_recv_from_sock, SyncEnv, SyncEnd, send_sync, returns_zero,
}
use kronosnet.Send.Stages.{parse_recv_from_sock-Remote}
use kronosnet.Send.Transmits.{Encrypted-cases}

-- The messages went to no host, and `own` says that the node has a link to itself; or to one that `h` knows, on the links that its policy chooses of the
-- active ones; each of them took all messages, or gave an error that its transport ignores.
abbrev pub IsSentTo : SendEnv → Bool → ℕ → Handle → List (ℕ × Dispatched) → Type 0
IsSentTo env own n h calls =
    (calls ≡ []) × (own ≡ true)
    ⊎ (id : ℕ) × (host : Host) × (d : Dispatched) × (calls ≡ (id, d) ∷ [])
      × (h.host_index id ≡ some host)
      × IsUsed host (env.socket id) n (network_links host.active_link_entries 0 host) d

send_hosts-stopped :
    (env : SendEnv) (n id : ℕ) (h : Handle) (host : Host)
    → h.host_index id ≡ some host
    → (send_hosts env false n (id ∷ []) h).1 ≡ SockEnd.sent
    → let d = dispatch_to_links host (env.socket id) n in
      (goes_on d.end ≡ true) × ((send_hosts env false n (id ∷ []) h).2 ≡ (id, d) ∷ [])
unfolding send_hosts
send_hosts-stopped env n id h host known e =
    elim (SendEnd-cases (dispatch_to_links host (env.socket id) n).end) [
      | inl all ↦ (ap goes_on all, ground (arith, known, all))
      | inr (inl ignored) ↦ (ap goes_on ignored, ground (arith, known, ignored))
      | inr (inr (inl failed)) ↦ absurd (ground (arith, known, failed, e))
      | inr (inr (inr (inl again))) ↦ absurd (ground (arith, known, again, e))
      | inr (inr (inr (inr waiting))) ↦ absurd (ground (arith, known, waiting, e))
    ]

send_hosts-IsSentTo :
    (env : SendEnv) (own : Bool) (n : ℕ) (ids : List ℕ) (h : Handle)
    → length ids ≤ 1
    → (length ids ≡ 0 → own ≡ true)
    → (send_hosts env false n ids h).1 ≡ SockEnd.sent
    → IsSentTo env own n h (send_hosts env false n ids h).2
unfolding send_hosts
send_hosts-IsSentTo env own n [] h few alone e = inl (refl, alone refl)
send_hosts-IsSentTo env own n (id ∷ []) h few alone e = elim (Option-cases (h.host_index id)) [
  | inl gone ↦ absurd (ground (arith, gone, e))
  | inr (host, known) ↦
      let d = dispatch_to_links host (env.socket id) n in
      let (went, called) = send_hosts-stopped env n id h host known e in
      inr (id, host, d, called, known, dispatch_to_links-IsUsed host (env.socket id) n went)
]
send_hosts-IsSentTo env own n (id ∷ (id' ∷ ids)) h few alone e = absurd (omega (arith, few))

send_numbered-IsSentTo :
    (knet_h : Handle) (env : SendEnv) (ready : Packet) (compressed : Bool) (seq channel ver : ℕ)
    (d : DataDests) (notes : List Note) (own : Bool)
    → d.bcast ≡ 0
    → length d.dst_host_ids ≤ 1
    → (length d.dst_host_ids ≡ 0 → own ≡ true)
    → let out = send_numbered knet_h env ready compressed seq channel ver d notes in
      out.end ≡ SockEnd.sent → IsSentTo env own (length out.messages) knet_h out.calls
unfolding send_numbered
send_numbered-IsSentTo knet_h env ready compressed seq channel ver d notes own lone few alone e =
    elim (Option-cases (prep_tx_bufs knet_h ver ready.0 seq channel d.bcast compressed)) [
      | inl none_made ↦ absurd (ground (arith, none_made, e))
      | inr (msgs, made) ↦
          elim (Encrypted-cases (encrypt_bufs env.ops knet_h (map (env.encode ready) msgs))) [
            | inl crash ↦ absurd (ground (arith, made, crash, e))
            | inr (inl failed) ↦ absurd (ground (arith, made, failed, e))
            | inr (inr (out, finished)) ↦
                let walk = send_hosts env false (length out) d.dst_host_ids knet_h in
                let all = send_numbered knet_h env ready compressed seq channel ver d notes in
                let ends : all.end ≡ walk.1 = ground (arith, made, finished, lone) in
                let called : all.calls ≡ walk.2 = ground (arith, made, finished, lone) in
                let given : all.messages ≡ out = ground (arith, made, finished) in
                subst (λ calls. IsSentTo env own (length all.messages) knet_h calls) (sym called)
                  (subst (λ (ms : List (List ℕ)). IsSentTo env own (length ms) knet_h walk.2)
                    (sym given)
                    (send_hosts-IsSentTo env own (length out) d.dst_host_ids knet_h few alone
                      (sym ends ∙ e)))
          ]
    ]

local_only :
    (knet_h : Handle) (ids : List ℕ)
    → length ids ≤ 1
    → Someone knet_h ids true
    → length (only (remote_ok knet_h) ids) ≡ 0
    → truthy knet_h.has_loop_link ≡ true
unfolding is_local
local_only knet_h [] few someone away = ground (arith, someone)
local_only knet_h (id ∷ []) few someone away = elim (Option-cases (knet_h.host_index id)) [
  | inl gone ↦ ground (arith, gone, someone)
  | inr (host, known) ↦ ground (arith, known, someone, away)
]
local_only knet_h (id ∷ (id' ∷ ids)) few someone away = absurd (omega (arith, few))

choose_dests-lone :
    (knet_h : Handle) (env : SendEnv) (buf : Packet) (channel : ℕ)
    (filter : Packet → ℕ → Filtered × ℕ) (d : DataDests)
    → env.filter ≡ some filter
    → (choose_dests knet_h env buf channel true).0 ≡ DestsResult.dests d
    → (d.bcast ≡ 0)
      × (length d.dst_host_ids ≤ 1)
      × (length d.dst_host_ids ≡ 0 → truthy knet_h.has_loop_link ≡ true)
unfolding choose_dests Passes
choose_dests-lone knet_h env buf channel filter d given e =
    let f = (filter buf channel).0 in
    let asked : get_data_dests knet_h (some f) true ≡ DestsResult.dests d =
      ground (arith, given, e) in
    let (b, at, found, sync) = dests-Passes knet_h f true d asked in
    let (unicast, few) = sync refl in
    let finds = find_dests-unicast knet_h b f.dst_host_ids d unicast found in
    (
      finds.bcast,
      rw (finds.ids) (omega (arith, few, length-filter (remote_ok knet_h) f.dst_host_ids)),
      rw (finds.ids) (local_only knet_h f.dst_host_ids few finds.someone),
    )

parse_recv_from_sock-lone :
    (knet_h : Handle) (env : SendEnv) (buf : Packet) (channel ver : ℕ)
    (filter : Packet → ℕ → Filtered × ℕ)
    → env.filter ≡ some filter
    → (parse_recv_from_sock knet_h env buf channel ver true).end ≡ SockEnd.sent
    → let r = parse_recv_from_sock knet_h env buf channel ver true in
      IsSentTo env
        (truthy knet_h.has_loop_link)
        (length r.messages)
        (take_seq_num knet_h env).1
        r.calls
parse_recv_from_sock-lone knet_h env buf channel ver filter given e =
    let channel' = (choose_dests knet_h env buf channel true).1 in
    let (seq, counted, notes) = take_seq_num knet_h env in
    let (d, found, (ready, compressed, writes, made, last)) =
      parse_recv_from_sock-Remote knet_h env buf channel ver true e in
    let (lone, few, alone) = choose_dests-lone knet_h env buf channel filter d given found in
    subst
      (λ (x : Sent). IsSentTo env (truthy knet_h.has_loop_link) (length x.messages) counted x.calls)
      (sym last)
      (send_numbered-IsSentTo counted env ready compressed seq channel' ver d notes
        (truthy knet_h.has_loop_link) lone few alone (ap (λ (x : Sent). x.end) (sym last) ∙ e))

SyncEnd-cases :
    (x : SyncEnd)
    → ((errno : ℕ) × (x ≡ SyncEnd.refused errno))
      ⊎ (x ≡ SyncEnd.nothing_done)
      ⊎ (r : Sent) × (x ≡ SyncEnd.parsed r)
SyncEnd-cases (SyncEnd.refused errno) = inl (errno, refl)
SyncEnd-cases SyncEnd.nothing_done = inr (inl refl)
SyncEnd-cases (SyncEnd.parsed r) = inr (inr (r, refl))

returns_zero-refused : (errno : ℕ) → returns_zero (SyncEnd.refused errno) ≡ true → ⊥
unfolding returns_zero
returns_zero-refused errno zero = ground (arith, zero)

returns_zero-sent :
    (end : SockEnd) (r : Sent)
    → r.end ≡ end
    → returns_zero (SyncEnd.parsed r) ≡ true
    → end ≡ SockEnd.sent
unfolding returns_zero
returns_zero-sent (SockEnd.refused errno) r at zero = ground (arith, at, zero)
returns_zero-sent SockEnd.crashed r at zero = ground (arith, at, zero)
returns_zero-sent (SockEnd.local_stopped end) r at zero = ground (arith, at, zero)
returns_zero-sent SockEnd.not_compressed r at zero = ground (arith, at, zero)
returns_zero-sent (SockEnd.stopped end) r at zero = ground (arith, at, zero)
returns_zero-sent SockEnd.sent r at zero = refl

send_sync-parsed :
    (knet_h : Handle) (locks : SyncEnv) (env : SendEnv) (buff : Packet) (channel : ℕ) (r : Sent)
    → send_sync knet_h locks env buff channel ≡ SyncEnd.parsed r
    → (filter : Packet → ℕ → Filtered × ℕ) × (env.filter ≡ some filter)
      × (parse_recv_from_sock knet_h env buff channel knet_h.onwire_ver true ≡ r)
unfolding send_sync
send_sync-parsed knet_h locks env buff channel r e = elim (Option-cases env.filter) [
  | inl no_filter ↦ absurd (ground (arith, no_filter, e))
  | inr (filter, given) ↦ (filter, given, ground (arith, given, e))
]

send_sync-nothing_done :
    (knet_h : Handle) (locks : SyncEnv) (env : SendEnv) (buff : Packet) (channel : ℕ)
    → send_sync knet_h locks env buff channel ≡ SyncEnd.nothing_done
    → (locks.onwire_locked ≡ false)
      ⊎ (truthy knet_h.onwire_ver_remap ≡ false) × (knet_h.onwire_ver ≢ 1)
unfolding send_sync
send_sync-nothing_done knet_h locks env buff channel e = elim (Bool-cases locks.onwire_locked) [
  | inr free ↦ inl free
  | inl locked ↦ elim (Option-cases env.filter) [
    | inl no_filter ↦ absurd (ground (arith, no_filter, e))
    | inr (filter, given) ↦
        inr (ground (arith, locked, given, e), λ one. ground (arith, locked, given, one, e))
  ]
]

-- If the result is 0, then the packet was sent, to one host that the node knows, or to none, which only a node with a
-- link to itself does; of the host's active links, but for loopback ones, all were used, or the first if they take turns, and each took all
-- messages or gave an error that its transport ignores. Or nothing was done, because the mutex of the
-- on-wire version could not be taken or the version in use is not known.
pub send_sync_zero :
    (knet_h : Handle) (locks : SyncEnv) (env : SendEnv) (buff : Packet) (channel : ℕ)
    → returns_zero (send_sync knet_h locks env buff channel) ≡ true
    → ((r : Sent) × (send_sync knet_h locks env buff channel ≡ SyncEnd.parsed r)
        × (r.end ≡ SockEnd.sent)
        × IsSentTo env
            (truthy knet_h.has_loop_link)
            (length r.messages)
            (take_seq_num knet_h env).1
            r.calls)
      ⊎ (send_sync knet_h locks env buff channel ≡ SyncEnd.nothing_done)
        × ((locks.onwire_locked ≡ false)
            ⊎ (truthy knet_h.onwire_ver_remap ≡ false) × (knet_h.onwire_ver ≢ 1))
send_sync_zero knet_h locks env buff channel zero =
    elim (SyncEnd-cases (send_sync knet_h locks env buff channel)) [
      | inl (errno, refused) ↦
          absurd (returns_zero-refused errno (ap returns_zero (sym refused) ∙ zero))
      | inr (inl idle) ↦ inr (idle, send_sync-nothing_done knet_h locks env buff channel idle)
      | inr (inr (r, parsed)) ↦
          let (filter, given, same) = send_sync-parsed knet_h locks env buff channel r parsed in
          let finished = returns_zero-sent r.end r refl (ap returns_zero (sym parsed) ∙ zero) in
          let passed =
            parse_recv_from_sock-lone knet_h env buff channel knet_h.onwire_ver filter given
              (ap (λ (x : Sent). x.end) same ∙ finished) in
          inl (
            r,
            parsed,
            finished,
            subst
                (λ (x : Sent).
                  IsSentTo env (truthy knet_h.has_loop_link) (length x.messages)
                    (take_seq_num knet_h env).1 x.calls)
                same passed,
          )
    ]
