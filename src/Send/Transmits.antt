-- ===== src/Send/Transmits.antt =====
-- What libknet/threads_tx.c:_parse_recv_from_sock gives to the sockets, and what a receiver that has the
-- key reads from it (libknet/crypto.c, libknet/threads_rx.c:_decrypt_packet).
use kronosnet.Base.{
  ℕ, ◌<◌, ◌≡◌, ◌⊎◌, ◌∙◌, inl, inr, refl, ap, ap₂, Bool, true, false, ◌&&◌, ◌||◌, some, List, [],
  ◌∷◌, map, arith, ltb, truthy, Bool-cases, Option-cases, subst,
}
use kronosnet.State.{CryptoInstance, Handle}
use kronosnet.Defrag.{Packet}
use kronosnet.OnwireV1.{TxMsg}
use kronosnet.Dests.{DataDests}
use kronosnet.Crypto.{Ops, Crypted, is_loaded, encrypt_and_sign}
use kronosnet.Crypto.Keyed.{IsKeyed}
use kronosnet.Crypto.Rekey.{IsCipher, has_key, decrypt-encrypt}
use kronosnet.Heartbeat.Rounds.{Note, send_pings}
use kronosnet.Tx.{get_tx_seq_num}
use kronosnet.Rx.{decrypt_packet}
use kronosnet.Rx.Checked.{Crypted-cases}
use kronosnet.Send.{
  SendEnv, SockEnd, Sent, compress_data, prep_tx_bufs, Encrypted, encrypt_loop, encrypt_bufs,
  send_numbered, take_seq_num,
}

-- The receiver has a key of the sender's configuration.
pub record Opens (ops : Ops) (s r : Handle) : Type 0 where
  pub cipher : IsCipher ops
  pub keyed : IsKeyed r
  pub inst : CryptoInstance
  pub used : truthy s.crypto_in_use_config ≡ true
  pub known : s.crypto_instance s.crypto_in_use_config ≡ some inst
  pub has : (has_key r inst.key 1 || has_key r inst.key 2) ≡ true

pub Encrypted-cases :
    (c : Encrypted)
    → (c ≡ Encrypted.fault)
      ⊎ (c ≡ Encrypted.failed)
      ⊎ (ms : List (List ℕ)) × (c ≡ Encrypted.done ms)
Encrypted-cases Encrypted.fault = inl refl
Encrypted-cases Encrypted.failed = inr (inl refl)
Encrypted-cases (Encrypted.done ms) = inr (inr (ms, refl))

has_key-is_loaded :
    (r : Handle) (key : ℕ)
    → (has_key r key 1 || has_key r key 2) ≡ true
    → (is_loaded r 1 || is_loaded r 2) ≡ true
has_key-is_loaded r key has = elim (Option-cases (r.crypto_instance 1)) [
  | inl gone ↦ elim (Option-cases (r.crypto_instance 2)) [
    | inl gone' ↦ absurd (ground (arith, gone, gone', has))
    | inr (inst, there) ↦ ground (arith, gone, there)
  ]
  | inr (inst, there) ↦ ground (arith, there)
]

-- one message
decrypt_packet-encrypt :
    (ops : Ops) (s r : Handle) (m c : List ℕ)
    → Opens ops s r
    → encrypt_and_sign ops s m ≡ Crypted.done c
    → decrypt_packet ops r c ≡ Crypted.done m
unfolding decrypt_packet
decrypt_packet-encrypt ops s r m c o e =
    let opened = decrypt-encrypt ops s r o.inst m c o.cipher o.keyed o.known e in
    let loaded = has_key-is_loaded r o.inst.key o.has in ground (arith, opened, loaded, o.has)

-- all of them
encrypt_loop-Opens :
    (ops : Ops) (s r : Handle) (f : TxMsg → List ℕ) (msgs : List TxMsg) (out : List (List ℕ))
    → Opens ops s r
    → encrypt_loop ops s (map f msgs) ≡ Encrypted.done out
    → map (decrypt_packet ops r) out ≡ map (λ m. Crypted.done (f m)) msgs
unfolding encrypt_loop
encrypt_loop-Opens ops s r f [] out o e =
    let none_out : out ≡ [] = ground (arith, e) in ap (map (decrypt_packet ops r)) none_out
encrypt_loop-Opens ops s r f (m ∷ msgs) out o e =
    elim (Crypted-cases (encrypt_and_sign ops s (f m))) [
      | inl crash ↦ absurd (ground (arith, crash, e))
      | inr (inl failed) ↦ absurd (ground (arith, failed, e))
      | inr (inr (c, one)) ↦ elim (Encrypted-cases (encrypt_loop ops s (map f msgs))) [
        | inl crash ↦ absurd (ground (arith, one, crash, e))
        | inr (inl failed) ↦ absurd (ground (arith, one, failed, e))
        | inr (inr (cs, others)) ↦
            let all : out ≡ c ∷ cs = ground (arith, one, others, e) in
            ap (map (decrypt_packet ops r)) all
            ∙ ap₂ (λ x xs. x ∷ xs) (decrypt_packet-encrypt ops s r (f m) c o one)
                (encrypt_loop-Opens ops s r f msgs cs o others)
      ]
    ]

-- pings leave the configurations alone
send_pings-crypto :
    (knet_h : Handle) (env : SendEnv)
    → let sent = (send_pings knet_h 0 env.rounds env.pings_locked).0 in
      (sent.crypto_in_use_config ≡ knet_h.crypto_in_use_config)
      × (sent.crypto_instance ≡ knet_h.crypto_instance)
unfolding send_pings
send_pings-crypto knet_h env = elim (Bool-cases env.pings_locked) [
  | inl locked ↦ rw (locked) (refl, refl)
  | inr free ↦ rw (free) (refl, refl)
]

take_seq_num-crypto :
    (knet_h : Handle) (env : SendEnv)
    → let (seq, counted, notes) = take_seq_num knet_h env in
      (counted.crypto_in_use_config ≡ knet_h.crypto_in_use_config)
      × (counted.crypto_instance ≡ knet_h.crypto_instance)
unfolding take_seq_num get_tx_seq_num
take_seq_num-crypto knet_h env =
    let (seq, ping, counted) = get_tx_seq_num knet_h in
    elim (Bool-cases ping) [
      | inl due ↦ rw (due) (send_pings-crypto counted env)
      | inr early ↦ rw (early) (refl, refl)
    ]

pub take_seq_num-Opens :
    (knet_h r : Handle) (env : SendEnv)
    → Opens env.ops knet_h r
    → Opens env.ops (take_seq_num knet_h env).1 r
take_seq_num-Opens knet_h r env o =
    let (config, instances) = take_seq_num-crypto knet_h env in
    record {
      cipher = o.cipher;
      keyed = o.keyed;
      inst = o.inst;
      used = rw (config) o.used;
      known = rw (config, instances) o.known;
      has = o.has;
    }

-- The packet, or what the compression makes of it if that is shorter.
abbrev pub IsForm : SendEnv → Handle → Packet → Packet → Bool → Type 0
IsForm env knet_h buf ready compressed =
    (compressed ≡ false) × (ready ≡ buf)
    ⊎ (compressed ≡ true)
      × (env.compress knet_h.compress_model knet_h.compress_level buf ≡ some ready)
      × (ready.0 < buf.0)

-- The messages are the fragments `msgs` of `ready`, encrypted so that `r` can read them.
abbrev pub IsCut : SendEnv → Handle → Handle → ℕ → ℕ → Packet → Bool → List TxMsg → Sent → Type 0
IsCut env counted r seq onwire_ver ready compressed msgs out =
    ((channel : ℕ) × (bcast : ℕ) × (prep_tx_bufs counted onwire_ver ready.0 seq channel bcast
          compressed
        ≡ some msgs))
    × (map (decrypt_packet env.ops r) out.messages
        ≡ map (λ m. Crypted.done (env.encode ready m)) msgs)

pub send_numbered-IsCut :
    (knet_h r : Handle) (env : SendEnv) (ready : Packet) (compressed : Bool) (seq channel ver : ℕ)
    (d : DataDests) (notes : List Note)
    → Opens env.ops knet_h r
    → let out = send_numbered knet_h env ready compressed seq channel ver d notes in
      out.end ≡ SockEnd.sent
      → (msgs : List TxMsg) × IsCut env knet_h r seq ver ready compressed msgs out
unfolding send_numbered encrypt_bufs
send_numbered-IsCut knet_h r env ready compressed seq channel ver d notes o e =
    let prepared = prep_tx_bufs knet_h ver ready.0 seq channel d.bcast compressed in
    elim (Option-cases prepared) [
      | inl none_made ↦ absurd (ground (arith, none_made, e))
      | inr (msgs, made) ↦
          let encrypted = encrypt_loop env.ops knet_h (map (env.encode ready) msgs) in
          elim (Encrypted-cases encrypted) [
            | inl crash ↦ absurd (ground (arith, made, o.used, crash, e))
            | inr (inl failed) ↦ absurd (ground (arith, made, o.used, failed, e))
            | inr (inr (out, finished)) ↦
                let opened =
                  encrypt_loop-Opens env.ops knet_h r (env.encode ready) msgs out o finished in
                let given : (send_numbered knet_h env ready compressed seq channel ver d
                      notes).messages
                    ≡ out =
                  ground (arith, made, o.used, finished) in
                (
                  msgs,
                  ((channel, d.bcast, made), ap (map (decrypt_packet env.ops r)) given ∙ opened),
                )
          ]
    ]

pub compress_data-IsForm :
    (knet_h : Handle) (env : SendEnv) (buf ready : Packet) (compressed : Bool)
    → compress_data knet_h env buf ≡ some (ready, compressed)
    → IsForm env knet_h buf ready compressed
unfolding compress_data
compress_data-IsForm knet_h env buf ready compressed e =
    let tried = truthy knet_h.compress_model && ltb knet_h.compress_threshold buf.0 in
    elim (Bool-cases tried) [
      | inr skip ↦ inl (ground (arith, skip, e), ground (arith, skip, e))
      | inl try ↦
          elim (Option-cases (env.compress knet_h.compress_model knet_h.compress_level buf)) [
            | inl none_made ↦ absurd (ground (arith, try, none_made, e))
            | inr (out, made) ↦ elim (Bool-cases (ltb out.0 buf.0)) [
              | inl short ↦
                  let same : out ≡ ready = ground (arith, try, made, short, e) in
                  inr (
                    ground (arith, try, made, short, e),
                    made ∙ ap some same,
                    subst (λ (q : Packet). q.0 < buf.0) same (ground (arith, short)),
                  )
              | inr long ↦
                  inl (ground (arith, try, made, long, e), ground (arith, try, made, long, e))
            ]
          ]
    ]
