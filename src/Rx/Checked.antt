-- ===== src/Rx/Checked.antt =====
-- Which packets are handled, and what the others change (libknet/threads_rx.c:_parse_recv_from_links).
use kronosnet.Base.{
  ℕ, ◌≡◌, ◌⊎◌, inl, inr, refl, sym, ap, ◌∙◌, true, false, Option, some, List, length, arith, ◌==◌,
  Bool-cases, Option-cases,
}
use kronosnet.State.{Host, Handle}
use kronosnet.Crypto.{Ops, Crypted, authenticate_and_decrypt}
use kronosnet.Delivery.{Outcome}
use kronosnet.Rx.{
  header_of, store_max_ver, Message, ParseEnv, decrypt_packet, max_ver, packet_checks, ParseEnd,
  Parsed, parse_from, parse_clear, parse_recv_from_links,
}
use kronosnet.Rx.Sources.{IsSource}
use kronosnet.Rx.Accepted.{
  handling_on, parse_from-IsSource, store_max_ver-node, store_max_ver-IsItsLink,
}

pub Crypted-cases :
    (c : Crypted)
    → (c ≡ Crypted.fault) ⊎ (c ≡ Crypted.failed) ⊎ ((out : List ℕ) × (c ≡ Crypted.done out))
Crypted-cases Crypted.fault = inl refl
Crypted-cases Crypted.failed = inr (inl refl)
Crypted-cases (Crypted.done out) = inr (inr (out, refl))

decrypt_packet-only :
    (ops : Ops) (knet_h : Handle) (buf out : List ℕ)
    → decrypt_packet ops knet_h buf ≡ Crypted.done out
    → ((knet_h.crypto_only == 1) ≡ false)
      ⊎ (authenticate_and_decrypt ops knet_h buf ≡ Crypted.done out)
unfolding decrypt_packet
decrypt_packet-only ops knet_h buf out e = elim (Bool-cases (knet_h.crypto_only == 1)) [
  | inr clear ↦ inl clear
  | inl only ↦ elim (Crypted-cases (authenticate_and_decrypt ops knet_h buf)) [
    | inl crash ↦ absurd (ground (arith, only, crash, e))
    | inr (inl failed) ↦ absurd (ground (arith, only, failed, e))
    | inr (inr (out', opened)) ↦ inr (ground (arith, only, opened, e))
  ]
]

-- what is known of a packet that is handled
abbrev pub IsChecked : Handle → ParseEnv → Message → List ℕ → Host → ℕ → Type 0
IsChecked knet_h env msg inbuf host i =
    let p = env.view inbuf in
    let h = header_of p in
    (decrypt_packet env.ops knet_h msg.bytes ≡ Crypted.done inbuf)
    × (((knet_h.crypto_only == 1) ≡ false)
        ⊎ (authenticate_and_decrypt env.ops knet_h msg.bytes ≡ Crypted.done inbuf))
    × (packet_checks knet_h h (length inbuf) ≡ true)
    × (knet_h.host_index h.kh_node ≡ some host)
    × IsSource knet_h.use_access_lists env msg p host.link i
    × (parse_recv_from_links knet_h env msg
        ≡ handling_on knet_h env msg host (length inbuf) (store_max_ver (max_ver h) p) i)

parse_clear-checked :
    (knet_h : Handle) (env : ParseEnv) (msg : Message) (inbuf : List ℕ) (o : Option Outcome)
    → let p = env.view inbuf in
      let h = header_of p in
      (parse_clear knet_h env msg inbuf).end ≡ ParseEnd.handled o
      → (host : Host) × (i : ℕ) × (packet_checks knet_h h (length inbuf) ≡ true)
        × (knet_h.host_index h.kh_node ≡ some host)
        × IsSource knet_h.use_access_lists env msg p host.link i
        × (parse_clear knet_h env msg inbuf
            ≡ handling_on knet_h env msg host (length inbuf) (store_max_ver (max_ver h) p) i)
unfolding parse_clear
parse_clear-checked knet_h env msg inbuf o e =
    let p = env.view inbuf in
    let h = header_of p in
    let v = max_ver h in
    elim (Bool-cases (packet_checks knet_h h (length inbuf))) [
      | inr odd ↦ absurd (ground (arith, odd, e))
      | inl passed ↦ elim (Option-cases (knet_h.host_index h.kh_node)) [
        | inl gone ↦ absurd (ground (arith, passed, gone, e))
        | inr (host, known) ↦
            let same : parse_clear knet_h env msg inbuf
                ≡ parse_from knet_h env msg host (length inbuf) (store_max_ver v p) =
              ground (arith, passed, known) in
            let (i, (lt, allowed, its), on) =
              parse_from-IsSource knet_h env msg host (length inbuf) (store_max_ver v p) o
                (ap knet_h.host_index (store_max_ver-node v p) ∙ known)
                (ap (λ (r : Parsed). r.end) (sym same) ∙ e) in
            let source : IsSource knet_h.use_access_lists env msg p host.link i =
              (lt, allowed, store_max_ver-IsItsLink v msg p host.link i its) in
            (host, i, passed, known, source, same ∙ on)
      ]
    ]

-- A packet is handled only if it could be decrypted, or is read as it came and clear traffic is not
-- forbidden; its length and versions pass the checks; its host is known; and the link that it is handled
-- on, one of the eight, is allowed by the access lists. That is the link which a ping names, and for any
-- other packet one that has the sender's address. All that happens is the handling of its type on this
-- link of this host, for a ping after its versions and the address of a dynamic link are noted.
pub parse_recv_from_links-IsChecked :
    (knet_h : Handle) (env : ParseEnv) (msg : Message) (o : Option Outcome)
    → (parse_recv_from_links knet_h env msg).end ≡ ParseEnd.handled o
    → (inbuf : List ℕ) × (host : Host) × (i : ℕ) × IsChecked knet_h env msg inbuf host i
unfolding parse_recv_from_links
parse_recv_from_links-IsChecked knet_h env msg o e =
    elim (Crypted-cases (decrypt_packet env.ops knet_h msg.bytes)) [
      | inl crash ↦ absurd (ground (arith, crash, e))
      | inr (inl failed) ↦ absurd (ground (arith, failed, e))
      | inr (inr (inbuf, opened)) ↦
          let same : parse_recv_from_links knet_h env msg ≡ parse_clear knet_h env msg inbuf =
            ground (arith, opened) in
          let (host, i, passed, known, source, on) =
            parse_clear-checked knet_h env msg inbuf o
              (ap (λ (r : Parsed). r.end) (sym same) ∙ e) in
          let clear = decrypt_packet-only env.ops knet_h msg.bytes inbuf opened in
          (inbuf, host, i, (opened, clear, passed, known, source, same ∙ on))
    ]
