-- ===== src/Send/Readable.antt =====
-- A packet that libknet/threads_tx.c:_parse_recv_from_sock sends can be read by who has the key.
use kronosnet.Base.{ℕ, ◌≡◌, ◌∙◌, subst, ap, sym, Bool, List}
use kronosnet.State.{Handle}
use kronosnet.Defrag.{Packet}
use kronosnet.OnwireV1.{TxMsg}
use kronosnet.Send.{SendEnv, SockEnd, Sent, take_seq_num, choose_dests, parse_recv_from_sock}
use kronosnet.Send.Stages.{parse_recv_from_sock-Remote}
use kronosnet.Send.Transmits.{
  Opens, IsForm, IsCut, take_seq_num-Opens, send_numbered-IsCut, compress_data-IsForm,
}

abbrev pub IsReadable : SendEnv → Handle → Handle → Packet → ℕ → Sent → Type 0
IsReadable env knet_h r buf onwire_ver out =
    (ready : Packet) × (compressed : Bool) × (msgs : List TxMsg) × IsForm env knet_h buf ready
      compressed
    × IsCut env (take_seq_num knet_h env).1 r (take_seq_num knet_h env).0 onwire_ver ready
        compressed msgs out

-- If a packet could be sent, then what was given to the sockets are the fragments of the packet, or of
-- what the compression made of it if that is shorter, under the next sequence number; and a node that has
-- the key of the configuration in use decrypts each message to the fragment that it was made of.
pub parse_recv_from_sock-IsReadable :
    (knet_h r : Handle) (env : SendEnv) (buf : Packet) (channel onwire_ver : ℕ) (is_sync : Bool)
    → Opens env.ops knet_h r
    → (parse_recv_from_sock knet_h env buf channel onwire_ver is_sync).end ≡ SockEnd.sent
    → IsReadable env knet_h r buf onwire_ver
        (parse_recv_from_sock knet_h env buf channel onwire_ver is_sync)
parse_recv_from_sock-IsReadable knet_h r env buf channel ver is_sync o e =
    let channel' = (choose_dests knet_h env buf channel is_sync).1 in
    let (seq, counted, notes) = take_seq_num knet_h env in
    let (d, found, (ready, compressed, writes, made, last)) =
      parse_recv_from_sock-Remote knet_h env buf channel ver is_sync e in
    let (msgs, cut) =
      send_numbered-IsCut counted r env ready compressed seq channel' ver d notes
        (take_seq_num-Opens knet_h r env o) (ap (λ (x : Sent). x.end) (sym last) ∙ e) in
    subst (IsReadable env knet_h r buf ver) (sym last)
      (ready, compressed, msgs, compress_data-IsForm knet_h env buf ready compressed made, cut)
