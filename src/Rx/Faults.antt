-- ===== src/Rx/Faults.antt =====
-- Which packets lead outside an array (libknet/threads_rx.c:_parse_recv_from_links, libknet/onwire_v1.c:
-- get_link_from_pong_v1).
use kronosnet.Base.{◌≤◌, ◌≡◌, ◌⊎◌, true, ltb}
use kronosnet.OnwireV1.{Header, PingPacket}
use kronosnet.Delivery.{DataPacket, RxEnv}
use kronosnet.Delivery.Bounds.{IsOffChannel}
use kronosnet.Rx.{Payload}

-- data for a channel without an entry in sockfd, or for a filter, or a fragment
abbrev pub IsOverrun : RxEnv → Payload → Type 0
IsOverrun env q =
    (h : Header) × (p : DataPacket) × (q ≡ Payload.user_data h p)
    × ((ltb 1 p.body.frags ≡ true) ⊎ IsOffChannel env p.channel)

-- a ping for a link that does not exist
abbrev pub IsAstray : Payload → Type 0
IsAstray q = (p : PingPacket) × (q ≡ Payload.ping p) × (8 ≤ p.link)

abbrev data_of : DataPacket → Payload → DataPacket
data_of d (Payload.ping p) = d
data_of d (Payload.pong p) = d
data_of d (Payload.pmtud p) = d
data_of d (Payload.pmtud_reply p) = d
data_of d (Payload.user_data h p) = p
data_of d (Payload.unknown h) = d
