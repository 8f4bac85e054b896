-- ===== src/Tx/Tests.antt =====
-- The theorems on sending at concrete inputs, and runs of the code.
use kronosnet.Base.{
  ℕ, ◌≡◌, ◌≢◌, ◌≤◌, ◌⊎◌, refl, true, none, some, List, [], ◌∷◌, ◌==◌, if◌then◌else◌, arith,
}
use kronosnet.State.{Host}
use kronosnet.Samples.{new_host}
use kronosnet.Tx.{send_msgs, Answer, SockError, SendEnd}
use kronosnet.Tx.Sending.{Tiles, send_msgs-Tiles, send_msgs_ends}
use kronosnet.Tx.RoundRobin.{Ring, Takes, send_packets, send_packets-Ring}

-- the socket takes `k` messages
abbrev takes : ℕ → Answer
takes k = record { sent_msgs = some k; verdict = SockError.ignore }

-- the transport asks to try again
abbrev again_later : Answer
again_later = record { sent_msgs = none; verdict = SockError.retry }

abbrev answers : List Answer
answers = takes 2 ∷ takes 0 ∷ takes 1 ∷ takes 0 ∷ takes 0 ∷ takes 0 ∷ takes 0 ∷ takes 0 ∷ []

send_msgs-Tiles_example :
    let (end, chunks) = send_msgs answers 0 true 3 in
    (b : ℕ) × Tiles chunks 0 b × ((end ≢ SendEnd.sent_all) ⊎ (3 ≤ b))
send_msgs-Tiles_example = send_msgs-Tiles answers 3

-- with two more answers that ask to try again
abbrev slow_answers : List Answer
slow_answers =
    again_later
    ∷ takes 2
    ∷ again_later
    ∷ takes 0
    ∷ takes 0
    ∷ takes 0
    ∷ takes 0
    ∷ takes 0
    ∷ takes 0
    ∷ takes 0
    ∷ []

send_msgs_ends_example : (send_msgs slow_answers 0 true 3).0 ≢ SendEnd.waiting
send_msgs_ends_example = send_msgs_ends slow_answers 3 (omega arith)

send_msgs_run :
    ((send_msgs answers 0 true 3).0 ≡ SendEnd.sent_all)
    × ((send_msgs answers 0 true 4).0 ≡ SendEnd.again)
unfolding send_msgs
send_msgs_run = (refl, refl)

-- the active links 3, 1 and 6
abbrev rr_host : Host
rr_host = record new_host {
  link_handler_policy = 2;
  active_link_entries = 3;
  active_links = λ i. if i == 0 then 3 else (if i == 1 then 1 else 6);
}

rr_host-Ring : Ring rr_host (3 ∷ 1 ∷ 6 ∷ [])
rr_host-Ring = record {
  policy = refl;
  count = refl;
  several = omega arith;
  fits = omega arith;
  order = (refl, (refl, (refl, tt)));
  remote = (omega arith, (omega arith, (omega arith, tt)));
}

abbrev socket : ℕ → List Answer
socket l = takes 2 ∷ []

socket-Takes : Takes 2 socket
unfolding send_msgs
socket-Takes l = refl

send_packets-Ring_example :
    let (used, host) = send_packets (socket ∷ socket ∷ socket ∷ []) 2 rr_host in
    (used ≡ 3 ∷ 1 ∷ 6 ∷ []) × Ring host (3 ∷ 1 ∷ 6 ∷ [])
send_packets-Ring_example =
    send_packets-Ring (3 ∷ 1 ∷ 6 ∷ []) (socket ∷ socket ∷ socket ∷ []) 2 rr_host rr_host-Ring refl
      (socket-Takes, (socket-Takes, (socket-Takes, tt)))
