-- ===== src/Tx/Sending.antt =====
-- How the messages of a packet reach the socket of one link (libknet/threads_tx.c:_dispatch_to_links).
use kronosnet.Base.{
  ◌⊎◌, inl, inr, ℕ, suc, ◌+◌, ◌*◌, ◌-◌, ◌≡◌, ◌≢◌, ◌≤◌, refl, Bool, true, Option, none, some, List,
  [], ◌∷◌, arith, ltb, Bool-cases, if◌then◌else◌, truthy, ◌||◌,
}
use kronosnet.Tx.{Answer, SockError, SendEnd, Chunk, send_msgs}

-- The chunks follow each other from message `a` up to message `b`.
abbrev pub Tiles : List Chunk → ℕ → ℕ → Type 0
Tiles [] a b = a ≡ b
Tiles (c ∷ rest) a b = (c.start ≡ a) × Tiles rest (a + c.count) b

-- an answer that is no request to try again, and no error
abbrev pub IsCount : Answer → Type 0
IsCount a = (a.verdict ≡ SockError.ignore) × ((k : ℕ) × (a.sent_msgs ≡ some k))

-- the branches on an answer
data Verdict (a : Answer) : Type 0 where
  counts : (k : ℕ) → a.verdict ≡ SockError.ignore → a.sent_msgs ≡ some k → Verdict a
  ignores : a.verdict ≡ SockError.ignore → a.sent_msgs ≡ none → Verdict a
  fails : a.verdict ≡ SockError.internal → Verdict a
  retries : a.verdict ≡ SockError.retry → Verdict a

Verdict-cases : (a : Answer) → Verdict a
Verdict-cases a = by_verdict a.verdict refl
  where
    by_count : a.verdict ≡ SockError.ignore → (o : Option ℕ) → a.sent_msgs ≡ o → Verdict a
    by_count v none s = Verdict.ignores v s
    by_count v (some k) s = Verdict.counts k v s

    by_verdict : (v : SockError) → a.verdict ≡ v → Verdict a
    by_verdict SockError.internal v = Verdict.fails v
    by_verdict SockError.ignore v = by_count v a.sent_msgs refl
    by_verdict SockError.retry v = Verdict.retries v

-- What the loop returns when the socket took `k` messages, from what it returns for the others.
abbrev counted : ℕ → ℕ → Bool → ℕ → SendEnd × List Chunk → SendEnd × List Chunk
counted k prev progress total rest =
    let chunk : Chunk = record { start = prev; count = k } in
    if ltb (prev + k) total
    then (if truthy k || progress then (rest.0, chunk ∷ rest.1) else (SendEnd.again, chunk ∷ []))
    else (SendEnd.sent_all, chunk ∷ [])

-- The chunks `run` gives for messages from `prev` on, and that all are sent if it ends well.
abbrev Covers : ℕ → ℕ → SendEnd × List Chunk → Type 0
Covers prev total run = (b : ℕ) × Tiles run.1 prev b × (run.0 ≡ SendEnd.sent_all → total ≤ b)

counted-Covers :
    (k prev : ℕ) (progress : Bool) (total : ℕ) (rest : SendEnd × List Chunk)
    → Covers (prev + k) total rest
    → Covers prev total (counted k prev progress total rest)
counted-Covers k prev progress total rest (b, tiles, all) =
    elim (Bool-cases (ltb (prev + k) total)) [
      | inl less ↦ elim (Bool-cases (truthy k || progress)) [
        | inl go ↦ rw (less, go) (b, (refl, tiles), all)
        | inr stop ↦ rw (less, stop) (prev + k, (refl, refl), λ e. cc)
      ]
      | inr done ↦ rw done (prev + k, (refl, refl), λ e. ground arith)
    ]

-- Whatever the socket answers, the messages are passed to it in order and without gaps from the
-- first one on; and when the loop ends well, up to the last one.
send_msgs-Covers :
    (answers : List Answer) (prev : ℕ) (progress : Bool) (total : ℕ)
    → Covers prev total (send_msgs answers prev progress total)
unfolding send_msgs
send_msgs-Covers [] prev progress total = (prev, refl, λ e. cc)
send_msgs-Covers (a ∷ answers) prev progress total = elim (Verdict-cases a) [
  | Verdict.counts k v s ↦
      rw (v, s)
        (counted-Covers k prev progress total (send_msgs answers (prev + k) (truthy k) total)
          (send_msgs-Covers answers (prev + k) (truthy k) total))
  | Verdict.ignores v s ↦ rw (v, s) (prev, refl, λ e. cc)
  | Verdict.fails v ↦ rw v (prev, refl, λ e. cc)
  | Verdict.retries v ↦ rw v (send_msgs-Covers answers prev progress total)
]

-- the answers that do not ask for the same call again
abbrev pub settled : List Answer → ℕ
settled [] = 0
settled (a ∷ answers) = elim a.verdict [
  | SockError.internal ↦ suc (settled answers)
  | SockError.ignore ↦ suc (settled answers)
  | SockError.retry ↦ settled answers
]

-- The number of those after which the loop has ended: a call that makes no progress is repeated once.
abbrev pub budget : ℕ → ℕ → Bool → ℕ
budget prev total progress = (total - prev) * 2 + (if progress then 2 else 1)

counted_ends :
    (k prev n : ℕ) (progress : Bool) (total : ℕ) (rest : SendEnd × List Chunk)
    → budget prev total progress ≤ suc n
    → (budget (prev + k) total (truthy k) ≤ n → rest.0 ≢ SendEnd.waiting)
    → (counted k prev progress total rest).0 ≢ SendEnd.waiting
counted_ends k prev n progress total rest enough ends = elim (Bool-cases (ltb (prev + k) total)) [
  | inl less ↦ elim (Bool-cases (truthy k || progress)) [
    | inl go ↦ rw (less, go) (ends (ground arith))
    | inr stop ↦ rw (less, stop) (λ e. cc)
  ]
  | inr done ↦ rw done (λ e. cc)
]

send_msgs_ends_from :
    (answers : List Answer) (prev : ℕ) (progress : Bool) (total : ℕ)
    → budget prev total progress ≤ settled answers
    → (send_msgs answers prev progress total).0 ≢ SendEnd.waiting
unfolding send_msgs
send_msgs_ends_from [] prev progress total enough = ground arith
send_msgs_ends_from (a ∷ answers) prev progress total enough = elim (Verdict-cases a) [
  | Verdict.counts k v s ↦
      rw (v, s)
        (counted_ends k prev (settled answers) progress total
          (send_msgs answers (prev + k) (truthy k) total) (ground (arith, v, enough))
          (send_msgs_ends_from answers (prev + k) (truthy k) total))
  | Verdict.ignores v s ↦ rw (v, s) (λ e. cc)
  | Verdict.fails v ↦ rw v (λ e. cc)
  | Verdict.retries v ↦
      rw v (send_msgs_ends_from answers prev progress total (ground (arith, v, enough)))
]

-- Whatever the socket answers, the messages of a packet are passed to it in order and without gaps
-- from the first one on, and up to the last one if the loop ends well.
pub send_msgs-Tiles :
    (answers : List Answer) (total : ℕ)
    → let (end, chunks) = send_msgs answers 0 true total in
      (b : ℕ) × Tiles chunks 0 b × ((end ≢ SendEnd.sent_all) ⊎ (total ≤ b))
send_msgs-Tiles answers total =
    let (b, tiles, all) = send_msgs-Covers answers 0 true total in
    (b, tiles, by_end (send_msgs answers 0 true total).0 b all)
  where
    by_end :
        (end : SendEnd) (b : ℕ)
        → (end ≡ SendEnd.sent_all → total ≤ b)
        → (end ≢ SendEnd.sent_all) ⊎ (total ≤ b)
    by_end SendEnd.sent_all b h = inr (h refl)
    by_end SendEnd.ignored b h = inl (λ e. cc)
    by_end SendEnd.failed b h = inl (λ e. cc)
    by_end SendEnd.again b h = inl (λ e. cc)
    by_end SendEnd.waiting b h = inl (λ e. cc)

-- Not counting the answers on which the transport asks for the same call again, of which there may be any
-- number at any time, the loop has ended after two answers for each message and two more.
pub send_msgs_ends :
    (answers : List Answer) (total : ℕ)
    → total * 2 + 2 ≤ settled answers
    → (send_msgs answers 0 true total).0 ≢ SendEnd.waiting
send_msgs_ends answers total enough = send_msgs_ends_from answers 0 true total (omega arith)
