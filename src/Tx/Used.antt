-- ===== src/Tx/Used.antt =====
-- How sending ended on each link that was used (libknet/threads_tx.c:_dispatch_to_links).
use kronosnet.Base.{
  ℕ, zero, suc, ◌+◌, ◌≡◌, ◌⊎◌, inl, inr, refl, ap, Bool, true, false, ◌&&◌, List, [], ◌∷◌, arith,
  ltb, ◌==◌, if◌then◌else◌, All, Bool-cases,
}
use kronosnet.State.{Host}
use kronosnet.DstCache.{policy_rr}
use kronosnet.Tx.{
  Answer, SendEnd, Dispatched, send_msgs, rotate, transport_loopback, use_link, dispatch_loop,
  dispatch_to_links,
}

pub SendEnd-cases :
    (x : SendEnd)
    → (x ≡ SendEnd.sent_all)
      ⊎ (x ≡ SendEnd.ignored)
      ⊎ (x ≡ SendEnd.failed)
      ⊎ (x ≡ SendEnd.again)
      ⊎ (x ≡ SendEnd.waiting)
SendEnd-cases SendEnd.sent_all = inl refl
SendEnd-cases SendEnd.ignored = inr (inl refl)
SendEnd-cases SendEnd.failed = inr (inr (inl refl))
SendEnd-cases SendEnd.again = inr (inr (inr (inl refl)))
SendEnd-cases SendEnd.waiting = inr (inr (inr (inr refl)))

-- The link's socket took all messages, or gave an error that its transport ignores.
abbrev pub EndsWell : (ℕ → List Answer) → ℕ → ℕ → Type 0
EndsWell socket n l =
    ((send_msgs (socket l) 0 true n).0 ≡ SendEnd.sent_all)
    ⊎ ((send_msgs (socket l) 0 true n).0 ≡ SendEnd.ignored)

-- what is sent to a host if all goes well
abbrev over : Host → ℕ → Dispatched → Dispatched
over host l rest =
    if host.link_handler_policy == policy_rr && ltb 1 host.active_link_entries
    then record { end = SendEnd.sent_all; dst_host = rotate host; used = l ∷ [] }
    else use_link l rest

-- sending did not stop
abbrev pub goes_on : SendEnd → Bool
goes_on SendEnd.sent_all = true
goes_on SendEnd.ignored = true
goes_on SendEnd.failed = false
goes_on SendEnd.again = false
goes_on SendEnd.waiting = false

-- the active links from `i` on, `m` of them, but for those of the loopback transport
abbrev pub network_links : ℕ → ℕ → Host → List ℕ
network_links zero i host = []
network_links (suc m) i host =
    if (host.link (host.active_links i)).transport == transport_loopback
    then network_links m (i + 1) host
    else host.active_links i ∷ network_links m (i + 1) host

abbrev first_of : List ℕ → List ℕ
first_of [] = []
first_of (l ∷ ls) = l ∷ []

-- whether the links take turns
abbrev by_turns : Host → Bool
by_turns host = host.link_handler_policy == policy_rr && ltb 1 host.active_link_entries

-- the links that the policy chooses
abbrev pub chosen : Host → List ℕ → List ℕ
chosen host links = if by_turns host then first_of links else links

-- `d` used the chosen ones of `links`, and each with success.
abbrev pub IsUsed : Host → (ℕ → List Answer) → ℕ → List ℕ → Dispatched → Type 0
IsUsed host socket n links d = (d.used ≡ chosen host links) × All (EndsWell socket n) d.used

over-IsUsed :
    (host : Host) (socket : ℕ → List Answer) (n l : ℕ) (links : List ℕ) (rest : Dispatched)
    → EndsWell socket n l
    → (goes_on rest.end ≡ true → IsUsed host socket n links rest)
    → goes_on (over host l rest).end ≡ true
    → IsUsed host socket n (l ∷ links) (over host l rest)
over-IsUsed host socket n l links rest well others e = elim (Bool-cases (by_turns host)) [
  | inl turn ↦ rw (turn) (refl, (well, tt))
  | inr all ↦
      let (same, passed) = others (rw (all) at e) in
      rw (all) (ap (λ ls. l ∷ ls) (rw (all) at same), (well, passed))
]

dispatch_loop-IsUsed :
    (m i : ℕ) (host : Host) (socket : ℕ → List Answer) (n : ℕ)
    → goes_on (dispatch_loop m i host socket n).end ≡ true
    → IsUsed host socket n (network_links m i host) (dispatch_loop m i host socket n)
unfolding dispatch_loop
dispatch_loop-IsUsed zero i host socket n e = elim (Bool-cases (by_turns host)) [
  | inl turn ↦ rw (turn) (refl, tt)
  | inr all ↦ rw (all) (refl, tt)
]
dispatch_loop-IsUsed (suc m) i host socket n e =
    let l = host.active_links i in
    let rest = dispatch_loop m (i + 1) host socket n in
    let links = network_links m (i + 1) host in
    let others = dispatch_loop-IsUsed m (i + 1) host socket n in
    elim (Bool-cases ((host.link l).transport == transport_loopback)) [
      | inl loop ↦ rw (loop) (others (rw (loop) at e))
      | inr away ↦ elim (SendEnd-cases (send_msgs (socket l) 0 true n).0) [
        | inl all ↦
            rw (away, all)
              (over-IsUsed host socket n l links rest (inl all) others (rw (away, all) at e))
        | inr (inl passed) ↦
            rw (away, passed)
              (over-IsUsed host socket n l links rest (inr passed) others (rw (away, passed) at e))
        | inr (inr (inl failed)) ↦ absurd (ground (arith, away, failed, e))
        | inr (inr (inr (inl again))) ↦ absurd (ground (arith, away, again, e))
        | inr (inr (inr (inr waiting))) ↦ absurd (ground (arith, away, waiting, e))
      ]
    ]

-- Sending to a host goes on only if the links that the policy chooses of the active ones were used, all
-- of them or the first if they take turns, and it ended well on each.
pub dispatch_to_links-IsUsed :
    (host : Host) (socket : ℕ → List Answer) (n : ℕ)
    → goes_on (dispatch_to_links host socket n).end ≡ true
    → IsUsed host socket n
        (network_links host.active_link_entries 0 host)
        (dispatch_to_links host socket n)
unfolding dispatch_to_links
dispatch_to_links-IsUsed host socket n e =
    dispatch_loop-IsUsed host.active_link_entries 0 host socket n e
