-- ===== src/Tx/RoundRobin.antt =====
-- The round-robin policy (libknet/threads_tx.c:_dispatch_to_links): which link each packet takes.
use kronosnet.Base.{
  ℕ, suc, ◌+◌, ◌≡◌, ◌≢◌, ◌≤◌, ◌<◌, refl, sym, subst, ap, ◌∙◌, true, false, List, [], ◌∷◌, ◌++◌,
  arith, ltb, ◌==◌, ◌&&◌, All, length, length-append,
}
use kronosnet.State.{Host}
use kronosnet.DstCache.{policy_rr}
use kronosnet.DstCache.Scan.{Lists}
use kronosnet.Tx.{
  Answer, SendEnd, Dispatched, send_msgs, rotate, dispatch_to_links, dispatch_loop,
  transport_loopback,
}

-- `xs` are the active links of a round-robin host, in order: two to eight, none of them the loop link.
pub record Ring (host : Host) (xs : List ℕ) : Type 0 where
  pub policy : host.link_handler_policy ≡ policy_rr
  pub count : host.active_link_entries ≡ length xs
  pub several : 1 < length xs
  pub fits : length xs ≤ 8
  pub order : Lists host.active_links 0 xs
  pub remote : All (λ l. (host.link l).transport ≢ transport_loopback) xs

-- the socket of every link takes all messages of a packet
abbrev pub Takes : ℕ → (ℕ → List Answer) → Type 0
Takes total socket = (l : ℕ) → (send_msgs (socket l) 0 true total).0 ≡ SendEnd.sent_all

Lists-shift :
    (a b : ℕ → ℕ) (j x : ℕ) (xs : List ℕ)
    → ((i : ℕ) → i < j + length xs → b i ≡ a (i + 1))
    → b (j + length xs) ≡ x
    → Lists a (j + 1) xs
    → Lists b j (xs ++ x ∷ [])
Lists-shift a b j x [] same last h = (subst (λ i. b i ≡ x) (omega arith) last, tt)
Lists-shift a b j x (y ∷ ys) same last (h, hs) = (
  same j (omega arith) ∙ h,
  Lists-shift a b (j + 1) x ys (λ i lt. same i (omega arith))
      (subst (λ i. b i ≡ x) (omega arith) last) hs,
)

All-snoc {ℓ κ} :
    {A : Type ℓ} (P : A → Type κ) (x : A) (xs : List A) → P x → All P xs → All P (xs ++ x ∷ [])
All-snoc P x [] p h = (p, tt)
All-snoc P x (y ∷ ys) p (q, h) = (q, All-snoc P x ys p h)

rotate-Ring :
    (host : Host) (x : ℕ) (xs : List ℕ) → Ring host (x ∷ xs) → Ring (rotate host) (xs ++ x ∷ [])
unfolding rotate
rotate-Ring host x xs r =
    let len = length-append xs (x ∷ []) in
    record {
      policy = r.policy;
      count = omega (arith, r.count, len);
      several = omega (arith, r.several, len);
      fits = omega (arith, r.fits, len);
      order =
          Lists-shift host.active_links _ 0 x xs (λ i lt. ground (arith, r.count, r.fits))
            (ground (arith, r.count, r.order.0)) r.order.1;
      remote = All-snoc _ x xs r.remote.0 r.remote.1;
    }

-- one packet: the first of the active links, and the rotation
module _ (host : Host) (socket : ℕ → List Answer) (total : ℕ) where
  abbrev once : ℕ → Dispatched
  once l = record { end = SendEnd.sent_all; dst_host = rotate host; used = l ∷ [] }

  dispatch_loop-once :
      (n : ℕ)
      → ((host.link (host.active_links 0)).transport == transport_loopback) ≡ false
      → (host.link_handler_policy == policy_rr && ltb 1 host.active_link_entries) ≡ true
      → (send_msgs (socket (host.active_links 0)) 0 true total).0 ≡ SendEnd.sent_all
      → dispatch_loop (suc n) 0 host socket total ≡ once (host.active_links 0)
  unfolding dispatch_loop
  dispatch_loop-once n remote turns sent = rw (remote, sent, turns) refl

  dispatch_to_links-once :
      (x : ℕ) (xs : List ℕ)
      → Ring host (x ∷ xs)
      → Takes total socket
      → dispatch_to_links host socket total ≡ once x
  unfolding dispatch_to_links
  dispatch_to_links-once x xs r takes =
      ap (λ n. dispatch_loop n 0 host socket total) r.count
      ∙ dispatch_loop-once (length xs) (ground (arith, r.order.0, r.remote.0))
          (ground (arith, r.policy, r.several, r.count)) (takes (host.active_links 0))
      ∙ ap once r.order.0

-- The packets that `sockets` stand for, one after the other: the links they use, and the host.
abbrev pub send_packets : List (ℕ → List Answer) → ℕ → Host → List ℕ × Host
send_packets [] total host = ([], host)
send_packets (socket ∷ sockets) total host =
    let d = dispatch_to_links host socket total in
    let (used, host') = send_packets sockets total d.dst_host in (d.used ++ used, host')

append_nil : (xs : List ℕ) → xs ++ [] ≡ xs
append_nil [] = refl
append_nil (x ∷ xs) = ap (λ l. x ∷ l) (append_nil xs)

append_assoc : (xs ys zs : List ℕ) → (xs ++ ys) ++ zs ≡ xs ++ (ys ++ zs)
append_assoc [] ys zs = refl
append_assoc (x ∷ xs) ys zs = ap (λ l. x ∷ l) (append_assoc xs ys zs)

-- packets for the first links of the ring
abbrev Turns : List ℕ → List ℕ → List ℕ × Host → Type 0
Turns xs ys (used, host') = (used ≡ xs) × Ring host' (ys ++ xs)

send_packets-Turns :
    (xs ys : List ℕ) (sockets : List (ℕ → List Answer)) (total : ℕ) (host : Host)
    → Ring host (xs ++ ys)
    → length sockets ≡ length xs
    → All (Takes total) sockets
    → Turns xs ys (send_packets sockets total host)
send_packets-Turns [] ys [] total host r same takes =
    (refl, subst (Ring host) (sym (append_nil ys)) r)
send_packets-Turns [] ys (socket ∷ sockets) total host r same takes = ground arith
send_packets-Turns (x ∷ xs) ys [] total host r same takes = ground arith
send_packets-Turns (x ∷ xs) ys (socket ∷ sockets) total host r same (t, takes) =
    let next =
      subst (Ring (rotate host)) (append_assoc xs ys (x ∷ [])) (rotate-Ring host x (xs ++ ys) r) in
    let (used, ring) =
      send_packets-Turns xs (ys ++ x ∷ []) sockets total (rotate host) next (omega arith) takes in
    rw (dispatch_to_links-once host socket total x (xs ++ ys) r t)
      (ap (λ l. x ∷ l) used, subst (Ring _) (append_assoc ys (x ∷ []) xs) ring)

-- Under the round-robin policy as many packets as there are active links, whose messages the sockets
-- take, are sent on one link each, on every link in turn, and then the order is the one of before.
pub send_packets-Ring :
    (xs : List ℕ) (sockets : List (ℕ → List Answer)) (total : ℕ) (host : Host)
    → Ring host xs
    → length sockets ≡ length xs
    → All (Takes total) sockets
    → let (used, host') = send_packets sockets total host in (used ≡ xs) × Ring host' xs
send_packets-Ring xs sockets total host r same takes =
    send_packets-Turns xs [] sockets total host (subst (Ring host) (sym (append_nil xs)) r) same
      takes
