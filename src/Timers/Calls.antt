-- ===== src/Timers/Calls.antt =====
-- The calls that set timers keep the pong timeouts above the timer resolution
-- (libknet/threads_common.c, libknet/links.c).
use kronosnet.Base.{
  ℕ, zero, suc, ◌+◌, ◌*◌, ◌≤◌, ◌<◌, ◌≡◌, inl, inr, sym, ap, ◌∙◌, Bool, true, false, ◌||◌, not,
  Option, some, List, [], ◌∷◌, arith, ltb, leb, ◌==◌, truthy, u64, All, member, Bool-cases,
  Option-cases,
}
use kronosnet.State.{Link, Host, Handle}
use kronosnet.Onwire.{hosts_of}
use kronosnet.Hosts.Listed.{is_some}
use kronosnet.Timers.{
  is_short, any_short, hosts_short, set_threads_timer_res, put_link, set_ping_timers,
  set_pong_count,
}
use kronosnet.Timers.Fit.{
  is_slow, any_short-update, hosts_of-here, hosts_short-uncons, hosts_short-tail,
  hosts_short-update, set_threads_timer_res-fits,
}

-- The hosts of the index are those of the list, and no configured link has a pong timeout below the
-- timer resolution.
pub record Fits (knet_h : Handle) : Type 0 where
  pub listed : (id : ℕ) → member id knet_h.host_list ≡ is_some (knet_h.host_index id)
  pub fast : is_slow knet_h ≡ false

any_short-member :
    (r id : ℕ) (ids : List ℕ) (host_index : ℕ → Option Host) (host : Host)
    → member id ids ≡ true
    → host_index id ≡ some host
    → hosts_short r (hosts_of host_index ids) ≡ false
    → any_short 8 0 r host.link ≡ false
any_short-member r id [] host_index host m known e = ground arith
any_short-member r id (x ∷ ids) host_index host m known e = elim (Bool-cases (id == x)) [
  | inl here ↦
      let known' : host_index x ≡ some host = ground (arith, here, known) in
      (hosts_short-uncons r host (hosts_of host_index ids)
        (ap (hosts_short r) (sym (hosts_of-here host_index x ids host known')) ∙ e)).0
  | inr other ↦
      any_short-member r id ids host_index host (ground (arith, m, other)) known
        (hosts_short-tail r x ids host_index e)
]

-- A link with a pong timeout that is long enough, or that is as good as the one it replaces.
put_link-Fits :
    (knet_h : Handle) (id link_id : ℕ) (host : Host) (link : Link)
    → Fits knet_h
    → knet_h.host_index id ≡ some host
    → is_short knet_h.threads_timer_res link ≡ false
    → Fits (put_link knet_h id link_id host link)
unfolding put_link
put_link-Fits knet_h id link_id host link f known new =
    let old =
      any_short-member knet_h.threads_timer_res id knet_h.host_list knet_h.host_index host
        (ground (arith, f.listed id, known)) known f.fast in
    record {
      listed = λ x. ground (arith, f.listed x, f.listed id, known);
      fast =
          hosts_short-update knet_h.threads_timer_res id knet_h.host_list knet_h.host_index _
            (any_short-update 8 0 knet_h.threads_timer_res link_id host.link link new old) f.fast;
    }

set_ping_timers-Fits :
    (knet_h : Handle) (id link_id interval timeout precision locked : ℕ)
    → Fits knet_h
    → Fits (set_ping_timers knet_h id link_id interval timeout precision locked).1
unfolding set_ping_timers is_short
set_ping_timers-Fits knet_h id link_id interval timeout precision locked f =
    elim (Bool-cases (leb 8 link_id || interval == 0)) [
      | inl bad ↦ rw (bad) f
      | inr a ↦ elim (Bool-cases (timeout == 0)) [
        | inl bad ↦ rw (a, bad) f
        | inr b ↦ elim (Bool-cases (precision == 0)) [
          | inl bad ↦ rw (a, b, bad) f
          | inr c ↦ elim (Bool-cases (truthy locked)) [
            | inl bad ↦ rw (a, b, c, bad) f
            | inr d ↦ elim (Option-cases (knet_h.host_index id)) [
              | inl gone ↦ rw (a, b, c, d, gone) f
              | inr (host, known) ↦
                  elim (Bool-cases (
                    not (truthy (host.link link_id).configured)
                    || ltb (u64 (timeout * 1000)) knet_h.threads_timer_res)) [
                      | inl bad ↦ rw (a, b, c, d, known, bad) f
                      | inr good ↦
                          rw (a, b, c, d, known, good)
                            (put_link-Fits knet_h id link_id host _ f known (ground (arith, good)))
                    ]
            ]
          ]
        ]
      ]
    ]

any_short-at :
    (n k r i : ℕ) (link : ℕ → Link)
    → any_short n k r link ≡ false
    → (k ≤ i) × (i < k + n)
    → is_short r (link i) ≡ false
unfolding any_short
any_short-at zero k r i link e between = ground (arith, between)
any_short-at (suc n) k r i link e (low, high) = elim (Bool-cases (i == k)) [
  | inl here ↦ ground (arith, here, e)
  | inr there ↦
      any_short-at n (k + 1) r i link (ground (arith, e))
        (ground (arith, there, low), omega (arith, high))
]

set_pong_count-Fits :
    (knet_h : Handle) (id link_id pong_count locked : ℕ)
    → Fits knet_h
    → Fits (set_pong_count knet_h id link_id pong_count locked).1
unfolding set_pong_count
set_pong_count-Fits knet_h id link_id pong_count locked f =
    elim (Bool-cases (leb 8 link_id || ltb pong_count 1)) [
      | inl bad ↦ rw (bad) f
      | inr a ↦ elim (Bool-cases (truthy locked)) [
        | inl bad ↦ rw (a, bad) f
        | inr b ↦ elim (Option-cases (knet_h.host_index id)) [
          | inl gone ↦ rw (a, b, gone) f
          | inr (host, known) ↦ elim (Bool-cases (not (truthy (host.link link_id).configured))) [
            | inl bad ↦ rw (a, b, known, bad) f
            | inr good ↦
                let old =
                  any_short-member knet_h.threads_timer_res id knet_h.host_list knet_h.host_index
                    host (ground (arith, f.listed id, known)) known f.fast in
                let at =
                  any_short-at 8 0 knet_h.threads_timer_res link_id host.link old
                    (ground (arith, a)) in
                rw (a, b, known, good)
                  (put_link-Fits knet_h id link_id host _ f known (unfold is_short in at))
          ]
        ]
      ]
    ]

set_threads_timer_res-Fits :
    (knet_h : Handle) (timeres locked : ℕ)
    → truthy timeres ≡ true
    → Fits knet_h
    → Fits (set_threads_timer_res knet_h timeres locked).1
set_threads_timer_res-Fits knet_h timeres locked set f = record {
  listed = λ x. unfold set_threads_timer_res in ground (arith, f.listed x);
  fast = set_threads_timer_res-fits knet_h timeres locked set f.fast;
}

-- the calls of the API that set timers, with what the lock returns
pub data TimerCall : Type 0 where
  timer_res : ℕ → ℕ → TimerCall
  ping_timers : ℕ → ℕ → ℕ → ℕ → ℕ → ℕ → TimerCall
  pong_count : ℕ → ℕ → ℕ → ℕ → TimerCall

-- a call that sets the timer resolution to its default
abbrev pub is_reset : TimerCall → Bool
is_reset (TimerCall.timer_res timeres locked) = not (truthy timeres)
is_reset (TimerCall.ping_timers id link_id interval timeout precision locked) = false
is_reset (TimerCall.pong_count id link_id count locked) = false

abbrev pub timer_call : Handle → TimerCall → Handle
timer_call knet_h (TimerCall.timer_res timeres locked) =
    (set_threads_timer_res knet_h timeres locked).1
timer_call knet_h (TimerCall.ping_timers id link_id interval timeout precision locked) =
    (set_ping_timers knet_h id link_id interval timeout precision locked).1
timer_call knet_h (TimerCall.pong_count id link_id count locked) =
    (set_pong_count knet_h id link_id count locked).1

abbrev pub timer_calls : Handle → List TimerCall → Handle
timer_calls knet_h [] = knet_h
timer_calls knet_h (c ∷ calls) = timer_calls (timer_call knet_h c) calls

timer_call-Fits :
    (knet_h : Handle) (c : TimerCall)
    → is_reset c ≡ false
    → Fits knet_h
    → Fits (timer_call knet_h c)
timer_call-Fits knet_h (TimerCall.timer_res timeres locked) set f =
    set_threads_timer_res-Fits knet_h timeres locked (ground (arith, set)) f
timer_call-Fits knet_h (TimerCall.ping_timers id link_id interval timeout precision locked) set f =
    set_ping_timers-Fits knet_h id link_id interval timeout precision locked f
timer_call-Fits knet_h (TimerCall.pong_count id link_id count locked) set f =
    set_pong_count-Fits knet_h id link_id count locked f

-- If no configured link has a pong timeout below the timer resolution, and the index holds the hosts of
-- the list, both are so after any calls that set the timer resolution, other than to its default, the
-- timers and the pong counts of links, be they successful or refused.
pub timer_calls-Fits :
    (knet_h : Handle) (calls : List TimerCall)
    → All (λ c. is_reset c ≡ false) calls
    → Fits knet_h
    → Fits (timer_calls knet_h calls)
timer_calls-Fits knet_h [] set f = f
timer_calls-Fits knet_h (c ∷ calls) (first, rest) f =
    timer_calls-Fits (timer_call knet_h c) calls rest (timer_call-Fits knet_h c first f)
