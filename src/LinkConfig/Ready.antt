-- ===== src/LinkConfig/Ready.antt =====
-- Every link is ready after any calls for hosts and links, with the heartbeat in between (libknet/host.c,
-- libknet/links.c, libknet/threads_heartbeat.c).
use kronosnet.Base.{
  ℕ, inl, inr, refl, subst, Bool, Option, none, some, List, [], ◌∷◌, arith, ltb, ◌==◌,
  if◌then◌else◌, truthy, update, Bool-cases, Option-cases,
}
use kronosnet.State.{Host, Handle}
use kronosnet.Heartbeat.Run.{Event, step}
use kronosnet.Hosts.{host_list_update, new_link, make_host, host_add, host_remove, set_policy}
use kronosnet.Hosts.Listed.{HostCall, host_call}
use kronosnet.Timers.{put_link}
use kronosnet.LinkConfig.{Config, ConfigEnv, set_config}
use kronosnet.LinkConfig.Clear.{ClearEnv, clear_config, set_enable}
use kronosnet.LinkConfig.Life.{IsReady, IsAllReady, step-IsReady}
use kronosnet.LinkConfig.Calls.{
  put_kept-IsAllReady, set_config-IsAllReady, clear_config-IsAllReady, set_enable-IsAllReady,
}

new_link-IsReady : (i : ℕ) → IsReady (new_link i)
unfolding new_link
new_link-IsReady i = inl (
  ground arith,
  record { ave = ground arith; max = ground arith; pongs = ground arith; connected = ground arith },
)

update-IsAllReady :
    (index : ℕ → Option Host) (id : ℕ) (host : Host)
    → IsAllReady index
    → ((j : ℕ) → IsReady (host.link j))
    → IsAllReady (update index id (some host))
update-IsAllReady index id host all own x j h known = elim (Bool-cases (x == id)) [
  | inl here ↦ subst IsReady (ground (arith, known, here)) (own j)
  | inr other ↦ all x j h (ground (arith, known, other))
]

host_add-IsAllReady :
    (knet_h : Handle) (id locked : ℕ) (granted : Bool)
    → IsAllReady knet_h.host_index
    → IsAllReady (host_add knet_h id locked granted).1.host_index
unfolding host_add host_list_update make_host
host_add-IsAllReady knet_h id locked granted all = elim (Bool-cases (truthy locked)) [
  | inl bad ↦ rw (bad) all
  | inr a ↦ elim (Option-cases (knet_h.host_index id)) [
    | inr (host, known) ↦ rw (a, known) all
    | inl gone ↦ elim (Bool-cases granted) [
      | inr bad ↦ rw (a, gone, bad) all
      | inl b ↦
          rw (a, gone, b)
            (update-IsAllReady knet_h.host_index id (make_host knet_h id) all new_link-IsReady)
    ]
  ]
]

host_remove-IsAllReady :
    (knet_h : Handle) (id locked : ℕ)
    → IsAllReady knet_h.host_index
    → IsAllReady (host_remove knet_h id locked).1.host_index
unfolding host_remove host_list_update
host_remove-IsAllReady knet_h id locked all x j h known = all x j h (ground (arith, known))

set_policy-IsAllReady :
    (knet_h : Handle) (id policy locked err : ℕ)
    → IsAllReady knet_h.host_index
    → IsAllReady (set_policy knet_h id policy locked err).1.host_index
unfolding set_policy
set_policy-IsAllReady knet_h id policy locked err all = elim (Bool-cases (ltb 2 policy)) [
  | inl bad ↦ rw (bad) all
  | inr a ↦ elim (Bool-cases (truthy locked)) [
    | inl bad ↦ rw (a, bad) all
    | inr b ↦ elim (Option-cases (knet_h.host_index id)) [
      | inl gone ↦ rw (a, b, gone) all
      | inr (host, known) ↦ elim (Bool-cases (truthy err)) [
        | inl bad ↦ rw (a, b, known, bad) all
        | inr c ↦
            rw (a, b, known, c)
              (update-IsAllReady knet_h.host_index id (record host { link_handler_policy = policy })
                all (λ j. all id j host known))
      ]
    ]
  ]
]

-- an event of the heartbeat, for a link that is configured
abbrev pub heartbeat : Handle → ℕ → ℕ → Event → Handle
heartbeat knet_h id i e = elim (knet_h.host_index id) [
  | none ↦ knet_h
  | some host ↦
      if truthy (host.link i).configured
      then put_link knet_h id i host (step knet_h e (host.link i))
      else knet_h
]

heartbeat-IsAllReady :
    (knet_h : Handle) (id i : ℕ) (e : Event)
    → IsAllReady knet_h.host_index
    → IsAllReady (heartbeat knet_h id i e).host_index
heartbeat-IsAllReady knet_h id i e all = elim (Option-cases (knet_h.host_index id)) [
  | inl gone ↦ rw (heartbeat, gone) all
  | inr (host, known) ↦ elim (Bool-cases (truthy (host.link i).configured)) [
    | inr unset ↦ rw (heartbeat, known, unset) all
    | inl set ↦
        rw (heartbeat, known, set)
          (put_kept-IsAllReady knet_h id i host (host, knet_h) _ (refl, refl) known all
            (step-IsReady knet_h e (host.link i) set (all id i host known)))
  ]
]

-- the calls for hosts and links, with what comes from outside, and the events of the heartbeat
pub data LinkCall : Type 0 where
  host : HostCall → LinkCall
  configure : ℕ → ℕ → Config → ConfigEnv → LinkCall
  clear : ℕ → ℕ → ClearEnv → LinkCall
  enable : ℕ → ℕ → ℕ → ℕ → Bool → ℕ → LinkCall
  event : ℕ → ℕ → Event → LinkCall

abbrev pub link_call : Handle → LinkCall → Handle
link_call knet_h (LinkCall.host c) = host_call knet_h c
link_call knet_h (LinkCall.configure id i c env) = (set_config knet_h id i c env).1
link_call knet_h (LinkCall.clear id i env) = (clear_config knet_h id i env).1
link_call knet_h (LinkCall.enable id i enabled locked notified now) =
    (set_enable knet_h id i enabled locked notified now).1
link_call knet_h (LinkCall.event id i e) = heartbeat knet_h id i e

abbrev pub link_calls : Handle → List LinkCall → Handle
link_calls knet_h [] = knet_h
link_calls knet_h (c ∷ calls) = link_calls (link_call knet_h c) calls

host_call-IsAllReady :
    (knet_h : Handle) (c : HostCall)
    → IsAllReady knet_h.host_index
    → IsAllReady (host_call knet_h c).host_index
host_call-IsAllReady knet_h (HostCall.add id locked granted) all =
    host_add-IsAllReady knet_h id locked granted all
host_call-IsAllReady knet_h (HostCall.remove id locked) all =
    host_remove-IsAllReady knet_h id locked all
host_call-IsAllReady knet_h (HostCall.policy id p locked err) all =
    set_policy-IsAllReady knet_h id p locked err all

link_call-IsAllReady :
    (knet_h : Handle) (c : LinkCall)
    → IsAllReady knet_h.host_index
    → IsAllReady (link_call knet_h c).host_index
link_call-IsAllReady knet_h (LinkCall.host c) all = host_call-IsAllReady knet_h c all
link_call-IsAllReady knet_h (LinkCall.configure id i c env) all =
    set_config-IsAllReady knet_h id i c env all
link_call-IsAllReady knet_h (LinkCall.clear id i env) all =
    clear_config-IsAllReady knet_h id i env all
link_call-IsAllReady knet_h (LinkCall.enable id i enabled locked notified now) all =
    set_enable-IsAllReady knet_h id i enabled locked notified now all
link_call-IsAllReady knet_h (LinkCall.event id i e) all = heartbeat-IsAllReady knet_h id i e all

-- If every link of every known host either is not configured and has heard nothing, or is configured and
-- satisfies IsSound, this is so after any calls, successful or not, that add and remove hosts, set their
-- policy, and configure, clear and enable links, with pongs, rounds and adjustments of configured links
-- in between.
pub link_calls-IsAllReady :
    (knet_h : Handle) (calls : List LinkCall)
    → IsAllReady knet_h.host_index
    → IsAllReady (link_calls knet_h calls).host_index
link_calls-IsAllReady knet_h [] all = all
link_calls-IsAllReady knet_h (c ∷ calls) all =
    link_calls-IsAllReady (link_call knet_h c) calls (link_call-IsAllReady knet_h c all)
