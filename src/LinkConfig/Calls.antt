-- ===== src/LinkConfig/Calls.antt =====
-- The calls that configure, enable and clear links, with the heartbeat in between, keep every link ready
-- (libknet/links.c, libknet/threads_heartbeat.c).
use kronosnet.Base.{
  ℕ, ◌≡◌, inl, inr, refl, sym, subst, Bool, false, ◌&&◌, ◌||◌, some, arith, leb, ltb, ◌==◌, truthy,
  Bool-cases, Option-cases,
}
use kronosnet.State.{Link, Host, Handle}
use kronosnet.Timers.{put_link}
use kronosnet.LinkConfig.{
  Config, ConfigEnv, transport_udp, first_err, refuse, check_args, check_link, check_setup,
  default_link, wiped_link, note_loop, set_config,
}
use kronosnet.LinkConfig.Clear.{ClearEnv, forget_loop, clear_config, set_enable}
use kronosnet.LinkConfig.Life.{
  IsReady, IsAllReady, unset-IsFresh, unconnected-IsReady, link_updown-IsReady, wiped_link-IsReady,
  configured_link-IsReady, put_link-IsAllReady,
}

note_loop-keeps :
    (c : Config) (i : ℕ) (host : Host) (knet_h : Handle)
    → ((note_loop c i host knet_h).0.link ≡ host.link)
      × ((note_loop c i host knet_h).1.host_index ≡ knet_h.host_index)
unfolding note_loop
note_loop-keeps c i host knet_h = (ground arith, ground arith)

forget_loop-keeps :
    (id i : ℕ) (host : Host) (knet_h : Handle)
    → ((forget_loop id i host knet_h).0.link ≡ host.link)
      × ((forget_loop id i host knet_h).1.host_index ≡ knet_h.host_index)
unfolding forget_loop
forget_loop-keeps id i host knet_h = (ground arith, ground arith)

-- A host and a handle that keep the links and the index.
pub put_kept-IsAllReady :
    (knet_h : Handle) (id i : ℕ) (host : Host) (kept : Host × Handle) (link : Link)
    → (kept.0.link ≡ host.link) × (kept.1.host_index ≡ knet_h.host_index)
    → knet_h.host_index id ≡ some host
    → IsAllReady knet_h.host_index
    → IsReady link
    → IsAllReady (put_link kept.1 id i kept.0 link).host_index
put_kept-IsAllReady knet_h id i host kept link (links, index) known all new =
    put_link-IsAllReady kept.1 id i kept.0 link (subst IsAllReady (sym index) all)
      (λ j. subst (λ l. IsReady (l j)) (sym links) (all id j host known)) new

check_link-unset :
    (knet_h : Handle) (host : Host) (id i : ℕ) (c : Config)
    → truthy (check_link knet_h host id i c) ≡ false
    → (host.link i).configured ≡ 0
unfolding check_link first_err refuse
check_link-unset knet_h host id i c e = ground (arith, e)

pub set_config-IsAllReady :
    (knet_h : Handle) (id i : ℕ) (c : Config) (env : ConfigEnv)
    → IsAllReady knet_h.host_index
    → IsAllReady (set_config knet_h id i c env).1.host_index
unfolding set_config
set_config-IsAllReady knet_h id i c env all =
    elim (Bool-cases (truthy (check_args knet_h id i c env))) [
      | inl bad ↦ rw (bad) all
      | inr args ↦ elim (Option-cases (knet_h.host_index id)) [
        | inl gone ↦ rw (args, gone) all
        | inr (host, known) ↦ elim (Bool-cases (truthy (check_link knet_h host id i c))) [
          | inl bad ↦ rw (args, known, bad) all
          | inr free ↦
              let link = default_link c (host.link i) in
              elim (Bool-cases (truthy (check_setup knet_h id i c env link))) [
                | inl bad ↦
                    rw (args, known, free, bad)
                      (put_kept-IsAllReady knet_h id i host (host, knet_h) (wiped_link i)
                        (refl, refl) known all (wiped_link-IsReady i))
                | inr good ↦
                    let fresh =
                      unset-IsFresh (host.link i) (check_link-unset knet_h host id i c free)
                        (all id i host known) in
                    rw (args, known, free, good)
                      (put_kept-IsAllReady knet_h id i host (note_loop c i host knet_h) _
                        (note_loop-keeps c i host knet_h) known all
                        (configured_link-IsReady knet_h c env (host.link i) fresh))
              ]
        ]
      ]
    ]

pub clear_config-IsAllReady :
    (knet_h : Handle) (id i : ℕ) (env : ClearEnv)
    → IsAllReady knet_h.host_index
    → IsAllReady (clear_config knet_h id i env).1.host_index
unfolding clear_config
clear_config-IsAllReady knet_h id i env all = elim (Bool-cases (leb 8 i)) [
  | inl bad ↦ rw (bad) all
  | inr a ↦ elim (Bool-cases (truthy env.locked)) [
    | inl bad ↦ rw (a, bad) all
    | inr b ↦ elim (Option-cases (knet_h.host_index id)) [
      | inl gone ↦ rw (a, b, gone) all
      | inr (host, known) ↦ elim (Bool-cases ((host.link i).configured == 1)) [
        | inr bad ↦ rw (a, b, known, bad) all
        | inl c ↦ elim (Bool-cases (truthy (host.link i).status.enabled)) [
          | inl bad ↦ rw (a, b, known, c, bad) all
          | inr d ↦
              elim (Bool-cases (
                (host.link i).transport == transport_udp
                && (host.link i).dynamic == 0
                && truthy env.acl_err)) [
                  | inl bad ↦ rw (a, b, known, c, d, bad) all
                  | inr e ↦ elim (Bool-cases (truthy env.transport_err)) [
                    | inl bad ↦
                        rw (a, b, known, c, d, e, bad)
                          (put_kept-IsAllReady knet_h id i host (host, knet_h) _ (refl, refl) known
                            all (unconnected-IsReady (host.link i) (all id i host known)))
                    | inr f ↦
                        rw (a, b, known, c, d, e, f)
                          (put_kept-IsAllReady knet_h id i host (forget_loop id i host knet_h) _
                            (forget_loop-keeps id i host knet_h) known all (wiped_link-IsReady i))
                  ]
                ]
        ]
      ]
    ]
  ]
]

pub set_enable-IsAllReady :
    (knet_h : Handle) (id i enabled locked : ℕ) (notified : Bool) (now : ℕ)
    → IsAllReady knet_h.host_index
    → IsAllReady (set_enable knet_h id i enabled locked notified now).1.host_index
unfolding set_enable
set_enable-IsAllReady knet_h id i enabled locked notified now all =
    elim (Bool-cases (leb 8 i || ltb 1 enabled)) [
      | inl bad ↦ rw (bad) all
      | inr a ↦ elim (Bool-cases (truthy locked)) [
        | inl bad ↦ rw (a, bad) all
        | inr b ↦ elim (Option-cases (knet_h.host_index id)) [
          | inl gone ↦ rw (a, b, gone) all
          | inr (host, known) ↦ elim (Bool-cases (truthy (host.link i).configured)) [
            | inr bad ↦ rw (a, b, known, bad) all
            | inl c ↦ elim (Bool-cases ((host.link i).status.enabled == enabled)) [
              | inl same ↦ rw (a, b, known, c, same) all
              | inr d ↦
                  rw (a, b, known, c, d)
                    (put_kept-IsAllReady knet_h id i host (host, knet_h) _ (refl, refl) known all
                      (link_updown-IsReady notified (host.link i) enabled now c
                        (all id i host known)))
            ]
          ]
        ]
      ]
    ]
