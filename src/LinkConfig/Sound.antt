-- ===== src/LinkConfig/Sound.antt =====
-- A link that is configured is ready for the heartbeat (libknet/links.c:knet_link_set_config).
use kronosnet.Base.{
  ℕ, ◌<◌, ◌≡◌, ◌≢◌, ◌⊎◌, inl, inr, ap, true, false, some, arith, truthy, Bool-cases,
}
use kronosnet.State.{Link, Host, Handle}
use kronosnet.Heartbeat.Run.{IsSound}
use kronosnet.Timers.{put_link}
use kronosnet.LinkConfig.{
  Config, ConfigEnv, check_args, check_link, first_err, refuse, default_link, check_setup,
  configured_link, wiped_link, set_config,
}

-- a link that has heard nothing yet
pub record IsFresh (link : Link) : Type 0 where
  pub ave : link.status.stats.latency_ave ≡ 0
  pub max : link.status.stats.latency_max ≡ 0
  pub pongs : link.received_pong ≡ 0
  pub connected : link.status.connected ≡ 0

pub configured_link-IsSound :
    (knet_h : Handle) (c : Config) (env : ConfigEnv) (link : Link)
    → IsFresh link
    → IsSound (configured_link knet_h c env (default_link c link))
unfolding configured_link default_link
configured_link-IsSound knet_h c env link f = record {
  measured = record {
    precision = ground arith;
    precision_fits = ground arith;
    product_fits = ground arith;
    samples = ground arith;
  };
  settings = ground arith;
  ave = ground (arith, f.ave);
  max = ground (arith, f.max);
  backoff_pos = ground arith;
  backoff_max = ground arith;
  adj_min = ground arith;
  adj_max = ground arith;
  pongs = ground (arith, f.pongs);
  pong_count = ground arith;
  connected = ground (arith, f.connected);
}

-- The call is refused by a test of its arguments, or of the host and the link.
abbrev pub IsRefused : Handle → Host → ℕ → ℕ → Config → ConfigEnv → ℕ → Type 0
IsRefused knet_h host id i c env errno =
    (truthy (check_args knet_h id i c env) ≡ true) × (errno ≡ check_args knet_h id i c env)
    ⊎ (truthy (check_link knet_h host id i c) ≡ true) × (errno ≡ check_link knet_h host id i c)

-- The set-up of a link failed that was free: one of the eight, not configured and not enabled.
abbrev pub IsFree : Handle → Host → ℕ → ℕ → Config → ConfigEnv → ℕ → Type 0
IsFree knet_h host id i c env errno =
    (errno ≡ check_setup knet_h id i c env (default_link c (host.link i)))
    × (i < 8)
    × (truthy (host.link i).configured ≡ false)
    × (truthy (host.link i).status.enabled ≡ false)

check_link-free :
    (knet_h : Handle) (host : Host) (id i : ℕ) (c : Config)
    → truthy (check_link knet_h host id i c) ≡ false
    → (truthy (host.link i).configured ≡ false) × (truthy (host.link i).status.enabled ≡ false)
unfolding check_link first_err refuse
check_link-free knet_h host id i c e = (ground (arith, e), ground (arith, e))

check_args-lt :
    (knet_h : Handle) (id i : ℕ) (c : Config) (env : ConfigEnv)
    → truthy (check_args knet_h id i c env) ≡ false
    → i < 8
unfolding check_args first_err refuse
check_args-lt knet_h id i c env e = ground (arith, e)

set_config_ends :
    (knet_h : Handle) (id i : ℕ) (c : Config) (env : ConfigEnv) (host : Host)
    → knet_h.host_index id ≡ some host
    → let r = set_config knet_h id i c env in
      (r.1 ≡ knet_h) × IsRefused knet_h host id i c env r.0
      ⊎ (r.1 ≡ put_link knet_h id i host (wiped_link i)) × IsFree knet_h host id i c env r.0
      ⊎ (r.0 ≡ 0)
unfolding set_config
set_config_ends knet_h id i c env host known =
    let r = set_config knet_h id i c env in
    let link = default_link c (host.link i) in
    elim (Bool-cases (truthy (check_args knet_h id i c env))) [
      | inl bad ↦
          let same : r ≡ (check_args knet_h id i c env, knet_h) = ground (arith, bad) in
          inl (ap (λ (q : ℕ × Handle). q.1) same, inl (bad, ap (λ (q : ℕ × Handle). q.0) same))
      | inr args ↦ elim (Bool-cases (truthy (check_link knet_h host id i c))) [
        | inl bad ↦
            let same : r ≡ (check_link knet_h host id i c, knet_h) =
              ground (arith, args, known, bad) in
            inl (ap (λ (q : ℕ × Handle). q.1) same, inr (bad, ap (λ (q : ℕ × Handle). q.0) same))
        | inr free ↦ elim (Bool-cases (truthy (check_setup knet_h id i c env link))) [
          | inl bad ↦
              let same : r
                  ≡ (check_setup knet_h id i c env link, put_link knet_h id i host (wiped_link i)) =
                ground (arith, args, known, free, bad) in
              let (unused, disabled) = check_link-free knet_h host id i c free in
              inr (
                inl (
                  ap (λ (q : ℕ × Handle). q.1) same,
                  (
                    ap (λ (q : ℕ × Handle). q.0) same,
                    check_args-lt knet_h id i c env args,
                    unused,
                    disabled,
                  ),
                ))
          | inr good ↦ inr (inr (ground (arith, args, known, free, good)))
        ]
      ]
    ]

-- A call that fails for a known host leaves the handle as it was if it is refused by a test of the arguments,
-- the host or the link; otherwise the set-up has failed, of a link that was neither configured nor enabled, and
-- nothing but that link is changed, which is then as after memset with its number. So a configured
-- link is never touched by a call that fails.
pub set_config_fails :
    (knet_h : Handle) (id i : ℕ) (c : Config) (env : ConfigEnv) (host : Host)
    → knet_h.host_index id ≡ some host
    → (set_config knet_h id i c env).0 ≢ 0
    → let r = set_config knet_h id i c env in
      (r.1 ≡ knet_h) × IsRefused knet_h host id i c env r.0
      ⊎ (r.1 ≡ put_link knet_h id i host (wiped_link i)) × IsFree knet_h host id i c env r.0
set_config_fails knet_h id i c env host known e =
    elim (set_config_ends knet_h id i c env host known) [
      | inl refused ↦ inl refused
      | inr (inl wiped) ↦ inr wiped
      | inr (inr ok) ↦ absurd (e ok)
    ]
