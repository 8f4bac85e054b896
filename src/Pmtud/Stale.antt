-- ===== src/Pmtud/Stale.antt =====
-- What an EDEADLK that is left in errno does to a round of the thread
-- (libknet/threads_pmtud.c:_handle_pmtud_link_thread).
use kronosnet.Base.{
  ℕ, zero, suc, ◌+◌, ◌*◌, ◌≡◌, refl, sym, ap, ◌∙◌, fun_ext, Bool, true, false, Option, none, some,
  List, [], ◌∷◌, arith, truthy, leb, Option-cases, inl, inr, u64, update,
}
use kronosnet.State.{Timespec, Link, Host, Handle}
use kronosnet.Heartbeat.{timespec_diff}
use kronosnet.Heartbeat.Rounds.{max_link}
use kronosnet.Pmtud.{pmtud_size}
use kronosnet.Pmtud.Round.{
  PmtudEnv, check_pmtud, has_path, Walk, walk_link, walk_links, walk_hosts, finish_round,
  pmtud_round,
}

update_same {ℓ} : {A : Type ℓ} (f : ℕ → A) (i : ℕ) (x : A) → x ≡ f i → update f i x ≡ f
update_same f i x e = fun_ext λ j. ground (arith, e)

module _ (knet_h : Handle) (force_run : Bool) where
  walk_link-left :
      (env : PmtudEnv) (w : Walk) (link : Link)
      → w.left ≡ true
      → walk_link knet_h env force_run w link ≡ (w, link)
  unfolding walk_link
  walk_link-left env w link e = ground (arith, e)

  same_links :
      (host : Host) (i : ℕ) → record host { link = update host.link i (host.link i) } ≡ host
  same_links host i =
      ap (λ (f : ℕ → Link). record host { link = f }) (update_same host.link i (host.link i) refl)

  walk_links-left :
      (n link_idx : ℕ) (env : ℕ → PmtudEnv) (w : Walk) (host : Host)
      → w.left ≡ true
      → walk_links n link_idx knet_h env force_run w host ≡ (w, host)
  unfolding walk_links
  walk_links-left zero link_idx env w host e = refl
  walk_links-left (suc n) link_idx env w host e =
      ap
        (λ (r : Walk × Link).
          walk_links n (link_idx + 1) knet_h env force_run r.0
            (record host { link = update host.link link_idx r.1 }))
        (walk_link-left (env link_idx) w (host.link link_idx) e)
      ∙ ap (walk_links n (link_idx + 1) knet_h env force_run w) (same_links host link_idx)
      ∙ walk_links-left n (link_idx + 1) env w host e

  -- a link that is not due, with errno as an aborted round left it
  walk_link-stale :
      (env : PmtudEnv) (w : Walk) (link : Link) (clock : Timespec)
      → force_run ≡ false
      → truthy knet_h.manual_mtu ≡ false
      → (w.left ≡ false) × (w.deadlk ≡ true)
      → env.clock_now ≡ some clock
      → has_path link ≡ true
      → leb (u64 (knet_h.pmtud_interval * 1000000000)) (timespec_diff link.pmtud_last clock) ≡ false
      → walk_link knet_h env force_run w link ≡ (record w { deadlk = true; left = true }, link)
  unfolding walk_link check_pmtud
  walk_link-stale env w link clock force auto (on, stale) now path recent =
      ground (arith, force, auto, on, stale, now, path, recent)

module _ (force_run : Bool) (env : ℕ → ℕ → PmtudEnv) where
  same_host :
      (knet_h : Handle) (id : ℕ) (host : Host)
      → knet_h.host_index id ≡ some host
      → record knet_h { host_index = update knet_h.host_index id (some host) } ≡ knet_h
  same_host knet_h id host e =
      ap (λ (f : ℕ → Option Host). record knet_h { host_index = f })
        (update_same knet_h.host_index id (some host) (sym e))

  -- the walk after a host
  walk_hosts-some :
      (id : ℕ) (ids : List ℕ) (knet_h : Handle) (w w' : Walk) (host : Host)
      → knet_h.host_index id ≡ some host
      → walk_links max_link 0 knet_h (env id) force_run w host ≡ (w', host)
      → walk_hosts (id ∷ ids) knet_h env force_run w ≡ walk_hosts ids knet_h env force_run w'
  unfolding walk_hosts
  walk_hosts-some id ids knet_h w w' host e walked =
      ap
        (λ (o : Option Host). elim o [
          | none ↦ walk_hosts ids knet_h env force_run w
          | some host ↦
              let (w', host') = walk_links max_link 0 knet_h (env id) force_run w host in
              walk_hosts ids
                (record knet_h { host_index = update knet_h.host_index id (some host') }) env
                force_run w'
        ])
        e
      ∙ ap
          (λ (r : Walk × Host).
            walk_hosts ids (record knet_h { host_index = update knet_h.host_index id (some r.1) })
              env force_run r.0)
          walked
      ∙ ap (λ (h : Handle). walk_hosts ids h env force_run w') (same_host knet_h id host e)

  walk_hosts-left :
      (ids : List ℕ) (knet_h : Handle) (w : Walk)
      → w.left ≡ true
      → walk_hosts ids knet_h env force_run w ≡ (w, knet_h)
  unfolding walk_hosts
  walk_hosts-left [] knet_h w e = refl
  walk_hosts-left (id ∷ ids) knet_h w e = elim (Option-cases (knet_h.host_index id)) [
    | inl gone ↦ rw (gone, walk_hosts) (walk_hosts-left ids knet_h w e)
    | inr (host, known) ↦
        walk_hosts-some id ids knet_h w w host known
          (walk_links-left knet_h force_run max_link 0 (env id) w host e)
        ∙ walk_hosts-left ids knet_h w e
  ]

-- A round after one that was aborted, if errno still is EDEADLK, no run is forced, no MTU is set by hand, the
-- clock can be read, and the first link of the first host, which has a path, is not due yet: it leaves all hosts, the data MTU and errno as they
-- are, whatever links there are that are due.
pub pmtud_round-stale :
    (knet_h : Handle) (env : ℕ → ℕ → PmtudEnv) (id : ℕ) (ids : List ℕ) (host : Host)
    (clock : Timespec)
    → knet_h.host_list ≡ id ∷ ids
    → knet_h.host_index id ≡ some host
    → (truthy knet_h.pmtud_forcerun ≡ false) × (truthy knet_h.manual_mtu ≡ false)
    → (env id 0).clock_now ≡ some clock
    → has_path (host.link 0) ≡ true
    → leb (u64 (knet_h.pmtud_interval * 1000000000)) (timespec_diff (host.link 0).pmtud_last clock)
      ≡ false
    → pmtud_round knet_h env true
      ≡ (record knet_h { pmtud_abort = 0; pmtud_running = 0; pmtud_forcerun = 0 }, true, none)
unfolding pmtud_round walk_links finish_round
pmtud_round-stale knet_h env id ids host clock listed known (free, auto) now path recent =
    let started = record knet_h { pmtud_abort = 0; pmtud_running = 1; pmtud_forcerun = 0 } in
    let w0 : Walk = record {
      have_mtu = false;
      lower_mtu = pmtud_size;
      deadlk = true;
      left = false;
    } in
    let w1 = record w0 { left = true } in
    let force = truthy knet_h.pmtud_forcerun in
    let first =
      walk_link-stale started force (env id 0) w0 (host.link 0) clock free auto (refl, refl) now
        path recent in
    let links : walk_links max_link 0 started (env id) force w0 host ≡ (w1, host) =
      ap
        (λ (r : Walk × Link).
          walk_links 7 1 started (env id) force r.0 (record host { link = update host.link 0 r.1 }))
        first
      ∙ ap (walk_links 7 1 started (env id) force w1) (same_links started force host 0)
      ∙ walk_links-left started force 7 1 (env id) w1 host refl in
    let walked : walk_hosts started.host_list started env force w0 ≡ (w1, started) =
      ap (λ l. walk_hosts l started env force w0) listed
      ∙ walk_hosts-some force env id ids started w0 w1 host known links
      ∙ walk_hosts-left force env ids started w1 refl in
    ap (λ (r : Walk × Handle). finish_round r.0 r.1) walked
