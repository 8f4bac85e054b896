-- ===== src/Pmtud/Round.antt =====
-- libknet/threads_pmtud.c: when a link is searched, what is kept of the result, a round of the thread
-- over all links, and until when it waits for a reply.
use kronosnet.Base.{
  ℕ, zero, suc, ◌+◌, ◌-◌, ◌*◌, ◌/◌, ◌%◌, Bool, true, false, ◌&&◌, ◌||◌, not, Option, none, some,
  List, [], ◌∷◌, ltb, leb, ◌==◌, if◌then◌else◌, truthy, update, u64,
}
use kronosnet.State.{Timespec, Link, Host, Handle}
use kronosnet.Onwire.{calc_min_mtu, header_all_size}
use kronosnet.Heartbeat.{timespec_diff, link_dynip}
use kronosnet.Heartbeat.Rounds.{max_link}
use kronosnet.Tx.{transport_loopback}
use kronosnet.Pmtud.{
  Answer, Result, ipproto_overhead, calculate_manual_mtu, check_link_pmtud, pmtud_size,
}

-- while (ts.tv_nsec > 1000000000), with the rounds left
unfoldable pub carry : ℕ → Timespec → Timespec
carry zero ts = ts
carry (suc n) ts =
    let next : Timespec = record { tv_sec = ts.tv_sec + 1; tv_nsec = ts.tv_nsec - 1000000000 } in
    let rest = carry n next in if ltb 1000000000 ts.tv_nsec then rest else ts

-- Until when a reply is waited for: `now`, and a timeout in microseconds.
unfoldable pub reply_deadline : Timespec → ℕ → Timespec
reply_deadline now timeout = carry 2 (record {
  tv_sec = now.tv_sec + timeout / 1000000;
  tv_nsec = now.tv_nsec + timeout % 1000000 * 1000;
})

-- The surroundings of _handle_check_pmtud: the clock at its begin and its end, if it can be read, the
-- lock, and what becomes of the probes.
pub record PmtudEnv : Type 0 where
  pub clock_now : Option Timespec
  pub clock_end : Option Timespec
  pub locked : Bool
  pub answer : ℕ → ℕ → Answer

-- `deadlk` is whether errno is EDEADLK: at the end of a call, and at the begin as it was left behind.
pub record Checked : Type 0 where
  pub link : Link
  pub deadlk : Bool
  pub dstcache_update : Bool

-- status.proto_overhead, with the headers
unfoldable pub note_overhead : Handle → Link → Link
note_overhead knet_h link = elim (ipproto_overhead link) [
  | none ↦ link
  | some overhead ↦ record link {
    status = record (link.status) {
      proto_overhead = overhead + header_all_size + knet_h.sec_hash_size + knet_h.sec_salt_size;
    };
  }
]

-- the link after a search that has found an MTU
unfoldable pub accept_mtu : Handle → Timespec → Option Timespec → Link → Link
accept_mtu knet_h clock_now clock_end link =
    if ltb link.status.mtu (calc_min_mtu knet_h)
    then record link { has_valid_mtu = 0 }
    else record link {
      has_valid_mtu = 1;
      pmtud_last = elim clock_end [ none ↦ clock_now | some clock ↦ clock ];
    }

-- what is kept of a search that started from `old`
unfoldable pub keep_result : Handle → PmtudEnv → Timespec → Link → Result → Link → Checked
keep_result knet_h env clock_now old Result.rescheduled link = record {
  link = record link {
    has_valid_mtu = old.has_valid_mtu;
    status = record (link.status) { mtu = old.status.mtu };
  };
  deadlk = true;
  dstcache_update = false;
}
keep_result knet_h env clock_now old Result.failed link = record {
  link = record link { has_valid_mtu = 0 };
  deadlk = false;
  dstcache_update = not (old.has_valid_mtu == 0);
}
keep_result knet_h env clock_now old Result.found link =
    let link' = accept_mtu knet_h clock_now env.clock_end link in
    record {
      link = link';
      deadlk = false;
      dstcache_update = not (old.has_valid_mtu == link'.has_valid_mtu);
    }

-- the search, from where errno is reset
unfoldable pub search_link : Handle → PmtudEnv → Timespec → Link → Checked
search_link knet_h env clock_now link =
    let noted = note_overhead knet_h link in
    let (result, link') = check_link_pmtud knet_h noted env.locked env.answer in
    keep_result knet_h env clock_now noted result link'

-- _handle_check_pmtud; the result is `has_valid_mtu`, or 0 if the clock cannot be read.
unfoldable pub check_pmtud : Handle → PmtudEnv → Bool → Bool → Link → ℕ × Checked
check_pmtud knet_h env force_run deadlk link = elim env.clock_now [
  | none ↦ (0, record { link = link; deadlk = false; dstcache_update = false })
  | some clock ↦
      let due =
        leb (u64 (knet_h.pmtud_interval * 1000000000)) (timespec_diff link.pmtud_last clock) in
      let checked = search_link knet_h env clock link in
      if force_run || due
      then (checked.link.has_valid_mtu, checked)
      else (link.has_valid_mtu, record { link = link; deadlk = deadlk; dstcache_update = false })
]

-- whether the thread looks at a link
unfoldable pub has_path : Link → Bool
has_path link = not (
    not (link.status.enabled == 1)
    || not (link.status.connected == 1)
    || link.transport == transport_loopback
    || link.last_ping_size == 0
    || (link.dynamic == link_dynip && not (link.status.dynconnected == 1)))

-- The state of the walk: whether any link has an MTU, the lowest, errno, and whether it was left by
-- `goto out_unlock`.
pub record Walk : Type 0 where
  pub have_mtu : Bool
  pub lower_mtu : ℕ
  pub deadlk : Bool
  pub left : Bool

unfoldable pub note_mtu : Walk → Bool → Bool → ℕ → Walk
note_mtu w deadlk has_mtu mtu = record w {
  deadlk = deadlk;
  have_mtu = w.have_mtu || has_mtu;
  lower_mtu = if has_mtu && ltb mtu w.lower_mtu then mtu else w.lower_mtu;
}

-- one link
unfoldable pub walk_link : Handle → PmtudEnv → Bool → Walk → Link → Walk × Link
walk_link knet_h env force_run w link =
    let (has_mtu, checked) = check_pmtud knet_h env force_run w.deadlk link in
    let (manual, link') = calculate_manual_mtu knet_h link in
    if w.left || not (has_path link)
    then (w, link)
    else (if truthy knet_h.manual_mtu
        then (note_mtu w w.deadlk manual link'.status.mtu, link')
        else (if checked.deadlk
            then (record w { deadlk = true; left = true }, checked.link)
            else (note_mtu w false (truthy has_mtu) checked.link.status.mtu, checked.link)))

-- the loop over the links, `n` of them left; the surroundings are those of a link
unfoldable pub walk_links : ℕ → ℕ → Handle → (ℕ → PmtudEnv) → Bool → Walk → Host → Walk × Host
walk_links zero link_idx knet_h env force_run w host = (w, host)
walk_links (suc n) link_idx knet_h env force_run w host =
    let (w', link) = walk_link knet_h (env link_idx) force_run w (host.link link_idx) in
    walk_links n (link_idx + 1) knet_h env force_run w'
      (record host { link = update host.link link_idx link })

-- the loop over the hosts
unfoldable pub walk_hosts : List ℕ → Handle → (ℕ → ℕ → PmtudEnv) → Bool → Walk → Walk × Handle
walk_hosts [] knet_h env force_run w = (w, knet_h)
walk_hosts (id ∷ ids) knet_h env force_run w = elim (knet_h.host_index id) [
  | none ↦ walk_hosts ids knet_h env force_run w
  | some host ↦
      let (w', host') = walk_links max_link 0 knet_h (env id) force_run w host in
      walk_hosts ids (record knet_h { host_index = update knet_h.host_index id (some host') }) env
        force_run w'
]

-- the end of a round: the new data MTU, if all links were looked at and any has one
unfoldable pub finish_round : Walk → Handle → Handle × Bool × Option ℕ
finish_round w knet_h =
    let done = record knet_h { pmtud_running = 0 } in
    if not w.left && w.have_mtu && not (knet_h.data_mtu == w.lower_mtu)
    then (record done { data_mtu = w.lower_mtu }, w.deadlk, some w.lower_mtu)
    else (done, w.deadlk, none)

-- A round of _handle_pmtud_link_thread with all locks taken: the handle, errno, and the MTU that
-- pmtud_notify_fn is called with.
unfoldable pub pmtud_round : Handle → (ℕ → ℕ → PmtudEnv) → Bool → Handle × Bool × Option ℕ
pmtud_round knet_h env deadlk =
    let started = record knet_h { pmtud_abort = 0; pmtud_running = 1; pmtud_forcerun = 0 } in
    let w0 : Walk = record {
      have_mtu = false;
      lower_mtu = pmtud_size;
      deadlk = deadlk;
      left = false;
    } in
    let (w, walked) = walk_hosts started.host_list started env (truthy knet_h.pmtud_forcerun) w0 in
    finish_round w walked
