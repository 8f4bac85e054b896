-- ===== src/Pmtud/Discovery.antt =====
-- The search for the MTU finds that of the path (libknet/threads_pmtud.c:_handle_check_link_pmtud).
use kronosnet.Base.{
  ℕ, zero, suc, ◌+◌, ◌-◌, ◌≤◌, ◌<◌, ◌≡◌, inl, inr, refl, sym, subst, ap, ◌∙◌, Bool, true, ◌||◌,
  some, arith, ◌==◌, u32, Bool-cases,
}
use kronosnet.State.{Link, Handle}
use kronosnet.Onwire.{size_sub, calc_max_data_outlen}
use kronosnet.Pmtud.Halving.{Phase, Phase-fuel, Phase-bounds, Phase-good, Phase-bad, Phase-refused}
use kronosnet.Pmtud.Bisect.{
  IsPlain, least, IsPath, IsAt, Finds, probe-plain, loop-restart, loop-finish, take-found,
  take-good, take-bad, take-refused,
}
use kronosnet.Pmtud.{
  Answer, Result, Search, Step, take_answer, search_loop, start_search, check_link_pmtud,
  ipproto_overhead, pmtud_size, max_probes,
}

module _ (knet_h : Handle) (overhead mtu iface : ℕ) (answer : ℕ → ℕ → Answer)
    (plain : IsPlain knet_h) (path : IsPath mtu iface answer) where
  -- one round of the loop that goes on
  goes_on :
      (fuel : ℕ) (s s' : Search) (n good bad : ℕ) (a : Answer)
      → IsAt s n good bad
      → least knet_h overhead ≤ n
      → n ≤ pmtud_size
      → answer (max_probes - suc fuel) n ≡ a
      → take_answer knet_h overhead s a ≡ Step.restart s'
      → Finds knet_h overhead plain mtu (search_loop fuel knet_h overhead s' answer)
      → Finds knet_h overhead plain mtu (search_loop (suc fuel) knet_h overhead s answer)
  goes_on fuel s s' n good bad a at low high e next rest =
      let probed =
        probe-plain knet_h overhead plain s n good bad (answer (max_probes - suc fuel)) at low
          high in
      subst (Finds knet_h overhead plain mtu)
        (sym (
          loop-restart knet_h overhead plain fuel s s' answer
            (probed ∙ ap (take_answer knet_h overhead s) e ∙ next)))
        rest

  ends :
      (fuel : ℕ) (s : Search) (n good bad : ℕ) (fast : Bool)
      → IsAt s n good bad
      → least knet_h overhead ≤ n
      → n ≤ pmtud_size
      → answer (max_probes - suc fuel) n ≡ Answer.replied n fast
      → (n == pmtud_size || bad == n + 1 || bad == good) ≡ true
      → n ≡ mtu
      → Finds knet_h overhead plain mtu (search_loop (suc fuel) knet_h overhead s answer)
  ends fuel s n good bad fast at low high e done same =
      let probed =
        probe-plain knet_h overhead plain s n good bad (answer (max_probes - suc fuel)) at low
          high in
      let (link, taken, found) = take-found knet_h overhead plain s n good bad fast at high done in
      subst (Finds knet_h overhead plain mtu)
        (sym (
          loop-finish knet_h overhead plain fuel s Result.found link answer
            (probed ∙ ap (take_answer knet_h overhead s) e ∙ taken)))
        (refl, found ∙ ap (λ k. u32 (calc_max_data_outlen knet_h (size_sub k overhead))) same)

  search_loop-Finds :
      (fuel r n good bad : ℕ) (s : Search)
      → IsAt s n good bad
      → Phase iface fuel r n good bad
      → least knet_h overhead ≤ good
      → (good ≤ mtu) × (mtu < bad)
      → bad ≤ pmtud_size + 1
      → (mtu ≤ iface) × (iface ≤ pmtud_size)
      → Finds knet_h overhead plain mtu (search_loop fuel knet_h overhead s answer)
  search_loop-Finds zero r n good bad s at phase low between top ifs =
      ground (arith, Phase-fuel iface zero r n good bad phase)
  search_loop-Finds (suc fuel) r n good bad s at phase low between top ifs =
      let (above, below) = Phase-bounds iface (suc fuel) r n good bad phase (omega arith) in
      elim (path (max_probes - suc fuel) n) [
        | inl (le, (fast, e)) ↦ elim (Bool-cases (n == pmtud_size || bad == n + 1 || bad == good)) [
          | inl done ↦
              ends fuel s n good bad fast at (omega arith) (omega arith) e done (ground arith)
          | inr more ↦
              let (s', next, at') =
                take-good knet_h overhead plain s n good bad fast at (omega arith) (omega arith)
                  more in
              let (r', phase') = Phase-good iface fuel r n good bad phase (omega arith) more in
              goes_on fuel s s' n good bad (Answer.replied n fast) at (omega arith) (omega arith) e
                next
                (search_loop-Finds fuel r' _ n bad s' at' phase' (omega arith) (omega arith)
                  (omega arith) ifs)
        ]
        | inr (inl (gt, e)) ↦
            let a = answer (max_probes - suc fuel) n in
            let (s', next, at') =
              take-bad knet_h overhead plain s n good bad a at (omega arith) e in
            let (r', phase') =
              Phase-bad iface fuel r n good bad mtu phase (omega arith) (omega arith) in
            goes_on fuel s s' n good bad a at (omega arith) (omega arith) refl next
              (search_loop-Finds fuel r' _ good n s' at' phase' low (omega arith) (omega arith) ifs)
        | inr (inr (gt, e)) ↦
            let (s', next, at') =
              take-refused knet_h overhead plain s n good bad iface at (omega arith)
                (omega arith) in
            let (r', phase') =
              Phase-refused iface fuel r n good bad phase (omega arith) (omega arith) in
            goes_on fuel s s' n good bad (Answer.refused iface) at (omega arith) (omega arith) e
              next
              (search_loop-Finds fuel r' iface good (iface + 1) s' at' phase' low (omega arith)
                (omega arith) ifs)
      ]

  start_search-Finds :
      (s : Search) (good : ℕ)
      → IsAt s pmtud_size good 0
      → least knet_h overhead ≤ good
      → good ≤ mtu
      → (mtu ≤ iface) × (iface ≤ pmtud_size)
      → Finds knet_h overhead plain mtu (search_loop max_probes knet_h overhead s answer)
  start_search-Finds s good at low le ifs = elim (path 0 pmtud_size) [
    | inl (fits, (fast, e)) ↦
        ends 29 s pmtud_size good 0 fast at (omega arith) (omega arith) e refl (omega arith)
    | inr (inl (gt, e)) ↦
        let a = answer 0 pmtud_size in
        let (s', next, at') =
          take-bad knet_h overhead plain s pmtud_size good 0 a at (omega arith) e in
        goes_on 29 s s' pmtud_size good 0 a at (omega arith) (omega arith) refl next (
          search_loop-Finds 29 16 _ good pmtud_size s' at'
            (inr (inl (refl, omega arith, omega arith))) low (omega arith) (omega arith) ifs)
    | inr (inr (gt, e)) ↦
        let (s', next, at') =
          take-refused knet_h overhead plain s pmtud_size good 0 iface at (omega arith)
            (omega arith) in
        goes_on 29 s s' pmtud_size good 0 (Answer.refused iface) at (omega arith) (omega arith) e
          next
          (search_loop-Finds 29 16 iface good (iface + 1) s' at'
            (inr (inr (refl, refl, omega arith, omega arith))) low (omega arith) (omega arith) ifs)
  ]

pub check_link_pmtud-start :
    (knet_h : Handle) (link : Link) (overhead : ℕ) (answer : ℕ → ℕ → Answer)
    → ipproto_overhead link ≡ some overhead
    → check_link_pmtud knet_h link true answer
      ≡ search_loop max_probes knet_h overhead (start_search link overhead) answer
unfolding check_link_pmtud
check_link_pmtud-start knet_h link overhead answer e = rw (e, check_link_pmtud) refl

-- Without encryption, on a link that is up, over a network that carries packets of up to `mtu` bytes and
-- no larger ones, whether or not the kernel tells the MTU of its interface (at least that of the path,
-- at most 65535): if the last ping fits and is no shorter than the headers, the search ends within its 30
-- probes and has found the application's MTU for exactly `mtu` bytes.
pub check_link_pmtud-finds :
    (knet_h : Handle) (link : Link) (overhead mtu iface : ℕ) (answer : ℕ → ℕ → Answer)
    → IsPlain knet_h
    → IsPath mtu iface answer
    → ipproto_overhead link ≡ some overhead
    → (link.status.connected ≡ 1) × (link.transport_connected ≡ 1)
    → least knet_h overhead ≤ link.last_ping_size + overhead
    → link.last_ping_size + overhead ≤ mtu
    → (mtu ≤ iface) × (iface ≤ pmtud_size)
    → let (result, link') = check_link_pmtud knet_h link true answer in
      (result ≡ Result.found)
      × (link'.status.mtu ≡ u32 (calc_max_data_outlen knet_h (size_sub mtu overhead)))
unfolding check_link_pmtud start_search
check_link_pmtud-finds knet_h link overhead mtu iface answer plain path e (up, transport) low le
      ifs =
    let found =
      start_search-Finds knet_h overhead mtu iface answer plain path (start_search link overhead)
        (link.last_ping_size + overhead)
        (record {
          connected = up;
          transport = transport;
          size = refl;
          last_good = omega arith;
          last_bad = refl;
        })
        low le ifs in
    subst (Finds knet_h overhead plain mtu)
      (sym (check_link_pmtud-start knet_h link overhead answer e)) found
