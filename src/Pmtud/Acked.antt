-- ===== src/Pmtud/Acked.antt =====
-- What a search that succeeds has seen (libknet/threads_pmtud.c:_handle_check_link_pmtud), with any
-- encryption and on any network.
use kronosnet.Base.{
  ℕ, zero, suc, ◌-◌, ◌≤◌, ◌<◌, ◌≡◌, ◌⊎◌, inl, inr, refl, sym, ap, ◌∙◌, Bool, true, false, some,
  arith, ◌==◌, u32, Bool-cases, Option-cases,
}
use kronosnet.State.{Link, Handle}
use kronosnet.Onwire.{size_sub, calc_max_data_outlen}
use kronosnet.Pmtud.Discovery.{check_link_pmtud-start}
use kronosnet.Pmtud.{
  Answer, Result, Search, Step, bisect, found_mtu, check_reply, miss_reply, take_answer, gives_up,
  pad_onwire_len, probe, search_loop, start_search, check_link_pmtud, ipproto_overhead, max_probes,
}

Step-cases :
    (step : Step)
    → ((result : Result) × (link : Link) × (step ≡ Step.finish result link))
      ⊎ ((s : Search) × (step ≡ Step.restart s))
Step-cases (Step.finish result link) = inl (result, link, refl)
Step-cases (Step.restart s) = inr (s, refl)

module _ (knet_h : Handle) (overhead : ℕ) where
  -- the application's MTU for packets of `n` bytes
  abbrev pub app_mtu : ℕ → ℕ
  app_mtu n = u32 (calc_max_data_outlen knet_h (size_sub n overhead))

  -- the probe of `n` bytes was answered for that size, and the MTU is the one for it
  abbrev Acked : (ℕ → Answer) → Link → Type 0
  Acked answer link =
      (n : ℕ) × (fast : Bool) × (answer n ≡ Answer.replied n fast) × (link.status.mtu ≡ app_mtu n)

  check_reply-found :
      (s : Search) (recv : ℕ) (sent_link link : Link)
      → check_reply knet_h overhead s recv sent_link ≡ Step.finish Result.found link
      → (recv ≡ s.onwire_len) × (link.status.mtu ≡ app_mtu s.onwire_len)
  unfolding check_reply bisect
  check_reply-found s recv sent_link link e = elim (Bool-cases (recv == s.onwire_len)) [
    | inl same ↦ elim (Bool-cases (found_mtu knet_h s.onwire_len sent_link)) [
      | inl found ↦ ground (arith, same, found, e)
      | inr more ↦ ground (arith, same, more, e)
    ]
    | inr other ↦ ground (arith, other, e)
  ]

  take_answer-found :
      (s : Search) (a : Answer) (link : Link)
      → take_answer knet_h overhead s a ≡ Step.finish Result.found link
      → (fast : Bool) × (a ≡ Answer.replied s.onwire_len fast)
        × (link.status.mtu ≡ app_mtu s.onwire_len)
  unfolding take_answer miss_reply bisect
  take_answer-found s (Answer.broken b) link e = ground (arith, e)
  take_answer-found s (Answer.aborted b) link e = ground (arith, e)
  take_answer-found s (Answer.refused k) link e = ground (arith, e)
  take_answer-found s Answer.unsent link e = ground (arith, e)
  take_answer-found s (Answer.replied recv fast) link e =
      let (same, mtu) = check_reply-found s recv _ link e in
      (fast, ap (λ k. Answer.replied k fast) same, mtu)
  take_answer-found s Answer.timed_out link e = ground (arith, e)
  take_answer-found s Answer.unwaited link e = ground (arith, e)

  probe-found :
      (s : Search) (answer : ℕ → Answer) (link : Link)
      → probe knet_h overhead s answer ≡ Step.finish Result.found link
      → Acked answer link
  unfolding probe
  probe-found s answer link e =
      let n = pad_onwire_len knet_h overhead s.onwire_len in
      elim (Bool-cases
        (gives_up knet_h (calc_max_data_outlen knet_h (size_sub s.onwire_len overhead)) s.link)) [
          | inl over ↦ ground (arith, over, e)
          | inr more ↦
              let e' : take_answer knet_h overhead (record s { onwire_len = n }) (answer n)
                  ≡ Step.finish Result.found link =
                ground (arith, more, e) in
              let (fast, acked, mtu) =
                take_answer-found (record s { onwire_len = n }) (answer n) link e' in
              (n, fast, acked, mtu)
        ]

  search_loop-found :
      (fuel : ℕ) (s : Search) (answer : ℕ → ℕ → Answer) (link : Link)
      → fuel ≤ max_probes
      → search_loop fuel knet_h overhead s answer ≡ (Result.found, link)
      → (i : ℕ) × (i < max_probes) × Acked (answer i) link
  unfolding search_loop
  search_loop-found zero s answer link le e = ground (arith, e)
  search_loop-found (suc fuel) s answer link le e =
      elim (Step-cases (probe knet_h overhead s (answer (max_probes - suc fuel)))) [
        | inl (result, link', ended) ↦
            let same : (result ≡ Result.found) × (link' ≡ link) = ground (arith, ended, e) in
            (
              max_probes - suc fuel,
              omega (arith, le),
              probe-found s (answer (max_probes - suc fuel)) link (ended ∙ ground (arith, same)),
            )
        | inr (s', on) ↦
            search_loop-found fuel s' answer link (omega (arith, le)) (ground (arith, on, e))
      ]

-- A search that finds an MTU, whatever the network and the encryption do, had one of its 30 probes
-- acknowledged for its size, and the MTU is the application's one for that size.
pub check_link_pmtud-acked :
    (knet_h : Handle) (link : Link) (locked : Bool) (answer : ℕ → ℕ → Answer)
    → (check_link_pmtud knet_h link locked answer).0 ≡ Result.found
    → (overhead i n : ℕ) × (fast : Bool) × (ipproto_overhead link ≡ some overhead)
      × (i < max_probes)
      × (answer i n ≡ Answer.replied n fast)
      × ((check_link_pmtud knet_h link locked answer).1.status.mtu ≡ app_mtu knet_h overhead n)
unfolding check_link_pmtud
check_link_pmtud-acked knet_h link false answer e = elim (Option-cases (ipproto_overhead link)) [
  | inl gone ↦ ground (arith, gone, e)
  | inr (overhead, known) ↦ ground (arith, known, e)
]
check_link_pmtud-acked knet_h link true answer e = elim (Option-cases (ipproto_overhead link)) [
  | inl gone ↦ ground (arith, gone, e)
  | inr (overhead, known) ↦
      let start = check_link_pmtud-start knet_h link overhead answer known in
      let (i, lt, (n, fast, acked, mtu)) =
        search_loop-found knet_h overhead max_probes (start_search link overhead) answer
          (check_link_pmtud knet_h link true answer).1 (omega arith)
          (sym start ∙ ap (λ r. (r, (check_link_pmtud knet_h link true answer).1)) e) in
      (overhead, i, n, fast, known, lt, acked, mtu)
]
