-- ===== src/Pmtud/Bisect.antt =====
-- The search for the path MTU on a network that carries packets of up to a fixed size
-- (libknet/threads_pmtud.c:_handle_check_link_pmtud), without encryption.
use kronosnet.Base.{
  ℕ, suc, ◌+◌, ◌-◌, ◌/◌, ◌^◌, ◌≤◌, ◌<◌, ◌≡◌, ◌⊎◌, inl, inr, refl, ap, ◌∙◌, Bool, true, false, ◌&&◌,
  ◌||◌, arith, ◌==◌, truthy, u32,
}
use kronosnet.State.{Link, Handle}
use kronosnet.Onwire.{size_add, size_sub, header_all_size, calc_max_data_outlen}
use kronosnet.Onwire.Sizes.{IsSmall, plain_max, calc_max_data_outlen_plain}
use kronosnet.Pmtud.{
  Answer, Result, Search, Step, pad_onwire_len, found_mtu, bisect, reduce_multiplier, check_reply,
  miss_reply, take_answer, gives_up, probe, search_loop, pmtud_size, max_probes, sent,
}

-- No encryption, so nothing is padded, and an on-wire version that is understood.
pub record IsPlain (knet_h : Handle) : Type 0 where
  pub small : IsSmall knet_h
  pub block : knet_h.sec_block_size ≡ 0
  pub crypto : knet_h.crypto_in_use_config ≡ 0
  pub version : (truthy knet_h.onwire_ver_remap || knet_h.onwire_ver == 1) ≡ true

-- what a packet without data takes
abbrev pub least : Handle → ℕ → ℕ
least knet_h overhead = overhead + (header_all_size + knet_h.sec_salt_size + knet_h.sec_hash_size)

-- A network that carries packets of up to `mtu` bytes, and larger ones not; the kernel may refuse a
-- packet and may tell the MTU of the interface, which is `iface`.
abbrev pub IsPath : ℕ → ℕ → (ℕ → ℕ → Answer) → Type 0
IsPath mtu iface answer =
    (i n : ℕ)
    → (n ≤ mtu) × ((fast : Bool) × (answer i n ≡ Answer.replied n fast))
      ⊎ (mtu < n) × ((answer i n ≡ Answer.timed_out) ⊎ (answer i n ≡ Answer.refused 0))
      ⊎ (iface < n) × (answer i n ≡ Answer.refused iface)

pad_plain :
    (knet_h : Handle) (overhead n : ℕ)
    → IsPlain knet_h
    → least knet_h overhead ≤ n
    → n ≤ pmtud_size
    → pad_onwire_len knet_h overhead n ≡ n
unfolding pad_onwire_len
pad_plain knet_h overhead n plain low high =
    let room : size_sub n overhead ≡ n - overhead = omega arith in
    let app = plain_max knet_h (n - overhead) plain.small plain.block (omega arith) (omega arith) in
    let inner : size_add (calc_max_data_outlen knet_h (n - overhead)) header_all_size
        ≡ calc_max_data_outlen knet_h (n - overhead) + header_all_size =
      omega (arith, app) in
    let exact =
      calc_max_data_outlen_plain knet_h (n - overhead) plain.small (omega arith) plain.block
        (omega arith) in
    rw (room, inner, exact) (omega arith)

-- the fields that the search decides by
pub record IsAt (s : Search) (n good bad : ℕ) : Type 0 where
  pub connected : s.link.status.connected ≡ 1
  pub transport : s.link.transport_connected ≡ 1
  pub size : s.onwire_len ≡ n
  pub last_good : s.link.last_good_mtu ≡ good
  pub last_bad : s.link.last_bad_mtu ≡ bad

module _ (knet_h : Handle) (overhead : ℕ) (plain : IsPlain knet_h) where
  gives_up_plain :
      (app_mtu_len : ℕ) (link : Link)
      → link.status.connected ≡ 1
      → link.transport_connected ≡ 1
      → gives_up knet_h app_mtu_len link ≡ false
  unfolding gives_up
  gives_up_plain app_mtu_len link up transport =
      ground (arith, up, transport, plain.crypto, plain.version)

  pub probe-plain :
      (s : Search) (n good bad : ℕ) (answer : ℕ → Answer)
      → IsAt s n good bad
      → least knet_h overhead ≤ n
      → n ≤ pmtud_size
      → probe knet_h overhead s answer ≡ take_answer knet_h overhead s (answer n)
  unfolding probe
  probe-plain s n good bad answer at low high =
      let pad =
        pad_plain knet_h overhead s.onwire_len plain (omega (arith, at.size))
          (omega (arith, at.size)) in
      let goes_on =
        gives_up_plain (calc_max_data_outlen knet_h (size_sub s.onwire_len overhead)) s.link
          at.connected at.transport in
      rw (pad, goes_on) (ap (λ k. take_answer knet_h overhead s (answer k)) at.size)

  pub loop-restart :
      (n : ℕ) (s s' : Search) (answer : ℕ → ℕ → Answer)
      → probe knet_h overhead s (answer (max_probes - suc n)) ≡ Step.restart s'
      → search_loop (suc n) knet_h overhead s answer ≡ search_loop n knet_h overhead s' answer
  unfolding search_loop
  loop-restart n s s' answer e = rw (e, search_loop) refl

  pub loop-finish :
      (n : ℕ) (s : Search) (result : Result) (link : Link) (answer : ℕ → ℕ → Answer)
      → probe knet_h overhead s (answer (max_probes - suc n)) ≡ Step.finish result link
      → search_loop (suc n) knet_h overhead s answer ≡ (result, link)
  unfolding search_loop
  loop-finish n s result link answer e = rw (e, search_loop) refl

  -- the search ends with the application's MTU for packets of `mtu` bytes
  abbrev pub Finds : ℕ → Result × Link → Type 0
  Finds mtu (result, link) =
      (result ≡ Result.found)
      × (link.status.mtu ≡ u32 (calc_max_data_outlen knet_h (size_sub mtu overhead)))

  reduce_plain : (fast : Bool) (link : Link) → reduce_multiplier knet_h fast link ≡ link
  unfolding reduce_multiplier
  reduce_plain fast link =
      let off : truthy knet_h.crypto_in_use_config ≡ false = ground (arith, plain.crypto) in
      rw (off) refl

  found_plain :
      (s : Search) (n good bad : ℕ) (link : Link)
      → s.onwire_len ≡ n
      → n ≤ pmtud_size
      → (link.last_good_mtu ≡ good) × (link.last_bad_mtu ≡ bad)
      → found_mtu knet_h s.onwire_len link ≡ (n == pmtud_size || bad == n + 1 || bad == good)
  unfolding found_mtu
  found_plain s n good bad link size small (g, b) = ground (arith, plain.block, size, small, g, b)

  -- a reply to a probe, and the next one
  pub take-found :
      (s : Search) (n good bad : ℕ) (fast : Bool)
      → IsAt s n good bad
      → n ≤ pmtud_size
      → (n == pmtud_size || bad == n + 1 || bad == good) ≡ true
      → (link : Link) × (take_answer knet_h overhead s (Answer.replied n fast)
          ≡ Step.finish Result.found link)
        × (link.status.mtu ≡ u32 (calc_max_data_outlen knet_h (size_sub n overhead)))
  unfolding take_answer check_reply
  take-found s n good bad fast at small done =
      let same : (n == s.onwire_len) ≡ true = ground (arith, at.size) in
      let found =
        found_plain s n good bad (sent s n) at.size small (at.last_good, at.last_bad) ∙ done in
      (
        record (sent s n) {
          status = record (s.link.status) {
            mtu = u32 (calc_max_data_outlen knet_h (size_sub s.onwire_len overhead));
          };
        },
        rw (reduce_plain (fast && s.crypto_reduce) (sent s n), same, found) refl,
        ap (λ k. u32 (calc_max_data_outlen knet_h (size_sub k overhead))) at.size,
      )

  pub take-good :
      (s : Search) (n good bad : ℕ) (fast : Bool)
      → IsAt s n good bad
      → n + bad < 2 ^ 32
      → n ≤ pmtud_size
      → (n == pmtud_size || bad == n + 1 || bad == good) ≡ false
      → (s' : Search) × (take_answer knet_h overhead s (Answer.replied n fast) ≡ Step.restart s')
        × IsAt s' ((n + bad) / 2) n bad
  unfolding take_answer check_reply bisect
  take-good s n good bad fast at fits small more =
      let same : (n == s.onwire_len) ≡ true = ground (arith, at.size) in
      let found =
        found_plain s n good bad (sent s n) at.size small (at.last_good, at.last_bad) ∙ more in
      let link = record (sent s n) { last_good_mtu = u32 s.onwire_len } in
      (
        record s { link = link; onwire_len = u32 (link.last_good_mtu + link.last_bad_mtu) / 2 },
        rw (reduce_plain (fast && s.crypto_reduce) (sent s n), same, found) refl,
        record {
          connected = at.connected;
          transport = at.transport;
          size = ground (arith, at.size, at.last_bad, fits, small);
          last_good = omega (arith, at.size, small);
          last_bad = at.last_bad;
        },
      )

  missed :
      (s : Search) (n good bad : ℕ) (link : Link)
      → IsAt s n good bad
      → good + n < 2 ^ 32
      → link.status.connected ≡ 1
      → link.transport_connected ≡ 1
      → link.last_good_mtu ≡ s.link.last_good_mtu
      → link.last_bad_mtu ≡ u32 s.onwire_len
      → IsAt
          (record s { link = link; onwire_len = u32 (link.last_good_mtu + link.last_bad_mtu) / 2 })
          ((good + n) / 2)
          good
          n
  missed s n good bad link at fits up transport g b = record {
    connected = up;
    transport = transport;
    size = ground (arith, at.size, at.last_good, fits, g, b);
    last_good = g ∙ at.last_good;
    last_bad = omega (arith, at.size, fits, b);
  }

  pub take-bad :
      (s : Search) (n good bad : ℕ) (answer : Answer)
      → IsAt s n good bad
      → good + n < 2 ^ 32
      → (answer ≡ Answer.timed_out) ⊎ (answer ≡ Answer.refused 0)
      → (s' : Search) × (take_answer knet_h overhead s answer ≡ Step.restart s')
        × IsAt s' ((good + n) / 2) good n
  unfolding take_answer miss_reply bisect
  take-bad s n good bad answer at fits (inl e) =
      let slow : truthy knet_h.crypto_in_use_config ≡ false = ground (arith, plain.crypto) in
      let link = record (sent s 0) { last_bad_mtu = u32 s.onwire_len } in
      (
        record s { link = link; onwire_len = u32 (link.last_good_mtu + link.last_bad_mtu) / 2 },
        rw (e, slow) refl,
        missed s n good bad link at fits at.connected at.transport refl refl,
      )
  take-bad s n good bad answer at fits (inr e) =
      let link = record (s.link) { last_bad_mtu = u32 s.onwire_len } in
      (
        record s { link = link; onwire_len = u32 (link.last_good_mtu + link.last_bad_mtu) / 2 },
        rw (e) refl,
        missed s n good bad link at fits at.connected at.transport refl refl,
      )

  pub take-refused :
      (s : Search) (n good bad kernel : ℕ)
      → IsAt s n good bad
      → 0 < kernel
      → kernel < 2 ^ 31
      → (s' : Search) × (take_answer knet_h overhead s (Answer.refused kernel) ≡ Step.restart s')
        × IsAt s' kernel good (kernel + 1)
  unfolding take_answer
  take-refused s n good bad kernel at pos fits =
      let told : truthy kernel ≡ true = ground (arith, pos) in
      (
        record s {
          link = record (s.link) { last_bad_mtu = u32 (kernel + 1) };
          onwire_len = kernel;
        },
        rw (told) refl,
        record {
          connected = at.connected;
          transport = at.transport;
          size = refl;
          last_good = at.last_good;
          last_bad = omega (arith, fits);
        },
      )
