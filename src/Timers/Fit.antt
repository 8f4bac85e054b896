-- ===== src/Timers/Fit.antt =====
-- No configured link has a pong timeout below the timer resolution of the threads
-- (libknet/threads_common.c:knet_handle_set_threads_timer_res, libknet/links.c).
use kronosnet.Base.{
  ℕ, zero, suc, ◌+◌, ◌≤◌, ◌≡◌, inl, inr, refl, sym, ap, ◌∙◌, Bool, true, false, Option, none, some,
  List, [], ◌∷◌, arith, ltb, ◌==◌, truthy, update, Bool-cases, Option-cases,
}
use kronosnet.State.{Link, Host, Handle}
use kronosnet.Onwire.{hosts_of}
use kronosnet.Timers.{is_short, any_short, hosts_short, set_threads_timer_res}

-- the check of knet_handle_set_threads_timer_res on the resolution in use
abbrev pub is_slow : Handle → Bool
is_slow knet_h = hosts_short knet_h.threads_timer_res (hosts_of knet_h.host_index knet_h.host_list)

any_short-le :
    (n k r r' : ℕ) (link : ℕ → Link)
    → r' ≤ r
    → any_short n k r link ≡ false
    → any_short n k r' link ≡ false
unfolding any_short is_short
any_short-le zero k r r' link le e = refl
any_short-le (suc n) k r r' link le e =
    ground (arith, le, e, any_short-le n (k + 1) r r' link le (ground (arith, e)))

hosts_short-le :
    (r r' : ℕ) (hosts : List Host)
    → r' ≤ r
    → hosts_short r hosts ≡ false
    → hosts_short r' hosts ≡ false
unfolding hosts_short
hosts_short-le r r' [] le e = refl
hosts_short-le r r' (h ∷ hs) le e =
    let first = any_short-le 8 0 r r' h.link le (ground (arith, e)) in
    let rest = hosts_short-le r r' hs le (ground (arith, e)) in rw (first, rest) refl

pub any_short-update :
    (n k r i : ℕ) (link : ℕ → Link) (l : Link)
    → is_short r l ≡ false
    → any_short n k r link ≡ false
    → any_short n k r (update link i l) ≡ false
unfolding any_short
any_short-update zero k r i link l new e = refl
any_short-update (suc n) k r i link l new e =
    let rest = any_short-update n (k + 1) r i link l new (ground (arith, e)) in
    ground (arith, new, e, rest)

pub hosts_of-here :
    (host_index : ℕ → Option Host) (id : ℕ) (ids : List ℕ) (h : Host)
    → host_index id ≡ some h
    → hosts_of host_index (id ∷ ids) ≡ h ∷ hosts_of host_index ids
unfolding hosts_of
hosts_of-here host_index id ids h e = rw (e, hosts_of) refl

hosts_of-gone :
    (host_index : ℕ → Option Host) (id : ℕ) (ids : List ℕ)
    → host_index id ≡ none
    → hosts_of host_index (id ∷ ids) ≡ hosts_of host_index ids
unfolding hosts_of
hosts_of-gone host_index id ids e = rw (e, hosts_of) refl

hosts_short-cons :
    (r : ℕ) (h : Host) (hs : List Host)
    → any_short 8 0 r h.link ≡ false
    → hosts_short r hs ≡ false
    → hosts_short r (h ∷ hs) ≡ false
unfolding hosts_short
hosts_short-cons r h hs a b = rw (a, b) refl

pub hosts_short-uncons :
    (r : ℕ) (h : Host) (hs : List Host)
    → hosts_short r (h ∷ hs) ≡ false
    → (any_short 8 0 r h.link ≡ false) × (hosts_short r hs ≡ false)
unfolding hosts_short
hosts_short-uncons r h hs e = ground (arith, e)

-- the hosts of the list behind its first id, if none of them has a short link
pub hosts_short-tail :
    (r x : ℕ) (ids : List ℕ) (host_index : ℕ → Option Host)
    → hosts_short r (hosts_of host_index (x ∷ ids)) ≡ false
    → hosts_short r (hosts_of host_index ids) ≡ false
hosts_short-tail r x ids host_index e = elim (Option-cases (host_index x)) [
  | inl gone ↦ ap (hosts_short r) (sym (hosts_of-gone host_index x ids gone)) ∙ e
  | inr (h, known) ↦
      (hosts_short-uncons r h (hosts_of host_index ids)
        (ap (hosts_short r) (sym (hosts_of-here host_index x ids h known)) ∙ e)).1
]

-- One host of the index is replaced by one without a short link.
pub hosts_short-update :
    (r id : ℕ) (ids : List ℕ) (host_index : ℕ → Option Host) (host : Host)
    → any_short 8 0 r host.link ≡ false
    → hosts_short r (hosts_of host_index ids) ≡ false
    → hosts_short r (hosts_of (update host_index id (some host)) ids) ≡ false
hosts_short-update r id [] host_index host new e = unfold hosts_short hosts_of in refl
hosts_short-update r id (x ∷ ids) host_index host new e =
    let index' = update host_index id (some host) in
    let rest =
      hosts_short-update r id ids host_index host new (hosts_short-tail r x ids host_index e) in
    elim (Bool-cases (x == id)) [
      | inl here ↦
          let known : index' x ≡ some host = ground (arith, here) in
          ap (hosts_short r) (hosts_of-here index' x ids host known)
          ∙ hosts_short-cons r host (hosts_of index' ids) new rest
      | inr other ↦ elim (Option-cases (host_index x)) [
        | inl gone ↦
            let gone' : index' x ≡ none = ground (arith, other, gone) in
            ap (hosts_short r) (hosts_of-gone index' x ids gone') ∙ rest
        | inr (h, known) ↦
            let known' : index' x ≡ some h = ground (arith, other, known) in
            let old =
              hosts_short-uncons r h (hosts_of host_index ids)
                (ap (hosts_short r) (sym (hosts_of-here host_index x ids h known)) ∙ e) in
            ap (hosts_short r) (hosts_of-here index' x ids h known')
            ∙ hosts_short-cons r h (hosts_of index' ids) old.0 rest
      ]
    ]

-- the resolution that is set, or refused
pub set_threads_timer_res-fits :
    (knet_h : Handle) (timeres locked : ℕ)
    → truthy timeres ≡ true
    → is_slow knet_h ≡ false
    → is_slow (set_threads_timer_res knet_h timeres locked).1 ≡ false
unfolding set_threads_timer_res
set_threads_timer_res-fits knet_h timeres locked set e =
    let hosts = hosts_of knet_h.host_index knet_h.host_list in
    elim (Bool-cases (ltb knet_h.threads_timer_res timeres)) [
      | inl more ↦ elim (Bool-cases (hosts_short timeres hosts)) [
        | inl short ↦ ground (arith, set, e, more, short)
        | inr fits ↦ ground (arith, set, e, more, fits)
      ]
      | inr less ↦
          let fits =
            hosts_short-le knet_h.threads_timer_res timeres hosts (ground (arith, less)) e in
          ground (arith, set, e, less, fits)
    ]
