-- ===== src/HandleApi/Channels.antt =====
-- What is added as a data descriptor is found by its descriptor and by its channel, and can be taken away
-- again (libknet/handle_api.c).
use kronosnet.Base.{
  ℕ, zero, suc, ◌+◌, ◌≤◌, ◌<◌, ◌≡◌, ◌≢◌, inl, inr, refl, sym, ap, ◌∙◌, subst, fun_ext, true, false,
  Option, none, some, arith, ltb, ◌==◌, if◌then◌else◌, truthy, update, Bool-cases, Option-cases,
}
use kronosnet.State.{Sock, Handle, zero_sock}
use kronosnet.HandleApi.{
  SockEnv, Added, is_too_high, datafd_max, find_sock, find_unused, choose_channel, is_taken,
  set_up_sock, watch_sock, add_to_channel, add_datafd, remove_datafd, get_datafd, get_channel,
}

find_sock-update :
    (n i c fd : ℕ) (sockfd : ℕ → Sock) (sock : Sock)
    → find_sock n i fd sockfd ≡ none
    → (i ≤ c) × (c < i + n)
    → truthy sock.in_use ≡ true
    → sock.app_fd ≡ fd
    → find_sock n i fd (update sockfd c sock) ≡ some c
unfolding find_sock
find_sock-update zero i c fd sockfd sock absent (low, high) used same =
    absurd (omega (arith, low, high))
find_sock-update (suc n) i c fd sockfd sock absent (low, high) used same =
    elim (Bool-cases (i == c)) [
      | inl here ↦ ground (arith, here, used, same)
      | inr there ↦
          let rest =
            find_sock-update n (i + 1) c fd sockfd sock (ground (arith, absent))
              (ground (arith, there, low), omega (arith, high)) used same in
          ground (arith, rest, there, absent)
    ]

find_unused-lt : (n i c : ℕ) (sockfd : ℕ → Sock) → find_unused n i sockfd ≡ some c → c < i + n
unfolding find_unused
find_unused-lt zero i c sockfd e = cc
find_unused-lt (suc n) i c sockfd e = elim (Bool-cases (truthy (sockfd i).in_use)) [
  | inl used ↦ let lt = find_unused-lt n (i + 1) c sockfd (rw (used) at e) in omega (arith, lt)
  | inr free ↦ ground (arith, free, e)
]

-- The descriptors of a new socket pair are above 0 and not in use.
abbrev pub IsNew : Handle → Option (ℕ × ℕ) → Type 0
IsNew knet_h none = Unit
IsNew knet_h (some (a, b)) = (truthy a ≡ true) × (find_sock datafd_max 0 a knet_h.sockfd ≡ none)

-- what a call that adds a descriptor has done
abbrev IsAdded : Handle → Added → Type 0
IsAdded knet_h r =
    (c : ℕ) × (sock : Sock) × (r.channel ≡ some c)
    × (c < datafd_max)
    × (r.handle ≡ record knet_h { sockfd = update knet_h.sockfd c sock })
    × (truthy sock.in_use ≡ true)
    × (sock.app_fd ≡ r.datafd)
    × (truthy r.datafd ≡ true)
    × (find_sock datafd_max 0 r.datafd knet_h.sockfd ≡ none)

not_taken :
    (knet_h : Handle) (fd : ℕ)
    → is_taken knet_h fd ≡ false
    → ltb 0 fd ≡ true
    → find_sock datafd_max 0 fd knet_h.sockfd ≡ none
unfolding is_taken
not_taken knet_h fd free pos = elim (Option-cases (find_sock datafd_max 0 fd knet_h.sockfd)) [
  | inl absent ↦ absent
  | inr (i, found) ↦ absurd (ground (arith, free, pos, found))
]

add_to_channel-IsAdded :
    (env : SockEnv) (knet_h : Handle) (fd c : ℕ)
    → IsNew knet_h env.socketpair
    → c < datafd_max
    → is_taken knet_h fd ≡ false
    → (add_to_channel env knet_h fd c).errno ≡ 0
    → IsAdded knet_h (add_to_channel env knet_h fd c)
unfolding add_to_channel set_up_sock watch_sock
add_to_channel-IsAdded env knet_h fd c new lt free e = elim (Bool-cases (ltb 0 fd)) [
  | inl given ↦
      let a : truthy env.cloexec_err ≡ false = ground (arith, e, given) in
      let b : truthy env.nonblock_err ≡ false = ground (arith, e, given, a) in
      let c' : truthy env.epoll_err ≡ false = ground (arith, e, given, a, b) in
      let sock : Sock = record (knet_h.sockfd c) {
        is_created = 0;
        has_error = 0;
        app_fd = fd;
        knet_fd = 0;
        is_socket = if env.is_socket then 1 else 0;
        in_use = 1;
      } in
      rw (given, a, b, c')
        (c, sock, refl, lt, refl, refl, refl, ground (arith, given), not_taken knet_h fd free given)
  | inr made ↦ elim (Option-cases env.socketpair) [
    | inl failed ↦ absurd (ground (arith, made, failed, e))
    | inr ((a, b), pair) ↦
        let watched : truthy env.epoll_err ≡ false = ground (arith, e, made, pair) in
        let fresh : IsNew knet_h (some (a, b)) = subst (IsNew knet_h) pair new in
        let sock : Sock = record (knet_h.sockfd c) {
          is_created = 1;
          has_error = 0;
          app_fd = a;
          knet_fd = b;
          is_socket = 1;
          in_use = 1;
        } in
        rw (made, pair, watched) (c, sock, refl, lt, refl, refl, refl, fresh.0, fresh.1)
  ]
]

choose_channel-lt :
    (knet_h : Handle) (channel : Option ℕ) (c : ℕ)
    → is_too_high channel ≡ false
    → (choose_channel knet_h channel).1 ≡ some c
    → c < datafd_max
unfolding choose_channel
choose_channel-lt knet_h (some c') c low e = ground (arith, low, e)
choose_channel-lt knet_h none c low e =
    elim (Option-cases (find_unused datafd_max 0 knet_h.sockfd)) [
      | inl full ↦ absurd (ground (arith, full, e))
      | inr (i, free) ↦
          let lt = find_unused-lt datafd_max 0 i knet_h.sockfd free in ground (arith, lt, free, e)
    ]

chosen-ne-none :
    (knet_h : Handle) (channel : Option ℕ)
    → (choose_channel knet_h channel).1 ≡ none
    → (choose_channel knet_h channel).0 ≢ 0
unfolding choose_channel
chosen-ne-none knet_h (some c) e = ground (arith, e)
chosen-ne-none knet_h none e = ground (arith, e)

add_datafd-IsAdded :
    (env : SockEnv) (knet_h : Handle) (fd : ℕ) (channel : Option ℕ)
    → IsNew knet_h env.socketpair
    → (add_datafd env knet_h fd channel).errno ≡ 0
    → IsAdded knet_h (add_datafd env knet_h fd channel)
unfolding add_datafd
add_datafd-IsAdded env knet_h fd channel new e = elim (Bool-cases (is_too_high channel)) [
  | inl bad ↦ absurd (ground (arith, bad, e))
  | inr low ↦ elim (Bool-cases (truthy env.locked)) [
    | inl bad ↦ absurd (ground (arith, low, bad, e))
    | inr free ↦ elim (Bool-cases knet_h.sock_notify) [
      | inr bad ↦ absurd (ground (arith, low, free, bad, e))
      | inl told ↦ elim (Bool-cases (is_taken knet_h fd)) [
        | inl bad ↦ absurd (ground (arith, low, free, told, bad, e))
        | inr unused ↦ elim (Option-cases (choose_channel knet_h channel).1) [
          | inl full ↦ absurd (
              chosen-ne-none knet_h channel full (ground (arith, low, free, told, unused, full, e)))
          | inr (c, chosen) ↦ elim (Bool-cases (truthy (choose_channel knet_h channel).0)) [
            | inl bad ↦ absurd (ground (arith, low, free, told, unused, chosen, bad, e))
            | inr ready ↦
                let same : add_datafd env knet_h fd channel ≡ add_to_channel env knet_h fd c =
                  ground (arith, low, free, told, unused, chosen, ready) in
                subst (IsAdded knet_h) (sym same) (
                  add_to_channel-IsAdded env knet_h fd c new
                    (choose_channel-lt knet_h channel c low chosen) unused
                    (ap (λ (r : Added). r.errno) (sym same) ∙ e))
          ]
        ]
      ]
    ]
  ]
]

-- the handle with a descriptor on a channel
abbrev with_sock : Handle → ℕ → Sock → Handle
with_sock knet_h c sock = record knet_h { sockfd = update knet_h.sockfd c sock }

-- what then holds of a handle and a descriptor
abbrev pub IsFound : SockEnv → Handle → ℕ → ℕ → Handle → Type 0
IsFound env knet_h fd c after =
    (get_channel after fd 0 ≡ (0, some c))
    × (get_datafd after c 0 ≡ (0, some fd))
    × ((add_datafd env after fd none).errno ≢ 0)
    × (remove_datafd env after fd
        ≡ (0, record knet_h { sockfd = update knet_h.sockfd c zero_sock }))

with_sock-IsFound :
    (env : SockEnv) (knet_h : Handle) (fd c : ℕ) (sock : Sock)
    → env.locked ≡ 0
    → env.epoll_err ≡ 0
    → c < datafd_max
    → truthy sock.in_use ≡ true
    → sock.app_fd ≡ fd
    → truthy fd ≡ true
    → find_sock datafd_max 0 fd knet_h.sockfd ≡ none
    → IsFound env knet_h fd c (with_sock knet_h c sock)
unfolding get_channel get_datafd add_datafd is_taken remove_datafd
with_sock-IsFound env knet_h fd c sock unlocked watched lt used same pos absent =
    let found =
      find_sock-update datafd_max 0 c fd knet_h.sockfd sock absent (omega arith, omega (arith, lt))
        used same in
    let cleared : update (update knet_h.sockfd c sock) c zero_sock
        ≡ update knet_h.sockfd c zero_sock =
      fun_ext (λ j. ground arith) in
    (
      ground (arith, found, pos),
      ground (arith, lt, used, same),
      ground (arith, found, pos),
      ground (arith, found, pos, unlocked, watched, cleared),
    )

-- A descriptor that was added with success, given or made, is found under its channel, and its channel
-- under it; a second call with it is refused; and taking it away succeeds and leaves the handle as it
-- was, with the channel cleared.
pub remove_datafd-add_datafd :
    (env env' : SockEnv) (knet_h : Handle) (fd : ℕ) (channel : Option ℕ)
    → IsNew knet_h env.socketpair
    → (add_datafd env knet_h fd channel).errno ≡ 0
    → env'.locked ≡ 0
    → env'.epoll_err ≡ 0
    → let r = add_datafd env knet_h fd channel in
      (c : ℕ) × (r.channel ≡ some c) × (c < datafd_max) × IsFound env' knet_h r.datafd c r.handle
remove_datafd-add_datafd env env' knet_h fd channel new e unlocked watched =
    let r = add_datafd env knet_h fd channel in
    let (c, sock, chan, lt, handle, used, same, pos, absent) =
      add_datafd-IsAdded env knet_h fd channel new e in
    (
      c,
      chan,
      lt,
      subst (IsFound env' knet_h r.datafd c) (sym handle)
          (with_sock-IsFound env' knet_h r.datafd c sock unlocked watched lt used same pos absent),
    )
