-- ===== src/HandleApi.antt =====
-- libknet/handle_api.c: the data descriptors of a handle and their channels, and settings. Descriptors are
-- natural numbers: 0 stands for any that is not above 0. A channel below 0 is `none`. What the lock and
-- the system calls answer is an argument: an errno, 0 on success.
pub mod Settings
mod Channels
mod Tests
use kronosnet.Base.{
  ℕ, zero, suc, ◌+◌, Bool, true, false, ◌&&◌, ◌||◌, not, Option, none, some, List, [], ◌∷◌, ltb,
  leb, ◌==◌, if◌then◌else◌, truthy, update, map,
}
use kronosnet.State.{Sock, Host, Handle, zero_sock}
use kronosnet.SeqNum.{clear_defrag_bufs_stats}
use kronosnet.Hosts.{einval, ebusy, eexist}

-- KNET_DATAFD_MAX
abbrev pub datafd_max : ℕ
datafd_max = 32

-- the loops over the channels, with `n` rounds left at channel `i`: one that has the descriptor
unfoldable pub find_sock : ℕ → ℕ → ℕ → (ℕ → Sock) → Option ℕ
find_sock zero i datafd sockfd = none
find_sock (suc n) i datafd sockfd =
    let rest = find_sock n (i + 1) datafd sockfd in
    if truthy (sockfd i).in_use && (sockfd i).app_fd == datafd then some i else rest

-- and one that is free
unfoldable pub find_unused : ℕ → ℕ → (ℕ → Sock) → Option ℕ
find_unused zero i sockfd = none
find_unused (suc n) i sockfd =
    let rest = find_unused n (i + 1) sockfd in if truthy (sockfd i).in_use then rest else some i

-- The two fcntl calls, getsockopt, socketpair with the descriptors it makes or its errno, which is one
-- more than socketpair_err, and epoll_ctl.
pub record SockEnv : Type 0 where
  pub locked : ℕ
  pub cloexec_err : ℕ
  pub nonblock_err : ℕ
  pub is_socket : Bool
  pub socketpair : Option (ℕ × ℕ)
  pub socketpair_err : ℕ
  pub epoll_err : ℕ

-- What a call leaves: its errno, the two variables of the caller, and the handle.
pub record Added : Type 0 where
  pub errno : ℕ
  pub datafd : ℕ
  pub channel : Option ℕ
  pub handle : Handle

abbrev put_sock : Handle → ℕ → Sock → Handle
put_sock knet_h channel sock = record knet_h { sockfd = update knet_h.sockfd channel sock }

-- from the choice of the channel on: the descriptor, or the errno with which it is not set up
unfoldable pub set_up_sock : SockEnv → Sock → ℕ → ℕ × Sock
set_up_sock env old datafd =
    let reset = record old { is_created = 0; is_socket = 0; has_error = 0 } in
    if ltb 0 datafd
    then (if truthy env.cloexec_err
        then (env.cloexec_err, reset)
        else (if truthy env.nonblock_err then (env.nonblock_err, reset) else (
          0,
          record reset { app_fd = datafd; knet_fd = 0; is_socket = if env.is_socket then 1 else 0 },
        )))
    else elim env.socketpair [
      | none ↦ (suc env.socketpair_err, reset)
      | some (a, b) ↦ (0, record reset { app_fd = a; knet_fd = b; is_created = 1; is_socket = 1 })
    ]

-- epoll_ctl and what follows it; _close_socketpair sets the descriptors to 0
unfoldable pub watch_sock : SockEnv → Sock → ℕ × Sock
watch_sock env sock =
    if truthy env.epoll_err
    then (
      env.epoll_err,
      if truthy sock.is_created then record sock { app_fd = 0; knet_fd = 0 } else sock,
    )
    else (0, record sock { in_use = 1 })

-- the channel, or the errno
unfoldable pub choose_channel : Handle → Option ℕ → ℕ × Option ℕ
choose_channel knet_h none = elim (find_unused datafd_max 0 knet_h.sockfd) [
  | none ↦ (ebusy, none)
  | some i ↦ (0, some i)
]
choose_channel knet_h (some c) =
    if truthy (knet_h.sockfd c).in_use then (ebusy, some c) else (0, some c)

abbrev pub is_too_high : Option ℕ → Bool
is_too_high none = false
is_too_high (some c) = leb datafd_max c

-- whether a descriptor that is given is in use
unfoldable pub is_taken : Handle → ℕ → Bool
is_taken knet_h datafd =
    ltb 0 datafd
    && elim (find_sock datafd_max 0 datafd knet_h.sockfd) [ none ↦ false | some i ↦ true ]

-- on a channel that was chosen
unfoldable pub add_to_channel : SockEnv → Handle → ℕ → ℕ → Added
add_to_channel env knet_h datafd c =
    let (set_err, sock) = set_up_sock env (knet_h.sockfd c) datafd in
    let (watch_err, watched) = watch_sock env sock in
    if truthy set_err
    then record {
      errno = set_err;
      datafd = datafd;
      channel = some c;
      handle = put_sock knet_h c sock;
    }
    else record {
      errno = watch_err;
      datafd = sock.app_fd;
      channel = some c;
      handle = put_sock knet_h c watched;
    }

-- knet_handle_add_datafd
unfoldable pub add_datafd : SockEnv → Handle → ℕ → Option ℕ → Added
add_datafd env knet_h datafd channel =
    let refuse = λ (errno : ℕ) (c : Option ℕ).
      let r : Added = record { errno = errno; datafd = datafd; channel = c; handle = knet_h } in
      r in
    let (busy, chosen) = choose_channel knet_h channel in
    if is_too_high channel
    then refuse einval channel
    else (if truthy env.locked
        then refuse env.locked channel
        else (if not knet_h.sock_notify
            then refuse einval channel
            else (if is_taken knet_h datafd then refuse eexist channel else elim chosen [
              | none ↦ refuse busy channel
              | some c ↦
                  if truthy busy then refuse busy (some c) else add_to_channel env knet_h datafd c
            ])))

-- knet_handle_remove_datafd
unfoldable pub remove_datafd : SockEnv → Handle → ℕ → ℕ × Handle
remove_datafd env knet_h datafd =
    if datafd == 0
    then (einval, knet_h)
    else (if truthy env.locked
        then (env.locked, knet_h)
        else elim (find_sock datafd_max 0 datafd knet_h.sockfd) [
          | none ↦ (einval, knet_h)
          | some c ↦
              if not (truthy (knet_h.sockfd c).has_error) && truthy env.epoll_err
              then (env.epoll_err, knet_h)
              else (0, put_sock knet_h c zero_sock)
        ])

-- knet_handle_get_datafd, with a channel of 0 or more: errno and *datafd, `none` if it is not set
unfoldable pub get_datafd : Handle → ℕ → ℕ → ℕ × Option ℕ
get_datafd knet_h channel locked =
    if leb datafd_max channel
    then (einval, none)
    else (if truthy locked
        then (locked, none)
        else (if truthy (knet_h.sockfd channel).in_use
            then (0, some (knet_h.sockfd channel).app_fd)
            else (einval, none)))

-- knet_handle_get_channel: errno and *channel
unfoldable pub get_channel : Handle → ℕ → ℕ → ℕ × Option ℕ
get_channel knet_h datafd locked =
    if datafd == 0
    then (einval, none)
    else (if truthy locked
        then (locked, none)
        else elim (find_sock datafd_max 0 datafd knet_h.sockfd) [
          | none ↦ (einval, none)
          | some c ↦ (0, some c)
        ])
