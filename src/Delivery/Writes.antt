-- ===== src/Delivery/Writes.antt =====
-- What of a packet the application gets (libknet/threads_rx.c:_deliver_data).
use kronosnet.Base.{
  ℕ, ◌+◌, ◌≤◌, ◌≡◌, ap, Bool, true, false, Option, none, some, List, [], ◌∷◌, arith, length,
}
use kronosnet.Delivery.{WriteEnd, Write, deliver_loop, deliver_data}

-- The writes are those of the bytes from `start` to `room`, one after the other.
abbrev pub Tiles : ℕ → ℕ → List Write → Type 0
Tiles start room [] = start ≡ room
Tiles start room (w ∷ ws) = (w.start ≡ start) × Tiles (start + w.count) room ws

is_done : WriteEnd → Bool
is_done WriteEnd.written = true
is_done WriteEnd.failed = false
is_done WriteEnd.waiting = false

-- The last call takes all that is left from `outlen` on.
deliver_loop-last :
    (answers : List (Option ℕ)) (outlen room : ℕ)
    → length answers ≤ 1
    → (deliver_loop answers outlen room).0 ≡ WriteEnd.written
    → outlen ≤ room
    → Tiles outlen room (deliver_loop answers outlen room).1
unfolding deliver_loop
deliver_loop-last [] outlen room few e le = ground (arith, ap is_done e)
deliver_loop-last (none ∷ answers) outlen room few e le = ground (arith, ap is_done e)
deliver_loop-last (some n ∷ []) outlen room few e le = ground (arith, e, le)
deliver_loop-last (some n ∷ (a ∷ answers)) outlen room few e le = ground (arith, few)

-- If the socket takes a packet in one or two calls, the application has got each of its bytes once, in
-- their order.
pub deliver_data-Tiles :
    (answers : List (Option ℕ)) (room : ℕ)
    → length answers ≤ 2
    → (deliver_data answers room).0 ≡ WriteEnd.written
    → Tiles 0 room (deliver_data answers room).1
unfolding deliver_data deliver_loop
deliver_data-Tiles [] room few e = ground (arith, ap is_done e)
deliver_data-Tiles (none ∷ answers) room few e = ground (arith, ap is_done e)
deliver_data-Tiles (some n ∷ answers) room few e =
    ground (arith, e, deliver_loop-last answers n room (omega (arith, few)))
