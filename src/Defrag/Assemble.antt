-- ===== src/Defrag/Assemble.antt =====
-- The steps of a reassembly (libknet/threads_rx.c:_pckt_defrag): one more fragment is stored, or
-- the packet is finished.
use kronosnet.Base.{
  ℕ, ◌+◌, ◌-◌, ◌*◌, ◌/◌, ◌≤◌, ◌<◌, ◌≡◌, inl, inr, refl, Bool, true, false, Option, none, some, List,
  [], ◌∷◌, arith, ltb, ◌==◌, if◌then◌else◌, truthy, update, move, Bool-cases,
}
use kronosnet.State.{Timespec, DefragBuf}
use kronosnet.Defrag.{Fragment, Packet, max_packet_size, restore_last, finish, add_fragment, claim}
use kronosnet.Defrag.Marks.{marks, marks_full}
use kronosnet.Defrag.Layout.{div_below}
use kronosnet.Defrag.Fragments.{
  fragment, Partial, with_body, with_last, with_last_first, with_body-Partial, with_last-Partial,
  with_last_first-Partial, add_body, add_last, add_last_first,
}

-- A fragment and the time at which it is handled.
abbrev pub Arrival : Type 0
Arrival = Fragment × Timespec

-- the part of `_pckt_defrag` behind the choice of the buffer
abbrev pub handle : ℕ → DefragBuf → Arrival → Option (DefragBuf × Option Packet)
handle seq b (f, now) = add_fragment (claim b seq now) f

-- the fragments that go to one buffer, one after the other, up to the one that completes the packet
unfoldable pub assemble : ℕ → DefragBuf → List Arrival → Option (Option Packet)
assemble seq b [] = some none
assemble seq b (f ∷ fs) = elim (handle seq b f) [
  | none ↦ none
  | some (c, out) ↦ elim out [ none ↦ assemble seq c fs | some packet ↦ some (some packet) ]
]

pub assemble_next :
    (seq : ℕ) (b c : DefragBuf) (f : Arrival) (fs : List Arrival)
    → handle seq b f ≡ some (c, none)
    → assemble seq b (f ∷ fs) ≡ assemble seq c fs
unfolding assemble
assemble_next seq b c f fs e = rw (e, assemble)

pub assemble_done :
    (seq : ℕ) (b c : DefragBuf) (f : Arrival) (fs : List Arrival) (packet : Packet)
    → handle seq b f ≡ some (c, some packet)
    → assemble seq b (f ∷ fs) ≡ some (some packet)
unfolding assemble
assemble_done seq b c f fs packet e = rw (e, assemble)

-- which fragments arrive, and when
abbrev pub Order : Type 0
Order = List (ℕ × Timespec)

abbrev pub occurs : ℕ → Order → Bool
occurs k [] = false
occurs k ((x, _) ∷ xs) = if k == x then true else occurs k xs

abbrev pub Between : ℕ → Order → Type 0
Between n [] = Unit
Between n ((k, _) ∷ ks) = (0 < k) × (k ≤ n) × Between n ks

abbrev pub arrivals : (ℕ → ℕ) → ℕ → ℕ → ℕ → Order → List Arrival
arrivals packet mtu n last [] = []
arrivals packet mtu n last ((k, now) ∷ ks) =
    (fragment packet mtu n last k, now) ∷ arrivals packet mtu n last ks

module _ (packet : ℕ → ℕ) (mtu n last : ℕ) (pos : 0 < mtu) (many : 1 < n) (few : n < 255)
    (some_last : 0 < last) (fits : (n - 1) * mtu + last ≤ max_packet_size) where
  pub record Stored (b : DefragBuf) (k : ℕ) : Type 0 where
    pub next : DefragBuf
    pub partial : Partial packet mtu n last next
    pub step :
        add_fragment b (fragment packet mtu n last k)
        ≡ (if next.frag_recv == n then finish next n else some (next, none))
    pub marks_of : next.frag_map ≡ update b.frag_map k 1

  store_last :
      (b : DefragBuf) → Partial packet mtu n last b → truthy (b.frag_map n) ≡ false → Stored b n
  store_last b p new = elim p.size [
    | inl e ↦ record {
      next = with_last_first packet mtu n last b;
      partial = with_last_first-Partial packet mtu n last pos many few some_last fits b p e new;
      step = add_last_first packet mtu n last pos many few some_last fits b p e new;
      marks_of = refl;
    }
    | inr e ↦ record {
      next = with_last packet mtu n last b;
      partial = with_last-Partial packet mtu n last pos many few some_last fits b p e new;
      step = add_last packet mtu n last pos many few some_last fits b p e new;
      marks_of = refl;
    }
  ]

  pub store :
      (b : DefragBuf) (k : ℕ)
      → Partial packet mtu n last b
      → 0 < k
      → k ≤ n
      → truthy (b.frag_map k) ≡ false
      → Stored b k
  store b k p h le new = elim (Bool-cases (ltb k n)) [
    | inl lt ↦ record {
      next = with_body packet mtu n last b k;
      partial =
          with_body-Partial packet mtu n last pos many few some_last fits b p k h (ground arith)
            new;
      step = add_body packet mtu n last pos many few some_last fits b p k h (ground arith) new;
      marks_of = refl;
    }
    | inr ge ↦ let e : k ≡ n = ground arith in rw e (store_last b p (rw e at new))
  ]

  -- where the finished packet is copied from
  abbrev pub finished : DefragBuf → ℕ → ℕ
  finished c =
      if truthy c.last_first
      then move c.buf ((n - 1) * c.frag_size) c.buf (max_packet_size - c.last_frag_size)
          c.last_frag_size
      else c.buf

  module _ (c : DefragBuf) (p : Partial packet mtu n last c) (full : marks n c.frag_map ≡ n) where
    full_size : c.frag_size ≡ mtu
    full_size =
        p.sized 1 (omega arith) many (marks_full n 1 c.frag_map full (omega arith) (omega arith))

    full_last : truthy (c.frag_map n) ≡ true
    full_last = marks_full n n c.frag_map full (omega arith) (omega arith)

    pub finish_lem :
        (b : DefragBuf) × (finish c n ≡ some (b, some ((n - 1) * mtu + last, finished c)))
    unfolding finish restore_last
    finish_lem = (
      record c { buf = finished c; in_use = 0 },
      ground (arith, full_size, p.last_size full_last),
    )

    pub finished_lem : (x : ℕ) → x < (n - 1) * mtu + last → finished c x ≡ packet x
    finished_lem x below = ground (
      arith,
      full_size,
      p.last_size full_last,
      p.body x,
      div_below mtu (n - 1) x pos,
      marks_full n (x / mtu + 1) c.frag_map full,
      p.last_stored (x - (n - 1) * mtu) full_last,
      p.last_placed (x - (n - 1) * mtu) full_last,
    )

  -- The result for a packet: its length, and its bytes up to that length.
  abbrev pub Delivers : Option (Option Packet) → Type 0
  Delivers r =
      (out : ℕ → ℕ) × (r ≡ some (some ((n - 1) * mtu + last, out)))
      × ((x : ℕ) → x < (n - 1) * mtu + last → out x ≡ packet x)
