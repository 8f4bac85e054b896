-- ===== src/Defrag/Pool.antt =====
-- Which buffer a new packet gets (libknet/threads_rx.c:_find_pckt_defrag_buf).
use kronosnet.Base.{
  ℕ, zero, suc, ◌+◌, ◌*◌, ◌%◌, ◌^◌, ◌==◌, ◌≡◌, ◌≤◌, ◌<◌, ◌⊎◌, inl, inr, refl, Bool, true, false,
  Option, none, some, arith, ltb, truthy, Bool-cases, Option-cases, update, fill, ◌&&◌,
}
use kronosnet.State.{DefragBuf, Host, Handle, zero_defrag_buf}
use kronosnet.SeqNum.{clear_defrag_bufs_stats}
use kronosnet.Defrag.{find_free, find_oldest, realloc_defrag_buffers, new_defrag_buf}

find_free-some :
    (n i j : ℕ) (bufs : ℕ → DefragBuf)
    → find_free n i bufs ≡ some j
    → (j < i + n) × ((bufs j).in_use ≡ 0)
unfolding find_free
find_free-some zero i j bufs e = cc
find_free-some (suc n) i j bufs e = elim (Bool-cases (truthy (bufs i).in_use)) [
  | inl u ↦ let (lt, free) = find_free-some n (i + 1) j bufs (rw u at e) in (omega arith, free)
  | inr u ↦ (ground arith, ground arith)
]

find_oldest_bound :
    (n i oldest m : ℕ) (bufs : ℕ → DefragBuf)
    → oldest < m
    → i + n ≤ m
    → find_oldest n i oldest bufs < m
unfolding find_oldest
find_oldest_bound zero i oldest m bufs lt le = lt
find_oldest_bound (suc n) i oldest m bufs lt le =
    find_oldest_bound n (i + 1) _ m bufs (ground arith) (omega arith)

-- the buffer lies in the array and is free
abbrev pub IsFree : ℕ × Host → Type 0
IsFree (i, host) = (i < host.allocated_defrag_bufs) × ((host.defrag_bufs i).in_use ≡ 0)

-- the array could be doubled, from one buffer to two, and the index is 2
abbrev pub IsPastTheEnd : Host → ℕ × Host → Type 0
IsPastTheEnd host (i, host') =
    (host.allocated_defrag_bufs ≡ 1) × (host'.allocated_defrag_bufs ≡ 2) × (i ≡ 2)

module _ (knet_h : Handle) (host : Host) (granted : Bool) where
  abbrev can_grow : Bool
  can_grow = ltb host.allocated_defrag_bufs knet_h.defrag_bufs_max && granted

  -- the host with its array doubled
  abbrev grown : Host
  grown = clear_defrag_bufs_stats (record host {
    defrag_bufs =
        fill host.defrag_bufs host.allocated_defrag_bufs host.allocated_defrag_bufs zero_defrag_buf;
    allocated_defrag_bufs = host.allocated_defrag_bufs * 2 % 2 ^ 16;
  })

  abbrev oldest : ℕ
  oldest = find_oldest host.allocated_defrag_bufs 0 0 host.defrag_bufs

  realloc_grows : can_grow ≡ true → realloc_defrag_buffers knet_h host granted ≡ (1, grown)
  unfolding realloc_defrag_buffers
  realloc_grows c = rw c refl

  realloc_fails : can_grow ≡ false → realloc_defrag_buffers knet_h host granted ≡ (0, host)
  unfolding realloc_defrag_buffers
  realloc_fails c = rw c refl

  grown-IsFree :
      1 ≤ host.allocated_defrag_bufs
      → host.allocated_defrag_bufs * 2 < 2 ^ 16
      → IsFree (host.allocated_defrag_bufs + 1, grown)
        ⊎ IsPastTheEnd host (host.allocated_defrag_bufs + 1, grown)
  unfolding clear_defrag_bufs_stats
  grown-IsFree one small = elim (Bool-cases (host.allocated_defrag_bufs == 1)) [
    | inl e ↦ inr (ground arith, ground arith, ground arith)
    | inr e ↦ inl (ground arith, ground arith)
  ]

  abbrev free : Option ℕ
  free = find_free host.allocated_defrag_bufs 0 host.defrag_bufs

  on_free : (i : ℕ) → free ≡ some i → new_defrag_buf knet_h host granted ≡ (i, host)
  unfolding new_defrag_buf
  on_free i e = rw (e, new_defrag_buf) refl

  on_grown :
      free ≡ none
      → can_grow ≡ true
      → new_defrag_buf knet_h host granted ≡ (host.allocated_defrag_bufs + 1, grown)
  unfolding new_defrag_buf
  on_grown taken c = rw (taken, realloc_grows c, new_defrag_buf) refl

  -- the oldest buffer is given up
  abbrev evicted : Host
  evicted = record host {
    defrag_bufs = update host.defrag_bufs oldest (record (host.defrag_bufs oldest) { in_use = 0 });
  }

  on_oldest :
      free ≡ none → can_grow ≡ false → new_defrag_buf knet_h host granted ≡ (oldest, evicted)
  unfolding new_defrag_buf
  on_oldest taken c = rw (taken, realloc_fails c, new_defrag_buf) refl

  -- A packet that has no buffer gets the index of a free one inside the array of its host, except
  -- when the array has a single buffer, which is in use, and can be doubled: then the index is one
  -- past the end. The array is not empty, and its doubled size fits the 16 bits of its counter.
  pub new_defrag_buf-IsFree :
      1 ≤ host.allocated_defrag_bufs
      → host.allocated_defrag_bufs * 2 < 2 ^ 16
      → let found = new_defrag_buf knet_h host granted in IsFree found ⊎ IsPastTheEnd host found
  new_defrag_buf-IsFree one small = elim (Option-cases free) [
    | inl taken ↦ elim (Bool-cases can_grow) [
      | inl c ↦ rw (on_grown taken c) (grown-IsFree one small)
      | inr c ↦ rw (on_oldest taken c) (inl (in_array, ground arith))
    ]
    | inr (i, e) ↦
        let (lt, unused) = find_free-some host.allocated_defrag_bufs 0 i host.defrag_bufs e in
        rw (on_free i e) (inl (omega (arith, lt), unused))
  ]
    where
      in_array : oldest < host.allocated_defrag_bufs
      in_array =
          find_oldest_bound host.allocated_defrag_bufs 0 0 host.allocated_defrag_bufs
            host.defrag_bufs one (omega arith)
