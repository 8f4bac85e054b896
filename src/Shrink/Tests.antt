-- ===== src/Shrink/Tests.antt =====
-- The theorem on halving at a concrete input, and runs of the code.
use kronosnet.Base.{ℕ, ◌+◌, ◌≡◌, refl, true, none, some, List, [], ◌∷◌, arith, ◌==◌, if◌then◌else◌}
use mathlib.Core.Option
use kronosnet.State.{DefragBuf, Host, Handle, zero_defrag_buf}
use kronosnet.Samples.{node, new_host}
use kronosnet.SeqNum.{clear_defrag_bufs_stats}
use kronosnet.Shrink.{
  count_in_use, usage, note_usage, sum_samples, any_above, may_shrink, compact, halve, shrink_host,
}
use kronosnet.Shrink.Kept.{Holds, shrink_host-Holds}

abbrev used_buf : ℕ → DefragBuf
used_buf seq = record zero_defrag_buf { in_use = 1; pckt_seq = seq }

-- a node that keeps 8 samples, and a host that has them, all 0, and whose second buffer is in use
abbrev sampling : Handle
sampling = record node {
  defrag_bufs_min = 2;
  defrag_bufs_usage_samples = 8;
  defrag_bufs_shrink_threshold = 25;
  defrag_bufs_reclaim_policy = 1;
}

abbrev one_used : Host
one_used = record new_host {
  in_use_defrag_buffers_samples = 8;
  defrag_bufs = λ i. if i == 1 then used_buf 70 else zero_defrag_buf;
}

abbrev shape : Host → List ℕ
shape host =
    host.allocated_defrag_bufs ∷ (host.defrag_bufs 0).pckt_seq ∷ (host.defrag_bufs 1).pckt_seq ∷ []

-- The array is halved, and packet 70 has two buffers after it: its old one was not cleared.
twice_run : Option.map shape (shrink_host sampling true one_used) ≡ some (2 ∷ 70 ∷ 70 ∷ [])
unfolding shrink_host note_usage usage count_in_use may_shrink any_above halve compact
    clear_defrag_bufs_stats
twice_run = refl

abbrev halved : Host
halved = elim (shrink_host sampling true one_used) [ none ↦ one_used | some host ↦ host ]

halved_run : shrink_host sampling true one_used ≡ some halved
unfolding shrink_host note_usage usage count_in_use may_shrink any_above
halved_run = refl

shrink_host-Holds_example : Holds (used_buf 70) halved
shrink_host-Holds_example =
    shrink_host-Holds sampling true one_used halved 1 refl (omega arith) (omega arith) (omega arith)
      halved_run (omega arith) refl

-- By the policy of the average a host whose four buffers all are in use is left with two.
abbrev all_used : Host
all_used = record one_used { defrag_bufs = λ i. used_buf (i + 60) }

lost_run :
    Option.map shape
      (shrink_host (record sampling { defrag_bufs_reclaim_policy = 0 }) true all_used)
    ≡ some (2 ∷ 60 ∷ 61 ∷ [])
unfolding shrink_host note_usage usage count_in_use may_shrink sum_samples halve compact
    clear_defrag_bufs_stats
lost_run = refl

-- A host with one buffer, as many as were allowed when it was added, is left with none once the least
-- number is raised to two.
none_run :
    Option.map
      (λ (host : Host). host.allocated_defrag_bufs)
      (shrink_host sampling true
        (record one_used { allocated_defrag_bufs = 1; defrag_bufs = λ _. zero_defrag_buf }))
    ≡ some 0
unfolding shrink_host note_usage usage count_in_use may_shrink any_above halve compact
    clear_defrag_bufs_stats
none_run = refl
