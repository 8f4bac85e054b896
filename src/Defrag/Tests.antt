-- ===== src/Defrag/Tests.antt =====
-- The theorem on the choice of a buffer at a concrete host, and runs of the code.
use kronosnet.Base.{ℕ, ◌≡◌, ◌⊎◌, refl, true, arith}
use kronosnet.State.{Host, zero_defrag_buf}
use kronosnet.Samples.{new_host, node}
use kronosnet.SeqNum.{clear_defrag_bufs_stats}
use kronosnet.Defrag.{find_free, realloc_defrag_buffers, new_defrag_buf}
use kronosnet.Defrag.Pool.{IsFree, IsPastTheEnd, new_defrag_buf-IsFree}

-- a host with `n` buffers, all of them in use
abbrev busy : ℕ → Host
busy n = record new_host {
  allocated_defrag_bufs = n;
  defrag_bufs = λ i. record zero_defrag_buf { in_use = 1 };
}

new_defrag_buf-IsFree_example :
    let found = new_defrag_buf node (busy 4) true in IsFree found ⊎ IsPastTheEnd (busy 4) found
new_defrag_buf-IsFree_example = new_defrag_buf-IsFree node (busy 4) true (omega arith) (omega arith)

-- The array of one buffer is doubled and the index is 2.
new_defrag_buf_run :
    let (i, host) = new_defrag_buf node (busy 1) true in (i ≡ 2) × (host.allocated_defrag_bufs ≡ 2)
unfolding new_defrag_buf find_free realloc_defrag_buffers clear_defrag_bufs_stats
new_defrag_buf_run = (refl, refl)
