-- ===== src/DstCache/Scan.antt =====
-- The choice of the active links by the loop of libknet/host.c:_host_dstcache_update_sync.
use kronosnet.Base.{
  ℕ, zero, suc, ◌+◌, ◌≡◌, ◌<◌, inl, inr, refl, false, Option, List, [], ◌∷◌, arith, Bool-cases,
  ◌==◌, if◌then◌else◌, update, length,
}
use kronosnet.State.{Link, Host}
use kronosnet.DstCache.{scan, usable, policy_passive}

-- the links that can carry data among the `n` from `i` on, in ascending order
abbrev pub usable_from : ℕ → ℕ → (ℕ → Link) → List ℕ
usable_from zero i link = []
usable_from (suc n) i link =
    if usable (link i) then i ∷ usable_from n (i + 1) link else usable_from n (i + 1) link

-- whether there is a link to send on, as the code stores it
abbrev pub reachable_by : List ℕ → ℕ
reachable_by [] = 0
reachable_by (x ∷ xs) = 1

-- the array `a` lists `xs` from index `k` on
abbrev pub Lists : (ℕ → ℕ) → ℕ → List ℕ → Type 0
Lists a k [] = Unit
Lists a k (x ∷ xs) = (a k ≡ x) × Lists a (k + 1) xs

-- what the loop leaves of the entries before it, and what it adds
pub record Appends (n i : ℕ) (host host' : Host) : Type 0 where
  pub kept : (k : ℕ) → k < host.active_link_entries → host'.active_links k ≡ host.active_links k
  pub count :
      host'.active_link_entries ≡ host.active_link_entries + length (usable_from n i host.link)
  pub added : Lists host'.active_links host.active_link_entries (usable_from n i host.link)

pub scan-Appends :
    (n i : ℕ) (best : Option ℕ) (host : Host)
    → (host.link_handler_policy == policy_passive) ≡ false
    → Appends n i host (scan n i best host)
unfolding scan
scan-Appends zero i best host h = record { kept = λ k lt. refl; count = omega arith; added = tt }
scan-Appends (suc n) i best host h = elim (Bool-cases (usable (host.link i))) [
  | inl u ↦
      let next = record host {
        active_links = update host.active_links host.active_link_entries i;
        active_link_entries = host.active_link_entries + 1;
      } in
      let r = scan-Appends n (i + 1) best next h in
      rw (u, h)
        (record {
          kept = λ k lt. ground (arith, r.kept k);
          count = ground (arith, r.count);
          added = rw u (ground (arith, r.kept host.active_link_entries), r.added);
        })
  | inr u ↦
      let r = scan-Appends n (i + 1) best host h in
      rw u (record { kept = r.kept; count = rw u r.count; added = rw u r.added })
]
