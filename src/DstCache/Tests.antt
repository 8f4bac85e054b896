-- ===== src/DstCache/Tests.antt =====
-- The theorem on the active links at a concrete host, and runs of the code.
use kronosnet.Base.{ℕ, ◌≡◌, refl, some, ◌==◌, if◌then◌else◌}
use kronosnet.State.{Link, Host}
use kronosnet.Samples.{idle_link, new_host, node}
use kronosnet.DstCache.{dstcache_update_sync, usable, scan, note_reachable, clean_unreachable}
use kronosnet.DstCache.Reach.{Updated, dstcache_update_sync-Active}

-- links 1, 2 and 4 are up, with the priorities 3, 5 and 5
abbrev link_at : ℕ → Link
link_at id =
    let link = idle_link id in
    let up = record link {
      status = record link.status { enabled = 1; connected = 1 };
      has_valid_mtu = 1;
      priority = 5;
    } in
    if id == 1
    then record up { priority = 3 }
    else (if id == 2 then up else (if id == 4 then up else link))

abbrev passive_host : Host
passive_host = record new_host { link = link_at }

abbrev active_host : Host
active_host = record passive_host { link_handler_policy = 1 }

dstcache_update_sync-Active_example : Updated passive_host (dstcache_update_sync node passive_host)
dstcache_update_sync-Active_example = dstcache_update_sync-Active node passive_host refl

update_run :
    let (p, called) = dstcache_update_sync node passive_host in
    let (a, _) = dstcache_update_sync node active_host in
    (p.active_link_entries ≡ 1)
    × (p.active_links 0 ≡ 2)
    × (called ≡ some (record { reachable = 1; remote = 0; external = 0 }))
    × (a.active_link_entries ≡ 3)
    × (a.active_links 0 ≡ 1)
    × (a.active_links 1 ≡ 2)
    × (a.active_links 2 ≡ 4)
unfolding dstcache_update_sync usable scan note_reachable clean_unreachable
update_run = (refl, refl, refl, refl, refl, refl, refl)
