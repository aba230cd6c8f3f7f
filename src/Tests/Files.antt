-- ===== src/Tests/Files.antt =====
-- The cache of scanned files.
use kubectl_hpa_status.Prelude.{[], ◌∷◌, ℤ, pos, some, refl, arith, ◌≡◌}
use kubectl_hpa_status.History.Cache.{
  search, trimmed, same_info, remove, evict, set_entry, FileInfo, HistoryScan, ScanCache,
  find_entry, save, load,
}
use kubectl_hpa_status.History.Entries.{sum_records}
use kubectl_hpa_status.History.Bounds.{IsBounded, save-IsBounded}

abbrev file : FileInfo
file = record { identity = 7; size = pos 120; mod_time = pos 50 }

abbrev scan : HistoryScan ℤ
scan = record {
  retained = pos 10 ∷ pos 20 ∷ pos 30 ∷ [];
  corrupt_lines = 4 ∷ [];
  expired = 2;
  total = 5;
}

abbrev no_scans : ScanCache ℤ
no_scans = record { entries = []; records = pos 0; sequence = 0 }

no_scans-IsBounded : IsBounded no_scans
unfolding sum_records
no_scans-IsBounded = (tt, refl, omega arith, omega arith)

save-IsBounded_example : IsBounded (save (some file) "a.jsonl" (pos 5) scan no_scans)
save-IsBounded_example =
    save-IsBounded (some file) "a.jsonl" (pos 5) scan no_scans no_scans-IsBounded

abbrev as_time : ℤ → ℤ
as_time t = t

saved-IsBounded : IsBounded (save (some file) "a.jsonl" (pos 5) scan no_scans)
saved-IsBounded = save-IsBounded (some file) "a.jsonl" (pos 5) scan no_scans no_scans-IsBounded

-- The snapshots up to the later cutoff count as expired.
load_trimmed :
    (load as_time
      (some file)
      "a.jsonl"
      (pos 15)
      (save (some file) "a.jsonl" (pos 5) scan no_scans)).0
    ≡ some
        (record { retained = pos 20 ∷ pos 30 ∷ []; corrupt_lines = 4 ∷ []; expired = 3; total = 5 })
unfolding load find_entry save set_entry evict remove same_info trimmed search
load_trimmed = refl
