-- ===== src/History/Cache.antt =====
-- internal/history/scan_cache.go. The mutex makes each operation one step on the cache's state. What
-- os.Stat returns is an argument, `none` for its error. A snapshot is of any type S with the function
-- `timestamp`. The map is an association list, in the order in which Go ranges over it.
use kubectl_hpa_status.Prelude.{
  ℕ, zero, suc, ◌+◌, ◌/◌, ◌%◌, ◌==◌, List, [], ◌∷◌, ℤ, pos, Bool, false, not, ◌&&◌, ◌||◌, ltb, leb,
  ltb_ℤ, eqb_ℤ, ◌+ℤ◌, ◌-ℤ◌, length, drop, get_elem?, String, str_eq, Option, none, some,
  if◌then◌else◌,
}

-- os.SameFile compares the identity of two files.
pub record FileInfo : Type 0 where
  pub identity : ℕ
  pub size : ℤ
  pub mod_time : ℤ

abbrev pub max_cached_history_streams : ℕ
max_cached_history_streams = 128

abbrev pub max_cached_history_records : ℤ
max_cached_history_records = pos 100000

pub record HistoryScan (S : Type 0) : Type 0 where
  pub retained : List S
  pub corrupt_lines : List ℕ
  pub expired : ℕ
  pub total : ℕ

pub record CachedScan (S : Type 0) : Type 0 where
  pub info : FileInfo
  pub cutoff : ℤ
  pub scan : HistoryScan S
  pub used : ℕ

pub record ScanCache (S : Type 0) : Type 0 where
  pub entries : List (String × CachedScan S)
  pub records : ℤ
  pub sequence : ℕ

unfoldable pub find_entry {ℓ} : {A : Type ℓ} → String → List (String × A) → Option A
find_entry path [] = none
find_entry path ((key, e) ∷ es) = if str_eq key path then some e else find_entry path es

-- delete(m, path)
unfoldable pub delete {ℓ} : {A : Type ℓ} → String → List (String × A) → List (String × A)
delete path [] = []
delete path ((key, e) ∷ es) =
    let rest = delete path es in if str_eq key path then rest else (key, e) ∷ rest

-- m[path] = e
unfoldable pub set_entry {ℓ} : {A : Type ℓ} → String → A → List (String × A) → List (String × A)
set_entry path e [] = (path, e) ∷ []
set_entry path e ((key, old) ∷ es) =
    let rest = set_entry path e es in if str_eq key path then (key, e) ∷ es else (key, old) ∷ rest

-- A uint64 wraps around.
unfoldable pub next_sequence : ℕ → ℕ
next_sequence n = (n + 1) % 18446744073709551616

module _ {S : Type 0} where
  abbrev pub count_of : HistoryScan S → ℕ
  count_of scan = length scan.retained + length scan.corrupt_lines

  abbrev pub removed : ScanCache S → String → Option (CachedScan S) → ScanCache S
  removed c path none = c
  removed c path (some entry) = record c {
    records = c.records -ℤ pos (count_of entry.scan);
    entries = delete path c.entries;
  }

  unfoldable pub remove : ScanCache S → String → ScanCache S
  remove c path = removed c path (find_entry path c.entries)

  -- The loop that looks for the entry used least recently.
  unfoldable pub oldest_from : String → ℕ → List (String × CachedScan S) → String
  oldest_from oldest used [] = oldest
  oldest_from oldest used ((key, entry) ∷ es) =
      let newer = str_eq oldest "" || ltb entry.used used in
      oldest_from (if newer then key else oldest) (if newer then entry.used else used) es

  unfoldable pub is_full : ScanCache S → ℕ → Bool
  is_full c count =
      leb max_cached_history_streams (length c.entries)
      || ltb_ℤ max_cached_history_records (c.records +ℤ pos count)

  -- The loop that evicts entries; one unit of fuel for each entry is enough.
  unfoldable pub evict : ℕ → ℕ → ScanCache S → ScanCache S
  evict zero count c = c
  evict (suc fuel) count c =
      let rest = evict fuel count (remove c (oldest_from "" 0 c.entries)) in
      if is_full c count then rest else c

  abbrev pub insert_scan : FileInfo → String → ℤ → HistoryScan S → ScanCache S → ScanCache S
  insert_scan info path cutoff scan c =
      let sequence = next_sequence c.sequence in
      record {
        sequence = sequence;
        entries =
            set_entry path (record { info = info; cutoff = cutoff; scan = scan; used = sequence })
              c.entries;
        records = c.records +ℤ pos (count_of scan);
      }

  unfoldable pub save : Option FileInfo → String → ℤ → HistoryScan S → ScanCache S → ScanCache S
  save none path cutoff scan c = remove c path
  save (some info) path cutoff scan c =
      let cleared = remove c path in
      let room = evict (length cleared.entries) (count_of scan) cleared in
      if ltb_ℤ max_cached_history_records (pos (count_of scan))
      then cleared
      else insert_scan info path cutoff scan room

-- sort.Search: the binary search for the first index with `test`; fuel `n` is enough for n indices.
unfoldable pub search : ℕ → (ℕ → Bool) → ℕ → ℕ → ℕ
search zero test i j = i
search (suc fuel) test i j =
    let h = (i + j) / 2 in
    let rest = search fuel test (if test h then i else h + 1) (if test h then h else j) in
    if ltb i j then rest else i

unfoldable pub same_info : FileInfo → FileInfo → Bool
same_info a b = a.identity == b.identity && eqb_ℤ a.size b.size && eqb_ℤ a.mod_time b.mod_time

module _ {S : Type 0} (timestamp : S → ℤ) where
  abbrev pub is_after : ℤ → Option S → Bool
  is_after cutoff none = false
  is_after cutoff (some snapshot) = ltb_ℤ cutoff (timestamp snapshot)

  -- The copy of the scan without the snapshots up to the cutoff.
  unfoldable pub trimmed : ℤ → HistoryScan S → HistoryScan S
  trimmed cutoff scan =
      let n = length scan.retained in
      let start = search n (λ i. is_after cutoff (get_elem? scan.retained i)) 0 n in
      record scan { retained = drop start scan.retained; expired = scan.expired + start }

  abbrev pub load_entry :
      FileInfo
      → String
      → ℤ
      → ScanCache S
      → Option (CachedScan S)
      → Option (HistoryScan S) × ScanCache S
  load_entry info path cutoff c none = (none, c)
  load_entry info path cutoff c (some cached) =
      let sequence = next_sequence c.sequence in
      if ltb_ℤ cutoff cached.cutoff || not (same_info info cached.info)
      then (none, remove c path)
      else (
        some (trimmed cutoff cached.scan),
        record c {
          sequence = sequence;
          entries = set_entry path (record cached { used = sequence }) c.entries;
        },
      )

  unfoldable pub load :
      Option FileInfo → String → ℤ → ScanCache S → Option (HistoryScan S) × ScanCache S
  load none path cutoff c = (none, remove c path)
  load (some info) path cutoff c = load_entry info path cutoff c (find_entry path c.entries)
