-- ===== src/History/Entries.antt =====
-- The map of the cache: deletion, and the number of records that it holds.
use kubectl_hpa_status.Prelude.{
  ℕ, suc, ◌+◌, List, [], ◌∷◌, false, ltb, length, String, str_eq, str_eq_iff, none, some, arith,
  ◌≡◌, ◌≢◌, ◌⊎◌, inl, inr, refl, sym, ap, subst, some_inj, Bool-cases, ◌||◌,
}
use kubectl_hpa_status.History.Cache.{
  CachedScan, count_of, find_entry, delete, set_entry, oldest_from,
}

-- A map holds a key once.
abbrev pub IsMap : {S : Type 0} → List (String × CachedScan S) → Type 0
IsMap [] = Unit
IsMap ((key, e) ∷ es) = (find_entry key es ≡ none) × IsMap es

-- The records of all entries.
unfoldable pub sum_records : {S : Type 0} → List (String × CachedScan S) → ℕ
sum_records [] = 0
sum_records ((key, e) ∷ es) = count_of e.scan + sum_records es

module _ {S : Type 0} where
  pub find-delete :
      (path key : String) (es : List (String × CachedScan S))
      → find_entry key es ≡ none
      → find_entry key (delete path es) ≡ none
  unfolding find_entry delete
  find-delete path key [] h = refl
  find-delete path key ((k, e) ∷ es) h = ground (arith, find-delete path key es)

  pub delete-IsMap :
      (path : String) (es : List (String × CachedScan S)) → IsMap es → IsMap (delete path es)
  unfolding delete
  delete-IsMap path [] h = tt
  delete-IsMap path ((k, e) ∷ es) (p, h) = elim (Bool-cases (str_eq k path)) [
    | inl q ↦ rw q (delete-IsMap path es h)
    | inr q ↦ rw q (find-delete path k es p, delete-IsMap path es h)
  ]

  pub find-delete_self :
      (path : String) (es : List (String × CachedScan S)) → find_entry path (delete path es) ≡ none
  unfolding find_entry delete
  find-delete_self path [] = refl
  find-delete_self path ((k, e) ∷ es) = ground (arith, find-delete_self path es)

  delete_absent :
      (path : String) (es : List (String × CachedScan S))
      → find_entry path es ≡ none
      → delete path es ≡ es
  unfolding find_entry delete
  delete_absent path [] h = refl
  delete_absent path ((k, e) ∷ es) h = elim (Bool-cases (str_eq k path)) [
    | inl q ↦ cc (rw q at h)
    | inr q ↦ rw q (ap (λ rest. (k, e) ∷ rest) (delete_absent path es (rw q at h)))
  ]

  -- Deleting an entry takes its records and one entry off.
  pub delete_present :
      (path : String) (es : List (String × CachedScan S)) (entry : CachedScan S)
      → IsMap es
      → find_entry path es ≡ some entry
      → (sum_records es ≡ count_of entry.scan + sum_records (delete path es))
        × (length es ≡ suc (length (delete path es)))
  unfolding find_entry delete sum_records
  delete_present path [] entry m h = cc
  delete_present path ((k, e) ∷ es) entry (p, m) h = elim (Bool-cases (str_eq k path)) [
    | inl q ↦
        let here = (str_eq_iff k path).0 q in
        let gone = delete_absent path es (subst (λ x. find_entry x es ≡ none) here p) in
        rw (q, gone) (ap (λ x. count_of x.scan + sum_records es) (some_inj (rw q at h)), refl)
    | inr q ↦
        let ih = delete_present path es entry m (rw q at h) in
        rw q (omega (arith, ih.0), omega (arith, ih.1))
  ]

  present_head :
      (x k : String) (e : CachedScan S) (es : List (String × CachedScan S))
      → x ≡ k
      → find_entry x ((k, e) ∷ es) ≢ none
  unfolding find_entry
  present_head x k e es h = rw ((str_eq_iff k x).1 (sym h)) (λ n. cc)

  present_tail :
      (x k : String) (e : CachedScan S) (es : List (String × CachedScan S))
      → find_entry x es ≢ none
      → find_entry x ((k, e) ∷ es) ≢ none
  unfolding find_entry
  present_tail x k e es h = elim (Bool-cases (str_eq k x)) [
    | inl q ↦ rw q (λ n. cc)
    | inr q ↦ rw q h
  ]

  -- The key found last is the start, or a key of the map.
  oldest_cases :
      (start : String) (used : ℕ) (es : List (String × CachedScan S))
      → (oldest_from start used es ≡ start) ⊎ (find_entry (oldest_from start used es) es ≢ none)
  unfolding oldest_from
  oldest_cases start used [] = inl refl
  oldest_cases start used ((k, e) ∷ es) = elim (Bool-cases (str_eq start "" || ltb e.used used)) [
    | inl q ↦
        let x = oldest_from k e.used es in
        rw q (
          inr (elim (oldest_cases k e.used es) [
            | inl h ↦ present_head x k e es h
            | inr h ↦ present_tail x k e es h
          ]))
    | inr q ↦
        let x = oldest_from start used es in
        rw q (elim (oldest_cases start used es) [
          | inl h ↦ inl h
          | inr h ↦ inr (present_tail x k e es h)
        ])
  ]

  -- The entry to evict from a map with an entry is one of its entries.
  pub oldest_present :
      (k : String) (e : CachedScan S) (es : List (String × CachedScan S))
      → find_entry (oldest_from "" 0 ((k, e) ∷ es)) ((k, e) ∷ es) ≢ none
  unfolding oldest_from
  oldest_present k e es =
      let x = oldest_from k e.used es in
      elim (oldest_cases k e.used es) [
        | inl h ↦ present_head x k e es h
        | inr h ↦ present_tail x k e es h
      ]

  -- Adding an entry under a key that the map lacks.
  pub set_absent :
      (path : String) (entry : CachedScan S) (es : List (String × CachedScan S))
      → find_entry path es ≡ none
      → (sum_records (set_entry path entry es) ≡ sum_records es + count_of entry.scan)
        × (length (set_entry path entry es) ≡ suc (length es))
        × (find_entry path (set_entry path entry es) ≡ some entry)
  unfolding find_entry set_entry sum_records
  set_absent path entry [] h = (omega arith, refl, rw ((str_eq_iff path path).1 refl) refl)
  set_absent path entry ((k, e) ∷ es) h = elim (Bool-cases (str_eq k path)) [
    | inl q ↦ cc (rw q at h)
    | inr q ↦
        let ih = set_absent path entry es (rw q at h) in
        rw q (omega (arith, ih.0), omega (arith, ih.1), rw q ih.2)
  ]

  find-set_entry :
      (path key : String) (entry : CachedScan S) (es : List (String × CachedScan S))
      → str_eq path key ≡ false
      → find_entry key es ≡ none
      → find_entry key (set_entry path entry es) ≡ none
  unfolding find_entry set_entry
  find-set_entry path key entry [] h k = rw h refl
  find-set_entry path key entry ((j, e) ∷ es) h k =
      ground (arith, find-set_entry path key entry es, str_eq_iff j path)

  -- Replacing an entry by one with as many records.
  pub set_present :
      (path : String) (entry old : CachedScan S) (es : List (String × CachedScan S))
      → find_entry path es ≡ some old
      → count_of entry.scan ≡ count_of old.scan
      → (sum_records (set_entry path entry es) ≡ sum_records es)
        × (length (set_entry path entry es) ≡ length es)
  unfolding find_entry set_entry sum_records
  set_present path entry old [] h same = cc
  set_present path entry old ((k, e) ∷ es) h same = elim (Bool-cases (str_eq k path)) [
    | inl q ↦
        let here : e ≡ old = some_inj (rw q at h) in
        rw q (rw (same, sym (ap (λ x. count_of x.scan) here)) refl, refl)
    | inr q ↦
        let ih = set_present path entry old es (rw q at h) same in
        rw q (omega (arith, ih.0), omega (arith, ih.1))
  ]

  pub set_entry-IsMap :
      (path : String) (entry : CachedScan S) (es : List (String × CachedScan S))
      → IsMap es
      → IsMap (set_entry path entry es)
  unfolding set_entry find_entry
  set_entry-IsMap path entry [] m = (refl, tt)
  set_entry-IsMap path entry ((k, e) ∷ es) (p, m) = elim (Bool-cases (str_eq k path)) [
    | inl q ↦ rw q (p, m)
    | inr q ↦ rw q (
      find-set_entry path k entry es (ground (arith, str_eq_iff path k, str_eq_iff k path)) p,
      set_entry-IsMap path entry es m,
    )
  ]
