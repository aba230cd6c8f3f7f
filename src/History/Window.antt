-- ===== src/History/Window.antt =====
-- The window of snapshots that RecordAndLoad returns (internal/history/store.go).
use kubectl_hpa_status.Prelude.{
  List, [], ◌∷◌, ℤ, pos, ◌-ℤ◌, ◌≤ℤ◌, ◌<ℤ◌, leb_ℤ, ltb_ℤ, true, false, if◌then◌else◌, length, drop,
  get_elem?, Option, none, some, ◌≡◌, refl, ap, ◌∙◌, inl, inr, Bool-cases, fun_ext, int_laws, arith,
}
use kubectl_hpa_status.History.Cache.{search, is_after}
use kubectl_hpa_status.History.Sorted.{after, keep_after, IsSorted}
use kubectl_hpa_status.History.Search.{search-first, drop-first_after}
use kubectl_hpa_status.History.Store.{not_before, window_from}

module _ {S : Type 0} (timestamp : S → ℤ) where
  -- The snapshots from a time on.
  abbrev pub recent : ℤ → List S → List S
  recent start [] = []
  recent start (x ∷ xs) =
      let rest = recent start xs in if leb_ℤ start (timestamp x) then x ∷ rest else rest

  keep_after-recent :
      (start : ℤ) (xs : List S) → keep_after timestamp (start -ℤ pos 1) xs ≡ recent start xs
  unfolding keep_after
  keep_after-recent start [] = refl
  keep_after-recent start (x ∷ xs) = elim (Bool-cases (leb_ℤ start (timestamp x))) [
    | inl p ↦
        let reached : start ≤ℤ timestamp x = ground arith in
        let beyond : start -ℤ pos 1 <ℤ timestamp x = omega int_laws in
        let later : after timestamp (start -ℤ pos 1) x ≡ true = ground arith in
        rw (p, later) (ap (λ r. x ∷ r) (keep_after-recent start xs))
    | inr p ↦
        let before : timestamp x <ℤ start = ground arith in
        let behind : timestamp x ≤ℤ start -ℤ pos 1 = omega int_laws in
        let early : after timestamp (start -ℤ pos 1) x ≡ false = ground arith in
        rw (p, early) (keep_after-recent start xs)
  ]

  test-not_before :
      (start : ℤ) (o : Option S)
      → not_before timestamp start o ≡ is_after timestamp (start -ℤ pos 1) o
  test-not_before start none = refl
  test-not_before start (some x) = elim (Bool-cases (ltb_ℤ (timestamp x) start)) [
    | inl p ↦
        let before : timestamp x <ℤ start = ground arith in
        let behind : timestamp x ≤ℤ start -ℤ pos 1 = omega int_laws in
        let early : ltb_ℤ (start -ℤ pos 1) (timestamp x) ≡ false = ground arith in
        rw (p, early) refl
    | inr p ↦
        let reached : start ≤ℤ timestamp x = ground arith in
        let beyond : start -ℤ pos 1 <ℤ timestamp x = omega int_laws in
        let later : ltb_ℤ (start -ℤ pos 1) (timestamp x) ≡ true = ground arith in rw (p, later) refl
  ]

  -- The window of sorted snapshots is made of those that are not before its start.
  pub window_from-recent :
      (start : ℤ) (xs : List S)
      → IsSorted timestamp xs
      → window_from timestamp start xs ≡ recent start xs
  unfolding window_from
  window_from-recent start xs sorted =
      ap (λ test. drop (search (length xs) test 0 (length xs)) xs)
        (fun_ext (λ i. test-not_before start (get_elem? xs i)))
      ∙ ap (λ n. drop n xs) (search-first timestamp (start -ℤ pos 1) xs sorted)
      ∙ drop-first_after timestamp (start -ℤ pos 1) xs sorted
      ∙ keep_after-recent start xs
