-- ===== src/History/Sorted.antt =====
-- The order in which internal/history/store.go keeps the snapshots: a stable sort by time, and the
-- binary search that finds the first snapshot after a time.
use kubectl_hpa_status.Prelude.{
  List, [], ◌∷◌, ◌++◌, ℤ, ◌≤ℤ◌, ltb_ℤ, Bool, true, false, ◌&&◌, not, All, if◌then◌else◌, ◌≡◌, refl,
  sym, ap, ◌∙◌, inl, inr, Bool-cases, arith,
}

module _ {S : Type 0} (timestamp : S → ℤ) where
  -- The place behind all snapshots that are not later.
  unfoldable pub insert : S → List S → List S
  insert s [] = s ∷ []
  insert s (x ∷ xs) =
      let rest = insert s xs in if ltb_ℤ (timestamp s) (timestamp x) then s ∷ x ∷ xs else x ∷ rest

  unfoldable pub insert_all : List S → List S → List S
  insert_all done [] = done
  insert_all done (x ∷ xs) = insert_all (insert x done) xs

  -- sort.SliceStable, whose result is determined by the order.
  abbrev pub sort_stable : List S → List S
  sort_stable xs = insert_all [] xs

  -- sort.SliceIsSorted compares each element with the one before.
  unfoldable pub is_sorted : List S → Bool
  is_sorted [] = true
  is_sorted (x ∷ []) = true
  is_sorted (x ∷ y ∷ xs) = not (ltb_ℤ (timestamp y) (timestamp x)) && is_sorted (y ∷ xs)

  unfoldable pub sort_if_needed : List S → List S
  unfolding insert_all is_sorted
  sort_if_needed xs = if is_sorted xs then xs else sort_stable xs

  abbrev pub after : ℤ → S → Bool
  after cutoff s = ltb_ℤ cutoff (timestamp s)

  unfoldable pub keep_after : ℤ → List S → List S
  keep_after cutoff [] = []
  keep_after cutoff (x ∷ xs) =
      let rest = keep_after cutoff xs in if after cutoff x then x ∷ rest else rest

  abbrev pub IsSorted : List S → Type 0
  IsSorted [] = Unit
  IsSorted (x ∷ xs) = All (λ y. timestamp x ≤ℤ timestamp y) xs × IsSorted xs

  All-weaken :
      (t u : ℤ) (xs : List S)
      → t ≤ℤ u
      → All (λ y. u ≤ℤ timestamp y) xs
      → All (λ y. t ≤ℤ timestamp y) xs
  All-weaken t u [] h k = tt
  All-weaken t u (x ∷ xs) h (a, k) = (omega arith, All-weaken t u xs h k)

  All-insert :
      (t : ℤ) (s : S) (xs : List S)
      → t ≤ℤ timestamp s
      → All (λ y. t ≤ℤ timestamp y) xs
      → All (λ y. t ≤ℤ timestamp y) (insert s xs)
  unfolding insert
  All-insert t s [] h k = (h, tt)
  All-insert t s (x ∷ xs) h (a, k) = elim (Bool-cases (ltb_ℤ (timestamp s) (timestamp x))) [
    | inl p ↦ rw p (h, (a, k))
    | inr p ↦ rw p (a, All-insert t s xs h k)
  ]

  pub insert-IsSorted : (s : S) (xs : List S) → IsSorted xs → IsSorted (insert s xs)
  unfolding insert
  insert-IsSorted s [] h = (tt, tt)
  insert-IsSorted s (x ∷ xs) (a, h) = elim (Bool-cases (ltb_ℤ (timestamp s) (timestamp x))) [
    | inl p ↦
        let earlier : timestamp s ≤ℤ timestamp x = ground arith in
        rw p ((earlier, All-weaken (timestamp s) (timestamp x) xs earlier a), (a, h))
    | inr p ↦ rw p (All-insert (timestamp x) s xs (ground arith) a, insert-IsSorted s xs h)
  ]

  pub insert_all-IsSorted : (done xs : List S) → IsSorted done → IsSorted (insert_all done xs)
  unfolding insert_all
  insert_all-IsSorted done [] h = h
  insert_all-IsSorted done (x ∷ xs) h =
      insert_all-IsSorted (insert x done) xs (insert-IsSorted x done h)

  -- The snapshots after a cutoff, sorted, are the sorted ones after the cutoff.
  pub keep_after-insert :
      (cutoff : ℤ) (s : S) (xs : List S)
      → keep_after cutoff (insert s xs)
        ≡ (if after cutoff s then insert s (keep_after cutoff xs) else keep_after cutoff xs)
  unfolding insert keep_after
  keep_after-insert cutoff s [] = refl
  keep_after-insert cutoff s (x ∷ xs) = ground (arith, keep_after-insert cutoff s xs)

  pub keep_after-insert_all :
      (cutoff : ℤ) (done xs : List S)
      → keep_after cutoff (insert_all done xs)
        ≡ insert_all (keep_after cutoff done) (keep_after cutoff xs)
  unfolding insert_all keep_after
  keep_after-insert_all cutoff done [] = refl
  keep_after-insert_all cutoff done (x ∷ xs) =
      keep_after-insert_all cutoff (insert x done) xs ∙ elim (Bool-cases (after cutoff x)) [
        | inl p ↦ rw (keep_after-insert cutoff x done, p) refl
        | inr p ↦ rw (keep_after-insert cutoff x done, p) refl
      ]

  -- What is sorted already is left as it is.
  insert_last :
      (s : S) (xs : List S)
      → All (λ y. timestamp y ≤ℤ timestamp s) xs
      → insert s xs ≡ xs ++ (s ∷ [])
  unfolding insert
  insert_last s [] h = refl
  insert_last s (x ∷ xs) (a, h) =
      let later : ltb_ℤ (timestamp s) (timestamp x) ≡ false = ground arith in
      rw (later, insert_last s xs h) refl

  All-append_last :
      (t u : ℤ) (s : S) (xs : List S)
      → t ≤ℤ u
      → timestamp s ≤ℤ u
      → All (λ y. timestamp y ≤ℤ t) xs
      → All (λ y. timestamp y ≤ℤ u) (xs ++ (s ∷ []))
  All-append_last t u s [] h k a = (k, tt)
  All-append_last t u s (x ∷ xs) h k (a, rest) = (omega arith, All-append_last t u s xs h k rest)

  append_assoc_one : (xs : List S) (s : S) (ys : List S) → (xs ++ (s ∷ [])) ++ ys ≡ xs ++ (s ∷ ys)
  append_assoc_one [] s ys = refl
  append_assoc_one (x ∷ xs) s ys = ap (λ r. x ∷ r) (append_assoc_one xs s ys)

  insert_all_sorted :
      (done : List S) (x : S) (xs : List S)
      → All (λ y. timestamp y ≤ℤ timestamp x) done
      → is_sorted (x ∷ xs) ≡ true
      → insert_all done (x ∷ xs) ≡ done ++ (x ∷ xs)
  unfolding insert_all is_sorted
  insert_all_sorted done x [] a h = insert_last x done a
  insert_all_sorted done x (y ∷ xs) a h =
      let ordered : timestamp x ≤ℤ timestamp y = ground arith in
      let rest : is_sorted (y ∷ xs) ≡ true = ground arith in
      ap (λ r. insert_all r (y ∷ xs)) (insert_last x done a)
      ∙ insert_all_sorted (done ++ (x ∷ [])) y xs
          (All-append_last (timestamp x) (timestamp y) x done ordered ordered a) rest
      ∙ append_assoc_one done x (y ∷ xs)

  -- Sorting only what is out of order gives what sorting always gives.
  pub sort_if_needed-eq : (xs : List S) → sort_if_needed xs ≡ sort_stable xs
  unfolding sort_if_needed
  sort_if_needed-eq [] = refl
  sort_if_needed-eq (x ∷ xs) = elim (Bool-cases (is_sorted (x ∷ xs))) [
    | inr p ↦ rw p refl
    | inl p ↦ rw p (sym (insert_all_sorted [] x xs tt p))
  ]
