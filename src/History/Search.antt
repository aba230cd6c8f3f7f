-- ===== src/History/Search.antt =====
-- sort.Search on snapshots sorted by time finds the first one after a time.
use kubectl_hpa_status.Prelude.{
  ℕ, zero, suc, ◌+◌, ◌/◌, ◌<◌, ◌≤◌, List, [], ◌∷◌, ℤ, ◌≤ℤ◌, Bool, true, false, ltb, ltb_ℤ, length,
  All, take, drop, get_elem?, if◌then◌else◌, ◌≡◌, refl, ap, ◌++◌, inl, inr, Bool-cases, if_rule,
  arith,
}
use kubectl_hpa_status.History.Cache.{search, is_after}
use kubectl_hpa_status.History.Sorted.{insert, after, keep_after, IsSorted}

not_before :
    (test : ℕ → Bool) (k h n : ℕ)
    → k ≤ h
    → h < n
    → test h ≡ false
    → ((a b : ℕ) → a ≤ b → b < n → test a ≡ true → test b ≡ true)
    → test k ≡ false
not_before test k h n p q t mono = elim (Bool-cases (test k)) [
  | inr u ↦ u
  | inl u ↦ cc (t, mono k h p q u)
]

-- The search stops where the test turns true.
search-IsFirst :
    (test : ℕ → Bool) (n fuel i j : ℕ)
    → i ≤ j
    → j ≤ n
    → j ≤ i + fuel
    → ((a b : ℕ) → a ≤ b → b < n → test a ≡ true → test b ≡ true)
    → ((k : ℕ) → k < i → test k ≡ false)
    → ((k : ℕ) → j ≤ k → k < n → test k ≡ true)
    → (search fuel test i j ≤ n)
      × ((k : ℕ) → k < search fuel test i j → test k ≡ false)
      × ((k : ℕ) → search fuel test i j ≤ k → k < n → test k ≡ true)
unfolding search
search-IsFirst test n zero i j p q f mono low high =
    (omega arith, low, λ k a b. high k (omega arith) b)
search-IsFirst test n (suc fuel) i j p q f mono low high =
    let h = (i + j) / 2 in
    if_rule
      (λ r.
        (r ≤ n) × ((k : ℕ) → k < r → test k ≡ false) × ((k : ℕ) → r ≤ k → k < n → test k ≡ true))
      (ltb i j)
      (λ smaller.
        let inside : i < j = ground arith in
        elim (Bool-cases (test h)) [
          | inl t ↦ rw t (
              search-IsFirst test n fuel i h (omega arith) (omega arith) (omega arith) mono low
                (λ k a b. mono h k a b t))
          | inr t ↦ rw t (
              search-IsFirst test n fuel (h + 1) j (omega arith) q (omega arith) mono
                (λ k a. not_before test k h n (omega arith) (omega arith) t mono) high)
        ])
      (λ ended.
        let same : j ≤ i = ground arith in (omega arith, low, λ k a b. high k (omega arith) b))

module _ {S : Type 0} (timestamp : S → ℤ) where
  unfoldable pub first_after : ℤ → List S → ℕ
  first_after cutoff [] = 0
  first_after cutoff (x ∷ xs) =
      let rest = first_after cutoff xs in if after timestamp cutoff x then 0 else suc rest

  abbrev pub test_at : ℤ → List S → ℕ → Bool
  test_at cutoff xs i = is_after timestamp cutoff (get_elem? xs i)

  first_after-le : (cutoff : ℤ) (xs : List S) → first_after cutoff xs ≤ length xs
  unfolding first_after
  first_after-le cutoff [] = omega arith
  first_after-le cutoff (x ∷ xs) = ground (arith, first_after-le cutoff xs)

  before_first :
      (cutoff : ℤ) (xs : List S) (k : ℕ) → k < first_after cutoff xs → test_at cutoff xs k ≡ false
  unfolding first_after
  before_first cutoff [] k h = refl
  before_first cutoff (x ∷ xs) zero h = ground arith
  before_first cutoff (x ∷ xs) (suc k) h = ground (arith, before_first cutoff xs k)

  test_at_later :
      (cutoff t : ℤ) (xs : List S) (k : ℕ)
      → ltb_ℤ cutoff t ≡ true
      → All (λ y. t ≤ℤ timestamp y) xs
      → k < length xs
      → test_at cutoff xs k ≡ true
  test_at_later cutoff t [] k p h q = absurd (omega arith)
  test_at_later cutoff t (x ∷ xs) zero p (a, h) q = ground arith
  test_at_later cutoff t (x ∷ xs) (suc k) p (a, h) q = test_at_later cutoff t xs k p h (omega arith)

  from_first :
      (cutoff : ℤ) (xs : List S) (k : ℕ)
      → IsSorted timestamp xs
      → first_after cutoff xs ≤ k
      → k < length xs
      → test_at cutoff xs k ≡ true
  unfolding first_after
  from_first cutoff [] k s h q = absurd (omega arith)
  from_first cutoff (x ∷ xs) zero (a, s) h q = ground arith
  from_first cutoff (x ∷ xs) (suc k) (a, s) h q = elim (Bool-cases (after timestamp cutoff x)) [
    | inl p ↦ test_at_later cutoff (timestamp x) xs k p a (omega arith)
    | inr p ↦
        let below : suc (first_after cutoff xs) ≤ suc k = rw p at h in
        from_first cutoff xs k s (omega arith) (omega arith)
  ]

  test_mono :
      (cutoff : ℤ) (xs : List S)
      → IsSorted timestamp xs
      → (a b : ℕ) → a ≤ b
      → b < length xs
      → test_at cutoff xs a ≡ true
      → test_at cutoff xs b ≡ true
  test_mono cutoff xs s a b p q t = elim (Bool-cases (ltb a (first_after cutoff xs))) [
    | inl u ↦ cc (t, before_first cutoff xs a (ground arith))
    | inr u ↦ from_first cutoff xs b s (ground arith) q
  ]

  -- The binary search agrees with a walk from the front.
  pub search-first :
      (cutoff : ℤ) (xs : List S)
      → IsSorted timestamp xs
      → search (length xs) (test_at cutoff xs) 0 (length xs) ≡ first_after cutoff xs
  search-first cutoff xs s =
      let n = length xs in
      let r = search n (test_at cutoff xs) 0 n in
      let f = first_after cutoff xs in
      let (le, low, high) =
        search-IsFirst (test_at cutoff xs) n n 0 n (omega arith) (omega arith) (omega arith)
          (test_mono cutoff xs s) (λ k h. absurd (omega arith)) (λ k h q. absurd (omega arith)) in
      let bound : f ≤ n = first_after-le cutoff xs in
      elim (Bool-cases (ltb r f)) [
        | inl p ↦
            let at_r : r < f = ground arith in
            cc (before_first cutoff xs r at_r, high r (omega arith) (omega arith))
        | inr p ↦ elim (Bool-cases (ltb f r)) [
          | inl q ↦
              let at_f : f < r = ground arith in
              cc (low f at_f, from_first cutoff xs f s (omega arith) (omega arith))
          | inr q ↦ ground arith
        ]
      ]

  -- What the search cuts off is what is not after the cutoff.
  keep_later :
      (cutoff t : ℤ) (xs : List S)
      → ltb_ℤ cutoff t ≡ true
      → All (λ y. t ≤ℤ timestamp y) xs
      → keep_after timestamp cutoff xs ≡ xs
  unfolding keep_after
  keep_later cutoff t [] p h = refl
  keep_later cutoff t (x ∷ xs) p (a, h) =
      let later : after timestamp cutoff x ≡ true = ground arith in
      rw (later, keep_later cutoff t xs p h) refl

  pub drop-first_after :
      (cutoff : ℤ) (xs : List S)
      → IsSorted timestamp xs
      → drop (first_after cutoff xs) xs ≡ keep_after timestamp cutoff xs
  unfolding first_after keep_after
  drop-first_after cutoff [] s = refl
  drop-first_after cutoff (x ∷ xs) (a, s) = elim (Bool-cases (after timestamp cutoff x)) [
    | inl p ↦ rw (p, keep_later cutoff (timestamp x) xs p a) refl
    | inr p ↦ rw p (drop-first_after cutoff xs s)
  ]

  pub insert_at_first :
      (s : S) (xs : List S)
      → take (first_after (timestamp s) xs) xs ++ (s ∷ drop (first_after (timestamp s) xs) xs)
        ≡ insert timestamp s xs
  unfolding first_after insert
  insert_at_first s [] = refl
  insert_at_first s (x ∷ xs) = elim (Bool-cases (after timestamp (timestamp s) x)) [
    | inl p ↦ rw p refl
    | inr p ↦ rw p (ap (λ r. x ∷ r) (insert_at_first s xs))
  ]

  -- The number of snapshots that a cutoff removes.
  pub length-keep_after :
      (cutoff : ℤ) (xs : List S)
      → IsSorted timestamp xs
      → length (keep_after timestamp cutoff xs) + first_after cutoff xs ≡ length xs
  unfolding first_after keep_after
  length-keep_after cutoff [] s = refl
  length-keep_after cutoff (x ∷ xs) (a, s) = elim (Bool-cases (after timestamp cutoff x)) [
    | inl p ↦ rw (p, keep_later cutoff (timestamp x) xs p a) (omega arith)
    | inr p ↦ rw p (omega (arith, length-keep_after cutoff xs s))
  ]
