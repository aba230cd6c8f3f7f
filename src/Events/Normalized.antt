-- ===== src/Events/Normalized.antt =====
-- The specification of NormalizeRescales, through the grouping loop.
use kubectl_hpa_status.Prelude.{
  List, [], ◌∷◌, ◌++◌, ℤ, Bool, true, false, not, ◌||◌, eqb_ℤ, eqb_iff, ◌≤ℤ◌, ◌<ℤ◌, arith, ◌≡◌, ◌↔◌,
  ◌⊎◌, inl, inr, refl, sym, ◌∙◌, ap, subst, Bool-cases,
}
use kubectl_hpa_status.Events.Rescales.{
  RescaleData, emit, groups, normalize_sorted, normalize_rescales, sort,
}
use kubectl_hpa_status.Events.Groups.{
  In, Agree, From, After, IsSorted, Ascending, After-From, sort-IsSorted, In-sort, Agree-sort,
}

From-groups :
    (t : ℤ) (first : RescaleData) (ambiguous : Bool) (rest : List RescaleData)
    → t ≤ℤ first.timestamp
    → From t rest
    → From t (groups first ambiguous rest)
unfolding groups
From-groups t first true [] h k = tt
From-groups t first false [] h k = (h, tt)
From-groups t first ambiguous (next ∷ rest) h k =
    elim (Bool-cases (eqb_ℤ next.timestamp first.timestamp)) [
      | inl e ↦ rw e (From-groups t first _ rest h k.1)
      | inr e ↦ rw e (
          From-append t first ambiguous (groups next false rest) h
            (From-groups t next false rest k.0 k.1))
    ]
  where
    From-append :
        (t : ℤ) (x : RescaleData) (b : Bool) (ys : List RescaleData)
        → t ≤ℤ x.timestamp
        → From t ys
        → From t (emit x b ++ ys)
    From-append t x true ys h k = k
    From-append t x false ys h k = (h, k)

Ascending-emit :
    (first : RescaleData) (ambiguous : Bool) (ys : List RescaleData)
    → After first.timestamp ys
    → Ascending ys
    → Ascending (emit first ambiguous ++ ys)
Ascending-emit first true ys h k = k
Ascending-emit first false ys h k = (h, k)

groups-Ascending :
    (first : RescaleData) (ambiguous : Bool) (rest : List RescaleData)
    → IsSorted (first ∷ rest)
    → Ascending (groups first ambiguous rest)
unfolding groups
groups-Ascending first true [] h = tt
groups-Ascending first false [] h = (tt, tt)
groups-Ascending first ambiguous (next ∷ rest) h =
    elim (Bool-cases (eqb_ℤ next.timestamp first.timestamp)) [
      | inl e ↦ rw e (groups-Ascending first _ rest (h.0.1, h.1.1))
      | inr e ↦ rw e (
          Ascending-emit first ambiguous (groups next false rest)
            (After-From first.timestamp next.timestamp (groups next false rest)
              (ground (arith, h.0.0))
              (From-groups next.timestamp next false rest (omega arith) h.1.0))
            (groups-Ascending next false rest h.1))
    ]

-- An element of a later group has another time.
In-From : (r : RescaleData) (t : ℤ) (xs : List RescaleData) → From t xs → In r xs → t ≤ℤ r.timestamp
In-From r t [] h i = absurd i
In-From r t (x ∷ xs) h (inl e) = ground (arith, h.0)
In-From r t (x ∷ xs) h (inr i) = In-From r t xs h.1 i

Agree-After : (r : RescaleData) (xs : List RescaleData) → After r.timestamp xs → Agree r xs
Agree-After r [] h = tt
Agree-After r (x ∷ xs) h = (λ e. ground (arith, h.0), Agree-After r xs h.1)

In-emit :
    (r first : RescaleData) (ambiguous : Bool) (ys : List RescaleData)
    → In r (emit first ambiguous ++ ys) ↔ (((r ≡ first) × (ambiguous ≡ false)) ⊎ In r ys)
In-emit r first true ys = (λ h. inr h, λ h. ground arith)
In-emit r first false ys = (λ h. ground arith, λ h. ground arith)

-- What the loop keeps from `first` and `rest`, given whether it has met a conflict before.
abbrev Kept : RescaleData → RescaleData → Bool → List RescaleData → Type 0
Kept r first ambiguous rest =
    In r (first ∷ rest)
    × Agree r (first ∷ rest)
    × (r.timestamp ≡ first.timestamp → ambiguous ≡ false)

Kept-same :
    (r first next : RescaleData) (ambiguous : Bool) (rest : List RescaleData)
    → next.timestamp ≡ first.timestamp
    → Kept r first (ambiguous || not (eqb_ℤ next.new_size first.new_size)) rest
      ↔ Kept r first ambiguous (next ∷ rest)
Kept-same r first next ambiguous rest e = (
  λ h. (
    ground arith,
    (h.1.0, (λ q. let t = sym q ∙ e in ground (arith, h.2 t, h.1.0 (sym t)), h.1.1)),
    λ t. ground (arith, h.2 t),
  ),
  λ h. (
    elim h.0 [
      | inl f ↦ inl f
      | inr m ↦ elim m [
        | inl n ↦ let t = ap (λ x. x.timestamp) n ∙ e in inl (ground (arith, h.1.0 (sym t)))
        | inr i ↦ inr i
      ]
    ],
    (h.1.0, h.1.1.1),
    λ t. ground (arith, h.2 t, h.1.0 (sym t), h.1.1.0 (e ∙ sym t)),
  ),
)

Kept-later :
    (r first next : RescaleData) (ambiguous : Bool) (rest : List RescaleData)
    → IsSorted (first ∷ next ∷ rest)
    → eqb_ℤ next.timestamp first.timestamp ≡ false
    → (((r ≡ first) × (ambiguous ≡ false)) ⊎ Kept r next false rest)
      ↔ Kept r first ambiguous (next ∷ rest)
Kept-later r first next ambiguous rest s e =
    let lt : first.timestamp <ℤ next.timestamp = ground (arith, s.0.0) in
    (
      λ h. elim h [
        | inl o ↦ (
          inl o.0,
          (
            λ t. ground arith,
            subst (λ x. Agree x (next ∷ rest)) (sym o.0)
                (Agree-After first (next ∷ rest)
                  (lt, After-From first.timestamp next.timestamp rest lt s.1.0)),
          ),
          λ t. o.1,
        )
        | inr k ↦
            let le = In-From r next.timestamp (next ∷ rest) (omega arith, s.1.0) k.0 in
            (inr k.0, (λ t. absurd (ground arith), k.1), λ t. absurd (ground arith))
      ],
      λ h. elim h.0 [
        | inl f ↦ inl (f, h.2 (ap (λ x. x.timestamp) f))
        | inr i ↦ inr (i, h.1.1, λ t. refl)
      ],
    )

In-later {ℓ κ μ} : {A : Type ℓ} {B : Type κ} {C : Type μ} → (B → C) → A ⊎ B → A ⊎ C
In-later f (inl a) = inl a
In-later f (inr b) = inr (f b)

self-ambiguous :
    {r first : RescaleData} → (r ≡ first) ⊎ ⊥ → (r.timestamp ≡ first.timestamp → true ≡ false) → ⊥
self-ambiguous (inl e) h = cc (h (ap (λ x. x.timestamp) e))
self-ambiguous (inr e) h = e

In-groups :
    (r first : RescaleData) (ambiguous : Bool) (rest : List RescaleData)
    → IsSorted (first ∷ rest)
    → In r (groups first ambiguous rest) ↔ Kept r first ambiguous rest
unfolding groups
In-groups r first true [] s = (λ h. absurd h, λ h. absurd (self-ambiguous h.0 h.2))
In-groups r first false [] s = (λ h. (h, (λ t. ground arith, tt), λ t. refl), λ h. h.0)
In-groups r first ambiguous (next ∷ rest) s =
    elim (Bool-cases (eqb_ℤ next.timestamp first.timestamp)) [
      | inl e ↦
          let same = Kept-same r first next ambiguous rest ((eqb_iff _ _).0 e) in
          let ih =
            In-groups r first (ambiguous || not (eqb_ℤ next.new_size first.new_size)) rest
              (s.0.1, s.1.1) in
          rw e (λ h. same.0 (ih.0 h), λ h. ih.1 (same.1 h))
      | inr e ↦
          let later = Kept-later r first next ambiguous rest s e in
          let out = In-emit r first ambiguous (groups next false rest) in
          let ih = In-groups r next false rest s.1 in
          rw e (λ h. later.0 (In-later ih.0 (out.0 h)), λ h. out.1 (In-later ih.1 (later.1 h)))
    ]

normalize_sorted-In :
    (r : RescaleData) (xs : List RescaleData)
    → IsSorted xs
    → In r (normalize_sorted xs) ↔ (In r xs × Agree r xs)
unfolding normalize_sorted
normalize_sorted-In r [] s = (λ h. absurd h, λ h. h.0)
normalize_sorted-In r (first ∷ rest) s =
    let all = In-groups r first false rest s in
    (λ h. let k = all.0 h in (k.0, k.1), λ h. all.1 (h.0, h.1, λ t. refl))

normalize_sorted-Ascending : (xs : List RescaleData) → IsSorted xs → Ascending (normalize_sorted xs)
unfolding normalize_sorted
normalize_sorted-Ascending [] s = tt
normalize_sorted-Ascending (first ∷ rest) s = groups-Ascending first false rest s

-- The kept data points are in strictly ascending order of time.
pub normalize_rescales-Ascending : (xs : List RescaleData) → Ascending (normalize_rescales xs)
unfolding normalize_rescales
normalize_rescales-Ascending xs = normalize_sorted-Ascending (sort xs) (sort-IsSorted xs)

normalize_rescales_members :
    (r : RescaleData) (xs : List RescaleData)
    → In r (normalize_rescales xs) ↔ (In r xs × Agree r xs)
unfolding normalize_rescales
normalize_rescales_members r xs =
    let sorted = normalize_sorted-In r (sort xs) (sort-IsSorted xs) in
    let members = In-sort r xs in
    let agrees = Agree-sort r xs in
    (
      λ h. let k = sorted.0 h in (members.0 k.0, agrees.0 k.1),
      λ h. sorted.1 (members.1 h.0, agrees.1 h.1),
    )

-- A data point is kept exactly when it was observed and every observation at its time has its
-- size, so that a time with two sizes is dropped; and the kept points are in strictly ascending order
-- of time, so that each is there once however often it was observed.
pub normalize_rescales-In :
    (r : RescaleData) (xs : List RescaleData)
    → (In r (normalize_rescales xs) ↔ (In r xs × Agree r xs)) × Ascending (normalize_rescales xs)
normalize_rescales-In r xs = (normalize_rescales_members r xs, normalize_rescales-Ascending xs)
