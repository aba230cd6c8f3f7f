-- ===== src/Events/Groups.antt =====
-- Which data points normalisation keeps: one for each time at which all observations agree.
use kubectl_hpa_status.Prelude.{
  List, [], ◌∷◌, ℤ, true, false, ◌≤ℤ◌, ◌<ℤ◌, arith, ◌≡◌, ◌↔◌, ◌⊎◌, inl, inr, Bool-cases, All,
}
use kubectl_hpa_status.Events.Rescales.{RescaleData, rescale_less, insert, sort}

abbrev pub In : RescaleData → List RescaleData → Type 0
In r [] = ⊥
In r (x ∷ xs) = (r ≡ x) ⊎ In r xs

-- Every observation at the time of `r` has the size of `r`.
abbrev pub Agree : RescaleData → List RescaleData → Type 0
Agree r xs = All (λ s. s.timestamp ≡ r.timestamp → s.new_size ≡ r.new_size) xs

abbrev pub From : ℤ → List RescaleData → Type 0
From t xs = All (λ s. t ≤ℤ s.timestamp) xs

abbrev pub After : ℤ → List RescaleData → Type 0
After t xs = All (λ s. t <ℤ s.timestamp) xs

abbrev pub IsSorted : List RescaleData → Type 0
IsSorted [] = Unit
IsSorted (x ∷ xs) = From x.timestamp xs × IsSorted xs

-- Strictly ascending times: no time occurs twice.
abbrev pub Ascending : List RescaleData → Type 0
Ascending [] = Unit
Ascending (x ∷ xs) = After x.timestamp xs × Ascending xs

pub From-mono : (t u : ℤ) (xs : List RescaleData) → t ≤ℤ u → From u xs → From t xs
From-mono t u [] h k = tt
From-mono t u (x ∷ xs) h k = (omega arith, From-mono t u xs h k.1)

pub After-From : (t u : ℤ) (xs : List RescaleData) → t <ℤ u → From u xs → After t xs
After-From t u [] h k = tt
After-From t u (x ∷ xs) h k = (omega arith, After-From t u xs h k.1)

From-insert :
    (t : ℤ) (a : RescaleData) (xs : List RescaleData)
    → t ≤ℤ a.timestamp
    → From t xs
    → From t (insert a xs)
unfolding insert
From-insert t a [] h k = (h, tt)
From-insert t a (x ∷ xs) h k = elim (Bool-cases (rescale_less x a)) [
  | inl e ↦ rw e (k.0, From-insert t a xs h k.1)
  | inr e ↦ rw e (h, k)
]

less→le : (a b : RescaleData) → rescale_less a b ≡ true → a.timestamp ≤ℤ b.timestamp
unfolding rescale_less
less→le a b h = ground arith

not-less→le : (a b : RescaleData) → rescale_less a b ≡ false → b.timestamp ≤ℤ a.timestamp
unfolding rescale_less
not-less→le a b h = ground arith

insert-IsSorted : (a : RescaleData) (xs : List RescaleData) → IsSorted xs → IsSorted (insert a xs)
unfolding insert
insert-IsSorted a [] h = (tt, tt)
insert-IsSorted a (x ∷ xs) h = elim (Bool-cases (rescale_less x a)) [
  | inl e ↦ rw e (From-insert x.timestamp a xs (less→le x a e) h.0, insert-IsSorted a xs h.1)
  | inr e ↦
      let le = not-less→le x a e in rw e ((le, From-mono a.timestamp x.timestamp xs le h.0), h)
]

pub sort-IsSorted : (xs : List RescaleData) → IsSorted (sort xs)
unfolding sort
sort-IsSorted [] = tt
sort-IsSorted (x ∷ xs) = insert-IsSorted x (sort xs) (sort-IsSorted xs)

-- Membership and agreement through the sort.
In-insert : (r a : RescaleData) (xs : List RescaleData) → In r (insert a xs) ↔ ((r ≡ a) ⊎ In r xs)
unfolding insert
In-insert r a [] = (λ h. h, λ h. h)
In-insert r a (x ∷ xs) =
    let ih = In-insert r a xs in
    elim (Bool-cases (rescale_less x a)) [
      | inl e ↦ rw e (λ h. ground (arith, ih.0), λ h. ground (arith, ih.1))
      | inr e ↦ rw e (λ h. h, λ h. h)
    ]

pub In-sort : (r : RescaleData) (xs : List RescaleData) → In r (sort xs) ↔ In r xs
unfolding sort
In-sort r [] = (λ h. h, λ h. h)
In-sort r (x ∷ xs) =
    let ih = In-sort r xs in
    let step = In-insert r x (sort xs) in
    (λ h. ground (arith, step.0 h, ih.0), λ h. step.1 (ground (arith, ih.1)))

Agree-insert :
    (r a : RescaleData) (xs : List RescaleData) → Agree r (insert a xs) ↔ Agree r (a ∷ xs)
unfolding insert
Agree-insert r a [] = (λ h. h, λ h. h)
Agree-insert r a (x ∷ xs) =
    let ih = Agree-insert r a xs in
    elim (Bool-cases (rescale_less x a)) [
      | inl e ↦ rw e (λ h. let k = ih.0 h.1 in (k.0, (h.0, k.1)), λ h. (h.1.0, ih.1 (h.0, h.1.1)))
      | inr e ↦ rw e (λ h. h, λ h. h)
    ]

pub Agree-sort : (r : RescaleData) (xs : List RescaleData) → Agree r (sort xs) ↔ Agree r xs
unfolding sort
Agree-sort r [] = (λ h. h, λ h. h)
Agree-sort r (x ∷ xs) =
    let ih = Agree-sort r xs in
    let step = Agree-insert r x (sort xs) in
    (λ h. let k = step.0 h in (k.0, ih.0 k.1), λ h. step.1 (h.0, ih.1 h.1))
