-- ===== src/Scaling/Selection.antt =====
-- The selection rule of `Limit` against its meaning: the largest or the smallest candidate.
use kubectl_hpa_status.Prelude.{
  List, [], ◌∷◌, ℤ, Bool, true, false, max_ℤ, min_ℤ, ◌≤ℤ◌, arith, ◌≡◌, ◌≢◌, ◌⊎◌, inl, inr, refl,
  sym, ◌∙◌, Option, none, some, not,
}
use kubectl_hpa_status.Api.{ScalingPolicy, PolicySelect, disabled, max_change, min_change}
use kubectl_hpa_status.Scaling.Policy.{
  Float64, Event, policy_candidate, keep_selected, limit_loop, limit, is_min_change, bool_eq,
}

-- On the way to the largest (`true`) or the smallest (`false`) value.
abbrev pub AtMost : Bool → Option ℤ → ℤ → Type 0
AtMost m none r = Unit
AtMost true (some c) r = c ≤ℤ r
AtMost false (some c) r = r ≤ℤ c

-- No candidate lies beyond `r`.
abbrev pub Covers : Bool → (ScalingPolicy → Option ℤ) → ℤ → List ScalingPolicy → Type 0
Covers m candidate r [] = Unit
Covers m candidate r (p ∷ ps) = AtMost m (candidate p) r × Covers m candidate r ps

-- Some policy has the candidate `r`.
abbrev pub Attained : (ScalingPolicy → Option ℤ) → ℤ → List ScalingPolicy → Type 0
Attained candidate r [] = ⊥
Attained candidate r (p ∷ ps) = (candidate p ≡ some r) ⊎ Attained candidate r ps

abbrev pub NoCandidate : (ScalingPolicy → Option ℤ) → List ScalingPolicy → Type 0
NoCandidate candidate [] = Unit
NoCandidate candidate (p ∷ ps) = (candidate p ≡ none) × NoCandidate candidate ps

abbrev pub IsBest : Bool → (ScalingPolicy → Option ℤ) → List ScalingPolicy → Option ℤ → Type 0
IsBest m candidate policies none = NoCandidate candidate policies
IsBest m candidate policies (some r) = Covers m candidate r policies × Attained candidate r policies

none≢some : {r : ℤ} → none ≡ some r → ⊥
none≢some h = cc

-- The most change is the largest count when scaling up and the smallest when scaling down.
abbrev pub wants_max : Bool → PolicySelect → Bool
wants_max scale_up select = bool_eq scale_up (not (is_min_change select))

keep_selected-AtMost :
    (scale_up : Bool) (select : PolicySelect) (o c : Option ℤ) (r : ℤ)
    → AtMost (wants_max scale_up select) (keep_selected scale_up select o c) r
    → AtMost (wants_max scale_up select) o r × AtMost (wants_max scale_up select) c r
unfolding keep_selected max_ℤ min_ℤ
keep_selected-AtMost scale_up select o none r h = (h, tt)
keep_selected-AtMost scale_up select none (some c) r h = (tt, h)
keep_selected-AtMost true max_change (some b) (some c) r h = ground arith
keep_selected-AtMost true min_change (some b) (some c) r h = ground arith
keep_selected-AtMost true disabled (some b) (some c) r h = ground arith
keep_selected-AtMost false max_change (some b) (some c) r h = ground arith
keep_selected-AtMost false min_change (some b) (some c) r h = ground arith
keep_selected-AtMost false disabled (some b) (some c) r h = ground arith

keep_selected_either :
    (scale_up : Bool) (select : PolicySelect) (o c : Option ℤ) (r : ℤ)
    → keep_selected scale_up select o c ≡ some r
    → (o ≡ some r) ⊎ (c ≡ some r)
unfolding keep_selected max_ℤ min_ℤ
keep_selected_either scale_up select o none r h = inl h
keep_selected_either scale_up select none (some c) r h = inr h
keep_selected_either scale_up select (some b) (some c) r h = ground arith

keep_selected-eq-none :
    (scale_up : Bool) (select : PolicySelect) (o c : Option ℤ)
    → keep_selected scale_up select o c ≡ none
    → (o ≡ none) × (c ≡ none)
unfolding keep_selected
keep_selected-eq-none scale_up select o none h = (h, refl)
keep_selected-eq-none scale_up select none (some c) h = cc
keep_selected-eq-none scale_up select (some b) (some c) h = cc

AtMost-self : (m : Bool) (r : ℤ) → AtMost m (some r) r
AtMost-self true r = omega arith
AtMost-self false r = omega arith

module _ (F : Float64) (current : ℤ) (scale_up : Bool) (select : PolicySelect) (now : ℤ)
    (history : List Event) where
  abbrev candidate : ScalingPolicy → Option ℤ
  candidate = policy_candidate F current scale_up now history

  limit_loop_best :
      (selected : Option ℤ) (policies : List ScalingPolicy) (r : ℤ)
      → limit_loop F current scale_up select now history selected policies ≡ some r
      → AtMost (wants_max scale_up select) selected r
        × Covers (wants_max scale_up select) candidate r policies
        × ((selected ≡ some r) ⊎ Attained candidate r policies)
  unfolding limit_loop
  limit_loop_best selected [] r h = (rw h (AtMost-self _ r), tt, inl h)
  limit_loop_best selected (p ∷ ps) r h =
      let o = keep_selected scale_up select selected (candidate p) in
      let ih = limit_loop_best o ps r h in
      let both = keep_selected-AtMost scale_up select selected (candidate p) r ih.0 in
      (
        both.0,
        (both.1, ih.1),
        elim ih.2 [
          | inl e ↦ elim (keep_selected_either scale_up select selected (candidate p) r e) [
            | inl a ↦ inl a
            | inr b ↦ inr (inl b)
          ]
          | inr a ↦ inr (inr a)
        ],
      )

  limit_loop-none :
      (selected : Option ℤ) (policies : List ScalingPolicy)
      → limit_loop F current scale_up select now history selected policies ≡ none
      → (selected ≡ none) × NoCandidate candidate policies
  unfolding limit_loop
  limit_loop-none selected [] h = (h, tt)
  limit_loop-none selected (p ∷ ps) h =
      let ih = limit_loop-none (keep_selected scale_up select selected (candidate p)) ps h in
      let both = keep_selected-eq-none scale_up select selected (candidate p) ih.0 in
      (both.0, (both.1, ih.1))

  limit_enabled :
      (policies : List ScalingPolicy)
      → select ≢ disabled
      → limit F current scale_up select policies now history
        ≡ limit_loop F current scale_up select now history none policies
  unfolding limit
  limit_enabled policies h = ground arith

  -- With scaling enabled, a limit that `Limit` finds is the count that some policy allows, and no
  -- policy allows more (with the selection Max when scaling up or Min when scaling down) or less
  -- (in the other two cases). If it finds none, no policy allows a count.
  pub limit-IsBest :
      (policies : List ScalingPolicy) (o : Option ℤ)
      → select ≢ disabled
      → limit F current scale_up select policies now history ≡ o
      → IsBest
          (wants_max scale_up select)
          (policy_candidate F current scale_up now history)
          policies
          o
  limit-IsBest policies none e h =
      (limit_loop-none none policies (sym (limit_enabled policies e) ∙ h)).1
  limit-IsBest policies (some r) e h =
      let best = limit_loop_best none policies r (sym (limit_enabled policies e) ∙ h) in
      (best.1, elim best.2 [ inl a ↦ absurd (none≢some a) | inr b ↦ b ])
