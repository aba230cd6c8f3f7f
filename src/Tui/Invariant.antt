-- ===== src/Tui/Invariant.antt =====
-- The invariant of the dashboard: the cursors point into their lists, and an armed batch shows what
-- it would send.
use kubectl_hpa_status.Prelude.{
  ℕ, zero, suc, ◌<◌, List, [], ◌∷◌, Bool, false, not, Option, none, some, ℤ, pos, negsuc, ◌+ℤ◌,
  ◌-ℤ◌, ◌≤ℤ◌, ◌<ℤ◌, length, get_elem?, codes_eq, ◌==◌, if_rule, ◌≡◌, ◌⊎◌, inl, inr, refl, sym,
  some_inj, subst, arith, int_laws, Bool-cases, Option-cases,
}
use kubectl_hpa_status.Tui.State
use kubectl_hpa_status.Tui.State.{
  Bytes, ListItem, StatusReport, ViewMode, list_view, detail_view, help_view, metrics_view,
  fix_view, overview_view, SortField, FixState, Model, FetchResult, Key, Message, Cmd, no_cmd,
}
use kubectl_hpa_status.Tui.Scroll.{clamp_cursor}
use kubectl_hpa_status.Tui.Lists.{
  filtered_items, first_index, jump_to, toggle_item, sort_items, press_sort, move_list_cursor,
}
use kubectl_hpa_status.Tui.Fix.{
  nth, is_empty, verify_against, move_fix, apply_suggestion, send_apply, apply_selected, apply_fix,
  enter_fix_at, dry_run_suggestion, send_dry_run, dry_run_selected, dry_run_at, with_fix, of_epoch,
  open_report,
}
use kubectl_hpa_status.Tui.Batch.{selected_names, collect_patches, press_batch_apply}
use kubectl_hpa_status.Tui.Refresh.{clamp_after_fetch}
use kubectl_hpa_status.Tui.Update.{move_fix_cursor, move_in, in_list}

-- A cursor stands on an element, or at the start of a list that has none.
abbrev pub InRange : ℤ → ℕ → Type 0
InRange c n = (pos 0 ≤ℤ c) × ((c ≡ pos 0) ⊎ (c <ℤ pos n))

pub clamp_cursor-InRange : (v : ℤ) (n : ℕ) → InRange (clamp_cursor v (pos n -ℤ pos 1)) n
unfolding clamp_cursor
clamp_cursor-InRange v n = (grind int_laws, grind int_laws)

pub clamp_after_fetch-InRange : (n : ℕ) (v : ℤ) → InRange (clamp_after_fetch n v) n
unfolding clamp_after_fetch
clamp_after_fetch-InRange n v = (grind int_laws, grind int_laws)

first_index-lt :
    (p : ListItem → Bool) (items : List ListItem) (i : ℕ)
    → first_index p items ≡ some i
    → i < length items
unfolding first_index
first_index-lt p [] i h = cc
first_index-lt p (item ∷ items) i h = elim (Bool-cases (p item)) [
  | inl q ↦ let e : 0 ≡ i = some_inj (rw q at h) in omega arith
  | inr q ↦ elim (Option-cases (first_index p items)) [
    | inl e ↦ cc (rw (q, e) at h)
    | inr (j, e) ↦
        let d : suc j ≡ i = some_inj (rw (q, e) at h) in omega (arith, first_index-lt p items j e)
  ]
]

get_elem?-some :
    {A : Type 0} (xs : List A) (i : ℕ) → i < length xs → (x : A) × (get_elem? xs i ≡ some x)
get_elem?-some [] i h = absurd (omega arith)
get_elem?-some (x ∷ xs) zero h = (x, refl)
get_elem?-some (x ∷ xs) (suc i) h = get_elem?-some xs i (omega arith)

pub nth-InRange :
    {A : Type 0} (xs : List A) (c : ℤ)
    → is_empty xs ≡ false
    → InRange c (length xs)
    → (x : A) × (nth xs c ≡ some x)
unfolding nth
nth-InRange [] c h k = cc
nth-InRange (x ∷ xs) (pos zero) h k = (x, refl)
nth-InRange (x ∷ xs) (pos (suc i)) h k =
    get_elem?-some xs i (elim k.1 [ inl e ↦ absurd (cc) | inr l ↦ omega arith ])
nth-InRange (x ∷ xs) (negsuc i) h k = absurd (omega arith)

module _ {E : Type 0} (sort_keys : List Bytes → List Bytes) where
  abbrev pub FixInRange : Option (FixState E) → Type 0
  FixInRange none = Unit
  FixInRange (some s) = InRange s.selected (length s.suggestions)

  -- The patches that the batch would send now.
  abbrev pub batch_of : Model E → List State.PatchEntry
  batch_of m = collect_patches m.reports (selected_names sort_keys m)

  abbrev pub ShowsBatch : Model E → Type 0
  ShowsBatch m = (m.batch_apply_confirm ≡ false) ⊎ (m.batch_apply_preview ≡ batch_of m)

  abbrev pub IsValid : Model E → Type 0
  IsValid m = InRange m.cursor (length (filtered_items m)) × FixInRange m.fix_state × ShowsBatch m

  -- A step gives a valid state, and does not panic.
  abbrev pub IsSafe : Option (Model E × Cmd) → Type 0
  IsSafe none = ⊥
  IsSafe (some r) = IsValid r.0

  abbrev pub IsValidStep : Model E × Cmd → Type 0
  IsValidStep r = IsValid r.0

  pub in_list-IsValid :
      (v : ViewMode) (f : Model E → Model E) (m : Model E)
      → (IsValid m → IsValid (f m))
      → IsValid m
      → IsValid (in_list v f m)
  unfolding in_list filtered_items selected_names
  in_list-IsValid list_view f m k h = k h
  in_list-IsValid detail_view f m k h = h
  in_list-IsValid help_view f m k h = h
  in_list-IsValid metrics_view f m k h = h
  in_list-IsValid fix_view f m k h = h
  in_list-IsValid overview_view f m k h = h

  pub jump_to-IsValid :
      (m : Model E) (o : Option ℕ) (p : ListItem → Bool)
      → first_index p (filtered_items m) ≡ o
      → IsValid m
      → IsValid (jump_to m o)
  unfolding jump_to filtered_items selected_names
  jump_to-IsValid m none p e h = h
  jump_to-IsValid m (some i) p e h =
      ((omega arith, inr (omega (arith, first_index-lt p (filtered_items m) i e))), h.1, h.2)

  pub toggle_item-IsValid :
      (m : Model E) (o : Option ListItem) → IsValid m → IsValid (toggle_item m o)
  unfolding toggle_item filtered_items selected_names
  toggle_item-IsValid m none h = h
  toggle_item-IsValid m (some item) h = (h.0, h.1, inl refl)

  pub press_sort-IsValid :
      (sort_stable : (ListItem → ListItem → ℤ) → List ListItem → List ListItem) (m : Model E)
      → IsValid m
      → IsValid (press_sort sort_stable m)
  unfolding press_sort sort_items filtered_items selected_names
  press_sort-IsValid sort_stable m h = ((omega arith, inl refl), h.1, h.2)

  pub move_fix_cursor-IsValid :
      (delta : ℤ) (m : Model E) (o : Option (FixState E))
      → IsValid m
      → IsValid (move_fix_cursor delta m o)
  unfolding move_fix_cursor move_fix filtered_items selected_names
  move_fix_cursor-IsValid delta m none h = h
  move_fix_cursor-IsValid delta m (some s) h =
      (h.0, clamp_cursor-InRange (s.selected +ℤ delta) (length s.suggestions), h.2)

  pub move_in-IsValid :
      (v : ViewMode) (delta : ℤ) (m : Model E) → IsValid m → IsValid (move_in v delta m)
  unfolding move_in move_list_cursor filtered_items selected_names
  move_in-IsValid list_view delta m h =
      (clamp_cursor-InRange (m.cursor +ℤ delta) (length (filtered_items m)), h.1, h.2)
  move_in-IsValid fix_view delta m h = move_fix_cursor-IsValid delta m m.fix_state h
  move_in-IsValid detail_view delta m h = h
  move_in-IsValid help_view delta m h = h
  move_in-IsValid metrics_view delta m h = h
  move_in-IsValid overview_view delta m h = h

  pub apply_suggestion-IsValid :
      (m : Model E) (s : FixState E) (suggestion : State.Suggestion)
      → IsValid (with_fix m s)
      → IsValidStep (apply_suggestion m s suggestion)
  unfolding apply_suggestion send_apply filtered_items selected_names
  apply_suggestion-IsValid m s suggestion h =
      if_rule IsValidStep (codes_eq suggestion.patch []) (λ a. h)
        (λ a.
          if_rule IsValidStep (not suggestion.apply) (λ b. h)
            (λ b. sent (verify_against m.reports m.hpa_uids s)))
    where
      sent : (o : Option (State.FixError E)) → IsValidStep (send_apply m s suggestion o)
      sent none = h
      sent (some e) = h

  pub apply_fix-IsSafe :
      (m : Model E) (s : FixState E) → IsValid (with_fix m s) → IsSafe (apply_fix m s)
  unfolding apply_fix apply_selected filtered_items selected_names
  apply_fix-IsSafe m s h =
      if_rule IsSafe (is_empty s.suggestions) (λ a. h)
        (λ a.
          if_rule IsSafe (not m.opts.can_apply) (λ b. h)
            (λ b.
              let (suggestion, e) = nth-InRange s.suggestions s.selected a h.1 in
              subst (λ o. IsSafe (apply_selected m s o)) (sym e)
                (apply_suggestion-IsValid m s suggestion h)))

  pub enter_fix_at-IsSafe :
      (m : Model E) (o : Option (FixState E))
      → m.fix_state ≡ o
      → IsValid m
      → IsSafe (enter_fix_at m o)
  unfolding enter_fix_at filtered_items selected_names
  enter_fix_at-IsSafe m none e h = h
  enter_fix_at-IsSafe m (some s) e h =
      let k : FixInRange (some s) = subst FixInRange e h.1 in
      if_rule IsSafe (is_empty s.suggestions) (λ a. h)
        (λ a.
          if_rule IsSafe (not m.opts.can_apply) (λ b. (h.0, k, h.2))
            (λ b.
              if_rule IsSafe (not s.apply_confirm) (λ c. (h.0, k, h.2))
                (λ c. apply_fix-IsSafe m (record s { apply_confirm = false }) (h.0, k, h.2))))

  pub dry_run_suggestion-IsValid :
      (m : Model E) (s : FixState E) (suggestion : State.Suggestion)
      → IsValid (with_fix m s)
      → IsValidStep (dry_run_suggestion m s suggestion)
  unfolding dry_run_suggestion send_dry_run filtered_items selected_names
  dry_run_suggestion-IsValid m s suggestion h =
      if_rule IsValidStep (codes_eq suggestion.patch []) (λ a. h)
        (λ a.
          if_rule IsValidStep (not suggestion.apply) (λ b. h)
            (λ b.
              if_rule IsValidStep (not m.opts.can_dry_run) (λ c. h)
                (λ c. sent (verify_against m.reports m.hpa_uids s))))
    where
      sent : (o : Option (State.FixError E)) → IsValidStep (send_dry_run m s suggestion o)
      sent none = h
      sent (some e) = h

  pub dry_run_at-IsSafe :
      (m : Model E) (o : Option (FixState E))
      → m.fix_state ≡ o
      → IsValid m
      → IsSafe (dry_run_at m o)
  unfolding dry_run_at dry_run_selected filtered_items selected_names
  dry_run_at-IsSafe m none e h = h
  dry_run_at-IsSafe m (some s) e h =
      let k : FixInRange (some s) = subst FixInRange e h.1 in
      let s' : FixState E = record s { apply_confirm = false; applied = false; apply_err = none } in
      if_rule IsSafe (is_empty s.suggestions) (λ a. h)
        (λ a.
          let (suggestion, n) = nth-InRange s.suggestions s.selected a k in
          subst (λ o. IsSafe (dry_run_selected m s' o)) (sym n)
            (dry_run_suggestion-IsValid m s' suggestion (h.0, k, h.2)))

  pub of_epoch-IsValid :
      (epoch : ℕ) (f : FixState E → FixState E) (m : Model E) (o : Option (FixState E))
      → ((s : FixState E) → FixInRange (some s) → FixInRange (some (f s)))
      → m.fix_state ≡ o
      → IsValid m
      → IsValid (of_epoch epoch f m o)
  unfolding of_epoch filtered_items selected_names
  of_epoch-IsValid epoch f m none k e h = h
  of_epoch-IsValid epoch f m (some s) k e h =
      if_rule {x = with_fix m (f s)} {y = m} IsValid (epoch == m.fix_epoch)
        (λ a. (h.0, k s (subst FixInRange e h.1), h.2)) (λ a. h)

  pub open_report-IsValid :
      (m : Model E) (o : Option StatusReport) → IsValid m → IsValid (open_report m o)
  unfolding open_report filtered_items selected_names
  open_report-IsValid m none h = h
  open_report-IsValid m (some report) h =
      if_rule IsValid (is_empty report.suggestions) (λ a. h)
        (λ a. (h.0, (omega arith, inl refl), h.2))

  pub press_batch_apply-IsValid :
      (m : Model E) → IsValid m → IsValidStep (press_batch_apply sort_keys m)
  unfolding press_batch_apply filtered_items selected_names
  press_batch_apply-IsValid m h =
      if_rule IsValidStep (is_empty (selected_names sort_keys m)) (λ a. h)
        (λ a.
          if_rule IsValidStep (is_empty (batch_of m)) (λ b. h)
            (λ b.
              if_rule IsValidStep (not m.batch_apply_confirm) (λ c. (h.0, h.1, inr refl))
                (λ c.
                  if_rule IsValidStep (not m.opts.can_apply) (λ d. (h.0, h.1, inl refl))
                    (λ d. (h.0, h.1, inl refl)))))
