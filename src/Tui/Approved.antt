-- ===== src/Tui/Approved.antt =====
-- What the dashboard sends to the API server, and in which states it does.
use kubectl_hpa_status.Prelude.{
  ℕ, List, [], ◌∷◌, Bool, true, false, not, Option, none, some, ℤ, codes_eq, ◌&&◌, ◌||◌, if_rule,
  All, ◌++◌, ◌≡◌, inl, inr, refl, sym, arith,
}
use kubectl_hpa_status.Tui.State
use kubectl_hpa_status.Tui.State.{
  Bytes, ListItem, StatusReport, ViewMode, list_view, detail_view, help_view, metrics_view,
  fix_view, overview_view, SortField, FixState, Model, FetchResult, Key, Message, Cmd, no_cmd,
}
use kubectl_hpa_status.Tui.Fix.{
  nth, is_empty, fix_key_of, verify_against, apply_suggestion, send_apply, apply_selected,
  apply_fix, enter_fix_at, enter_fix, dry_run_suggestion, send_dry_run, dry_run_selected,
  dry_run_at, press_dry_run,
}
use kubectl_hpa_status.Tui.Batch.{selected_names, collect_patches, press_batch_apply}
use kubectl_hpa_status.Tui.Update.{
  update_tick, press_refresh, enter_in, batch_in, view_key, is_dry_run, handle_key, update_key,
  update,
}
use kubectl_hpa_status.Tui.Invariant.{ShowsBatch, batch_of}
use kubectl_hpa_status.Tui.Batch.{report_patches}

not_false_lem : (b : Bool) → not b ≡ false → b ≡ true
not_false_lem true h = refl
not_false_lem false h = cc

-- A suggestion that may be sent: it has a patch, and is meant to be applied.
abbrev pub IsApplicable : State.Suggestion → Type 0
IsApplicable s = (s.apply ≡ true) × (codes_eq s.patch [] ≡ false)

report_patches-IsApplicable :
    (report : StatusReport) (suggestions : List State.Suggestion)
    → All (λ p. IsApplicable p.suggestion) (report_patches report suggestions)
unfolding report_patches
report_patches-IsApplicable report [] = tt
report_patches-IsApplicable report (s ∷ suggestions) =
    if_rule (All (λ p. IsApplicable p.suggestion)) (s.apply && not (codes_eq s.patch []))
      (λ a. ((ground arith, ground arith), report_patches-IsApplicable report suggestions))
      (λ a. report_patches-IsApplicable report suggestions)

All-append : {A : Type 0} (P : A → Type 0) (xs ys : List A) → All P xs → All P ys → All P (xs ++ ys)
All-append P [] ys h k = k
All-append P (x ∷ xs) ys h k = (h.0, All-append P xs ys h.1 k)

collect_patches-IsApplicable :
    (reports : Bytes → Option StatusReport) (selected : List Bytes)
    → All (λ p. IsApplicable p.suggestion) (collect_patches reports selected)
unfolding collect_patches
collect_patches-IsApplicable reports [] = tt
collect_patches-IsApplicable reports (k ∷ selected) =
    elim (reports k)
      as (λ o.
        All (λ p. IsApplicable p.suggestion)
          (elim o as (λ x. List State.PatchEntry) [
            | none ↦ collect_patches reports selected
            | some report ↦
                report_patches report report.suggestions ++ collect_patches reports selected
          ])) [
            | none ↦ collect_patches-IsApplicable reports selected
            | some report ↦
                All-append (λ p. IsApplicable p.suggestion)
                  (report_patches report report.suggestions) (collect_patches reports selected)
                  (report_patches-IsApplicable report report.suggestions)
                  (collect_patches-IsApplicable reports selected)
          ]

module _ {E : Type 0} (sort_keys : List Bytes → List Bytes) where
  -- The wizard is open on the target, whose object is the one that was seen, with the suggestion
  -- selected.
  abbrev pub Targets : Model E → FixState E → ℕ → Bytes → Bytes → State.Suggestion → Type 0
  Targets m s epoch namespace name suggestion =
      (m.fix_state ≡ some s)
      × (nth s.suggestions s.selected ≡ some suggestion)
      × (verify_against m.reports m.hpa_uids s ≡ none)
      × (epoch ≡ m.fix_epoch)
      × (namespace ≡ s.namespace)
      × (name ≡ s.name)
      × IsApplicable suggestion

  -- What has to hold in the state in which a message leads to a command. Quitting and the timer alone
  -- do not call the API server.
  abbrev pub Allows : Model E → Cmd → Type 0
  Allows m (State.apply_fix_cmd epoch namespace name suggestion) =
      (s : FixState E) × (m.filtering ≡ false)
      × (m.view_mode ≡ fix_view)
      × (m.opts.can_apply ≡ true)
      × (s.apply_confirm ≡ true)
      × Targets m s epoch namespace name suggestion
  Allows m (State.dry_run_cmd epoch namespace name suggestion) =
      (s : FixState E) × (m.opts.can_dry_run ≡ true) × Targets m s epoch namespace name suggestion
  Allows m (State.apply_batch_cmd patches) =
      (m.opts.can_apply ≡ true)
      × (m.batch_apply_confirm ≡ true)
      × (patches ≡ m.batch_apply_preview)
      × All (λ p. IsApplicable p.suggestion) patches
  Allows m (State.fetch_cmd id) = m.loading ≡ false
  Allows m (State.fetch_and_tick id interval) = (m.paused ≡ false) × (m.loading ≡ false)
  Allows m cmd = Unit

  abbrev pub AllowsStep : Model E → Option (Model E × Cmd) → Type 0
  AllowsStep m none = Unit
  AllowsStep m (some r) = Allows m r.1

  press_batch_apply-Allows :
      (m : Model E) → ShowsBatch sort_keys m → Allows m (press_batch_apply sort_keys m).1
  unfolding press_batch_apply
  press_batch_apply-Allows m h =
      if_rule (λ (r : Model E × Cmd). Allows m r.1) (is_empty (selected_names sort_keys m))
        (λ a. tt)
        (λ a.
          if_rule (λ (r : Model E × Cmd). Allows m r.1) (is_empty (batch_of sort_keys m)) (λ b. tt)
            (λ b.
              if_rule (λ (r : Model E × Cmd). Allows m r.1) (not m.batch_apply_confirm) (λ c. tt)
                (λ c.
                  if_rule (λ (r : Model E × Cmd). Allows m r.1) (not m.opts.can_apply) (λ d. tt)
                    (λ d.
                      let armed = not_false_lem m.batch_apply_confirm c in
                      (
                        not_false_lem m.opts.can_apply d,
                        armed,
                        elim h [ inl off ↦ cc | inr shown ↦ sym shown ],
                        collect_patches-IsApplicable m.reports (selected_names sort_keys m),
                      )))))

  abbrev AllowsPair : Model E → Model E × Cmd → Type 0
  AllowsPair m r = Allows m r.1

  send_apply-Allows :
      (m : Model E) (s : FixState E) (suggestion : State.Suggestion)
      → ((verify_against m.reports m.hpa_uids s ≡ none)
          → Allows m (State.apply_fix_cmd m.fix_epoch s.namespace s.name suggestion))
      → (o : Option (State.FixError E)) → verify_against m.reports m.hpa_uids s ≡ o
      → AllowsPair m (send_apply m s suggestion o)
  unfolding send_apply
  send_apply-Allows m s suggestion k none e = k e
  send_apply-Allows m s suggestion k (some err) e = tt

  apply_selected-Allows :
      (m : Model E) (s : FixState E)
      → m.fix_state ≡ some s
      → m.filtering ≡ false
      → m.view_mode ≡ fix_view
      → m.opts.can_apply ≡ true
      → s.apply_confirm ≡ true
      → (o : Option State.Suggestion) → nth s.suggestions s.selected ≡ o
      → AllowsStep m (apply_selected m (record s { apply_confirm = false }) o)
  unfolding apply_selected apply_suggestion verify_against fix_key_of
  apply_selected-Allows m s e f v can c none n = tt
  apply_selected-Allows m s e f v can c (some suggestion) n =
      let s' : FixState E = record s { apply_confirm = false } in
      if_rule (AllowsPair m) (codes_eq suggestion.patch []) (λ a. tt)
        (λ a.
          if_rule (AllowsPair m) (not suggestion.apply) (λ b. tt)
            (λ b.
              send_apply-Allows m s' suggestion
                (λ q. (
                  s,
                  f,
                  v,
                  can,
                  c,
                  (e, n, q, refl, refl, refl, (not_false_lem suggestion.apply b, a)),
                ))
                (verify_against m.reports m.hpa_uids s') refl))

  enter_fix_at-Allows :
      (m : Model E) (o : Option (FixState E))
      → m.fix_state ≡ o
      → m.filtering ≡ false
      → m.view_mode ≡ fix_view
      → AllowsStep m (enter_fix_at m o)
  unfolding enter_fix_at apply_fix
  enter_fix_at-Allows m none e f v = tt
  enter_fix_at-Allows m (some s) e f v =
      if_rule (AllowsStep m) (is_empty s.suggestions) (λ a. tt)
        (λ a.
          if_rule (AllowsStep m) (not m.opts.can_apply) (λ b. tt)
            (λ b.
              if_rule (AllowsStep m) (not s.apply_confirm) (λ c. tt)
                (λ c.
                  if_rule (AllowsStep m) (is_empty s.suggestions) (λ d. tt)
                    (λ d.
                      if_rule (AllowsStep m) (not m.opts.can_apply) (λ g. tt)
                        (λ g.
                          apply_selected-Allows m s e f v (not_false_lem m.opts.can_apply b)
                            (not_false_lem s.apply_confirm c) (nth s.suggestions s.selected)
                            refl)))))

  dry_run_selected-Allows :
      (m : Model E) (s : FixState E)
      → m.fix_state ≡ some s
      → (o : Option State.Suggestion) → nth s.suggestions s.selected ≡ o
      → AllowsStep m (
          dry_run_selected m
            (record s { apply_confirm = false; applied = false; apply_err = none })
            o)
  unfolding dry_run_selected dry_run_suggestion verify_against fix_key_of
  dry_run_selected-Allows m s e none n = tt
  dry_run_selected-Allows m s e (some suggestion) n =
      let s' : FixState E = record s { apply_confirm = false; applied = false; apply_err = none } in
      if_rule (AllowsPair m) (codes_eq suggestion.patch []) (λ a. tt)
        (λ a.
          if_rule (AllowsPair m) (not suggestion.apply) (λ b. tt)
            (λ b.
              if_rule (AllowsPair m) (not m.opts.can_dry_run) (λ c. tt)
                (λ c.
                  sent
                    (λ q. (
                      s,
                      not_false_lem m.opts.can_dry_run c,
                      (e, n, q, refl, refl, refl, (not_false_lem suggestion.apply b, a)),
                    ))
                    (verify_against m.reports m.hpa_uids s') refl)))
    where
      sent :
          (verify_against m.reports m.hpa_uids s ≡ none
            → Allows m (State.dry_run_cmd m.fix_epoch s.namespace s.name suggestion))
          → (o : Option (State.FixError E)) → verify_against m.reports m.hpa_uids s ≡ o
          → AllowsPair m (
              send_dry_run m
                (record s { apply_confirm = false; applied = false; apply_err = none })
                suggestion
                o)
      sent k none q = k q
      sent k (some err) q = tt

  dry_run_at-Allows :
      (m : Model E) (o : Option (FixState E)) → m.fix_state ≡ o → AllowsStep m (dry_run_at m o)
  unfolding dry_run_at
  dry_run_at-Allows m none e = tt
  dry_run_at-Allows m (some s) e =
      if_rule (AllowsStep m) (is_empty s.suggestions) (λ a. tt)
        (λ a. dry_run_selected-Allows m s e (nth s.suggestions s.selected) refl)

  enter_in-Allows :
      (v : ViewMode) (m : Model E)
      → m.view_mode ≡ v
      → m.filtering ≡ false
      → AllowsStep m (enter_in v m)
  unfolding enter_in enter_fix
  enter_in-Allows fix_view m e f = enter_fix_at-Allows m m.fix_state refl f e
  enter_in-Allows list_view m e f = tt
  enter_in-Allows detail_view m e f = tt
  enter_in-Allows help_view m e f = tt
  enter_in-Allows metrics_view m e f = tt
  enter_in-Allows overview_view m e f = tt

  batch_in-Allows :
      (v : ViewMode) (m : Model E) → ShowsBatch sort_keys m → AllowsPair m (batch_in sort_keys v m)
  unfolding batch_in
  batch_in-Allows list_view m h = press_batch_apply-Allows m h
  batch_in-Allows detail_view m h = tt
  batch_in-Allows help_view m h = tt
  batch_in-Allows metrics_view m h = tt
  batch_in-Allows fix_view m h = tt
  batch_in-Allows overview_view m h = tt

  press_refresh-Allows : (m : Model E) → AllowsPair m (press_refresh m)
  unfolding press_refresh
  press_refresh-Allows m = if_rule (AllowsPair m) m.loading (λ a. tt) (λ a. a)

  update_tick-Allows : (m : Model E) → AllowsPair m (update_tick m)
  unfolding update_tick
  update_tick-Allows m =
      if_rule (AllowsPair m) (m.paused || m.loading) (λ a. tt) (λ a. (ground arith, ground arith))

  module _ (sort_stable : (ListItem → ListItem → ℤ) → List ListItem → List ListItem)
      (health_ok : Bytes) (type_key : Key → Bytes → Bytes) where
    handle_key-Allows :
        (k : Key) (m : Model E)
        → ShowsBatch sort_keys m
        → m.filtering ≡ false
        → AllowsStep m (handle_key sort_stable sort_keys health_ok type_key k m)
    unfolding handle_key
    handle_key-Allows Key.enter_key m h f = enter_in-Allows m.view_mode m refl f
    handle_key-Allows Key.batch_apply_key m h f = batch_in-Allows m.view_mode m h
    handle_key-Allows Key.refresh_key m h f = press_refresh-Allows m
    handle_key-Allows Key.quit_key m h f = tt
    handle_key-Allows Key.up_key m h f = tt
    handle_key-Allows Key.down_key m h f = tt
    handle_key-Allows Key.escape_key m h f = tt
    handle_key-Allows Key.pause_key m h f = tt
    handle_key-Allows Key.filter_key m h f = tt
    handle_key-Allows Key.help_key m h f = tt
    handle_key-Allows Key.sort_key m h f = tt
    handle_key-Allows Key.jump_problem_key m h f = tt
    handle_key-Allows Key.metrics_key m h f = tt
    handle_key-Allows Key.toggle_select_key m h f = tt
    handle_key-Allows Key.select_all_key m h f = tt
    handle_key-Allows Key.deselect_all_key m h f = tt
    handle_key-Allows Key.overview_key m h f = tt
    handle_key-Allows Key.fix_key m h f = tt
    handle_key-Allows Key.interval_faster_key m h f = tt
    handle_key-Allows Key.interval_slower_key m h f = tt
    handle_key-Allows Key.dry_run_key m h f = tt

    -- In a state whose armed batch shows what it would send, a message leads to a write, a dry run or a
    -- fetch only as follows. A live apply sends the selected suggestion of the open wizard to the
    -- wizard's target, after a confirmation, with applying enabled and the target still the same
    -- object. A dry run does the same without a confirmation, with dry runs enabled. A batch sends the
    -- patches of the preview, after a confirmation and with applying enabled. Every suggestion sent has
    -- a patch and is meant to be applied. A fetch is started only where none is under way, and by the
    -- timer only where the refresh is not paused.
    pub update-Allows :
        (msg : Message E) (m : Model E)
        → ShowsBatch sort_keys m
        → AllowsStep m (update sort_stable sort_keys health_ok type_key msg m)
    unfolding update update_key view_key press_dry_run
    update-Allows (Message.key k) m h =
        if_rule (AllowsStep m) m.filtering (λ a. tt)
          (λ a.
            if_rule (AllowsStep m) (is_dry_run m.view_mode k)
              (λ b. dry_run_at-Allows m m.fix_state refl) (λ b. handle_key-Allows k m h a))
    update-Allows Message.tick m h = update_tick-Allows m
    update-Allows (Message.fetch_result r) m h = tt
    update-Allows (Message.apply_result epoch title err) m h = tt
    update-Allows (Message.dry_run_outcome epoch title err) m h = tt
    update-Allows (Message.batch_apply_result title err) m h = tt
