-- ===== src/Tui/Armed.antt =====
-- How the wizard's own handlers arm and disarm it.
use kubectl_hpa_status.Prelude.{
  ℕ, [], true, false, not, Option, none, some, ℤ, codes_eq, ◌==◌, if_rule, ◌≡◌, ◌⊎◌, inl, inr, refl,
  sym, subst, Bool-cases,
}
use kubectl_hpa_status.Tui.State
use kubectl_hpa_status.Tui.State.{
  Bytes, ListItem, StatusReport, ViewMode, list_view, detail_view, help_view, metrics_view,
  fix_view, overview_view, SortField, FixState, Model, FetchResult, Key, Message, Cmd, no_cmd,
}
use kubectl_hpa_status.Tui.Lists.{
  filtered_items, jump_to, toggle_item, item_at, move_list_cursor, current_report,
}
use kubectl_hpa_status.Tui.Fix.{
  nth, is_empty, verify_against, move_fix, open_fix, apply_suggestion, send_apply, apply_selected,
  apply_fix, enter_fix_at, enter_fix, dry_run_suggestion, send_dry_run, dry_run_selected,
  dry_run_at, with_fix, of_epoch, open_report,
}
use kubectl_hpa_status.Tui.Update.{
  toggle_help, move_fix_cursor, move_in, open_item, enter_in, escape_in, in_list, in_detail,
}

module _ {E : Type 0} where
  -- Two states of the wizard on the same object with the same suggestion selected.
  abbrev pub SameTarget : FixState E → FixState E → Type 0
  SameTarget s t =
      (s.namespace ≡ t.namespace)
      × (s.name ≡ t.name)
      × (s.uid ≡ t.uid)
      × (s.suggestions ≡ t.suggestions)
      × (s.selected ≡ t.selected)

  -- If the second wizard is armed, the first is open on the same target, and is armed too or the
  -- message is the Enter key.
  abbrev pub ArmedFrom : Message E → Option (FixState E) → Option (FixState E) → Type 0
  ArmedFrom msg o none = Unit
  ArmedFrom msg o (some t) =
      (t.apply_confirm ≡ false)
      ⊎ ((s : FixState E) × (o ≡ some s)
          × SameTarget s t
          × ((s.apply_confirm ≡ true) ⊎ (msg ≡ Message.key Key.enter_key)))

  abbrev pub ArmedStep : Message E → Model E → Option (Model E × Cmd) → Type 0
  ArmedStep msg m none = Unit
  ArmedStep msg m (some r) = ArmedFrom msg m.fix_state r.0.fix_state

  abbrev pub ArmedModel : Message E → Model E → Model E → Type 0
  ArmedModel msg m n = ArmedFrom msg m.fix_state n.fix_state

  abbrev pub ArmedPair : Message E → Model E → Model E × Cmd → Type 0
  ArmedPair msg m r = ArmedFrom msg m.fix_state r.0.fix_state

  pub kept : (msg : Message E) (o : Option (FixState E)) → ArmedFrom msg o o
  kept msg none = tt
  kept msg (some s) = elim (Bool-cases s.apply_confirm) [
    | inl p ↦ inr (s, refl, (refl, refl, refl, refl, refl), inl p)
    | inr p ↦ inl p
  ]

  pub kept_by : (msg : Message E) (m n : Model E) → n.fix_state ≡ m.fix_state → ArmedModel msg m n
  kept_by msg m n e = subst (ArmedFrom msg m.fix_state) (sym e) (kept msg m.fix_state)

  pub jump_to_fix : (m : Model E) (o : Option ℕ) → (jump_to m o).fix_state ≡ m.fix_state
  unfolding jump_to
  jump_to_fix m none = refl
  jump_to_fix m (some i) = refl

  pub toggle_item_fix :
      (m : Model E) (o : Option ListItem) → (toggle_item m o).fix_state ≡ m.fix_state
  unfolding toggle_item
  toggle_item_fix m none = refl
  toggle_item_fix m (some item) = refl

  pub open_item_fix : (m : Model E) (o : Option ListItem) → (open_item m o).fix_state ≡ m.fix_state
  unfolding open_item
  open_item_fix m none = refl
  open_item_fix m (some item) = refl

  pub in_list_fix :
      (v : ViewMode) (f : Model E → Model E) (m : Model E)
      → (f m).fix_state ≡ m.fix_state
      → (in_list v f m).fix_state ≡ m.fix_state
  unfolding in_list
  in_list_fix list_view f m k = k
  in_list_fix detail_view f m k = refl
  in_list_fix help_view f m k = refl
  in_list_fix metrics_view f m k = refl
  in_list_fix fix_view f m k = refl
  in_list_fix overview_view f m k = refl

  pub move_fix_cursor-ArmedFrom :
      (msg : Message E) (delta : ℤ) (m : Model E) (o : Option (FixState E))
      → ArmedModel msg m (move_fix_cursor delta m o)
  unfolding move_fix_cursor move_fix
  move_fix_cursor-ArmedFrom msg delta m none = kept msg m.fix_state
  move_fix_cursor-ArmedFrom msg delta m (some s) = inl refl

  pub move_in-ArmedFrom :
      (msg : Message E) (v : ViewMode) (delta : ℤ) (m : Model E)
      → ArmedModel msg m (move_in v delta m)
  unfolding move_in move_list_cursor
  move_in-ArmedFrom msg list_view delta m = kept msg m.fix_state
  move_in-ArmedFrom msg fix_view delta m = move_fix_cursor-ArmedFrom msg delta m m.fix_state
  move_in-ArmedFrom msg detail_view delta m = kept msg m.fix_state
  move_in-ArmedFrom msg help_view delta m = kept msg m.fix_state
  move_in-ArmedFrom msg metrics_view delta m = kept msg m.fix_state
  move_in-ArmedFrom msg overview_view delta m = kept msg m.fix_state

  pub send_apply-ArmedFrom :
      (msg : Message E) (m : Model E) (s : FixState E) (suggestion : State.Suggestion)
      (o : Option (State.FixError E))
      → s.apply_confirm ≡ false
      → ArmedPair msg m (send_apply m s suggestion o)
  unfolding send_apply
  send_apply-ArmedFrom msg m s suggestion none c = inl c
  send_apply-ArmedFrom msg m s suggestion (some e) c = inl c

  pub apply_selected-ArmedFrom :
      (msg : Message E) (m : Model E) (s : FixState E) (o : Option State.Suggestion)
      → s.apply_confirm ≡ false
      → ArmedStep msg m (apply_selected m s o)
  unfolding apply_selected apply_suggestion
  apply_selected-ArmedFrom msg m s none c = tt
  apply_selected-ArmedFrom msg m s (some suggestion) c =
      if_rule (ArmedPair msg m) (codes_eq suggestion.patch []) (λ a. inl c)
        (λ a.
          if_rule (ArmedPair msg m) (not suggestion.apply) (λ b. inl c)
            (λ b.
              send_apply-ArmedFrom msg m s suggestion (verify_against m.reports m.hpa_uids s) c))

  pub enter_fix_at-ArmedFrom :
      (m : Model E) (o : Option (FixState E))
      → m.fix_state ≡ o
      → ArmedStep (Message.key Key.enter_key) m (enter_fix_at m o)
  unfolding enter_fix_at apply_fix
  enter_fix_at-ArmedFrom m none e = kept (Message.key Key.enter_key) m.fix_state
  enter_fix_at-ArmedFrom m (some s) e =
      let P : Option (Model E × Cmd) → Type 0 = ArmedStep (Message.key Key.enter_key) m in
      let unarmed : FixState E = record s { apply_confirm = false } in
      if_rule P (is_empty s.suggestions) (λ a. kept (Message.key Key.enter_key) m.fix_state)
        (λ a.
          if_rule P (not m.opts.can_apply) (λ b. inl refl)
            (λ b.
              if_rule P (not s.apply_confirm)
                (λ c. inr (s, e, (refl, refl, refl, refl, refl), inr refl))
                (λ c.
                  if_rule P (is_empty s.suggestions) (λ d. inl refl)
                    (λ d.
                      if_rule P (not m.opts.can_apply) (λ f. inl refl)
                        (λ f.
                          apply_selected-ArmedFrom (Message.key Key.enter_key) m unarmed
                            (nth s.suggestions s.selected) refl)))))

  pub send_dry_run-ArmedFrom :
      (msg : Message E) (m : Model E) (s : FixState E) (suggestion : State.Suggestion)
      (o : Option (State.FixError E))
      → s.apply_confirm ≡ false
      → ArmedPair msg m (send_dry_run m s suggestion o)
  unfolding send_dry_run
  send_dry_run-ArmedFrom msg m s suggestion none c = inl c
  send_dry_run-ArmedFrom msg m s suggestion (some e) c = inl c

  pub dry_run_selected-ArmedFrom :
      (msg : Message E) (m : Model E) (s : FixState E) (o : Option State.Suggestion)
      → s.apply_confirm ≡ false
      → ArmedStep msg m (dry_run_selected m s o)
  unfolding dry_run_selected dry_run_suggestion
  dry_run_selected-ArmedFrom msg m s none c = tt
  dry_run_selected-ArmedFrom msg m s (some suggestion) c =
      if_rule (ArmedPair msg m) (codes_eq suggestion.patch []) (λ a. inl c)
        (λ a.
          if_rule (ArmedPair msg m) (not suggestion.apply) (λ b. inl c)
            (λ b.
              if_rule (ArmedPair msg m) (not m.opts.can_dry_run) (λ d. inl c)
                (λ d.
                  send_dry_run-ArmedFrom msg m s suggestion (verify_against m.reports m.hpa_uids s)
                    c)))

  pub dry_run_at-ArmedFrom :
      (msg : Message E) (m : Model E) (o : Option (FixState E)) → ArmedStep msg m (dry_run_at m o)
  unfolding dry_run_at
  dry_run_at-ArmedFrom msg m none = kept msg m.fix_state
  dry_run_at-ArmedFrom msg m (some s) =
      let tried : FixState E = record s {
        apply_confirm = false;
        applied = false;
        apply_err = none;
      } in
      if_rule (ArmedStep msg m) (is_empty s.suggestions) (λ a. kept msg m.fix_state)
        (λ a. dry_run_selected-ArmedFrom msg m tried (nth s.suggestions s.selected) refl)

  pub of_epoch-ArmedFrom :
      (msg : Message E) (epoch : ℕ) (f : FixState E → FixState E) (m : Model E)
      (o : Option (FixState E))
      → ((s : FixState E) → (f s).apply_confirm ≡ false)
      → ArmedModel msg m (of_epoch epoch f m o)
  unfolding of_epoch
  of_epoch-ArmedFrom msg epoch f m none k = kept msg m.fix_state
  of_epoch-ArmedFrom msg epoch f m (some s) k =
      if_rule {x = with_fix m (f s)} {y = m} (ArmedModel msg m) (epoch == m.fix_epoch)
        (λ a. inl (k s)) (λ a. kept msg m.fix_state)

  pub open_report-ArmedFrom :
      (msg : Message E) (m : Model E) (o : Option StatusReport) → ArmedModel msg m (open_report m o)
  unfolding open_report
  open_report-ArmedFrom msg m none = kept msg m.fix_state
  open_report-ArmedFrom msg m (some report) =
      if_rule (ArmedModel msg m) (is_empty report.suggestions) (λ a. kept msg m.fix_state)
        (λ a. inl refl)

  pub in_detail-ArmedFrom :
      (msg : Message E) (v : ViewMode) (m : Model E) → ArmedModel msg m (in_detail v open_fix m)
  unfolding in_detail open_fix
  in_detail-ArmedFrom msg detail_view m = open_report-ArmedFrom msg m (current_report m)
  in_detail-ArmedFrom msg list_view m = kept msg m.fix_state
  in_detail-ArmedFrom msg help_view m = kept msg m.fix_state
  in_detail-ArmedFrom msg metrics_view m = kept msg m.fix_state
  in_detail-ArmedFrom msg fix_view m = kept msg m.fix_state
  in_detail-ArmedFrom msg overview_view m = kept msg m.fix_state

  pub escape_in-ArmedFrom :
      (msg : Message E) (v : ViewMode) (m : Model E) → ArmedModel msg m (escape_in v m)
  unfolding escape_in toggle_help
  escape_in-ArmedFrom msg fix_view m = tt
  escape_in-ArmedFrom msg list_view m = kept msg m.fix_state
  escape_in-ArmedFrom msg detail_view m = kept msg m.fix_state
  escape_in-ArmedFrom msg help_view m = kept msg m.fix_state
  escape_in-ArmedFrom msg metrics_view m = kept msg m.fix_state
  escape_in-ArmedFrom msg overview_view m = kept msg m.fix_state

  pub enter_in-ArmedFrom :
      (v : ViewMode) (m : Model E) → ArmedStep (Message.key Key.enter_key) m (enter_in v m)
  unfolding enter_in enter_fix
  enter_in-ArmedFrom list_view m =
      kept_by (Message.key Key.enter_key) m (open_item m (item_at m.cursor (filtered_items m)))
        (open_item_fix m (item_at m.cursor (filtered_items m)))
  enter_in-ArmedFrom fix_view m = enter_fix_at-ArmedFrom m m.fix_state refl
  enter_in-ArmedFrom detail_view m = kept (Message.key Key.enter_key) m.fix_state
  enter_in-ArmedFrom help_view m = kept (Message.key Key.enter_key) m.fix_state
  enter_in-ArmedFrom metrics_view m = kept (Message.key Key.enter_key) m.fix_state
  enter_in-ArmedFrom overview_view m = kept (Message.key Key.enter_key) m.fix_state
