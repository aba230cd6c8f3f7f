-- ===== src/Tui/Fix.antt =====
-- The fix wizard: handleFixKey and applyFix (update_simulation.go), handleDryRunKey
-- (update_keys.go), enterFixView (view_controller.go), the results of its calls (update.go) and
-- fixState's own transitions (submodels.go). `none` is a panic: an index out of range.
use kubectl_hpa_status.Prelude.{
  ℕ, suc, List, [], ◌∷◌, Bool, true, false, not, ◌&&◌, Option, none, some, ℤ, pos, negsuc, ◌+ℤ◌,
  ◌-ℤ◌, leb_ℤ, length, get_elem?, codes_eq, ◌==◌, if◌then◌else◌,
}
use kubectl_hpa_status.Tui.State.{
  Bytes, Suggestion, StatusReport, FixError, disabled, no_patch, advisory, gone, replaced, external,
  DryRunText, no_result, no_patch_text, advisory_text, unavailable_text, validating, refused,
  validation_failed, validation_passed, FixState, fix_view, Model, no_suggestions, Cmd, no_cmd,
  apply_fix_cmd, dry_run_cmd, item_key, unavailable,
}
use kubectl_hpa_status.Tui.Scroll.{clamp_cursor}
use kubectl_hpa_status.Tui.Lists.{current_report}

unfoldable pub nth : {A : Type 0} → List A → ℤ → Option A
nth xs (pos i) = get_elem? xs i
nth xs (negsuc i) = none

abbrev pub is_empty : {A : Type 0} → List A → Bool
is_empty [] = true
is_empty (x ∷ xs) = false

module _ {E : Type 0} where
  unfoldable pub fix_key_of : FixState E → Bytes
  unfolding item_key
  fix_key_of s = item_key s.namespace s.name

  -- verifyAgainstCurrentData.
  unfoldable pub verify_against :
      (Bytes → Option StatusReport) → (Bytes → Bytes) → FixState E → Option (FixError E)
  unfolding fix_key_of
  verify_against reports uids s =
      let k = fix_key_of s in
      elim (reports k) [
        | none ↦ some (gone k)
        | some report ↦
            if not (codes_eq (uids k) [])
              && (not (codes_eq s.uid []) && not (codes_eq (uids k) s.uid))
            then some (replaced k)
            else none
      ]

  unfoldable pub regenerate_from : StatusReport → FixState E → FixState E
  regenerate_from report s = record s {
    suggestions = report.suggestions;
    selected = if leb_ℤ (pos (length report.suggestions)) s.selected then pos 0 else s.selected;
    apply_confirm = false;
    applied = false;
    apply_err = none;
    dry_run_result = no_result;
  }

  unfoldable pub move_fix : ℤ → FixState E → FixState E
  unfolding clamp_cursor
  move_fix delta s = record s {
    selected = clamp_cursor (s.selected +ℤ delta) (pos (length s.suggestions) -ℤ pos 1);
    apply_confirm = false;
  }

  unfoldable pub update_apply : Option E → FixState E → FixState E
  update_apply err s = record s {
    apply_confirm = false;
    applied = true;
    apply_err = elim err [ none ↦ none | some e ↦ some (external e) ];
  }

  unfoldable pub update_dry_run : Bytes → Option E → FixState E → FixState E
  update_dry_run title err s = record s {
    apply_confirm = false;
    applied = false;
    apply_err = elim err [ none ↦ none | some e ↦ some (external e) ];
    dry_run_result = elim err [ none ↦ validation_passed title | some e ↦ validation_failed e ];
  }

  abbrev pub with_fix : Model E → FixState E → Model E
  with_fix m s = record m { fix_state = some s }

  -- handleFixKey in the detail view.
  unfoldable pub open_report : Model E → Option StatusReport → Model E
  unfolding item_key
  open_report m none = record m { error = some no_suggestions }
  open_report m (some report) =
      if is_empty report.suggestions then record m { error = some no_suggestions } else record m {
        fix_epoch = suc m.fix_epoch;
        fix_state = some (record {
          namespace = report.meta_namespace;
          name = report.meta_name;
          uid = m.hpa_uids (item_key report.meta_namespace report.meta_name);
          suggestions = report.suggestions;
          selected = pos 0;
          apply_confirm = false;
          applied = false;
          apply_err = none;
          dry_run_result = no_result;
        });
        view_mode = fix_view;
      }

  unfoldable pub open_fix : Model E → Model E
  unfolding current_report open_report
  open_fix m = open_report m (current_report m)

  -- The checks on a suggestion and its target before a patch may be sent, in the order of the code.
  abbrev pub refuse_apply : Model E → FixState E → FixError E → Model E × Cmd
  refuse_apply m s e = (with_fix m (record s { apply_err = some e }), no_cmd)

  unfoldable pub send_apply :
      Model E → FixState E → Suggestion → Option (FixError E) → Model E × Cmd
  send_apply m s suggestion (some e) = refuse_apply m s e
  send_apply m s suggestion none =
      (with_fix m s, apply_fix_cmd m.fix_epoch s.namespace s.name suggestion)

  unfoldable pub apply_suggestion : Model E → FixState E → Suggestion → Model E × Cmd
  unfolding verify_against send_apply
  apply_suggestion m s suggestion =
      if codes_eq suggestion.patch []
      then refuse_apply m s no_patch
      else if not suggestion.apply
      then refuse_apply m s advisory
      else send_apply m s suggestion (verify_against m.reports m.hpa_uids s)

  unfoldable pub apply_selected : Model E → FixState E → Option Suggestion → Option (Model E × Cmd)
  unfolding apply_suggestion
  apply_selected m s none = none
  apply_selected m s (some suggestion) = some (apply_suggestion m s suggestion)

  unfoldable pub apply_fix : Model E → FixState E → Option (Model E × Cmd)
  unfolding apply_selected nth
  apply_fix m s =
      if is_empty s.suggestions
      then some (with_fix m s, no_cmd)
      else if not m.opts.can_apply
      then some (refuse_apply m s unavailable)
      else apply_selected m s (nth s.suggestions s.selected)

  -- enterFixView.
  unfoldable pub enter_fix_at : Model E → Option (FixState E) → Option (Model E × Cmd)
  unfolding apply_fix
  enter_fix_at m none = some (m, no_cmd)
  enter_fix_at m (some s) =
      if is_empty s.suggestions
      then some (m, no_cmd)
      else if not m.opts.can_apply
      then some (
        with_fix m (record s { apply_confirm = false; applied = true; apply_err = some disabled }),
        no_cmd,
      )
      else if not s.apply_confirm
      then some (
        with_fix m (record s { apply_confirm = true; applied = false; apply_err = none }),
        no_cmd,
      )
      else apply_fix m (record s { apply_confirm = false })

  unfoldable pub enter_fix : Model E → Option (Model E × Cmd)
  unfolding enter_fix_at
  enter_fix m = enter_fix_at m m.fix_state

  abbrev pub dry_run_text : Model E → FixState E → DryRunText E → Model E × Cmd
  dry_run_text m s text = (with_fix m (record s { dry_run_result = text }), no_cmd)

  unfoldable pub send_dry_run :
      Model E → FixState E → Suggestion → Option (FixError E) → Model E × Cmd
  send_dry_run m s suggestion (some e) = dry_run_text m s (refused e)
  send_dry_run m s suggestion none = (
    with_fix m (record s { dry_run_result = validating }),
    dry_run_cmd m.fix_epoch s.namespace s.name suggestion,
  )

  unfoldable pub dry_run_suggestion : Model E → FixState E → Suggestion → Model E × Cmd
  unfolding verify_against send_dry_run
  dry_run_suggestion m s suggestion =
      if codes_eq suggestion.patch []
      then dry_run_text m s no_patch_text
      else if not suggestion.apply
      then dry_run_text m s advisory_text
      else if not m.opts.can_dry_run
      then dry_run_text m s unavailable_text
      else send_dry_run m s suggestion (verify_against m.reports m.hpa_uids s)

  unfoldable pub dry_run_selected :
      Model E → FixState E → Option Suggestion → Option (Model E × Cmd)
  unfolding dry_run_suggestion
  dry_run_selected m s none = none
  dry_run_selected m s (some suggestion) = some (dry_run_suggestion m s suggestion)

  -- handleDryRunKey in the view of the wizard.
  unfoldable pub dry_run_at : Model E → Option (FixState E) → Option (Model E × Cmd)
  unfolding dry_run_selected nth
  dry_run_at m none = some (m, no_cmd)
  dry_run_at m (some s) =
      if is_empty s.suggestions
      then some (m, no_cmd)
      else dry_run_selected m
          (record s { apply_confirm = false; applied = false; apply_err = none })
          (nth s.suggestions s.selected)

  unfoldable pub press_dry_run : Model E → Option (Model E × Cmd)
  unfolding dry_run_at
  press_dry_run m = dry_run_at m m.fix_state

  -- updateApplyResult and updateDryRunResult: an outcome of an earlier epoch is dropped.
  unfoldable pub of_epoch : ℕ → (FixState E → FixState E) → Model E → Option (FixState E) → Model E
  of_epoch epoch f m none = m
  of_epoch epoch f m (some s) = if epoch == m.fix_epoch then with_fix m (f s) else m

  unfoldable pub update_apply_result : ℕ → Option E → Model E → Model E
  unfolding update_apply of_epoch
  update_apply_result epoch err m = of_epoch epoch (update_apply err) m m.fix_state

  unfoldable pub update_dry_run_result : ℕ → Bytes → Option E → Model E → Model E
  unfolding update_dry_run of_epoch
  update_dry_run_result epoch title err m = of_epoch epoch (update_dry_run title err) m m.fix_state
