-- ===== src/Tui/Update.antt =====
-- Update of internal/tui/update.go: one message after another, with the key table of
-- update_keys.go, the registry of view_controller.go and the input of the filter (update_input.go).
-- The bindings are the default ones, which are distinct. `type_key` is what the text input of
-- Bubbles makes of a key, and `none` is a panic.
use kubectl_hpa_status.Prelude.{
  suc, List, Bool, true, false, not, ◌||◌, Option, none, some, ℤ, pos, negsuc, if◌then◌else◌,
}
use kubectl_hpa_status.Tui.State.{
  Bytes, ListItem, ViewMode, list_view, detail_view, help_view, metrics_view, fix_view,
  overview_view, FixState, batch_failed, batch_done, Model, Key, Message, Cmd, no_cmd, quit_cmd,
  fetch_cmd, tick_cmd, fetch_and_tick,
}
use kubectl_hpa_status.Tui.Lists.{
  filtered_items, item_at, move_list_cursor, press_sort, jump_to_problem, toggle_select, select_all,
  deselect_all, slower, faster, without_preview,
}
use kubectl_hpa_status.Tui.Fix.{
  move_fix, open_fix, enter_fix, press_dry_run, update_apply_result, update_dry_run_result,
  with_fix,
}
use kubectl_hpa_status.Tui.Batch.{press_batch_apply}
use kubectl_hpa_status.Tui.Refresh.{update_fetch_result}

abbrev pub is_enter : Key → Bool
is_enter Key.enter_key = true
is_enter k = false

abbrev pub is_escape : Key → Bool
is_escape Key.escape_key = true
is_escape k = false

-- The key that only the wizard's view takes.
unfoldable pub is_dry_run : ViewMode → Key → Bool
is_dry_run fix_view Key.dry_run_key = true
is_dry_run v k = false

module _ {E : Type 0} where
  unfoldable pub update_tick : Model E → Model E × Cmd
  update_tick m = if m.paused || m.loading then (m, tick_cmd m.interval) else (
    record m { loading = true; fetch_request_id = suc m.fetch_request_id },
    fetch_and_tick (suc m.fetch_request_id) m.interval,
  )

  unfoldable pub press_refresh : Model E → Model E × Cmd
  press_refresh m = if m.loading then (m, no_cmd) else (
    record m { loading = true; fetch_request_id = suc m.fetch_request_id },
    fetch_cmd (suc m.fetch_request_id),
  )

  unfoldable pub toggle_help : Model E → Model E
  toggle_help m = record m {
    view_mode = elim m.view_mode [
      | help_view ↦ elim m.help_return_view [ help_view ↦ list_view | mode ↦ mode ]
      | mode ↦ help_view
    ];
    help_return_view = elim m.view_mode [ help_view ↦ m.help_return_view | mode ↦ mode ];
  }

  -- The cursor of the wizard.
  unfoldable pub move_fix_cursor : ℤ → Model E → Option (FixState E) → Model E
  unfolding move_fix
  move_fix_cursor delta m none = m
  move_fix_cursor delta m (some s) = with_fix m (move_fix delta s)

  -- MoveCursor of a view's controller.
  unfoldable pub move_in : ViewMode → ℤ → Model E → Model E
  unfolding move_list_cursor move_fix_cursor
  move_in list_view delta m = move_list_cursor delta m
  move_in fix_view delta m = move_fix_cursor delta m m.fix_state
  move_in mode delta m = m

  -- HandleEnter of a view's controller.
  unfoldable pub open_item : Model E → Option ListItem → Model E
  open_item m none = m
  open_item m (some item) = record m { view_mode = detail_view }

  unfoldable pub enter_in : ViewMode → Model E → Option (Model E × Cmd)
  unfolding filtered_items item_at enter_fix open_item
  enter_in list_view m = some (open_item m (item_at m.cursor (filtered_items m)), no_cmd)
  enter_in fix_view m = enter_fix m
  enter_in mode m = some (m, no_cmd)

  -- HandleEscape of a view's controller.
  unfoldable pub escape_in : ViewMode → Model E → Model E
  unfolding toggle_help
  escape_in list_view m = without_preview m
  escape_in detail_view m = without_preview (record m { view_mode = list_view })
  escape_in help_view m = without_preview (toggle_help m)
  escape_in metrics_view m = without_preview (record m { view_mode = list_view })
  escape_in fix_view m = record m { fix_state = none; view_mode = detail_view }
  escape_in overview_view m = record m { view_mode = list_view }

  -- An action of one view, which the others ignore.
  unfoldable pub in_list : ViewMode → (Model E → Model E) → Model E → Model E
  in_list list_view f m = f m
  in_list mode f m = m

  unfoldable pub in_detail : ViewMode → (Model E → Model E) → Model E → Model E
  in_detail detail_view f m = f m
  in_detail mode f m = m

  unfoldable pub press_metrics : Model E → Model E
  press_metrics m = record m {
    view_mode = elim m.view_mode [
      | list_view ↦ metrics_view
      | detail_view ↦ metrics_view
      | mode ↦ mode
    ];
  }

  unfoldable pub batch_in : (List Bytes → List Bytes) → ViewMode → Model E → Model E × Cmd
  unfolding press_batch_apply
  batch_in sort_keys list_view m = press_batch_apply sort_keys m
  batch_in sort_keys mode m = (m, no_cmd)

  module _ (sort_stable : (ListItem → ListItem → ℤ) → List ListItem → List ListItem)
      (sort_keys : List Bytes → List Bytes) (health_ok : Bytes)
      (type_key : Key → Bytes → Bytes) where
    -- handleKey.
    unfoldable pub handle_key : Key → Model E → Option (Model E × Cmd)
    unfolding press_refresh toggle_help move_in enter_in escape_in in_list in_detail press_metrics
        press_sort jump_to_problem toggle_select select_all deselect_all slower faster open_fix
        batch_in
    handle_key Key.quit_key m = some (m, quit_cmd)
    handle_key Key.up_key m = some (move_in m.view_mode (negsuc 0) m, no_cmd)
    handle_key Key.down_key m = some (move_in m.view_mode (pos 1) m, no_cmd)
    handle_key Key.enter_key m = enter_in m.view_mode m
    handle_key Key.escape_key m = some (escape_in m.view_mode m, no_cmd)
    handle_key Key.refresh_key m = some (press_refresh m)
    handle_key Key.pause_key m = some (record m { paused = not m.paused }, no_cmd)
    handle_key Key.filter_key m =
        some (in_list m.view_mode (λ l. record l { filtering = true }) m, no_cmd)
    handle_key Key.help_key m = some (toggle_help m, no_cmd)
    handle_key Key.sort_key m = some (in_list m.view_mode (press_sort sort_stable) m, no_cmd)
    handle_key Key.jump_problem_key m =
        some (in_list m.view_mode (jump_to_problem health_ok) m, no_cmd)
    handle_key Key.metrics_key m = some (press_metrics m, no_cmd)
    handle_key Key.toggle_select_key m = some (in_list m.view_mode toggle_select m, no_cmd)
    handle_key Key.select_all_key m = some (in_list m.view_mode select_all m, no_cmd)
    handle_key Key.deselect_all_key m = some (in_list m.view_mode deselect_all m, no_cmd)
    handle_key Key.overview_key m =
        some (in_list m.view_mode (λ l. record l { view_mode = overview_view }) m, no_cmd)
    handle_key Key.fix_key m = some (in_detail m.view_mode open_fix m, no_cmd)
    handle_key Key.batch_apply_key m = some (batch_in sort_keys m.view_mode m)
    handle_key Key.interval_faster_key m = some (faster m, no_cmd)
    handle_key Key.interval_slower_key m = some (slower m, no_cmd)
    handle_key Key.dry_run_key m = some (m, no_cmd)

    -- handleFilterInput.
    unfoldable pub handle_filter_input : Key → Model E → Model E
    handle_filter_input k m =
        if is_enter k
        then record m { filtering = false; filter = m.filter_input; cursor = pos 0 }
        else if is_escape k
        then record m { filtering = false }
        else record m { filter_input = type_key k m.filter_input }

    -- HandleKey of a view's controller, then the table of keys.
    unfoldable pub view_key : ViewMode → Key → Model E → Option (Model E × Cmd)
    unfolding is_dry_run press_dry_run handle_key
    view_key v k m = if is_dry_run v k then press_dry_run m else handle_key k m

    -- updateKeyMsg.
    unfoldable pub update_key : Key → Model E → Option (Model E × Cmd)
    unfolding handle_filter_input view_key
    update_key k m =
        if m.filtering then some (handle_filter_input k m, no_cmd) else view_key m.view_mode k m

    unfoldable pub update : Message E → Model E → Option (Model E × Cmd)
    unfolding update_key update_tick update_fetch_result update_apply_result update_dry_run_result
    update (Message.key k) m = update_key k m
    update Message.tick m = some (update_tick m)
    update (Message.fetch_result r) m = some (update_fetch_result sort_stable r m, no_cmd)
    update (Message.apply_result epoch title err) m = some (update_apply_result epoch err m, no_cmd)
    update (Message.dry_run_outcome epoch title err) m =
        some (update_dry_run_result epoch title err m, no_cmd)
    update (Message.batch_apply_result title err) m = some (
      record m {
        status_message = elim err [ none ↦ batch_done title | some e ↦ batch_failed title e ];
      },
      no_cmd,
    )
