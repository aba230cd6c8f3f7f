-- ===== src/Tui/Valid.antt =====
-- Every message keeps the dashboard's invariant, and none makes it panic.
use kubectl_hpa_status.Prelude.{
  List, true, not, Option, none, some, ℤ, pos, negsuc, ◌==◌, ◌&&◌, ◌||◌, if_rule, inl, refl, arith,
}
use kubectl_hpa_status.Tui.State.{
  Bytes, ListItem, ViewMode, list_view, detail_view, help_view, metrics_view, fix_view,
  overview_view, Model, Key, Message,
}
use kubectl_hpa_status.Tui.Lists.{
  filtered_items, first_index, item_at, press_sort, jump_to_problem, toggle_select, select_all,
  deselect_all, slower, faster, current_report, has_problem,
}
use kubectl_hpa_status.Tui.Fix.{
  open_fix, enter_fix, press_dry_run, update_apply, update_dry_run, update_apply_result,
  update_dry_run_result,
}
use kubectl_hpa_status.Tui.Batch.{selected_names}
use kubectl_hpa_status.Tui.Refresh.{update_fetch_result}
use kubectl_hpa_status.Tui.Update.{
  update_tick, press_refresh, toggle_help, open_item, enter_in, escape_in, in_detail, batch_in,
  view_key, is_dry_run, is_enter, is_escape, press_metrics, handle_key, handle_filter_input,
  update_key, update,
}
use kubectl_hpa_status.Tui.Fetched.{after_fetch-IsValid}
use kubectl_hpa_status.Tui.Invariant.{
  IsValid, IsValidStep, IsSafe, in_list-IsValid, jump_to-IsValid, toggle_item-IsValid,
  press_sort-IsValid, move_in-IsValid, enter_fix_at-IsSafe, dry_run_at-IsSafe, of_epoch-IsValid,
  open_report-IsValid, press_batch_apply-IsValid,
}

module _ {E : Type 0} (sort_stable : (ListItem → ListItem → ℤ) → List ListItem → List ListItem)
    (sort_keys : List Bytes → List Bytes) where
  update_tick-IsValid : (m : Model E) → IsValid sort_keys m → IsValidStep sort_keys (update_tick m)
  unfolding update_tick filtered_items selected_names
  update_tick-IsValid m h =
      if_rule (IsValidStep sort_keys) (m.paused || m.loading) (λ a. h) (λ a. h)

  press_refresh-IsValid :
      (m : Model E) → IsValid sort_keys m → IsValidStep sort_keys (press_refresh m)
  unfolding press_refresh filtered_items selected_names
  press_refresh-IsValid m h = if_rule (IsValidStep sort_keys) m.loading (λ a. h) (λ a. h)

  open_item-IsValid :
      (m : Model E) (o : Option ListItem) → IsValid sort_keys m → IsValid sort_keys (open_item m o)
  unfolding open_item filtered_items selected_names
  open_item-IsValid m none h = h
  open_item-IsValid m (some item) h = h

  enter_in-IsSafe :
      (v : ViewMode) (m : Model E) → IsValid sort_keys m → IsSafe sort_keys (enter_in v m)
  unfolding enter_in enter_fix
  enter_in-IsSafe list_view m h = open_item-IsValid m (item_at m.cursor (filtered_items m)) h
  enter_in-IsSafe fix_view m h = enter_fix_at-IsSafe sort_keys m m.fix_state refl h
  enter_in-IsSafe detail_view m h = h
  enter_in-IsSafe help_view m h = h
  enter_in-IsSafe metrics_view m h = h
  enter_in-IsSafe overview_view m h = h

  escape_in-IsValid :
      (v : ViewMode) (m : Model E) → IsValid sort_keys m → IsValid sort_keys (escape_in v m)
  unfolding escape_in toggle_help filtered_items selected_names
  escape_in-IsValid list_view m h = (h.0, h.1, inl refl)
  escape_in-IsValid detail_view m h = (h.0, h.1, inl refl)
  escape_in-IsValid help_view m h = (h.0, h.1, inl refl)
  escape_in-IsValid metrics_view m h = (h.0, h.1, inl refl)
  escape_in-IsValid fix_view m h = (h.0, tt, h.2)
  escape_in-IsValid overview_view m h = h

  open_fix-IsValid :
      (v : ViewMode) (m : Model E)
      → IsValid sort_keys m
      → IsValid sort_keys (in_detail v open_fix m)
  unfolding in_detail open_fix
  open_fix-IsValid detail_view m h = open_report-IsValid sort_keys m (current_report m) h
  open_fix-IsValid list_view m h = h
  open_fix-IsValid help_view m h = h
  open_fix-IsValid metrics_view m h = h
  open_fix-IsValid fix_view m h = h
  open_fix-IsValid overview_view m h = h

  batch_in-IsValid :
      (v : ViewMode) (m : Model E)
      → IsValid sort_keys m
      → IsValidStep sort_keys (batch_in sort_keys v m)
  unfolding batch_in
  batch_in-IsValid list_view m h = press_batch_apply-IsValid sort_keys m h
  batch_in-IsValid detail_view m h = h
  batch_in-IsValid help_view m h = h
  batch_in-IsValid metrics_view m h = h
  batch_in-IsValid fix_view m h = h
  batch_in-IsValid overview_view m h = h

  module _ (health_ok : Bytes) (type_key : Key → Bytes → Bytes) where
    handle_key-IsSafe :
        (k : Key) (m : Model E)
        → IsValid sort_keys m
        → IsSafe sort_keys (handle_key sort_stable sort_keys health_ok type_key k m)
    unfolding handle_key toggle_help press_metrics select_all deselect_all slower faster
        jump_to_problem toggle_select filtered_items selected_names
    handle_key-IsSafe Key.quit_key m h = h
    handle_key-IsSafe Key.up_key m h = move_in-IsValid sort_keys m.view_mode (negsuc 0) m h
    handle_key-IsSafe Key.down_key m h = move_in-IsValid sort_keys m.view_mode (pos 1) m h
    handle_key-IsSafe Key.enter_key m h = enter_in-IsSafe m.view_mode m h
    handle_key-IsSafe Key.escape_key m h = escape_in-IsValid m.view_mode m h
    handle_key-IsSafe Key.refresh_key m h = press_refresh-IsValid m h
    handle_key-IsSafe Key.pause_key m h = h
    handle_key-IsSafe Key.filter_key m h =
        in_list-IsValid sort_keys m.view_mode (λ l. record l { filtering = true }) m (λ k. k) h
    handle_key-IsSafe Key.help_key m h = h
    handle_key-IsSafe Key.sort_key m h =
        in_list-IsValid sort_keys m.view_mode (press_sort sort_stable) m
          (press_sort-IsValid sort_keys sort_stable m) h
    handle_key-IsSafe Key.jump_problem_key m h =
        in_list-IsValid sort_keys m.view_mode (jump_to_problem health_ok) m
          (jump_to-IsValid sort_keys m (first_index (has_problem health_ok) (filtered_items m))
            (has_problem health_ok) refl)
          h
    handle_key-IsSafe Key.metrics_key m h = h
    handle_key-IsSafe Key.toggle_select_key m h =
        in_list-IsValid sort_keys m.view_mode toggle_select m
          (toggle_item-IsValid sort_keys m (item_at m.cursor (filtered_items m))) h
    handle_key-IsSafe Key.select_all_key m h =
        in_list-IsValid sort_keys m.view_mode select_all m (λ k. (k.0, k.1, inl refl)) h
    handle_key-IsSafe Key.deselect_all_key m h =
        in_list-IsValid sort_keys m.view_mode deselect_all m (λ k. (k.0, k.1, inl refl)) h
    handle_key-IsSafe Key.overview_key m h =
        in_list-IsValid sort_keys m.view_mode (λ l. record l { view_mode = overview_view }) m
          (λ k. k) h
    handle_key-IsSafe Key.fix_key m h = open_fix-IsValid m.view_mode m h
    handle_key-IsSafe Key.batch_apply_key m h = batch_in-IsValid m.view_mode m h
    handle_key-IsSafe Key.interval_faster_key m h = h
    handle_key-IsSafe Key.interval_slower_key m h = h
    handle_key-IsSafe Key.dry_run_key m h = h

    filter_input-IsValid :
        (k : Key) (m : Model E)
        → IsValid sort_keys m
        → IsValid sort_keys (handle_filter_input sort_stable sort_keys health_ok type_key k m)
    unfolding handle_filter_input filtered_items selected_names
    filter_input-IsValid k m h =
        if_rule (IsValid sort_keys) (is_enter k) (λ a. ((omega arith, inl refl), h.1, h.2))
          (λ a. if_rule (IsValid sort_keys) (is_escape k) (λ b. h) (λ b. h))

    update_key-IsSafe :
        (k : Key) (m : Model E)
        → IsValid sort_keys m
        → IsSafe sort_keys (update_key sort_stable sort_keys health_ok type_key k m)
    unfolding update_key view_key press_dry_run
    update_key-IsSafe k m h =
        if_rule (IsSafe sort_keys) m.filtering (λ a. filter_input-IsValid k m h)
          (λ a.
            if_rule (IsSafe sort_keys) (is_dry_run m.view_mode k)
              (λ b. dry_run_at-IsSafe sort_keys m m.fix_state refl h)
              (λ b. handle_key-IsSafe k m h))

    -- In a valid state no message makes the dashboard panic, and the state after it is valid: the
    -- cursor of the list and that of the wizard stand on an element or at the start, and an armed
    -- batch shows the patches that it would send.
    pub update-IsSafe :
        (msg : Message E) (m : Model E)
        → IsValid sort_keys m
        → IsSafe sort_keys (update sort_stable sort_keys health_ok type_key msg m)
    unfolding update update_fetch_result update_apply_result update_dry_run_result update_apply
        update_dry_run filtered_items selected_names
    update-IsSafe (Message.key k) m h = update_key-IsSafe k m h
    update-IsSafe Message.tick m h = update_tick-IsValid m h
    update-IsSafe (Message.fetch_result r) m h =
        if_rule (IsValid sort_keys)
          (not (r.request_id == 0) && not (r.request_id == m.fetch_request_id)) (λ a. h)
          (λ a. after_fetch-IsValid sort_stable sort_keys r m r.fetch_error h)
    update-IsSafe (Message.apply_result epoch title err) m h =
        of_epoch-IsValid sort_keys epoch (update_apply err) m m.fix_state (λ s k. k) refl h
    update-IsSafe (Message.dry_run_outcome epoch title err) m h =
        of_epoch-IsValid sort_keys epoch (update_dry_run title err) m m.fix_state (λ s k. k) refl h
    update-IsSafe (Message.batch_apply_result title err) m h = h
