-- ===== src/Tui/Confirmed.antt =====
-- How the wizard comes to be armed for a live apply.
use kubectl_hpa_status.Prelude.{
  ℕ, List, [], true, false, not, Option, none, some, ℤ, pos, negsuc, codes_eq, ◌==◌, ◌&&◌, ◌||◌,
  if_rule, ◌≡◌, inl, refl,
}
use kubectl_hpa_status.Tui.State
use kubectl_hpa_status.Tui.State.{
  Bytes, ListItem, StatusReport, ViewMode, list_view, detail_view, help_view, metrics_view,
  fix_view, overview_view, SortField, FixState, Model, FetchResult, Key, Message, Cmd, no_cmd,
}
use kubectl_hpa_status.Tui.Lists.{
  filtered_items, first_index, item_at, sort_items, press_sort, focus_initial_item, jump_to_problem,
  toggle_select, select_all, deselect_all, slower, faster, focus_at, has_problem, is_initial,
}
use kubectl_hpa_status.Tui.Fix.{
  is_empty, fix_key_of, verify_against, regenerate_from, press_dry_run, update_apply,
  update_dry_run, update_apply_result, update_dry_run_result,
}
use kubectl_hpa_status.Tui.Batch.{selected_names, collect_patches, press_batch_apply}
use kubectl_hpa_status.Tui.Refresh.{
  refresh_fix, refresh_fix_state, update_replica_history, refocus, take_fetched,
  update_fetch_result, rebind_fix, rebind_verified, after_fetch, disarm, unconfirmed,
}
use kubectl_hpa_status.Tui.Update.{
  update_tick, press_refresh, toggle_help, in_list, batch_in, view_key, is_dry_run, is_enter,
  is_escape, press_metrics, handle_key, handle_filter_input, update_key, update,
}
use kubectl_hpa_status.Tui.Armed.{
  ArmedFrom, ArmedStep, ArmedModel, ArmedPair, kept, kept_by, jump_to_fix, toggle_item_fix,
  in_list_fix, move_in-ArmedFrom, in_detail-ArmedFrom, escape_in-ArmedFrom, enter_in-ArmedFrom,
  dry_run_at-ArmedFrom, of_epoch-ArmedFrom,
}

module _ {E : Type 0} (sort_stable : (ListItem → ListItem → ℤ) → List ListItem → List ListItem)
    (sort_keys : List Bytes → List Bytes) (health_ok : Bytes) (type_key : Key → Bytes → Bytes) where
  -- A wizard that is closed or not armed.
  abbrev Off : Option (FixState E) → Type 0
  Off none = Unit
  Off (some t) = t.apply_confirm ≡ false

  abbrev IsOff : Model E → Type 0
  IsOff m = Off m.fix_state

  Off-ArmedFrom : (msg : Message E) (o p : Option (FixState E)) → Off p → ArmedFrom msg o p
  Off-ArmedFrom msg o none h = tt
  Off-ArmedFrom msg o (some t) h = inl h

  unconfirmed-Off : (o : Option (FixState E)) → Off (unconfirmed o)
  unconfirmed-Off none = tt
  unconfirmed-Off (some s) = refl

  rebind_verified-IsOff :
      (m : Model E) (s : FixState E) (report : StatusReport) (o : Option (State.FixError E))
      → IsOff (rebind_verified m s report o)
  unfolding rebind_verified regenerate_from
  rebind_verified-IsOff m s report (some e) = tt
  rebind_verified-IsOff m s report none =
      if_rule IsOff (is_empty report.suggestions) (λ a. tt) (λ a. refl)

  rebind_fix-IsOff :
      (m : Model E) (s : FixState E) (o : Option StatusReport) → IsOff (rebind_fix m s o)
  unfolding rebind_fix
  rebind_fix-IsOff m s none = tt
  rebind_fix-IsOff m s (some report) =
      rebind_verified-IsOff m s report (verify_against m.reports m.hpa_uids s)

  refresh_fix-IsOff : (m : Model E) (o : Option (FixState E)) → IsOff m → IsOff (refresh_fix m o)
  unfolding refresh_fix
  refresh_fix-IsOff m none h = h
  refresh_fix-IsOff m (some s) h =
      if_rule IsOff (codes_eq s.namespace [] && codes_eq s.name []) (λ a. h)
        (λ a. rebind_fix-IsOff m s (m.reports (fix_key_of s)))

  focus_at-IsOff : (m : Model E) (o : Option ℕ) → IsOff m → IsOff (focus_at m o)
  unfolding focus_at
  focus_at-IsOff m none h = h
  focus_at-IsOff m (some i) h = h

  refocus-IsOff : (m : Model E) → IsOff m → IsOff (refocus sort_stable m)
  unfolding refocus sort_items focus_initial_item
  refocus-IsOff m h =
      let sorted = sort_items sort_stable m in
      if_rule IsOff (not sorted.initial_focused)
        (λ a.
          if_rule IsOff (codes_eq sorted.opts.initial_name []) (λ b. h)
            (λ b. focus_at-IsOff sorted (first_index (is_initial sorted) sorted.items) h))
        (λ a. h)

  after_fetch-IsOff :
      (r : FetchResult E) (m : Model E) (o : Option E) → IsOff (after_fetch sort_stable r m o)
  unfolding after_fetch update_replica_history refresh_fix_state take_fetched
  after_fetch-IsOff r m (some e) = unconfirmed-Off m.fix_state
  after_fetch-IsOff r m none =
      let fetched = take_fetched r (disarm m) in
      refocus-IsOff (update_replica_history (refresh_fix_state fetched))
        (refresh_fix-IsOff fetched fetched.fix_state (unconfirmed-Off m.fix_state))

  press_refresh-ArmedFrom : (msg : Message E) (m : Model E) → ArmedPair msg m (press_refresh m)
  unfolding press_refresh
  press_refresh-ArmedFrom msg m =
      if_rule (ArmedPair msg m) m.loading (λ a. kept msg m.fix_state) (λ a. kept msg m.fix_state)

  update_tick-ArmedFrom : (msg : Message E) (m : Model E) → ArmedPair msg m (update_tick m)
  unfolding update_tick
  update_tick-ArmedFrom msg m =
      if_rule (ArmedPair msg m) (m.paused || m.loading) (λ a. kept msg m.fix_state)
        (λ a. kept msg m.fix_state)

  press_batch_apply-ArmedFrom :
      (msg : Message E) (m : Model E) → ArmedPair msg m (press_batch_apply sort_keys m)
  unfolding press_batch_apply
  press_batch_apply-ArmedFrom msg m =
      let P : Model E × Cmd → Type 0 = ArmedPair msg m in
      let k = kept msg m.fix_state in
      if_rule P (is_empty (selected_names sort_keys m)) (λ a. k)
        (λ a.
          if_rule P (is_empty (collect_patches m.reports (selected_names sort_keys m))) (λ b. k)
            (λ b.
              if_rule P (not m.batch_apply_confirm) (λ c. k)
                (λ c. if_rule P (not m.opts.can_apply) (λ d. k) (λ d. k))))

  batch_in-ArmedFrom :
      (msg : Message E) (v : ViewMode) (m : Model E) → ArmedPair msg m (batch_in sort_keys v m)
  unfolding batch_in
  batch_in-ArmedFrom msg list_view m = press_batch_apply-ArmedFrom msg m
  batch_in-ArmedFrom msg detail_view m = kept msg m.fix_state
  batch_in-ArmedFrom msg help_view m = kept msg m.fix_state
  batch_in-ArmedFrom msg metrics_view m = kept msg m.fix_state
  batch_in-ArmedFrom msg fix_view m = kept msg m.fix_state
  batch_in-ArmedFrom msg overview_view m = kept msg m.fix_state

  in_list-ArmedFrom :
      (k : Key) (f : Model E → Model E) (m : Model E)
      → (f m).fix_state ≡ m.fix_state
      → ArmedModel (Message.key k) m (in_list m.view_mode f m)
  in_list-ArmedFrom k f m e =
      kept_by (Message.key k) m (in_list m.view_mode f m) (in_list_fix m.view_mode f m e)

  handle_key-ArmedFrom :
      (k : Key) (m : Model E)
      → ArmedStep (Message.key k) m (handle_key sort_stable sort_keys health_ok type_key k m)
  unfolding handle_key toggle_help press_metrics press_sort sort_items jump_to_problem toggle_select
      select_all deselect_all slower faster
  handle_key-ArmedFrom Key.quit_key m = kept (Message.key Key.quit_key) m.fix_state
  handle_key-ArmedFrom Key.up_key m =
      move_in-ArmedFrom (Message.key Key.up_key) m.view_mode (negsuc 0) m
  handle_key-ArmedFrom Key.down_key m =
      move_in-ArmedFrom (Message.key Key.down_key) m.view_mode (pos 1) m
  handle_key-ArmedFrom Key.enter_key m = enter_in-ArmedFrom m.view_mode m
  handle_key-ArmedFrom Key.escape_key m =
      escape_in-ArmedFrom (Message.key Key.escape_key) m.view_mode m
  handle_key-ArmedFrom Key.refresh_key m = press_refresh-ArmedFrom (Message.key Key.refresh_key) m
  handle_key-ArmedFrom Key.pause_key m = kept (Message.key Key.pause_key) m.fix_state
  handle_key-ArmedFrom Key.filter_key m =
      in_list-ArmedFrom Key.filter_key (λ l. record l { filtering = true }) m refl
  handle_key-ArmedFrom Key.help_key m = kept (Message.key Key.help_key) m.fix_state
  handle_key-ArmedFrom Key.sort_key m =
      in_list-ArmedFrom Key.sort_key (press_sort sort_stable) m refl
  handle_key-ArmedFrom Key.jump_problem_key m =
      in_list-ArmedFrom Key.jump_problem_key (jump_to_problem health_ok) m
        (jump_to_fix m (first_index (has_problem health_ok) (filtered_items m)))
  handle_key-ArmedFrom Key.metrics_key m = kept (Message.key Key.metrics_key) m.fix_state
  handle_key-ArmedFrom Key.toggle_select_key m =
      in_list-ArmedFrom Key.toggle_select_key toggle_select m
        (toggle_item_fix m (item_at m.cursor (filtered_items m)))
  handle_key-ArmedFrom Key.select_all_key m = in_list-ArmedFrom Key.select_all_key select_all m refl
  handle_key-ArmedFrom Key.deselect_all_key m =
      in_list-ArmedFrom Key.deselect_all_key deselect_all m refl
  handle_key-ArmedFrom Key.overview_key m =
      in_list-ArmedFrom Key.overview_key (λ l. record l { view_mode = overview_view }) m refl
  handle_key-ArmedFrom Key.fix_key m = in_detail-ArmedFrom (Message.key Key.fix_key) m.view_mode m
  handle_key-ArmedFrom Key.batch_apply_key m =
      batch_in-ArmedFrom (Message.key Key.batch_apply_key) m.view_mode m
  handle_key-ArmedFrom Key.interval_faster_key m =
      kept (Message.key Key.interval_faster_key) m.fix_state
  handle_key-ArmedFrom Key.interval_slower_key m =
      kept (Message.key Key.interval_slower_key) m.fix_state
  handle_key-ArmedFrom Key.dry_run_key m = kept (Message.key Key.dry_run_key) m.fix_state

  filter_input-ArmedFrom :
      (k : Key) (m : Model E)
      → ArmedModel
          (Message.key k)
          m
          (handle_filter_input sort_stable sort_keys health_ok type_key k m)
  unfolding handle_filter_input
  filter_input-ArmedFrom k m =
      let P : Model E → Type 0 = ArmedModel (Message.key k) m in
      let same = kept (Message.key k) m.fix_state in
      if_rule P (is_enter k) (λ a. same) (λ a. if_rule P (is_escape k) (λ b. same) (λ b. same))

  -- A message leaves the wizard armed only if it was open before on the same object with the same
  -- suggestion selected, and was armed already or the message is the Enter key.
  pub update-ArmedStep :
      (msg : Message E) (m : Model E)
      → ArmedStep msg m (update sort_stable sort_keys health_ok type_key msg m)
  unfolding update update_key view_key press_dry_run update_fetch_result update_apply_result
      update_dry_run_result update_apply update_dry_run
  update-ArmedStep (Message.key k) m =
      if_rule (ArmedStep (Message.key k) m) m.filtering (λ a. filter_input-ArmedFrom k m)
        (λ a.
          if_rule (ArmedStep (Message.key k) m) (is_dry_run m.view_mode k)
            (λ b. dry_run_at-ArmedFrom (Message.key k) m m.fix_state)
            (λ b. handle_key-ArmedFrom k m))
  update-ArmedStep Message.tick m = update_tick-ArmedFrom Message.tick m
  update-ArmedStep (Message.fetch_result r) m =
      if_rule (ArmedModel (Message.fetch_result r) m)
        (not (r.request_id == 0) && not (r.request_id == m.fetch_request_id))
        (λ a. kept (Message.fetch_result r) m.fix_state)
        (λ a.
          Off-ArmedFrom (Message.fetch_result r) m.fix_state
            (after_fetch sort_stable r m r.fetch_error).fix_state
            (after_fetch-IsOff r m r.fetch_error))
  update-ArmedStep (Message.apply_result epoch title err) m =
      of_epoch-ArmedFrom (Message.apply_result epoch title err) epoch (update_apply err) m
        m.fix_state (λ s. refl)
  update-ArmedStep (Message.dry_run_outcome epoch title err) m =
      of_epoch-ArmedFrom (Message.dry_run_outcome epoch title err) epoch (update_dry_run title err)
        m m.fix_state (λ s. refl)
  update-ArmedStep (Message.batch_apply_result title err) m =
      kept (Message.batch_apply_result title err) m.fix_state
