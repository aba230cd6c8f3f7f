-- ===== src/Tui/Refresh.antt =====
-- The result of a fetch (updateFetchResult and its helpers in internal/tui/update.go). The clock's
-- time of the last refresh is left out, since only the drawing shows it.
use kubectl_hpa_status.Prelude.{
  ℕ, suc, ◌-◌, List, [], ◌∷◌, ◌++◌, map, Bool, true, false, not, ◌&&◌, ltb, ◌==◌, Option, none,
  some, ℤ, pos, ◌-ℤ◌, leb_ℤ, ltb_ℤ, length, drop, any, codes_eq, if◌then◌else◌,
}
use kubectl_hpa_status.Tui.State.{
  Bytes, ListItem, StatusReport, FixError, list_view, fix_view, FixState, no_status, closed,
  closed_gone, closed_without_suggestions, Model, fetch_failed, FetchResult, item_key, lookup_key,
  set_key, keep_keys,
}
use kubectl_hpa_status.Tui.Lists.{filtered_items, sort_items, focus_initial_item}
use kubectl_hpa_status.Tui.Fix.{fix_key_of, verify_against, regenerate_from, with_fix, is_empty}

abbrev pub max_replica_history_points : ℕ
max_replica_history_points = 15

abbrev pub keys_of : List ListItem → List Bytes
keys_of = map (λ item. item_key item.namespace item.name)

abbrev pub has_key : List Bytes → Bytes → Bool
has_key keys k = any (λ j. codes_eq j k) keys

-- The last points of a history.
unfoldable pub cap_history : List ℤ → List ℤ
cap_history history =
    if ltb max_replica_history_points (length history)
    then drop (length history - max_replica_history_points) history
    else history

abbrev pub history_of : Bytes → List (Bytes × List ℤ) → List ℤ
history_of k history = elim (lookup_key k history) [ none ↦ [] | some points ↦ points ]

unfoldable pub append_points : List ListItem → List (Bytes × List ℤ) → List (Bytes × List ℤ)
unfolding cap_history set_key lookup_key
append_points [] history = history
append_points (item ∷ items) history =
    let k = item_key item.namespace item.name in
    append_points items
      (set_key k (cap_history (history_of k history ++ (item.desired ∷ []))) history)

-- The end of refocusAndClampCursorAfterFetch.
unfoldable pub clamp_after_fetch : ℕ → ℤ → ℤ
clamp_after_fetch n cursor =
    let low = if leb_ℤ (pos n) cursor then pos n -ℤ pos 1 else cursor in
    if ltb_ℤ low (pos 0) then pos 0 else low

module _ {E : Type 0} where
  -- updateReplicaHistory and pruneStaleSelections.
  unfoldable pub update_replica_history : Model E → Model E
  unfolding append_points keep_keys
  update_replica_history m =
      let current = keys_of m.items in
      record m {
        replica_history = keep_keys (has_key current) (append_points m.items m.replica_history);
        marked = keep_keys (has_key current) m.marked;
      }

  -- The wizard closes, and its view gives way to the list.
  abbrev close_fix : Model E → Model E
  close_fix m = record m {
    fix_state = none;
    view_mode = elim m.view_mode [ fix_view ↦ list_view | mode ↦ mode ];
  }

  unfoldable pub rebind_verified :
      Model E → FixState E → StatusReport → Option (FixError E) → Model E
  unfolding fix_key_of regenerate_from
  rebind_verified m s report (some e) = record (close_fix m) { status_message = closed e }
  rebind_verified m s report none =
      if is_empty report.suggestions
      then record (close_fix m) { status_message = closed_without_suggestions (fix_key_of s) }
      else with_fix m (
          regenerate_from report
            (record s { uid = if codes_eq s.uid [] then m.hpa_uids (fix_key_of s) else s.uid }))

  unfoldable pub rebind_fix : Model E → FixState E → Option StatusReport → Model E
  unfolding fix_key_of verify_against rebind_verified
  rebind_fix m s none = record (close_fix m) { status_message = closed_gone (fix_key_of s) }
  rebind_fix m s (some report) = rebind_verified m s report (verify_against m.reports m.hpa_uids s)

  -- refreshFixStateAfterFetch.
  unfoldable pub refresh_fix : Model E → Option (FixState E) → Model E
  unfolding fix_key_of rebind_fix
  refresh_fix m none = m
  refresh_fix m (some s) =
      if codes_eq s.namespace [] && codes_eq s.name []
      then m
      else rebind_fix m s (m.reports (fix_key_of s))

  unfoldable pub refresh_fix_state : Model E → Model E
  unfolding refresh_fix
  refresh_fix_state m = refresh_fix m m.fix_state

  unfoldable pub refocus :
      ((ListItem → ListItem → ℤ) → List ListItem → List ListItem) → Model E → Model E
  unfolding sort_items focus_initial_item filtered_items clamp_after_fetch
  refocus sort_stable m =
      let sorted = sort_items sort_stable m in
      let focused =
        record (if not sorted.initial_focused then focus_initial_item sorted else sorted) {
          initial_focused = true;
        } in
      record focused { cursor = clamp_after_fetch (length (filtered_items focused)) focused.cursor }

  -- The confirmations that a fetch disarms, and the epoch that it opens.
  abbrev pub unconfirmed : Option (FixState E) → Option (FixState E)
  unconfirmed none = none
  unconfirmed (some s) = some (record s { apply_confirm = false })

  abbrev pub disarm : Model E → Model E
  disarm m = record m {
    loading = false;
    status_message = no_status;
    fix_epoch = suc m.fix_epoch;
    fix_state = unconfirmed m.fix_state;
    batch_apply_confirm = false;
    batch_apply_preview = [];
  }

  unfoldable pub take_fetched : FetchResult E → Model E → Model E
  take_fetched r m = record m {
    items = r.fetched_items;
    reports = r.fetched_reports;
    hpa_uids = r.fetched_uids;
    error = none;
  }

  unfoldable pub after_fetch :
      ((ListItem → ListItem → ℤ) → List ListItem → List ListItem)
      → FetchResult E
      → Model E
      → Option E
      → Model E
  unfolding refresh_fix_state update_replica_history refocus take_fetched
  after_fetch sort_stable r m (some e) = record (disarm m) { error = some (fetch_failed e) }
  after_fetch sort_stable r m none =
      refocus sort_stable (update_replica_history (refresh_fix_state (take_fetched r (disarm m))))

  unfoldable pub update_fetch_result :
      ((ListItem → ListItem → ℤ) → List ListItem → List ListItem)
      → FetchResult E
      → Model E
      → Model E
  unfolding after_fetch
  update_fetch_result sort_stable r m =
      if not (r.request_id == 0) && not (r.request_id == m.fetch_request_id)
      then m
      else after_fetch sort_stable r m r.fetch_error
