-- ===== src/Tui/Fetched.antt =====
-- A fetch keeps the dashboard's invariant.
use kubectl_hpa_status.Prelude.{
  ℕ, List, [], false, not, Option, none, some, ℤ, codes_eq, ◌&&◌, if_rule, if◌then◌else◌, ◌≡◌, inl,
  refl, subst, arith,
}
use kubectl_hpa_status.Tui.State
use kubectl_hpa_status.Tui.State.{
  Bytes, ListItem, StatusReport, ViewMode, list_view, detail_view, help_view, metrics_view,
  fix_view, overview_view, SortField, FixState, Model, FetchResult, Key, Message, Cmd, no_cmd,
}
use kubectl_hpa_status.Tui.Lists.{
  filtered_items, first_index, sort_items, focus_initial_item, focus_at, is_initial,
}
use kubectl_hpa_status.Tui.Fix.{is_empty, fix_key_of, verify_against, regenerate_from}
use kubectl_hpa_status.Tui.Refresh.{
  refresh_fix, refresh_fix_state, update_replica_history, refocus, take_fetched, rebind_fix,
  rebind_verified, after_fetch, disarm, unconfirmed,
}
use kubectl_hpa_status.Tui.Invariant.{clamp_after_fetch-InRange, FixInRange, IsValid}

module _ {E : Type 0} (sort_stable : (ListItem → ListItem → ℤ) → List ListItem → List ListItem)
    (sort_keys : List Bytes → List Bytes) where
  -- What a fetch leaves before the cursor is put right.
  abbrev IsQuiet : Model E → Type 0
  IsQuiet m = FixInRange sort_keys m.fix_state × (m.batch_apply_confirm ≡ false)

  regenerate-InRange :
      (report : StatusReport) (s : FixState E)
      → FixInRange sort_keys (some s)
      → FixInRange sort_keys (some (regenerate_from report s))
  unfolding regenerate_from
  regenerate-InRange report s h = (ground arith, ground arith)

  rebind_verified-IsQuiet :
      (m : Model E) (s : FixState E) (report : StatusReport) (o : Option (State.FixError E))
      → FixInRange sort_keys (some s)
      → m.batch_apply_confirm ≡ false
      → IsQuiet (rebind_verified m s report o)
  unfolding rebind_verified
  rebind_verified-IsQuiet m s report (some e) h q = (tt, q)
  rebind_verified-IsQuiet m s report none h q =
      if_rule IsQuiet (is_empty report.suggestions) (λ a. (tt, q))
        (λ a. (
          regenerate-InRange report
              (record s { uid = if codes_eq s.uid [] then m.hpa_uids (fix_key_of s) else s.uid }) h,
          q,
        ))

  rebind_fix-IsQuiet :
      (m : Model E) (s : FixState E) (o : Option StatusReport)
      → FixInRange sort_keys (some s)
      → m.batch_apply_confirm ≡ false
      → IsQuiet (rebind_fix m s o)
  unfolding rebind_fix
  rebind_fix-IsQuiet m s none h q = (tt, q)
  rebind_fix-IsQuiet m s (some report) h q =
      rebind_verified-IsQuiet m s report (verify_against m.reports m.hpa_uids s) h q

  refresh_fix-IsQuiet :
      (m : Model E) (o : Option (FixState E))
      → m.fix_state ≡ o
      → IsQuiet m
      → IsQuiet (refresh_fix m o)
  unfolding refresh_fix
  refresh_fix-IsQuiet m none e h = h
  refresh_fix-IsQuiet m (some s) e h =
      if_rule IsQuiet (codes_eq s.namespace [] && codes_eq s.name []) (λ a. h)
        (λ a.
          rebind_fix-IsQuiet m s (m.reports (fix_key_of s)) (subst (FixInRange sort_keys) e h.0)
            h.1)

  unconfirmed-InRange :
      (o : Option (FixState E)) → FixInRange sort_keys o → FixInRange sort_keys (unconfirmed o)
  unconfirmed-InRange none h = h
  unconfirmed-InRange (some s) h = h

  focus_at-IsQuiet : (m : Model E) (o : Option ℕ) → IsQuiet m → IsQuiet (focus_at m o)
  unfolding focus_at
  focus_at-IsQuiet m none h = h
  focus_at-IsQuiet m (some i) h = h

  focus_initial-IsQuiet : (m : Model E) → IsQuiet m → IsQuiet (focus_initial_item m)
  unfolding focus_initial_item
  focus_initial-IsQuiet m h =
      if_rule IsQuiet (codes_eq m.opts.initial_name []) (λ a. h)
        (λ a. focus_at-IsQuiet m (first_index (is_initial m) m.items) h)

  refocus-IsValid : (m : Model E) → IsQuiet m → IsValid sort_keys (refocus sort_stable m)
  unfolding refocus sort_items filtered_items
  refocus-IsValid m h =
      let sorted = sort_items sort_stable m in
      let quiet : IsQuiet
          (if not sorted.initial_focused then focus_initial_item sorted else sorted) =
        if_rule IsQuiet (not sorted.initial_focused) (λ a. focus_initial-IsQuiet sorted h)
          (λ a. h) in
      (clamp_after_fetch-InRange _ _, quiet.0, inl quiet.1)

  pub after_fetch-IsValid :
      (r : FetchResult E) (m : Model E) (o : Option E)
      → IsValid sort_keys m
      → IsValid sort_keys (after_fetch sort_stable r m o)
  unfolding after_fetch update_replica_history refresh_fix_state take_fetched filtered_items
  after_fetch-IsValid r m (some e) h = (h.0, unconfirmed-InRange m.fix_state h.1, inl refl)
  after_fetch-IsValid r m none h =
      let fetched = take_fetched r (disarm m) in
      refocus-IsValid (update_replica_history (refresh_fix_state fetched)) (
        refresh_fix-IsQuiet fetched fetched.fix_state refl
          (unconfirmed-InRange m.fix_state h.1, refl))
