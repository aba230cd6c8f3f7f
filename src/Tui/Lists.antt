-- ===== src/Tui/Lists.antt =====
-- The list view (internal/tui/list_helpers.go and the list actions of update_keys.go): filter,
-- order, cursor and selection. slices.SortStableFunc is the argument `sort_stable`.
use kubectl_hpa_status.Prelude.{
  ℕ, suc, ◌+◌, ◌-◌, ◌/◌, List, [], ◌∷◌, Bool, true, false, not, ◌&&◌, ◌||◌, ltb, Option, none, some,
  ℤ, pos, negsuc, ◌+ℤ◌, ◌-ℤ◌, ltb_ℤ, length, get_elem?, codes_eq, if◌then◌else◌,
}
use kubectl_hpa_status.Tui.State.{
  Bytes, ListItem, StatusReport, detail_view, SortField, unsorted, by_name, by_namespace,
  by_health_score, by_issue, Model, item_key, lookup_key, set_key,
}
use kubectl_hpa_status.Tui.Search.{contains_ignore_case}
use kubectl_hpa_status.Tui.Scroll.{clamp_cursor}

unfoldable pub matches_filter : Bytes → ListItem → Bool
matches_filter filter item =
    contains_ignore_case item.name filter
    || contains_ignore_case item.namespace filter
    || contains_ignore_case item.health filter
    || contains_ignore_case item.issue filter
    || contains_ignore_case item.summary filter

unfoldable pub filter_items : Bytes → List ListItem → List ListItem
filter_items filter [] = []
filter_items filter (item ∷ items) =
    let rest = filter_items filter items in if matches_filter filter item then item ∷ rest else rest

unfoldable pub filtered_items : {E : Type 0} → Model E → List ListItem
filtered_items m = if codes_eq m.filter [] then m.items else filter_items m.filter m.items

-- strings.Compare.
unfoldable pub compare_bytes : Bytes → Bytes → ℤ
compare_bytes [] [] = pos 0
compare_bytes [] (b ∷ bs) = negsuc 0
compare_bytes (a ∷ s) [] = pos 1
compare_bytes (a ∷ s) (b ∷ t) =
    if ltb a b then negsuc 0 else if ltb b a then pos 1 else compare_bytes s t

unfoldable pub cmp_int : ℤ → ℤ → ℤ
cmp_int a b = if ltb_ℤ a b then negsuc 0 else if ltb_ℤ b a then pos 1 else pos 0

unfoldable pub compare_items : SortField → Bool → ListItem → ListItem → ℤ
compare_items field descending a b =
    let cmp : ℤ = elim field [
      | unsorted ↦ pos 0
      | by_name ↦ compare_bytes a.name b.name
      | by_namespace ↦ compare_bytes a.namespace b.namespace
      | by_health_score ↦ cmp_int a.health_score b.health_score
      | by_issue ↦ compare_bytes a.issue b.issue
    ] in
    if descending then pos 0 -ℤ cmp else cmp

-- The item under a cursor.
unfoldable pub item_at : ℤ → List ListItem → Option ListItem
item_at (pos i) items = get_elem? items i
item_at (negsuc i) items = none

-- The position of the first item that passes a test.
unfoldable pub first_index : (ListItem → Bool) → List ListItem → Option ℕ
first_index p [] = none
first_index p (item ∷ items) =
    if p item then some 0 else elim (first_index p items) [ none ↦ none | some i ↦ some (suc i) ]

-- The cycle of the sort fields.
unfoldable pub next_sort_field : SortField → SortField
next_sort_field unsorted = by_health_score
next_sort_field by_name = by_health_score
next_sort_field by_health_score = by_issue
next_sort_field by_issue = by_namespace
next_sort_field by_namespace = by_name

abbrev is_marked : Bytes → List (Bytes × Bool) → Bool
is_marked k marked = elim (lookup_key k marked) [ none ↦ false | some b ↦ b ]

unfoldable pub mark_all : List ListItem → List (Bytes × Bool) → List (Bytes × Bool)
unfolding set_key
mark_all [] marked = marked
mark_all (item ∷ items) marked =
    mark_all items (set_key (item_key item.namespace item.name) true marked)

-- handleIntervalKey, in nanoseconds.
unfoldable pub interval_step : ℕ → ℕ
interval_step interval = if ltb (interval / 2) 1000000000 then 1000000000 else interval / 2

-- `health_ok` is the text of HealthOK.
unfoldable pub has_problem : Bytes → ListItem → Bool
has_problem health_ok item = not (codes_eq item.health health_ok)

module _ {E : Type 0} where
  unfoldable pub sort_items :
      ((ListItem → ListItem → ℤ) → List ListItem → List ListItem) → Model E → Model E
  unfolding compare_items
  sort_items sort_stable m = record m {
    items = elim m.sort_field [
      | unsorted ↦ m.items
      | field ↦ sort_stable (compare_items field m.sort_descending) m.items
    ];
  }

  unfoldable pub is_initial : Model E → ListItem → Bool
  is_initial m item =
      codes_eq item.name m.opts.initial_name
      && (codes_eq m.opts.initial_ns [] || codes_eq item.namespace m.opts.initial_ns)

  -- The cursor moves to an item that was found.
  unfoldable pub focus_at : Model E → Option ℕ → Model E
  focus_at m none = m
  focus_at m (some i) = record m {
    cursor = pos i;
    view_mode = if m.opts.start_in_detail then detail_view else m.view_mode;
  }

  unfoldable pub focus_initial_item : Model E → Model E
  unfolding is_initial first_index focus_at
  focus_initial_item m =
      if codes_eq m.opts.initial_name [] then m else focus_at m (first_index (is_initial m) m.items)

  -- currentReport.
  unfoldable pub current_report : Model E → Option StatusReport
  unfolding filtered_items item_at
  current_report m = elim (item_at m.cursor (filtered_items m)) [
    | none ↦ none
    | some item ↦ m.reports (item_key item.namespace item.name)
  ]

  -- moveListViewCursor.
  unfoldable pub move_list_cursor : ℤ → Model E → Model E
  unfolding filtered_items clamp_cursor
  move_list_cursor delta m = record m {
    cursor = clamp_cursor (m.cursor +ℤ delta) (pos (length (filtered_items m)) -ℤ pos 1);
  }

  -- handleSortKey.
  unfoldable pub press_sort :
      ((ListItem → ListItem → ℤ) → List ListItem → List ListItem) → Model E → Model E
  unfolding sort_items next_sort_field
  press_sort sort_stable m =
      let turned = record m {
        sort_field = next_sort_field m.sort_field;
        sort_descending = not m.sort_descending;
      } in
      record (sort_items sort_stable turned) { cursor = pos 0 }

  -- handleJumpProblemKey.
  unfoldable pub jump_to : Model E → Option ℕ → Model E
  jump_to m none = m
  jump_to m (some i) = record m { cursor = pos i }

  unfoldable pub jump_to_problem : Bytes → Model E → Model E
  unfolding filtered_items first_index jump_to has_problem
  jump_to_problem health_ok m = jump_to m (first_index (has_problem health_ok) (filtered_items m))

  abbrev pub without_preview : Model E → Model E
  without_preview m = record m { batch_apply_confirm = false; batch_apply_preview = [] }

  -- handleToggleSelectKey, handleSelectAllKey and handleDeselectAllKey.
  unfoldable pub toggle_item : Model E → Option ListItem → Model E
  unfolding lookup_key set_key
  toggle_item m none = m
  toggle_item m (some item) =
      let k = item_key item.namespace item.name in
      without_preview (record m { marked = set_key k (not (is_marked k m.marked)) m.marked })

  unfoldable pub toggle_select : Model E → Model E
  unfolding filtered_items item_at toggle_item
  toggle_select m = toggle_item m (item_at m.cursor (filtered_items m))

  unfoldable pub select_all : Model E → Model E
  unfolding filtered_items mark_all
  select_all m = without_preview (record m { marked = mark_all (filtered_items m) m.marked })

  unfoldable pub deselect_all : Model E → Model E
  deselect_all m = without_preview (record m { marked = [] })

  unfoldable pub slower : Model E → Model E
  unfolding interval_step
  slower m =
      let longer = m.interval + interval_step m.interval in
      record m { interval = if ltb 60000000000 longer then 60000000000 else longer }

  unfoldable pub faster : Model E → Model E
  unfolding interval_step
  faster m =
      let shorter = m.interval - interval_step m.interval in
      record m { interval = if ltb shorter 1000000000 then 1000000000 else shorter }
