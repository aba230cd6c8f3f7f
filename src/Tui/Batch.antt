-- ===== src/Tui/Batch.antt =====
-- The batch apply of the list view (internal/tui/update_batch.go). slices.Sort on the keys is the
-- argument `sort_keys`, and the calls of the API server act on a state of type S.
use kubectl_hpa_status.Prelude.{
  ℕ, List, [], ◌∷◌, ◌++◌, Bool, true, false, not, ◌&&◌, Option, none, some, length, codes_eq,
  if◌then◌else◌,
}
use kubectl_hpa_status.Tui.State.{
  Bytes, Suggestion, StatusReport, PatchEntry, Model, nothing_selected, no_patches, apply_disabled,
  Cmd, no_cmd, apply_batch_cmd, item_key,
}
use kubectl_hpa_status.Tui.Fix.{is_empty}

-- selectedHPANames before the sort.
unfoldable pub marked_names : List (Bytes × Bool) → List Bytes
marked_names [] = []
marked_names ((k, chosen) ∷ marked) =
    let rest = marked_names marked in if chosen then k ∷ rest else rest

unfoldable pub selected_names : {E : Type 0} → (List Bytes → List Bytes) → Model E → List Bytes
unfolding marked_names
selected_names sort_keys m = sort_keys (marked_names m.marked)

unfoldable pub report_patches : StatusReport → List Suggestion → List PatchEntry
report_patches report [] = []
report_patches report (s ∷ suggestions) =
    let rest = report_patches report suggestions in
    if s.apply && not (codes_eq s.patch [])
    then record {
      entry_namespace = report.meta_namespace;
      entry_name = report.meta_name;
      suggestion = s;
    }
      ∷ rest
    else rest

-- collectBatchApplyPatches.
unfoldable pub collect_patches : (Bytes → Option StatusReport) → List Bytes → List PatchEntry
unfolding report_patches
collect_patches reports [] = []
collect_patches reports (k ∷ selected) = elim (reports k) [
  | none ↦ collect_patches reports selected
  | some report ↦ report_patches report report.suggestions ++ collect_patches reports selected
]

-- handleBatchApplyKey in the list view. The preview lists the patches.
unfoldable pub press_batch_apply :
    {E : Type 0} → (List Bytes → List Bytes) → Model E → Model E × Cmd
unfolding selected_names collect_patches
press_batch_apply sort_keys m =
    let selected = selected_names sort_keys m in
    let patches = collect_patches m.reports selected in
    if is_empty selected
    then (record m { error = some nothing_selected }, no_cmd)
    else if is_empty patches
    then (record m { error = some (no_patches (length selected)) }, no_cmd)
    else if not m.batch_apply_confirm
    then (record m { batch_apply_confirm = true; batch_apply_preview = patches }, no_cmd)
    else if not m.opts.can_apply
    then (
      record m {
        batch_apply_confirm = false;
        batch_apply_preview = [];
        error = some apply_disabled;
      },
      no_cmd,
    )
    else (
      record m { batch_apply_confirm = false; batch_apply_preview = [] },
      apply_batch_cmd patches,
    )

pub record PatchGroup : Type 0 where
  pub group_namespace : Bytes
  pub group_name : Bytes
  pub group_suggestions : List Suggestion

-- The first loop of executeBatchApply: `groups` and `groupIndex` are one association list.
unfoldable pub add_patch : PatchEntry → List (Bytes × PatchGroup) → List (Bytes × PatchGroup)
unfolding item_key
add_patch p [] =
    (
      item_key p.entry_namespace p.entry_name,
      record {
        group_namespace = p.entry_namespace;
        group_name = p.entry_name;
        group_suggestions = p.suggestion ∷ [];
      },
    )
    ∷ []
add_patch p ((k, g) ∷ groups) =
    if codes_eq k (item_key p.entry_namespace p.entry_name)
    then (k, record g { group_suggestions = g.group_suggestions ++ (p.suggestion ∷ []) }) ∷ groups
    else (k, g) ∷ add_patch p groups

unfoldable pub group_patches :
    List PatchEntry → List (Bytes × PatchGroup) → List (Bytes × PatchGroup)
unfolding add_patch
group_patches [] groups = groups
group_patches (p ∷ patches) groups = group_patches patches (add_patch p groups)

-- batchApplyResultMsg: how many groups failed, of how many, or how many patches were applied, and
-- the errors that are joined.
pub data BatchOutcome (E : Type 0) : Type 0 where
  groups_failed : ℕ → ℕ → List (Bytes × E) → BatchOutcome E
  patches_applied : ℕ → ℕ → BatchOutcome E

module _ {E S : Type 0} (apply : Bytes → Bytes → List Suggestion → S → Option E × S) where
  unfoldable pub apply_groups : List (Bytes × PatchGroup) → S → List (Bytes × E) × S
  apply_groups [] s = ([], s)
  apply_groups ((k, g) ∷ groups) s =
      let (err, s') = apply g.group_namespace g.group_name g.group_suggestions s in
      let (errs, s'') = apply_groups groups s' in
      (elim err [ none ↦ errs | some e ↦ (item_key g.group_namespace g.group_name, e) ∷ errs ], s'')

  unfoldable pub execute_batch_apply : List PatchEntry → S → BatchOutcome E × S
  unfolding group_patches apply_groups
  execute_batch_apply patches s =
      let groups = group_patches patches [] in
      let (errs, s') = apply_groups groups s in
      (
        if is_empty errs
            then patches_applied (length patches) (length groups)
            else groups_failed (length errs) (length groups) errs,
        s',
      )
