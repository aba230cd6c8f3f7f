-- ===== src/Tui/State.antt =====
-- The state of the dashboard and the messages that it receives (model.go, types.go and keys.go of
-- internal/tui). Texts are byte lists; counters and cursors are far from the limits of an int, and
-- are unbounded here. Texts for the user are constructors with the values that they show. A map of
-- reports or of UIDs is a function, `none` and the empty UID standing for a missing key.
use kubectl_hpa_status.Prelude.{
  ℕ, List, [], ◌∷◌, ◌++◌, Bool, Option, none, some, ℤ, if◌then◌else◌, codes_eq,
}

abbrev pub Bytes : Type 0
Bytes = List ℕ

pub record ListItem : Type 0 where
  pub namespace : Bytes
  pub name : Bytes
  pub health : Bytes
  pub issue : Bytes
  pub summary : Bytes
  pub health_score : ℤ
  pub desired : ℤ

pub record Suggestion : Type 0 where
  pub title : Bytes
  pub patch : Bytes
  pub apply : Bool

-- The parts of a status report that the wizard reads.
pub record StatusReport : Type 0 where
  pub meta_namespace : Bytes
  pub meta_name : Bytes
  pub suggestions : List Suggestion

pub data ViewMode : Type 0 where
  list_view detail_view help_view metrics_view fix_view overview_view : ViewMode

pub data SortField : Type 0 where
  unsorted by_name by_namespace by_health_score by_issue : SortField

pub data FixError (E : Type 0) : Type 0 where
  disabled unavailable no_patch advisory : FixError E
  gone replaced : Bytes → FixError E
  external : E → FixError E

pub data DryRunText (E : Type 0) : Type 0 where
  no_result no_patch_text advisory_text unavailable_text validating : DryRunText E
  refused : FixError E → DryRunText E
  validation_failed : E → DryRunText E
  validation_passed : Bytes → DryRunText E

-- fixState.
pub record FixState (E : Type 0) : Type 0 where
  pub namespace : Bytes
  pub name : Bytes
  pub uid : Bytes
  pub suggestions : List Suggestion
  pub selected : ℤ
  pub apply_confirm : Bool
  pub applied : Bool
  pub apply_err : Option (FixError E)
  pub dry_run_result : DryRunText E

pub data Status (E : Type 0) : Type 0 where
  no_status : Status E
  closed : FixError E → Status E
  closed_gone closed_without_suggestions : Bytes → Status E
  batch_failed : Bytes → E → Status E
  batch_done : Bytes → Status E

pub data ModelError (E : Type 0) : Type 0 where
  fetch_failed : E → ModelError E
  no_suggestions nothing_selected apply_disabled : ModelError E
  no_patches : ℕ → ModelError E

pub record Options : Type 0 where
  pub initial_name : Bytes
  pub initial_ns : Bytes
  pub start_in_detail : Bool
  pub can_apply : Bool
  pub can_dry_run : Bool

-- batchApplyPatchEntry.
pub record PatchEntry : Type 0 where
  pub entry_namespace : Bytes
  pub entry_name : Bytes
  pub suggestion : Suggestion

pub record Model (E : Type 0) : Type 0 where
  pub opts : Options
  pub items : List ListItem
  pub reports : Bytes → Option StatusReport
  pub hpa_uids : Bytes → Bytes
  pub cursor : ℤ
  pub view_mode : ViewMode
  pub help_return_view : ViewMode
  pub paused : Bool
  pub filter : Bytes
  pub filter_input : Bytes
  pub filtering : Bool
  pub interval : ℕ
  pub error : Option (ModelError E)
  pub loading : Bool
  pub fetch_request_id : ℕ
  pub fix_epoch : ℕ
  pub sort_field : SortField
  pub sort_descending : Bool
  pub marked : List (Bytes × Bool)
  pub initial_focused : Bool
  pub status_message : Status E
  pub batch_apply_confirm : Bool
  pub batch_apply_preview : List PatchEntry
  pub fix_state : Option (FixState E)
  pub replica_history : List (Bytes × List ℤ)

-- fetchResultMsg.
pub record FetchResult (E : Type 0) : Type 0 where
  pub request_id : ℕ
  pub fetched_items : List ListItem
  pub fetched_reports : Bytes → Option StatusReport
  pub fetched_uids : Bytes → Bytes
  pub fetch_error : Option E

pub data Key : Type 0 where
  quit_key up_key down_key enter_key escape_key refresh_key pause_key filter_key help_key : Key
  sort_key jump_problem_key metrics_key toggle_select_key select_all_key deselect_all_key : Key
  overview_key fix_key batch_apply_key interval_faster_key interval_slower_key dry_run_key : Key

pub data Message (E : Type 0) : Type 0 where
  key : Key → Message E
  tick : Message E
  fetch_result : FetchResult E → Message E
  apply_result : ℕ → Bytes → Option E → Message E
  dry_run_outcome : ℕ → Bytes → Option E → Message E
  batch_apply_result : Bytes → Option E → Message E

-- What the dashboard asks the runtime to do. The calls of the API server carry what they send.
pub data Cmd : Type 0 where
  no_cmd quit_cmd : Cmd
  fetch_cmd tick_cmd : ℕ → Cmd
  fetch_and_tick : ℕ → ℕ → Cmd
  apply_fix_cmd dry_run_cmd : ℕ → Bytes → Bytes → Suggestion → Cmd
  apply_batch_cmd : List PatchEntry → Cmd

-- The key "namespace/name".
unfoldable pub item_key : Bytes → Bytes → Bytes
item_key namespace name = namespace ++ (b'/' ∷ name)

-- A map as an association list.
module _ {V : Type 0} where
  unfoldable pub lookup_key : Bytes → List (Bytes × V) → Option V
  lookup_key k [] = none
  lookup_key k ((j, v) ∷ entries) = if codes_eq j k then some v else lookup_key k entries

  unfoldable pub set_key : Bytes → V → List (Bytes × V) → List (Bytes × V)
  set_key k v [] = (k, v) ∷ []
  set_key k v ((j, w) ∷ entries) =
      if codes_eq j k then (j, v) ∷ entries else (j, w) ∷ set_key k v entries

  -- The entries whose key passes the test, the others being deleted.
  unfoldable pub keep_keys : (Bytes → Bool) → List (Bytes × V) → List (Bytes × V)
  keep_keys p [] = []
  keep_keys p ((j, v) ∷ entries) = if p j then (j, v) ∷ keep_keys p entries else keep_keys p entries
