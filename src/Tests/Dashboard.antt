-- ===== src/Tests/Dashboard.antt =====
-- The dashboard: a run of the fix wizard, and its lists.
use kubectl_hpa_status.Prelude.{
  codes_eq, to_lower, ℕ, List, [], ◌∷◌, Bool, true, false, none, some, ℤ, pos, ◌≡◌, ◌↔◌, inl, refl,
  arith,
}
use kubectl_hpa_status.Tui.State
use kubectl_hpa_status.Tui.State.{
  Bytes, ListItem, Suggestion, StatusReport, PatchEntry, Model, Key, Message, Cmd, FixState,
}
use kubectl_hpa_status.Tui.Search.{contains_ignore_case, OccursIn, contains_ignore_case_iff}
use kubectl_hpa_status.Tui.Batch.{group_patches}
use kubectl_hpa_status.Tui.Groups.{IsGrouped, sent_to, meant_for, group_patches_lem}
use kubectl_hpa_status.Tui.Update.{update}
use kubectl_hpa_status.Tui.Invariant.{IsValid, IsSafe}
use kubectl_hpa_status.Tui.Valid.{update-IsSafe}
use kubectl_hpa_status.Tui.Approved.{Targets, AllowsStep, update-Allows}
use kubectl_hpa_status.Tui.Runs.{step, here, after, ConfirmedOn, live_apply-ConfirmedOn}

-- "Web" and "e".
abbrev web_name : Bytes
web_name = b'W' ∷ b'e' ∷ b'b' ∷ []

contains_ignore_case_iff_example :
    (contains_ignore_case web_name (b'E' ∷ []) ≡ true) ↔ OccursIn (b'E' ∷ []) web_name
contains_ignore_case_iff_example = contains_ignore_case_iff web_name (b'E' ∷ [])

contains_e : contains_ignore_case web_name (b'E' ∷ []) ≡ true
unfolding contains_ignore_case to_lower
contains_e = refl

abbrev raise_max : Suggestion
raise_max = record { title = b'r' ∷ []; patch = b'{' ∷ b'}' ∷ []; apply = true }

abbrev prod : Bytes
prod = b'p' ∷ []

abbrev entry : Bytes → PatchEntry
entry name = record { entry_namespace = prod; entry_name = name; suggestion = raise_max }

abbrev entries : List PatchEntry
entries = entry web_name ∷ entry prod ∷ entry web_name ∷ []

group_patches_lem_example :
    IsGrouped (group_patches entries [])
    × ((k : Bytes) → sent_to k (group_patches entries []) ≡ meant_for k entries)
group_patches_lem_example = group_patches_lem entries

abbrev web_item : ListItem
web_item = record {
  namespace = prod;
  name = web_name;
  health = [];
  issue = [];
  summary = [];
  health_score = pos 60;
  desired = pos 3;
}

abbrev web_report : StatusReport
web_report = record { meta_namespace = prod; meta_name = web_name; suggestions = raise_max ∷ [] }

abbrev start_model : Model ℕ
start_model = record {
  opts = record {
    initial_name = [];
    initial_ns = [];
    start_in_detail = true;
    can_apply = true;
    can_dry_run = true;
  };
  items = web_item ∷ [];
  reports = λ k. some web_report;
  hpa_uids = λ k. b'u' ∷ [];
  cursor = pos 0;
  view_mode = State.detail_view;
  help_return_view = State.list_view;
  paused = false;
  filter = [];
  filter_input = [];
  filtering = false;
  interval = 5000000000;
  error = none;
  loading = false;
  fetch_request_id = 1;
  fix_epoch = 0;
  sort_field = State.unsorted;
  sort_descending = false;
  marked = [];
  initial_focused = true;
  status_message = State.no_status;
  batch_apply_confirm = false;
  batch_apply_preview = [];
  fix_state = none;
  replica_history = [];
}

abbrev keep_order : (ListItem → ListItem → ℤ) → List ListItem → List ListItem
keep_order compare items = items

abbrev keep_keys_order : List Bytes → List Bytes
keep_keys_order keys = keys

abbrev typed : Key → Bytes → Bytes
typed k text = text

abbrev wizard : Bool → ℤ → FixState ℕ
wizard armed selected = record {
  namespace = prod;
  name = web_name;
  uid = b'u' ∷ [];
  suggestions = raise_max ∷ [];
  selected = selected;
  apply_confirm = armed;
  applied = false;
  apply_err = none;
  dry_run_result = State.no_result;
}

abbrev opened : Bool → Model ℕ
opened armed = record start_model {
  fix_epoch = 1;
  fix_state = some (wizard armed (pos 0));
  view_mode = State.fix_view;
}

abbrev ok_text : Bytes
ok_text = b'O' ∷ b'K' ∷ []

start_model-IsValid : IsValid keep_keys_order start_model
start_model-IsValid = ((omega arith, inl refl), tt, inl refl)

open_wizard :
    step keep_order keep_keys_order ok_text typed (Message.key Key.fix_key) start_model
    ≡ some (opened false, State.no_cmd)
unfolding update codes_eq
open_wizard = refl

confirm :
    step keep_order keep_keys_order ok_text typed (Message.key Key.enter_key) (opened false)
    ≡ some (opened true, State.no_cmd)
unfolding update
confirm = refl

send :
    step keep_order keep_keys_order ok_text typed (Message.key Key.enter_key) (opened true)
    ≡ some (opened false, State.apply_fix_cmd 1 prod web_name raise_max)
unfolding update codes_eq
send = refl

live_apply-ConfirmedOn_example :
    (t : FixState ℕ) × Targets keep_keys_order (opened true) t 1 prod web_name raise_max
    × ConfirmedOn keep_order keep_keys_order ok_text typed start_model (opened true) t
live_apply-ConfirmedOn_example =
    live_apply-ConfirmedOn keep_order keep_keys_order ok_text typed start_model (opened true)
      (opened false) (Message.key Key.enter_key) 1 prod web_name raise_max start_model-IsValid refl
      (after (after here (Message.key Key.fix_key) open_wizard) (Message.key Key.enter_key) confirm)
      send

update-IsSafe_example :
    IsSafe keep_keys_order
      (update keep_order keep_keys_order ok_text typed (Message.key Key.fix_key) start_model)
update-IsSafe_example =
    update-IsSafe keep_order keep_keys_order ok_text typed (Message.key Key.fix_key) start_model
      start_model-IsValid

update-Allows_example :
    AllowsStep keep_keys_order
      (opened true)
      (update keep_order keep_keys_order ok_text typed (Message.key Key.enter_key) (opened true))
update-Allows_example =
    update-Allows keep_keys_order keep_order ok_text typed (Message.key Key.enter_key) (opened true)
      (inl refl)
