-- ===== src/Command/ExitCode.antt =====
-- cmd/exitcode.go. An error is a tree: fmt's %w wraps one error, errors.Join several. The texts that the
-- program writes are constructors with the values shown.
use kubectl_hpa_status.Prelude.{
  ℕ, ℤ, pos, Bool, true, false, ◌||◌, Option, none, some, String, if◌then◌else◌,
}
use kubectl_hpa_status.Health.Score.{
  HealthState, ok, warning, error, limited, stabilized, unrecognised,
}

abbrev pub exit_success : ℤ
exit_success = pos 0

abbrev pub exit_error : ℤ
exit_error = pos 1

abbrev pub exit_warning : ℤ
exit_warning = pos 2

abbrev pub exit_not_found : ℤ
exit_not_found = pos 3

pub data CommandError : Type 0 where
  hpa_not_found : CommandError
  other : String → CommandError
  health_is : String → String → HealthState → CommandError
  could_not_report : ℕ → ℕ → CommandError
  exit_code_error : ℤ → CommandError → CommandError
  wrapped : CommandError → CommandError
  joined : CommandError → CommandError → CommandError

abbrev or_code : Option ℤ → Option ℤ → Option ℤ
or_code none c = c
or_code (some n) c = some n

-- errors.As for an ExitCodeError: the first one in the tree.
unfoldable pub as_exit_code : CommandError → Option ℤ
as_exit_code hpa_not_found = none
as_exit_code (other s) = none
as_exit_code (health_is namespace name health) = none
as_exit_code (could_not_report failed total) = none
as_exit_code (exit_code_error code e) = some code
as_exit_code (wrapped e) = as_exit_code e
as_exit_code (joined e f) = or_code (as_exit_code e) (as_exit_code f)

-- errors.Is for ErrHPANotFound.
unfoldable pub is_not_found : CommandError → Bool
is_not_found hpa_not_found = true
is_not_found (other s) = false
is_not_found (health_is namespace name health) = false
is_not_found (could_not_report failed total) = false
is_not_found (exit_code_error code e) = is_not_found e
is_not_found (wrapped e) = is_not_found e
is_not_found (joined e f) = is_not_found e || is_not_found f

abbrev code_or : Option ℤ → Bool → ℤ × Bool
code_or (some code) found = (code, true)
code_or none found = if found then (exit_not_found, true) else (exit_error, false)

-- A nil error is `none`.
unfoldable pub classify_error : Option CommandError → ℤ × Bool
unfolding as_exit_code is_not_found
classify_error none = (exit_success, true)
classify_error (some e) = code_or (as_exit_code e) (is_not_found e)

unfoldable pub exit_code_for_error : Option CommandError → ℤ
unfolding classify_error
exit_code_for_error e = (classify_error e).0

unfoldable pub exit_code_for_main : Option CommandError → ℤ
unfolding exit_code_for_error
exit_code_for_main none = exit_success
exit_code_for_main (some e) = exit_code_for_error (some e)

-- healthIsWarning
unfoldable pub health_is_warning : HealthState → Bool
health_is_warning error = true
health_is_warning limited = true
health_is_warning warning = true
health_is_warning ok = false
health_is_warning stabilized = false
health_is_warning (unrecognised s) = false

unfoldable pub warning_exit_code : HealthState → String → String → Bool → Option CommandError
unfolding health_is_warning
warning_exit_code health name namespace watch_mode =
    if watch_mode
    then none
    else if health_is_warning health
    then some (exit_code_error exit_warning (health_is namespace name health))
    else none

-- joinOutputAndExit
unfoldable pub join_output_and_exit :
    Option CommandError → Option CommandError → Option CommandError
join_output_and_exit (some output_error) exit = some output_error
join_output_and_exit none exit = exit
