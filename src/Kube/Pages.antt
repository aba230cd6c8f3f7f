-- ===== src/Kube/Pages.antt =====
-- internal/kube/pagination.go. `list` asks the API server for the page behind a continue token, and
-- `visit` takes a page's items; both act on a state of type S. The page size in the list options is
-- constant through a walk and is left out. The loop runs on fuel: one unit for each page.
use kubectl_hpa_status.Prelude.{
  ℕ, zero, suc, List, [], ◌∷◌, ◌++◌, Bool, false, ◌||◌, String, str_eq, Option, none, some,
  if◌then◌else◌,
}
use kubectl_hpa_status.Kube.Retry.{ApiErrors, Outcome, ok, failed, retry_transient}

pub record ListPage (A : Type 0) : Type 0 where
  pub items : List A
  pub next : String

-- How a walk ends: all pages visited, an error of the server or of the visitor, a token that came
-- back, or the fuel ran out.
pub data WalkEnd (E : Type 0) : Type 0 where
  done : WalkEnd E
  stopped : E → WalkEnd E
  repeated_token : WalkEnd E
  out_of_fuel : WalkEnd E

-- Whether a token was followed before.
unfoldable pub is_seen : String → List String → Bool
is_seen token [] = false
is_seen token (s ∷ seen) = str_eq s token || is_seen token seen

module _ {E S A : Type 0} (errors : ApiErrors E) (cancelled : S → Bool) (context_error : E)
    (list : String → S → Outcome E (ListPage A) × S) (visit : List A → S → Option E × S) where
  -- What follows the token of a visited page.
  unfoldable pub follow :
      (String → List String → S → WalkEnd E × S) → String → List String → S → WalkEnd E × S
  follow walk next seen s =
      if str_eq next ""
      then (done, s)
      else if is_seen next seen
      then (repeated_token, s)
      else walk next (next ∷ seen) s

  abbrev pub after_visit :
      (String → List String → S → WalkEnd E × S)
      → String
      → List String
      → Option E × S
      → WalkEnd E × S
  after_visit walk next seen (some e, s) = (stopped e, s)
  after_visit walk next seen (none, s) = follow walk next seen s

  abbrev pub after_list :
      (String → List String → S → WalkEnd E × S)
      → List String
      → Outcome E (ListPage A) × S
      → WalkEnd E × S
  after_list walk seen (failed e, s) = (stopped e, s)
  after_list walk seen (ok page, s) = after_visit walk page.next seen (visit page.items s)

  unfoldable pub visit_loop : ℕ → String → List String → S → WalkEnd E × S
  visit_loop zero token seen s = (out_of_fuel, s)
  visit_loop (suc fuel) token seen s =
      after_list (visit_loop fuel) seen
        (retry_transient errors (list token) cancelled context_error s)

  unfoldable pub visit_list_pages : ℕ → S → WalkEnd E × S
  visit_list_pages fuel s = visit_loop fuel "" [] s

module _ {E S A : Type 0} (errors : ApiErrors E) (cancelled : S → Bool) (context_error : E)
    (list : String → S → Outcome E (ListPage A) × S) where
  abbrev listing : String → S × List A → Outcome E (ListPage A) × (S × List A)
  listing token (s, all) = let (o, t) = list token s in (o, (t, all))

  -- The visitor of collectListPages appends the page's items to `all`.
  abbrev collecting : List A → S × List A → Option E × (S × List A)
  collecting items (s, all) = (none, (s, all ++ items))

  unfoldable pub collect_list_pages : ℕ → S → WalkEnd E × (S × List A)
  collect_list_pages fuel s =
      visit_list_pages errors (λ t. cancelled t.0) context_error listing collecting fuel (s, [])
