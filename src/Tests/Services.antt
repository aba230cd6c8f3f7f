-- ===== src/Tests/Services.antt =====
-- The retries, the paging and the patches.
use kubectl_hpa_status.Prelude.{
  ℕ, ◌+◌, List, [], ◌∷◌, Bool, true, false, Option, none, some, String, str_eq, ◌≡◌, ◌≢◌, inl, refl,
  ap, subst, arith, length, if◌then◌else◌,
}
use kubectl_hpa_status.Kube.Retry.{
  is_transient, retry_loop, Outcome, ok, failed, retry_transient, retry_loop, continue_after,
}
use kubectl_hpa_status.Kube.RetryLaws.{counted, counted_cancelled, GivesUp}
use kubectl_hpa_status.Kube.Pages.{
  is_seen, follow, visit_loop, ListPage, repeated_token, out_of_fuel, visit_list_pages, is_seen,
}
use kubectl_hpa_status.Kube.PagesLaws.{DrawsFrom, visit_list_pages-ends}
use kubectl_hpa_status.Patch.Json.{object, Fields, empty, lookup}
use kubectl_hpa_status.Patch.Merge.{merge_loop, Patch, merge_patches}
use kubectl_hpa_status.Patch.Leaves.{KeysOnce, DecodesOnce, value_at, patched, merge_patches-lookup}
use kubectl_hpa_status.Tests.Samples.{by_status, replicas, parse_sample, print_sample}

-- A server that is never available.
abbrev unavailable : ℕ → Outcome ℕ ℕ × ℕ
unavailable s = (failed 503, s)

abbrev patient : ℕ → Bool
patient s = false

gives_up :
    GivesUp by_status unavailable patient 499
      (retry_transient by_status
        (counted by_status unavailable patient 499)
        (counted_cancelled by_status unavailable patient 499)
        499
        (0, 0)).0
unfolding retry_transient retry_loop is_transient
gives_up = refl

-- A server with two pages, whose second page leads back to itself.
abbrev looping : String → ℕ → Outcome ℕ (ListPage ℕ) × ℕ
looping token s = (ok (record { items = 1 ∷ []; next = "next" }), s)

abbrev gather : List ℕ → ℕ → Option ℕ × ℕ
gather items s = (none, s + length items)

abbrev token_of : Outcome ℕ (ListPage ℕ) → String
token_of (ok page) = page.next
token_of (failed e) = ""

looping_draws : DrawsFrom by_status patient 499 looping gather ("next" ∷ [])
unfolding retry_transient retry_loop continue_after is_seen
looping_draws token s page h =
    inl (subst (λ t. is_seen t ("next" ∷ []) ≡ true) (ap token_of h) refl)

visit_list_pages-ends_example :
    (visit_list_pages by_status patient 499 looping gather 2 0).0 ≢ out_of_fuel
visit_list_pages-ends_example =
    visit_list_pages-ends by_status patient 499 looping gather ("next" ∷ []) looping_draws 2 0
      (omega arith)

visit_looping : (visit_list_pages by_status patient 499 looping gather 2 0) ≡ (repeated_token, 2)
unfolding visit_list_pages visit_loop retry_transient retry_loop follow is_seen
visit_looping = refl

abbrev patch : String → Patch
patch json = record { title = "raise"; json = json }

merged_ab : merge_patches parse_sample print_sample (patch "a" ∷ patch "b" ∷ []) ≡ some "printed"
unfolding merge_patches merge_loop
merged_ab = refl

abbrev or_empty : Option Fields → Fields
or_empty none = empty
or_empty (some m) = m

sample_KeysOnce :
    (a b : Bool)
    → KeysOnce
        (or_empty (if a then some (replicas "5") else if b then some (replicas "9") else none))
unfolding lookup KeysOnce
sample_KeysOnce true b = (refl, (refl, tt, tt), tt)
sample_KeysOnce false true = (refl, (refl, tt, tt), tt)
sample_KeysOnce false false = tt

decodes : DecodesOnce parse_sample print_sample
decodes s m h = subst KeysOnce (ap or_empty h) (sample_KeysOnce (str_eq s "a") (str_eq s "b"))

merge_patches-lookup_example :
    (m : Fields) × (print_sample m ≡ some "printed")
    × ((path : List String)
        → value_at path (some (object m))
          ≡ patched parse_sample print_sample path none (patch "a" ∷ patch "b" ∷ []))
merge_patches-lookup_example =
    merge_patches-lookup parse_sample print_sample decodes (patch "a") (patch "b") [] "printed"
      merged_ab
