-- ===== src/Kube/PagesLaws.antt =====
-- A walk ends: if the server draws its tokens from a finite stock, as many pages as tokens suffice.
use kubectl_hpa_status.Prelude.{
  ℕ, zero, suc, ◌+◌, ◌≤◌, ◌<◌, List, [], ◌∷◌, Bool, true, false, String, str_eq, str_eq_iff, Option,
  none, some, length, arith, ◌≡◌, ◌≢◌, ◌⊎◌, inl, inr, refl, Bool-cases, if◌then◌else◌,
}
use kubectl_hpa_status.Kube.Retry.{ApiErrors, Outcome, ok, failed, retry_transient}
use kubectl_hpa_status.Kube.Pages.{
  ListPage, WalkEnd, out_of_fuel, is_seen, follow, after_visit, after_list, visit_loop,
  visit_list_pages,
}

-- How many tokens of the stock were not followed yet.
unseen : List String → List String → ℕ
unseen [] seen = 0
unseen (t ∷ stock) seen = (if is_seen t seen then 0 else 1) + unseen stock seen

unseen-le : (stock seen : List String) (t : String) → unseen stock (t ∷ seen) ≤ unseen stock seen
unfolding unseen is_seen
unseen-le [] seen t = omega arith
unseen-le (x ∷ stock) seen t = ground (arith, unseen-le stock seen t)

unseen-lt :
    (stock seen : List String) (t : String)
    → is_seen t stock ≡ true
    → is_seen t seen ≡ false
    → unseen stock (t ∷ seen) < unseen stock seen
unfolding unseen is_seen
unseen-lt [] seen t h k = cc
unseen-lt (x ∷ stock) seen t h k =
    ground (arith, unseen-lt stock seen t, unseen-le stock seen t, str_eq_iff x t, str_eq_iff t x)

unseen-nil : (stock : List String) → unseen stock [] ≡ length stock
unfolding unseen is_seen
unseen-nil [] = refl
unseen-nil (x ∷ stock) = omega (arith, unseen-nil stock)

module _ {E S A : Type 0} (errors : ApiErrors E) (cancelled : S → Bool) (context_error : E)
    (list : String → S → Outcome E (ListPage A) × S) (visit : List A → S → Option E × S)
    (stock : List String) where
  -- Every token that a page carries is in the stock, or is the empty one of the last page.
  abbrev pub DrawsFrom : Type 0
  DrawsFrom =
      (token : String) (s : S) (page : ListPage A)
      → (retry_transient errors (list token) cancelled context_error s).0 ≡ ok page
      → (is_seen page.next stock ≡ true) ⊎ (page.next ≡ "")

  abbrev Loop : Type 0
  Loop = String → List String → S → WalkEnd E × S

  -- A walk from any token with the stock's unseen tokens below `fuel` ends.
  abbrev Ends : ℕ → Loop → Type 0
  Ends fuel walk =
      (token : String) (seen : List String) (s : S)
      → unseen stock seen < fuel
      → (walk token seen s).0 ≢ out_of_fuel

  follow-Ends :
      (fuel : ℕ) (walk : Loop) (next : String) (seen : List String) (s : S)
      → Ends fuel walk
      → unseen stock seen < suc fuel
      → (is_seen next stock ≡ true) ⊎ (next ≡ "")
      → (follow errors cancelled context_error list visit walk next seen s).0 ≢ out_of_fuel
  unfolding follow
  follow-Ends fuel walk next seen s ends h d = elim (Bool-cases (str_eq next "")) [
    | inl e ↦ rw e (λ x. cc)
    | inr e ↦ elim (Bool-cases (is_seen next seen)) [
      | inl f ↦ rw (e, f) (λ x. cc)
      | inr f ↦
          rw (e, f)
            (ends next (next ∷ seen) s (
              fewer (elim d [ inl m ↦ m | inr z ↦ absurd (ground (arith, str_eq_iff next "")) ]) f))
    ]
  ]
    where
      fewer :
          is_seen next stock ≡ true → is_seen next seen ≡ false → unseen stock (next ∷ seen) < fuel
      fewer m f = omega (arith, unseen-lt stock seen next m f)

  listed-Ends :
      (fuel : ℕ) (walk : Loop) (seen : List String) (o : Outcome E (ListPage A) × S)
      → Ends fuel walk
      → unseen stock seen < suc fuel
      → ((page : ListPage A) → o.0 ≡ ok page → (is_seen page.next stock ≡ true) ⊎ (page.next ≡ ""))
      → (after_list errors cancelled context_error list visit walk seen o).0 ≢ out_of_fuel
  listed-Ends fuel walk seen (failed e, t) ends h d = λ x. cc
  listed-Ends fuel walk seen (ok page, t) ends h d = visited (visit page.items t)
    where
      visited :
          (o : Option E × S)
          → (after_visit errors cancelled context_error list visit walk page.next seen o).0
            ≢ out_of_fuel
      visited (some e, u) = λ x. cc
      visited (none, u) = follow-Ends fuel walk page.next seen u ends h (d page refl)

  visit_loop-Ends :
      DrawsFrom → (fuel : ℕ) → Ends fuel (visit_loop errors cancelled context_error list visit fuel)
  unfolding visit_loop
  visit_loop-Ends draws zero token seen s h = absurd (omega arith)
  visit_loop-Ends draws (suc fuel) token seen s h =
      listed-Ends fuel (visit_loop errors cancelled context_error list visit fuel) seen
        (retry_transient errors (list token) cancelled context_error s) (visit_loop-Ends draws fuel)
        h (draws token s)

  -- If all tokens of the server come from a stock of n tokens, a walk ends after at most n + 1 pages,
  -- whatever the server and the visitor do: the guard against repeated tokens excludes a loop.
  pub visit_list_pages-ends :
      DrawsFrom
      → (fuel : ℕ) (s : S) → length stock < fuel
      → (visit_list_pages errors cancelled context_error list visit fuel s).0 ≢ out_of_fuel
  unfolding visit_list_pages
  visit_list_pages-ends draws fuel s h =
      visit_loop-Ends draws fuel "" [] s (omega (arith, unseen-nil stock))
