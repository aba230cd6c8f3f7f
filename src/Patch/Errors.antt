-- ===== src/Patch/Errors.antt =====
-- Which lists of patches MergePatches refuses.
use kubectl_hpa_status.Prelude.{List, [], ◌∷◌, Option, none, some, String, ◌≡◌, ◌⊎◌, ap}
use kubectl_hpa_status.Patch.Json.{Fields}
use kubectl_hpa_status.Patch.Merge.{Patch, continue_with}

pub continue_none :
    (o : Option Fields) (k : Fields → Option Fields) {m : Fields}
    → o ≡ none
    → continue_with o k ≡ some m
    → ⊥
continue_none o k e h = cc (ap (λ x. continue_with x k) e)

module _ (unmarshal : String → Option Fields) (marshal : Fields → Option String) where
  -- Some patch is no JSON object.
  abbrev pub SomeInvalid : List Patch → Type 0
  SomeInvalid [] = ⊥
  SomeInvalid (p ∷ ps) = (unmarshal p.json ≡ none) ⊎ SomeInvalid ps
