-- ===== src/Patch/Merge.antt =====
-- DeepMerge and MergePatches of internal/patch/merge.go. Go ranges over the keys of a map in an open
-- order, each once; here `b` is read from its first pair to its last.
-- json.Unmarshal into a map and json.Marshal are the arguments `unmarshal` and `marshal`; `none` is
-- their error.
use kubectl_hpa_status.Prelude.{List, [], ◌∷◌, Option, none, some, String}
use kubectl_hpa_status.Patch.Json.{Json, object, Fields, empty, field, lookup, set}

-- `deep_merge` copies `a` and merges each key of `b` into the copy. `merge_value` is the loop's body:
-- the value that a key gets from what the result holds under it and from the value in `b`.
unfoldable mutual
  unfolding lookup set

  pub deep_merge : Fields → Fields → Fields
  deep_merge result empty = result
  deep_merge result (field k v b) = deep_merge (set k (merge_value (lookup k result) v) result) b

  pub merge_value : Option Json → Json → Json
  merge_value (some (object a)) (object b) = object (deep_merge a b)
  merge_value existing v = v

-- The loop over the keys of one parsed patch.
unfoldable pub merge_parsed : Fields → Fields → Fields
merge_parsed merged empty = merged
merge_parsed merged (field k v parsed) =
    merge_parsed (set k (merge_value (lookup k merged) v) merged) parsed

pub record Patch : Type 0 where
  pub title : String
  pub json : String

abbrev pub continue_with : Option Fields → (Fields → Option Fields) → Option Fields
continue_with none continue = none
continue_with (some parsed) continue = continue parsed

abbrev pub marshal_result : (Fields → Option String) → Option Fields → Option String
marshal_result marshal none = none
marshal_result marshal (some merged) = marshal merged

module _ (unmarshal : String → Option Fields) (marshal : Fields → Option String) where
  unfoldable pub merge_loop : Fields → List Patch → Option Fields
  merge_loop merged [] = some merged
  merge_loop merged (p ∷ ps) =
      continue_with (unmarshal p.json) (λ parsed. merge_loop (merge_parsed merged parsed) ps)

  unfoldable pub merge_patches : List Patch → Option String
  merge_patches [] = some "{}"
  merge_patches (p ∷ []) = some p.json
  merge_patches (p ∷ q ∷ ps) = marshal_result marshal (merge_loop empty (p ∷ q ∷ ps))
