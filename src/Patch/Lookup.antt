-- ===== src/Patch/Lookup.antt =====
-- What a merge holds under each key.
use kubectl_hpa_status.Prelude.{
  true, false, Option, none, some, String, str_eq, str_eq_iff, arith, ◌≡◌, ◌⊎◌, refl, ◌∙◌,
  Bool-cases, inl, inr, if◌then◌else◌,
}
use kubectl_hpa_status.Patch.Json.{Json, Fields, empty, field, lookup, set}
use kubectl_hpa_status.Patch.Merge.{deep_merge, merge_value, merge_parsed}

pub lookup-set :
    (k j : String) (v : Json) (m : Fields)
    → lookup j (set k v m) ≡ (if str_eq k j then some v else lookup j m)
unfolding lookup set
lookup-set k j v empty = refl
lookup-set k j v (field i w m) =
    ground (arith, str_eq_iff k j, str_eq_iff i k, str_eq_iff i j, lookup-set k j v m)

-- Go's maps hold a key once.
abbrev pub Distinct : Fields → Type 0
Distinct empty = Unit
Distinct (field k v m) = (lookup k m ≡ none) × Distinct m

-- What a key holds after a merge, from what it held in the two maps.
abbrev pub merged_value : Option Json → Option Json → Option Json
merged_value existing none = existing
merged_value existing (some v) = some (merge_value existing v)

-- Under every key a merge holds what the two maps hold under it, merged: a key of one map alone keeps
-- its value, two objects are merged in turn, and otherwise the second value wins.
pub lookup-deep_merge :
    (k : String) (a b : Fields)
    → Distinct b
    → lookup k (deep_merge a b) ≡ merged_value (lookup k a) (lookup k b)
unfolding deep_merge lookup
lookup-deep_merge k a empty d = refl
lookup-deep_merge k a (field j v b) d =
    lookup-deep_merge k (set j (merge_value (lookup j a) v) a) b d.1
    ∙ rw lookup-set (pointwise (Bool-cases (str_eq j k)))
  where
    same_key :
        j ≡ k
        → merged_value (some (merge_value (lookup j a) v)) (lookup k b)
          ≡ some (merge_value (lookup k a) v)
    same_key e = rw (← e, d.0)

    pointwise :
        (str_eq j k ≡ true) ⊎ (str_eq j k ≡ false)
        → merged_value
            (if str_eq j k then some (merge_value (lookup j a) v) else lookup k a)
            (lookup k b)
          ≡ merged_value (lookup k a) (if str_eq j k then some v else lookup k b)
    pointwise (inl e) = rw e (same_key ((str_eq_iff j k).0 e))
    pointwise (inr e) = rw e

-- The loop of MergePatches repeats the loop of DeepMerge.
pub merge_parsed-eq-deep_merge : (a b : Fields) → merge_parsed a b ≡ deep_merge a b
unfolding merge_parsed deep_merge
merge_parsed-eq-deep_merge a empty = refl
merge_parsed-eq-deep_merge a (field k v b) =
    merge_parsed-eq-deep_merge (set k (merge_value (lookup k a) v) a) b

Distinct-set : (k : String) (v : Json) (m : Fields) → Distinct m → Distinct (set k v m)
unfolding set lookup
Distinct-set k v empty d = (refl, tt)
Distinct-set k v (field j w m) d = elim (Bool-cases (str_eq j k)) [
  | inl e ↦ rw e d
  | inr e ↦ rw e (rw lookup-set (other_key e), Distinct-set k v m d.1)
]
  where
    other_key : str_eq j k ≡ false → (if str_eq k j then some v else lookup j m) ≡ none
    other_key e = ground (arith, str_eq_iff k j, str_eq_iff j k, d.0)

-- Merging keeps the keys of a map distinct.
pub deep_merge-Distinct : (a b : Fields) → Distinct a → Distinct (deep_merge a b)
unfolding deep_merge
deep_merge-Distinct a empty d = d
deep_merge-Distinct a (field k v b) d =
    deep_merge-Distinct (set k (merge_value (lookup k a) v) a) b
      (Distinct-set k (merge_value (lookup k a) v) a d)
