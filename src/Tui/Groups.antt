-- ===== src/Tui/Groups.antt =====
-- The groups of a batch (executeBatchApply of internal/tui/update_batch.go): one for each object.
use kubectl_hpa_status.Prelude.{
  List, [], ◌∷◌, ◌++◌, Bool, true, false, ◌||◌, codes_eq, codes_eq_iff, if◌then◌else◌, ◌≡◌, refl,
  sym, subst, ap, ◌∙◌, inl, inr, Bool-cases,
}
use kubectl_hpa_status.Tui.State.{Bytes, Suggestion, PatchEntry, item_key}
use kubectl_hpa_status.Tui.Batch.{PatchGroup, add_patch, group_patches}

abbrev key_of : PatchEntry → Bytes
key_of p = item_key p.entry_namespace p.entry_name

-- The suggestions that the groups send to an object, and those that the patches have for it.
abbrev pub sent_to : Bytes → List (Bytes × PatchGroup) → List Suggestion
sent_to k [] = []
sent_to k ((j, g) ∷ groups) =
    if codes_eq j k then g.group_suggestions ++ sent_to k groups else sent_to k groups

abbrev pub meant_for : Bytes → List PatchEntry → List Suggestion
meant_for k [] = []
meant_for k (p ∷ patches) =
    if codes_eq (key_of p) k then p.suggestion ∷ meant_for k patches else meant_for k patches

abbrev has_group : Bytes → List (Bytes × PatchGroup) → Bool
has_group k [] = false
has_group k ((j, g) ∷ groups) = codes_eq j k || has_group k groups

-- No object has two groups, and each group names its object.
abbrev pub IsGrouped : List (Bytes × PatchGroup) → Type 0
IsGrouped [] = Unit
IsGrouped ((k, g) ∷ groups) =
    (has_group k groups ≡ false) × (k ≡ item_key g.group_namespace g.group_name) × IsGrouped groups

append_assoc : {A : Type 0} (xs ys zs : List A) → (xs ++ ys) ++ zs ≡ xs ++ (ys ++ zs)
append_assoc [] ys zs = refl
append_assoc (x ∷ xs) ys zs = ap (λ r. x ∷ r) (append_assoc xs ys zs)

append_nil : {A : Type 0} (xs : List A) → xs ++ [] ≡ xs
append_nil [] = refl
append_nil (x ∷ xs) = ap (λ r. x ∷ r) (append_nil xs)

has_group-add_patch :
    (k : Bytes) (p : PatchEntry) (groups : List (Bytes × PatchGroup))
    → codes_eq (key_of p) k ≡ false
    → has_group k groups ≡ false
    → has_group k (add_patch p groups) ≡ false
unfolding add_patch
has_group-add_patch k p [] e h = rw e refl
has_group-add_patch k p ((j, g) ∷ groups) e h = elim (Bool-cases (codes_eq j k)) [
  | inl q ↦ cc (rw q at h)
  | inr q ↦ elim (Bool-cases (codes_eq j (key_of p))) [
    | inl r ↦ rw (r, q) (rw q at h)
    | inr r ↦ rw (r, q) (has_group-add_patch k p groups e (rw q at h))
  ]
]

codes_eq-flip : (s t : Bytes) → codes_eq s t ≡ false → codes_eq t s ≡ false
codes_eq-flip s t h = elim (Bool-cases (codes_eq t s)) [
  | inr q ↦ q
  | inl q ↦ cc (h, (codes_eq_iff s t).1 (sym ((codes_eq_iff t s).0 q)))
]

add_patch-IsGrouped :
    (p : PatchEntry) (groups : List (Bytes × PatchGroup))
    → IsGrouped groups
    → IsGrouped (add_patch p groups)
unfolding add_patch
add_patch-IsGrouped p [] h = (refl, refl, tt)
add_patch-IsGrouped p ((j, g) ∷ groups) (a, b, c) = elim (Bool-cases (codes_eq j (key_of p))) [
  | inl r ↦ rw r (a, b, c)
  | inr r ↦
      let other : codes_eq (key_of p) j ≡ false = codes_eq-flip j (key_of p) r in
      rw r (has_group-add_patch j p groups other a, b, add_patch-IsGrouped p groups c)
]

sent_to_absent :
    (k : Bytes) (groups : List (Bytes × PatchGroup))
    → has_group k groups ≡ false
    → sent_to k groups ≡ []
sent_to_absent k [] h = refl
sent_to_absent k ((j, g) ∷ groups) h = elim (Bool-cases (codes_eq j k)) [
  | inl q ↦ cc (rw q at h)
  | inr q ↦ rw q (sent_to_absent k groups (rw q at h))
]

sent_to-add_patch :
    (k : Bytes) (p : PatchEntry) (groups : List (Bytes × PatchGroup))
    → IsGrouped groups
    → sent_to k (add_patch p groups) ≡ sent_to k groups ++ meant_for k (p ∷ [])
unfolding add_patch
sent_to-add_patch k p [] h = refl
sent_to-add_patch k p ((j, g) ∷ groups) (a, b, c) = elim (Bool-cases (codes_eq j (key_of p))) [
  | inl r ↦
      let here : j ≡ key_of p = (codes_eq_iff j (key_of p)).0 r in
      elim (Bool-cases (codes_eq (key_of p) k)) [
        | inl q ↦
            let at_k : j ≡ k = here ∙ (codes_eq_iff (key_of p) k).0 q in
            let j_is : codes_eq j k ≡ true = (codes_eq_iff j k).1 at_k in
            let none_left : sent_to k groups ≡ [] =
              sent_to_absent k groups (subst (λ x. has_group x groups ≡ false) at_k a) in
            rw (r, q, j_is, none_left, append_nil g.group_suggestions)
              (append_nil (g.group_suggestions ++ (p.suggestion ∷ [])))
        | inr q ↦
            let j_is : codes_eq j k ≡ false = ap (λ x. codes_eq x k) here ∙ q in
            rw (r, q, j_is) (sym (append_nil (sent_to k groups)))
      ]
  | inr r ↦
      let ih = sent_to-add_patch k p groups c in
      elim (Bool-cases (codes_eq j k)) [
        | inl q ↦
            rw (r, q)
              (ap (λ x. g.group_suggestions ++ x) ih
                ∙ sym (append_assoc g.group_suggestions (sent_to k groups) (meant_for k (p ∷ []))))
        | inr q ↦ rw (r, q) ih
      ]
]

meant_for-cons :
    (k : Bytes) (p : PatchEntry) (patches : List PatchEntry)
    → meant_for k (p ∷ []) ++ meant_for k patches ≡ meant_for k (p ∷ patches)
meant_for-cons k p patches = elim (Bool-cases (codes_eq (key_of p) k)) [
  | inl q ↦ rw q refl
  | inr q ↦ rw q refl
]

group_patches_onto :
    (patches : List PatchEntry) (groups : List (Bytes × PatchGroup))
    → IsGrouped groups
    → IsGrouped (group_patches patches groups)
      × ((k : Bytes)
          → sent_to k (group_patches patches groups) ≡ sent_to k groups ++ meant_for k patches)
unfolding group_patches
group_patches_onto [] groups h = (h, λ k. sym (append_nil (sent_to k groups)))
group_patches_onto (p ∷ patches) groups h =
    let ih = group_patches_onto patches (add_patch p groups) (add_patch-IsGrouped p groups h) in
    (
      ih.0,
      λ k.
          ih.1 k
          ∙ ap (λ x. x ++ meant_for k patches) (sent_to-add_patch k p groups h)
          ∙ append_assoc (sent_to k groups) (meant_for k (p ∷ [])) (meant_for k patches)
          ∙ ap (λ x. sent_to k groups ++ x) (meant_for-cons k p patches),
    )

-- A batch makes one group for each object, and the groups send to every object exactly the patches
-- that are meant for it, in their order.
pub group_patches_lem :
    (patches : List PatchEntry)
    → IsGrouped (group_patches patches [])
      × ((k : Bytes) → sent_to k (group_patches patches []) ≡ meant_for k patches)
group_patches_lem patches = group_patches_onto patches [] tt
