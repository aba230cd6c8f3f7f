-- ===== src/Patch/Leaves.antt =====
-- Which value a merged document holds at the end of a path of keys (internal/patch/merge.go).
use kubectl_hpa_status.Prelude.{
  List, [], ◌∷◌, Option, none, some, String, str_eq, ◌≡◌, refl, sym, ap, subst, ◌∙◌, Option-cases,
  Bool-cases, inl, inr,
}
use kubectl_hpa_status.Patch.Json.{
  Json, null, bool, scalar, array, object, Fields, empty, field, lookup,
}
use kubectl_hpa_status.Patch.Merge.{
  Patch, deep_merge, merge_value, merge_parsed, merge_loop, marshal_result, merge_patches,
}
use kubectl_hpa_status.Patch.Lookup.{
  Distinct, merged_value, lookup-deep_merge, merge_parsed-eq-deep_merge,
}
use kubectl_hpa_status.Patch.Errors.{continue_none}

-- A decoded document holds each key once, and so do the objects in it.
unfoldable mutual
  unfolding lookup

  pub KeysOnce : Fields → Type 0
  KeysOnce empty = Unit
  KeysOnce (field k v m) = (lookup k m ≡ none) × ValueOnce v × KeysOnce m

  pub ValueOnce : Json → Type 0
  ValueOnce (object m) = KeysOnce m
  ValueOnce null = Unit
  ValueOnce (bool b) = Unit
  ValueOnce (scalar s) = Unit
  ValueOnce (array items) = Unit

-- What a document says of a path of keys. It is silent where a key on the way is missing. Where the
-- path leads to a value that is no object, it sets that value. Where the path leads to an object, or a
-- value on the way is no object, there is no such value.
pub data Word : Type 0 where
  silent nothing : Word
  sets : Json → Word

abbrev pub end_word : Json → Word
end_word (object m) = nothing
end_word null = sets null
end_word (bool b) = sets (bool b)
end_word (scalar s) = sets (scalar s)
end_word (array items) = sets (array items)

unfoldable pub says : List String → Json → Word
unfolding lookup
says [] v = end_word v
says (k ∷ path) (object m) = elim (lookup k m) [ none ↦ silent | some v ↦ says path v ]
says (k ∷ path) null = nothing
says (k ∷ path) (bool b) = nothing
says (k ∷ path) (scalar s) = nothing
says (k ∷ path) (array items) = nothing

-- The value at a path after a document that says a word of it, from the value before.
abbrev pub heard : Option Json → Word → Option Json
heard before silent = before
heard before nothing = none
heard before (sets v) = some v

abbrev pub said : List String → Option Json → Word
said path none = silent
said path (some v) = says path v

-- The value that is no object at the end of a path.
abbrev pub value_at : List String → Option Json → Option Json
value_at path o = heard none (said path o)

says-object :
    (k : String) (path : List String) (m : Fields)
    → says (k ∷ path) (object m) ≡ said path (lookup k m)
unfolding says
says-object k path m = refl

KeysOnce-Distinct : (m : Fields) → KeysOnce m → Distinct m
unfolding KeysOnce
KeysOnce-Distinct empty h = tt
KeysOnce-Distinct (field k v m) h = (h.0, KeysOnce-Distinct m h.2)

ValueOnce-lookup :
    (k : String) (m : Fields) (v : Json) → KeysOnce m → lookup k m ≡ some v → ValueOnce v
unfolding lookup KeysOnce
ValueOnce-lookup k empty v h e = cc e
ValueOnce-lookup k (field j w m) v h e = elim (Bool-cases (str_eq j k)) [
  | inl p ↦ let here : some w ≡ some v = rw p at e in subst ValueOnce (some-injective here) h.1
  | inr p ↦ ValueOnce-lookup k m v h.2 (rw p at e)
]
  where
    some-injective : {a b : Json} → some a ≡ some b → a ≡ b
    some-injective h = cc h

-- A value that is no object replaces what was there.
abbrev Plain : Json → Type 0
Plain (object m) = ⊥
Plain v = Unit

merge_value-Plain : (e : Option Json) (v : Json) → Plain v → merge_value e v ≡ v
unfolding merge_value
merge_value-Plain none v h = refl
merge_value-Plain (some null) v h = refl
merge_value-Plain (some (bool b)) v h = refl
merge_value-Plain (some (scalar s)) v h = refl
merge_value-Plain (some (array items)) v h = refl
merge_value-Plain (some (object a)) (object b) h = absurd h
merge_value-Plain (some (object a)) null h = refl
merge_value-Plain (some (object a)) (bool b) h = refl
merge_value-Plain (some (object a)) (scalar s) h = refl
merge_value-Plain (some (object a)) (array items) h = refl

Plain-heard :
    (path : List String) (v : Json) (before after : Option Json)
    → Plain v
    → heard before (says path v) ≡ heard after (says path v)
unfolding says
Plain-heard path (object m) before after h = absurd h
Plain-heard [] null before after h = refl
Plain-heard [] (bool b) before after h = refl
Plain-heard [] (scalar s) before after h = refl
Plain-heard [] (array items) before after h = refl
Plain-heard (k ∷ path) null before after h = refl
Plain-heard (k ∷ path) (bool b) before after h = refl
Plain-heard (k ∷ path) (scalar s) before after h = refl
Plain-heard (k ∷ path) (array items) before after h = refl

-- A merge of one value gives a path what the new value says of it.
abbrev Answers : List String → Option Json → Json → Type 0
Answers path e v = value_at path (some (merge_value e v)) ≡ heard (value_at path e) (says path v)

merge_value-Answers :
    (path : List String)
    → ((e : Option Json) (b : Fields) → KeysOnce b → Answers path e (object b))
    → (e : Option Json) (v : Json) → ValueOnce v
    → Answers path e v
unfolding KeysOnce
merge_value-Answers path objects e null h =
    rw (merge_value-Plain e null tt) (Plain-heard path null none (value_at path e) tt)
merge_value-Answers path objects e (bool b) h =
    rw (merge_value-Plain e (bool b) tt) (Plain-heard path (bool b) none (value_at path e) tt)
merge_value-Answers path objects e (scalar s) h =
    rw (merge_value-Plain e (scalar s) tt) (Plain-heard path (scalar s) none (value_at path e) tt)
merge_value-Answers path objects e (array xs) h =
    rw (merge_value-Plain e (array xs) tt) (Plain-heard path (array xs) none (value_at path e) tt)
merge_value-Answers path objects e (object b) h = objects e b h

merge_object-here : (e : Option Json) (b : Fields) → Answers [] e (object b)
unfolding merge_value says
merge_object-here none b = refl
merge_object-here (some null) b = refl
merge_object-here (some (bool x)) b = refl
merge_object-here (some (scalar s)) b = refl
merge_object-here (some (array xs)) b = refl
merge_object-here (some (object a)) b = refl

merged_value-Answers :
    (path : List String)
    → ((e : Option Json) (v : Json) → ValueOnce v → Answers path e v)
    → (e o : Option Json) → ((v : Json) → o ≡ some v → ValueOnce v)
    → value_at path (merged_value e o) ≡ heard (value_at path e) (said path o)
merged_value-Answers path deeper e none h = refl
merged_value-Answers path deeper e (some v) h = deeper e v (h v refl)

merge_object-below :
    (k : String) (path : List String)
    → ((e : Option Json) (v : Json) → ValueOnce v → Answers path e v)
    → (e : Option Json) (b : Fields) → KeysOnce b
    → Answers (k ∷ path) e (object b)
unfolding merge_value says
merge_object-below k path deeper none b h = refl
merge_object-below k path deeper (some null) b h = refl
merge_object-below k path deeper (some (bool x)) b h = refl
merge_object-below k path deeper (some (scalar s)) b h = refl
merge_object-below k path deeper (some (array xs)) b h = refl
merge_object-below k path deeper (some (object a)) b h =
    ap (heard none) (says-object k path (deep_merge a b))
    ∙ ap (value_at path) (lookup-deep_merge k a b (KeysOnce-Distinct b h))
    ∙ merged_value-Answers path deeper (lookup k a) (lookup k b) (λ v e. ValueOnce-lookup k b v h e)
    ∙ sym (ap (λ w. heard (heard none w) (said path (lookup k b))) (says-object k path a))
    ∙ sym (ap (heard (value_at (k ∷ path) (some (object a)))) (says-object k path b))

value_at-merge_value :
    (path : List String) (e : Option Json) (v : Json) → ValueOnce v → Answers path e v
value_at-merge_value [] = merge_value-Answers [] (λ e b h. merge_object-here e b)
value_at-merge_value (k ∷ path) =
    merge_value-Answers (k ∷ path) (merge_object-below k path (value_at-merge_value path))

value_at-deep_merge :
    (path : List String) (a b : Fields)
    → KeysOnce b
    → value_at path (some (object (deep_merge a b)))
      ≡ heard (value_at path (some (object a))) (says path (object b))
unfolding merge_value KeysOnce
value_at-deep_merge path a b h = value_at-merge_value path (some (object a)) (object b) h

module _ (unmarshal : String → Option Fields) (marshal : Fields → Option String) where
  -- What a patch says of a path.
  abbrev pub patch_says : List String → Option Fields → Word
  patch_says path none = silent
  patch_says path (some parsed) = says path (object parsed)

  -- The value at a path after a list of patches, each of which has its word.
  abbrev pub patched : List String → Option Json → List Patch → Option Json
  patched path before [] = before
  patched path before (p ∷ ps) = patched path (heard before (patch_says path (unmarshal p.json))) ps

  -- encoding/json decodes into maps, which hold each key once.
  abbrev pub DecodesOnce : Type 0
  DecodesOnce = (s : String) (m : Fields) → unmarshal s ≡ some m → KeysOnce m

  value_at-merge_loop :
      DecodesOnce
      → (path : List String) (merged m : Fields) (ps : List Patch)
      → merge_loop unmarshal marshal merged ps ≡ some m
      → value_at path (some (object m)) ≡ patched path (value_at path (some (object merged))) ps
  unfolding merge_loop
  value_at-merge_loop once path merged m [] h = cc
  value_at-merge_loop once path merged m (p ∷ ps) h = elim (Option-cases (unmarshal p.json)) [
    | inl e ↦ absurd (
        continue_none (unmarshal p.json)
          (λ parsed. merge_loop unmarshal marshal (merge_parsed merged parsed) ps) e h)
    | inr s ↦
        let parsed = s.0 in
        let rest = value_at-merge_loop once path (merge_parsed merged parsed) m ps (rw s.1 at h) in
        rest
        ∙ rw s.1 (
            ap (λ v. patched path v ps)
              (ap (λ x. value_at path (some (object x))) (merge_parsed-eq-deep_merge merged parsed)
                ∙ value_at-deep_merge path merged parsed (once p.json parsed s.1)))
  ]

  value_at-empty : (path : List String) → value_at path (some (object empty)) ≡ none
  unfolding says lookup
  value_at-empty [] = refl
  value_at-empty (k ∷ path) = refl

  -- Where decoded documents hold each key once, what two or more patches merge into is the JSON of a
  -- document that holds at the end of every path of keys what the last patch that is not silent about
  -- the path says of it: the value that it sets there, if that is no object, and no such value if it
  -- has an object there or something other than an object on the way. So objects are merged at every
  -- depth, and other values are replaced.
  pub merge_patches-lookup :
      DecodesOnce
      → (p q : Patch) (ps : List Patch) (text : String)
      → merge_patches unmarshal marshal (p ∷ q ∷ ps) ≡ some text
      → (m : Fields) × (marshal m ≡ some text)
        × ((path : List String) → value_at path (some (object m)) ≡ patched path none (p ∷ q ∷ ps))
  unfolding merge_patches
  merge_patches-lookup once p q ps text h =
      marshalled (merge_loop unmarshal marshal empty (p ∷ q ∷ ps)) refl h
    where
      marshalled :
          (o : Option Fields)
          → merge_loop unmarshal marshal empty (p ∷ q ∷ ps) ≡ o
          → marshal_result marshal o ≡ some text
          → (m : Fields) × (marshal m ≡ some text)
            × ((path : List String)
                → value_at path (some (object m)) ≡ patched path none (p ∷ q ∷ ps))
      marshalled none e f = cc
      marshalled (some m) e f = (
        m,
        f,
        λ path.
            value_at-merge_loop once path empty m (p ∷ q ∷ ps) e
            ∙ ap (λ v. patched path v (p ∷ q ∷ ps)) (value_at-empty path),
      )
