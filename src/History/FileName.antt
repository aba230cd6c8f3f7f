-- ===== src/History/FileName.antt =====
-- internal/history/filename.go on the bytes of texts, which are valid UTF-8: a control character is one
-- byte. The hexadecimal digits of the key's hash are an argument.
use kubectl_hpa_status.Prelude.{
  ℕ, zero, suc, ◌+◌, ◌-◌, ◌≤◌, List, [], ◌∷◌, ◌++◌, Bool, true, false, ◌&&◌, ◌||◌, ltb, ◌==◌, map,
  length, take, All, if◌then◌else◌, ◌≡◌, ◌≢◌, refl, if_rule, length-take, length-append, codes,
  arith,
}

abbrev pub max_history_filename_length : ℕ
max_history_filename_length = 240

abbrev pub max_filename_segment_length : ℕ
max_filename_segment_length = 200

unfoldable pub safe_byte : ℕ → ℕ
safe_byte c = if ltb c 32 || c == 127 || c == b'/' || c == 92 then b'_' else c

-- The names that would be the directory itself, or start a way out of it.
unfoldable pub is_relative : List ℕ → Bool
is_relative [] = true
is_relative (c ∷ []) = c == b'.'
is_relative (c ∷ d ∷ s) = c == b'.' && d == b'.'

unfoldable pub sanitize_filename : List ℕ → List ℕ
unfolding safe_byte is_relative
sanitize_filename name =
    let s = map safe_byte name in
    take max_filename_segment_length (if is_relative s then b'_' ∷ s else s)

unfoldable pub file_name : List ℕ → List ℕ → List ℕ → List ℕ → List ℕ
unfolding sanitize_filename
file_name cluster namespace name digest =
    let prefix =
      sanitize_filename cluster
      ++ ((b'_' ∷ sanitize_filename namespace) ++ (b'_' ∷ sanitize_filename name)) in
    let suffix = (b'_' ∷ digest) ++ codes ".jsonl" in
    let room = max_history_filename_length - length suffix in
    if ltb max_history_filename_length (length prefix + length suffix)
    then take room prefix ++ suffix
    else prefix ++ suffix

-- A byte that cannot separate directories nor break a line.
abbrev pub IsPlain : ℕ → Type 0
IsPlain c = (32 ≤ c) × (c ≢ 127) × (c ≢ b'/') × (c ≢ 92)

safe_byte-IsPlain : (c : ℕ) → IsPlain (safe_byte c)
unfolding safe_byte
safe_byte-IsPlain c = (ground arith, λ h. ground arith, λ h. ground arith, λ h. ground arith)

All-map : (s : List ℕ) → All IsPlain (map safe_byte s)
All-map [] = tt
All-map (c ∷ s) = (safe_byte-IsPlain c, All-map s)

All-take : (n : ℕ) (s : List ℕ) → All IsPlain s → All IsPlain (take n s)
All-take zero s h = tt
All-take (suc n) [] h = tt
All-take (suc n) (c ∷ s) (a, h) = (a, All-take n s h)

All-append : (s t : List ℕ) → All IsPlain s → All IsPlain t → All IsPlain (s ++ t)
All-append [] t h k = k
All-append (c ∷ s) t (a, h) k = (a, All-append s t h k)

underscore-IsPlain : IsPlain b'_'
underscore-IsPlain = (omega arith, λ h. omega arith, λ h. omega arith, λ h. omega arith)

sanitize_filename-IsPlain : (s : List ℕ) → All IsPlain (sanitize_filename s)
unfolding sanitize_filename
sanitize_filename-IsPlain s = All-take max_filename_segment_length _ (
    if_rule (λ r. All IsPlain r) (is_relative (map safe_byte s))
      (λ _. (underscore-IsPlain, All-map s)) (λ _. All-map s))

is_relative-take :
    (n : ℕ) (s : List ℕ) → 2 ≤ n → is_relative s ≡ false → is_relative (take n s) ≡ false
unfolding is_relative
is_relative-take zero s h e = absurd (omega arith)
is_relative-take (suc zero) s h e = absurd (omega arith)
is_relative-take (suc (suc n)) [] h e = e
is_relative-take (suc (suc n)) (c ∷ []) h e = e
is_relative-take (suc (suc n)) (c ∷ d ∷ s) h e = e

is_relative-append : (s t : List ℕ) → is_relative s ≡ false → is_relative (s ++ t) ≡ false
unfolding is_relative
is_relative-append [] t e = cc e
is_relative-append (c ∷ []) [] e = e
is_relative-append (c ∷ []) (d ∷ t) e = ground arith
is_relative-append (c ∷ d ∷ s) t e = e

sanitize_filename-relative : (s : List ℕ) → is_relative (sanitize_filename s) ≡ false
unfolding sanitize_filename
sanitize_filename-relative s =
    let t = map safe_byte s in
    is_relative-take max_filename_segment_length (if is_relative t then b'_' ∷ t else t)
      (omega arith)
      (if_rule {x = b'_' ∷ t} {y = t} (λ r. is_relative r ≡ false) (is_relative t) (λ _. prefixed t)
        (λ h. h))
  where
    prefixed : (r : List ℕ) → is_relative (b'_' ∷ r) ≡ false
    prefixed [] = refl
    prefixed (c ∷ r) = refl

ending-IsPlain : All IsPlain (codes ".jsonl") × (length (codes ".jsonl") ≡ 6)
unfolding codes safe_byte
ending-IsPlain = (All-map (codes ".jsonl"), omega arith)

not_longer : (a b : ℕ) → ltb a b ≡ false → b ≤ a
not_longer a b h = ground arith

-- Whatever the cluster, the namespace and the name are, the name of the history file has no path
-- separator and no control character, is none of the relative directory names and starts none, and has
-- at most 240 bytes, if the digits of the hash are such bytes and at most 200.
pub file_name-IsContained :
    (cluster namespace name digest : List ℕ)
    → All IsPlain digest
    → length digest ≤ 200
    → All IsPlain (file_name cluster namespace name digest)
      × (is_relative (file_name cluster namespace name digest) ≡ false)
      × (length (file_name cluster namespace name digest) ≤ max_history_filename_length)
unfolding file_name
file_name-IsContained cluster namespace name digest h k =
    let rest = (b'_' ∷ sanitize_filename namespace) ++ (b'_' ∷ sanitize_filename name) in
    let prefix = sanitize_filename cluster ++ rest in
    let suffix = (b'_' ∷ digest) ++ codes ".jsonl" in
    let room = max_history_filename_length - length suffix in
    let size : length suffix ≡ suc (length digest) + 6 =
      omega (arith, length-append (b'_' ∷ digest) (codes ".jsonl"), ending-IsPlain.1) in
    let plain_suffix : All IsPlain suffix =
      All-append (b'_' ∷ digest) (codes ".jsonl") (underscore-IsPlain, h) ending-IsPlain.0 in
    let plain_prefix : All IsPlain prefix =
      All-append (sanitize_filename cluster) rest (sanitize_filename-IsPlain cluster) (
        All-append (b'_' ∷ sanitize_filename namespace) (b'_' ∷ sanitize_filename name)
          (underscore-IsPlain, sanitize_filename-IsPlain namespace)
          (underscore-IsPlain, sanitize_filename-IsPlain name)) in
    let not_relative : is_relative prefix ≡ false =
      is_relative-append (sanitize_filename cluster) rest (sanitize_filename-relative cluster) in
    if_rule
      (λ r. All IsPlain r × (is_relative r ≡ false) × (length r ≤ max_history_filename_length))
      (ltb max_history_filename_length (length prefix + length suffix))
      (λ long. (
        All-append (take room prefix) suffix (All-take room prefix plain_prefix) plain_suffix,
        is_relative-append (take room prefix) suffix
            (is_relative-take room prefix (omega arith) not_relative),
        omega (arith, length-append (take room prefix) suffix, length-take room prefix),
      ))
      (λ short. (
        All-append prefix suffix plain_prefix plain_suffix,
        is_relative-append prefix suffix not_relative,
        omega (arith, length-append prefix suffix, not_longer _ _ short),
      ))
