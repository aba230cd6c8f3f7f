-- ===== src/Prelude/Text.antt =====
-- Texts as lists of code points, for the functions that look at single characters.
use Prim.Native.Nat.{ℕ, ◌+◌}
use Prim.Native.Char.{code}
use Prim.Native.String.{String}
use mathlib.Core.Bool.{Bool, true, false, ◌&&◌, ◌||◌}
use mathlib.Core.List.{List, [], ◌∷◌, map}
use mathlib.Core.Path.{◌≡◌, refl, ap}
use mathlib.Core.Logic.{◌↔◌, inl, inr}
use kubectl_hpa_status.Prelude.Tests.{leb, ◌==◌, if◌then◌else◌, ==_iff, Bool-cases}

unfoldable pub codes : String → List ℕ
codes String.[] = []
codes (String.◌∷◌ c s) = code c ∷ codes s

-- An ASCII capital becomes its small letter.
unfoldable pub to_lower : ℕ → ℕ
to_lower c = if leb b'A' c && leb c b'Z' then c + 32 else c

unfoldable pub codes_eq : List ℕ → List ℕ → Bool
codes_eq [] [] = true
codes_eq [] (b ∷ bs) = false
codes_eq (a ∷ as') [] = false
codes_eq (a ∷ as') (b ∷ bs) = a == b && codes_eq as' bs

-- strings.EqualFold(s, t) where `t` is an ASCII text without the letters k and s: no other Unicode
-- character folds to one of its letters.
unfoldable pub equal_fold : String → String → Bool
unfolding codes to_lower codes_eq
equal_fold s t = codes_eq (map to_lower (codes s)) (map to_lower (codes t))

abbrev pub is_prefix : List ℕ → List ℕ → Bool
is_prefix [] s = true
is_prefix (a ∷ as') [] = false
is_prefix (a ∷ as') (b ∷ bs) = a == b && is_prefix as' bs

-- strings.Contains on code points.
unfoldable pub has_infix : List ℕ → List ℕ → Bool
has_infix sub [] = is_prefix sub []
has_infix sub (b ∷ bs) = is_prefix sub (b ∷ bs) || has_infix sub bs

-- The code points that strings.TrimSpace cuts off.
unfoldable pub is_space : ℕ → Bool
is_space c =
    (leb 9 c && leb c 13)
    || c == 32
    || c == 133
    || c == 160
    || c == 5760
    || (leb 8192 c && leb c 8202)
    || c == 8232
    || c == 8233
    || c == 8239
    || c == 8287
    || c == 12288

-- The test `strings.TrimSpace(s) == ""`.
unfoldable pub all_space : List ℕ → Bool
all_space [] = true
all_space (c ∷ cs) = is_space c && all_space cs

abbrev pub trim_start : List ℕ → List ℕ
trim_start [] = []
trim_start (c ∷ cs) = let rest = trim_start cs in if is_space c then rest else c ∷ cs

-- strings.TrimSpace takes both ends off. The text without the spaces at its end.
abbrev pub trim_end : List ℕ → List ℕ
trim_end [] = []
trim_end (c ∷ cs) = elim (trim_end cs) [
  | [] ↦ if is_space c then [] else c ∷ []
  | d ∷ ds ↦ c ∷ d ∷ ds
]

pub codes_eq_iff : (s t : List ℕ) → (codes_eq s t ≡ true) ↔ (s ≡ t)
unfolding codes_eq
codes_eq_iff [] [] = (λ h. refl, λ h. refl)
codes_eq_iff [] (b ∷ t) = (λ h. cc, λ h. cc)
codes_eq_iff (a ∷ s) [] = (λ h. cc, λ h. cc)
codes_eq_iff (a ∷ s) (b ∷ t) = (
  λ h. elim (Bool-cases (a == b)) [
    | inr p ↦ cc (rw p at h)
    | inl p ↦
        let same = (==_iff a b).0 p in rw same (ap (λ r. b ∷ r) ((codes_eq_iff s t).0 (rw p at h)))
  ],
  λ h.
      let heads : a ≡ b = cc in
      let tails : s ≡ t = cc in rw ((==_iff a b).1 heads, (codes_eq_iff s t).1 tails) refl,
)
