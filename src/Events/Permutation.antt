-- ===== src/Events/Permutation.antt =====
-- Normalisation depends only on which data points were observed, not on their order.
use mathlib.Core.List.{Perm, Permᴰ}
use mathlib.Core.Logic.{∥∥₁_elim}
use kubectl_hpa_status.Prelude.{List, [], ◌∷◌, true, false, arith, ◌≡◌, refl, ap, ◌∙◌}
use kubectl_hpa_status.Events.Rescales.{
  RescaleData, rescale_less, insert, sort, normalize_sorted, normalize_rescales,
}

-- `rescale_less` is a strict order in which only equal data points are incomparable.
less_asym : (a b : RescaleData) → rescale_less a b ≡ true → rescale_less b a ≡ false
unfolding rescale_less
less_asym a b h = ground arith

less_eq : (a b : RescaleData) → rescale_less a b ≡ false → rescale_less b a ≡ false → a ≡ b
unfolding rescale_less
less_eq a b h k = ground arith

less_trans :
    (a b c : RescaleData)
    → rescale_less a b ≡ true
    → rescale_less b c ≡ true
    → rescale_less a c ≡ true
unfolding rescale_less
less_trans a b c h k = ground arith

insert_comm :
    (a b : RescaleData) (l : List RescaleData) → insert a (insert b l) ≡ insert b (insert a l)
unfolding insert
insert_comm a b [] = ground (arith, less_asym a b, less_eq a b)
insert_comm a b (c ∷ l) =
    ground
      (arith, insert_comm a b l, less_asym a b, less_eq a b, less_trans c a b, less_trans c b a)

List-RescaleData-set : IsSet (List RescaleData)
List-RescaleData-set = hlevel

sort-permᴰ : {xs ys : List RescaleData} → Permᴰ xs ys → sort xs ≡ sort ys
unfolding sort
sort-permᴰ Permᴰ.nil = refl
sort-permᴰ (Permᴰ.cons e p) = rw e (ap (insert _) (sort-permᴰ p))
sort-permᴰ (Permᴰ.swap e f) = rw (e, f) (insert_comm _ _ _)
sort-permᴰ (Permᴰ.trans p q) = sort-permᴰ p ∙ sort-permᴰ q

-- The normalised data points do not depend on the order in which the events were listed.
pub normalize_rescales-perm :
    (xs ys : List RescaleData) → Perm xs ys → normalize_rescales xs ≡ normalize_rescales ys
unfolding normalize_rescales
normalize_rescales-perm xs ys p =
    ap normalize_sorted (∥∥₁_elim p (List-RescaleData-set _ _) (λ q. sort-permᴰ q))
