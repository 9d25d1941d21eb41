-- ===== src/Usecases/Pointers.antt =====
-- The laws of the maps of product pointers: reading after writing, and products with distinct SKUs.
use marketplace_simulator_pr.Common.{
  ℕ, ◌≡◌, refl, false, true, none, some, List, [], ◌∷◌, arith, ◌==◌, if◌then◌else◌, contains,
  Distinct, Bool-cases, inl, inr,
}
use mathlib.Core.Option
use marketplace_simulator_pr.Models.{Product}
use marketplace_simulator_pr.Store.Products.Rows.{skus_of, find_product}
use marketplace_simulator_pr.Usecases.Repository.{pointee, modify}

-- The loops write counts only.
abbrev pub KeepsSku : (Product → Product) → Type 0
KeepsSku f = (x : Product) → (f x).sku ≡ x.sku

pub skus-modify :
    (k : ℕ) (f : Product → Product) (xs : List Product)
    → KeepsSku f
    → skus_of (modify k f xs) ≡ skus_of xs
unfolding modify
skus-modify k f [] h = refl
skus-modify k f (x ∷ xs) h = ground (arith, h x, skus-modify k f xs h)

pub pointee_absent :
    (k : ℕ) (xs : List Product) → contains k (skus_of xs) ≡ false → pointee k xs ≡ none
unfolding pointee
pointee_absent k [] h = refl
pointee_absent k (x ∷ xs) h = ground (arith, pointee_absent k xs)

pub pointee_present :
    (k : ℕ) (xs : List Product)
    → contains k (skus_of xs) ≡ true
    → (x : Product) × (pointee k xs ≡ some x)
unfolding pointee
pointee_present k [] h = absurd (ground arith)
pointee_present k (x ∷ xs) h = elim (Bool-cases (contains k (skus_of xs))) [
  | inl later ↦ let (y, e) = pointee_present k xs later in (y, rw e)
  | inr now ↦ (x, ground (arith, pointee_absent k xs now))
]

pub pointee-modify :
    (j k : ℕ) (f : Product → Product) (xs : List Product)
    → KeepsSku f
    → pointee j (modify k f xs) ≡ (if j == k then Option.map f (pointee j xs) else pointee j xs)
unfolding pointee modify
pointee-modify j k f [] h = ground arith
pointee-modify j k f (x ∷ xs) h = elim (Bool-cases (contains k (skus_of xs))) [
  | inl later ↦
      let (y, e) = pointee_present k xs later in
      rw later (ground (arith, e, pointee-modify j k f xs h))
  | inr now ↦ rw now (ground (arith, h x, pointee_absent k xs now))
]

pub pointee-find :
    (k : ℕ) (xs : List Product) → Distinct (skus_of xs) → pointee k xs ≡ find_product k xs
unfolding pointee
pointee-find k [] d = refl
pointee-find k (x ∷ xs) d = ground (arith, pointee-find k xs d.1, pointee_absent k xs)
