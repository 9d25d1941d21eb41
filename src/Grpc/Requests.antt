-- ===== src/Grpc/Requests.antt =====
-- The validation of requests, exactly.
use marketplace_simulator_pr.Common.{
  ℕ, ◌≤◌, ◌≡◌, refl, ◌↔◌, ◌≢◌, false, List, [], ◌∷◌, arith, contains, Distinct, All, inl, inr,
}
use marketplace_simulator_pr.Errors.{ok, Result-cases}
use marketplace_simulator_pr.Grpc.Service.{Stock, check_stocks, check_products}

abbrev pub stock_skus : List Stock → List ℕ
stock_skus [] = []
stock_skus (s ∷ stocks) = s.sku ∷ stock_skus stocks

-- None of the SKUs was seen before.
abbrev pub Apart : List ℕ → List ℕ → Type 0
Apart seen [] = Unit
Apart seen (k ∷ ks) = (contains k seen ≡ false) × Apart seen ks

abbrev pub Positive : List ℕ → Type 0
Positive = All (λ k. 1 ≤ k)

pub Apart-cons :
    (k : ℕ) (seen ks : List ℕ) → (Apart (k ∷ seen) ks ↔ ((contains k ks ≡ false) × Apart seen ks))
Apart-cons k seen [] = (λ h. (refl, tt), λ h. tt)
Apart-cons k seen (j ∷ ks) = (
  λ h. ground (arith, (Apart-cons k seen ks).0 h.1),
  λ h. ground (arith, (Apart-cons k seen ks).1),
)

pub check_stocks-ok :
    (seen : List ℕ) (stocks done : List Stock)
    → check_stocks seen stocks ≡ ok done
    → (done ≡ stocks)
      × Positive (stock_skus stocks)
      × Apart seen (stock_skus stocks)
      × Distinct (stock_skus stocks)
unfolding check_stocks
check_stocks-ok seen [] done h = (ground arith, tt, tt, tt)
check_stocks-ok seen (s ∷ stocks) done h =
    elim (Result-cases (check_stocks (s.sku ∷ seen) stocks)) [
      | inr (e, f) ↦ absurd (ground arith)
      | inl (rest, e) ↦
          let (same, positive, apart, distinct) = check_stocks-ok (s.sku ∷ seen) stocks rest e in
          let (fresh, others) = (Apart-cons s.sku seen (stock_skus stocks)).0 apart in
          (ground arith, (ground arith, positive), (ground arith, others), (fresh, distinct))
    ]

check_stocks-accepts :
    (seen : List ℕ) (stocks : List Stock)
    → Positive (stock_skus stocks)
    → Apart seen (stock_skus stocks)
    → Distinct (stock_skus stocks)
    → check_stocks seen stocks ≡ ok stocks
unfolding check_stocks
check_stocks-accepts seen [] p a d = refl
check_stocks-accepts seen (s ∷ stocks) p a d =
    let ih =
      check_stocks-accepts (s.sku ∷ seen) stocks p.1
        ((Apart-cons s.sku seen (stock_skus stocks)).1 (d.0, a.1)) d.1 in
    ground (arith, ih)

Apart-nil : (ks : List ℕ) → Apart [] ks
Apart-nil [] = tt
Apart-nil (k ∷ ks) = (refl, Apart-nil ks)

-- A request with products is accepted exactly when it has a product, every SKU is positive and no
-- SKU comes twice, and then it is passed on as it is.
pub check_products-accepts :
    (stocks : List Stock)
    → (check_products stocks ≡ ok stocks)
      ↔ ((stocks ≢ []) × Positive (stock_skus stocks) × Distinct (stock_skus stocks))
unfolding check_products
check_products-accepts [] = (λ h. absurd (ground arith), λ h. absurd (h.0 refl))
check_products-accepts (s ∷ stocks) = (
  λ h.
      let (_, positive, _, distinct) = check_stocks-ok [] (s ∷ stocks) (s ∷ stocks) h in
      (λ e. cc, positive, distinct),
  λ h. check_stocks-accepts [] (s ∷ stocks) h.1 (Apart-nil (stock_skus (s ∷ stocks))) h.2,
)

-- Whatever request goes on to the use case, it goes on as it came, with SKUs that are positive and
-- distinct.
pub check_products-ok :
    (stocks done : List Stock)
    → check_products stocks ≡ ok done
    → (done ≡ stocks) × Positive (stock_skus stocks) × Distinct (stock_skus stocks)
unfolding check_products
check_products-ok [] done h = absurd (ground arith)
check_products-ok (s ∷ stocks) done h =
    let (same, positive, _, distinct) = check_stocks-ok [] (s ∷ stocks) done h in
    (same, positive, distinct)
