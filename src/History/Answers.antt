-- ===== src/History/Answers.antt =====
-- What a reader of the stock is told, after any history of the service with Redis switched off.
use marketplace_simulator_pr.Common.{
  ℕ, ◌+◌, ◌≤◌, ◌<◌, ◌≡◌, sym, ◌∙◌, ap, Option, none, some, [], arith, ltb, Bool-cases, Option-cases,
  inl, inr,
}
use marketplace_simulator_pr.Errors.{ok, product_not_found}
use marketplace_simulator_pr.Models.{Product, u32_mod, sub32}
use marketplace_simulator_pr.Store.World.{
  ProductRow, World, Platform, M, ◌>>=◌, >>=-ok, wrapped, wrapped-ok, pure, fail,
}
use marketplace_simulator_pr.Store.Products.{get_by_sku, to_product}
use marketplace_simulator_pr.Store.Products.Rows.{find_row, find_row_sku}
use marketplace_simulator_pr.Usecases.Reads.{database}
use marketplace_simulator_pr.Usecases.Product.{get_product}
use marketplace_simulator_pr.Usecases.Reservation.Sums.{total, IsRange}
use marketplace_simulator_pr.Cache.Repository.Freshness.{get_by_sku-from_row}
use marketplace_simulator_pr.Grpc.Service.{ProductResponse, product_to_response, get_product_method}
use marketplace_simulator_pr.History.Stocked.{IsStocked, IsStocked-HasWords}
use marketplace_simulator_pr.History.Steps.{Reach, AllFit}
use marketplace_simulator_pr.History.Reached.{Reach-IsStocked}

-- Of a row that is backed, the response tells what is left, and the subtraction does not wrap.
response-left :
    (r : ProductRow)
    → r.reserved_count ≤ r.count
    → r.count < u32_mod
    → (product_to_response (to_product r)).count + r.reserved_count ≡ r.count
unfolding product_to_response sub32
response-left r fits word = omega arith

abbrev found_or_fail : ℕ → Option Product → M Product
found_or_fail sku found = elim found [
  | none ↦ fail (product_not_found sku)
  | some product ↦ pure product
]

abbrev respond : Product → M ProductResponse
respond found = pure (product_to_response found)

get_product-from_row :
    (p : Platform) (sku : ℕ) (tx : Option ℕ) (w w' : World) (x : Product)
    → IsStocked w.tables
    → get_product (database p) sku tx w ≡ (ok x, w')
    → (r : ProductRow) × (find_row sku w.products ≡ some r) × (x ≡ to_product r)
unfolding get_product database
get_product-from_row p sku tx w w' x s h =
    let (found, w₁, h₁, k₁) =
      >>=-ok (wrapped "productRepository.Execute" (get_by_sku p sku tx)) (found_or_fail sku) w h in
    let read = wrapped-ok "productRepository.Execute" (get_by_sku p sku tx) w h₁ in
    elim (Option-cases found) [
      | inl gone ↦ absurd (ground (arith, gone))
      | inr (y, is) ↦
          let same : y ≡ x = ground (arith, is) in
          get_by_sku-from_row p sku tx w w₁ x s.distinct (IsStocked-HasWords w.tables s)
            (read ∙ ap (λ f. (ok f, w₁)) (is ∙ ap some same))
    ]

told_of :
    (reserved : ℕ) (answer : ProductResponse) (x : Product) (r : ProductRow)
    → answer ≡ product_to_response x
    → x ≡ to_product r
    → r.reserved_count ≡ reserved
    → r.reserved_count ≤ r.count
    → r.count < u32_mod
    → (answer.name ≡ r.name)
      × (answer.price ≡ r.price)
      × (answer.transaction_id ≡ r.xmin)
      × (answer.count + reserved ≡ r.count)
unfolding product_to_response
told_of reserved answer x r told is sum fits word = (
  ap (λ (a : ProductResponse). a.name) told ∙ ap (λ (y : Product). y.name) is,
  ap (λ (a : ProductResponse). a.price) told ∙ ap (λ (y : Product). y.price) is,
  ap (λ (a : ProductResponse). a.transaction_id) told ∙ ap (λ (y : Product). y.transaction_id) is,
  ap (λ (a : ProductResponse). a.count + reserved) told
      ∙ ap (λ y. (product_to_response y).count + reserved) is
      ∙ ap (λ n. (product_to_response (to_product r)).count + n) (sym sum)
      ∙ response-left r fits word,
)

-- `GetProduct` tells what is left. After any history as in `reached_backed`: an answer is about a
-- row of the SKU that was asked for, whose SKU, name, price and version it tells, and its count and
-- the reservations of the SKU come to the row's count.
pub get_product_left :
    (p : Platform) (start : World) {w : World} (sku : ℕ) (tx : Option ℕ) (answer : ProductResponse)
    (w' : World)
    → IsRange p
    → ((n : ℕ) → p.cut n ≡ none)
    → IsStocked start.tables
    → (reach : Reach p start w) → AllFit p start reach
    → get_product_method p (database p) [] sku tx w ≡ (ok answer, w')
    → (r : ProductRow) × (find_row sku w.products ≡ some r)
      × (answer.sku ≡ sku)
      × (answer.name ≡ r.name)
      × (answer.price ≡ r.price)
      × (answer.transaction_id ≡ r.xmin)
      × (answer.count + total sku w.reservations ≡ r.count)
unfolding get_product_method product_to_response
get_product_left p start {w} sku tx answer w' range whole s reach fit h =
    elim (Bool-cases (ltb sku 1)) [
      | inl zero_sku ↦ absurd (ground (arith, zero_sku))
      | inr valid ↦
          let named = wrapped "GrpcService.GetProduct" (get_product (database p) sku tx) in
          let answered : (named >>= respond) w ≡ (ok answer, w') = ground (arith, valid) in
          let (x, w₁, h₁, k₁) = >>=-ok named respond w answered in
          let now = Reach-IsStocked p start range whole s reach fit in
          let (r, there, is) =
            get_product-from_row p sku tx w w₁ x now
              (wrapped-ok "GrpcService.GetProduct" (get_product (database p) sku tx) w h₁) in
          let (sum, fits, word) = now.backed sku r there in
          let told : answer ≡ product_to_response x = ground arith in
          let same_sku : answer.sku ≡ sku =
            ap (λ (a : ProductResponse). a.sku) told
            ∙ ap (λ (y : Product). y.sku) is
            ∙ find_row_sku sku w.products r there in
          let (name, price, version, count) =
            told_of (total sku w.reservations) answer x r told is sum fits word in
          (r, there, same_sku, name, price, version, count)
    ]
