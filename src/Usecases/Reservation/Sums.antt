-- ===== src/Usecases/Reservation/Sums.antt =====
-- The loops of `Release` and `Confirm` on data alone: the sums of the reservations by SKU, the
-- products that are changed by them, and the values of the Go map that are written.
use marketplace_simulator_pr.Common.{
  ℕ, ◌+◌, ◌%◌, ◌<◌, ◌≡◌, refl, sym, ◌∙◌, ap, Bool, false, none, some, List, [], ◌∷◌, arith, ◌==◌,
  if◌then◌else◌, ◌||◌, contains, Distinct, Map, lookup, insert, keys, values, entries_at,
  lookup-insert, contains-keys-insert, keys-insert-Distinct, Bool-cases, Option-cases, ==→eq, ◌^◌,
  subst, inl, inr,
}
use mathlib.Core.Option
use marketplace_simulator_pr.Models.{Product, Reservation, add32}
use marketplace_simulator_pr.Store.World.{Platform}
use marketplace_simulator_pr.Store.Products.Rows.{skus_of, find_product}
use marketplace_simulator_pr.Usecases.Repository.{pointee, modify, snapshot, map_values}
use marketplace_simulator_pr.Usecases.Pointers.{skus-modify, pointee-modify}
use marketplace_simulator_pr.Usecases.Reservation.Settle.{sum_of, add_sums, settle_all}

-- What the reservations of SKU `k` come to.
abbrev pub total : ℕ → List Reservation → ℕ
total k [] = 0
total k (r ∷ rs) = if k == r.sku then r.count + total k rs else total k rs

abbrev pub is_reserved : ℕ → List Reservation → Bool
is_reserved k [] = false
is_reserved k (r ∷ rs) = k == r.sku || is_reserved k rs

sum_of-insert :
    (k j v : ℕ) (m : Map ℕ) → sum_of k (insert j v m) ≡ (if k == j then v else sum_of k m)
sum_of-insert k j v m = ground (arith, lookup-insert k j v m)

pub sum_of-add_sums :
    (k : ℕ) (rs : List Reservation) (m : Map ℕ)
    → sum_of k m < 2 ^ 32
    → sum_of k (add_sums rs m) ≡ (sum_of k m + total k rs) % (2 ^ 32)
unfolding add_sums add32
sum_of-add_sums k [] m h = omega arith
sum_of-add_sums k (r ∷ rs) m h = elim (Bool-cases (k == r.sku)) [
  | inl here ↦
      let same : sum_of r.sku m ≡ sum_of k m = ap (λ j. sum_of j m) (sym (==→eq k r.sku here)) in
      let next = insert r.sku (add32 (sum_of r.sku m) r.count) m in
      let at : sum_of k next ≡ (sum_of k m + r.count) % (2 ^ 32) =
        sum_of-insert k r.sku (add32 (sum_of r.sku m) r.count) m ∙ rw (here, same) refl in
      let ih = sum_of-add_sums k rs next (omega (arith, at)) in rw here (omega (arith, ih, at))
  | inr other ↦
      let next = insert r.sku (add32 (sum_of r.sku m) r.count) m in
      let at : sum_of k next ≡ sum_of k m =
        sum_of-insert k r.sku (add32 (sum_of r.sku m) r.count) m ∙ rw other refl in
      let ih = sum_of-add_sums k rs next (omega (arith, at)) in rw other (omega (arith, ih, at))
]

pub contains-keys-add_sums :
    (k : ℕ) (rs : List Reservation) (m : Map ℕ)
    → contains k (keys (add_sums rs m)) ≡ (is_reserved k rs || contains k (keys m))
unfolding add_sums add32
contains-keys-add_sums k [] m = refl
contains-keys-add_sums k (r ∷ rs) m = ground (
  arith,
  contains-keys-add_sums k rs (insert r.sku (add32 (sum_of r.sku m) r.count) m),
  contains-keys-insert k r.sku (add32 (sum_of r.sku m) r.count) m,
)

pub keys-add_sums-Distinct :
    (rs : List Reservation) (m : Map ℕ) → Distinct (keys m) → Distinct (keys (add_sums rs m))
unfolding add_sums
keys-add_sums-Distinct [] m d = d
keys-add_sums-Distinct (r ∷ rs) m d =
    let n = add32 (sum_of r.sku m) r.count in
    keys-add_sums-Distinct rs (insert r.sku n m) (keys-insert-Distinct r.sku n m d)

pub snapshot-Distinct :
    (xs : List Product) → Distinct (skus_of xs) → keys (snapshot xs) ≡ skus_of xs
unfolding snapshot
snapshot-Distinct [] d = refl
snapshot-Distinct (x ∷ xs) d = ground (arith, snapshot-Distinct xs d.1)

pub lookup-snapshot :
    (k : ℕ) (xs : List Product) → Distinct (skus_of xs) → lookup k (snapshot xs) ≡ find_product k xs
unfolding snapshot
lookup-snapshot k [] d = refl
lookup-snapshot k (x ∷ xs) d = ground (arith, lookup-snapshot k xs d.1)

-- The loop over the products changes each product once, by the sum of its SKU.
module _ (change : ℕ → Product → Product) (keeps : (d : ℕ) (x : Product) → (change d x).sku ≡ x.sku)
    (sums : Map ℕ) where
  pub skus-settle_all :
      (ks : List ℕ) (xs : List Product) → skus_of (settle_all change sums ks xs) ≡ skus_of xs
  unfolding settle_all
  skus-settle_all [] xs = refl
  skus-settle_all (k ∷ ks) xs =
      skus-settle_all ks (modify k (change (sum_of k sums)) xs)
      ∙ skus-modify k (change (sum_of k sums)) xs (keeps (sum_of k sums))

  pub pointee-settle_all :
      (k : ℕ) (ks : List ℕ) (xs : List Product)
      → Distinct ks
      → pointee k (settle_all change sums ks xs) ≡ (
          if contains k ks
          then Option.map (change (sum_of k sums)) (pointee k xs)
          else pointee k xs)
  unfolding settle_all
  pointee-settle_all k [] xs d = refl
  pointee-settle_all k (j ∷ ks) xs d =
      let xs₁ = modify j (change (sum_of j sums)) xs in
      let ih = pointee-settle_all k ks xs₁ d.1 in
      let one = pointee-modify k j (change (sum_of j sums)) xs (keeps (sum_of j sums)) in
      elim (Bool-cases (k == j)) [
        | inl here ↦
            let same : k ≡ j = ==→eq k j here in
            let once : contains k ks ≡ false = rw same d.0 in
            let sums_same : sum_of j sums ≡ sum_of k sums = ap (λ i. sum_of i sums) (sym same) in
            ih ∙ rw (once, one, here, sums_same) refl
        | inr other ↦ ih ∙ rw (one, other) refl
      ]

-- Every product is kept under its own SKU.
abbrev IsKeyed : Map Product → Type 0
IsKeyed m = (k : ℕ) (x : Product) → lookup k m ≡ some x → x.sku ≡ k

find_product_sku :
    (k : ℕ) (xs : List Product) (x : Product) → find_product k xs ≡ some x → x.sku ≡ k
find_product_sku k [] x h = absurd (ground arith)
find_product_sku k (y ∷ xs) x h = elim (Bool-cases (k == y.sku)) [
  | inl here ↦ ground (arith, ==→eq k y.sku here)
  | inr later ↦ find_product_sku k xs x (ground arith)
]

entries_at-none :
    (j : ℕ) (ks : List ℕ) (m : Map Product)
    → lookup j m ≡ none
    → values (entries_at (j ∷ ks) m) ≡ values (entries_at ks m)
entries_at-none j ks m e = ground arith

entries_at-some :
    (j : ℕ) (ks : List ℕ) (m : Map Product) (x : Product)
    → lookup j m ≡ some x
    → values (entries_at (j ∷ ks) m) ≡ x ∷ values (entries_at ks m)
entries_at-some j ks m x e = ground arith

contains-entries_at :
    (k : ℕ) (ks : List ℕ) (m : Map Product)
    → IsKeyed m
    → contains k ks ≡ false
    → contains k (skus_of (values (entries_at ks m))) ≡ false
contains-entries_at k [] m keyed h = refl
contains-entries_at k (j ∷ ks) m keyed h =
    let ih = contains-entries_at k ks m keyed (ground arith) in
    elim (Option-cases (lookup j m)) [
      | inl gone ↦ ap (λ v. contains k (skus_of v)) (entries_at-none j ks m gone) ∙ ih
      | inr (x, e) ↦
          ap (λ v. contains k (skus_of v)) (entries_at-some j ks m x e)
          ∙ ground (arith, keyed j x e, ih)
    ]

entries_at-Distinct :
    (ks : List ℕ) (m : Map Product)
    → IsKeyed m
    → Distinct ks
    → Distinct (skus_of (values (entries_at ks m)))
entries_at-Distinct [] m keyed d = tt
entries_at-Distinct (j ∷ ks) m keyed d =
    let ih = entries_at-Distinct ks m keyed d.1 in
    elim (Option-cases (lookup j m)) [
      | inl gone ↦ subst (λ v. Distinct (skus_of v)) (sym (entries_at-none j ks m gone)) ih
      | inr (x, e) ↦
          let fresh = contains-entries_at j ks m keyed d.0 in
          subst (λ v. Distinct (skus_of v)) (sym (entries_at-some j ks m x e))
            (rw (keyed j x e) fresh, ih)
    ]

find_product-entries_at :
    (k : ℕ) (ks : List ℕ) (m : Map Product)
    → IsKeyed m
    → find_product k (values (entries_at ks m)) ≡ (if contains k ks then lookup k m else none)
find_product-entries_at k [] m keyed = refl
find_product-entries_at k (j ∷ ks) m keyed =
    let ih = find_product-entries_at k ks m keyed in
    elim (Option-cases (lookup j m)) [
      | inl gone ↦ ap (find_product k) (entries_at-none j ks m gone) ∙ ground (arith, ih, ==→eq k j)
      | inr (x, e) ↦
          ap (find_product k) (entries_at-some j ks m x e)
          ∙ ground (arith, ih, ==→eq k j, keyed j x e)
    ]

-- What the platform's order of a `range` has to be: the keys, each once.
abbrev pub IsRange : Platform → Type 0
IsRange p =
    (n : ℕ) (ks : List ℕ)
    → Distinct ks
    → Distinct (p.visit n ks) × ((k : ℕ) → contains k (p.visit n ks) ≡ contains k ks)

-- The values of the map are the products of the slice, in some order.
pub find_product-map_values :
    (p : Platform) (k : ℕ) (xs : List Product)
    → IsRange p
    → Distinct (skus_of xs)
    → (find_product k (map_values p xs) ≡ find_product k xs) × Distinct (skus_of (map_values p xs))
unfolding map_values
find_product-map_values p k xs range d =
    let m = snapshot xs in
    let keyed : IsKeyed m = λ j x e. find_product_sku j xs x (sym (lookup-snapshot j xs d) ∙ e) in
    let dk : Distinct (keys m) = rw (snapshot-Distinct xs d) d in
    let (dv, same) = range 1 (keys m) dk in
    (
      find_product-entries_at k (p.visit 1 (keys m)) m keyed
          ∙ rw (same k, snapshot-Distinct xs d, lookup-snapshot k xs d) (if_absent k xs),
      entries_at-Distinct (p.visit 1 (keys m)) m keyed dv,
    )
  where
    if_absent :
        (k : ℕ) (xs : List Product)
        → (if contains k (skus_of xs) then find_product k xs else none) ≡ find_product k xs
    if_absent k [] = refl
    if_absent k (x ∷ xs) = ground (arith, if_absent k xs)
