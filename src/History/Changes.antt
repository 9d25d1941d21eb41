-- ===== src/History/Changes.antt =====
-- Each use case against the database's repository, successful or not, keeps the tables stocked.
use marketplace_simulator_pr.Common.{
  ℕ, ◌+◌, ◌%◌, ◌^◌, ◌≤◌, ◌<◌, ◌≡◌, refl, sym, ap, false, not, Option, none, some, List, [], ◌∷◌,
  ◌++◌, arith, ◌==◌, contains, select, Distinct, All, Bool-cases, Option-cases, inl, inr, ==→eq,
  subst,
}
use marketplace_simulator_pr.Errors.{Result-cases}
use marketplace_simulator_pr.Models.{Reservation, u32_mod, add32, sub32}
use marketplace_simulator_pr.Events.{Headers}
use marketplace_simulator_pr.Store.World.{ProductRow, World, Platform}
use marketplace_simulator_pr.Store.Products.Rows.{find_row}
use marketplace_simulator_pr.Cache.Repository.Freshness.{database-ReadsOnly}
use marketplace_simulator_pr.Usecases.Reads.{database}
use marketplace_simulator_pr.Usecases.KeptSkus.{
  reserve-KeepsSkus, increase_count-KeepsSkus, release-KeepsSkus, confirm-KeepsSkus,
}
use marketplace_simulator_pr.Usecases.Reservation.Sums.{total, is_reserved, IsRange}
use marketplace_simulator_pr.Usecases.Reservation.Reserve.{ReserveItem, item_skus, reserve}
use marketplace_simulator_pr.Usecases.Reservation.Items.{find_item}
use marketplace_simulator_pr.Usecases.Reservation.Inserts.{new_reservations}
use marketplace_simulator_pr.Usecases.Reservation.Reserving.{reserved_row, IsCovered}
use marketplace_simulator_pr.Usecases.Reservation.Commits.{reserve-Done, reserve_atomic}
use marketplace_simulator_pr.Usecases.Reservation.Settle.{confirm, release}
use marketplace_simulator_pr.Usecases.Reservation.Ending.{confirm_atomic, release_atomic}
use marketplace_simulator_pr.Usecases.Reservation.Confirmed.{confirmed_row, confirm_settles}
use marketplace_simulator_pr.Usecases.Reservation.Released.{released_row, release_settles}
use marketplace_simulator_pr.Usecases.Product.{UpdateCount, update_skus, increase_count}
use marketplace_simulator_pr.Usecases.Product.Increase.{increase_count_atomic}
use marketplace_simulator_pr.Usecases.Product.Increased.{
  find_update, increased_row, increase_count_grows,
}
use marketplace_simulator_pr.History.Stocked.{
  IsBacked, IsStocked, IsStocked-HasWords, IsStocked-changed, total-append, total_split,
  total_unreserved,
}

-- What the new reservations of SKU `k` come to.
abbrev asked_for : Option ReserveItem → ℕ
asked_for none = 0
asked_for (some i) = i.delta

total_others :
    (k now next : ℕ) (items : List ReserveItem)
    → contains k (item_skus items) ≡ false
    → total k (new_reservations now next items) ≡ 0
unfolding new_reservations
total_others k now next [] h = refl
total_others k now next (i ∷ is) h = ground (arith, total_others k now (next + 1) is)

total-new_reservations :
    (k now next : ℕ) (items : List ReserveItem)
    → Distinct (item_skus items)
    → total k (new_reservations now next items) ≡ asked_for (find_item k items)
unfolding new_reservations
total-new_reservations k now next [] d = refl
total-new_reservations k now next (i ∷ is) d = elim (Bool-cases (k == i.sku)) [
  | inl here ↦
      let fresh : contains k (item_skus is) ≡ false = rw (==→eq k i.sku here) d.0 in
      let none_left = total_others k now (next + 1) is fresh in ground (arith, none_left)
  | inr later ↦ ground (arith, total-new_reservations k now (next + 1) is d.1)
]

covered_at :
    (k : ℕ) (rows : List ProductRow) (items : List ReserveItem) (i : ReserveItem) (r : ProductRow)
    → All (IsCovered rows) items
    → find_item k items ≡ some i
    → find_row k rows ≡ some r
    → r.reserved_count + i.delta ≤ r.count
covered_at k rows [] i r h e f = absurd (ground arith)
covered_at k rows (j ∷ is) i r h e f = elim (Bool-cases (k == j.sku)) [
  | inr later ↦ covered_at k rows is i r h.1 (ground arith) f
  | inl here ↦
      let (q, there, room) = h.0 in
      let same : find_row k rows ≡ some q = rw (==→eq k j.sku here) there in ground (arith, same)
]

reserved-IsBacked :
    (k xid : ℕ) (items : List ReserveItem) (rs qs : List Reservation) (r : ProductRow)
    → IsBacked k rs r
    → ((i : ReserveItem) → find_item k items ≡ some i → r.reserved_count + i.delta ≤ r.count)
    → total k qs ≡ asked_for (find_item k items)
    → IsBacked k (rs ++ qs) (reserved_row xid (find_item k items) r)
reserved-IsBacked k xid items rs qs r b room new =
    let sum = total-append k rs qs in
    elim (Option-cases (find_item k items)) [
      | inl nobody ↦ rw nobody (ground (arith, sum, new))
      | inr (i, e) ↦ let fits = room i e in rw e (ground (arith, sum, new))
    ]

pub reserve-IsStocked :
    (p : Platform) (headers : Headers) (items : List ReserveItem) (w : World)
    → Distinct (item_skus items)
    → IsStocked w.tables
    → IsStocked (reserve p (database p) headers items w).1.tables
reserve-IsStocked p headers items w di s =
    let run = reserve p (database p) headers items w in
    elim (Result-cases run.0) [
      | inr (e, failed) ↦
          subst IsStocked
            (sym (reserve_atomic p (database p) headers items w e (database-ReadsOnly p) failed)) s
      | inl (ids, done) ↦
          let all =
            reserve-Done p headers items w run.1 ids di s.distinct (IsStocked-HasWords w.tables s)
              (ap (λ r. (r, run.1)) done) in
          let step = all.step in
          let qs = new_reservations w.now w.next_id items in
          IsStocked-changed w.tables run.1.tables (λ k. reserved_row w.xid (find_item k items)) s
            (reserve-KeepsSkus p (database p) headers (database-ReadsOnly p) items w)
            step.products_at
            λ k r there.
              subst (λ all. IsBacked k all (reserved_row w.xid (find_item k items) r))
                (sym step.reservations_added)
                (reserved-IsBacked k w.xid items w.reservations qs r (s.backed k r there)
                  (λ i e. covered_at k w.products items i r step.covered e there)
                  (total-new_reservations k w.now w.next_id items di))
    ]

module _ (k xid : ℕ) (ids : List ℕ) (rs : List Reservation) (r : ProductRow)
    (b : IsBacked k rs r) where
  abbrev ended : List Reservation
  ended = select (λ r. contains r.id ids) rs

  abbrev going_on : List Reservation
  going_on = select (λ r. not (contains r.id ids)) rs

  confirmed-IsBacked :
      IsBacked k going_on (confirmed_row xid (is_reserved k ended) (total k ended % (2 ^ 32)) r)
  unfolding sub32
  confirmed-IsBacked =
      let split = total_split k ids rs in
      elim (Bool-cases (is_reserved k ended)) [
        | inl some_ended ↦ rw some_ended (omega (arith, split, b.0, b.1, b.2))
        | inr none_ended ↦
            rw none_ended (omega (arith, split, b.0, b.1, b.2, total_unreserved k ended none_ended))
      ]

  released-IsBacked :
      IsBacked k going_on (released_row xid (is_reserved k ended) (total k ended % (2 ^ 32)) r)
  unfolding sub32
  released-IsBacked =
      let split = total_split k ids rs in
      elim (Bool-cases (is_reserved k ended)) [
        | inl some_ended ↦ rw some_ended (omega (arith, split, b.0, b.1, b.2))
        | inr none_ended ↦
            rw none_ended (omega (arith, split, b.0, b.1, b.2, total_unreserved k ended none_ended))
      ]

-- No update makes a count wrap.
abbrev pub HasRoom : List ProductRow → List UpdateCount → Type 0
HasRoom rows us =
    (k : ℕ) (u : UpdateCount) (r : ProductRow)
    → find_update k us ≡ some u
    → find_row k rows ≡ some r
    → r.count + u.delta < u32_mod

increased-IsBacked :
    (k xid : ℕ) (rows : List ProductRow) (us : List UpdateCount) (rs : List Reservation)
    (r : ProductRow)
    → HasRoom rows us
    → find_row k rows ≡ some r
    → IsBacked k rs r
    → IsBacked k rs (increased_row xid (find_update k us) r)
unfolding add32
increased-IsBacked k xid rows us rs r room there b = elim (Option-cases (find_update k us)) [
  | inl nobody ↦ rw nobody b
  | inr (u, e) ↦ let fits = room k u r e there in rw e (omega (arith, fits, b.0, b.1, b.2))
]

module _ (p : Platform) (headers : Headers) (w : World) (range : IsRange p)
    (whole : (n : ℕ) → p.cut n ≡ none) (s : IsStocked w.tables) where
  pub confirm-IsStocked : (ids : List ℕ) → IsStocked (confirm p (database p) ids w).1.tables
  confirm-IsStocked ids =
      let run = confirm p (database p) ids w in
      elim (Result-cases run.0) [
        | inr (e, failed) ↦
            subst IsStocked
              (sym (confirm_atomic p (database p) ids w e (database-ReadsOnly p) failed)) s
        | inl (u, done) ↦
            let rs = select (λ r. contains r.id ids) w.reservations in
            let step = λ (k : ℕ).
              confirm_settles p ids w run.1 k range whole s.distinct (IsStocked-HasWords w.tables s)
                (ap (λ r. (r, run.1)) done) in
            IsStocked-changed w.tables run.1.tables
              (λ k. confirmed_row w.xid (is_reserved k rs) (total k rs % (2 ^ 32))) s
              (confirm-KeepsSkus p (database p) headers (database-ReadsOnly p) ids w)
              (λ k. (step k).0)
              λ k r there.
                subst
                  (λ all.
                    IsBacked k all
                      (confirmed_row w.xid (is_reserved k rs) (total k rs % (2 ^ 32)) r))
                  (sym (step k).1)
                  (confirmed-IsBacked k w.xid ids w.reservations r (s.backed k r there))
      ]

  pub release-IsStocked : (ids : List ℕ) → IsStocked (release p (database p) headers ids w).1.tables
  release-IsStocked ids =
      let run = release p (database p) headers ids w in
      elim (Result-cases run.0) [
        | inr (e, failed) ↦
            subst IsStocked
              (sym (release_atomic p (database p) headers ids w e (database-ReadsOnly p) failed)) s
        | inl (u, done) ↦
            let rs = select (λ r. contains r.id ids) w.reservations in
            let step = λ (k : ℕ).
              release_settles p headers ids w run.1 k range whole s.distinct
                (IsStocked-HasWords w.tables s) (ap (λ r. (r, run.1)) done) in
            IsStocked-changed w.tables run.1.tables
              (λ k. released_row w.xid (is_reserved k rs) (total k rs % (2 ^ 32))) s
              (release-KeepsSkus p (database p) headers (database-ReadsOnly p) ids w)
              (λ k. (step k).0)
              λ k r there.
                subst
                  (λ all.
                    IsBacked k all
                      (released_row w.xid (is_reserved k rs) (total k rs % (2 ^ 32)) r))
                  (sym (step k).1)
                  (released-IsBacked k w.xid ids w.reservations r (s.backed k r there))
      ]

  pub increase_count-IsStocked :
      (us : List UpdateCount)
      → Distinct (update_skus us)
      → HasRoom w.products us
      → IsStocked (increase_count p (database p) headers us w).1.tables
  increase_count-IsStocked us du room =
      let run = increase_count p (database p) headers us w in
      elim (Result-cases run.0) [
        | inr (e, failed) ↦
            subst IsStocked
              (sym
                (increase_count_atomic p (database p) headers us w e (database-ReadsOnly p) failed))
              s
        | inl (u, done) ↦
            let step = λ (k : ℕ).
              increase_count_grows p headers us w run.1 k range whole du s.distinct
                (IsStocked-HasWords w.tables s) (ap (λ r. (r, run.1)) done) in
            IsStocked-changed w.tables run.1.tables (λ k. increased_row w.xid (find_update k us)) s
              (increase_count-KeepsSkus p (database p) headers (database-ReadsOnly p) us w)
              (λ k. (step k).0)
              λ k r there.
                subst (λ all. IsBacked k all (increased_row w.xid (find_update k us) r))
                  (sym (step k).1)
                  (increased-IsBacked k w.xid w.products us w.reservations r room there
                    (s.backed k r there))
      ]
