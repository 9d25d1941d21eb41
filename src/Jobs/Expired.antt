-- ===== src/Jobs/Expired.antt =====
-- What a tick of the expiry job does to the reservations and to the stock.
use marketplace_simulator_pr.Common.{
  ◌-◌, ◌+◌, ℕ, ◌%◌, ◌^◌, ◌≡◌, refl, sym, ◌∙◌, ap, subst, Bool, true, false, not, none, List, [],
  ◌∷◌, arith, Bool-cases, inl, inr, ◌==◌, ltb, contains, select, All, All-map_imp, All-both,
  Distinct,
}
use mathlib.Core.Option
use marketplace_simulator_pr.Common.Int.{ℤ, pos, negsuc, pos_part, neg_part}
use marketplace_simulator_pr.Errors.{ok}
use marketplace_simulator_pr.Models.{Reservation}
use marketplace_simulator_pr.Events.{Headers}
use marketplace_simulator_pr.Store.World.{World, Platform, >>=-ok, wrapped, wrapped-ok, counted}
use marketplace_simulator_pr.Store.Products.Rows.{row_skus, find_row}
use marketplace_simulator_pr.Store.Reservations.{get_expired}
use marketplace_simulator_pr.Usecases.Reads.{HasWords, database}
use marketplace_simulator_pr.Usecases.Reservation.Sums.{total, is_reserved, IsRange}
use marketplace_simulator_pr.Usecases.Reservation.Released.{
  released_row, release_settles, untouched_row,
}
use marketplace_simulator_pr.Jobs.Expiry.{ids_of, release_expired, cutoff_of, tick_expiry}

select-same :
    {A : Type 0} (s t : A → Bool) (xs : List A)
    → All (λ x. s x ≡ t x) xs
    → select s xs ≡ select t xs
select-same s t [] h = refl
select-same s t (x ∷ xs) h = elim (Bool-cases (t x)) [
  | inl yes_t ↦
      let yes_s : s x ≡ true = h.0 ∙ yes_t in
      rw (yes_s, yes_t) (ap (λ r. x ∷ r) (select-same s t xs h.1))
  | inr no_t ↦ let no_s : s x ≡ false = h.0 ∙ no_t in rw (no_s, no_t) (select-same s t xs h.1)
]

contains-ids_of :
    (k : ℕ) (t : Reservation → Bool) (rs : List Reservation)
    → contains k (ids_of rs) ≡ false
    → contains k (ids_of (select t rs)) ≡ false
contains-ids_of k t [] h = refl
contains-ids_of k t (r ∷ rs) h = ground (arith, contains-ids_of k t rs)

others :
    (k : ℕ) (rs : List Reservation)
    → contains k (ids_of rs) ≡ false
    → All (λ r. (r.id == k) ≡ false) rs
others k [] h = tt
others k (r ∷ rs) h = (ground arith, others k rs (ground arith))

-- Where ids are distinct, the ids of the records that are selected select them again.
selected_again :
    (t : Reservation → Bool) (rs : List Reservation)
    → Distinct (ids_of rs)
    → All (λ r. contains r.id (ids_of (select t rs)) ≡ t r) rs
selected_again t [] d = tt
selected_again t (r ∷ rs) (fresh, d) =
    let rest = selected_again t rs d in
    let apart = others r.id rs fresh in
    elim (Bool-cases (t r)) [
      | inl yes_t ↦ (
        ground (arith, yes_t),
        All-both (λ q. contains q.id (ids_of (select t rs)) ≡ t q) (λ q. (q.id == r.id) ≡ false)
            (λ q. contains q.id (ids_of (select t (r ∷ rs))) ≡ t q) rs
            (λ q same differs. ground (arith, yes_t, same, differs)) rest apart,
      )
      | inr no_t ↦ (
        ground (arith, no_t, contains-ids_of r.id t rs fresh),
        All-map_imp (λ q. contains q.id (ids_of (select t rs)) ≡ t q)
            (λ q. contains q.id (ids_of (select t (r ∷ rs))) ≡ t q) rs
            (λ q same. ground (arith, no_t, same)) rest,
      )
    ]

get_expired-ok :
    (p : Platform) (cutoff : ℕ) (w w' : World) (rs : List Reservation)
    → ((n : ℕ) → p.cut n ≡ none)
    → get_expired p cutoff w ≡ (ok rs, w')
    → (rs ≡ select (λ r. ltb r.created_at cutoff) w.reservations) × (w' ≡ counted w)
unfolding get_expired
get_expired-ok p cutoff w w' rs whole h =
    (ground (arith, whole w.calls), ground (arith, whole w.calls))

nothing_selected :
    {A : Type 0} (t : A → Bool) (xs : List A) → select t xs ≡ [] → xs ≡ select (λ x. not (t x)) xs
nothing_selected t [] h = refl
nothing_selected t (x ∷ xs) h = elim (Bool-cases (t x)) [
  | inl picked ↦ absurd (ground arith)
  | inr passed ↦ ground (arith, nothing_selected t xs)
]

-- What the release of the expired reservations should do.
abbrev pub Expires : (cutoff k : ℕ) (w w' : World) → Type 0
Expires cutoff k w w' =
    let expired = select (λ r. ltb r.created_at cutoff) w.reservations in
    (w'.reservations ≡ select (λ r. not (ltb r.created_at cutoff)) w.reservations)
    × (find_row k w'.products
        ≡ Option.map (released_row w.xid (is_reserved k expired) (total k expired % (2 ^ 32)))
            (find_row k w.products))

release_expired-Expires :
    (p : Platform) (headers : Headers) (rs : List Reservation) (w w' : World) (cutoff k : ℕ)
    → IsRange p
    → ((n : ℕ) → p.cut n ≡ none)
    → Distinct (row_skus w.products)
    → HasWords w.products
    → Distinct (ids_of w.reservations)
    → select (λ r. ltb r.created_at cutoff) w.reservations ≡ rs
    → release_expired p (database p) headers rs w ≡ (ok tt, w')
    → Expires cutoff k w w'
unfolding release_expired
release_expired-Expires p headers [] w w' cutoff k range whole dw words ids e h =
    let same : w' ≡ w = ground arith in
    (
      ap (λ (v : World). v.reservations) same
          ∙ nothing_selected (λ r. ltb r.created_at cutoff) w.reservations e,
      ap (λ (v : World). find_row k v.products) same
          ∙ untouched_row w.xid (total k [] % (2 ^ 32)) (find_row k w.products)
          ∙ ap
              (λ xs.
                Option.map (released_row w.xid (is_reserved k xs) (total k xs % (2 ^ 32)))
                  (find_row k w.products))
              (sym e),
    )
release_expired-Expires p headers (r ∷ rs) w w' cutoff k range whole dw words ids e h =
    let t = λ (r : Reservation). ltb r.created_at cutoff in
    let (row, left) = release_settles p headers (ids_of (r ∷ rs)) w w' k range whole dw words h in
    let again : All (λ q. contains q.id (ids_of (r ∷ rs)) ≡ t q) w.reservations =
      subst (λ xs. All (λ q. contains q.id (ids_of xs) ≡ t q) w.reservations) e
        (selected_again t w.reservations ids) in
    let picked = select-same (λ q. contains q.id (ids_of (r ∷ rs))) t w.reservations again in
    let passed =
      select-same (λ q. not (contains q.id (ids_of (r ∷ rs)))) (λ q. not (t q)) w.reservations
        (All-map_imp (λ q. contains q.id (ids_of (r ∷ rs)) ≡ t q)
          (λ q. not (contains q.id (ids_of (r ∷ rs))) ≡ not (t q)) w.reservations (λ q. ap not)
          again) in
    (
      left ∙ passed,
      row
          ∙ ap
              (λ xs.
                Option.map (released_row w.xid (is_reserved k xs) (total k xs % (2 ^ 32)))
                  (find_row k w.products))
              picked,
    )

cutoff_of_lem : (ttl : ℤ) (now : ℕ) → cutoff_of ttl now ≡ now + neg_part ttl - pos_part ttl
cutoff_of_lem (pos n) now = omega arith
cutoff_of_lem (negsuc n) now = omega arith

-- A tick of the expiry job that succeeds, against the database's repository, with no query cut
-- short, each `range` meeting every key once, rows with distinct SKUs and counts that fit 32 bits,
-- and reservations with distinct ids. Take the reservations from before the tick's time less the
-- time to live, or before the first moment where the time to live is longer: those and no others
-- are gone, the row of a SKU that has some of them has what they come to less reserved and
-- the same count, and every other row is as it was.
pub tick_expiry-Expires :
    (p : Platform) (headers : Headers) (ttl : ℤ) (w w' : World) (k : ℕ)
    → IsRange p
    → ((n : ℕ) → p.cut n ≡ none)
    → Distinct (row_skus w.products)
    → HasWords w.products
    → Distinct (ids_of w.reservations)
    → tick_expiry p (database p) headers ttl w ≡ (ok tt, w')
    → Expires (w.now + neg_part ttl - pos_part ttl) k w w'
unfolding tick_expiry
tick_expiry-Expires p headers ttl w w' k range whole dw words ids h =
    let cutoff = cutoff_of ttl w.now in
    let (rs, w₁, h₁, k₁) =
      >>=-ok (wrapped "GetExpired" (get_expired p cutoff)) (release_expired p (database p) headers)
        w h in
    let (found, e₁) =
      get_expired-ok p cutoff w w₁ rs whole (wrapped-ok "GetExpired" (get_expired p cutoff) w h₁) in
    let from : release_expired p (database p) headers rs (counted w) ≡ (ok tt, w') =
      ap (release_expired p (database p) headers rs) (sym e₁) ∙ k₁ in
    subst (λ c. Expires c k w w') (cutoff_of_lem ttl w.now)
      (release_expired-Expires p headers rs (counted w) w' cutoff k range whole dw words ids
        (sym found) from)
