-- ===== src/Store/Outbox/Ordered.antt =====
-- The order in which `GetPending` gives out product events.
use marketplace_simulator_pr.Common.{
  ℕ, zero, suc, ◌≤◌, ◌≡◌, sym, ◌∙◌, ap, Bool, true, false, not, ◌||◌, none, some, List, [], ◌∷◌,
  arith, leb, Bool-cases, Option-cases, inl, inr, select, take, length, All, All-map_imp, All-both,
}
use marketplace_simulator_pr.Models.{EventRecord}
use marketplace_simulator_pr.Errors.{ok}
use marketplace_simulator_pr.Store.World.{World, Platform}
use marketplace_simulator_pr.Store.Outbox.{
  leb_text, eq_text, comes_first, sorted, first_of_key, pending,
}
use marketplace_simulator_pr.Store.Outbox.ProductEvents.{same_key, key_before, get_pending}
use marketplace_simulator_pr.Store.Outbox.Texts.{eq_text_refl, eq_text_sound, leb_text_antisym}
use marketplace_simulator_pr.Store.Outbox.Pending.{live, All-take, All-sorted, All-first_of_key}
use marketplace_simulator_pr.Store.Outbox.Sorting.{le, Sorted, sorted-Sorted, All-unsorted}

-- A record that no record of its key is older than.
abbrev pub no_older : EventRecord → EventRecord → Bool
no_older r e = not (same_key r.body e.body) || leb r.created_at e.created_at

-- The keys of the records differ.
abbrev pub Differ : List EventRecord → Type 0
Differ [] = Unit
Differ (r ∷ rs) = All (λ q. same_key r.body q.body ≡ false) rs × Differ rs

-- A record that comes no later, and is of another key, is of another key than all that come after
-- the one it precedes.
apart :
    (x e r : EventRecord)
    → le x e ≡ true
    → le e r ≡ true
    → same_key x.body e.body ≡ false
    → same_key x.body r.body ≡ false
unfolding comes_first
apart x e r first next differ = elim (Bool-cases (same_key x.body r.body)) [
  | inr ends ↦ ends
  | inl one ↦
      let is = eq_text_sound x.body.key r.body.key one in
      elim (Bool-cases (same_key e.body r.body)) [
        | inl er ↦
            let is' = eq_text_sound e.body.key r.body.key er in
            let xe : x.body.key ≡ e.body.key = is ∙ sym is' in
            absurd
              (ground (arith, differ, ap (λ k. eq_text k e.body.key) xe, eq_text_refl e.body.key))
        | inr er ↦
            let forth : leb_text x.body.key e.body.key ≡ true = ground (arith, differ) in
            let on : leb_text e.body.key r.body.key ≡ true = ground (arith, er) in
            let back : leb_text e.body.key x.body.key ≡ true =
              ap (λ k. leb_text e.body.key k) is ∙ on in
            let xe = leb_text_antisym x.body.key e.body.key forth back in
            absurd
              (ground (arith, differ, ap (λ k. eq_text k e.body.key) xe, eq_text_refl e.body.key))
      ]
]

-- What is true of a record that is given, against one of the table.
no_older_self : (e f : EventRecord) → le e f ≡ true → no_older e f ≡ true
unfolding comes_first
no_older_self e f h = ground (arith)

no_older_apart : (r e : EventRecord) → same_key r.body e.body ≡ false → no_older r e ≡ true
no_older_apart r e h = ground (arith, h)

-- Of the key of one of two records that differ, a third one is of another key than the other.
apart_of :
    (x e r : EventRecord)
    → same_key x.body e.body ≡ true
    → same_key x.body r.body ≡ false
    → same_key r.body e.body ≡ false
apart_of x e r one differ = elim (Bool-cases (same_key r.body e.body)) [
  | inr ends ↦ ends
  | inl re ↦
      let xr : x.body.key ≡ r.body.key =
        eq_text_sound x.body.key e.body.key one ∙ sym (eq_text_sound r.body.key e.body.key re) in
      absurd (ground (arith, differ, ap (λ k. eq_text k r.body.key) xr, eq_text_refl r.body.key))
]

-- Whom a list of records that were given has before it, and that each is the oldest of its key.
abbrev GivesOldest : List EventRecord → List EventRecord → Type 0
GivesOldest es rs = All (λ r. All (λ e. no_older r e ≡ true) es) rs × Differ rs

-- A record that is given first, and those that are given after it.
GivesOldest-first :
    (e : EventRecord) (es rs : List EventRecord)
    → All (λ f. le e f ≡ true) es
    → All (λ r. same_key e.body r.body ≡ false) rs
    → GivesOldest es rs
    → GivesOldest (e ∷ es) (e ∷ rs)
GivesOldest-first e es rs first differ (oldest, apart_all) =
    let self = eq_text_refl e.body.key in
    (
      (
        (
          ground (arith, self),
          All-map_imp (λ f. le e f ≡ true) (λ f. no_older e f ≡ true) es (no_older_self e) first,
        ),
        All-both (λ r. same_key e.body r.body ≡ false) (λ r. All (λ f. no_older r f ≡ true) es)
            (λ r. All (λ f. no_older r f ≡ true) (e ∷ es)) rs
            (λ r d o. (no_older_apart r e (apart_of e e r self d), o)) differ oldest,
      ),
      (differ, apart_all),
    )

first_of_key-GivesOldest :
    (x : EventRecord) (es : List EventRecord)
    → All (λ e. le x e ≡ true) es
    → Sorted es
    → let rs = first_of_key same_key key_before (some x) es in
      All (λ r. same_key x.body r.body ≡ false) rs × GivesOldest es rs
unfolding first_of_key
first_of_key-GivesOldest x [] later h = (tt, (tt, tt))
first_of_key-GivesOldest x (e ∷ es) later h = elim (Bool-cases (same_key x.body e.body)) [
  | inl one ↦
      let (differ, (oldest, apart_all)) = first_of_key-GivesOldest x es later.1 h.1 in
      let rs = first_of_key same_key key_before (some x) es in
      rw (one, first_of_key)
        (
          differ,
          (
            All-both (λ r. same_key x.body r.body ≡ false) (λ r. All (λ f. no_older r f ≡ true) es)
                (λ r. All (λ f. no_older r f ≡ true) (e ∷ es)) rs
                (λ r d o. (no_older_apart r e (apart_of x e r one d), o)) differ oldest,
            apart_all,
          ),
        )
  | inr another ↦
      let (differ, gives) = first_of_key-GivesOldest e es h.0 h.1 in
      let rs = first_of_key same_key key_before (some e) es in
      let after = All-first_of_key same_key key_before (λ r. le e r ≡ true) (some e) es h.0 in
      rw (another, first_of_key)
        (
          (
            another,
            All-map_imp (λ r. le e r ≡ true) (λ r. same_key x.body r.body ≡ false) rs
                (λ r next. apart x e r later.0 next another) after,
          ),
          GivesOldest-first e es rs h.0 differ gives,
        )
]

first_of_key-start :
    (es : List EventRecord) → Sorted es → GivesOldest es (first_of_key same_key key_before none es)
unfolding first_of_key
first_of_key-start [] h = (tt, tt)
first_of_key-start (e ∷ es) h =
    let (differ, gives) = first_of_key-GivesOldest e es h.0 h.1 in
    GivesOldest-first e es (first_of_key same_key key_before (some e) es) h.0 differ gives

Differ-take : (n : ℕ) (rs : List EventRecord) → Differ rs → Differ (take n rs)
Differ-take zero rs h = tt
Differ-take (suc n) [] h = tt
Differ-take (suc n) (r ∷ rs) h =
    (All-take (λ q. same_key r.body q.body ≡ false) n rs h.0, Differ-take n rs h.1)

length-take_le : (n : ℕ) (rs : List EventRecord) → length (take n rs) ≤ n
length-take_le zero rs = omega arith
length-take_le (suc n) [] = omega arith
length-take_le (suc n) (r ∷ rs) = omega (arith, length-take_le n rs)

All-selected : {A : Type 0} (t : A → Bool) (xs : List A) → All (λ x. t x ≡ true) (select t xs)
All-selected t [] = tt
All-selected t (x ∷ xs) = elim (Bool-cases (t x)) [
  | inl picked ↦ rw picked (picked, All-selected t xs)
  | inr passed ↦ rw passed (All-selected t xs)
]

live-alive : (es : List EventRecord) → All (λ e. e.is_dead_letter ≡ false) (live es)
live-alive es =
    All-map_imp (λ e. not e.is_dead_letter ≡ true) (λ e. e.is_dead_letter ≡ false) (live es)
      (λ e h. ground (arith, h)) (All-selected (λ e. not e.is_dead_letter) es)

-- Whatever `GetPending` returns is what its query selects, with no row lost.
get_pending-rows_lem :
    (p : Platform) (limit : ℕ) (w w' : World) (rs : List EventRecord)
    → get_pending p limit w ≡ (ok rs, w')
    → rs ≡ pending same_key key_before limit w.product_events
unfolding get_pending
get_pending-rows_lem p limit w w' rs h = elim (Option-cases (p.fault w.calls)) [
  | inr (m, down) ↦ absurd (ground arith)
  | inl calm ↦ elim (Option-cases (p.cut w.calls)) [
    | inr (m, short) ↦ absurd (ground arith)
    | inl whole ↦ ground arith
  ]
]

-- In order by key. The records that `GetPending` gives are live, at most as many as it was asked
-- for, their keys differ, and no live record of the table with the key of one of them is older
-- than it.
pub get_pending-in_order :
    (p : Platform) (limit : ℕ) (w w' : World) (rs : List EventRecord)
    → get_pending p limit w ≡ (ok rs, w')
    → All (λ r. r.is_dead_letter ≡ false) rs
      × (length rs ≤ limit)
      × Differ rs
      × All (λ r. All (λ e. no_older r e ≡ true) (live w.product_events)) rs
unfolding pending
get_pending-in_order p limit w w' rs h =
    let es = live w.product_events in
    let all : List EventRecord =
      first_of_key same_key key_before none (sorted same_key key_before es) in
    let given : rs ≡ take limit all = get_pending-rows_lem p limit w w' rs h in
    let (oldest, differ) = first_of_key-start (sorted same_key key_before es) (sorted-Sorted es) in
    let oldest_of_all : All (λ r. All (λ e. no_older r e ≡ true) es) all =
      All-map_imp (λ r. All (λ e. no_older r e ≡ true) (sorted same_key key_before es))
        (λ r. All (λ e. no_older r e ≡ true) es) all
        (λ r. All-unsorted (λ e. no_older r e ≡ true) es) oldest in
    let alive : All (λ r. r.is_dead_letter ≡ false) all =
      All-first_of_key same_key key_before (λ r. r.is_dead_letter ≡ false) none
        (sorted same_key key_before es)
        (All-sorted same_key key_before (λ r. r.is_dead_letter ≡ false) es
          (live-alive w.product_events)) in
    rw given (
      All-take (λ r. r.is_dead_letter ≡ false) limit all alive,
      length-take_le limit all,
      Differ-take limit all differ,
      All-take (λ r. All (λ e. no_older r e ≡ true) es) limit all oldest_of_all,
    )
