-- ===== src/Usecases/Built.antt =====
-- Which events are built of a change.
use marketplace_simulator_pr.Common.{
  ℕ, ◌^◌, ◌<◌, ◌≡◌, refl, sym, ◌∙◌, ap, subst, String, true, Option, none, some, List, [], ◌∷◌,
  arith, Bool-cases, Option-cases, inl, inr, ◌==◌, ==→eq, if◌then◌else◌, contains, All, Distinct,
  Map, length, lookup, keys, entries_at,
}
use marketplace_simulator_pr.Errors.{ok, Result-cases}
use marketplace_simulator_pr.Models.{Product, NewEvent}
use marketplace_simulator_pr.Events.{
  Headers, format_uint, event_data, build_record, build_all, build_records,
}
use marketplace_simulator_pr.Events.Digits.{format_uint-inj}
use marketplace_simulator_pr.Store.World.{Platform}
use marketplace_simulator_pr.Store.Products.Rows.{skus_of, find_product}
use marketplace_simulator_pr.Store.Outbox.{eq_text}
use marketplace_simulator_pr.Store.Outbox.Texts.{eq_text_refl, eq_text_sound}
use marketplace_simulator_pr.Usecases.Repository.{snapshot, plan_events}
use marketplace_simulator_pr.Usecases.Reservation.Sums.{IsRange, snapshot-Distinct, lookup-snapshot}

-- The event with a key.
abbrev pub find_event : List ℕ → List NewEvent → Option NewEvent
find_event key [] = none
find_event key (e ∷ es) = if eq_text key e.key then some e else find_event key es

-- The event that the service builds of a change from `old` to `new`.
abbrev pub IsBuilt : Platform → Headers → Product → Product → NewEvent → Type 0
IsBuilt p headers old new e =
    (e.key ≡ format_uint new.sku)
    × (p.marshal (event_data old new) ≡ ok e.content)
    × (e.headers ≡ headers)

-- Each product stands under its SKU, of 64 bits.
abbrev IsUnder : ℕ × Product → Type 0
IsUnder q = (q.1.sku ≡ q.0) × (q.0 < 2 ^ 64)

eq_text-format_uint :
    (k j : ℕ) → k < 2 ^ 64 → j < 2 ^ 64 → eq_text (format_uint k) (format_uint j) ≡ (k == j)
eq_text-format_uint k j hk hj = elim (Bool-cases (k == j)) [
  | inl same ↦
      ap (λ i. eq_text (format_uint i) (format_uint j)) (==→eq k j same)
      ∙ eq_text_refl (format_uint j)
      ∙ sym same
  | inr other ↦ elim (Bool-cases (eq_text (format_uint k) (format_uint j))) [
    | inr differ ↦ differ ∙ sym other
    | inl equal ↦
        let e : k ≡ j = format_uint-inj k j hk hj (eq_text_sound _ _ equal) in absurd (ground arith)
  ]
]

lookup-entries_at :
    (k : ℕ) (ks : List ℕ) (m : Map Product)
    → lookup k (entries_at ks m) ≡ (if contains k ks then lookup k m else none)
lookup-entries_at k [] m = refl
lookup-entries_at k (j ∷ ks) m =
    let ih = lookup-entries_at k ks m in
    elim (Bool-cases (k == j)) [
      | inl same ↦
          let e : k ≡ j = ==→eq k j same in
          elim (Option-cases (lookup j m)) [
            | inl gone ↦ ground (arith, gone, ih, ap (λ i. lookup i m) e)
            | inr (x, there) ↦ ground (arith, there, ap (λ i. lookup i m) e)
          ]
      | inr other ↦ elim (Option-cases (lookup j m)) [
        | inl gone ↦ ground (arith, gone, ih)
        | inr (x, there) ↦ ground (arith, there, ih)
      ]
    ]

contains-keys_found :
    (k : ℕ) (m : Map Product) (x : Product) → lookup k m ≡ some x → contains k (keys m) ≡ true
contains-keys_found k [] x h = absurd (ground arith)
contains-keys_found k (q ∷ m) x h = ground (arith, contains-keys_found k m x)

-- The events that a change plans are those that the loop over the map builds.
plan_events-ok :
    (p : Platform) (headers : Headers) (prefix : String) (before after kept : List Product)
    (events : List NewEvent)
    → plan_events p headers prefix before after ≡ ok (kept, events)
    → build_all p headers
        (snapshot before)
        (entries_at (p.visit 0 (keys (snapshot after))) (snapshot after))
      ≡ ok events
unfolding plan_events build_records
plan_events-ok p headers prefix before after kept events h =
    elim (Bool-cases (length (snapshot before) == length (snapshot after))) [
      | inr unlike ↦ absurd (ground (arith, unlike))
      | inl alike ↦
          elim (Result-cases (
            build_all p headers (snapshot before)
              (entries_at (p.visit 0 (keys (snapshot after))) (snapshot after)))) [
                | inr (e, bad) ↦ absurd (ground (arith, alike, bad))
                | inl (built, good) ↦ ground (arith, alike, good)
              ]
    ]

All-lookup :
    (P : ℕ × Product → Type 0) (k : ℕ) (m : Map Product) (x : Product)
    → All P m
    → lookup k m ≡ some x
    → P (k, x)
All-lookup P k [] x h e = absurd (ground arith)
All-lookup P k (q ∷ m) x h e = elim (Bool-cases (k == q.0)) [
  | inl here ↦ let is : q ≡ (k, x) = ground (arith, ==→eq k q.0 here) in subst P is h.0
  | inr later ↦ All-lookup P k m x h.1 (ground arith)
]

All-entries_at :
    (P : ℕ × Product → Type 0) (ks : List ℕ) (m : Map Product) → All P m → All P (entries_at ks m)
All-entries_at P [] m h = tt
All-entries_at P (k ∷ ks) m h = elim (Option-cases (lookup k m)) [
  | inl gone ↦ rw (gone, entries_at, All) (All-entries_at P ks m h)
  | inr (x, there) ↦
      rw (there, entries_at, All) (All-lookup P k m x h there, All-entries_at P ks m h)
]

snapshot-IsUnder : (xs : List Product) → All (λ x. x.sku < 2 ^ 64) xs → All IsUnder (snapshot xs)
unfolding snapshot
snapshot-IsUnder [] h = tt
snapshot-IsUnder (x ∷ xs) h = elim (Bool-cases (contains x.sku (skus_of xs))) [
  | inl again ↦ rw (again, snapshot) (snapshot-IsUnder xs h.1)
  | inr fresh ↦ rw (fresh, snapshot) ((refl, h.0), snapshot-IsUnder xs h.1)
]

module _ (p : Platform) (headers : Headers) (olds : Map Product) where
  build_record-IsBuilt :
      (sku : ℕ) (new : Product) (e : NewEvent)
      → build_record p headers olds sku new ≡ ok e
      → (old : Product) × (lookup sku olds ≡ some old) × IsBuilt p headers old new e
  unfolding build_record
  build_record-IsBuilt sku new e h = elim (Option-cases (lookup sku olds)) [
    | inl gone ↦ absurd (ground (arith, gone))
    | inr (old, there) ↦ elim (Result-cases (p.marshal (event_data old new))) [
      | inr (x, bad) ↦ absurd (ground (arith, there, bad))
      | inl (text, good) ↦
          let is : e ≡ record { key = format_uint new.sku; content = text; headers = headers } =
            ground (arith, there, good) in
          (
            old,
            there,
            (
              ap (λ (d : NewEvent). d.key) is,
              good ∙ ap (λ (d : NewEvent). ok d.content) (sym is),
              ap (λ (d : NewEvent). d.headers) is,
            ),
          )
    ]
  ]

  build_all-IsBuilt :
      (es : Map Product) (events : List NewEvent) (k : ℕ) (new : Product)
      → build_all p headers olds es ≡ ok events
      → All IsUnder es
      → k < 2 ^ 64
      → lookup k es ≡ some new
      → (e : NewEvent) × (find_event (format_uint k) events ≡ some e)
        × ((old : Product) × (lookup k olds ≡ some old) × IsBuilt p headers old new e)
  unfolding build_all
  build_all-IsBuilt [] events k new h under hk at_k = absurd (ground arith)
  build_all-IsBuilt ((sku, x) ∷ es) events k new h (mine, under) hk at_k =
      elim (Result-cases (build_record p headers olds sku x)) [
        | inr (y, bad) ↦ absurd (ground (arith, bad))
        | inl (e, one) ↦ elim (Result-cases (build_all p headers olds es)) [
          | inr (y, bad) ↦ absurd (ground (arith, one, bad))
          | inl (rest, others) ↦
              let (old, there, tells) = build_record-IsBuilt sku x e one in
              let is : events ≡ e ∷ rest = ground (arith, one, others) in
              let same_key : eq_text (format_uint k) e.key ≡ (k == sku) =
                ap (λ t. eq_text (format_uint k) t) (tells.0 ∙ ap format_uint mine.0)
                ∙ eq_text-format_uint k sku hk mine.1 in
              elim (Bool-cases (k == sku)) [
                | inl here ↦
                    let e_k : k ≡ sku = ==→eq k sku here in
                    let it : x ≡ new = ground arith in
                    (
                      e,
                      ground (arith, is, same_key, here),
                      (
                        old,
                        ap (λ i. lookup i olds) e_k ∙ there,
                        subst (λ y. IsBuilt p headers old y e) it tells,
                      ),
                    )
                | inr later ↦
                    let (f, found, told) =
                      build_all-IsBuilt es rest k new others under hk (ground arith) in
                    (f, ground (arith, is, same_key, later, found), told)
              ]
        ]
      ]

pub plan_events-event :
    (p : Platform) (headers : Headers) (prefix : String) (before after kept : List Product)
    (events : List NewEvent) (k : ℕ) (new : Product)
    → IsRange p
    → Distinct (skus_of before)
    → Distinct (skus_of after)
    → All (λ x. x.sku < 2 ^ 64) after
    → k < 2 ^ 64
    → plan_events p headers prefix before after ≡ ok (kept, events)
    → find_product k after ≡ some new
    → (e : NewEvent) × (find_event (format_uint k) events ≡ some e)
      × ((old : Product) × (find_product k before ≡ some old) × IsBuilt p headers old new e)
plan_events-event p headers prefix before after kept events k new range db da small hk h at_k =
    let ks = keys (snapshot after) in
    let (dv, same) = range 0 ks (subst Distinct (sym (snapshot-Distinct after da)) da) in
    let new_at : lookup k (snapshot after) ≡ some new = lookup-snapshot k after da ∙ at_k in
    let listed : lookup k (entries_at (p.visit 0 ks) (snapshot after)) ≡ some new =
      lookup-entries_at k (p.visit 0 ks) (snapshot after)
      ∙ ap (λ b. if b then lookup k (snapshot after) else none)
          (same k ∙ contains-keys_found k (snapshot after) new new_at)
      ∙ new_at in
    let built : build_all p headers (snapshot before) (entries_at (p.visit 0 ks) (snapshot after))
        ≡ ok events =
      plan_events-ok p headers prefix before after kept events h in
    let (e, found, (old, there, tells)) =
      build_all-IsBuilt p headers (snapshot before) (entries_at (p.visit 0 ks) (snapshot after))
        events k new built
        (All-entries_at IsUnder (p.visit 0 ks) (snapshot after) (snapshot-IsUnder after small)) hk
        listed in
    (e, found, (old, sym (lookup-snapshot k before db) ∙ there, tells))
