-- ===== src/Store/Outbox/Pending.antt =====
-- What `GetPending` gives of an outbox that has live records, and what deleting it leaves.
use marketplace_simulator_pr.Common.{
  ℕ, zero, suc, ◌≤◌, ◌<◌, ◌≡◌, refl, sym, ◌∙◌, ap, Bool, true, not, ◌||◌, Option, none, some, List,
  [], ◌∷◌, arith, Bool-cases, inl, inr, ◌==◌, select, contains, take, length, All, ==→eq,
}
use marketplace_simulator_pr.Models.{Entry}
use marketplace_simulator_pr.Store.Outbox.{
  comes_first, insert_sorted, sorted, first_of_key, pending, deleted,
}

abbrev pub entry_ids : {A : Type 0} → List (Entry A) → List ℕ
entry_ids [] = []
entry_ids (e ∷ es) = e.record_id ∷ entry_ids es

-- The records that are no dead letters.
abbrev pub live : {A : Type 0} → List (Entry A) → List (Entry A)
live es = select (λ e. not e.is_dead_letter) es

All-select :
    {A : Type 0} (P : A → Type 0) (t : A → Bool) (xs : List A) → All P xs → All P (select t xs)
All-select P t [] h = tt
All-select P t (x ∷ xs) h = elim (Bool-cases (t x)) [
  | inl picked ↦ rw picked (h.0, All-select P t xs h.1)
  | inr passed ↦ rw passed (All-select P t xs h.1)
]

pub All-take :
    {A : Type 0} (P : Entry A → Type 0) (n : ℕ) (es : List (Entry A)) → All P es → All P (take n es)
All-take P zero es h = tt
All-take P (suc n) [] h = tt
All-take P (suc n) (e ∷ es) h = (h.0, All-take P n es h.1)

module _ {A : Type 0} (same earlier : A → A → Bool) where
  contains-insert_sorted :
      (k : ℕ) (e : Entry A) (es : List (Entry A))
      → contains k (entry_ids (insert_sorted same earlier e es))
        ≡ (k == e.record_id || contains k (entry_ids es))
  unfolding insert_sorted
  contains-insert_sorted k e [] = refl
  contains-insert_sorted k e (x ∷ xs) = ground (arith, contains-insert_sorted k e xs)

  contains-sorted :
      (k : ℕ) (es : List (Entry A))
      → contains k (entry_ids (sorted same earlier es)) ≡ contains k (entry_ids es)
  unfolding sorted
  contains-sorted k [] = refl
  contains-sorted k (e ∷ es) =
      contains-insert_sorted k e (sorted same earlier es)
      ∙ ap (λ b. k == e.record_id || b) (contains-sorted k es)

  pub All-insert_sorted :
      (P : Entry A → Type 0) (e : Entry A) (es : List (Entry A))
      → P e
      → All P es
      → All P (insert_sorted same earlier e es)
  unfolding insert_sorted
  All-insert_sorted P e [] pe h = (pe, tt)
  All-insert_sorted P e (x ∷ xs) pe h = elim (Bool-cases (comes_first same earlier e x)) [
    | inl first ↦ rw (first, insert_sorted) (pe, h)
    | inr later ↦ rw (later, insert_sorted) (h.0, All-insert_sorted P e xs pe h.1)
  ]

  pub All-sorted :
      (P : Entry A → Type 0) (es : List (Entry A)) → All P es → All P (sorted same earlier es)
  unfolding sorted
  All-sorted P [] h = tt
  All-sorted P (e ∷ es) h = All-insert_sorted P e (sorted same earlier es) h.0 (All-sorted P es h.1)

  pub All-first_of_key :
      (P : Entry A → Type 0) (last : Option (Entry A)) (es : List (Entry A))
      → All P es
      → All P (first_of_key same earlier last es)
  unfolding first_of_key
  All-first_of_key P last [] h = tt
  All-first_of_key P none (e ∷ es) h = (h.0, All-first_of_key P (some e) es h.1)
  All-first_of_key P (some x) (e ∷ es) h = elim (Bool-cases (same x.body e.body)) [
    | inl again ↦ rw (again, first_of_key) (All-first_of_key P (some x) es h.1)
    | inr fresh ↦ rw (fresh, first_of_key) (h.0, All-first_of_key P (some e) es h.1)
  ]

  -- What holds of every record holds of those that `GetPending` gives.
  pub All-pending :
      (P : Entry A → Type 0) (limit : ℕ) (es : List (Entry A))
      → All P es
      → All P (pending same earlier limit es)
  unfolding pending
  All-pending P limit es h =
      All-take P limit (first_of_key same earlier none (sorted same earlier (live es))) (
        All-first_of_key P none (sorted same earlier (live es))
          (All-sorted P (live es) (All-select P (λ e. not e.is_dead_letter) es h)))

  first_given :
      (limit : ℕ) (es : List (Entry A)) (k : ℕ)
      → contains k (entry_ids es) ≡ true
      → (r : Entry A) × (rs : List (Entry A)) × (take
            (suc limit)
            (first_of_key same earlier none es)
          ≡ r ∷ rs)
        × (contains r.record_id (entry_ids es) ≡ true)
  unfolding first_of_key
  first_given limit [] k h = absurd (ground arith)
  first_given limit (e ∷ es) k h =
      (e, take limit (first_of_key same earlier (some e) es), refl, ground arith)

  -- A query that asks for a record at least gives one, if there is a live one.
  pub pending-some :
      (limit : ℕ) (es : List (Entry A)) (e : Entry A) (more : List (Entry A))
      → live es ≡ e ∷ more
      → (r : Entry A) × (rs : List (Entry A)) × (pending same earlier (suc limit) es ≡ r ∷ rs)
        × (contains r.record_id (entry_ids (live es)) ≡ true)
  unfolding pending
  pending-some limit es e more alive =
      let there : contains e.record_id (entry_ids (live es)) ≡ true = ground (arith, alive) in
      let (r, rs, is, among) =
        first_given limit (sorted same earlier (live es)) e.record_id
          (contains-sorted e.record_id (live es) ∙ there) in
      (r, rs, is, sym (contains-sorted r.record_id (live es)) ∙ among)

  pub pending_none :
      (limit : ℕ) (es : List (Entry A)) → live es ≡ [] → pending same earlier limit es ≡ []
  unfolding pending sorted first_of_key
  pending_none zero es none_live = refl
  pending_none (suc limit) es none_live = rw none_live refl

module _ {A : Type 0} where
  live-deleted_le :
      (ids : List ℕ) (es : List (Entry A)) → length (live (deleted ids es)) ≤ length (live es)
  unfolding deleted
  live-deleted_le ids [] = omega arith
  live-deleted_le ids (e ∷ es) = ground (arith, live-deleted_le ids es)

  -- Deleting a live record leaves fewer of them.
  pub live-deleted_lt :
      (k : ℕ) (ids : List ℕ) (es : List (Entry A))
      → contains k ids ≡ true
      → contains k (entry_ids (live es)) ≡ true
      → length (live (deleted ids es)) < length (live es)
  unfolding deleted
  live-deleted_lt k ids [] h c = absurd (ground arith)
  live-deleted_lt k ids (e ∷ es) h c =
      ground (arith, live-deleted_lt k ids es h, live-deleted_le ids es, ==→eq k e.record_id)

  pub All-deleted :
      (P : Entry A → Type 0) (ids : List ℕ) (es : List (Entry A))
      → All P es
      → All P (deleted ids es)
  unfolding deleted
  All-deleted P ids es h = All-select P (λ e. not (contains e.record_id ids)) es h
