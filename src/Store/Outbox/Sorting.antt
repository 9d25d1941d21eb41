-- ===== src/Store/Outbox/Sorting.antt =====
-- `ORDER BY key, created_at` on product events gives them in order.
use marketplace_simulator_pr.Common.{
  ℕ, ◌≡◌, sym, ◌∙◌, ap, Bool, true, false, List, [], ◌∷◌, arith, leb, Bool-cases, inl, inr,
  if◌then◌else◌, All, All-map_imp,
}
use marketplace_simulator_pr.Models.{EventRecord}
use marketplace_simulator_pr.Store.Outbox.{leb_text, eq_text, comes_first, insert_sorted, sorted}
use marketplace_simulator_pr.Store.Outbox.ProductEvents.{same_key, key_before}
use marketplace_simulator_pr.Store.Outbox.Texts.{
  eq_text_refl, eq_text_sound, leb_text_total, leb_text_antisym, leb_text_trans,
}
use marketplace_simulator_pr.Store.Outbox.Pending.{All-insert_sorted}

abbrev same : EventRecord → EventRecord → Bool
same a b = same_key a.body b.body

abbrev pub le : EventRecord → EventRecord → Bool
le a b = comes_first same_key key_before a b

abbrev pub Sorted : List EventRecord → Type 0
Sorted [] = Unit
Sorted (e ∷ es) = All (λ x. le e x ≡ true) es × Sorted es

-- The order, on keys and times.
abbrev le_at : List ℕ → ℕ → List ℕ → ℕ → Bool
le_at k a l b = if eq_text k l then leb a b else leb_text k l

le_at_total : (k l : List ℕ) (a b : ℕ) → le_at k a l b ≡ false → le_at l b k a ≡ true
le_at_total k l a b h = elim (Bool-cases (eq_text k l)) [
  | inl same_one ↦
      let e = eq_text_sound k l same_one in
      let back : eq_text l k ≡ true = ap (λ m. eq_text l m) e ∙ eq_text_refl l in
      ground (arith, back, same_one)
  | inr differ ↦ elim (Bool-cases (eq_text l k)) [
    | inl same_one ↦ absurd (ground (arith, differ, eq_text_refl k, eq_text_sound l k same_one))
    | inr differ' ↦ ground (arith, differ, differ', leb_text_total k l)
  ]
]

le_at_trans :
    (k l m : List ℕ) (a b c : ℕ)
    → le_at k a l b ≡ true
    → le_at l b m c ≡ true
    → le_at k a m c ≡ true
le_at_trans k l m a b c h g = elim (Bool-cases (eq_text k l)) [
  | inl kl ↦
      let e = eq_text_sound k l kl in
      elim (Bool-cases (eq_text l m)) [
        | inl lm ↦
            let km : eq_text k m ≡ true = ap (λ x. eq_text x m) e ∙ lm in ground (arith, kl, lm, km)
        | inr lm ↦
            let km : eq_text k m ≡ false = ap (λ x. eq_text x m) e ∙ lm in
            let before : leb_text k m ≡ leb_text l m = ap (λ x. leb_text x m) e in
            ground (arith, lm, km, before)
      ]
  | inr kl ↦ elim (Bool-cases (eq_text l m)) [
    | inl lm ↦
        let e = eq_text_sound l m lm in
        let km : eq_text k m ≡ false = ap (λ x. eq_text k x) (sym e) ∙ kl in
        let before : leb_text k m ≡ leb_text k l = ap (λ x. leb_text k x) (sym e) in
        ground (arith, kl, km, before)
    | inr lm ↦
        let first : leb_text k l ≡ true = ground (arith, kl) in
        let next : leb_text l m ≡ true = ground (arith, lm) in
        elim (Bool-cases (eq_text k m)) [
          | inr km ↦ ground (arith, km, leb_text_trans k l m first next)
          | inl km ↦
              let e = eq_text_sound k m km in
              let back : leb_text l k ≡ true = ap (λ x. leb_text l x) e ∙ next in
              let one = leb_text_antisym k l first back in
              let kl' : eq_text k l ≡ true = ap (λ x. eq_text x l) one ∙ eq_text_refl l in
              absurd (ground (arith, kl, kl'))
        ]
  ]
]

le_total : (a b : EventRecord) → le a b ≡ false → le b a ≡ true
unfolding comes_first
le_total a b h = le_at_total a.body.key b.body.key a.created_at b.created_at h

le_trans : (a b c : EventRecord) → le a b ≡ true → le b c ≡ true → le a c ≡ true
unfolding comes_first
le_trans a b c h g =
    le_at_trans a.body.key b.body.key c.body.key a.created_at b.created_at c.created_at h g

insert_sorted-Sorted :
    (e : EventRecord) (es : List EventRecord)
    → Sorted es
    → Sorted (insert_sorted same_key key_before e es)
unfolding insert_sorted
insert_sorted-Sorted e [] h = (tt, tt)
insert_sorted-Sorted e (x ∷ xs) h = elim (Bool-cases (le e x)) [
  | inl first ↦
      rw (first, insert_sorted)
        (
          (
            first,
            All-map_imp (λ y. le x y ≡ true) (λ y. le e y ≡ true) xs (λ y. le_trans e x y first)
                h.0,
          ),
          h,
        )
  | inr later ↦
      rw (later, insert_sorted)
        (
          All-insert_sorted same_key key_before (λ y. le x y ≡ true) e xs (le_total e x later) h.0,
          insert_sorted-Sorted e xs h.1,
        )
]

pub sorted-Sorted : (es : List EventRecord) → Sorted (sorted same_key key_before es)
unfolding sorted
sorted-Sorted [] = tt
sorted-Sorted (e ∷ es) = insert_sorted-Sorted e (sorted same_key key_before es) (sorted-Sorted es)

-- What is true of all records of an ordered list is true of those that were put in order.
All-uninserted :
    (P : EventRecord → Type 0) (e : EventRecord) (es : List EventRecord)
    → All P (insert_sorted same_key key_before e es)
    → P e × All P es
unfolding insert_sorted
All-uninserted P e [] h = h
All-uninserted P e (x ∷ xs) h = elim (Bool-cases (le e x)) [
  | inl first ↦ rw (first, insert_sorted) at h
  | inr later ↦
      let h' : P x × All P (insert_sorted same_key key_before e xs) =
        rw (later, insert_sorted) at h in
      let (pe, rest) = All-uninserted P e xs h'.1 in (pe, (h'.0, rest))
]

pub All-unsorted :
    (P : EventRecord → Type 0) (es : List EventRecord)
    → All P (sorted same_key key_before es)
    → All P es
unfolding sorted
All-unsorted P [] h = tt
All-unsorted P (e ∷ es) h =
    let (pe, rest) = All-uninserted P e (sorted same_key key_before es) h in
    (pe, All-unsorted P es rest)
