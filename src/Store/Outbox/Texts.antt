-- ===== src/Store/Outbox/Texts.antt =====
-- The order of texts by bytes is an order.
use marketplace_simulator_pr.Common.{ℕ, ◌≡◌, refl, true, false, List, [], ◌∷◌, arith}
use marketplace_simulator_pr.Store.Outbox.{leb_text, eq_text}

pub eq_text_refl : (xs : List ℕ) → eq_text xs xs ≡ true
unfolding eq_text
eq_text_refl [] = refl
eq_text_refl (x ∷ xs) = ground (arith, eq_text_refl xs)

pub eq_text_sound : (xs ys : List ℕ) → eq_text xs ys ≡ true → xs ≡ ys
unfolding eq_text
eq_text_sound [] [] h = refl
eq_text_sound [] (y ∷ ys) h = absurd (ground arith)
eq_text_sound (x ∷ xs) [] h = absurd (ground arith)
eq_text_sound (x ∷ xs) (y ∷ ys) h = ground (arith, eq_text_sound xs ys)

pub leb_text_total : (xs ys : List ℕ) → leb_text xs ys ≡ false → leb_text ys xs ≡ true
unfolding leb_text
leb_text_total [] ys h = absurd (ground arith)
leb_text_total (x ∷ xs) [] h = refl
leb_text_total (x ∷ xs) (y ∷ ys) h = ground (arith, leb_text_total xs ys)

pub leb_text_antisym : (xs ys : List ℕ) → leb_text xs ys ≡ true → leb_text ys xs ≡ true → xs ≡ ys
unfolding leb_text
leb_text_antisym [] [] h g = refl
leb_text_antisym [] (y ∷ ys) h g = absurd (ground arith)
leb_text_antisym (x ∷ xs) [] h g = absurd (ground arith)
leb_text_antisym (x ∷ xs) (y ∷ ys) h g = ground (arith, leb_text_antisym xs ys)

pub leb_text_trans :
    (xs ys zs : List ℕ) → leb_text xs ys ≡ true → leb_text ys zs ≡ true → leb_text xs zs ≡ true
unfolding leb_text
leb_text_trans [] ys zs h g = refl
leb_text_trans (x ∷ xs) [] zs h g = absurd (ground arith)
leb_text_trans (x ∷ xs) (y ∷ ys) [] h g = absurd (ground arith)
leb_text_trans (x ∷ xs) (y ∷ ys) (z ∷ zs) h g = ground (arith, leb_text_trans xs ys zs)
