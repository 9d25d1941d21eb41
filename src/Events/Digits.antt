-- ===== src/Events/Digits.antt =====
-- The decimal texts of SKUs: the keys of events, of messages and of cache entries.
use native.Mathlib.Nat.{pow-suc}
use marketplace_simulator_pr.Common.{
  ℕ, zero, suc, ◌+◌, ◌-◌, ◌*◌, ◌/◌, ◌%◌, ◌^◌, ◌<◌, ◌≡◌, sym, ◌∙◌, ap, subst, List, [], ◌∷◌, ltb,
  arith, Bool-cases, inl, inr,
}
use marketplace_simulator_pr.Events.{digits, format_uint}

-- The number that a text of digits goes on to, after the number `n`.
abbrev read_on : ℕ → List ℕ → ℕ
read_on n [] = n
read_on n (d ∷ ds) = read_on (n * 10 + (d - b'0')) ds

abbrev pub read_uint : List ℕ → ℕ
read_uint ds = read_on 0 ds

tenth : (n m : ℕ) → n < m * 10 → n / 10 < m
tenth n m h = omega arith

read_on-digits : (f n : ℕ) (acc : List ℕ) → n < 10 ^ f → read_on 0 (digits f n acc) ≡ read_on n acc
unfolding digits
read_on-digits zero n acc h = ap (λ m. read_on m acc) (omega arith)
read_on-digits (suc f) n acc h = elim (Bool-cases (ltb n 10)) [
  | inl short ↦ rw (short, digits) (ap (λ m. read_on m acc) (omega arith))
  | inr long ↦
      rw (long, digits)
        (read_on-digits f (n / 10) ((b'0' + n % 10) ∷ acc)
            (tenth n (10 ^ f) (subst (λ m. n < m) (pow-suc 10 f) h))
          ∙ ap (λ m. read_on m acc) (omega arith))
]

-- The text of a number of 64 bits is read back as it was: 20 digits are enough.
read_uint-format_uint : (n : ℕ) → n < 2 ^ 64 → read_uint (format_uint n) ≡ n
unfolding format_uint
read_uint-format_uint n h = read_on-digits 20 n [] (omega arith)

-- So two SKUs have two texts.
pub format_uint-inj : (n m : ℕ) → n < 2 ^ 64 → m < 2 ^ 64 → format_uint n ≡ format_uint m → n ≡ m
format_uint-inj n m hn hm e =
    sym (read_uint-format_uint n hn) ∙ ap read_uint e ∙ read_uint-format_uint m hm
