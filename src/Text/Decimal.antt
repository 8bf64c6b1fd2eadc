-- ===== src/Text/Decimal.antt =====
-- Printed decimals, and how they are read.
use vitis.Prelude.{
  ℕ, zero, suc, ◌+◌, ◌*◌, ◌-◌, ◌/◌, ◌%◌, ◌<◌, [], ◌∷◌, ◌≡◌, inl, inr, ap, ◌∙◌, arith, leb, leb→le,
  Bool-cases,
}
use vitis.Text.{Text, digits_onto, itoa}

-- The number that decimal digits denote, with `k` read so far.
unfoldable pub read : ℕ → Text → ℕ
read k [] = k
read k (c ∷ cs) = read (k * 10 + (c - b'0')) cs

read-digits_onto : (f n : ℕ) (acc : Text) → n < f → read 0 (digits_onto f n acc) ≡ read n acc
unfolding digits_onto read
read-digits_onto zero n acc h = absurd (omega arith)
read-digits_onto (suc f) n acc h = elim (Bool-cases (leb 10 n)) [
  | inl y ↦ rw y (
      read-digits_onto f (n / 10) ((b'0' + n % 10) ∷ acc) (omega (arith, leb→le 10 n y))
      ∙ ap (λ k. read k acc) (omega arith))
  | inr m ↦ rw m (ap (λ k. read k acc) (omega arith))
]

-- The decimal of a number denotes it.
pub read-itoa : (n : ℕ) → read 0 (itoa n) ≡ n
unfolding itoa read
read-itoa n = read-digits_onto (suc n) n [] (omega arith)
