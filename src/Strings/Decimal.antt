-- ===== src/Strings/Decimal.antt =====
-- `strconv.Atoi` reads back what `strconv.Itoa` writes.
use file_fin.Prelude.{
  ℕ, zero, suc, ◌+◌, ◌-◌, ◌*◌, ◌/◌, ◌%◌, ◌<◌, ◌≡◌, ◌≢◌, refl, true, false, ◌∙◌, [], ◌∷◌, Str, some,
  Bool-cases, inl, inr, ltb, All, ap, ◌==◌, pos, arith,
}
use file_fin.Strings.{is_digit, all_digits, digits, itoa, parse_from, parse_digits, atoi}

digit_step : (f n : ℕ) → n < suc f → ltb n 10 ≡ false → n / 10 < f
digit_step f n h b = ground arith

parse_from-digit :
    (k d : ℕ) (acc : Str) → d < 10 → parse_from k ((b'0' + d) ∷ acc) ≡ parse_from (k * 10 + d) acc
unfolding parse_from
parse_from-digit k d acc h =
    let digit : is_digit (b'0' + d) ≡ true = unfold is_digit in ground arith in
    let value : k * 10 + (b'0' + d - b'0') ≡ k * 10 + d = omega arith in rw (digit, value) refl

parse_from-digits : (f n : ℕ) (acc : Str) → n < f → parse_from 0 (digits f n acc) ≡ parse_from n acc
unfolding digits
parse_from-digits zero n acc h = absurd (omega arith)
parse_from-digits (suc f) n acc h = elim (Bool-cases (ltb n 10)) [
  | inl e ↦
      rw (e, parse_from-digit 0 n acc (ground arith))
        (ap (λ (k : ℕ). parse_from k acc) (omega arith))
  | inr e ↦
      rw
        (
          e,
          parse_from-digits f (n / 10) ((b'0' + n % 10) ∷ acc) (digit_step f n h e),
          parse_from-digit (n / 10) (n % 10) acc (omega arith),
        )
        (ap (λ (k : ℕ). parse_from k acc) (omega arith))
]

-- Every character written is a digit.
digits-are_digits :
    (f n : ℕ) (acc : Str)
    → All (λ c. is_digit c ≡ true) acc
    → All (λ c. is_digit c ≡ true) (digits f n acc)
unfolding digits
digits-are_digits zero n acc h = h
digits-are_digits (suc f) n acc h = elim (Bool-cases (ltb n 10)) [
  | inl e ↦ rw e (unfold is_digit in ground arith, h)
  | inr e ↦
      rw e
        (digits-are_digits f (n / 10) ((b'0' + n % 10) ∷ acc) (unfold is_digit in ground arith, h))
]

digits-ne-nil : (f n : ℕ) (acc : Str) → n < f → digits f n acc ≢ []
unfolding digits
digits-ne-nil zero n acc h = absurd (omega arith)
digits-ne-nil (suc f) n acc h = elim (Bool-cases (ltb n 10)) [
  | inl e ↦ rw e (λ p. cc)
  | inr e ↦ rw e (digits-ne-nil f (n / 10) ((b'0' + n % 10) ∷ acc) (digit_step f n h e))
]

pub itoa-are_digits : (n : ℕ) → All (λ c. is_digit c ≡ true) (itoa n)
unfolding itoa
itoa-are_digits n = digits-are_digits (suc n) n [] tt

all_digits_lem : (s : Str) → All (λ c. is_digit c ≡ true) s → all_digits s ≡ true
unfolding all_digits
all_digits_lem [] h = refl
all_digits_lem (c ∷ s) h = rw (h.0, all_digits_lem s h.1) refl

pub itoa-all_digits : (n : ℕ) → all_digits (itoa n) ≡ true
itoa-all_digits n = all_digits_lem (itoa n) (itoa-are_digits n)

pub itoa-ne-nil : (n : ℕ) → itoa n ≢ []
unfolding itoa
itoa-ne-nil n = digits-ne-nil (suc n) n [] (omega arith)

atoi-digits :
    (s : Str) (n : ℕ)
    → All (λ c. is_digit c ≡ true) s
    → s ≢ []
    → parse_from 0 s ≡ some n
    → atoi s ≡ pos n
unfolding atoi parse_digits
atoi-digits [] n d ne h = absurd (ne refl)
atoi-digits (c ∷ s) n d ne h =
    let no_minus : (c == b'-') ≡ false = unfold is_digit in ground (arith, d.0) in
    let no_plus : (c == b'+') ≡ false = unfold is_digit in ground (arith, d.0) in
    rw (no_minus, no_plus, h) refl

-- Reading what was written gives the number back.
pub atoi-itoa : (n : ℕ) → atoi (itoa n) ≡ pos n
unfolding itoa
atoi-itoa n =
    atoi-digits (itoa n) n (itoa-are_digits n) (itoa-ne-nil n)
      (parse_from-digits (suc n) n [] (omega arith) ∙ unfold parse_from in refl)
