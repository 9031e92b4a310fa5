-- ===== src/Text/Decimal.antt =====
-- Decimal text of unsigned integers: `{}` of `format!`, which `parse` reads back.
use rgx.Common.{
  ℕ, zero, suc, ◌+◌, ◌-◌, ◌*◌, ◌/◌, ◌%◌, ◌^◌, ◌≡◌, ◌<◌, ◌≤◌, refl, ap, sym, ◌∙◌, [], ◌∷◌, ◌++◌,
  append_assoc, append-nil, true, false, Bool-cases, ltb→lt, ltb→le, inl, inr, some, Bytes, All,
  All-append, ltb, arith,
}
use rgx.Text.{parse_digits, parse_nonempty, parse_unsigned}
use rgx.Text.Hex.RoundTrip.{IsVisible}

decimal_digits : ℕ → ℕ → Bytes
decimal_digits zero n = []
decimal_digits (suc fuel) n = elim (ltb n 10) [
  | true ↦ (48 + n) ∷ []
  | false ↦ decimal_digits fuel (n / 10) ++ ((48 + n % 10) ∷ [])
]

-- A `u64` has 20 digits at most.
unfoldable pub decimal : ℕ → Bytes
unfolding decimal_digits
decimal = decimal_digits 20

parse_step :
    (limit acc d : ℕ) (rest : Bytes)
    → d < 10
    → acc * 10 + d < limit
    → parse_digits limit acc ((48 + d) ∷ rest) ≡ parse_digits limit (acc * 10 + d) rest
unfolding parse_digits
parse_step limit acc d rest h room = let e : 48 + d - 48 ≡ d = omega arith in rw e (ground arith)

one_digit : (fuel n : ℕ) → ltb n 10 ≡ true → decimal_digits (suc fuel) n ≡ (48 + n) ∷ []
unfolding decimal_digits
one_digit fuel n h = rw (h, decimal_digits)

more_digits :
    (fuel n : ℕ)
    → ltb n 10 ≡ false
    → decimal_digits (suc fuel) n ≡ decimal_digits fuel (n / 10) ++ ((48 + n % 10) ∷ [])
unfolding decimal_digits
more_digits fuel n h = rw (h, decimal_digits)

fuel_left : (fuel n : ℕ) → 10 ≤ n → n < 10 ^ suc fuel → 0 < fuel
fuel_left zero n h k = absurd (omega arith)
fuel_left (suc fuel) n h k = omega arith

parse-decimal_digits :
    (limit fuel n : ℕ) (rest : Bytes)
    → n < 10 ^ fuel
    → 0 < fuel
    → n < limit
    → parse_digits limit 0 (decimal_digits fuel n ++ rest) ≡ parse_digits limit n rest
unfolding decimal_digits
parse-decimal_digits limit zero n rest h pos room = absurd (omega arith)
parse-decimal_digits limit (suc fuel) n rest h pos room = elim (Bool-cases (ltb n 10)) [
  | inl small ↦ rw (one_digit fuel n small) (
      parse_step limit 0 n rest (ltb→lt n 10 small) (omega arith)
      ∙ ap (λ (k : ℕ). parse_digits limit k rest) (omega arith))
  | inr large ↦
      let ten : 10 ≤ n = ltb→le n 10 large in
      let back : n / 10 * 10 + n % 10 ≡ n = omega arith in
      let whole : 10 ^ suc fuel ≡ 10 * 10 ^ fuel = grind arith in
      let some_fuel : 0 < fuel = fuel_left fuel n ten h in
      rw (more_digits fuel n large) (
        ap (parse_digits limit 0)
          (append_assoc (decimal_digits fuel (n / 10)) ((48 + n % 10) ∷ []) rest)
        ∙ parse-decimal_digits limit fuel (n / 10) ((48 + n % 10) ∷ rest) (omega (arith, whole))
            some_fuel (omega arith)
        ∙ parse_step limit (n / 10) (n % 10) rest (omega arith) (omega arith)
        ∙ ap (λ (k : ℕ). parse_digits limit k rest) back)
]

decimal_digits-IsVisible : (fuel n : ℕ) → All IsVisible (decimal_digits fuel n)
unfolding decimal_digits
decimal_digits-IsVisible zero n = tt
decimal_digits-IsVisible (suc fuel) n = elim (Bool-cases (ltb n 10)) [
  | inl small ↦ rw (one_digit fuel n small) ((omega arith, omega (arith, ltb→lt n 10 small)), tt)
  | inr large ↦ rw (more_digits fuel n large) (
      All-append IsVisible (decimal_digits fuel (n / 10)) ((48 + n % 10) ∷ [])
        (decimal_digits-IsVisible fuel (n / 10)) ((omega arith, omega arith), tt))
]

-- A number starts with a digit.
decimal_digits_head :
    (fuel n : ℕ) → (b : ℕ) × (bs : Bytes) × (decimal_digits (suc fuel) n ≡ b ∷ bs) × (48 ≤ b)
decimal_digits_head zero n = elim (Bool-cases (ltb n 10)) [
  | inl small ↦ (48 + n, [], one_digit zero n small, omega arith)
  | inr large ↦
      (48 + n % 10, [], more_digits zero n large ∙ unfold decimal_digits in refl, omega arith)
]
decimal_digits_head (suc fuel) n = elim (Bool-cases (ltb n 10)) [
  | inl small ↦ (48 + n, [], one_digit (suc fuel) n small, omega arith)
  | inr large ↦
      let (b, bs, e, h) = decimal_digits_head fuel (n / 10) in
      (
        b,
        bs ++ ((48 + n % 10) ∷ []),
        more_digits (suc fuel) n large ∙ ap (λ (t : Bytes). t ++ ((48 + n % 10) ∷ [])) e,
        h,
      )
]

parse_from_digit :
    (limit b : ℕ) (bs : Bytes)
    → 48 ≤ b
    → parse_unsigned limit (b ∷ bs) ≡ parse_digits limit 0 (b ∷ bs)
unfolding parse_unsigned parse_nonempty
parse_from_digit limit b bs h = ground arith

-- `parse` returns the number that was printed, if it is below the limit and has 20 digits at most.
pub parse_unsigned-decimal :
    (limit n : ℕ) → n < limit → n < 10 ^ 20 → parse_unsigned limit (decimal n) ≡ some n
unfolding decimal
parse_unsigned-decimal limit n h small =
    let (b, bs, e, digit) = decimal_digits_head 19 n in
    ap (parse_unsigned limit) e
    ∙ parse_from_digit limit b bs digit
    ∙ ap (parse_digits limit 0) (sym e ∙ sym (append-nil (decimal_digits 20 n)))
    ∙ parse-decimal_digits limit 20 n [] small (omega arith) h
    ∙ unfold parse_digits in refl

pub decimal-IsVisible : (n : ℕ) → All IsVisible (decimal n)
unfolding decimal
decimal-IsVisible n = decimal_digits-IsVisible 20 n

pub decimal_head : (n : ℕ) → (b : ℕ) × (bs : Bytes) × (decimal n ≡ b ∷ bs) × (48 ≤ b)
unfolding decimal
decimal_head n = decimal_digits_head 19 n
