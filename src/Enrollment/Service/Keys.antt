-- ===== src/Enrollment/Service/Keys.antt =====
-- The idempotency keys of a batch.
use profundiza_uq_backend.Base.{
  ℕ, zero, suc, ◌+◌, ◌-◌, ◌*◌, ◌/◌, ◌%◌, ◌≤◌, ◌≡◌, refl, ap, sym, ◌∙◌, [], ◌∷◌, ◌++◌, arith,
}
use profundiza_uq_backend.Base.Text.{Text}
use profundiza_uq_backend.Base.Table.{All}
use profundiza_uq_backend.Enrollment.Service.{itoa_loop, itoa, item_key}

-- The number that a decimal numeral denotes, after the digits of `v`.
unfoldable pub value_from : ℕ → Text → ℕ
value_from v [] = v
value_from v (c ∷ s) = value_from (10 * v + (c - b'0')) s

itoa_loop_value :
    (fuel i : ℕ) (digits : Text)
    → i ≤ fuel
    → value_from 0 (itoa_loop fuel i digits) ≡ value_from i digits
unfolding itoa_loop value_from
itoa_loop_value zero i digits h = ap (λ v. value_from v digits) (omega arith)
itoa_loop_value (suc fuel) zero digits h = refl
itoa_loop_value (suc fuel) (suc i) digits h =
    itoa_loop_value fuel (suc i / 10) ((b'0' + suc i % 10) ∷ digits) (omega arith)
    ∙ ap (λ v. value_from v digits) (omega arith)

itoa_value : (i : ℕ) → value_from 0 (itoa i) ≡ i
unfolding itoa value_from
itoa_value zero = refl
itoa_value (suc i) = itoa_loop_value (suc i) (suc i) [] (omega arith)

abbrev pub IsDigit : ℕ → Type 0
IsDigit c = (b'0' ≤ c) × (c ≤ b'9')

-- A numeral has a digit, and does not begin with a zero unless it is the zero.
abbrev pub IsLeading : Text → Type 0
IsLeading [] = ⊥
IsLeading (c ∷ []) = Unit
IsLeading (c ∷ d ∷ s) = 1 + b'0' ≤ c

remainder-IsDigit : (n : ℕ) → IsDigit (b'0' + n % 10)
remainder-IsDigit n = (omega arith, omega arith)

itoa_loop-IsDigit :
    (fuel i : ℕ) (digits : Text) → All IsDigit digits → All IsDigit (itoa_loop fuel i digits)
unfolding itoa_loop
itoa_loop-IsDigit zero i digits h = h
itoa_loop-IsDigit (suc fuel) zero digits h = h
itoa_loop-IsDigit (suc fuel) (suc i) digits h =
    itoa_loop-IsDigit fuel (suc i / 10) ((b'0' + suc i % 10) ∷ digits)
      (remainder-IsDigit (suc i), h)

lone_or_positive : (c : ℕ) (digits : Text) → 1 + b'0' ≤ c → IsLeading (c ∷ digits)
lone_or_positive c [] h = tt
lone_or_positive c (d ∷ digits) h = h

-- The digit that is written last leads: it is not zero, since nothing is left of the number.
itoa_loop-IsLeading :
    (fuel rest c : ℕ) (digits : Text)
    → rest ≤ fuel
    → (rest ≡ 0 → 1 + b'0' ≤ c)
    → IsLeading (itoa_loop fuel rest (c ∷ digits))
unfolding itoa_loop
itoa_loop-IsLeading zero rest c digits h positive =
    lone_or_positive c digits (positive (omega arith))
itoa_loop-IsLeading (suc fuel) zero c digits h positive = lone_or_positive c digits (positive refl)
itoa_loop-IsLeading (suc fuel) (suc rest) c digits h positive =
    itoa_loop-IsLeading fuel (suc rest / 10) (b'0' + suc rest % 10) (c ∷ digits) (omega arith)
      (λ e. omega arith)

-- `itoa` writes the decimal numeral of its argument, and no other text: decimal digits, without a
-- leading zero, that denote it. The fuel is enough for every digit.
pub itoa_lem : (i : ℕ) → (value_from 0 (itoa i) ≡ i) × All IsDigit (itoa i) × IsLeading (itoa i)
unfolding itoa itoa_loop
itoa_lem zero = (itoa_value zero, ((omega arith, omega arith), tt), tt)
itoa_lem (suc i) = (
  itoa_value (suc i),
  itoa_loop-IsDigit (suc i) (suc i) [] tt,
  itoa_loop-IsLeading i (suc i / 10) (b'0' + suc i % 10) [] (omega arith) (λ e. omega arith),
)

append-injective : (base s t : Text) → base ++ s ≡ base ++ t → s ≡ t
append-injective [] s t h = h
append-injective (c ∷ base) s t h = append-injective base s t (ground arith)

-- No two items of a batch share a key.
pub item_key-injective : (base : Text) (i j : ℕ) → item_key base i ≡ item_key base j → i ≡ j
unfolding item_key
item_key-injective base i j h =
    let same : b':' ∷ itoa i ≡ b':' ∷ itoa j = append-injective base _ _ h in
    let digits : itoa i ≡ itoa j = ground arith in
    sym (itoa_value i) ∙ ap (value_from 0) digits ∙ itoa_value j
