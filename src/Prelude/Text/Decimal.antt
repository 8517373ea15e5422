-- ===== src/Prelude/Text/Decimal.antt =====
-- Decimal numbers: `%d`, `strconv.Itoa` and `strconv.Atoi`, and their round trip.
use Prim.Native.Nat.{ℕ, zero, suc, ◌+◌, ◌-◌, ◌*◌, ◌/◌, ◌%◌, ◌^◌, ◌<◌}
use mathlib.Core.Path.{◌≡◌, refl, ◌∙◌}
use mathlib.Core.Logic.{◌≢◌, inl, inr}
use mathlib.Core.Bool.{Bool, true, false, ◌&&◌}
use mathlib.Core.Option
use mathlib.Core.Option.{Option, none, some}
use mathlib.Core.List.{List, [], ◌∷◌, ◌++◌}
use native.Mathlib.Omega.{arith}
use center_agent.Prelude.Booleans.{ltb, leb, if◌then◌else◌, Bool-cases}
use center_agent.Prelude.Equality.{◌==◌, nat_eq}
use center_agent.Prelude.Lists.{All, contains}
use center_agent.Prelude.Ints.{ℤ, pos, negsuc}

abbrev pub is_digit : ℕ → Bool
is_digit c = leb b'0' c && leb c b'9'

-- One round for each digit, so `suc n` rounds are enough for `n`.
decimal_fuel : ℕ → ℕ → List ℕ
decimal_fuel zero n = []
decimal_fuel (suc f) n =
    let rest = decimal_fuel f (n / 10) in
    if ltb n 10 then (b'0' + n) ∷ [] else rest ++ ((b'0' + n % 10) ∷ [])

unfoldable pub decimal : ℕ → List ℕ
unfolding decimal_fuel
decimal n = decimal_fuel (suc n) n

-- `fmt.Sprintf("%d", z)`
unfoldable pub format_int : ℤ → List ℕ
unfolding decimal
format_int (pos n) = decimal n
format_int (negsuc n) = b'-' ∷ decimal (suc n)

digits_value : ℕ → List ℕ → Option ℕ
digits_value acc [] = some acc
digits_value acc (c ∷ s) = if is_digit c then digits_value (acc * 10 + (c - b'0')) s else none

-- The magnitude of a number with at least one digit.
magnitude : List ℕ → Option ℕ
magnitude [] = none
magnitude (c ∷ s) = digits_value 0 (c ∷ s)

negative : ℕ → Option ℤ
negative zero = some (pos zero)
negative (suc n) = if ltb n (2 ^ 63) then some (negsuc n) else none

positive : ℕ → Option ℤ
positive n = if ltb n (2 ^ 63) then some (pos n) else none

-- `strconv.Atoi`, and `strconv.ParseInt` to base 10 with 64 bits: an optional sign, then digits, in
-- range. `none` is its error.
unfoldable pub atoi : List ℕ → Option ℤ
unfolding digits_value magnitude negative positive
atoi [] = none
atoi (c ∷ s) =
    if c == b'-'
    then elim (magnitude s) [ none ↦ none | some n ↦ negative n ]
    else if c == b'+'
    then elim (magnitude s) [ none ↦ none | some n ↦ positive n ]
    else elim (magnitude (c ∷ s)) [ none ↦ none | some n ↦ positive n ]

-- The range of Go's `int` on the 64-bit platforms that the program is built for.
abbrev pub IsInt64 : ℤ → Type 0
IsInt64 (pos n) = n < 2 ^ 63
IsInt64 (negsuc n) = n < 2 ^ 63

abbrev pub IsDigits : List ℕ → Type 0
IsDigits = All (λ c. is_digit c ≡ true)

digits_value-append :
    (a : ℕ) (s : List ℕ) (c v : ℕ)
    → is_digit c ≡ true
    → digits_value a s ≡ some v
    → digits_value a (s ++ (c ∷ [])) ≡ some (v * 10 + (c - b'0'))
unfolding digits_value
digits_value-append a [] c v d h = ground arith
digits_value-append a (x ∷ s) c v d h = elim (Bool-cases (is_digit x)) [
  | inl p ↦ rw p (digits_value-append (a * 10 + (x - b'0')) s c v d (rw p at h))
  | inr p ↦ absurd (Option.none-ne-some v (rw p at h))
]

digit_code : (n : ℕ) → n < 10 → is_digit (b'0' + n) ≡ true
digit_code n h = ground arith

digits_value-decimal : (f n : ℕ) → n < f → digits_value 0 (decimal_fuel f n) ≡ some n
unfolding digits_value decimal_fuel
digits_value-decimal zero n h = elim h [ ]
digits_value-decimal (suc f) n h = elim (Bool-cases (ltb n 10)) [
  | inl p ↦ rw p (ground (arith, digit_code n))
  | inr p ↦ rw p (
      digits_value-append 0 (decimal_fuel f (n / 10)) (b'0' + n % 10) (n / 10)
        (digit_code (n % 10) (omega arith)) (digits_value-decimal f (n / 10) (ground arith))
      ∙ ground arith)
]

All-append_one : (s : List ℕ) (c : ℕ) → IsDigits s → is_digit c ≡ true → IsDigits (s ++ (c ∷ []))
All-append_one [] c h d = (d, tt)
All-append_one (x ∷ s) c h d = (h.0, All-append_one s c h.1 d)

decimal_fuel-IsDigits : (f n : ℕ) → IsDigits (decimal_fuel f n)
unfolding decimal_fuel
decimal_fuel-IsDigits zero n = tt
decimal_fuel-IsDigits (suc f) n = elim (Bool-cases (ltb n 10)) [
  | inl p ↦ rw p (digit_code n (ground arith), tt)
  | inr p ↦
      rw p
        (All-append_one _ _ (decimal_fuel-IsDigits f (n / 10)) (digit_code (n % 10) (omega arith)))
]

pub decimal-IsDigits : (n : ℕ) → IsDigits (decimal n)
unfolding decimal
decimal-IsDigits n = decimal_fuel-IsDigits (suc n) n

magnitude-digits : (s : List ℕ) (n : ℕ) → s ≢ [] → digits_value 0 s ≡ some n → magnitude s ≡ some n
unfolding magnitude
magnitude-digits [] n e h = absurd (e refl)
magnitude-digits (c ∷ s) n e h = h

atoi-digits :
    (s : List ℕ) (n : ℕ) → s ≢ [] → IsDigits s → digits_value 0 s ≡ some n → atoi s ≡ positive n
unfolding atoi
atoi-digits [] n e d h = absurd (e refl)
atoi-digits (c ∷ s) n e d h = ground (arith, d.0)

append_one-ne-nil : (s : List ℕ) (c : ℕ) → s ++ (c ∷ []) ≢ []
append_one-ne-nil [] c = λ e. cc e
append_one-ne-nil (x ∷ s) c = λ e. cc e

positive_lem : (n : ℕ) → n < 2 ^ 63 → positive n ≡ some (pos n)
unfolding positive
positive_lem n h = ground arith

atoi-minus :
    (s : List ℕ) (n : ℕ)
    → n < 2 ^ 63
    → magnitude s ≡ some (suc n)
    → atoi (b'-' ∷ s) ≡ some (negsuc n)
unfolding atoi
atoi-minus s n h m = rw m (ground arith)

decimal_fuel-ne-nil : (f n : ℕ) → n < f → decimal_fuel f n ≢ []
unfolding decimal_fuel
decimal_fuel-ne-nil zero n h = elim h [ ]
decimal_fuel-ne-nil (suc f) n h = elim (Bool-cases (ltb n 10)) [
  | inl p ↦ rw p (λ e. cc e)
  | inr p ↦ rw p (append_one-ne-nil (decimal_fuel f (n / 10)) _)
]

-- What `%d` prints, `Atoi` reads back, at every 64-bit integer.
pub atoi-format_int : (z : ℤ) → IsInt64 z → atoi (format_int z) ≡ some z
unfolding format_int
atoi-format_int (pos n) h =
    atoi-digits (decimal n) n (decimal_fuel-ne-nil (suc n) n (omega arith)) (decimal-IsDigits n)
      (digits_value-decimal (suc n) n (omega arith))
    ∙ positive_lem n h
atoi-format_int (negsuc n) h = atoi-minus (decimal (suc n)) n h (
    magnitude-digits (decimal (suc n)) (suc n)
      (decimal_fuel-ne-nil (suc (suc n)) (suc n) (omega arith))
      (digits_value-decimal (suc (suc n)) (suc n) (omega arith)))

-- No other character stands in a printed number.
contains-not_digit : (c : ℕ) (s : List ℕ) → is_digit c ≡ false → IsDigits s → contains s c ≡ false
contains-not_digit c [] n h = refl
contains-not_digit c (d ∷ s) n h = ground (arith, h.0, contains-not_digit c s n h.1)

pub contains-decimal : (c n : ℕ) → is_digit c ≡ false → contains (decimal n) c ≡ false
contains-decimal c n h = contains-not_digit c (decimal n) h (decimal-IsDigits n)

-- No separator stands in a printed number.
contains-digits : (s : List ℕ) → IsDigits s → contains s b'|' ≡ false
contains-digits [] h = refl
contains-digits (c ∷ s) h = ground (arith, h.0, contains-digits s h.1)

pub format_int-bar : (z : ℤ) → contains (format_int z) b'|' ≡ false
unfolding format_int
format_int-bar (pos n) = contains-digits (decimal n) (decimal-IsDigits n)
format_int-bar (negsuc n) =
    ground (arith, contains-digits (decimal (suc n)) (decimal-IsDigits (suc n)))

positive-IsInt64 : (n : ℕ) (z : ℤ) → positive n ≡ some z → IsInt64 z
unfolding positive
positive-IsInt64 n (pos m) h = ground arith
positive-IsInt64 n (negsuc m) h = ground arith

negative-IsInt64 : (n : ℕ) (z : ℤ) → negative n ≡ some z → IsInt64 z
unfolding negative
negative-IsInt64 zero (pos m) h = ground arith
negative-IsInt64 zero (negsuc m) h = ground arith
negative-IsInt64 (suc n) (pos m) h = ground arith
negative-IsInt64 (suc n) (negsuc m) h = ground arith

number-IsInt64 :
    (sign : ℕ → Option ℤ) (m : Option ℕ) (z : ℤ)
    → ((n : ℕ) → sign n ≡ some z → IsInt64 z)
    → elim m [ none ↦ none | some n ↦ sign n ] ≡ some z
    → IsInt64 z
number-IsInt64 sign none z k h = ground arith
number-IsInt64 sign (some n) z k h = k n h

-- What `atoi` reads is in range.
pub atoi-IsInt64 : (s : List ℕ) (z : ℤ) → atoi s ≡ some z → IsInt64 z
unfolding atoi
atoi-IsInt64 [] z h = ground arith
atoi-IsInt64 (c ∷ s) z h = elim (Bool-cases (c == b'-')) [
  | inl p ↦ number-IsInt64 negative (magnitude s) z (λ n. negative-IsInt64 n z) (rw (atoi, p) at h)
  | inr p ↦ elim (Bool-cases (c == b'+')) [
    | inl q ↦
        number-IsInt64 positive (magnitude s) z (λ n. positive-IsInt64 n z) (rw (atoi, p, q) at h)
    | inr q ↦
        number-IsInt64 positive (magnitude (c ∷ s)) z (λ n. positive-IsInt64 n z)
          (rw (atoi, p, q) at h)
  ]
]
