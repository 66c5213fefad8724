-- ===== src/Prelude/Decimal.antt =====
-- `%lu` of <stdio.h>, for an `unsigned long` of 64 bits: printed, and scanned.
use Prim.Native.Nat.{ℕ, zero, suc, ◌+◌, ◌-◌, ◌*◌, ◌/◌, ◌%◌, ◌^◌, ◌<◌, ◌≤◌}
use mathlib.Core.Path.{◌≡◌, ap, ◌∙◌}
use mathlib.Core.Bool.{Bool, true, ◌&&◌}
use mathlib.Core.List.{[], ◌∷◌, ◌++◌}
use mathlib.Core.List.{append_assoc}
use mathlib.Core.Option.{Option, none, some}
use native.Mathlib.Omega.{arith}
use whatsup.Prelude.Tests.{◌==◌, leb, ltb, if◌then◌else◌, if-cases, if-intro}
use whatsup.Prelude.Text.{Name, isspace}
use whatsup.Prelude.Lists.{All, All-append, length, length-append}

abbrev pub is_digit : ℕ → Bool
is_digit c = leb 48 c && leb c 57

-- the digits of a number, the last one first computed
unfoldable pub digits_of : ℕ → ℕ → Name
digits_of zero n = []
digits_of (suc fuel) n =
    let front = digits_of fuel (n / 10) in
    if ltb n 10 then (48 + n) ∷ [] else front ++ (48 + n % 10) ∷ []

-- `%lu` in `printf`: 2^64 has twenty digits
unfoldable pub print_ulong : ℕ → Name
unfolding digits_of
print_ulong n = digits_of 20 n

-- the value of the digits up to the first byte that is none
unfoldable pub digits_value : ℕ → Name → ℕ
digits_value acc [] = acc
digits_value acc (c ∷ cs) =
    let rest = digits_value (10 * acc + (c - 48)) cs in if is_digit c then rest else acc

abbrev pub clamp_ulong : ℕ → ℕ
clamp_ulong n = if ltb n (2 ^ 64) then n else 2 ^ 64 - 1

-- a number without a sign; `none` is a matching failure
unfoldable pub scan_digits : Name → Option ℕ
unfolding digits_value
scan_digits [] = none
scan_digits (c ∷ cs) = if is_digit c then some (digits_value 0 (c ∷ cs)) else none

abbrev pub negate_ulong : ℕ → ℕ
negate_ulong n = if ltb n (2 ^ 64) then (2 ^ 64 - n) % 2 ^ 64 else 2 ^ 64 - 1

abbrev pub map_option : {A B : Type 0} → (A → B) → Option A → Option B
map_option f none = none
map_option f (some a) = some (f a)

-- `%lu` in `scanf`: blanks, a sign, digits
unfoldable pub scan_ulong : Name → Option ℕ
unfolding scan_digits
scan_ulong [] = none
scan_ulong (c ∷ cs) =
    let rest = scan_ulong cs in
    if isspace c
    then rest
    else if c == b'-'
    then map_option negate_ulong (scan_digits cs)
    else if c == b'+'
    then map_option clamp_ulong (scan_digits cs)
    else map_option clamp_ulong (scan_digits (c ∷ cs))

-- ten to the number of digits
abbrev bound : ℕ → ℕ
bound zero = 1
bound (suc fuel) = 10 * bound fuel

digits_value-digit :
    (acc d : ℕ) (rest : Name)
    → d < 10
    → digits_value acc ((48 + d) ∷ rest) ≡ digits_value (10 * acc + d) rest
unfolding digits_value
digits_value-digit acc d rest h =
    let isdigit : is_digit (48 + d) ≡ true = ground (arith, h) in
    rw isdigit (ap (λ n. digits_value n rest) (omega arith))

digits_value-digits_of :
    (fuel n : ℕ) (rest : Name)
    → n < bound fuel
    → digits_value 0 (digits_of fuel n ++ rest) ≡ digits_value n rest
unfolding digits_of
digits_value-digits_of zero n rest h = ap (λ m. digits_value m rest) (omega (arith, h))
digits_value-digits_of (suc fuel) n rest h =
    if-cases (λ (l : Name). digits_value 0 (l ++ rest) ≡ digits_value n rest) (ltb n 10) _ _
      (λ e.
        digits_value-digit 0 n rest (ground (arith, e))
        ∙ ap (λ m. digits_value m rest) (omega arith))
      λ e.
        ap (digits_value 0) (append_assoc (digits_of fuel (n / 10)) ((48 + n % 10) ∷ []) rest)
        ∙ digits_value-digits_of fuel (n / 10) ((48 + n % 10) ∷ rest) (omega (arith, h))
        ∙ digits_value-digit (n / 10) (n % 10) rest (omega arith)
        ∙ ap (λ m. digits_value m rest) (omega arith)

-- The first byte of a number is a digit.
StartsWithDigit : Name → Type 0
StartsWithDigit [] = ⊥
StartsWithDigit (c ∷ cs) = is_digit c ≡ true

StartsWithDigit-append : (ds rest : Name) → StartsWithDigit ds → StartsWithDigit (ds ++ rest)
unfolding StartsWithDigit
StartsWithDigit-append [] rest h = absurd h
StartsWithDigit-append (c ∷ cs) rest h = h

digits_of-StartsWithDigit :
    (fuel n : ℕ) → n < bound (suc fuel) → StartsWithDigit (digits_of (suc fuel) n)
unfolding digits_of StartsWithDigit
digits_of-StartsWithDigit zero n h =
    if-cases StartsWithDigit (ltb n 10) _ _ (λ e. ground (arith, e)) (λ e. ground (arith, e, h))
digits_of-StartsWithDigit (suc fuel) n h =
    if-cases StartsWithDigit (ltb n 10) _ _ (λ e. ground (arith, e))
      λ e.
        StartsWithDigit-append (digits_of (suc fuel) (n / 10)) ((48 + n % 10) ∷ [])
          (digits_of-StartsWithDigit fuel (n / 10) (omega (arith, h)))

scan_ulong-digits :
    (ds : Name) → StartsWithDigit ds → scan_ulong ds ≡ some (clamp_ulong (digits_value 0 ds))
unfolding scan_ulong StartsWithDigit isspace
scan_ulong-digits [] h = absurd h
scan_ulong-digits (c ∷ cs) h = ground (arith, h)

clamped : (n : ℕ) → n < 2 ^ 64 → clamp_ulong n ≡ n
clamped n h = ground (arith, h)

-- What is printed before the end of the line is scanned as it was.
pub scan_ulong-print_ulong : (n : ℕ) → n < 2 ^ 64 → scan_ulong (print_ulong n ++ 10 ∷ []) ≡ some n
unfolding print_ulong digits_value
scan_ulong-print_ulong n h =
    scan_ulong-digits (print_ulong n ++ 10 ∷ []) (
      StartsWithDigit-append (print_ulong n) (10 ∷ [])
        (digits_of-StartsWithDigit 19 n (omega (arith, h))))
    ∙ ap (λ m. some (clamp_ulong m)) (digits_value-digits_of 20 n (10 ∷ []) (omega (arith, h)))
    ∙ ap some (clamped n h)

last_digit : (d : ℕ) → d < 10 → is_digit (48 + d) ≡ true
last_digit d h = ground (arith, h)

-- The digits are bytes of their own kind, and at most as many as the fuel.
digits_of-digits : (fuel n : ℕ) → All (λ c. is_digit c ≡ true) (digits_of fuel n)
unfolding digits_of
digits_of-digits zero n = tt
digits_of-digits (suc fuel) n =
    if-cases (All (λ c. is_digit c ≡ true)) (ltb n 10) _ _ (λ e. (ground (arith, e), tt))
      λ e.
        All-append (λ c. is_digit c ≡ true) (digits_of fuel (n / 10)) (48 + n % 10)
          (digits_of-digits fuel (n / 10)) (last_digit (n % 10) (omega arith))

length-digits_of : (fuel n : ℕ) → length (digits_of fuel n) ≤ fuel
unfolding digits_of
length-digits_of zero n = omega arith
length-digits_of (suc fuel) n =
    if-intro (λ (l : Name). length l ≤ suc fuel) (ltb n 10) _ _ (omega arith)
      (omega (
        arith,
        length-digits_of fuel (n / 10),
        length-append (digits_of fuel (n / 10)) ((48 + n % 10) ∷ []),
      ))

pub print_ulong-digits : (n : ℕ) → All (λ c. is_digit c ≡ true) (print_ulong n)
unfolding print_ulong
print_ulong-digits n = digits_of-digits 20 n

pub length-print_ulong : (n : ℕ) → length (print_ulong n) ≤ 20
unfolding print_ulong
length-print_ulong n = length-digits_of 20 n
