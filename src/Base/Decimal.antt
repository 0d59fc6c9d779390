-- ===== src/Base/Decimal.antt =====
-- `std::stoll` of C++, and that it reads back what `std::to_string` prints.
use text.Mathlib.TextLemmas.{cons-append}
use Prim.Native.String.{◌++◌ as ◌<>◌}
use Prim.Native.Char.{Char, code}
use Prim.Native.String.{String}
use Prim.Native.Nat.{ℕ, zero, suc, ◌+◌, ◌-◌, ◌*◌, ◌/◌, ◌%◌, ◌^◌, ◌≤◌, ◌<◌}
use mathlib.Core.Path.{◌≡◌, refl, ap, ◌∙◌}
use mathlib.Core.Logic.{inl, inr}
use mathlib.Core.Bool.{Bool, true, false, ◌&&◌, ◌||◌}
use mathlib.Core.Option.{Option, none, some}
use native.Mathlib.Omega.{arith}
use cdc_pipeline.Base.Tests.{ltb, leb, ◌==◌, if◌then◌else◌, Bool-cases}
use cdc_pipeline.Base.Int.{ℤ, pos, negsuc}
use cdc_pipeline.Base.Text.{show, show_ℤ, show_onto, digit}

unfoldable pub is_digit : ℕ → Bool
is_digit c = leb 48 c && leb c 57

-- The number that the leading digits of a text continue.
unfoldable pub read : ℕ → String → ℕ
unfolding is_digit
read acc String.[] = acc
read acc (String.◌∷◌ c s) =
    let rest = read (acc * 10 + (code c - 48)) s in if is_digit (code c) then rest else acc

begins_with_digit : String → Bool
unfolding is_digit
begins_with_digit String.[] = false
begins_with_digit (String.◌∷◌ c s) = is_digit (code c)

-- int64_t's range; outside it `stoll` throws `out_of_range`.
abbrev pub max_int64 : ℕ
max_int64 = 2 ^ 63 - 1

signed : Bool → String → Option ℤ
unfolding read begins_with_digit
signed negative s =
    let n = read 0 s in
    if begins_with_digit s
    then (if negative
        then (if leb n (max_int64 + 1)
            then some (if n == 0 then pos 0 else negsuc (n - 1))
            else none)
        else (if leb n max_int64 then some (pos n) else none))
    else none

-- White space in front is skipped, then comes a sign, then digits; what follows is ignored.
unfoldable pub stoll : String → Option ℤ
unfolding signed
stoll String.[] = none
stoll (String.◌∷◌ c s) =
    let rest = stoll s in
    let n = code c in
    if n == 32 || leb 9 n && leb n 13
    then rest
    else if n == 45
    then signed true s
    else if n == 43
    then signed false s
    else signed false (String.◌∷◌ c s)

stoll_text : stoll " -42abc" ≡ some (negsuc 41)
unfolding stoll
stoll_text = refl

stoll_too_large : stoll "9223372036854775808" ≡ none
unfolding stoll
stoll_too_large = refl

-- A digit is read as its value, and is neither a blank nor a sign.
abbrev pub IsDigit : ℕ → Char → Type 0
IsDigit d c =
    (is_digit (code c) ≡ true)
    × (code c - 48 ≡ d)
    × ((code c == 32) ≡ false)
    × (leb (code c) 13 ≡ false)
    × ((code c == 45) ≡ false)
    × ((code c == 43) ≡ false)

pub digit-IsDigit : (d : ℕ) → d < 10 → IsDigit d (digit d)
unfolding is_digit digit
digit-IsDigit zero h = (refl, refl, refl, refl, refl, refl)
digit-IsDigit (suc zero) h = (refl, refl, refl, refl, refl, refl)
digit-IsDigit (suc (suc zero)) h = (refl, refl, refl, refl, refl, refl)
digit-IsDigit (suc (suc (suc zero))) h = (refl, refl, refl, refl, refl, refl)
digit-IsDigit (suc (suc (suc (suc zero)))) h = (refl, refl, refl, refl, refl, refl)
digit-IsDigit (suc (suc (suc (suc (suc zero))))) h = (refl, refl, refl, refl, refl, refl)
digit-IsDigit (suc (suc (suc (suc (suc (suc zero)))))) h = (refl, refl, refl, refl, refl, refl)
digit-IsDigit (suc (suc (suc (suc (suc (suc (suc zero))))))) h =
    (refl, refl, refl, refl, refl, refl)
digit-IsDigit (suc (suc (suc (suc (suc (suc (suc (suc zero)))))))) h =
    (refl, refl, refl, refl, refl, refl)
digit-IsDigit (suc (suc (suc (suc (suc (suc (suc (suc (suc zero))))))))) h =
    (refl, refl, refl, refl, refl, refl)
digit-IsDigit (suc (suc (suc (suc (suc (suc (suc (suc (suc (suc d)))))))))) h = absurd (omega arith)

read-digit :
    (d acc : ℕ) (rest : String)
    → d < 10
    → read acc (String.◌∷◌ (digit d) rest) ≡ read (acc * 10 + d) rest
unfolding read
read-digit d acc rest h = let (is, value, _, _, _, _) = digit-IsDigit d h in rw (is, value) refl

pub read-show_onto :
    (fuel n : ℕ) (rest : String) → n < fuel → read 0 (show_onto fuel n rest) ≡ read n rest
unfolding show_onto
read-show_onto zero n rest h = elim h [ ]
read-show_onto (suc fuel) n rest h = elim (Bool-cases (ltb n 10)) [
  | inl small ↦ rw small (read-digit n 0 rest (ground arith) ∙ ap (λ m. read m rest) (omega arith))
  | inr large ↦ rw large (
      read-show_onto fuel (n / 10) (String.◌∷◌ (digit (n % 10)) rest) (ground arith)
      ∙ read-digit (n % 10) (n / 10) rest (omega arith)
      ∙ ap (λ m. read m rest) (omega arith))
]

read-show : (n : ℕ) → read 0 (show n) ≡ n
unfolding show read
read-show n = read-show_onto (n + 1) n "" (omega arith)

pub show_onto-append :
    (fuel n : ℕ) (a b : String) → show_onto fuel n a <> b ≡ show_onto fuel n (a <> b)
unfolding show_onto
show_onto-append zero n a b = refl
show_onto-append (suc fuel) n a b = elim (Bool-cases (ltb n 10)) [
  | inl small ↦ rw small (cons-append (digit n) a b)
  | inr large ↦ rw large (
      show_onto-append fuel (n / 10) (String.◌∷◌ (digit (n % 10)) a) b
      ∙ ap (show_onto fuel (n / 10)) (cons-append (digit (n % 10)) a b))
]

-- The first character of a printed number is a digit.
pub show_onto-digit :
    (fuel n : ℕ) (rest : String)
    → n < fuel
    → (d : ℕ) × (t : String) × (d < 10) × (show_onto fuel n rest ≡ String.◌∷◌ (digit d) t)
unfolding show_onto
show_onto-digit zero n rest h = elim h [ ]
show_onto-digit (suc fuel) n rest h = elim (Bool-cases (ltb n 10)) [
  | inl small ↦ rw small (n, rest, ground arith, refl)
  | inr large ↦
      rw large (show_onto-digit fuel (n / 10) (String.◌∷◌ (digit (n % 10)) rest) (ground arith))
]

begins-show : (n : ℕ) → begins_with_digit (show n) ≡ true
unfolding begins_with_digit show
begins-show n =
    let (d, t, lt, e) = show_onto-digit (n + 1) n "" (omega arith) in rw e (digit-IsDigit d lt).0

stoll-show : (n : ℕ) → stoll (show n) ≡ signed false (show n)
unfolding stoll show
stoll-show n =
    let (d, t, lt, e) = show_onto-digit (n + 1) n "" (omega arith) in
    let (_, _, blank, white, minus, plus) = digit-IsDigit d lt in
    rw e (rw (blank, white, minus, plus) (ground arith))

abbrev pub IsInt64 : ℤ → Type 0
IsInt64 (pos n) = n ≤ max_int64
IsInt64 (negsuc n) = n ≤ max_int64

read_negative : (n : ℕ) → n ≤ max_int64 → stoll (show_ℤ (negsuc n)) ≡ some (negsuc n)
unfolding show_ℤ stoll
read_negative n h = rw (begins-show, read-show) (ground arith)

-- `stoll` reads back what `std::to_string` prints, for every 64-bit integer.
pub stoll-show_ℤ : (n : ℤ) → IsInt64 n → stoll (show_ℤ n) ≡ some n
unfolding show_ℤ signed
stoll-show_ℤ (pos n) h = stoll-show n ∙ rw (begins-show, read-show) (ground arith)
stoll-show_ℤ (negsuc n) h = read_negative n h
