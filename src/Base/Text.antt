-- ===== src/Base/Text.antt =====
-- Decimal and hexadecimal digits of a number as text.
use Prim.Native.Nat.{ℕ, zero, suc, ◌+◌, ◌/◌, ◌%◌}
use Prim.Native.Char.{Char, char}
use Prim.Native.String.{String}
use mathlib.Core.Bool.{Bool, true, false}
use mathlib.Core.Option.{none, some}
use text.Mathlib.Text.{find?}
use mathlib.Core.Path.{◌≡◌, refl}
use cdc_pipeline.Base.Tests.{ltb, ◌==◌, if◌then◌else◌}
use cdc_pipeline.Base.Int.{ℤ, pos, negsuc}

-- The digit of a number below 16.
unfoldable pub digit : ℕ → Char
digit n =
    if n == 0
    then "0"
    else if n == 1
    then "1"
    else if n == 2
    then "2"
    else if n == 3
    then "3"
    else if n == 4
    then "4"
    else if n == 5
    then "5"
    else if n == 6
    then "6"
    else if n == 7
    then "7"
    else if n == 8
    then "8"
    else if n == 9
    then "9"
    else if n == 10
    then "a"
    else if n == 11
    then "b"
    else if n == 12
    then "c"
    else if n == 13
    then "d"
    else if n == 14
    then "e"
    else "f"

-- The digits of `n` in front of `rest`. A number has fewer decimal digits than `n + 1`, so `show`
-- gives enough fuel.
unfoldable pub show_onto : ℕ → ℕ → String → String
unfolding digit
show_onto zero n rest = rest
show_onto (suc fuel) n rest =
    let more = show_onto fuel (n / 10) (String.◌∷◌ (digit (n % 10)) rest) in
    if ltb n 10 then String.◌∷◌ (digit n) rest else more

-- `str(n)` of Python, and `{}` of fmt.
unfoldable pub show : ℕ → String
unfolding show_onto
show n = show_onto (n + 1) n ""

unfoldable pub show_ℤ : ℤ → String
unfolding show
show_ℤ (pos n) = show n
show_ℤ (negsuc n) = String.◌∷◌ "-" (show (n + 1))

-- Four hexadecimal digits.
unfoldable pub hex4 : ℕ → String
unfolding digit
hex4 n = String.◌∷◌ (digit (n / 4096 % 16)) (
    String.◌∷◌ (digit (n / 256 % 16))
      (String.◌∷◌ (digit (n / 16 % 16)) (String.◌∷◌ (digit (n % 16)) String.[])))

-- U+FE0F, which a source text here cannot hold.
abbrev pub emoji_style : String
emoji_style = String.◌∷◌ (char 65039 tt) String.[]

-- `part in text`
abbrev pub contains : String → String → Bool
contains part text = elim (find? text part) [ some i ↦ true | none ↦ false ]

show_2064 : show 2064 ≡ "2064"
unfolding show
show_2064 = refl

show_negative : show_ℤ (negsuc 9) ≡ "-10"
unfolding show_ℤ
show_negative = refl

hex4_dash : hex4 8212 ≡ "2014"
unfolding hex4
hex4_dash = refl

contains_inside : contains "exists" "it already exists." ≡ true
contains_inside = refl

contains_not : contains "duplicate" "Duplicate data view" ≡ false
contains_not = refl
