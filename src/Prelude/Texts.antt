-- ===== src/Prelude/Texts.antt =====
-- Text operations of Python that the program uses, on native strings.
use Prim.Native.Nat.{ℕ, zero, suc, ◌-◌, ◌/◌, ◌%◌}
use Prim.Native.Char.{Char, code}
use Prim.Native.String.{String, char_at, ◌++◌}
use mathlib.Core.Bool.{Bool, true, false, ◌&&◌}
use mathlib.Core.Option.{none, some}
use mathlib.Core.List.{List, [], ◌∷◌}
use mathlib.Core.Path.{◌≡◌, refl}
use text.Mathlib.Text
use text.Mathlib.Text.{◌==◌ as str_eq}
use truthpage.Prelude.Tests.{leb, ltb, ◌==◌, if◌then◌else◌}

-- `str.lower` on the letters A to Z; every other character is left as it is.
abbrev pub lower_char : Char → Char
lower_char c =
    if leb 65 (code c) && leb (code c) 90
    then char_at "abcdefghijklmnopqrstuvwxyz" (code c - 65)
    else c

abbrev pub lower : String → String
lower String.[] = String.[]
lower (String.◌∷◌ c s) = String.◌∷◌ (lower_char c) (lower s)

-- `needle in text`
abbrev pub is_in : String → String → Bool
is_in needle text = elim (Text.find? text needle) [ none ↦ false | some _ ↦ true ]

-- `text in (a, b, c)`
abbrev pub mem_str : String → List String → Bool
mem_str s [] = false
mem_str s (t ∷ ts) = if str_eq s t then true else mem_str s ts

lower_lem : lower "Stripe, INC." ≡ "stripe, inc."
lower_lem = refl

is_in-true : is_in "moment" "just a moment..." ≡ true
is_in-true = refl

unfoldable pub cons_first : Char → List String → List String
cons_first c [] = String.◌∷◌ c String.[] ∷ []
cons_first c (x ∷ xs) = String.◌∷◌ c x ∷ xs

-- `s.split(sep)` for a separator of one character, given by its code.
unfoldable pub split : String → ℕ → List String
unfolding cons_first
split String.[] sep = "" ∷ []
split (String.◌∷◌ c s) sep =
    let rest = split s sep in if code c == sep then "" ∷ rest else cons_first c rest

-- `sep.join(parts)`
unfoldable pub join : String → List String → String
join sep [] = ""
join sep (x ∷ []) = x
join sep (x ∷ y ∷ xs) = x ++ sep ++ join sep (y ∷ xs)

-- `s[:n]`
unfoldable pub take_chars : ℕ → String → String
take_chars zero s = ""
take_chars (suc n) String.[] = String.[]
take_chars (suc n) (String.◌∷◌ c s) = String.◌∷◌ c (take_chars n s)

digits : ℕ → ℕ → String → String
digits zero n rest = rest
digits (suc f) n rest =
    let rest' = String.◌∷◌ (char_at "0123456789" (n % 10)) rest in
    let more = digits f (n / 10) rest' in if ltb n 10 then rest' else more

-- `str(n)`; a number has at most as many digits as its value plus one.
unfoldable pub show : ℕ → String
unfolding digits
show n = digits (suc n) n ""

show_lem : show 1440 ≡ "1440"
unfolding show
show_lem = refl

split_lem : split "a,,b" 44 ≡ "a" ∷ "" ∷ "b" ∷ []
unfolding split
split_lem = refl

join-split : join "," (split "a,,b" 44) ≡ "a,,b"
unfolding split join
join-split = refl
