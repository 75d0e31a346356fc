-- ===== src/Prelude/Strings.antt =====
-- Operations of Python on texts that the evidence files are written and read with: `s + t`,
-- `str.splitlines`, `str.strip`, `str.split` on whitespace and `str.partition`.
use Prim.Native.Nat.{ℕ}
use Prim.Native.Char.{Char, code}
use Prim.Native.String.{String}
use mathlib.Core.Bool.{Bool, true, false, not, ◌&&◌, ◌||◌}
use mathlib.Core.List.{List, [], ◌∷◌, ◌++◌}
use mathlib.Core.Logic.{inl, inr}
use mathlib.Core.Path.{◌≡◌, refl, ap, sym, ◌∙◌}
use native.Mathlib.Omega.{arith}
use truthpage.Prelude.Tests.{leb, ◌==◌, if◌then◌else◌, Bool-cases}
use truthpage.Prelude.Lists.{All}

-- `s + t`, by clauses, so that it computes at a literal in front of an unknown text.
infixr 35 ◌<>◌
abbrev pub ◌<>◌ : String → String → String
String.[] <> t = t
String.◌∷◌ c s <> t = String.◌∷◌ c (s <> t)

-- `sep.join(lines)`
abbrev pub join_with : String → List String → String
join_with sep [] = ""
join_with sep (x ∷ []) = x
join_with sep (x ∷ y ∷ xs) = x <> sep <> join_with sep (y ∷ xs)

-- Where `str.splitlines` ends a line.
unfoldable pub is_break : ℕ → Bool
is_break c =
    (leb 10 c && leb c 13) || (leb 28 c && leb c 30) || (c == 133) || (c == 8232) || (c == 8233)

-- `str.isspace` of one character.
unfoldable pub is_space : ℕ → Bool
is_space c =
    (leb 9 c && leb c 13)
    || (leb 28 c && leb c 32)
    || (c == 133)
    || (c == 160)
    || (c == 5760)
    || (leb 8192 c && leb c 8202)
    || (c == 8232)
    || (c == 8233)
    || (c == 8239)
    || (c == 8287)
    || (c == 12288)

abbrev pub any_char : (ℕ → Bool) → String → Bool
any_char p String.[] = false
any_char p (String.◌∷◌ c s) = if p (code c) then true else any_char p s

abbrev pub is_blank : String → Bool
is_blank String.[] = true
is_blank (String.◌∷◌ c s) = false

-- A character in front of the first text of a list.
abbrev pub onto_first : Char → List String → List String
onto_first c [] = String.◌∷◌ c String.[] ∷ []
onto_first c (x ∷ xs) = String.◌∷◌ c x ∷ xs

-- The flag tells that a carriage return was just read, whose line feed is no second break.
abbrev pub lines_from : Bool → String → List String
lines_from after_cr String.[] = []
lines_from after_cr (String.◌∷◌ c s) =
    let next = lines_from (code c == 13) s in
    let same = lines_from false s in
    if after_cr && (code c == 10)
    then same
    else if is_break (code c)
    then "" ∷ next
    else onto_first c same

unfoldable pub splitlines : String → List String
splitlines s = lines_from false s

abbrev pub lstrip : String → String
lstrip String.[] = String.[]
lstrip (String.◌∷◌ c s) = let rest = lstrip s in if is_space (code c) then rest else String.◌∷◌ c s

abbrev pub rstrip : String → String
rstrip String.[] = String.[]
rstrip (String.◌∷◌ c s) =
    let rest = rstrip s in
    if is_space (code c) && is_blank rest then String.[] else String.◌∷◌ c rest

unfoldable pub strip : String → String
strip s = lstrip (rstrip s)

abbrev pub starts_word : String → Bool
starts_word String.[] = false
starts_word (String.◌∷◌ c s) = not (is_space (code c))

-- `s.split()`
unfoldable pub split_words : String → List String
split_words String.[] = []
split_words (String.◌∷◌ c s) =
    let rest = split_words s in
    if is_space (code c)
    then rest
    else if starts_word s
    then onto_first c rest
    else String.◌∷◌ c String.[] ∷ rest

-- `s.partition(sep)` for a separator of one character: what stands before it, whether it occurs,
-- and what stands behind it.
abbrev pub partition : ℕ → String → String × (Bool × String)
partition sep String.[] = (String.[], (false, String.[]))
partition sep (String.◌∷◌ c s) =
    let (before, (found, behind)) = partition sep s in
    if code c == sep then (String.[], (true, s)) else (String.◌∷◌ c before, (found, behind))

pub <>_assoc : (s t u : String) → ((s <> t) <> u) ≡ (s <> t <> u)
<>_assoc String.[] t u = refl
<>_assoc (String.◌∷◌ c s) t u = ap (String.◌∷◌ c) (<>_assoc s t u)

pub <>-nil : (s : String) → (s <> "") ≡ s
<>-nil String.[] = refl
<>-nil (String.◌∷◌ c s) = ap (String.◌∷◌ c) (<>-nil s)

space : is_space 32 ≡ true
unfolding is_space
space = refl

newline : is_break 10 ≡ true
unfolding is_break
newline = refl

-- A line with no break in it is read back.
lines_from-line :
    (l t : String)
    → any_char is_break l ≡ false
    → lines_from false (l <> "\n" <> t) ≡ l ∷ lines_from false t
lines_from-line String.[] t clean = rw newline refl
lines_from-line (String.◌∷◌ c l) t clean = ground (arith, lines_from-line l t)

-- Lines that are joined, with an empty one at the end, are read back.
pub splitlines-join :
    (ls : List String)
    → All (λ l. any_char is_break l ≡ false) ls
    → splitlines (join_with "\n" (ls ++ "" ∷ [])) ≡ ls
unfolding splitlines
splitlines-join [] clean = refl
splitlines-join (l ∷ []) clean = lines_from-line l "" clean.0
splitlines-join (l ∷ m ∷ ls) clean =
    lines_from-line l (join_with "\n" (m ∷ (ls ++ "" ∷ []))) clean.0
    ∙ ap (l ∷◌) (splitlines-join (m ∷ ls) clean.1)

pub is_blank-eq : (s : String) → is_blank s ≡ true → s ≡ ""
is_blank-eq String.[] blank = refl
is_blank-eq (String.◌∷◌ c s) blank = absurd (ground arith)

-- A blank in front of a stripped text is stripped off again.
pub strip-space : (s : String) → strip s ≡ s → strip (" " <> s) ≡ s
unfolding strip is_space
strip-space s stripped = elim (Bool-cases (is_blank (rstrip s))) [
  | inl blank ↦ rw blank (sym (ap lstrip (is_blank-eq (rstrip s) blank)) ∙ stripped)
  | inr full ↦ rw full stripped
]

-- A word with a blank behind it is split off.
pub split_words-word :
    (w t : String)
    → any_char is_space w ≡ false
    → is_blank w ≡ false
    → split_words (w <> " " <> t) ≡ w ∷ split_words t
unfolding split_words
split_words-word String.[] t solid filled = absurd (ground arith)
split_words-word (String.◌∷◌ c String.[]) t solid filled = ground (arith, space)
split_words-word (String.◌∷◌ c (String.◌∷◌ d w)) t solid filled =
    ground (arith, space, split_words-word (String.◌∷◌ d w) t)

pub split_words-last :
    (w : String) → any_char is_space w ≡ false → is_blank w ≡ false → split_words w ≡ w ∷ []
unfolding split_words
split_words-last String.[] solid filled = absurd (ground arith)
split_words-last (String.◌∷◌ c String.[]) solid filled = ground arith
split_words-last (String.◌∷◌ c (String.◌∷◌ d w)) solid filled =
    ground (arith, split_words-last (String.◌∷◌ d w))

-- A text is parted at the first separator.
pub partition-append :
    (sep : ℕ) (k s : String) (c : Char)
    → code c ≡ sep
    → any_char (λ d. d == sep) k ≡ false
    → partition sep (k <> String.◌∷◌ c s) ≡ (k, (true, s))
partition-append sep String.[] s c e none_in = ground arith
partition-append sep (String.◌∷◌ d k) s c e none_in = ground (arith, partition-append sep k s c e)
