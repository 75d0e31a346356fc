-- ===== src/Detector.antt =====
-- app/core/scraper/detector.py: the part of a diff that the classifier sees. `unified_diff` is
-- difflib's, and a parameter where it is used.
pub mod Hunks
mod Tests
use Prim.Native.String.{count as chars}
use text.Mathlib.Text.{starts_with}
use truthpage.Prelude.{
  Bool, List, Option, String, [], concat, if◌then◌else◌, join, leb, length, ltb, map, none, not,
  show, some, split, suc, take_chars, true, zero, ℕ, ◌++◌, ◌+◌, ◌-◌, ◌==◌, ◌∷◌,
}

abbrev pub diff_for_llm_max_chars : ℕ
diff_for_llm_max_chars = 12000

-- The lines above the first hunk marker, and the rest from it on; `none` if no line has one.
unfoldable pub split_header : List String → Option (List String × List String)
split_header [] = none
split_header (line ∷ lines) =
    if starts_with line "@@" then some ([], line ∷ lines) else elim (split_header lines) [
      | none ↦ none
      | some (header, body) ↦ some (line ∷ header, body)
    ]

-- `hunks[-1].append(line)`, where there is one.
unfoldable pub append_last : List (List String) → String → List (List String)
append_last [] line = []
append_last (h ∷ []) line = (h ++ line ∷ []) ∷ []
append_last (h ∷ g ∷ hs) line = h ∷ append_last (g ∷ hs) line

-- The loop over the lines from the first marker on.
unfoldable pub group_hunks : List String → List (List String) → List (List String)
unfolding append_last
group_hunks [] hunks = hunks
group_hunks (line ∷ lines) hunks =
    group_hunks lines
      (if starts_with line "@@" then hunks ++ (line ∷ []) ∷ [] else append_last hunks line)

-- `hunks[index]`, for an index in range.
abbrev pub get_hunk : List (List String) → ℕ → List String
get_hunk [] index = []
get_hunk (h ∷ hs) zero = h
get_hunk (h ∷ hs) (suc index) = get_hunk hs index

pub record Kept : Type 0 where
  pub head : List (List String)
  pub tail : List (List String)
  pub used : ℕ

-- The loop `while left <= right`; `remaining` is `right - left + 1`, so `right` is `left + n` where
-- it is `suc n`.
unfoldable pub keep_loop : List (List String) → ℕ → ℕ → ℕ → Bool → Kept → Kept
keep_loop hunks budget zero left take_head kept = kept
keep_loop hunks budget (suc n) left take_head kept =
    let hunk = get_hunk hunks (if take_head then left else left + n) in
    let used = kept.used + chars (join "\n" hunk) + 1 in
    let more =
      keep_loop hunks budget n (if take_head then left + 1 else left) (not take_head) (record kept {
        head = if take_head then kept.head ++ hunk ∷ [] else kept.head;
        tail = if take_head then kept.tail else hunk ∷ kept.tail;
        used = used;
      }) in
    if ltb budget used then kept else more

-- "[... N further changed section(s) omitted ...]", if any were.
abbrev pub omission : ℕ → List String
omission zero = []
omission (suc n) =
    concat (concat "[... " (show (suc n))) " further changed section(s) omitted ...]" ∷ []

unfoldable pub trim : String → ℕ → List String → List String → String
trim raw_diff max_chars header body =
    let hunks = group_hunks body [] in
    let header_text = join "\n" header in
    let budget = max_chars - chars header_text - 100 in
    let kept =
      keep_loop hunks budget (length hunks) 0 true (record { head = []; tail = []; used = 0 }) in
    let omitted = length hunks - length kept.head - length kept.tail in
    if budget == 0
    then take_chars max_chars raw_diff
    else join "\n" (
        header_text
        ∷ (map (join "\n") kept.head ++ (omission omitted ++ map (join "\n") kept.tail)))

unfoldable pub diff_for_llm : String → ℕ → String
unfolding trim
diff_for_llm raw_diff max_chars =
    if leb (chars raw_diff) max_chars then raw_diff else elim (split_header (split raw_diff 10)) [
      | none ↦ take_chars max_chars raw_diff
      | some (header, body) ↦ trim raw_diff max_chars header body
    ]
