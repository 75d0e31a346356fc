-- ===== src/Evidence/Parse.antt =====
-- app/services/evidence.py: reading a manifest, `detect_manifest_version` and `parse_manifest_v2`.
use Prim.Native.Char.{code}
use truthpage.Prelude.{
  Bool, List, Option, String, [], false, get_or, if◌then◌else◌, is_blank, is_some, is_space, lstrip,
  none, partition, some, split_words, splitlines, str_eq, strip, true, ℕ, ◌&&◌, ◌*◌, ◌++◌, ◌+◌, ◌-◌,
  ◌==◌, ◌∷◌,
}
use truthpage.Notice.{is_prefix}
use truthpage.Evidence.{after_prefix, is_digit, starts_digit}

later_or : Option String → Option String → Option String
later_or none v = v
later_or (some w) v = some w

-- `d.get(key)` of a dictionary as the list of its assignments: the last one counts.
unfoldable pub get : String → List (String × String) → Option String
unfolding later_or
get key [] = none
get key ((k, v) ∷ entries) = later_or (get key entries) (if str_eq k key then some v else none)

-- The digits at the front of a text as a number, after the digits that were read.
abbrev read_digits : ℕ → String → ℕ × String
read_digits n String.[] = (n, String.[])
read_digits n (String.◌∷◌ c s) =
    let more = read_digits (n * 10 + (code c - 48)) s in
    if is_digit (code c) then more else (n, String.◌∷◌ c s)

-- `\s*$`, where `$` matches at the end of a line.
abbrev ends_line : String → Bool
ends_line String.[] = true
ends_line (String.◌∷◌ c s) =
    let rest = ends_line s in
    if code c == 10 then true else if is_space (code c) then rest else false

-- `\s*(\d+)\s*$` behind "manifest_version:"
unfoldable pub version_number : String → Option ℕ
version_number behind =
    let digits = lstrip behind in
    let read = read_digits 0 digits in
    if starts_digit digits && ends_line read.1 then some read.0 else none

version_here : Option String → Option ℕ
unfolding version_number
version_here none = none
version_here (some behind) = version_number behind

-- `re.search` with MULTILINE; the flag tells that a line starts here.
unfoldable pub search_version : Bool → String → Option ℕ
unfolding version_here
search_version line_start String.[] = none
search_version line_start (String.◌∷◌ c s) =
    let later = search_version (code c == 10) s in
    let here =
      if line_start
      then version_here (after_prefix "manifest_version:" (String.◌∷◌ c s))
      else none in
    if is_some here then here else later

unfoldable pub detect_manifest_version : String → ℕ
detect_manifest_version text = get_or (search_version true text) 1

-- `fields` and `fields["pack_contents"]`.
pub record Parsed : Type 0 where
  pub fields : List (String × String)
  pub pack_contents : List (String × String)

-- A line of the list of files: two words.
unfoldable pub add_content : List String → Parsed → Parsed
add_content (name ∷ digest ∷ []) p = record p {
  pack_contents = p.pack_contents ++ (name, digest) ∷ [];
}
add_content _ p = p

unfoldable pub add_field : String × (Bool × String) → Parsed → Parsed
add_field (key, (true, value)) p = record p { fields = p.fields ++ (strip key, strip value) ∷ [] }
add_field (key, (false, value)) p = p

-- One turn of the loop. A line of `splitlines` has no "\n" for `rstrip` to take off.
unfoldable pub read_line : Bool → String → Parsed → Bool × Parsed
unfolding add_content add_field
read_line in_pack_contents line p =
    if is_blank line
    then (in_pack_contents, p)
    else if is_prefix "[" line
    then (str_eq (strip line) "[PACK CONTENTS]", p)
    else if is_prefix "TrustPages Audit Evidence Pack" line
    then (in_pack_contents, p)
    else if in_pack_contents
    then (in_pack_contents, add_content (split_words line) p)
    else (in_pack_contents, add_field (partition 58 line) p)

unfoldable pub read_lines : Bool × Parsed → List String → Parsed
read_lines (in_pack_contents, p) [] = p
read_lines (in_pack_contents, p) (line ∷ lines) =
    read_lines (read_line in_pack_contents line p) lines

unfoldable pub parse_manifest_v2 : String → Parsed
parse_manifest_v2 text =
    read_lines (false, record { fields = []; pack_contents = [] }) (splitlines text)
