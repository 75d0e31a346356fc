-- ===== src/Evidence/RoundTrip.antt =====
-- What `render_manifest_v2` writes is what `parse_manifest_v2` reads.
use mathlib.Core.List.{append-nil, append_assoc}
use truthpage.Prelude.{
  All, All-append, List, String, [], any_char, ap, false, is_break, is_space, join_with, map, refl,
  splitlines-join, strip, true, ◌++◌, ◌∙◌, ◌∷◌, ◌≡◌,
}
use truthpage.Evidence.Manifest.{content_line, field}
use truthpage.Evidence.Parse.{Parsed, parse_manifest_v2, read_line, read_lines}
use truthpage.Evidence.Reading.{
  IsValue, content_line-line, field-line, is_key, is_word, read_line-content, read_line-field,
}

-- These lines hold these fields, and nothing else that is read outside the list of files.
pub data Prints : List String → List (String × String) → Type 0 where
  done : Prints [] []
  prose :
      {line : String} {lines : List String} {entries : List (String × String)}
      → ((p : Parsed) → read_line false line p ≡ (false, p))
      → any_char is_break line ≡ false
      → Prints lines entries
      → Prints (line ∷ lines) entries
  entry :
      {k v : String} {lines : List String} {entries : List (String × String)}
      → is_key k ≡ true
      → Prints lines entries
      → Prints (field k v ∷ lines) ((k, v) ∷ entries)

abbrev pub AllValues : List (String × String) → Type 0
AllValues entries = All (λ e. IsValue e.1) entries

-- Every name of a file and every digest is one word.
abbrev pub AllWords : List (String × String) → Type 0
AllWords files = All (λ e. (is_word e.0 ≡ true) × (is_word e.1 ≡ true)) files

abbrev AllLines : List String → Type 0
AllLines lines = All (λ l. any_char is_break l ≡ false) lines

pub Prints-append :
    {front back : List String} {es fs : List (String × String)}
    → Prints front es
    → Prints back fs
    → Prints (front ++ back) (es ++ fs)
Prints-append done w = w
Prints-append (prose read clean v) w = prose read clean (Prints-append v w)
Prints-append (entry key v) w = entry key (Prints-append v w)

Prints-AllLines :
    {lines : List String} {es : List (String × String)}
    → Prints lines es
    → AllValues es
    → AllLines lines
Prints-AllLines done values = tt
Prints-AllLines (prose read clean w) values = (clean, Prints-AllLines w values)
Prints-AllLines (entry {k} {v} key w) (value, values) =
    (field-line k v key value.0, Prints-AllLines w values)

read_lines-Prints :
    {lines : List String} {es : List (String × String)} (rest : List String) (p : Parsed)
    → Prints lines es
    → AllValues es
    → read_lines (false, p) (lines ++ rest)
      ≡ read_lines (false, record p { fields = p.fields ++ es }) rest
unfolding read_lines
read_lines-Prints rest p done values = rw append-nil
read_lines-Prints rest p (prose {line} {lines} read clean w) values =
    ap (λ q. read_lines q (lines ++ rest)) (read p) ∙ read_lines-Prints rest p w values
read_lines-Prints rest p (entry {k} {v} {lines} {entries} key w) (value, values) =
    ap (λ q. read_lines q (lines ++ rest)) (read_line-field k v p key value.1)
    ∙ read_lines-Prints rest (record p { fields = p.fields ++ (k, v) ∷ [] }) w values
    ∙ rw append_assoc

-- The list of files is read up to its end.
read_lines-contents :
    (files : List (String × String)) (p : Parsed)
    → AllWords files
    → read_lines (true, p) (map content_line files)
      ≡ record p { pack_contents = p.pack_contents ++ files }
unfolding read_lines
read_lines-contents [] p words = rw append-nil
read_lines-contents ((name, digest) ∷ files) p ((word, hash), words) =
    ap (λ q. read_lines q (map content_line files)) (read_line-content name digest p word hash)
    ∙ read_lines-contents files
        (record p { pack_contents = p.pack_contents ++ (name, digest) ∷ [] }) words
    ∙ rw append_assoc

contents-AllLines :
    (files : List (String × String)) → AllWords files → AllLines (map content_line files)
contents-AllLines [] words = tt
contents-AllLines ((name, digest) ∷ files) ((word, hash), words) =
    (content_line-line name digest word hash, contents-AllLines files words)

contents_heading : (p : Parsed) → read_line false "[PACK CONTENTS]" p ≡ (true, p)
unfolding read_line strip is_space
contents_heading p = refl

contents_heading-line : any_char is_break "[PACK CONTENTS]" ≡ false
unfolding is_break
contents_heading-line = refl

abbrev all_lines : List String → List (String × String) → List String
all_lines lines files = lines ++ "[PACK CONTENTS]" ∷ map content_line files

-- A text of such lines and a list of files is read back.
pub parse-Prints :
    {lines : List String} {es : List (String × String)} (files : List (String × String))
    → Prints lines es
    → AllValues es
    → AllWords files
    → parse_manifest_v2
        (join_with "\n" ((lines ++ "[PACK CONTENTS]" ∷ map content_line files) ++ "" ∷ []))
      ≡ record { fields = es; pack_contents = files }
unfolding parse_manifest_v2 read_lines
parse-Prints {lines} {es} files w values words =
    ap (read_lines (false, record { fields = []; pack_contents = [] })) (
      splitlines-join (all_lines lines files) (
        All-append _ lines _ (Prints-AllLines w values)
          (contents_heading-line, contents-AllLines files words)))
    ∙ read_lines-Prints ("[PACK CONTENTS]" ∷ map content_line files) _ w values
    ∙ ap (λ q. read_lines q (map content_line files)) (contents_heading _)
    ∙ read_lines-contents files _ words
