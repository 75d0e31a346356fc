-- ===== src/Evidence/Reading.antt =====
-- Lines that are written, and what `parse_manifest_v2` reads off them.
use Prim.Native.Char.{Char, code}
use truthpage.Prelude.{
  Bool, String, [], any_char, ap, arith, false, if◌then◌else◌, is_blank, is_break, is_space, leb,
  not, partition, partition-append, refl, rstrip, split_words, split_words-last, split_words-word,
  strip, strip-space, true, ℕ, ◌&&◌, ◌++◌, ◌<>◌, ◌==◌, ◌||◌, ◌∙◌, ◌∷◌, ◌≡◌,
}
use truthpage.Evidence.Manifest.{content_line, field}
use truthpage.Evidence.Parse.{Parsed, add_content, add_field, read_line}

-- A name of a field: a lower-case letter, and no colon or blank.
abbrev pub is_key : String → Bool
is_key String.[] = false
is_key (String.◌∷◌ c k) =
    leb 97 (code c)
    && leb (code c) 122
    && not (any_char (λ d. d == 58) (String.◌∷◌ c k))
    && not (any_char is_space (String.◌∷◌ c k))

-- A name of a file, or a digest: one word, with nothing that a heading starts with.
abbrev pub is_word : String → Bool
is_word String.[] = false
is_word (String.◌∷◌ c w) =
    not (91 == code c) && not (84 == code c) && not (any_char is_space (String.◌∷◌ c w))

-- A value that takes one line, with no blank at its ends.
abbrev pub IsValue : String → Type 0
IsValue v = (any_char is_break v ≡ false) × (strip v ≡ v)

pub any_char-append :
    (p : ℕ → Bool) (s t : String) → any_char p (s <> t) ≡ (any_char p s || any_char p t)
any_char-append p String.[] t = refl
any_char-append p (String.◌∷◌ c s) t = ground (arith, any_char-append p s t)

is_break-is_space : (c : ℕ) → is_space c ≡ false → is_break c ≡ false
unfolding is_break is_space
is_break-is_space c solid = ground arith

solid-line : (w : String) → any_char is_space w ≡ false → any_char is_break w ≡ false
solid-line String.[] solid = refl
solid-line (String.◌∷◌ c w) solid = ground (arith, is_break-is_space (code c), solid-line w)

rstrip_solid : (w : String) → any_char is_space w ≡ false → rstrip w ≡ w
rstrip_solid String.[] solid = refl
rstrip_solid (String.◌∷◌ c w) solid = ground (arith, rstrip_solid w)

strip_solid : (w : String) → any_char is_space w ≡ false → strip w ≡ w
unfolding strip
strip_solid String.[] solid = refl
strip_solid (String.◌∷◌ c w) solid = rw (rstrip_solid (String.◌∷◌ c w) solid) (ground arith)

-- The turn of the loop at a line that is no heading and no title.
read_line-plain :
    (in_pack : Bool) (c : Char) (s : String) (p : Parsed)
    → (91 == code c) ≡ false
    → (84 == code c) ≡ false
    → read_line in_pack (String.◌∷◌ c s) p ≡ (
      in_pack,
      if in_pack
          then add_content (split_words (String.◌∷◌ c s)) p
          else add_field (partition 58 (String.◌∷◌ c s)) p,
    )
unfolding read_line
read_line-plain true c s p no_heading no_title = rw (no_heading, no_title) refl
read_line-plain false c s p no_heading no_title = rw (no_heading, no_title) refl

partition_key :
    (k v : String)
    → any_char (λ d. d == 58) k ≡ false
    → partition 58 (k <> ": " <> v) ≡ (k, (true, " " <> v))
partition_key k v no_colon = partition-append 58 k (" " <> v) _ refl no_colon

add_field-parted :
    (k v : String) (p : Parsed)
    → strip k ≡ k
    → strip v ≡ v
    → add_field (k, (true, " " <> v)) p ≡ record p { fields = p.fields ++ (k, v) ∷ [] }
unfolding add_field
add_field-parted k v p key value = rw (key, strip-space v value) refl

-- A line of a field.
pub read_line-field :
    (k v : String) (p : Parsed)
    → is_key k ≡ true
    → strip v ≡ v
    → read_line false (field k v) p ≡ (false, record p { fields = p.fields ++ (k, v) ∷ [] })
unfolding field
read_line-field String.[] v p key stripped = absurd (ground arith)
read_line-field (String.◌∷◌ c k) v p key stripped =
    read_line-plain false c (k <> ": " <> v) p (ground arith) (ground arith)
    ∙ ap (λ parts. (false, add_field parts p)) (partition_key (String.◌∷◌ c k) v (ground arith))
    ∙ ap (λ q. (false, q))
        (add_field-parted (String.◌∷◌ c k) v p (strip_solid (String.◌∷◌ c k) (ground arith))
          stripped)

is_word-solid : (w : String) → is_word w ≡ true → any_char is_space w ≡ false
is_word-solid String.[] word = refl
is_word-solid (String.◌∷◌ c w) word = ground arith

is_word-filled : (w : String) → is_word w ≡ true → is_blank w ≡ false
is_word-filled String.[] word = absurd (ground arith)
is_word-filled (String.◌∷◌ c w) word = refl

pub is_word-line : (w : String) → is_word w ≡ true → any_char is_break w ≡ false
is_word-line w word = solid-line w (is_word-solid w word)

two_words :
    (w h : String) → is_word w ≡ true → is_word h ≡ true → split_words (w <> "  " <> h) ≡ w ∷ h ∷ []
unfolding split_words is_space
two_words w h word hash =
    split_words-word w (" " <> h) (is_word-solid w word) (is_word-filled w word)
    ∙ ap (w ∷◌) (split_words-last h (is_word-solid h hash) (is_word-filled h hash))

no_heading : (c : Char) (w : String) → is_word (String.◌∷◌ c w) ≡ true → (91 == code c) ≡ false
no_heading c w word = ground arith

no_title : (c : Char) (w : String) → is_word (String.◌∷◌ c w) ≡ true → (84 == code c) ≡ false
no_title c w word = ground arith

add_content-words :
    (name digest : String) (p : Parsed)
    → add_content (name ∷ digest ∷ []) p
      ≡ record p { pack_contents = p.pack_contents ++ (name, digest) ∷ [] }
unfolding add_content
add_content-words name digest p = refl

-- A line of the list of files.
pub read_line-content :
    (name digest : String) (p : Parsed)
    → is_word name ≡ true
    → is_word digest ≡ true
    → read_line true (content_line (name, digest)) p
      ≡ (true, record p { pack_contents = p.pack_contents ++ (name, digest) ∷ [] })
unfolding content_line
read_line-content String.[] digest p word hash = absurd (ground arith)
read_line-content (String.◌∷◌ c w) digest p word hash =
    read_line-plain true c (w <> "  " <> digest) p (no_heading c w word) (no_title c w word)
    ∙ ap (λ words. (true, add_content words p)) (two_words (String.◌∷◌ c w) digest word hash)
    ∙ ap (λ q. (true, q)) (add_content-words (String.◌∷◌ c w) digest p)

is_key-line : (k : String) → is_key k ≡ true → any_char is_break k ≡ false
is_key-line String.[] key = absurd (ground arith)
is_key-line (String.◌∷◌ c k) key = solid-line (String.◌∷◌ c k) (ground arith)

colon_line : (v : String) → any_char is_break (": " <> v) ≡ any_char is_break v
unfolding is_break
colon_line v = refl

blanks_line : (v : String) → any_char is_break ("  " <> v) ≡ any_char is_break v
unfolding is_break
blanks_line v = refl

pub field-line :
    (k v : String)
    → is_key k ≡ true
    → any_char is_break v ≡ false
    → any_char is_break (field k v) ≡ false
unfolding field
field-line k v key clean =
    rw (any_char-append is_break k (": " <> v), is_key-line k key, colon_line v) clean

pub content_line-line :
    (name digest : String)
    → is_word name ≡ true
    → is_word digest ≡ true
    → any_char is_break (content_line (name, digest)) ≡ false
unfolding content_line
content_line-line name digest word hash =
    rw (any_char-append is_break name ("  " <> digest), is_word-line name word, blanks_line digest)
      (is_word-line digest hash)
