-- ===== src/Notice.antt =====
-- app/core/llm/notice.py: the placeholders of a drafted notice; `str.replace` for a text that is not
-- empty. The digest of `notice_preview_token` (hashlib) is a parameter where it is used.
use Prim.Native.Char.{code}
use truthpage.Prelude.{
  Bool, String, concat, false, if◌then◌else◌, refl, show, suc, true, zero, ℕ, ◌-◌, ◌==◌, ◌≡◌,
}

-- `s.startswith(prefix)`
abbrev pub is_prefix : String → String → Bool
is_prefix String.[] s = true
is_prefix (String.◌∷◌ c p) String.[] = false
is_prefix (String.◌∷◌ c p) (String.◌∷◌ d s) = if code c == code d then is_prefix p s else false

-- len(s)
abbrev pub size : String → ℕ
size String.[] = 0
size (String.◌∷◌ c s) = suc (size s)

-- From left to right; `skip` characters of a match are still to be passed over.
replace_from : String → String → ℕ → String → String
replace_from old new skip String.[] = String.[]
replace_from old new (suc k) (String.◌∷◌ c s) = replace_from old new k s
replace_from old new zero (String.◌∷◌ c s) =
    let hit = concat new (replace_from old new (size old - 1) s) in
    let miss = String.◌∷◌ c (replace_from old new 0 s) in
    if is_prefix old (String.◌∷◌ c s) then hit else miss

-- `s.replace(old, new)`
unfoldable pub replace : String → String → String → String
unfolding replace_from
replace s old new = replace_from old new 0 s

-- The frozen subject and body.
unfoldable pub resolve_notice_placeholders : String → String → ℕ → String → String × String
resolve_notice_placeholders subject body window_days contact_email = (
  replace (replace subject "[OBJECTION WINDOW]" (show window_days)) "[CONTACT]" contact_email,
  replace (replace body "[OBJECTION WINDOW]" (show window_days)) "[CONTACT]" contact_email,
)

resolved :
    (resolve_notice_placeholders "Change" "Object within [OBJECTION WINDOW] days to [CONTACT]." 30
      "a@b.c").1
    ≡ "Object within 30 days to a@b.c."
unfolding resolve_notice_placeholders replace show
resolved = refl
