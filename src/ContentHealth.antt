-- ===== src/ContentHealth.antt =====
-- app/core/scraper/content_health.py: whether a fetched page is the content that was asked for.
use Prim.Native.String.{count as chars}
use truthpage.Prelude.{
  ℕ, String, ◌≡◌, refl, Bool, false, Option, none, some, List, [], ◌∷◌, ltb, if◌then◌else◌, any,
  lower, is_in,
}
use truthpage.Settings.{Settings, defaults}
use truthpage.Subprocessor.{FailureReason, bot_wall, empty_content}

abbrev pub bot_wall_keywords : List String
bot_wall_keywords =
    "just a moment..." ∷ "checking your browser" ∷ "cf-browser-verification" ∷ "__cf_chl"
    ∷ "attention required! | cloudflare" ∷ "enable javascript and cookies to continue"
    ∷ "access denied" ∷ "verify you are human" ∷ "cf-turnstile" ∷ "hcaptcha-widget" ∷ []

abbrev pub bot_wall_max_body_chars : ℕ
bot_wall_max_body_chars = 20000

unfoldable pub is_bot_wall_body : String → Bool
is_bot_wall_body body =
    if ltb bot_wall_max_body_chars (chars body)
    then false
    else any (λ kw. is_in kw (lower body)) bot_wall_keywords

unfoldable pub content_health_issue : Settings → String → String → Option FailureReason
content_health_issue cfg raw_html normalized_text =
    if is_bot_wall_body raw_html
    then some bot_wall
    else if ltb (chars normalized_text) cfg.content_health_min_text_length
    then some empty_content
    else none

challenge_page : content_health_issue defaults "<p>Just A Moment...</p>" "" ≡ some bot_wall
unfolding content_health_issue is_bot_wall_body
challenge_page = refl
