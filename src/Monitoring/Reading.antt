-- ===== src/Monitoring/Reading.antt =====
-- A page that answers in time and is healthy is read.
use truthpage.Prelude.{
  Bool, Option-cases, String, ap, arith, false, if◌then◌else◌, inl, inr, none, not, refl, some,
  str_eq_iff, subst, sym, true, ◌&&◌, ◌∙◌, ◌≡◌,
}
use truthpage.Settings.{Settings}
use truthpage.ContentHealth.{content_health_issue}
use truthpage.Fetcher.{fetch_raw_html, fetched, tier1_page}
use truthpage.Monitoring.{Cycle, Moments, Reader, Web, check_staleness, wait_for}
use truthpage.Monitoring.Health.{
  Quiet-trans, WasRead, WasRead-Quiet, check_staleness-Quiet, clear-Quiet, compare_page-WasRead,
}
use truthpage.Monitoring.Check.{
  Page, analysis_of, compare_page, fetch_and_read, is_empty_content, judge_page, raw_diff_of,
  read_page, read_reply, retry_thin, run_subprocessor_check,
}

-- The plain fetch answers in time with a page that is content.
pub record Answers (cfg : Settings) (reader : Reader) (web : Web) (html : String) : Type 0 where
  pub in_time : web.too_slow ≡ false
  pub page : web.tier1 ≡ tier1_page html false
  pub healthy : content_health_issue cfg html (reader.normalize html) ≡ none

if_true {ℓ} : {A : Type ℓ} {b : Bool} (x y : A) → b ≡ true → (if b then x else y) ≡ x
if_true x y h = rw h refl

if_false {ℓ} : {A : Type ℓ} {b : Bool} (x y : A) → b ≡ false → (if b then x else y) ≡ y
if_false x y h = rw h refl

reply_in_time :
    (cfg : Settings) (reader : Reader) (web : Web) (html : String) (browser : Bool)
    → Answers cfg reader web html
    → browser ≡ false
    → wait_for web.too_slow (fetch_raw_html browser web.tier1 web.tier2) ≡ fetched html false
unfolding fetch_raw_html
reply_in_time cfg reader web html browser a plain = ground (arith, a.in_time, a.page)

judge_page-compare :
    (cfg : Settings) (reader : Reader) (m : Moments) (page : Page) (c : Cycle)
    → page.issue ≡ none
    → judge_page cfg reader m page c ≡ compare_page reader m page c
unfolding judge_page raw_diff_of analysis_of
judge_page-compare cfg reader m page c h = rw (h, judge_page) refl

retry_thin-healthy :
    (cfg : Settings) (reader : Reader) (web : Web) (page : Page) (c : Cycle)
    → page.issue ≡ none
    → retry_thin cfg reader web page c ≡ (page, c)
unfolding retry_thin
retry_thin-healthy cfg reader web page c h =
    if_false {b = is_empty_content page.issue && not c.source.requires_browser} _ _ (rw h refl)

fetch_and_read-compare :
    (cfg : Settings) (reader : Reader) (m : Moments) (web : Web) (html : String) (c : Cycle)
    → Answers cfg reader web html
    → c.source.requires_browser ≡ false
    → fetch_and_read cfg reader m web c
      ≡ compare_page reader m
          (read_page cfg reader html)
          (record c { source = record c.source { tier2_deferred = false } })
unfolding fetch_and_read read_reply read_page
fetch_and_read-compare cfg reader m web html c a plain =
    let c' = record c { source = record c.source { tier2_deferred = false } } in
    let page = read_page cfg reader html in
    ap (read_reply cfg reader m web c') (reply_in_time cfg reader web html _ a plain)
    ∙ ap (λ (r : Page × Cycle). judge_page cfg reader m r.0 r.1)
        (retry_thin-healthy cfg reader web page c' a.healthy)
    ∙ judge_page-compare cfg reader m page c' a.healthy

compare_page-hash :
    (reader : Reader) (m : Moments) (page : Page) (c : Cycle)
    → (compare_page reader m page c).source.last_content_hash ≡ some (reader.hash page.text)
unfolding compare_page
compare_page-hash reader m page c = elim (Option-cases c.source.last_content_hash) [
  | inl e ↦ ground arith
  | inr (old, e) ↦ ground (arith, str_eq_iff old (reader.hash page.text))
]

plain-check_staleness :
    (cfg : Settings) (m : Moments) (c : Cycle)
    → (check_staleness cfg m c).source.requires_browser ≡ c.source.requires_browser
unfolding check_staleness
plain-check_staleness cfg m c = ground arith

run-compare :
    (cfg : Settings) (reader : Reader) (m : Moments) (web : Web) (html : String) (c : Cycle)
    → Answers cfg reader web html
    → c.source.monitoring_enabled ≡ true
    → c.source.requires_browser ≡ false
    → let stale = check_staleness cfg m c in
      run_subprocessor_check cfg reader m web c
      ≡ compare_page reader m
          (read_page cfg reader html)
          (record stale { source = record stale.source { tier2_deferred = false } })
unfolding run_subprocessor_check
run-compare cfg reader m web html c a on plain =
    let stale = check_staleness cfg m c in
    let plain' = plain-check_staleness cfg m c ∙ plain in
    if_false _ _ (ap not on)
    ∙ if_true _ _ (ap not plain')
    ∙ fetch_and_read-compare cfg reader m web html stale a plain'

-- A source that is watched and needs no browser, whose page answers in time and is content, is read:
-- its failures and alarms are reset, and the stored hash is that of the page's text.
pub run_subprocessor_check-reads :
    (cfg : Settings) (reader : Reader) (m : Moments) (web : Web) (html : String) (c : Cycle)
    → Answers cfg reader web html
    → c.source.monitoring_enabled ≡ true
    → c.source.requires_browser ≡ false
    → let after = run_subprocessor_check cfg reader m web c in
      WasRead m c after
      × (after.source.last_content_hash ≡ some (reader.hash (reader.normalize html)))
unfolding read_page
run_subprocessor_check-reads cfg reader m web html c a on plain =
    let stale = check_staleness cfg m c in
    let clear = record stale { source = record stale.source { tier2_deferred = false } } in
    let page = read_page cfg reader html in
    let same = run-compare cfg reader m web html c a on plain in
    let quiet = Quiet-trans c stale clear (check_staleness-Quiet cfg m c) (clear-Quiet stale) in
    (
      subst (WasRead m c) (sym same)
          (WasRead-Quiet m c clear _ quiet (compare_page-WasRead reader m page clear refl)),
      ap (λ (d : Cycle). d.source.last_content_hash) same ∙ compare_page-hash reader m page clear,
    )
