-- ===== src/Monitoring/Events.antt =====
-- When a cycle records a change: the whole of `run_subprocessor_check`.
use truthpage.Prelude.{
  List, Option-cases, [], ap, arith, days, false, if_ind, inl, inr, not, refl, sym, true, ℕ, ◌++◌,
  ◌/◌, ◌∙◌, ◌∷◌, ◌≡◌,
}
use truthpage.Settings.{Settings}
use truthpage.Tenant.{may_export_evidence}
use truthpage.Subprocessor.{FailureReason, timeout}
use truthpage.ChangeEvent.{ChangeEvent}
use truthpage.Fetcher.{Fetched, fetched, fetch_raised, timed_out}
use truthpage.Tier2.{try_spend_source_budget, try_spend_tenant_budget}
use truthpage.Monitoring.{
  Cycle, Moments, Reader, Web, check_staleness, defer, fail_check, spend_budget,
}
use truthpage.Monitoring.Check.{
  Page, fetch_and_read, judge_page, mark_requires_browser, read_page, read_reply, retry_thin,
  run_subprocessor_check,
}
use truthpage.Monitoring.Recorded.{NoneOrOne, compare_page-NoneOrOne}
use truthpage.Monitoring.Health.{
  Quiet, Quiet-trans, check_staleness-Quiet, clear-Quiet, mark-Quiet, retry_thin-Quiet,
  spend_budget-Quiet,
}

-- What the steps before the reading leave alone, seen from the cycle's start.
record Before (c : Cycle) (d : Cycle) : Type 0 where
  quiet : Quiet c d
  entitlement : may_export_evidence d.tenant ≡ may_export_evidence c.tenant

after-Before : (c d e : Cycle) → Before c d → NoneOrOne d e → NoneOrOne c e
after-Before c d e b (inl same) = inl (same ∙ b.quiet.events)
after-Before c d e b (inr a) =
    let q = b.quiet.snapshot in
    inr (record {
      event = a.event;
      added = a.added ∙ ap (λ (l : List ChangeEvent). l ++ a.event ∷ []) b.quiet.events;
      of_source = a.of_source ∙ q.id;
      old_hash = sym q.content_hash ∙ a.old_hash;
      version = sym q.version ∙ a.version;
      new_hash = a.new_hash;
      differ = a.differ;
      old_text = a.old_text ∙ q.text;
      new_text = a.new_text;
      old_html = a.old_html ∙ q.html;
      new_html = a.new_html;
      old_html_hash = a.old_html_hash ∙ q.html_hash;
      new_html_hash = a.new_html_hash;
      entitled = a.entitled ∙ b.entitlement;
      stampable = a.stampable;
      decision = a.decision;
    })

defer-events : (m : Moments) (c : Cycle) → (defer m c).events ≡ c.events
unfolding defer
defer-events m c = refl

tenant-retry_thin :
    (cfg : Settings) (reader : Reader) (web : Web) (page : Page) (c : Cycle)
    → may_export_evidence (retry_thin cfg reader web page c).1.tenant ≡ may_export_evidence c.tenant
unfolding retry_thin
tenant-retry_thin cfg reader web page c = ground arith

tenant-check_staleness :
    (cfg : Settings) (m : Moments) (c : Cycle)
    → may_export_evidence (check_staleness cfg m c).tenant ≡ may_export_evidence c.tenant
unfolding check_staleness
tenant-check_staleness cfg m c = ground arith

tenant-spend_budget :
    (cfg : Settings) (today : ℕ) (c : Cycle)
    → may_export_evidence (spend_budget cfg today c).0.tenant ≡ may_export_evidence c.tenant
unfolding spend_budget try_spend_source_budget try_spend_tenant_budget may_export_evidence
tenant-spend_budget cfg today c = ground arith

fail_check-events :
    (cfg : Settings) (m : Moments) (reason : FailureReason) (c : Cycle)
    → (fail_check cfg m reason c).events ≡ c.events
unfolding fail_check
fail_check-events cfg m reason c = ground arith

judge_page-NoneOrOne :
    (cfg : Settings) (reader : Reader) (m : Moments) (page : Page) (c : Cycle)
    → NoneOrOne c (judge_page cfg reader m page c)
unfolding judge_page
judge_page-NoneOrOne cfg reader m page c = elim (Option-cases page.issue) [
  | inl e ↦ rw (e, judge_page) (compare_page-NoneOrOne reader m page c)
  | inr (r, e) ↦ inl (rw (e, judge_page) (fail_check-events cfg m r c))
]

Before-retry_thin :
    (cfg : Settings) (reader : Reader) (web : Web) (page : Page) (c d : Cycle)
    → Before c d
    → Before c (retry_thin cfg reader web page d).1
Before-retry_thin cfg reader web page c d b =
    let d' = (retry_thin cfg reader web page d).1 in
    record {
      quiet = Quiet-trans c d d' b.quiet (retry_thin-Quiet cfg reader web page d);
      entitlement = tenant-retry_thin cfg reader web page d ∙ b.entitlement;
    }

read_page-events :
    (cfg : Settings) (reader : Reader) (m : Moments) (web : Web) (page : Page) (c d : Cycle)
    → Before c d
    → let (page', d') = retry_thin cfg reader web page d in
      NoneOrOne c (judge_page cfg reader m page' d')
read_page-events cfg reader m web page c d b =
    let (page', d') = retry_thin cfg reader web page d in
    after-Before c d' (judge_page cfg reader m page' d')
      (Before-retry_thin cfg reader web page c d b) (judge_page-NoneOrOne cfg reader m page' d')

read_reply-events :
    (cfg : Settings) (reader : Reader) (m : Moments) (web : Web) (c d : Cycle) (reply : Fetched)
    → Before c d
    → NoneOrOne c (read_reply cfg reader m web d reply)
unfolding read_reply
read_reply-events cfg reader m web c d timed_out b =
    inl (fail_check-events cfg m timeout d ∙ b.quiet.events)
read_reply-events cfg reader m web c d fetch_raised b =
    inl (fail_check-events cfg m _ d ∙ b.quiet.events)
read_reply-events cfg reader m web c d (fetched html true) b =
    read_page-events cfg reader m web (read_page cfg reader html) c (mark_requires_browser d)
      (record {
        quiet = Quiet-trans c d (mark_requires_browser d) b.quiet (mark-Quiet d);
        entitlement = b.entitlement;
      })
read_reply-events cfg reader m web c d (fetched html false) b =
    read_page-events cfg reader m web (read_page cfg reader html) c d b

fetch_and_read-events :
    (cfg : Settings) (reader : Reader) (m : Moments) (web : Web) (c d : Cycle)
    → Before c d
    → NoneOrOne c (fetch_and_read cfg reader m web d)
unfolding fetch_and_read
fetch_and_read-events cfg reader m web c d b =
    let d' = record d { source = record d.source { tier2_deferred = false } } in
    read_reply-events cfg reader m web c d' _
      (record { quiet = Quiet-trans c d d' b.quiet (clear-Quiet d); entitlement = b.entitlement })

check_staleness-Before :
    (cfg : Settings) (m : Moments) (c : Cycle) → Before c (check_staleness cfg m c)
check_staleness-Before cfg m c = record {
  quiet = check_staleness-Quiet cfg m c;
  entitlement = tenant-check_staleness cfg m c;
}

spend_budget-Before :
    (cfg : Settings) (today : ℕ) (c d : Cycle) → Before c d → Before c (spend_budget cfg today d).0
spend_budget-Before cfg today c d b =
    let d' = (spend_budget cfg today d).0 in
    record {
      quiet = Quiet-trans c d d' b.quiet (spend_budget-Quiet cfg today d);
      entitlement = tenant-spend_budget cfg today d ∙ b.entitlement;
    }

-- A cycle adds no event, or exactly one: for the same source, read before under the normalizer's
-- current version, when the hash of the text has changed. The event links the snapshot before the
-- cycle, text, document and their hashes, to the one after it, carries the tenant's entitlement of
-- that moment, and waits for its timestamp. It is published at once only if the classifier called
-- the change cosmetic with a confidence above the threshold; otherwise it waits for a human.
pub run_subprocessor_check-events :
    (cfg : Settings) (reader : Reader) (m : Moments) (web : Web) (c : Cycle)
    → NoneOrOne c (run_subprocessor_check cfg reader m web c)
unfolding run_subprocessor_check
run_subprocessor_check-events cfg reader m web c =
    let stale = check_staleness cfg m c in
    let b = check_staleness-Before cfg m c in
    let spent = (spend_budget cfg (m.budget / days 1) stale).0 in
    let bs = spend_budget-Before cfg (m.budget / days 1) c stale b in
    if_ind (NoneOrOne c) (not c.source.monitoring_enabled) (λ off. inl refl)
      λ on.
        if_ind (NoneOrOne c) (not stale.source.requires_browser)
          (λ plain. fetch_and_read-events cfg reader m web c stale b)
          λ browser.
            if_ind (NoneOrOne c) (spend_budget cfg (m.budget / days 1) stale).1
              (λ granted. fetch_and_read-events cfg reader m web c spent bs)
              (λ refused. inl (defer-events m spent ∙ bs.quiet.events))
