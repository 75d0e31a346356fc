-- ===== src/Monitoring/Recorded.antt =====
-- A page that is compared: when it is recorded as a change, and what the record holds.
use truthpage.Prelude.{
  ==_iff, Bool-cases, Option-cases, String, [], arith, false, get_or, inl, inr, none, refl, some,
  str_eq, str_eq_iff, subst, sym, ◌++◌, ◌<◌, ◌==◌, ◌∷◌, ◌≡◌, ◌≢◌, ◌⊎◌,
}
use truthpage.Tenant.{Tenant, may_export_evidence}
use truthpage.Subprocessor.{Subprocessor, pending}
use truthpage.ChangeEvent.{
  ChangeEvent, pending_review, auto_published, auto_published_cosmetic, cosmetic,
}
use truthpage.Monitoring.{
  Cycle, Moments, Reader, auto_publish_confidence_threshold, normalizer_version,
}
use truthpage.Monitoring.Check.{
  Page, analysis_of, auto_publish, compare_page, new_event, record_change,
}

-- The event was published without review.
abbrev IsAutoPublished : ChangeEvent → Type 0
IsAutoPublished e =
    (e.status ≡ auto_published)
    × (e.review_action ≡ some auto_published_cosmetic)
    × (e.llm_classification ≡ some cosmetic)
    × (auto_publish_confidence_threshold < get_or e.llm_confidence 0)

-- The event waits for a human.
abbrev IsPending : ChangeEvent → Type 0
IsPending e = (e.status ≡ pending_review) × (e.review_action ≡ none)

-- One event was added, and it links the snapshot before the cycle to the one after it.
pub record AddsEvent (c : Cycle) (c' : Cycle) : Type 0 where
  pub event : ChangeEvent
  pub added : c'.events ≡ c.events ++ event ∷ []
  pub of_source : event.subprocessor_id ≡ c.source.id
  pub old_hash : c.source.last_content_hash ≡ some event.old_hash
  pub version : c.source.content_format_version ≡ normalizer_version
  pub new_hash : c'.source.last_content_hash ≡ some event.new_hash
  pub differ : event.old_hash ≢ event.new_hash
  pub old_text : event.old_content_text ≡ c.source.last_content_text
  pub new_text : event.new_content_text ≡ c'.source.last_content_text
  pub old_html : event.old_raw_html ≡ c.source.last_raw_html
  pub new_html : event.new_raw_html ≡ c'.source.last_raw_html
  pub old_html_hash : event.old_raw_html_hash ≡ c.source.last_raw_html_hash
  pub new_html_hash : event.new_raw_html_hash ≡ c'.source.last_raw_html_hash
  pub entitled : event.export_entitled ≡ may_export_evidence c.tenant
  pub stampable : event.timestamp_status ≡ pending
  pub decision : IsAutoPublished event ⊎ IsPending event

abbrev pub NoneOrOne : Cycle → Cycle → Type 0
NoneOrOne c c' = (c'.events ≡ c.events) ⊎ AddsEvent c c'

new_event-decision :
    (reader : Reader) (page : Page) (tenant : Tenant) (sp : Subprocessor)
    → IsAutoPublished (new_event reader page tenant sp)
      ⊎ IsPending (new_event reader page tenant sp)
unfolding new_event
new_event-decision reader page tenant sp =
    elim (Bool-cases (auto_publish (analysis_of reader page sp))) [
      | inl auto ↦ inl (ground arith, ground arith, ground arith, ground arith)
      | inr human ↦ inr (ground arith, ground arith)
    ]

record_change-AddsEvent :
    (reader : Reader) (m : Moments) (page : Page) (c : Cycle) (old : String)
    → c.source.last_content_hash ≡ some old
    → c.source.content_format_version ≡ normalizer_version
    → str_eq old (reader.hash page.text) ≡ false
    → AddsEvent c (record_change reader m page c)
unfolding record_change new_event
record_change-AddsEvent reader m page c old h v d = record {
  event = new_event reader page c.tenant c.source;
  added = refl;
  of_source = refl;
  old_hash = ground arith;
  version = v;
  new_hash = refl;
  differ = ground (arith, str_eq_iff old (reader.hash page.text));
  old_text = refl;
  new_text = refl;
  old_html = refl;
  new_html = refl;
  old_html_hash = refl;
  new_html_hash = refl;
  entitled = refl;
  stampable = refl;
  decision = new_event-decision reader page c.tenant c.source;
}

pub compare_page-NoneOrOne :
    (reader : Reader) (m : Moments) (page : Page) (c : Cycle)
    → NoneOrOne c (compare_page reader m page c)
unfolding compare_page
compare_page-NoneOrOne reader m page c = elim (Option-cases c.source.last_content_hash) [
  | inl e ↦ inl (ground arith)
  | inr (old, e) ↦ elim (Bool-cases (c.source.content_format_version == normalizer_version)) [
    | inr other ↦ inl (ground arith)
    | inl same ↦ elim (Bool-cases (str_eq old (reader.hash page.text))) [
      | inl unchanged ↦ inl (ground arith)
      | inr changed ↦
          let went : compare_page reader m page c ≡ record_change reader m page c = ground arith in
          inr (
            subst (AddsEvent c) (sym went)
              (record_change-AddsEvent reader m page c old e ((==_iff _ _).0 same) changed))
    ]
  ]
]
