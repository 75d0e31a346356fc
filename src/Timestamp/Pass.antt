-- ===== src/Timestamp/Pass.antt =====
-- The retry pass gives each due row one attempt, and leaves the other rows alone.
use truthpage.Prelude.{
  All-map, All-of_All, Bool, IsNodup, IsNodup-filter, List, Result, [], arith, filter,
  if◌then◌else◌, is_mem, is_mem-filter, map, map-map, map_on, or_unchanged, refl, ℕ, ◌==◌, ◌∙◌, ◌∷◌,
  ◌≡◌,
}
use truthpage.Settings.{Settings}
use truthpage.Subprocessor.{Subprocessor}
use truthpage.ChangeEvent.{ChangeEvent}
use truthpage.Timestamp.{
  Tsa, StampError, is_due, stamp_loop, stamp_change_event, stamp_subprocessor_baseline,
  run_timestamp_retry_pass,
}

-- What one pass does to one row.
unfoldable pub attempt_event : Settings → Tsa → ChangeEvent → ChangeEvent
attempt_event cfg tsa e =
    if is_due e.timestamp_status then or_unchanged e (stamp_change_event cfg tsa e) else e

unfoldable pub attempt_baseline : Settings → Tsa → Subprocessor → Subprocessor
attempt_baseline cfg tsa sp =
    if is_due sp.baseline_timestamp_status
    then or_unchanged sp (stamp_subprocessor_baseline cfg tsa sp)
    else sp

module _ {A : Type 0} (key : A → ℕ) (stamp : A → Result StampError A) where
  abbrev stamped_row : A → A
  stamped_row row = or_unchanged row (stamp row)

  abbrev visit : List ℕ → A → A
  visit ids row = if is_mem (key row) ids then stamped_row row else row

  -- Distinct ids are visited once each.
  stamp_loop-visit :
      ((row : A) → key (stamped_row row) ≡ key row)
      → (ids : List ℕ) (rows : List A) → IsNodup ids
      → stamp_loop key stamp ids rows ≡ map (visit ids) rows
  unfolding stamp_loop
  stamp_loop-visit keeps [] [] n = refl
  stamp_loop-visit keeps [] (r ∷ rows) n = cc (stamp_loop-visit keeps [] rows n)
  stamp_loop-visit keeps (i ∷ ids) rows n =
      stamp_loop-visit keeps ids (map at_i rows) n.1
      ∙ map-map (visit ids) at_i rows
      ∙ map_on (λ r. visit ids (at_i r)) (visit (i ∷ ids)) rows (All-of_All _ rows once)
    where
      at_i : A → A
      at_i row = if key row == i then stamped_row row else row

      once : (row : A) → visit ids (at_i row) ≡ visit (i ∷ ids) row
      once row = ground (arith, keeps row)

  stamp_loop-due :
      ((row : A) → key (stamped_row row) ≡ key row)
      → (due : A → Bool) (rows : List A) → IsNodup (map key rows)
      → stamp_loop key stamp (map key (filter due rows)) rows
        ≡ map (λ row. if due row then stamped_row row else row) rows
  stamp_loop-due keeps due rows n =
      stamp_loop-visit keeps (map key (filter due rows)) rows (IsNodup-filter key due rows n)
      ∙ map_on (visit (map key (filter due rows))) (λ row. if due row then stamped_row row else row)
          rows
          (All-map (λ r. is_mem (key r) (map key (filter due rows)) ≡ due r)
            (λ r. visit (map key (filter due rows)) r ≡ (if due r then stamped_row r else r)) rows
            (λ r e. rw e refl) (is_mem-filter key due rows n))

id-stamp_change_event :
    (cfg : Settings) (tsa : Tsa) (e : ChangeEvent)
    → (or_unchanged e (stamp_change_event cfg tsa e)).id ≡ e.id
unfolding stamp_change_event
id-stamp_change_event cfg tsa e = ground arith

id-stamp_subprocessor_baseline :
    (cfg : Settings) (tsa : Tsa) (sp : Subprocessor)
    → (or_unchanged sp (stamp_subprocessor_baseline cfg tsa sp)).id ≡ sp.id
unfolding stamp_subprocessor_baseline
id-stamp_subprocessor_baseline cfg tsa sp = ground arith

-- On tables with unique ids, a pass gives every row that is pending or retrying exactly one
-- attempt, with that row's own replies, and leaves every other row as it was; an attempt that
-- raises leaves its row as it was and stops no other attempt. Events and baselines are independent.
pub run_timestamp_retry_pass_lem :
    (cfg : Settings) (event_tsa baseline_tsa : ℕ → Tsa) (events : List ChangeEvent)
    (sources : List Subprocessor)
    → IsNodup (map (λ e. e.id) events)
    → IsNodup (map (λ sp. sp.id) sources)
    → run_timestamp_retry_pass cfg event_tsa baseline_tsa events sources ≡ (
      map (λ e. attempt_event cfg (event_tsa e.id) e) events,
      map (λ sp. attempt_baseline cfg (baseline_tsa sp.id) sp) sources,
    )
unfolding run_timestamp_retry_pass attempt_event attempt_baseline
run_timestamp_retry_pass_lem cfg event_tsa baseline_tsa events sources n m = cc (
  stamp_loop-due (λ e. e.id) (λ e. stamp_change_event cfg (event_tsa e.id) e)
      (λ e. id-stamp_change_event cfg (event_tsa e.id) e) (λ e. is_due e.timestamp_status) events n,
  stamp_loop-due (λ sp. sp.id) (λ sp. stamp_subprocessor_baseline cfg (baseline_tsa sp.id) sp)
      (λ sp. id-stamp_subprocessor_baseline cfg (baseline_tsa sp.id) sp)
      (λ sp. is_due sp.baseline_timestamp_status) sources m,
)
