-- ===== src/Timestamp/Tests.antt =====
-- Instances of the theorems on timestamps.
use truthpage.Prelude.{All, List, [], arith, false, inl, map_ok, or_unchanged, refl, some, ◌∷◌, ◌≡◌}
use truthpage.Settings.{defaults}
use truthpage.Subprocessor.{not_available_pre_tsa, failed}
use truthpage.ChangeEvent.{ChangeEvent}
use truthpage.Timestamp.{
  ask, Tsa, granted, tsa_error, is_due, retry_timestamp, stamp_change_event,
  stamp_subprocessor_baseline, run_timestamp_retry_pass,
}
use truthpage.Timestamp.Pass.{attempt_event, attempt_baseline, run_timestamp_retry_pass_lem}
use truthpage.Timestamp.Parallel.{of_event, of_baseline, stamp_parallel}
use truthpage.Timestamp.Life.{
  IsFresh, IsSound, NeverCrashes, attempt, attempts, attempts-settle, backdated, here, manual_retry,
  next, reach-IsSound, settled_forever,
}
use truthpage.Samples.{change, stripe}

abbrev down : Tsa
down digest url = tsa_error "unreachable"

abbrev up : Tsa
up digest url = granted "token" (some 77)

run_timestamp_retry_pass_example :
    run_timestamp_retry_pass defaults (λ _. up) (λ _. down) (change ∷ []) (stripe ∷ [])
    ≡ (attempt_event defaults up change ∷ [], attempt_baseline defaults down stripe ∷ [])
run_timestamp_retry_pass_example =
    run_timestamp_retry_pass_lem defaults (λ _. up) (λ _. down) (change ∷ []) (stripe ∷ [])
      (refl, tt) (refl, tt)

stamp_parallel_example :
    map_ok of_event (stamp_change_event defaults up change)
    ≡ map_ok of_baseline (stamp_subprocessor_baseline defaults up stripe)
stamp_parallel_example = stamp_parallel defaults up change stripe refl

abbrev old_capture : ChangeEvent
old_capture = record change { timestamp_status = not_available_pre_tsa }

abbrev tried : ChangeEvent
tried = attempt_event defaults up old_capture

settled_forever_example :
    retry_timestamp (or_unchanged tried (stamp_change_event defaults up tried)) ≡ old_capture
unfolding attempt_event
settled_forever_example =
    settled_forever defaults old_capture
      (retry_timestamp (or_unchanged tried (stamp_change_event defaults up tried))) (inl refl)
      (next (next (next here (attempt up refl)) (backdated up refl refl)) (manual_retry refl))

change-IsFresh : IsFresh change
change-IsFresh = record { token = refl; authority = refl; tried = refl; status = refl }

reach-IsSound_example : IsSound defaults (attempt_event defaults down change)
reach-IsSound_example =
    reach-IsSound defaults (omega arith) change-IsFresh (next here (attempt down refl))

abbrev passes : List Tsa
passes = down ∷ down ∷ down ∷ down ∷ down ∷ []

down-NeverCrashes : NeverCrashes down
down-NeverCrashes digest url = ground arith

passes-NeverCrash : All NeverCrashes passes
passes-NeverCrash = let n = down-NeverCrashes in (n, (n, (n, (n, (n, tt)))))

attempts-settle_example : is_due (attempts defaults passes change).timestamp_status ≡ false
attempts-settle_example =
    attempts-settle defaults passes change passes-NeverCrash (omega arith) (omega arith)

five_failures : (attempts defaults passes change).timestamp_status ≡ failed
unfolding attempts attempt_event stamp_change_event ask
five_failures = refl
