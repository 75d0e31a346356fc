-- ===== src/Timestamp/Life.antt =====
-- The life of a timestamp: what attempts and manual retries can do to an event over time.
use truthpage.Prelude.{
  All, Bool, Bool-cases, List, Option, Option-cases, String, [], ap, arith, false, inl, inr,
  is_some, length, none, or_unchanged, refl, some, true, ◌+◌, ◌<◌, ◌∙◌, ◌∷◌, ◌≡◌, ◌≢◌, ◌≤◌, ◌⊎◌,
}
use truthpage.Settings.{Settings}
use truthpage.Subprocessor.{TimestampStatus, timestamped, not_available_pre_tsa}
use truthpage.ChangeEvent.{ChangeEvent}
use truthpage.Timestamp.{
  granted, tsa_error, Tsa, TsaReply, crashed, Round, stamped, broke, is_due, ask, tsa_urls,
  stamp_change_event, retry_timestamp,
}
use truthpage.Timestamp.Pass.{attempt_event}

-- The steps that an event can take: an attempt of the pass, a manual retry, and an attempt, which no
-- pass makes, on an event from before timestamps existed.
pub data TimestampStep (cfg : Settings) (e : ChangeEvent) (e' : ChangeEvent) : Type 0 where
  attempt : (tsa : Tsa) → e' ≡ attempt_event cfg tsa e → TimestampStep cfg e e'
  manual_retry : e' ≡ retry_timestamp e → TimestampStep cfg e e'
  backdated :
      (tsa : Tsa)
      → e.timestamp_status ≡ not_available_pre_tsa
      → e' ≡ or_unchanged e (stamp_change_event cfg tsa e)
      → TimestampStep cfg e e'

pub data TimestampReach (cfg : Settings) (e : ChangeEvent) : ChangeEvent → Type 0 where
  here : TimestampReach cfg e e
  next :
      {e' e'' : ChangeEvent}
      → TimestampReach cfg e e'
      → TimestampStep cfg e' e''
      → TimestampReach cfg e e''

-- Neither due nor failed: nothing moves it any more.
abbrev pub is_settled : TimestampStatus → Bool
is_settled timestamped = true
is_settled not_available_pre_tsa = true
is_settled _ = false

settled-attempt :
    (cfg : Settings) (tsa : Tsa) (e : ChangeEvent)
    → is_settled e.timestamp_status ≡ true
    → attempt_event cfg tsa e ≡ e
unfolding attempt_event
settled-attempt cfg tsa e h = ground arith

settled-retry : (e : ChangeEvent) → is_settled e.timestamp_status ≡ true → retry_timestamp e ≡ e
unfolding retry_timestamp
settled-retry e h = ground arith

backdated-refused :
    (cfg : Settings) (tsa : Tsa) (e : ChangeEvent)
    → e.timestamp_status ≡ not_available_pre_tsa
    → or_unchanged e (stamp_change_event cfg tsa e) ≡ e
unfolding stamp_change_event
backdated-refused cfg tsa e h = ground arith

settled-of :
    (e : ChangeEvent)
    → (e.timestamp_status ≡ not_available_pre_tsa) ⊎ (e.timestamp_status ≡ timestamped)
    → is_settled e.timestamp_status ≡ true
settled-of e (inl h) = ground arith
settled-of e (inr h) = ground arith

-- An event that was recorded before timestamps existed, or that has its token, is never changed
-- again by any sequence of attempts of the pass and manual retries; the former not even by an attempt
-- that is made on it although it is not due.
pub settled_forever :
    (cfg : Settings) (e e' : ChangeEvent)
    → (e.timestamp_status ≡ not_available_pre_tsa) ⊎ (e.timestamp_status ≡ timestamped)
    → TimestampReach cfg e e'
    → e' ≡ e
settled_forever cfg e e' h here = refl
settled_forever cfg e e' h (next {e' = mid} r (attempt tsa q)) =
    let p = settled_forever cfg e mid h r in
    q ∙ ap (attempt_event cfg tsa) p ∙ settled-attempt cfg tsa e (settled-of e h)
settled_forever cfg e e' h (next {e' = mid} r (manual_retry q)) =
    let p = settled_forever cfg e mid h r in
    q ∙ ap retry_timestamp p ∙ settled-retry e (settled-of e h)
settled_forever cfg e e' h (next {e' = mid} r (backdated tsa old q)) =
    q ∙ backdated-refused cfg tsa mid old ∙ settled_forever cfg e mid h r

abbrev has_token : TimestampStatus → Bool
has_token timestamped = true
has_token _ = false

-- Token, authority and attempts agree with the status.
pub record IsSound (cfg : Settings) (e : ChangeEvent) : Type 0 where
  pub token : is_some e.tsa_token ≡ has_token e.timestamp_status
  pub authority : is_some e.tsa_authority_url ≡ has_token e.timestamp_status
  pub tried : e.tsa_attempt_count ≤ cfg.tsa_max_attempts
  pub room : is_due e.timestamp_status ≡ true → e.tsa_attempt_count < cfg.tsa_max_attempts

-- An event as it is recorded: nothing was tried, and no token is there.
pub record IsFresh (e : ChangeEvent) : Type 0 where
  pub token : e.tsa_token ≡ none
  pub authority : e.tsa_authority_url ≡ none
  pub tried : e.tsa_attempt_count ≡ 0
  pub status : has_token e.timestamp_status ≡ false

attempt-IsSound :
    (cfg : Settings) (tsa : Tsa) (e : ChangeEvent)
    → IsSound cfg e
    → IsSound cfg (attempt_event cfg tsa e)
unfolding attempt_event stamp_change_event
attempt-IsSound cfg tsa e s = ground (arith, s.room)

retry-IsSound :
    (cfg : Settings) (e : ChangeEvent)
    → 0 < cfg.tsa_max_attempts
    → IsSound cfg e
    → IsSound cfg (retry_timestamp e)
unfolding retry_timestamp
retry-IsSound cfg e h s = ground (arith, s.room)

fresh-IsSound :
    (cfg : Settings) (e : ChangeEvent) → 0 < cfg.tsa_max_attempts → IsFresh e → IsSound cfg e
fresh-IsSound cfg e h f =
    let token = f.token in
    let authority = f.authority in
    let tried = f.tried in
    let status = f.status in
    record {
      token = ground arith;
      authority = ground arith;
      tried = omega arith;
      room = λ due. omega arith;
    }

-- If at least one attempt is allowed, then an event that starts without a token, an authority and
-- attempts has, after any sequence of attempts and manual retries, a token and an authority exactly
-- when its status says timestamped, it has had at most the allowed attempts since the last manual
-- retry, and one that is due has had fewer.
pub reach-IsSound :
    (cfg : Settings) {e e' : ChangeEvent}
    → 0 < cfg.tsa_max_attempts
    → IsFresh e
    → TimestampReach cfg e e'
    → IsSound cfg e'
reach-IsSound cfg h s here = fresh-IsSound cfg _ h s
reach-IsSound cfg h s (next r (attempt tsa q)) =
    rw q (attempt-IsSound cfg tsa _ (reach-IsSound cfg h s r))
reach-IsSound cfg h s (next r (manual_retry q)) =
    rw q (retry-IsSound cfg _ h (reach-IsSound cfg h s r))
reach-IsSound cfg h s (next {e' = mid} r (backdated tsa old q)) =
    rw (q, backdated-refused cfg tsa mid old) (reach-IsSound cfg h s r)

-- Attempts of successive passes, each with its replies.
unfoldable pub attempts : Settings → List Tsa → ChangeEvent → ChangeEvent
attempts cfg [] e = e
attempts cfg (tsa ∷ tsas) e = attempts cfg tsas (attempt_event cfg tsa e)

abbrev pub NeverCrashes : Tsa → Type 0
NeverCrashes tsa = (digest url : String) → tsa digest url ≢ crashed

not_broke :
    (url : String) (r : TsaReply) (rest : Option String → Round)
    → r ≢ crashed
    → ((m : String) → rest (some m) ≢ broke)
    → (elim r [
      | granted token time ↦ stamped url token time
      | tsa_error message ↦ rest (some message)
      | crashed ↦ broke
    ])
      ≢ broke
not_broke url (granted token time) rest h k = ground arith
not_broke url (tsa_error m) rest h k = k m
not_broke url crashed rest h k = absurd (h refl)

ask-ne-broke :
    (tsa : Tsa) (digest : String) (urls : List String) (last : Option String)
    → NeverCrashes tsa
    → ask tsa digest urls last ≢ broke
unfolding ask
ask-ne-broke tsa digest [] last h = ground arith
ask-ne-broke tsa digest (url ∷ urls) last h =
    not_broke url (tsa digest url) (ask tsa digest urls) (h digest url)
      λ m. ask-ne-broke tsa digest urls (some m) h

-- An attempt that does not crash takes a due event out of the queue or counts one more attempt.
attempt_progress :
    (cfg : Settings) (tsa : Tsa) (e : ChangeEvent)
    → NeverCrashes tsa
    → is_due (attempt_event cfg tsa e).timestamp_status ≡ true
    → ((attempt_event cfg tsa e).tsa_attempt_count ≡ e.tsa_attempt_count + 1)
      × (e.tsa_attempt_count + 1 < cfg.tsa_max_attempts)
unfolding attempt_event stamp_change_event
attempt_progress cfg tsa e h due = elim (Option-cases e.new_raw_html_hash) [
  | inl q ↦ ground (arith, q)
  | inr (d, q) ↦ ground (arith, q, ask-ne-broke tsa d (tsa_urls cfg) none h)
]

attempts-idle :
    (cfg : Settings) (tsas : List Tsa) (e : ChangeEvent)
    → is_due e.timestamp_status ≡ false
    → attempts cfg tsas e ≡ e
unfolding attempts attempt_event
attempts-idle cfg [] e h = refl
attempts-idle cfg (tsa ∷ tsas) e h = rw h (attempts-idle cfg tsas e h)

-- After as many passes as attempts are allowed, none of which crashes, an event is no longer due:
-- it is timestamped, failed, or has nothing to stamp.
pub attempts-settle :
    (cfg : Settings) (tsas : List Tsa) (e : ChangeEvent)
    → All NeverCrashes tsas
    → cfg.tsa_max_attempts ≤ e.tsa_attempt_count + length tsas
    → 0 < length tsas
    → is_due (attempts cfg tsas e).timestamp_status ≡ false
unfolding attempts
attempts-settle cfg (tsa ∷ []) e h enough some_pass = ground (arith, attempt_progress cfg tsa e h.0)
attempts-settle cfg (tsa ∷ next_tsa ∷ tsas) e h enough some_pass =
    elim (Bool-cases (is_due (attempt_event cfg tsa e).timestamp_status)) [
      | inl due ↦
          attempts-settle cfg (next_tsa ∷ tsas) (attempt_event cfg tsa e) h.1
            (omega (arith, attempt_progress cfg tsa e h.0 due)) (omega arith)
      | inr done ↦ rw (attempts-idle cfg (next_tsa ∷ tsas) (attempt_event cfg tsa e) done) done
    ]
attempts-settle cfg [] e h enough some_pass = absurd (omega arith)
