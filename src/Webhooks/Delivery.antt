-- ===== src/Webhooks/Delivery.antt =====
-- What the webhooks of Resend can do to the log of deliveries.
use truthpage.Prelude.{
  >>=-eq-ok, Bool, Bool-cases, List, Memᴰ, Option, Option-cases, Result, String, Time, [], any,
  any-Mem, ap, arith, concat, err, false, filter, get_or, if_ind, inl, inr, join, leb, map_ok, none,
  not, ok, raise_if-ok, refl, some, split, str_eq, str_eq_iff, subst, sym, true, ℕ, ◌++◌, ◌+◌,
  ◌>>=◌, ◌||◌, ◌∙◌, ◌∷◌, ◌≡◌, ◌≢◌, ◌≤◌, ◌⊎◌,
}
use truthpage.Notification.{DeliveryEventType, NotificationDeliveryEvent, NotificationRecipient}
use truthpage.Webhooks.{
  Codec, Headers, ResendEvent, WebhookError, add_event, distance, event_type_of, expected_signature,
  handle_resend_delivery_event, has_message, has_webhook_id, invalid_signature, is_empty, log_event,
  not_configured, or_refuse, pair_matches, remove_prefix, resend_webhook, scalar_one_or_none,
  verify_resend_signature,
}

-- The log stays, or gains one event at its end, of a recipient that the message was sent to, whose
-- webhook id was not there.
pub data Appends (webhook_event_id : String) (recipients : List NotificationRecipient)
    (log : List NotificationDeliveryEvent) : List NotificationDeliveryEvent → Type 0 where
  unchanged : Appends webhook_event_id recipients log log
  appended :
      (e : NotificationDeliveryEvent) (r : NotificationRecipient)
      → e.webhook_event_id ≡ webhook_event_id
      → any (has_webhook_id webhook_event_id) log ≡ false
      → e.recipient_id ≡ r.id
      → Appends webhook_event_id recipients log (log ++ e ∷ [])

any-append {ℓ} :
    {A : Type ℓ} (p : A → Bool) (xs ys : List A) → any p (xs ++ ys) ≡ (any p xs || any p ys)
any-append p [] ys = refl
any-append p (x ∷ xs) ys = ground (arith, any-append p xs ys)

str_eq_refl : (s : String) → str_eq s s ≡ true
str_eq_refl s = (str_eq_iff s s).1 refl

any-add_event :
    (e : NotificationDeliveryEvent) (log : List NotificationDeliveryEvent)
    → any (has_webhook_id e.webhook_event_id) (add_event e log) ≡ true
unfolding add_event
any-add_event e log = ground (
  arith,
  any-append (has_webhook_id e.webhook_event_id) log (e ∷ []),
  str_eq_refl e.webhook_event_id,
)

add_event-again :
    (e e' : NotificationDeliveryEvent) (log : List NotificationDeliveryEvent)
    → e'.webhook_event_id ≡ e.webhook_event_id
    → add_event e' (add_event e log) ≡ add_event e log
unfolding add_event
add_event-again e e' log h = ground (arith, h, any-add_event e log)

log_event-again :
    (codec : Codec) (now later : Time) (event : ResendEvent) (i : String) (type : DeliveryEventType)
    (r : Option NotificationRecipient) (log : List NotificationDeliveryEvent)
    → let after = log_event codec now event i type r log in
      log_event codec later event i type r after ≡ after
unfolding log_event
log_event-again codec now later event i type none log = refl
log_event-again codec now later event i type (some r) log = add_event-again _ _ log refl

log_event-Appends :
    (codec : Codec) (now : Time) (event : ResendEvent) (i : String) (type : DeliveryEventType)
    (r : Option NotificationRecipient) (recipients : List NotificationRecipient)
    (log : List NotificationDeliveryEvent)
    → Appends i recipients log (log_event codec now event i type r log)
unfolding log_event add_event
log_event-Appends codec now event i type none recipients log = unchanged
log_event-Appends codec now event i type (some r) recipients log =
    if_ind (Appends i recipients log) (any (has_webhook_id i) log) (λ there. unchanged)
      λ fresh. appended _ r refl fresh refl

bind-ok {ℓ κ} :
    {A : Type ℓ} {B : Type κ} (m : Result WebhookError A) (f : A → B)
    → (m >>= λ a. ok (f a)) ≡ map_ok f m
bind-ok (ok a) f = refl
bind-ok (err e) f = refl

value_of {ℓ} : {A : Type ℓ} → A → Result WebhookError A → A
value_of d (ok a) = a
value_of d (err e) = d

ok_inj {ℓ} : {A : Type ℓ} {a b : A} → ◌≡◌ {A = Result WebhookError A} (ok a) (ok b) → a ≡ b
unfolding value_of
ok_inj {a} h = ap (value_of a) h

-- What a handled event does to the log, as a function of the log alone.
handle_resend_delivery_event-cases :
    (codec : Codec) (event : ResendEvent) (i : String) (recipients : List NotificationRecipient)
    → ((now : Time) (log : List NotificationDeliveryEvent)
        → handle_resend_delivery_event codec now event i recipients log ≡ ok log)
      ⊎ ((type : DeliveryEventType) × (found : Result WebhookError (Option NotificationRecipient))
          × ((now : Time) (log : List NotificationDeliveryEvent)
              → handle_resend_delivery_event codec now event i recipients log
                ≡ map_ok (λ r. log_event codec now event i type r log) found))
unfolding handle_resend_delivery_event
handle_resend_delivery_event-cases codec event i recipients =
    elim (Option-cases (event_type_of event.type)) [
      | inl e ↦ inl (λ now log. rw (e, handle_resend_delivery_event) refl)
      | inr (type, e) ↦ elim (Bool-cases (is_empty (get_or event.email_id ""))) [
        | inl missing ↦ inl (λ now log. ground (arith, e, missing))
        | inr given ↦
            let found =
              scalar_one_or_none (filter (has_message (get_or event.email_id "")) recipients) in
            inr (
              type,
              found,
              λ now log. rw (e, handle_resend_delivery_event, given) (bind-ok found _),
            )
      ]
    ]

-- An event that is delivered again, at whatever time, changes nothing: the log is as after the first
-- time.
pub handle_resend_delivery_event-again :
    (codec : Codec) (now later : Time) (event : ResendEvent) (webhook_event_id : String)
    (recipients : List NotificationRecipient) (log log' : List NotificationDeliveryEvent)
    → handle_resend_delivery_event codec now event webhook_event_id recipients log ≡ ok log'
    → handle_resend_delivery_event codec later event webhook_event_id recipients log' ≡ ok log'
handle_resend_delivery_event-again codec now later event i recipients log log' h =
    elim (handle_resend_delivery_event-cases codec event i recipients) [
      | inl same ↦ same later log'
      | inr (type, err e, went) ↦ ground (arith, went now log, h)
      | inr (type, ok r, went) ↦
          let q = ok_inj (sym h ∙ went now log) in
          went later log'
          ∙ ap ok (
              ap (λ (l : List NotificationDeliveryEvent). log_event codec later event i type r l) q
              ∙ log_event-again codec now later event i type r log
              ∙ sym q)
    ]

handle_resend_delivery_event-Appends :
    (codec : Codec) (now : Time) (event : ResendEvent) (i : String)
    (recipients : List NotificationRecipient) (log log' : List NotificationDeliveryEvent)
    → handle_resend_delivery_event codec now event i recipients log ≡ ok log'
    → Appends i recipients log log'
handle_resend_delivery_event-Appends codec now event i recipients log log' h =
    elim (handle_resend_delivery_event-cases codec event i recipients) [
      | inl same ↦ subst (Appends i recipients log) (ok_inj (sym (same now log) ∙ h)) unchanged
      | inr (type, err e, went) ↦ absurd (ground (arith, went now log, h))
      | inr (type, ok r, went) ↦
          subst (Appends i recipients log) (ok_inj (sym (went now log) ∙ h))
            (log_event-Appends codec now event i type r recipients log)
    ]

-- One of the space-separated parts of the header is "v1," and the digest, under the decoded secret, of
-- the request's id, its time and the payload; its time is at most 300 seconds from `now`.
pub record IsSigned (codec : Codec) (now : ℕ) (payload : String) (h : Headers) (secret : String)
    : Type 0 where
  pub sent : ℕ
  pub sent_at : codec.int h.svix_timestamp ≡ some sent
  pub not_old : now ≤ sent + 300
  pub not_early : sent ≤ now + 300
  pub key : String
  pub decoded : codec.b64decode (remove_prefix secret) ≡ some key
  pub part : String
  pub among : Memᴰ part (split h.svix_signature 32)
  pub rest : List String
  pub versioned : split part 44 ≡ "v1" ∷ rest
  pub same :
      join "," rest
      ≡ codec.digest key
          (concat h.svix_id (concat "." (concat h.svix_timestamp (concat "." payload))))

pair_matches-true :
    (expected : String) (pair : List String)
    → pair_matches expected pair ≡ true
    → (rest : List String) × (pair ≡ "v1" ∷ rest) × (join "," rest ≡ expected)
pair_matches-true expected [] h = cc h
pair_matches-true expected (version ∷ rest) h =
    let first = (str_eq_iff version "v1").0 (ground arith) in
    (
      rest,
      ap (λ (v : String). v ∷ rest) first,
      (str_eq_iff (join "," rest) expected).0 (ground arith),
    )

verify_resend_signature-IsSigned :
    (codec : Codec) (now : ℕ) (payload : String) (h : Headers) (secret : String)
    → verify_resend_signature codec now payload h secret ≡ true
    → IsSigned codec now payload h secret
unfolding verify_resend_signature
verify_resend_signature-IsSigned codec now payload h secret v =
    elim (Option-cases (codec.int h.svix_timestamp)) [
      | inl unread ↦ absurd (ground (arith, unread))
      | inr (sent, sent_at) ↦ elim (Option-cases (codec.b64decode (remove_prefix secret))) [
        | inl undecoded ↦ absurd (ground (arith, undecoded))
        | inr (key, decoded) ↦
            let (part, among, matches) =
              any-Mem
                (λ part. pair_matches (expected_signature codec payload h key) (split part 44))
                (split h.svix_signature 32) (ground (arith, decoded)) in
            let (rest, versioned, same) = pair_matches-true _ (split part 44) matches in
            let fresh : leb (distance now sent) 300 ≡ true = ground (arith, sent_at) in
            record {
              sent = sent;
              sent_at = sent_at;
              not_old = ground (arith, fresh);
              not_early = ground (arith, fresh);
              key = key;
              decoded = decoded;
              part = part;
              among = among;
              rest = rest;
              versioned = versioned;
              same = same;
            }
      ]
    ]

-- Whatever a request did to the log, it was signed: a secret is set, the signature's time is within
-- five minutes of the clock, and one part of its header carries the digest of its id, time and
-- payload. The log is then as before, or has one more event at its end, whose webhook id is the
-- request's and was not in the log.
pub resend_webhook_lem :
    (codec : Codec) (now_seconds : ℕ) (now : Time) (secret payload : String) (h : Headers)
    (recipients : List NotificationRecipient) (log log' : List NotificationDeliveryEvent)
    → resend_webhook codec now_seconds now secret payload h recipients log ≡ ok log'
    → (secret ≢ "")
      × IsSigned codec now_seconds payload h secret
      × Appends h.svix_id recipients log log'
unfolding resend_webhook
resend_webhook_lem codec now_seconds now secret payload h recipients log log' went =
    let (configured, went') = raise_if-ok (is_empty secret) not_configured _ went in
    let (signed, went'') =
      raise_if-ok (not (verify_resend_signature codec now_seconds payload h secret))
        invalid_signature _ went' in
    let (event, parsed, handled) = >>=-eq-ok (or_refuse (codec.loads payload)) _ went'' in
    (
      λ blank. ground (arith, (str_eq_iff secret "").1 blank, configured),
      verify_resend_signature-IsSigned codec now_seconds payload h secret (ground (arith, signed)),
      handle_resend_delivery_event-Appends codec now event h.svix_id recipients log log' handled,
    )
