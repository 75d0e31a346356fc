-- ===== src/Paddle/Signed.antt =====
-- What it takes for the route of Paddle's webhook to answer.
use truthpage.Prelude.{
  List, Option, Option-cases, String, arith, err, false, inl, inr, leb, ltb, not, ok, raise_if-ok,
  refl, some, str_eq_iff, true, ℕ, ◌+◌, ◌<>◌, ◌≡◌,
}
use truthpage.Settings.{Settings}
use truthpage.Jobs.{Tables}
use truthpage.Webhooks.{distance, invalid_signature, is_empty, not_configured}
use truthpage.Paddle.Route.{PaddleCodec, Tracked, paddle_webhook, part_of, verify_signature}

-- The header carries the digest, under the secret, of its own time and of the payload, and its time is
-- at most 300 seconds from `now`.
pub record IsSigned (codec : PaddleCodec) (now : ℕ) (payload sig_header secret : String)
    : Type 0 where
  pub sent : ℕ
  pub decoded : String
  pub sent_at : codec.int (part_of "ts" sig_header) ≡ some sent
  pub recent : leb (distance now sent) 300 ≡ true
  pub reads : codec.decode payload ≡ some decoded
  pub same :
      codec.hexdigest secret (part_of "ts" sig_header <> ":" <> decoded) ≡ part_of "h1" sig_header

module _ (codec : PaddleCodec) (payload sig_header secret : String) where
  verify_signature-IsSigned :
      (now : ℕ)
      → verify_signature codec now payload sig_header secret ≡ true
      → IsSigned codec now payload sig_header secret
  unfolding verify_signature
  verify_signature-IsSigned now h = elim (Option-cases (codec.int (part_of "ts" sig_header))) [
    | inl none_read ↦ absurd (ground (arith, none_read))
    | inr (sent, read) ↦ elim (Option-cases (codec.decode payload)) [
      | inl none_decoded ↦ absurd (ground (arith, none_decoded))
      | inr (decoded, is_text) ↦ record {
        sent = sent;
        decoded = decoded;
        sent_at = read;
        recent = ground (arith, read, is_text);
        reads = is_text;
        same =
            (str_eq_iff (codec.hexdigest secret (part_of "ts" sig_header <> ":" <> decoded))
                (part_of "h1" sig_header)).0
              (ground (arith, read, is_text));
      }
    ]
  ]

  stale-verify_signature :
      (now later : ℕ)
      → IsSigned codec now payload sig_header secret
      → ltb (now + 600) later ≡ true
      → verify_signature codec later payload sig_header secret ≡ false
  unfolding verify_signature
  stale-verify_signature now later signed late =
      let read = signed.sent_at in let recent = signed.recent in ground (arith, read, recent)

  -- When the webhook answers a request at `now`, its header is signed, and the same request is refused
  -- as wrongly signed when it comes again more than 600 seconds later, whatever the tables hold then.
  pub paddle_webhook-IsSigned :
      (cfg : Settings) (uuid : String → Option ℕ) (now later : ℕ) (db other : Tables)
      (answer : Tables × List Tracked)
      → paddle_webhook codec cfg uuid now secret payload sig_header db ≡ ok answer
      → ltb (now + 600) later ≡ true
      → IsSigned codec now payload sig_header secret
        × (paddle_webhook codec cfg uuid later secret payload sig_header other
            ≡ err invalid_signature)
  unfolding paddle_webhook
  paddle_webhook-IsSigned cfg uuid now later db other answer answered late =
      let (configured, rest) = raise_if-ok (is_empty secret) not_configured _ answered in
      let (passed, handled) =
        raise_if-ok (not (verify_signature codec now payload sig_header secret)) invalid_signature _
          rest in
      let signed = verify_signature-IsSigned now (ground (arith, passed)) in
      (signed, rw (configured, stale-verify_signature now later signed late) refl)
