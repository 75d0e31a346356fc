-- ===== src/Fetcher/Tier1.antt =====
-- app/core/scraper/fetcher.py: the first tier with its loop over redirects, and the guard of the second
-- one. The HTTP client, the joining of URLs and the PDF library are parameters. The requests that are
-- sent, each with its moment, are part of the result.
use truthpage.Prelude.{
  All, Bool, List, Option, Result, String, [], arith, err, false, filter, get_or, if◌then◌else◌,
  inl, inr, is_in, is_mem, join_with, leb, length, lower, ltb, map, none, not, ok, refl, some,
  split, splitlines, str_eq, strip, suc, true, zero, ℕ, ◌&&◌, ◌<>◌, ◌∷◌, ◌≡◌, ◌≤◌, ◌⊎◌,
}
use truthpage.ContentHealth.{is_bot_wall_body}
use truthpage.UrlGuard.{IsPublic, Net, UrlError, ensure_safe_url, ensure_safe_url-IsPublic}
use truthpage.Fetcher.{Tier1Reply, connection_error, tier1_page, tier1_raised}

pub record Response : Type 0 where
  pub is_redirect : Bool
  pub location : Option String
  pub status_code : ℕ
  pub content_type : String
  pub text : String
  pub content : String

-- ConnectError and RemoteProtocolError, or any other exception of the client.
pub data Reply : Type 0 where
  answered : Response → Reply
  connection_lost client_raised : Reply

pub record Wire : Type 0 where
  -- client.get(url) at a moment
  pub get : ℕ → String → Reply
  -- str(response.url.join(location))
  pub join : String → String → String
  -- extract_pdf_text, None where it raises, and html.escape
  pub extract_pdf_text : String → Option String
  pub escape : String → String

pub data Outcome : Type 0 where
  page : String → Bool → Outcome
  unsafe_url : UrlError → Outcome
  http_status_error : ℕ → Outcome
  no_location no_connection request_failed bad_pdf too_many_redirects : Outcome

abbrev pub max_redirects : ℕ
max_redirects = 5

abbrev bot_wall_status_codes : List ℕ
bot_wall_status_codes = 403 ∷ 429 ∷ 503 ∷ []

unfoldable pub is_bot_protected : ℕ → String → Bool
is_bot_protected status_code body =
    if is_mem status_code bot_wall_status_codes then true else is_bot_wall_body body

-- `s.endswith(suffix)`
abbrev ends_with : String → String → Bool
ends_with String.[] suffix = str_eq String.[] suffix
ends_with (String.◌∷◌ c s) suffix =
    let rest = ends_with s suffix in if str_eq (String.◌∷◌ c s) suffix then true else rest

abbrev first_of : List String → String
first_of [] = ""
first_of (x ∷ xs) = x

-- `is_pdf_response` of app/core/scraper/pdf_extract.py
unfoldable pub is_pdf_response : String → String → Bool
is_pdf_response content_type url =
    if is_in "application/pdf" (lower content_type)
    then true
    else ends_with (lower (first_of (split url 63))) ".pdf"

-- `pdf_text_as_html` of the same file.
unfoldable pub pdf_text_as_html : (String → String) → String → String
pdf_text_as_html escape text =
    let lines = filter (λ line. not (str_eq line "")) (map strip (splitlines text)) in
    "<html><body>"
    <> join_with "\n" (map (λ line. "<p>" <> escape line <> "</p>") lines)
    <> "</body></html>"

module _ (net : Net) (wire : Wire) where
  unfoldable pub pdf_page : Option String → Outcome
  pdf_page none = bad_pdf
  pdf_page (some text) = page (pdf_text_as_html wire.escape text) false

  -- What is made of an answer that is no redirect.
  unfoldable pub read_answer : String → Response → Outcome
  unfolding pdf_page
  read_answer current r =
      let blocked = is_bot_protected r.status_code r.text in
      if ltb r.status_code 400 && is_pdf_response r.content_type current
      then pdf_page (wire.extract_pdf_text r.content)
      else if not blocked && leb 400 r.status_code
      then http_status_error r.status_code
      else page r.text blocked

  -- Where an answer leads: on to another URL, or to an end.
  unfoldable pub next_hop : String → Reply → String ⊎ Outcome
  next_hop current connection_lost = inr no_connection
  next_hop current client_raised = inr request_failed
  next_hop current (answered r) =
      if r.is_redirect
      then (if str_eq (get_or r.location "") ""
          then inr no_location
          else inl (wire.join current (get_or r.location "")))
      else inr (read_answer current r)

  -- The loop with the number of its turns and the moment when the guard asks the name service; the
  -- client, which resolves the name again, sends its request at the next moment. It returns the
  -- requests, each with the moment when it was sent, and how it ends.
  unfoldable pub hop_loop : ℕ → ℕ → String → List (ℕ × String) × Outcome
  hop_loop zero now current = ([], too_many_redirects)
  hop_loop (suc turns) now current = elim (ensure_safe_url net now current) [
    | err e ↦ ([], unsafe_url e)
    | ok _ ↦ elim (next_hop current (wire.get (suc now) current)) [
      | inl target ↦
          let (sent, outcome) = hop_loop turns (suc (suc now)) target in
          ((suc now, current) ∷ sent, outcome)
      | inr outcome ↦ ((suc now, current) ∷ [], outcome)
    ]
  ]

  -- `_fetch_tier1`
  unfoldable pub fetch_tier1 : String → List (ℕ × String) × Outcome
  unfolding hop_loop
  fetch_tier1 url = hop_loop (suc max_redirects) 0 url

  -- How `fetch_raw_html` takes the outcome.
  unfoldable pub tier1_reply : Outcome → Tier1Reply
  tier1_reply (page html blocked) = tier1_page html blocked
  tier1_reply no_connection = connection_error
  tier1_reply _ = tier1_raised

  -- `fetch_html_fast`: the page, or None where it raises.
  unfoldable pub fetch_html_fast : Outcome → Option String
  fetch_html_fast (page html blocked) = if blocked then none else some html
  fetch_html_fast _ = none

  -- `_guard` of the second tier: is a request of the browser let through?
  unfoldable pub guard : ℕ → String → Bool
  guard now url = elim (ensure_safe_url net now url) [ err e ↦ false | ok _ ↦ true ]

  -- At the moment before it is sent, the URL is public, as far as the name service tells.
  abbrev pub AllPublic : List (ℕ × String) → Type 0
  AllPublic sent =
      All (λ request. (asked : ℕ) × (request.0 ≡ suc asked) × IsPublic net asked request.1) sent

  guard-cases : (r : Result UrlError (Unit {0})) → (r ≡ ok tt) ⊎ ((e : UrlError) × (r ≡ err e))
  guard-cases (ok tt) = inl refl
  guard-cases (err e) = inr (e, refl)

  hop-cases :
      (hop : String ⊎ Outcome)
      → ((target : String) × (hop ≡ inl target)) ⊎ ((outcome : Outcome) × (hop ≡ inr outcome))
  hop-cases (inl target) = inl (target, refl)
  hop-cases (inr outcome) = inr (outcome, refl)

  hop_loop-AllPublic :
      (turns now : ℕ) (current : String)
      → AllPublic (hop_loop turns now current).0 × (length (hop_loop turns now current).0 ≤ turns)
  unfolding hop_loop
  hop_loop-AllPublic zero now current = (tt, omega arith)
  hop_loop-AllPublic (suc turns) now current =
      elim (guard-cases (ensure_safe_url net now current)) [
        | inr (e, refused) ↦ rw (refused, hop_loop) (tt, omega arith)
        | inl safe ↦
            let public = ensure_safe_url-IsPublic net now current safe in
            elim (hop-cases (next_hop current (wire.get (suc now) current))) [
              | inr (outcome, e) ↦
                  rw (safe, hop_loop) (rw e (((now, refl, public), tt), omega arith))
              | inl (target, e) ↦
                  let (later, few) = hop_loop-AllPublic turns (suc (suc now)) target in
                  rw (safe, hop_loop) (rw e (((now, refl, public), later), omega arith))
            ]
      ]

  -- Wherever the answers point, every request that the first tier sends, the redirected ones too,
  -- goes to a URL with http or https and a host that is not reserved, for which the name service gave,
  -- when the guard asked it just before, none but public addresses; and there are at most six
  -- requests. What the name service tells the client afterwards is not part of it.
  pub fetch_tier1-AllPublic :
      (url : String) → AllPublic (fetch_tier1 url).0 × (length (fetch_tier1 url).0 ≤ 6)
  unfolding fetch_tier1
  fetch_tier1-AllPublic url = hop_loop-AllPublic 6 0 url
