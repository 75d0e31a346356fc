-- ===== src/Fetcher/Tests.antt =====
-- Tests of the first tier: a public page that redirects to an internal address.
use truthpage.Prelude.{
  List, String, [], false, if◌then◌else◌, length, none, refl, some, str_eq, true, ℕ, ◌∷◌, ◌≡◌, ◌≤◌,
}
use truthpage.UrlGuard.{Address, Net, ensure_safe_url, forbidden_address, is_forbidden_ip}
use truthpage.Fetcher.Tier1.{
  AllPublic, Outcome, Response, Wire, answered, fetch_tier1, fetch_tier1-AllPublic, hop_loop,
  next_hop, unsafe_url,
}

abbrev public_address : Address
public_address = record {
  is_private = false;
  is_link_local = false;
  is_loopback = false;
  is_reserved = false;
}

abbrev web_net : Net
web_net = record {
  scheme = λ url. "http";
  hostname = λ url. some url;
  ip_address = λ host. none;
  getaddrinfo = λ now host.
      if str_eq host "a.test"
      then some (public_address ∷ [])
      else some (record public_address { is_loopback = true } ∷ []);
}

abbrev redirect : Response
redirect = record {
  is_redirect = true;
  location = some "inside.test";
  status_code = 302;
  content_type = "";
  text = "";
  content = "";
}

abbrev redirecting : Wire
redirecting = record {
  get = λ now url. answered redirect;
  join = λ base location. location;
  extract_pdf_text = λ bytes. none;
  escape = λ text. text;
}

-- The second hop is refused before it is sent.
abbrev fetched_run : List (ℕ × String) × Outcome
fetched_run = ((1, "a.test") ∷ [], unsafe_url forbidden_address)

hop_refused : fetch_tier1 web_net redirecting "a.test" ≡ fetched_run
unfolding fetch_tier1 hop_loop ensure_safe_url is_forbidden_ip next_hop
hop_refused = refl

fetch_tier1-AllPublic_example :
    AllPublic web_net redirecting (fetch_tier1 web_net redirecting "a.test").0
    × (length (fetch_tier1 web_net redirecting "a.test").0 ≤ 6)
fetch_tier1-AllPublic_example = fetch_tier1-AllPublic web_net redirecting "a.test"
