-- ===== src/UrlGuard.antt =====
-- app/core/urlguard.py: the guard that refuses internal addresses. urllib.parse, ipaddress and the name
-- service are parameters; the name service may answer differently at every moment.
use truthpage.Prelude.{
  All, Bool, List, Option, Option-cases, Result, String, [], any, arith, err, false, get_or,
  if◌then◌else◌, inl, inr, mem_str, none, ok, refl, some, str_eq, str_eq_iff, ℕ, ◌||◌, ◌∷◌, ◌≡◌,
  ◌⊎◌,
}

-- What `ipaddress` tells of an address.
pub record Address : Type 0 where
  pub is_private : Bool
  pub is_link_local : Bool
  pub is_loopback : Bool
  pub is_reserved : Bool

pub record Net : Type 0 where
  -- urlparse(url).scheme and .hostname
  pub scheme : String → String
  pub hostname : String → Option String
  -- ipaddress.ip_address(host), None for ValueError
  pub ip_address : String → Option Address
  -- socket.getaddrinfo(host, None, …) at a moment, None for gaierror
  pub getaddrinfo : ℕ → String → Option (List Address)

pub data UrlError : Type 0 where
  bad_scheme missing_host reserved_host forbidden_address unresolved : UrlError

abbrev pub reserved_hostnames : List String
reserved_hostnames = "localhost" ∷ "metadata.google.internal" ∷ []

unfoldable pub is_forbidden_ip : Address → Bool
is_forbidden_ip a = a.is_private || a.is_link_local || a.is_loopback || a.is_reserved

check_addresses : Option (List Address) → Result UrlError (Unit {0})
check_addresses none = err unresolved
check_addresses (some infos) = if any is_forbidden_ip infos then err forbidden_address else ok tt

-- An address that is neither private nor local to a link or to the host, and not reserved.
abbrev pub IsPublicAddress : Address → Type 0
IsPublicAddress a =
    (a.is_private ≡ false)
    × (a.is_link_local ≡ false)
    × (a.is_loopback ≡ false)
    × (a.is_reserved ≡ false)

module _ (net : Net) (now : ℕ) where
  unfoldable pub check_host : String → Option Address → Result UrlError (Unit {0})
  unfolding check_addresses
  check_host host (some addr) = if is_forbidden_ip addr then err forbidden_address else ok tt
  check_host host none = check_addresses (net.getaddrinfo now host)

  unfoldable pub check_hostname : String → Result UrlError (Unit {0})
  unfolding check_host
  check_hostname host =
      if str_eq host ""
      then err missing_host
      else if mem_str host reserved_hostnames
      then err reserved_host
      else check_host host (net.ip_address host)

  -- `_validate_monitored_url` at a moment.
  unfoldable pub validate_monitored_url : String → Result UrlError (Unit {0})
  unfolding check_hostname
  validate_monitored_url url =
      if mem_str (net.scheme url) ("http" ∷ "https" ∷ [])
      then check_hostname (get_or (net.hostname url) "")
      else err bad_scheme

  -- `ensure_safe_url` raises UnsafeUrlError where `validate_url` raises HTTPException.
  unfoldable pub ensure_safe_url : String → Result UrlError (Unit {0})
  unfolding validate_monitored_url
  ensure_safe_url url = validate_monitored_url url

  -- Addresses that a name stands for now, none of them internal.
  pub data IsPublicHost (host : String) : Type 0 where
    literal :
        {addr : Address}
        → net.ip_address host ≡ some addr
        → IsPublicAddress addr
        → IsPublicHost host
    named :
        {infos : List Address}
        → net.ip_address host ≡ none
        → net.getaddrinfo now host ≡ some infos
        → All IsPublicAddress infos
        → IsPublicHost host

  -- A page of the public web: http or https, a host that is not reserved, and no internal address.
  pub record IsPublic (url : String) : Type 0 where
    pub web : (net.scheme url ≡ "http") ⊎ (net.scheme url ≡ "https")
    pub host : String
    pub is_host : get_or (net.hostname url) "" ≡ host
    pub not_empty : str_eq host "" ≡ false
    pub not_reserved :
        (str_eq host "localhost" ≡ false) × (str_eq host "metadata.google.internal" ≡ false)
    pub is_public : IsPublicHost host

  none_forbidden :
      (infos : List Address) → any is_forbidden_ip infos ≡ false → All IsPublicAddress infos
  unfolding is_forbidden_ip
  none_forbidden [] clear = tt
  none_forbidden (a ∷ infos) clear = (
    (ground arith, ground arith, ground arith, ground arith),
    none_forbidden infos (ground arith),
  )

  check_host-IsPublicHost :
      (host : String) (literal_addr : Option Address)
      → net.ip_address host ≡ literal_addr
      → check_host host literal_addr ≡ ok tt
      → IsPublicHost host
  unfolding check_host check_addresses is_forbidden_ip
  check_host-IsPublicHost host (some addr) read passed =
      literal read (ground arith, ground arith, ground arith, ground arith)
  check_host-IsPublicHost host none read passed = elim (Option-cases (net.getaddrinfo now host)) [
    | inl e ↦ absurd (ground arith)
    | inr (infos, e) ↦ named read e (none_forbidden infos (ground arith))
  ]

  check_hostname-step :
      (host : String)
      → check_hostname host ≡ ok tt
      → (str_eq host "" ≡ false)
        × ((mem_str host reserved_hostnames ≡ false)
            × (check_host host (net.ip_address host) ≡ ok tt))
  unfolding check_hostname
  check_hostname-step host passed = (ground arith, (ground arith, ground arith))

  validate-step :
      (url : String)
      → validate_monitored_url url ≡ ok tt
      → ((net.scheme url ≡ "http") ⊎ (net.scheme url ≡ "https"))
        × (check_hostname (get_or (net.hostname url) "") ≡ ok tt)
  unfolding validate_monitored_url
  validate-step url passed = (
    ground (arith, str_eq_iff (net.scheme url) "http", str_eq_iff (net.scheme url) "https"),
    ground arith,
  )

  -- A URL that passes the guard is public at that moment.
  pub ensure_safe_url-IsPublic : (url : String) → ensure_safe_url url ≡ ok tt → IsPublic url
  unfolding ensure_safe_url
  ensure_safe_url-IsPublic url passed =
      let (web, checked) = validate-step url passed in
      let (not_empty, (not_reserved, found)) = check_hostname-step _ checked in
      record {
        web = web;
        host = get_or (net.hostname url) "";
        is_host = refl;
        not_empty = not_empty;
        not_reserved = (ground (arith, not_reserved), ground (arith, not_reserved));
        is_public = check_host-IsPublicHost _ _ refl found;
      }
