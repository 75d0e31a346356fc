-- ===== src/Robots.antt =====
-- app/core/scraper/robots.py: whether the robots.txt of a site lets the crawler of the public directory
-- fetch a page. The HTTP client, the parser of robots.txt and the cache of cachetools are parameters.
mod Tests
use truthpage.Prelude.{
  Bool, List, Option, Option-cases, String, [], ap, arith, false, if◌then◌else◌, inl, inr, leb,
  none, refl, some, splitlines, sym, true, ℕ, ◌<>◌, ◌||◌, ◌∙◌, ◌≡◌, ◌⊎◌,
}
use truthpage.Webhooks.{is_empty}

-- A reply to GET {origin}/robots.txt, redirects followed; `none` is an exception.
pub record RobotsReply : Type 0 where
  pub status_code : ℕ
  pub text : String

pub record RobotsWeb (Rules Cache : Type 0) : Type 0 where
  -- `urlparse(url)`
  pub scheme : String → String
  pub netloc : String → String
  pub get_robots : String → Option RobotsReply
  pub parse : List String → Rules
  pub can_fetch : Rules → String → String → Bool
  -- A read of `_CACHE`, which forgets a host after six hours, and a write.
  pub cached : Cache → String → Option (Option Rules)
  pub store : Cache → String → Option Rules → Cache

abbrev pub robots_user_agent : String
robots_user_agent = "TrustPagesBot"

module _ {Rules Cache : Type 0} (web : RobotsWeb Rules Cache) where
  -- Rules of a reply; where it is missing or a failure of the server there are none.
  unfoldable pub rules_of : Option RobotsReply → Option Rules
  rules_of none = none
  rules_of (some r) =
      if leb 500 r.status_code
      then none
      else if leb 400 r.status_code
      then some (web.parse [])
      else some (web.parse (splitlines r.text))

  unfoldable pub load : String → Option Rules
  load origin = rules_of (web.get_robots (origin <> "/robots.txt"))

  abbrev pub permits : String → Option Rules → Bool
  permits url none = true
  permits url (some rules) = web.can_fetch rules robots_user_agent url

  -- The rules of an origin, and the cache after they were looked up.
  unfoldable pub rules_for : Cache → String → Option Rules × Cache
  unfolding load
  rules_for cache origin = elim (web.cached cache origin) [
    | some known ↦ (known, cache)
    | none ↦ let loaded = load origin in (loaded, web.store cache origin loaded)
  ]

  abbrev pub origin_of : String → String
  origin_of url = web.scheme url <> "://" <> web.netloc url

  unfoldable pub is_allowed : Cache → String → Bool × Cache
  unfolding rules_for
  is_allowed cache url =
      if is_empty (web.scheme url) || is_empty (web.netloc url)
      then (true, cache)
      else (let (rules, after) = rules_for cache (origin_of url) in (permits url rules, after))

  permits-false :
      (url : String) (found : Option Rules)
      → permits url found ≡ false
      → (rules : Rules) × (found ≡ some rules) × (web.can_fetch rules robots_user_agent url ≡ false)
  permits-false url none refused = cc refused
  permits-false url (some rules) refused = (rules, refl, refused)

  rules_for-some :
      (cache : Cache) (origin : String) (rules : Rules)
      → (rules_for cache origin).0 ≡ some rules
      → (web.cached cache origin ≡ some (some rules)) ⊎ (load origin ≡ some rules)
  unfolding rules_for
  rules_for-some cache origin rules found = elim (Option-cases (web.cached cache origin)) [
    | inl forgotten ↦ inr (ground (arith, forgotten))
    | inr (known, there) ↦ inl (there ∙ ap some (ground (arith, there)))
  ]

  -- A page is refused only by rules that were parsed, of the cache or of a reply below 500.
  is_allowed-refused :
      (cache : Cache) (url : String)
      → (is_allowed cache url).0 ≡ false
      → (rules : Rules) × ((web.cached cache (origin_of url) ≡ some (some rules))
          ⊎ (load (origin_of url) ≡ some rules))
        × (web.can_fetch rules robots_user_agent url ≡ false)
  unfolding is_allowed
  is_allowed-refused cache url refused =
      let (rules, found, disallowed) =
        permits-false url (rules_for cache (origin_of url)).0 (ground arith) in
      (rules, rules_for-some cache (origin_of url) rules found, disallowed)

  rules_for-known :
      (cache : Cache) (origin : String) (known : Option Rules)
      → web.cached cache origin ≡ some known
      → rules_for cache origin ≡ (known, cache)
  unfolding rules_for
  rules_for-known cache origin known there = rw (there, rules_for) refl

  rules_for-none :
      (cache : Cache) (origin : String)
      → web.cached cache origin ≡ none
      → rules_for cache origin ≡ (load origin, web.store cache origin (load origin))
  unfolding rules_for
  rules_for-none cache origin forgotten = rw (forgotten, rules_for) refl

  -- While the cache remembers an origin, it is not asked again, and its rules are the same.
  rules_for-again :
      (cache : Cache) (origin : String)
      → ((rules : Option Rules) → web.cached (web.store cache origin rules) origin ≡ some rules)
      → rules_for (rules_for cache origin).1 origin ≡ rules_for cache origin
  rules_for-again cache origin remembers = elim (Option-cases (web.cached cache origin)) [
    | inl forgotten ↦
        let first = rules_for-none cache origin forgotten in
        ap (λ (p : Option Rules × Cache). rules_for p.1 origin) first
        ∙ rules_for-known _ origin (load origin) (remembers (load origin))
        ∙ sym first
    | inr (known, there) ↦
        ap (λ (p : Option Rules × Cache). rules_for p.1 origin)
          (rules_for-known cache origin known there)
  ]
