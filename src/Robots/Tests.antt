-- ===== src/Robots/Tests.antt =====
-- The crawler asks a site that answers with an error of its own.
use truthpage.Prelude.{
  List, Option, String, [], false, if◌then◌else◌, is_break, length, none, refl, some, splitlines,
  str_eq, true, ◌==◌, ◌∷◌, ◌≡◌,
}
use truthpage.Robots.{RobotsWeb, is_allowed, load, rules_for, rules_of}

abbrev one_site : RobotsWeb (List String) (List (Option (List String)))
one_site = record {
  scheme = λ url. "https";
  netloc = λ url. url;
  get_robots = λ url.
      if str_eq url "https://a.test/robots.txt"
      then some (record { status_code = 200; text = "Disallow" })
      else some (record { status_code = 503; text = "Disallow" });
  parse = λ lines. lines;
  can_fetch = λ rules agent url. length rules == 0;
  cached = λ cache origin. none;
  store = λ cache origin rules. rules ∷ cache;
}

answers : (is_allowed one_site [] "a.test").0 ≡ false
unfolding is_allowed rules_for load rules_of splitlines is_break
answers = refl

overloaded : is_allowed one_site [] "b.test" ≡ (true, none ∷ [])
unfolding is_allowed rules_for load rules_of
overloaded = refl
