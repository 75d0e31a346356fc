-- ===== src/RateLimit/Tests.antt =====
-- Tests of the limiter: three requests in a window of ten.
use truthpage.Prelude.{[], arith, count, is_space, ltb, none, refl, some, strip, ◌+◌, ◌∷◌, ◌≡◌, ◌≤◌}
use truthpage.RateLimit.{Held, Limiter, allow, allowed, drop_old, get_client_ip, read_entry}
use truthpage.RateLimit.Client.{get_client_ip_lem}
use truthpage.RateLimit.Window.{IsTtl, allowed-le, in_window}

abbrev three : Limiter
three = record { max_requests = 3; window = 10 }

abbrev in_ttl : Held
in_ttl stored_at at = ltb at (stored_at + 10)

in_ttl-IsTtl : IsTtl three in_ttl
in_ttl-IsTtl = record {
  keeps = λ stored_at at recent. recent;
  once = λ stored_at now at le there. ground arith;
}

allowed_run : allowed three in_ttl none (1 ∷ 2 ∷ 3 ∷ 4 ∷ 12 ∷ 13 ∷ []) ≡ 1 ∷ 2 ∷ 3 ∷ 12 ∷ 13 ∷ []
unfolding allowed allow read_entry drop_old
allowed_run = refl

allowed-le_example :
    count (in_window three 4) (allowed three in_ttl none (1 ∷ 2 ∷ 3 ∷ 4 ∷ 12 ∷ 13 ∷ [])) ≤ 3
allowed-le_example =
    allowed-le three in_ttl in_ttl-IsTtl (1 ∷ 2 ∷ 3 ∷ 4 ∷ 12 ∷ 13 ∷ [])
      (omega arith, (omega arith, (omega arith, (omega arith, (omega arith, (omega arith, tt)))))) 4

get_client_ip_example : get_client_ip (some "1.2.3.4, evil, 5.6.7.8") none ≡ "5.6.7.8"
unfolding strip is_space
get_client_ip_example = get_client_ip_lem "1.2.3.4, evil" " 5.6.7.8" none refl
