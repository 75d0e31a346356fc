-- ===== src/RateLimit.antt =====
-- app/core/ratelimit.py and app/core/llm/rate_limit.py: the sliding window of requests under one key,
-- the address that a request counts under, and the pace of the calls of the language model. How
-- long the cache (cachetools) holds an entry is a parameter.
pub mod Window
pub mod Client
mod Tests
use Prim.Native.Char.{code}
use truthpage.Prelude.{
  Bool, List, Option, String, Time, [], false, get_or, if◌then◌else◌, leb, length, ltb, none, some,
  split, str_eq, strip, true, ℕ, ◌++◌, ◌+◌, ◌∷◌,
}

-- SlidingWindowLimiter: `max_requests` and `window_seconds`.
pub record Limiter : Type 0 where
  pub max_requests : ℕ
  pub window : ℕ

-- Does the cache still hold an entry that was stored at a moment, when it is read at another? Its own
-- clock, and the entries that it drops when it is full, decide.
abbrev pub Held : Type 0
Held = Time → Time → Bool

-- A deque of moments under one key of the cache, with the moment when it was stored.
pub record Entry : Type 0 where
  pub dq : List Time
  pub stored_at : Time

-- `self._store.get(key)`, with a new deque in place of None.
unfoldable pub read_entry : Held → Option Entry → Time → List Time
read_entry held none now = []
read_entry held (some entry) now = if held entry.stored_at now then entry.dq else []

-- `while dq and dq[0] < cutoff: dq.popleft()`; the comparison with `now - window` is written with the
-- window on the other side.
unfoldable pub drop_old : Limiter → Time → List Time → List Time
drop_old l now [] = []
drop_old l now (t ∷ dq) =
    let rest = drop_old l now dq in if ltb (t + l.window) now then rest else t ∷ dq

-- One request: is it allowed, and what is stored then.
unfoldable pub allow : Limiter → Held → Option Entry → Time → Bool × Option Entry
allow l held stored now =
    let dq = drop_old l now (read_entry held stored now) in
    if leb l.max_requests (length dq)
    then (false, stored)
    else (true, some (record { dq = dq ++ now ∷ []; stored_at = now }))

-- The moments of the requests that are allowed, of all that come in under one key.
unfoldable pub allowed : Limiter → Held → Option Entry → List Time → List Time
allowed l held stored [] = []
allowed l held stored (now ∷ later) =
    let (passed, stored') = allow l held stored now in
    let rest = allowed l held stored' later in if passed then now ∷ rest else rest

unfoldable pub last_of : String → List String → String
last_of default [] = default
last_of default (x ∷ xs) = last_of x xs

-- The header X-Forwarded-For and the address of the connection.
unfoldable pub get_client_ip : Option String → Option String → String
unfolding last_of
get_client_ip none client = get_or client "unknown"
get_client_ip (some forwarded) client =
    if str_eq forwarded "" then get_or client "unknown" else strip (last_of "" (split forwarded 44))

-- GeminiRateLimiter.wait_turn: the moment when the call may start, from the moment of the last one; a
-- sleep of `remaining` takes at least that long, and `overslept` more.
unfoldable pub wait_turn : ℕ → Option Time → Time → ℕ → Time
wait_turn min_interval none now overslept = now
wait_turn min_interval (some last_call_at) now overslept =
    if ltb now (last_call_at + min_interval) then last_call_at + min_interval + overslept else now
