-- ===== src/RateLimit/Window.antt =====
-- How many requests a window of the limiter can hold.
use mathlib.Core.List.{append-nil, append_assoc}
use truthpage.Prelude.{
  All, All-append, All-map, Bool, Bool-cases, List, Option, Time, [], arith, count, count-append,
  count_le, false, if◌then◌else◌, inl, inr, leb, length, length-append, ltb, none, refl, some,
  subst, suc, true, ◌&&◌, ◌++◌, ◌+◌, ◌<◌, ◌∷◌, ◌≡◌, ◌≤◌,
}
use truthpage.RateLimit.{Entry, Held, Limiter, allow, allowed, drop_old, read_entry}

-- Moments that never go back.
abbrev pub IsChronological : Time → List Time → Type 0
IsChronological start [] = Unit
IsChronological start (t ∷ ts) = (start ≤ t) × IsChronological t ts

module _ (l : Limiter) where
  -- Does a moment lie in the window that ends at `now`?
  abbrev pub in_window : Time → Time → Bool
  in_window now t = leb t now && ltb now (t + l.window)

  -- Is a moment still within the window after it, at `now`?
  abbrev is_recent : Time → Time → Bool
  is_recent now t = ltb now (t + l.window)

  -- The cache holds an entry for as long as the window lasts, and one that it has dropped does not
  -- come back.
  pub record IsTtl (held : Held) : Type 0 where
    pub keeps :
        (stored_at at : Time) → ltb at (stored_at + l.window) ≡ true → held stored_at at ≡ true
    pub once :
        (stored_at now at : Time) → now ≤ at → held stored_at at ≡ true → held stored_at now ≡ true

  module _ (held : Held) (cache : IsTtl held) where
    -- The deque as the next request at a moment sees it.
    abbrev seen_at : Option Entry → Time → List Time
    seen_at stored at = drop_old l at (read_entry held stored at)

    -- After the requests of `log`, the last at `now`: no window holds too many, and the deque holds
    -- whatever is recent at any later moment.
    record IsKept (log : List Time) (stored : Option Entry) (now : Time) : Type 0 where
      bounded : (at : Time) → count (in_window at) log ≤ l.max_requests
      past : All (λ t. t ≤ now) log
      all_held : (at : Time) → now ≤ at → count (is_recent at) log ≤ length (seen_at stored at)

    none_recent :
        (log : List Time) (now at : Time)
        → All (λ t. t ≤ now) log
        → now + l.window ≤ at
        → count (is_recent at) log ≡ 0
    none_recent [] now at past late = refl
    none_recent (t ∷ log) now at (before, past) late =
        ground (arith, none_recent log now at past late)

    later_past :
        (log : List Time) (now at : Time)
        → now ≤ at
        → All (λ t. t ≤ now) log
        → All (λ t. t ≤ at) log
    later_past log now at le = All-map _ _ log (λ t before. omega arith)

    drop_old-append :
        (at t : Time) (dq : List Time)
        → at < t + l.window
        → length (drop_old l at (dq ++ t ∷ [])) ≡ suc (length (drop_old l at dq))
    unfolding drop_old
    drop_old-append at t [] recent = ground arith
    drop_old-append at t (s ∷ dq) recent = ground (
      arith,
      drop_old-append at t dq recent,
      length-append (s ∷ dq) (t ∷ []),
      length-append dq (t ∷ []),
    )

    -- What an earlier request left in the deque does not change what a later one sees.
    drop_old-later :
        (at now : Time) (dq : List Time)
        → now ≤ at
        → drop_old l at (drop_old l now dq) ≡ drop_old l at dq
    unfolding drop_old
    drop_old-later at now [] le = refl
    drop_old-later at now (s ∷ dq) le = elim (Bool-cases (ltb (s + l.window) now)) [
      | inl old ↦ ground (arith, drop_old-later at now dq le)
      | inr fresh ↦ rw fresh refl
    ]

    -- What the next request sees shrinks as the deque grows older, and an entry that the cache has
    -- forgotten shows nothing.
    seen-le :
        (stored : Option Entry) (now at : Time)
        → now ≤ at
        → length (seen_at stored at) ≤ length (drop_old l at (seen_at stored now))
    unfolding read_entry drop_old
    seen-le none now at le = omega arith
    seen-le (some entry) now at le = elim (Bool-cases (held entry.stored_at at)) [
      | inr gone ↦ rw gone (omega arith)
      | inl there ↦
          let there' = cache.once entry.stored_at now at le there in
          rw (there, there') (rw (drop_old-later at now entry.dq le) (omega arith))
    ]

    module _ (log : List Time) (stored : Option Entry) (last now : Time) (le : last ≤ now)
        (kept : IsKept log stored last) where
      abbrev entry : Entry
      entry = record { dq = seen_at stored now ++ now ∷ []; stored_at = now }

      now-past : All (λ t. t ≤ now) (log ++ now ∷ [])
      now-past = All-append _ log _ (later_past log last now le kept.past) (omega arith, tt)

      -- There is room for the request in every window that holds it.
      room-bounded :
          length (seen_at stored now) < l.max_requests
          → (at : Time) → count (in_window at) (log ++ now ∷ []) ≤ l.max_requests
      room-bounded room at = elim (Bool-cases (in_window at now)) [
        | inl inside ↦ ground (
          arith,
          count-append (in_window at) log (now ∷ []),
          kept.all_held now le,
          count_le (in_window at) (is_recent now) log (λ t. ground arith),
        )
        | inr outside ↦ ground (arith, count-append (in_window at) log (now ∷ []), kept.bounded at)
      ]

      entry-held :
          (at : Time)
          → now ≤ at
          → count (is_recent at) (log ++ now ∷ []) ≤ length (seen_at (some entry) at)
      unfolding read_entry drop_old
      entry-held at later = elim (Bool-cases (ltb at (now + l.window))) [
        | inr gone ↦
            let late : now + l.window ≤ at = ground arith in
            omega (arith, none_recent (log ++ now ∷ []) now at now-past late)
        | inl there ↦ ground (
          arith,
          cache.keeps now at there,
          drop_old-append at now (seen_at stored now),
          count-append (is_recent at) log (now ∷ []),
          kept.all_held at,
          seen-le stored now at later,
        )
      ]

      entry-IsKept :
          length (seen_at stored now) < l.max_requests → IsKept (log ++ now ∷ []) (some entry) now
      entry-IsKept room = record {
        bounded = room-bounded room;
        past = now-past;
        all_held = entry-held;
      }

    -- One request keeps the bound.
    allow-IsKept :
        (log : List Time) (stored : Option Entry) (last now : Time)
        → last ≤ now
        → IsKept log stored last
        → IsKept
            (if (allow l held stored now).0 then log ++ now ∷ [] else log)
            (allow l held stored now).1
            now
    unfolding allow
    allow-IsKept log stored last now le kept =
        elim (Bool-cases (leb l.max_requests (length (seen_at stored now)))) [
          | inl full ↦ rw full (record {
            bounded = kept.bounded;
            past = later_past log last now le kept.past;
            all_held = λ at later. kept.all_held at (omega arith);
          })
          | inr room ↦ rw room (entry-IsKept log stored last now le kept (ground arith))
        ]

    append-if :
        (passed : Bool) (log : List Time) (now : Time) (rest : List Time)
        → ((if passed then log ++ now ∷ [] else log) ++ rest)
          ≡ (log ++ (if passed then now ∷ rest else rest))
    append-if true log now rest = append_assoc log (now ∷ []) rest
    append-if false log now rest = refl

    allowed-IsBounded :
        (requests log : List Time) (stored : Option Entry) (last : Time)
        → IsChronological last requests
        → IsKept log stored last
        → (at : Time)
        → count (in_window at) (log ++ allowed l held stored requests) ≤ l.max_requests
    unfolding allowed
    allowed-IsBounded [] log stored last times kept at = rw append-nil (kept.bounded at)
    allowed-IsBounded (now ∷ later) log stored last (le, times) kept at =
        let (passed, stored') = allow l held stored now in
        let rest = allowed l held stored' later in
        subst (λ ts. count (in_window at) ts ≤ l.max_requests) (append-if passed log now rest)
          (allowed-IsBounded later _ stored' now times (allow-IsKept log stored last now le kept)
            at)

    -- If the cache holds an entry for as long as the window lasts, which it does while it is not full
    -- and its clock agrees with that of the requests, and the requests are listed in the order of their
    -- moments, then in any window at most `max_requests` requests of one key are allowed. The window
    -- ends at any moment and does not hold the moment at which it starts.
    pub allowed-le :
        (requests : List Time)
        → IsChronological 0 requests
        → (at : Time) → count (in_window at) (allowed l held none requests) ≤ l.max_requests
    allowed-le requests times at =
        allowed-IsBounded requests [] none 0 times
          (record { bounded = λ at. omega arith; past = tt; all_held = λ at le. omega arith }) at
