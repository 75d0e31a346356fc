-- ===== src/Detector/Hunks.antt =====
-- A trimmed diff is made of whole hunks from both ends.
use Prim.Native.String.{count as chars}
use mathlib.Core.List.{append_assoc, append-nil}
use truthpage.Prelude.{
  Bool, Bool-cases, List, String, [], ap, arith, false, inl, inr, join, length, length-append, ltb,
  ltb→lt, refl, suc, sym, true, zero, ℕ, ◌++◌, ◌+◌, ◌-◌, ◌<◌, ◌∙◌, ◌∷◌, ◌≡◌, ◌≤◌,
}
use truthpage.Detector.{Kept, get_hunk, keep_loop}

get_hunk-append :
    (hs : List (List String)) (h : List String) (gs : List (List String))
    → get_hunk (hs ++ h ∷ gs) (length hs) ≡ h
get_hunk-append [] h gs = refl
get_hunk-append (x ∷ hs) h gs = get_hunk-append hs h gs

-- A list that is not empty ends in an element.
split_last :
    (m : List (List String)) (n : ℕ)
    → length m ≡ suc n
    → (i : List (List String)) × (x : List String) × (m ≡ i ++ x ∷ []) × (length i ≡ n)
split_last [] n h = absurd (omega arith)
split_last (x ∷ []) n h = ([], x, refl, omega arith)
split_last (x ∷ y ∷ m) zero h = absurd (omega arith)
split_last (x ∷ y ∷ m) (suc n) h =
    let (i, z, e, l) = split_last (y ∷ m) n (omega arith) in (x ∷ i, z, cc, omega arith)

-- The hunks are those kept in front, those in between, and those kept at the end.
abbrev pub IsCut : List (List String) → Kept → ℕ → Type 0
IsCut hunks kept n =
    (middle : List (List String)) × (hunks ≡ kept.head ++ (middle ++ kept.tail))
    × (length middle ≡ n)

-- `len("\n".join(h)) + 1`, summed.
abbrev pub cost : List (List String) → ℕ
cost [] = 0
cost (h ∷ hs) = chars (join "\n" h) + 1 + cost hs

cost-append : (xs ys : List (List String)) → cost (xs ++ ys) ≡ cost xs + cost ys
cost-append [] ys = omega arith
cost-append (x ∷ xs) ys = omega (arith, cost-append xs ys)

nil_of_length : (xs : List (List String)) → length xs ≡ 0 → xs ≡ []
nil_of_length [] h = refl
nil_of_length (x ∷ xs) h = absurd (omega arith)

none_left : (m b c : ℕ) → (0 < m → b < c) → c ≤ b → m ≡ 0
none_left zero b c f h = refl
none_left (suc m) b c f h = let over = f (omega arith) in absurd (omega arith)

-- What the loop keeps true with `n` hunks left: the cut, the budget, and what was used so far.
pub record IsWithin (hunks : List (List String)) (budget : ℕ) (kept : Kept) (n : ℕ) : Type 0 where
  pub cut : IsCut hunks kept n
  pub fits : kept.used ≤ budget
  pub counted : kept.used ≡ cost kept.head + cost kept.tail

abbrev next_used : Kept → List String → ℕ
next_used kept hunk = kept.used + chars (join "\n" hunk) + 1

abbrev with_head : Kept → List String → Kept
with_head kept h = record kept { head = kept.head ++ h ∷ []; used = next_used kept h }

abbrev with_tail : Kept → List String → Kept
with_tail kept h = record kept { tail = h ∷ kept.tail; used = next_used kept h }

module _ (hunks : List (List String)) (budget : ℕ) where
  -- The first and the last hunk in between, and what is left between them.
  first_hunk :
      (kept : Kept) (n : ℕ)
      → IsCut hunks kept (suc n)
      → IsCut hunks (with_head kept (get_hunk hunks (length kept.head))) n
  first_hunk kept n ([], e, l) = absurd (omega arith)
  first_hunk kept n (h ∷ m, e, l) =
      let first : get_hunk hunks (length kept.head) ≡ h =
        ap (λ hs. get_hunk hs (length kept.head)) e
        ∙ get_hunk-append kept.head h (m ++ kept.tail) in
      rw first (m, e ∙ sym (append_assoc kept.head (h ∷ []) (m ++ kept.tail)), omega arith)

  last_hunk :
      (kept : Kept) (n : ℕ)
      → IsCut hunks kept (suc n)
      → IsCut hunks (with_tail kept (get_hunk hunks (length kept.head + n))) n
  last_hunk kept n (m, e, l) =
      let (i, x, q, k) = split_last m n l in
      let cut : hunks ≡ (kept.head ++ i) ++ x ∷ kept.tail =
        e
        ∙ ap (λ z. kept.head ++ (z ++ kept.tail)) q
        ∙ ap (λ z. kept.head ++ z) (append_assoc i (x ∷ []) kept.tail)
        ∙ sym (append_assoc kept.head i (x ∷ kept.tail)) in
      let last : get_hunk hunks (length kept.head + n) ≡ x =
        ap (λ hs. get_hunk hs (length kept.head + n)) cut
        ∙ ap (get_hunk ((kept.head ++ i) ++ x ∷ kept.tail))
            (omega (arith, length-append kept.head i))
        ∙ get_hunk-append (kept.head ++ i) x kept.tail in
      rw last (i, cut ∙ append_assoc kept.head i (x ∷ kept.tail), k)

  cost-cut :
      (kept : Kept) (n : ℕ) → IsCut hunks kept n → cost kept.head + cost kept.tail ≤ cost hunks
  cost-cut kept n (m, e, l) =
      omega (arith, ap cost e, cost-append kept.head (m ++ kept.tail), cost-append m kept.tail)

  with_head-IsWithin :
      (kept : Kept) (h : List String) (n m : ℕ)
      → IsWithin hunks budget kept m
      → IsCut hunks (with_head kept h) n
      → next_used kept h ≤ budget
      → IsWithin hunks budget (with_head kept h) n
  with_head-IsWithin kept h n m w c fits = record {
    cut = c;
    fits = fits;
    counted = omega (arith, w.counted, cost-append kept.head (h ∷ []));
  }

  with_tail-IsWithin :
      (kept : Kept) (h : List String) (n m : ℕ)
      → IsWithin hunks budget kept m
      → IsCut hunks (with_tail kept h) n
      → next_used kept h ≤ budget
      → IsWithin hunks budget (with_tail kept h) n
  with_tail-IsWithin kept h n m w c fits = record {
    cut = c;
    fits = fits;
    counted = omega (arith, w.counted);
  }

  -- The hunks left in between when the loop stops; one is left only because the next hunk did not
  -- fit.
  keep_loop-IsWithin :
      (n : ℕ) (take_head : Bool) (kept : Kept)
      → IsWithin hunks budget kept n
      → (m : ℕ) × IsWithin hunks budget
          (keep_loop hunks budget n (length kept.head) take_head kept)
          m
        × (0 < m → budget < cost hunks)
  unfolding keep_loop
  keep_loop-IsWithin zero take_head kept w = (0, w, λ h. absurd (omega arith))
  keep_loop-IsWithin (suc n) true kept w =
      let h = get_hunk hunks (length kept.head) in
      let c = first_hunk kept n w.cut in
      elim (Bool-cases (ltb budget (next_used kept h))) [
        | inl full ↦ rw full (
          suc n,
          w,
          λ _. omega (
            arith,
            w.counted,
            ltb→lt _ _ full,
            cost-cut (with_head kept h) n c,
            cost-append kept.head (h ∷ []),
          ),
        )
        | inr room ↦
            let next =
              keep_loop-IsWithin n false (with_head kept h)
                (with_head-IsWithin kept h n (suc n) w c (ground arith)) in
            rw room (rw (length-append kept.head (h ∷ [])) at next)
      ]
  keep_loop-IsWithin (suc n) false kept w =
      let h = get_hunk hunks (length kept.head + n) in
      let c = last_hunk kept n w.cut in
      elim (Bool-cases (ltb budget (next_used kept h))) [
        | inl full ↦ rw full (
          suc n,
          w,
          λ _. omega (arith, w.counted, ltb→lt _ _ full, cost-cut (with_tail kept h) n c),
        )
        | inr room ↦ rw room (
            keep_loop-IsWithin n true (with_tail kept h)
              (with_tail-IsWithin kept h n (suc n) w c (ground arith)))
      ]

abbrev pub nothing_kept : Kept
nothing_kept = record { head = []; tail = []; used = 0 }

-- The trimming keeps whole hunks: a stretch from the start and a stretch from the end, in their
-- order, at most the budget in length, and it leaves hunks out between them only if all of them
-- together are longer than the budget.
pub keep_loop_lem :
    (hunks : List (List String)) (budget : ℕ)
    → let kept = keep_loop hunks budget (length hunks) 0 true nothing_kept in
      (omitted : List (List String)) × (hunks ≡ kept.head ++ (omitted ++ kept.tail))
      × (length omitted ≡ length hunks - length kept.head - length kept.tail)
      × (cost kept.head + cost kept.tail ≤ budget)
      × (cost hunks ≤ budget → omitted ≡ [])
keep_loop_lem hunks budget =
    let start : IsWithin hunks budget nothing_kept (length hunks) = record {
      cut = (hunks, sym (append-nil hunks), refl);
      fits = omega arith;
      counted = refl;
    } in
    let (m, w, left) = keep_loop-IsWithin hunks budget (length hunks) true nothing_kept start in
    let (omitted, e, l) = w.cut in
    let kept = keep_loop hunks budget (length hunks) 0 true nothing_kept in
    (
      omitted,
      e,
      omega (
        arith,
        ap length e,
        length-append kept.head (omitted ++ kept.tail),
        length-append omitted kept.tail,
      ),
      omega (arith, w.fits, w.counted),
      λ fits. nil_of_length omitted (l ∙ none_left m budget (cost hunks) left fits),
    )
