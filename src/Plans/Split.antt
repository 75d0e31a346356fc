-- ===== src/Plans/Split.antt =====
-- What `free_plan_split` keeps and what it drops.
use truthpage.Prelude.{
  All, All-append, All-map, Bool, Bool-cases, List, [], arith, count, count-append, false, if_ind,
  inl, inr, length, length-append, ltb, min, not, refl, true, ℕ, ◌++◌, ◌+◌, ◌<◌, ◌∷◌, ◌≡◌, ◌≤◌, ◌⊎◌,
}
use truthpage.Subprocessor.{Subprocessor}
use truthpage.Plans.{older, insert, sorted, split_loop, free_plan_split}

abbrev pub enabled : Subprocessor → Bool
enabled sp = sp.monitoring_enabled

count-insert :
    (p : Subprocessor → Bool) (sp : Subprocessor) (xs : List Subprocessor)
    → count p (insert sp xs) ≡ count p (sp ∷ xs)
unfolding insert
count-insert p sp [] = refl
count-insert p sp (x ∷ xs) = ground (arith, count-insert p sp xs)

pub count-sorted :
    (p : Subprocessor → Bool) (xs : List Subprocessor) → count p (sorted xs) ≡ count p xs
unfolding sorted
count-sorted p [] = refl
count-sorted p (x ∷ xs) = omega (arith, count-insert p x (sorted xs), count-sorted p xs)

count-split_loop :
    (p : Subprocessor → Bool) (limit : ℕ) (xs kept dropped : List Subprocessor)
    → let (k, d) = split_loop limit xs kept dropped in
      count p k + count p d ≡ count p xs + count p kept + count p dropped
unfolding split_loop
count-split_loop p limit [] kept dropped = omega arith
count-split_loop p limit (x ∷ xs) kept dropped = ground (
  arith,
  count-split_loop p limit xs (kept ++ x ∷ []) dropped,
  count-split_loop p limit xs kept (dropped ++ x ∷ []),
  count-append p kept (x ∷ []),
  count-append p dropped (x ∷ []),
)

-- Every page is kept or dropped, once: each test passes as often in the two parts as in the whole.
pub count-free_plan_split :
    (p : Subprocessor → Bool) (sps : List Subprocessor) (limit : ℕ)
    → let (kept, dropped) = free_plan_split sps limit in
      count p kept + count p dropped ≡ count p sps
unfolding free_plan_split
count-free_plan_split p sps limit =
    omega (arith, count-split_loop p limit (sorted sps) [] [], count-sorted p sps)

length-split_loop :
    (limit : ℕ) (xs kept dropped : List Subprocessor)
    → length kept ≤ limit
    → length (split_loop limit xs kept dropped).0 ≡ min limit (length kept + count enabled xs)
unfolding split_loop
length-split_loop limit [] kept dropped h = omega arith
length-split_loop limit (x ∷ xs) kept dropped h = ground (
  arith,
  length-split_loop limit xs (kept ++ x ∷ []) dropped,
  length-split_loop limit xs kept (dropped ++ x ∷ []),
  length-append kept (x ∷ []),
)

-- As many pages are kept as the limit and the number of enabled pages allow.
pub length-free_plan_split :
    (sps : List Subprocessor) (limit : ℕ)
    → length (free_plan_split sps limit).0 ≡ min limit (count enabled sps)
unfolding free_plan_split
length-free_plan_split sps limit =
    omega (arith, length-split_loop limit (sorted sps) [] [], count-sorted enabled sps)

abbrev Enabled : List Subprocessor → Type 0
Enabled = All (λ sp. sp.monitoring_enabled ≡ true)

Enabled-split_loop :
    (limit : ℕ) (xs kept dropped : List Subprocessor)
    → Enabled kept
    → Enabled (split_loop limit xs kept dropped).0
unfolding split_loop
Enabled-split_loop limit [] kept dropped h = h
Enabled-split_loop limit (x ∷ xs) kept dropped h =
    if_ind (λ (r : List Subprocessor × List Subprocessor). Enabled r.0) (not x.monitoring_enabled)
      (λ off. Enabled-split_loop limit xs kept (dropped ++ x ∷ []) h)
      λ on.
        if_ind (λ (r : List Subprocessor × List Subprocessor). Enabled r.0)
          (ltb (length kept) limit)
          (λ room.
            Enabled-split_loop limit xs (kept ++ x ∷ []) dropped
              (All-append (λ sp. sp.monitoring_enabled ≡ true) kept (x ∷ []) h (ground arith, tt)))
          (λ full. Enabled-split_loop limit xs kept (dropped ++ x ∷ []) h)

-- A page that its tenant had switched off is never kept.
pub Enabled-free_plan_split :
    (sps : List Subprocessor) (limit : ℕ) → Enabled (free_plan_split sps limit).0
unfolding free_plan_split
Enabled-free_plan_split sps limit = Enabled-split_loop limit (sorted sps) [] [] tt

pub count-eq-length_of_Enabled :
    (xs : List Subprocessor) → Enabled xs → count enabled xs ≡ length xs
count-eq-length_of_Enabled [] h = refl
count-eq-length_of_Enabled (x ∷ xs) h = ground (arith, count-eq-length_of_Enabled xs h.1)

-- `x` is at least as old as each of a list.
abbrev pub OlderThan : Subprocessor → List Subprocessor → Type 0
OlderThan x = All (λ y. older x y ≡ true)

abbrev IsSorted : List Subprocessor → Type 0
IsSorted [] = Unit
IsSorted (x ∷ xs) = OlderThan x xs × IsSorted xs

older_trans : (a b c : Subprocessor) → older a b ≡ true → older b c ≡ true → older a c ≡ true
unfolding older
older_trans a b c h k = ground arith

older_total : (a b : Subprocessor) → older a b ≡ false → older b a ≡ true
unfolding older
older_total a b h = ground arith

OlderThan-trans :
    (a b : Subprocessor) (xs : List Subprocessor)
    → older a b ≡ true
    → OlderThan b xs
    → OlderThan a xs
OlderThan-trans a b [] h k = tt
OlderThan-trans a b (x ∷ xs) h k = (older_trans a b x h k.0, OlderThan-trans a b xs h k.1)

OlderThan-insert :
    (a sp : Subprocessor) (xs : List Subprocessor)
    → older a sp ≡ true
    → OlderThan a xs
    → OlderThan a (insert sp xs)
unfolding insert
OlderThan-insert a sp [] h k = (h, tt)
OlderThan-insert a sp (x ∷ xs) h k = elim (Bool-cases (older sp x)) [
  | inl e ↦ rw e (h, k)
  | inr e ↦ rw e (k.0, OlderThan-insert a sp xs h k.1)
]

IsSorted-insert :
    (sp : Subprocessor) (xs : List Subprocessor) → IsSorted xs → IsSorted (insert sp xs)
unfolding insert
IsSorted-insert sp [] s = (tt, tt)
IsSorted-insert sp (x ∷ xs) s = elim (Bool-cases (older sp x)) [
  | inl e ↦ rw e ((e, OlderThan-trans sp x xs e s.0), s)
  | inr e ↦ rw e (OlderThan-insert x sp xs (older_total sp x e) s.0, IsSorted-insert sp xs s.1)
]

IsSorted-sorted : (xs : List Subprocessor) → IsSorted (sorted xs)
unfolding sorted
IsSorted-sorted [] = tt
IsSorted-sorted (x ∷ xs) = IsSorted-insert x (sorted xs) (IsSorted-sorted xs)

-- No dropped page that was enabled comes before a kept one in the order of the program.
abbrev KeepsOlder : List Subprocessor × List Subprocessor → Type 0
KeepsOlder (kept, dropped) =
    All (λ k. All (λ d. d.monitoring_enabled ≡ true → older k d ≡ true) dropped) kept

abbrev Disabled : List Subprocessor → Type 0
Disabled = All (λ sp. sp.monitoring_enabled ≡ false)

drop-KeepsOlder :
    (x : Subprocessor) (xs kept dropped : List Subprocessor)
    → All (λ k. OlderThan k (x ∷ xs)) kept
    → KeepsOlder (kept, dropped)
    → KeepsOlder (kept, dropped ++ x ∷ [])
drop-KeepsOlder x xs [] dropped o h = tt
drop-KeepsOlder x xs (k ∷ kept) dropped o h = (
  All-append (λ d. d.monitoring_enabled ≡ true → older k d ≡ true) dropped (x ∷ []) h.0
      ((λ e. o.0.0), tt),
  drop-KeepsOlder x xs kept dropped o.1 h.1,
)

room-KeepsOlder :
    (x : Subprocessor) (dropped : List Subprocessor)
    → Disabled dropped
    → All (λ d. d.monitoring_enabled ≡ true → older x d ≡ true) dropped
room-KeepsOlder x dropped =
    All-map (λ d. d.monitoring_enabled ≡ false)
      (λ d. d.monitoring_enabled ≡ true → older x d ≡ true) dropped (λ d off on. cc)

split_loop-KeepsOlder :
    (limit : ℕ) (xs kept dropped : List Subprocessor)
    → IsSorted xs
    → All (λ k. OlderThan k xs) kept
    → KeepsOlder (kept, dropped)
    → (ltb (length kept) limit ≡ true → Disabled dropped)
    → KeepsOlder (split_loop limit xs kept dropped)
unfolding split_loop
split_loop-KeepsOlder limit [] kept dropped s o h r = h
split_loop-KeepsOlder limit (x ∷ xs) kept dropped s o h r =
    if_ind KeepsOlder (not x.monitoring_enabled)
      (λ off.
        split_loop-KeepsOlder limit xs kept (dropped ++ x ∷ []) s.1 older_rest dropping (λ room.
          All-append (λ sp. sp.monitoring_enabled ≡ false) dropped (x ∷ []) (r room)
            (ground arith, tt)))
      λ on.
        if_ind KeepsOlder (ltb (length kept) limit)
          (λ room.
            split_loop-KeepsOlder limit xs (kept ++ x ∷ []) dropped s.1
              (All-append (λ k. OlderThan k xs) kept (x ∷ []) older_rest (s.0, tt))
              (All-append (λ k. All (λ d. d.monitoring_enabled ≡ true → older k d ≡ true) dropped)
                kept (x ∷ []) h (room-KeepsOlder x dropped (r room), tt))
              (λ _. r room))
          (λ full.
            split_loop-KeepsOlder limit xs kept (dropped ++ x ∷ []) s.1 older_rest dropping
              (λ room. cc))
  where
    dropping : KeepsOlder (kept, dropped ++ x ∷ [])
    dropping = drop-KeepsOlder x xs kept dropped o h

    older_rest : All (λ k. OlderThan k xs) kept
    older_rest = All-map (λ k. OlderThan k (x ∷ xs)) (λ k. OlderThan k xs) kept (λ k p. p.1) o

-- The page `a` was created before `b`, or at the same moment and its id is not the greater one.
abbrev pub IsOlder : Subprocessor → Subprocessor → Type 0
IsOlder a b = (a.created_at < b.created_at) ⊎ ((a.created_at ≡ b.created_at) × (a.id ≤ b.id))

older-IsOlder : (a b : Subprocessor) → older a b ≡ true → IsOlder a b
unfolding older
older-IsOlder a b h = ground arith

-- Every kept page is older than every dropped one that was enabled.
abbrev pub KeepsOldest : List Subprocessor × List Subprocessor → Type 0
KeepsOldest (kept, dropped) =
    All (λ k. All (λ d. d.monitoring_enabled ≡ true → IsOlder k d) dropped) kept

KeepsOldest-of_older :
    (kept dropped : List Subprocessor) → KeepsOlder (kept, dropped) → KeepsOldest (kept, dropped)
KeepsOldest-of_older kept dropped =
    All-map (λ k. All (λ d. d.monitoring_enabled ≡ true → older k d ≡ true) dropped)
      (λ k. All (λ d. d.monitoring_enabled ≡ true → IsOlder k d) dropped) kept
      λ k.
        All-map (λ d. d.monitoring_enabled ≡ true → older k d ≡ true)
          (λ d. d.monitoring_enabled ≡ true → IsOlder k d) dropped
          λ d before on. older-IsOlder k d (before on)

-- Oldest first: a page that is kept was created before each page that was enabled and is dropped, or
-- at the same moment with a smaller id or the same.
pub free_plan_split-KeepsOldest :
    (sps : List Subprocessor) (limit : ℕ) → KeepsOldest (free_plan_split sps limit)
unfolding free_plan_split
free_plan_split-KeepsOldest sps limit =
    KeepsOldest-of_older _ _
      (split_loop-KeepsOlder limit (sorted sps) [] [] (IsSorted-sorted sps) tt tt (λ _. tt))
