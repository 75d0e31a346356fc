-- ===== src/Verify/Guard.antt =====
-- `_zip_bomb_guard`: what an archive that is read can unpack to.
use truthpage.Prelude.{All, List, [], arith, length, none, refl, ℕ, ◌+◌, ◌↔◌, ◌∷◌, ◌≡◌, ◌≤◌}
use truthpage.Platform.{Member}
use truthpage.Verify.{
  guard_loop, max_single_entry_bytes, max_zip_uncompressed_bytes, zip_bomb_guard,
}

-- The size of an archive when it is unpacked.
abbrev pub total_size : List Member → ℕ
total_size [] = 0
total_size (info ∷ infos) = info.file_size + total_size infos

abbrev pub AllSmall : List Member → Type 0
AllSmall infos = All (λ info. info.file_size ≤ max_single_entry_bytes) infos

guard_loop-step :
    (info : Member) (infos : List Member) (total : ℕ)
    → guard_loop total (info ∷ infos) ≡ none
    → (info.file_size ≤ max_single_entry_bytes)
      × ((total + info.file_size ≤ max_zip_uncompressed_bytes)
          × (guard_loop (total + info.file_size) infos ≡ none))
unfolding guard_loop
guard_loop-step info infos total passed = (ground arith, (ground arith, ground arith))

guard_loop-none :
    (infos : List Member) (total : ℕ)
    → guard_loop total infos ≡ none
    → total ≤ max_zip_uncompressed_bytes
    → AllSmall infos × (total + total_size infos ≤ max_zip_uncompressed_bytes)
unfolding guard_loop
guard_loop-none [] total passed small = (tt, omega arith)
guard_loop-none (info ∷ infos) total passed small =
    let (one, (below, rest)) = guard_loop-step info infos total passed in
    let (all, sum) = guard_loop-none infos (total + info.file_size) rest below in
    ((one, all), omega arith)

guard_loop-small :
    (infos : List Member) (total : ℕ)
    → AllSmall infos
    → total + total_size infos ≤ max_zip_uncompressed_bytes
    → guard_loop total infos ≡ none
unfolding guard_loop
guard_loop-small [] total all small = refl
guard_loop-small (info ∷ infos) total (one, all) small =
    ground (arith, guard_loop-small infos (total + info.file_size) all)

-- An archive is read just when it has at most 100 members, none unpacks to more than 20 MB, and all
-- of them together unpack to at most 50 MB.
pub zip_bomb_guard_lem :
    (infos : List Member)
    → (zip_bomb_guard infos ≡ none)
      ↔ ((length infos ≤ 100) × (AllSmall infos × (total_size infos ≤ max_zip_uncompressed_bytes)))
unfolding zip_bomb_guard
zip_bomb_guard_lem infos = (
  (λ passed.
      let rest : guard_loop 0 infos ≡ none = ground arith in
      let (all, sum) = guard_loop-none infos 0 rest (omega arith) in
      (ground arith, (all, omega arith))),
  (λ (few, (all, small)). ground (arith, guard_loop-small infos 0 all (omega arith))),
)
