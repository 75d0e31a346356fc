-- ===== src/Evidence/Written.antt =====
-- `render_manifest_v2` writes the fields of the schema, and they are read back.
use truthpage.Prelude.{
  >>=-eq-ok, All-sort_by, Bool-cases, List, Option, Option-cases, String, [], ap, arith, inl, inr,
  is_break, is_space, join_with, lower, map, none, ok, or_unchanged, refl, show, some, strip, subst,
  sym, ◌++◌, ◌∙◌, ◌∷◌, ◌≡◌,
}
use truthpage.Platform.{Platform}
use truthpage.ChangeEvent.{
  ChangeEvent, ReviewAction, auto_published_cosmetic, notice_released_by_reviewer,
}
use truthpage.Evidence.{
  assert_no_forbidden_terms, first_term, forbidden_manifest_terms, is_objection_status,
  validate_objection_status, validate_review_action,
}
use truthpage.Evidence.Manifest.{
  Dossier, Variant, by_name, content_line, field, is_positive, is_timestamped, manifest_lines,
  notification_section, objection_status_of, objection_window_section, opening_lines,
  render_manifest_v2, review_section, review_word, timestamp_section, window_fields,
}
use truthpage.Evidence.Parse.{detect_manifest_version, parse_manifest_v2, read_line, search_version}
use truthpage.Evidence.RoundTrip.{
  AllValues, AllWords, Prints, Prints-append, done, entry, parse-Prints, prose,
}
use truthpage.Evidence.Schema.{
  notification_fields, opening_fields, review_fields, schema_fields, timestamp_fields,
  window_fields_of,
}

review_word-valid :
    (action : Option ReviewAction)
    → validate_review_action (review_word action) ≡ ok (review_word action)
unfolding validate_review_action
review_word-valid none = refl
review_word-valid (some notice_released_by_reviewer) = refl
review_word-valid (some auto_published_cosmetic) = refl

validate_objection_status-ok :
    (text status : String) → validate_objection_status text ≡ ok status → text ≡ status
unfolding validate_objection_status
validate_objection_status-ok text status valid = elim (Bool-cases (is_objection_status text)) [
  | inl e ↦ ap (or_unchanged text) (rw e at valid)
  | inr e ↦ absurd (ground arith)
]

assert_no_forbidden_terms-ok :
    (text kept : String) → assert_no_forbidden_terms text ≡ ok kept → text ≡ kept
unfolding assert_no_forbidden_terms
assert_no_forbidden_terms-ok text kept clean =
    elim (Option-cases (first_term (lower text) forbidden_manifest_terms)) [
      | inl e ↦ ap (or_unchanged text) (rw (assert_no_forbidden_terms, e) at clean)
      | inr (term, e) ↦ absurd (ground arith)
    ]

by_name-AllWords : (files : List (String × String)) → AllWords files → AllWords (by_name files)
unfolding by_name
by_name-AllWords = All-sort_by _ _

module _ (os : Platform) (d : Dossier) where
  opening-Prints : Prints (opening_lines os d) (opening_fields os d)
  unfolding opening_lines read_line strip is_space is_break
  opening-Prints =
      prose (λ p. refl) refl
        (entry refl (
          entry refl (
            entry refl (
              prose (λ p. refl) refl
                (prose (λ p. refl) refl
                  (prose (λ p. refl) refl
                    (prose (λ p. refl) refl
                      (prose (λ p. refl) refl
                        (prose (λ p. refl) refl
                          (entry refl (
                            entry refl (
                              entry refl (
                                entry refl (
                                  entry refl (
                                    prose (λ p. refl) refl
                                      (prose (λ p. refl) refl
                                        (entry refl (
                                          entry refl (
                                            entry refl (
                                              entry refl (
                                                entry refl (
                                                  entry refl (
                                                    prose (λ p. refl) refl
                                                      (prose (λ p. refl) refl
                                                        (entry refl (
                                                          entry refl (
                                                            entry refl (
                                                            entry refl (
                                                            entry refl (
                                                            entry refl (
                                                            entry refl (
                                                            entry refl (
                                                            entry refl (
                                                            entry refl (
                                                            entry refl (
                                                            prose (λ p. refl) refl
                                                            (done)))))))))))))))))))))))))))))))))))))

  timestamp-Prints :
      (event : ChangeEvent) → Prints (timestamp_section os event) (timestamp_fields os d event)
  unfolding timestamp_section is_space
  timestamp-Prints event = elim (Bool-cases (is_timestamped event.timestamp_status)) [
    | inl e ↦ rw e (entry refl (entry refl (entry refl (entry refl (entry refl done)))))
    | inr e ↦ rw e (entry refl (entry refl (entry refl (entry refl (entry refl done)))))
  ]

  review_section-ok :
      (event : ChangeEvent)
      → (lines : List String) × (review_section os event ≡ ok lines)
        × Prints lines (review_fields os d event)
  unfolding review_section is_space
  review_section-ok event = (
    _,
    rw (review_word-valid event.review_action) refl,
    entry refl (entry refl (entry refl (entry refl done))),
  )

  notification-Prints :
      (variant : Variant)
      → Prints (notification_section os d variant) (notification_fields os d variant)
  unfolding notification_section is_space
  notification-Prints variant = elim (Bool-cases (is_positive d.event.recipient_count)) [
    | inl e ↦ rw e (
        entry refl
          (entry refl (entry refl (entry refl (entry refl (entry refl (entry refl done)))))))
    | inr e ↦ rw e (
        entry refl
          (entry refl (entry refl (entry refl (entry refl (entry refl (entry refl done)))))))
  ]

  window_lines-Prints :
      (status : String)
      → objection_status_of os d ≡ status
      → Prints
          (window_fields os d d.event.window_days ++ field "objection_status" status ∷ [])
          (window_fields_of os d)
  unfolding window_fields is_space
  window_lines-Prints status same = rw (← same) (elim (Option-cases d.event.window_days) [
    | inl e ↦ rw e (entry refl (entry refl (entry refl (entry refl (entry refl done)))))
    | inr (n, e) ↦ rw e (entry refl (entry refl (entry refl (entry refl (entry refl done)))))
  ])

  objection_window-Prints :
      (lines : List String)
      → objection_window_section os d ≡ ok lines
      → Prints lines (window_fields_of os d)
  unfolding objection_window_section
  objection_window-Prints lines returned =
      let (status, valid, same) =
        >>=-eq-ok (validate_objection_status (objection_status_of os d)) _ returned in
      subst (λ ls. Prints ls (window_fields_of os d)) (ap (or_unchanged lines) same)
        (window_lines-Prints status (validate_objection_status-ok _ status valid))

  -- The lines of a manifest hold the fields of the schema.
  manifest-Prints :
      (variant : Variant) {review window : List String}
      → Prints review (review_fields os d d.event)
      → Prints window (window_fields_of os d)
      → Prints (manifest_lines os d variant review window) (schema_fields os d variant)
  unfolding manifest_lines schema_fields read_line strip is_space is_break
  manifest-Prints variant reviewed opened = Prints-append opening-Prints (
      prose (λ p. refl) refl
        (Prints-append (timestamp-Prints d.event) (
          entry refl (
            prose (λ p. refl) refl
              (prose (λ p. refl) refl
                (Prints-append reviewed (
                  prose (λ p. refl) refl
                    (prose (λ p. refl) refl
                      (Prints-append (notification-Prints variant) (
                        prose (λ p. refl) refl
                          (prose (λ p. refl) refl
                            (Prints-append opened (prose (λ p. refl) refl done)))))))))))))

  abbrev manifest_text : Variant → List (String × String) → List String → List String → String
  manifest_text variant files review window = join_with "\n" (
      (manifest_lines os d variant review window
        ++ "[PACK CONTENTS]" ∷ map content_line (by_name files))
      ++ "" ∷ [])

  -- A manifest that was rendered is a text of lines that hold the schema.
  pub render_manifest-ok :
      (files : List (String × String)) (variant : Variant) (text : String)
      → render_manifest_v2 os d files variant ≡ ok text
      → (review : List String) × (window : List String) × Prints
          (manifest_lines os d variant review window)
          (schema_fields os d variant)
        × (manifest_text variant files review window ≡ text)
  unfolding render_manifest_v2
  render_manifest-ok files variant text returned =
      let (review, e, reviewed) = review_section-ok d.event in
      let (window, opened, kept) = >>=-eq-ok (objection_window_section os d) _ (rw e at returned) in
      (
        review,
        window,
        manifest-Prints variant reviewed (objection_window-Prints window opened),
        assert_no_forbidden_terms-ok _ text kept,
      )

  -- A manifest is read back: every field of the schema with its value, in order, and every file with
  -- its digest, in the order of their names. This is under two conditions: a value fits on one line
  -- without a blank at its ends; a name and a digest are each one word, not empty, that starts neither
  -- with "[", as a heading does, nor with "T", as the title does.
  pub parse-render_manifest_v2 :
      (files : List (String × String)) (variant : Variant) (text : String)
      → AllValues (schema_fields os d variant)
      → AllWords files
      → render_manifest_v2 os d files variant ≡ ok text
      → parse_manifest_v2 text
        ≡ record { fields = schema_fields os d variant; pack_contents = by_name files }
  parse-render_manifest_v2 files variant text values words returned =
      let (review, window, writes, same) = render_manifest-ok files variant text returned in
      ap parse_manifest_v2 (sym same)
      ∙ parse-Prints (by_name files) writes values (by_name-AllWords files words)

  -- A rendered manifest is one of version 2.
  pub detect-render_manifest_v2 :
      (files : List (String × String)) (variant : Variant) (text : String)
      → render_manifest_v2 os d files variant ≡ ok text
      → detect_manifest_version text ≡ 2
  unfolding detect_manifest_version search_version manifest_lines opening_lines field show is_space
  detect-render_manifest_v2 files variant text returned =
      let (review, window, writes, same) = render_manifest-ok files variant text returned in
      ap detect_manifest_version (sym same) ∙ refl
