-- ===== src/Notification/Counts.antt =====
-- The two counts of the manifest.
use truthpage.Prelude.{List, [], arith, count, if◌then◌else◌, length, ℕ, ◌+◌, ◌∷◌, ◌≡◌, ◌≤◌}
use truthpage.Notification.{
  DeliveryStatus, NotificationDeliveryEvent, NotificationRecipient, derive_recipient_status,
  is_delivered, is_gap, summarize_loop, summarize_recipients,
}

abbrev pub status_of : NotificationRecipient × List NotificationDeliveryEvent → DeliveryStatus
status_of (r, events) = derive_recipient_status r events

summarize_loop-count :
    (rs : List (NotificationRecipient × List NotificationDeliveryEvent)) (d g : ℕ)
    → let s = summarize_loop rs d g in
      (s.delivered_count ≡ d + count (λ r. is_delivered (status_of r)) rs)
      × (s.bounced_count ≡ g + count (λ r. is_gap (status_of r)) rs)
unfolding summarize_loop
summarize_loop-count [] d g = omega arith
summarize_loop-count ((r, events) ∷ rest) d g =
    let status = derive_recipient_status r events in
    ground (
      arith,
      summarize_loop-count rest (if is_delivered status then d + 1 else d)
          (if is_delivered status then g else if is_gap status then g + 1 else g),
    )

count_exclusive :
    (rs : List (NotificationRecipient × List NotificationDeliveryEvent))
    → count (λ r. is_delivered (status_of r)) rs + count (λ r. is_gap (status_of r)) rs ≤ length rs
count_exclusive [] = omega arith
count_exclusive ((r, events) ∷ rest) = ground (arith, count_exclusive rest)

-- The manifest counts the recipients whose status is delivered and those whose status is a gap, and
-- no recipient is counted twice.
pub summarize_recipients_lem :
    (rs : List (NotificationRecipient × List NotificationDeliveryEvent))
    → let s = summarize_recipients rs in
      (s.delivered_count ≡ count (λ r. is_delivered (status_of r)) rs)
      × (s.bounced_count ≡ count (λ r. is_gap (status_of r)) rs)
      × (s.delivered_count + s.bounced_count ≤ length rs)
unfolding summarize_recipients
summarize_recipients_lem rs = omega (arith, summarize_loop-count rs 0 0, count_exclusive rs)
