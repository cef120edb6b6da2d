-- ===== src/Notifier/Attention.antt =====
-- What pages and what is tallied, and how long a quoted question is.
use omegahive.Base.{
  ℕ, zero, suc, ◌+◌, ◌≤◌, String, ◌≡◌, refl, ap, subst, ◌↔◌, ◌⊎◌, inl, inr, Bool, true, false,
  Option, none, some, [], ◌∷◌, arith, leb, if◌then◌else◌, is_some, Bool-cases, text_length,
  is_empty, split_lines, cut,
}
use omegahive.Board.Legality.{fits}
use omegahive.Events.Envelope.{
  EventType, task_status_override, question_asked, task_reported, execution_finished, Event,
}
use omegahive.Events.Json.{Payload}
use omegahive.Notifier.Heartbeat.{tally_key}
use omegahive.Notifier.Triggers.{
  trigger, question_chars, Notification, first_stripped, bounded, first_line, text_in, is_gated_out,
  notification_from,
}

abbrev pub label_of : Option Notification → Option String
label_of none = none
label_of (some n) = some n.label

-- The label that an event pages under, from its type and payload.
abbrev page_label : EventType → Payload → Option String
page_label t p = elim (trigger t) [
  | none ↦ none
  | some (label, glyph) ↦ if is_gated_out t p then none else some label
]

notification_from-label :
    (ev : Event) → label_of (notification_from ev) ≡ page_label ev.event_type ev.payload
unfolding notification_from
notification_from-label ev = ground arith

-- The two newest triggers.
abbrev pub IsUncounted : EventType → Payload → Type 0
IsUncounted t p =
    (t ≡ question_asked)
    ⊎ ((t ≡ task_status_override) × (text_in "status" ("cancelled" ∷ []) p ≡ true))

page_label-IsUncounted :
    (t : EventType) (p : Payload)
    → ((is_some (page_label t p) ≡ true) × (tally_key t p ≡ none)) ↔ IsUncounted t p
unfolding tally_key trigger is_gated_out
page_label-IsUncounted question_asked p = (λ h. inl refl, λ h. (refl, refl))
page_label-IsUncounted task_status_override p = ground arith
page_label-IsUncounted task_reported p = ground arith
page_label-IsUncounted execution_finished p = ground arith
page_label-IsUncounted t p = ground arith

tallied-page_label :
    (t : EventType) (p : Payload) (key : String)
    → tally_key t p ≡ some key
    → page_label t p ≡ some key
unfolding tally_key trigger is_gated_out
tallied-page_label task_reported p key e = ground arith
tallied-page_label execution_finished p key e = ground arith
tallied-page_label question_asked p key e = absurd (ground arith)
tallied-page_label task_status_override p key e = absurd (ground arith)
tallied-page_label _ p key e = e

-- Whatever is tallied pages, under the label of its tally; and the events that page and are in no
-- tally are exactly the questions asked and the status overrides that cancel.
pub notification_from-IsUncounted :
    (ev : Event)
    → ((key : String)
        → tally_key ev.event_type ev.payload ≡ some key
        → label_of (notification_from ev) ≡ some key)
      × (((is_some (label_of (notification_from ev)) ≡ true)
            × (tally_key ev.event_type ev.payload ≡ none))
          ↔ IsUncounted ev.event_type ev.payload)
notification_from-IsUncounted ev =
    rw (notification_from-label ev)
      (tallied-page_label ev.event_type ev.payload, page_label-IsUncounted ev.event_type ev.payload)

text_length-cut_le : (n : ℕ) (tail s : String) → text_length (cut n tail s) ≤ n + text_length tail
unfolding text_length cut
text_length-cut_le zero tail s = omega arith
text_length-cut_le (suc n) tail String.[] = omega arith
text_length-cut_le (suc n) tail (String.◌∷◌ c s) = omega (arith, text_length-cut_le n tail s)

not_empty : (s : String) → is_empty s ≡ false → 1 ≤ text_length s
unfolding text_length
not_empty String.[] h = absurd (ground arith)
not_empty (String.◌∷◌ c s) h = omega arith

abbrev IsBounded : String → Type 0
IsBounded s = (1 ≤ text_length s) × (text_length s ≤ 140)

-- What is kept of a long line: 139 characters and the ellipsis.
text_length-cut_ellipsis : (n : ℕ) (s : String) → text_length (cut n "…" s) ≤ n + 1
unfolding text_length
text_length-cut_ellipsis n s = text_length-cut_le n "…" s

not_empty-cut : (n : ℕ) (s : String) → 1 ≤ text_length (cut n "…" s)
unfolding text_length cut
not_empty-cut zero s = omega arith
not_empty-cut (suc n) String.[] = omega arith
not_empty-cut (suc n) (String.◌∷◌ c s) = omega (arith, not_empty-cut n s)

bounded-IsBounded : (s : String) → is_empty s ≡ false → IsBounded (bounded s)
bounded-IsBounded s h = elim (Bool-cases (leb (text_length s) question_chars)) [
  | inl fits ↦ rw fits (not_empty s h, ground arith)
  | inr long ↦ rw long (not_empty-cut 139 s, text_length-cut_ellipsis 139 s)
]

line_or_none-IsBounded :
    (found line : String) (b : Bool)
    → is_empty found ≡ b
    → (if b then none else some (bounded found)) ≡ some line
    → IsBounded line
line_or_none-IsBounded found line true h e = absurd (ground arith)
line_or_none-IsBounded found line false h e =
    subst IsBounded (ap (λ o. elim o [ none ↦ "" | some l ↦ l ]) e) (bounded-IsBounded found h)

-- A quoted question is at most 140 characters, and never empty.
pub first_line-bounds :
    (body line : String)
    → first_line (some body) ≡ some line
    → (1 ≤ text_length line) × (text_length line ≤ 140)
unfolding first_line
first_line-bounds body line e =
    let found = first_stripped (split_lines body) in
    line_or_none-IsBounded found line (is_empty found) refl e
