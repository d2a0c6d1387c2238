-- ===== src/Control/Settle.antt =====
-- When a tracked movement ends, and what a position report may change.
use gdo_blaq_homekit.Prelude.{
  ℕ, ◌+◌, ◌^◌, ◌≤◌, ◌<◌, ◌≡◌, ◌≢◌, ◌⊎◌, inl, inr, refl, sym, subst, ◌∙◌, Bool, Bool-cases, true,
  false, not, ◌&&◌, Option, some, if◌then◌else◌, ◌==◌, arith,
}
use gdo_blaq_homekit.Prelude.Int.{ℤ}
use gdo_blaq_homekit.Opener.{
  Status, DoorState, opened, closed, stopped, unset, same_door, raw_position,
}
use gdo_blaq_homekit.Control.{Control, reset_rx_errors, emit}
use gdo_blaq_homekit.Control.Door.{
  record_change, track_open, set_last_door_state, push_target_v1, push_transition, push_target_v2,
  start_transition, end_transition, track_transition, show_movement, settle_target,
  confirmed_by_raw, end_of, update_homekit, inferred, process_door_position,
}
use gdo_blaq_homekit.Control.Watchdog.{
  measured_ms, timed_out, resolve, correct_target, request_recovery, set_if_changed, settle,
  stuck_check,
}

-- A door at rest.
abbrev pub AtRest : DoorState → Type 0
AtRest d = (d ≡ opened) ⊎ (d ≡ closed) ⊎ (d ≡ stopped)

-- The longest time that a movement may take: 10 s more than the travel time that was learned, or
-- 35 s.
abbrev pub travel_limit : Control → Status → ℕ
travel_limit s status =
    let measured = measured_ms s.transition_target status in
    if measured == 0 then 35000 else measured + 10000

late_timed_out :
    (status : Status) (now : ℕ) (s : Control)
    → s.transition_start_ms + travel_limit s status < now
    → now < s.transition_start_ms + 2 ^ 32
    → timed_out status now s ≡ true
unfolding timed_out
late_timed_out status now s h l = ground (arith, h, l)

early_timed_out :
    (status : Status) (now : ℕ) (s : Control)
    → now ≤ s.transition_start_ms + 8000
    → timed_out status now s ≡ false
unfolding timed_out
early_timed_out status now s h = ground (arith, h)

door_code_inj : (a b : DoorState) → same_door a b ≡ true → a ≡ b
door_code_inj a b h = ground (arith, h)

and_right : (a b : Bool) → (a && b) ≡ true → b ≡ true
and_right a b h = ground (arith, h)

record Settled (new : DoorState) (s t : Control) : Type 0 where
  over : t.door_in_transition ≡ s.door_in_transition
  door : t.last_door ≡ new

set_if_changed-Settled :
    (new : DoorState) (now : ℕ) (s : Control) → Settled new s (set_if_changed new now s)
unfolding set_if_changed set_last_door_state record_change track_open
set_if_changed-Settled new now s = ground (arith, door_code_inj new s.last_door)

record SameDoor (s t : Control) : Type 0 where
  over : t.door_in_transition ≡ s.door_in_transition
  door : t.last_door ≡ s.last_door

correct_target-SameDoor : (d d' : DoorState) (s : Control) → SameDoor s (correct_target d d' s)
unfolding correct_target
correct_target-SameDoor d d' s = ground arith

request_recovery-SameDoor : (st : Option Status) (s : Control) → SameDoor s (request_recovery st s)
unfolding request_recovery
request_recovery-SameDoor st s = ground arith

resolve-AtRest : (d : DoorState) (raw : ℕ) → AtRest (resolve d raw) ⊎ (resolve d raw ≡ unset)
unfolding resolve end_of
resolve-AtRest d raw = ground arith

settle-AtRest :
    (found : DoorState) (st : Status) (now : ℕ) (again : Option Status) (s : Control)
    → AtRest found ⊎ (found ≡ unset)
    → let t = settle found st now again s in
      (t.door_in_transition ≡ s.door_in_transition) × AtRest t.last_door
unfolding settle
settle-AtRest found st now again s h =
    grind (arith, h, correct_target-SameDoor, request_recovery-SameDoor, set_if_changed-Settled)

-- A movement does not stay unresolved: at the first check later than the travel limit (35 s, or the
-- learned travel time and 10 s), whatever the opener reports, the movement is over and the door
-- counts as open, closed or stopped. The check is less than 2^32 ms after the start.
pub stuck_check-AtRest :
    (st : Status) (now later : ℕ) (again : Option Status) (s : Control)
    → s.door_in_transition ≡ true
    → now < s.transition_start_ms + 2 ^ 32
    → s.transition_start_ms + travel_limit s st < now
    → let t = stuck_check (some st) now later again s in
      (t.door_in_transition ≡ false) × AtRest t.last_door
unfolding stuck_check
stuck_check-AtRest st now later again s h l late =
    let raw = raw_position st.door_position in
    let u = record (emit reset_rx_errors s) { door_in_transition = false } in
    let done = settle-AtRest (resolve st.door raw) st later again u (resolve-AtRest st.door raw) in
    simp (h, late_timed_out st now s late l) done

-- Up to 8 s after its start no check changes anything, also for a door that has not moved.
pub stuck_check_early :
    (st : Status) (now later : ℕ) (again : Option Status) (s : Control)
    → now ≤ s.transition_start_ms + 8000
    → stuck_check (some st) now later again s ≡ s
unfolding stuck_check
stuck_check_early st now later again s early = ground (arith, early_timed_out st now s early)

-- The position does not contradict a state at an end.
abbrev pub Agrees : DoorState → ℕ → Type 0
Agrees opened raw = raw ≤ 200
Agrees closed raw = 9800 ≤ raw
Agrees _ raw = Unit {0}

confirmed-Agrees : (d : DoorState) (raw : ℕ) → confirmed_by_raw d raw ≡ true → Agrees d raw
confirmed-Agrees d raw h = ground (arith, h)

abbrev DoorKept : Control → Control → Type 0
DoorKept s t = t.last_door ≡ s.last_door

set_last_door_state-last_door :
    (d : DoorState) (now : ℕ) (s : Control) → (set_last_door_state d now s).last_door ≡ d
unfolding set_last_door_state
set_last_door_state-last_door d now s = refl

settle_target-DoorKept : (d : DoorState) (p : ℤ) (s : Control) → DoorKept s (settle_target d p s)
unfolding settle_target
settle_target-DoorKept d p s = ground arith

-- The door state is as before, or the new one, which the position confirms.
abbrev Confirmed : DoorState → ℕ → Control → Control → Type 0
Confirmed d raw s t =
    (t.last_door ≡ s.last_door) ⊎ ((t.last_door ≡ d) × (confirmed_by_raw d raw ≡ true))

update_homekit-Confirmed :
    (st : Status) (d : DoorState) (now : ℕ) (s : Control)
    → Confirmed d (raw_position st.door_position) s (update_homekit st d now s)
unfolding update_homekit
update_homekit-Confirmed st d now s =
    elim (Bool-cases
      (not (same_door d s.last_door) && confirmed_by_raw d (raw_position st.door_position))) [
        | inl e ↦ rw e (
            inr (
              settle_target-DoorKept d st.door_position
                    (set_last_door_state d now (show_movement s.last_door d s))
                  ∙ set_last_door_state-last_door d now (show_movement s.last_door d s),
              and_right (not (same_door d s.last_door))
                  (confirmed_by_raw d (raw_position st.door_position)) e,
            ))
        | inr e ↦ rw e (inl refl)
      ]

push_target_v1-DoorKept :
    (st : Status) (d : DoorState) (s : Control) → DoorKept s (push_target_v1 st d s)
unfolding push_target_v1
push_target_v1-DoorKept st d s = ground arith

push_target_v2-DoorKept : (st : Status) (s : Control) → DoorKept s (push_target_v2 st s)
unfolding push_target_v2 push_transition
push_target_v2-DoorKept st s = ground arith

track_transition-DoorKept :
    (d : DoorState) (raw now : ℕ) (s : Control) → DoorKept s (track_transition d raw now s)
unfolding track_transition start_transition end_transition
track_transition-DoorKept d raw now s = ground arith

report-Confirmed :
    (st : Status) (now later : ℕ) (s : Control)
    → Confirmed
        (inferred st)
        (raw_position st.door_position)
        s
        (process_door_position st now later s)
unfolding process_door_position
report-Confirmed st now later s =
    let d = inferred st in
    let raw = raw_position st.door_position in
    let t = push_target_v2 st (push_target_v1 st d s) in
    let u = track_transition d raw now t in
    let kept =
      track_transition-DoorKept d raw now t
      ∙ push_target_v2-DoorKept st (push_target_v1 st d s)
      ∙ push_target_v1-DoorKept st d s in
    let done = update_homekit-Confirmed st d later u in
    elim (Bool-cases st.synced) [
      | inl e ↦ simp e (elim done [ inl same ↦ inl (same ∙ kept) | inr new ↦ inr new ])
      | inr e ↦ simp e (inl refl)
    ]

-- A position report that changes the door state is confirmed by the position: the new state is open
-- only at a raw position of at most 200, closed only at 9800 or more, and it is the state that the
-- report infers.
pub report-Agrees :
    (st : Status) (now later : ℕ) (s : Control)
    → (process_door_position st now later s).last_door ≢ s.last_door
    → let t = process_door_position st now later s in
      (t.last_door ≡ inferred st) × Agrees t.last_door (raw_position st.door_position)
report-Agrees st now later s h = elim (report-Confirmed st now later s) [
  | inl same ↦ absurd (h same)
  | inr (new, e) ↦ (
    new,
    subst (λ d. Agrees d (raw_position st.door_position)) (sym new)
        (confirmed-Agrees (inferred st) (raw_position st.door_position) e),
  )
]
