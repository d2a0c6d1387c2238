-- ===== src/HomeKit/Tests.antt =====
-- Tests and witnesses for the HomeKit notifications.
use gdo_blaq_homekit.Prelude.{length, arith, ℕ, ◌≡◌, refl, true, false, List, [], ◌∷◌, none, some}
use gdo_blaq_homekit.Opener.{esp_ok, opened, closing, closed, light_off, clear, locked}
use gdo_blaq_homekit.HomeKit.{
  light_code, door_current_state, lock_current_state, obstruction, light, GdoEvent, boot,
  notif_queue_init, notify_current_door, notify_light, notify_obstruction, notify_current_lock,
  consume,
}
use gdo_blaq_homekit.HomeKit.Told.{remembered, latest}
use gdo_blaq_homekit.HomeKit.Delivered.{drain, told-shown}
use gdo_blaq_homekit.HomeKit.Shown.{
  Op, create, tell_door, tell_light, take_event, apply, run, drained-shows, run-InSync, boot-InSync,
}
use gdo_blaq_homekit.HomeKit.Light.{light_write-stays}
use gdo_blaq_homekit.HomeKit.Writes.{
  set_target, set_on, gdo_write, light_write, gdo_svc_set, light_svc_set, all_success,
  TargetOutcome, svc_set-all_success, target_write-outcome,
}

-- The second report of an open door is not sent, and that of a closing door is refused once.
abbrev ops : List Op
ops =
    create true true
    ∷ tell_door opened true
    ∷ tell_door opened true
    ∷ tell_door closing false
    ∷ take_event
    ∷ tell_door closing true
    ∷ tell_light light_off true
    ∷ take_event
    ∷ take_event
    ∷ []

values : List GdoEvent → List ℕ
values [] = []
values (e ∷ es) = e.value ∷ values es

three_updates : values (run ops boot).updates ≡ 0 ∷ 3 ∷ 0 ∷ []
unfolding values run apply notif_queue_init notify_current_door notify_light consume
three_updates = refl

drained : (run ops boot).queue ≡ []
unfolding run apply notif_queue_init notify_current_door notify_light consume
drained = refl

closing_remembered : remembered door_current_state (run ops boot) ≡ some 3
unfolding run apply notif_queue_init notify_current_door notify_light consume remembered
closing_remembered = refl

drained-shows_example : latest door_current_state (run ops boot).updates ≡ some 3
drained-shows_example = drained-shows ops door_current_state 3 drained closing_remembered

ready : (run ops boot).queue_ready ≡ true
unfolding run apply notif_queue_init notify_current_door notify_light consume
ready = refl

told-shown_example :
    let s = run ops boot in
    let a = notify_current_door closed true s in
    let b = notify_obstruction clear true s in
    let c = notify_current_lock locked true true s in
    (((drain (length a.queue) a).queue ≡ [])
      × (latest door_current_state (drain (length a.queue) a).updates ≡ some 1))
    × (((drain (length b.queue) b).queue ≡ [])
        × (latest obstruction (drain (length b.queue) b).updates ≡ some 0))
    × (((drain (length c.queue) c).queue ≡ [])
        × (latest lock_current_state (drain (length c.queue) c).updates ≡ some 1))
told-shown_example = told-shown ops closed clear locked ready refl (omega arith) (omega arith)

svc_set-all_success_at_input :
    let ws = set_target 0 esp_ok true true ∷ set_target 7 esp_ok true true ∷ [] in
    let ls = set_on true esp_ok ∷ [] in
    ((gdo_svc_set ws boot).2 ≡ all_success (gdo_svc_set ws boot).1)
    × ((light_svc_set ls boot).2 ≡ all_success (light_svc_set ls boot).1)
svc_set-all_success_at_input =
    svc_set-all_success (set_target 0 esp_ok true true ∷ set_target 7 esp_ok true true ∷ [])
      (set_on true esp_ok ∷ []) boot

target_write-outcome_example :
    let (t, status) = gdo_write (set_target 1 esp_ok true true) (run ops boot) in
    TargetOutcome 1 esp_ok (run ops boot) t status
target_write-outcome_example =
    target_write-outcome 1 esp_ok true true (run ops boot) (run-InSync ops boot boot-InSync)

light_off_remembered : light_code (run ops boot).last_light ≡ 0
unfolding run apply notif_queue_init notify_current_door notify_light consume
light_off_remembered = refl

none_queued : latest light (run ops boot).queue ≡ none
unfolding run apply notif_queue_init notify_current_door notify_light consume latest
none_queued = refl

-- The opener reports off twice, and the door moves.
abbrev ignored : List Op
ignored =
    tell_light light_off true
    ∷ tell_door opened true
    ∷ take_event
    ∷ tell_light light_off true
    ∷ take_event
    ∷ []

light_write-stays_example :
    let t = run ignored (light_write (set_on true esp_ok) (run ops boot)).0 in
    (latest light t.updates ≡ some 1) × (latest light t.queue ≡ none)
light_write-stays_example =
    light_write-stays esp_ok ignored (run ops boot) refl light_off_remembered none_queued
      (refl, (tt, (tt, (refl, (tt, tt)))))
