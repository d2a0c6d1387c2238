-- ===== src/HomeKit/Light.antt =====
-- The light of HomeKit after a write that the opener does not act on (light_svc_set).
use gdo_blaq_homekit.Prelude.{
  ℕ, ◌≡◌, refl, true, false, inl, inr, Bool-cases, ◌==◌, List, [], ◌∷◌, ◌++◌, none, some, arith,
}
use gdo_blaq_homekit.Opener.{Esp, is_ok, light_off}
use gdo_blaq_homekit.HomeKit.{
  Dest, light, dest_code, GdoEvent, HomeKit, light_code, door_current_state, door_target_state,
  lock_current_state, lock_target_state, obstruction, motion, learn, queue_homekit_target,
  notify_current_door, notify_light, notify_current_lock, notify_obstruction, notify_motion,
  notify_learn, notif_queue_init, consume, deliver, map_gdo_to_homekit_state, lock_value,
  obstruction_value, motion_value, learn_value, has_char,
}
use gdo_blaq_homekit.HomeKit.Told.{latest, latest-push}
use gdo_blaq_homekit.HomeKit.Shown.{
  Op, create, decide, tell_target, tell_door, tell_light, tell_lock, tell_obstruction, tell_motion,
  tell_learn, take_event, apply, run,
}
use gdo_blaq_homekit.HomeKit.Writes.{set_on, light_write}

-- Off is remembered, no light is queued, and On was shown last.
record IsStuck (s : HomeKit) : Type 0 where
  remembered : light_code s.last_light ≡ 0
  queued : latest light s.queue ≡ none
  shown : latest light s.updates ≡ some 1

-- No report of the light but that it is off.
abbrev pub OnlyOff : Op → Type 0
OnlyOff (tell_light l sent) = l ≡ light_off
OnlyOff _ = Unit {0}

abbrev pub AllOnlyOff : List Op → Type 0
AllOnlyOff [] = Unit {0}
AllOnlyOff (op ∷ ops) = OnlyOff op × AllOnlyOff ops

-- An event of another characteristic behind the queue.
queued_other :
    (d : Dest) (v : ℕ) (q : List GdoEvent)
    → (dest_code d == dest_code light) ≡ false
    → latest light q ≡ none
    → latest light (q ++ record { dest = d; value = v } ∷ []) ≡ none
queued_other d v q n h = ground (arith, n, h, latest-push light q (record { dest = d; value = v }))

lock-IsStuck :
    (v : ℕ) (q : List GdoEvent)
    → latest light q ≡ none
    → latest light (
        (q ++ record { dest = lock_target_state; value = v } ∷ [])
        ++ record { dest = lock_current_state; value = v } ∷ [])
      ≡ none
lock-IsStuck v q h =
    let t = q ++ record { dest = lock_target_state; value = v } ∷ [] in
    queued_other lock_current_state v t refl (queued_other lock_target_state v q refl h)

latest_head :
    (e : GdoEvent) (q : List GdoEvent)
    → latest light (e ∷ q) ≡ none
    → ((dest_code e.dest == dest_code light) ≡ false) × (latest light q ≡ none)
unfolding latest
latest_head e q h = (ground (arith, h), ground (arith, h))

deliver-IsStuck :
    (q : List GdoEvent) (s : HomeKit) → s.queue ≡ q → IsStuck s → IsStuck (deliver q s)
deliver-IsStuck [] s e h = h
deliver-IsStuck (x ∷ q) s e h =
    let (other, rest) = latest_head x q (ground (arith, h.queued, e)) in
    let push = latest-push light s.updates x in
    elim (Bool-cases (has_char x.dest s)) [
      | inl k ↦ rw k (record {
        remembered = h.remembered;
        queued = rest;
        shown = ground (arith, push, other, h.shown);
      })
      | inr k ↦ rw k (record { remembered = h.remembered; queued = rest; shown = h.shown })
    ]

apply-IsStuck : (op : Op) (s : HomeKit) → OnlyOff op → IsStuck s → IsStuck (apply op s)
unfolding apply notif_queue_init queue_homekit_target notify_current_door notify_light
    notify_current_lock notify_obstruction notify_motion notify_learn consume
apply-IsStuck (create m q) s o h = record {
  remembered = h.remembered;
  queued = h.queued;
  shown = h.shown;
}
apply-IsStuck (decide b) s o h = record {
  remembered = h.remembered;
  queued = h.queued;
  shown = h.shown;
}
apply-IsStuck (tell_target v taken sent) s o h =
    ground (arith, h, queued_other door_target_state v s.queue refl h.queued)
apply-IsStuck (tell_door d sent) s o h =
    ground
      (arith, h, queued_other door_current_state (map_gdo_to_homekit_state d) s.queue refl h.queued)
apply-IsStuck (tell_light l sent) s o h = ground (arith, h, o)
apply-IsStuck (tell_lock l sent sent') s o h = ground (
  arith,
  h,
  queued_other lock_target_state (lock_value l) s.queue refl h.queued,
  lock-IsStuck (lock_value l) s.queue h.queued,
)
apply-IsStuck (tell_obstruction x sent) s o h =
    ground (arith, h, queued_other obstruction (obstruction_value x) s.queue refl h.queued)
apply-IsStuck (tell_motion m sent) s o h =
    ground (arith, h, queued_other motion (motion_value m) s.queue refl h.queued)
apply-IsStuck (tell_learn l sent) s o h =
    ground (arith, h, queued_other learn (learn_value l) s.queue refl h.queued)
apply-IsStuck take_event s o h = deliver-IsStuck s.queue s refl h

run-IsStuck : (ops : List Op) (s : HomeKit) → AllOnlyOff ops → IsStuck s → IsStuck (run ops s)
unfolding run
run-IsStuck [] s o h = h
run-IsStuck (op ∷ ops) s o h = run-IsStuck ops (apply op s) o.1 (apply-IsStuck op s o.0 h)

-- A light that HomeKit turned on, but the opener did not, stays on in HomeKit: where off is
-- remembered and no report of the light is queued, gdolib accepts a write of On, and whatever
-- notifications and rounds of the task follow, as long as every report of the light says off, the
-- last update of the light that HAP was given is On, and no other one is queued.
pub light_write-stays :
    (err : Esp) (ops : List Op) (s : HomeKit)
    → is_ok err ≡ true
    → light_code s.last_light ≡ 0
    → latest light s.queue ≡ none
    → AllOnlyOff ops
    → let t = run ops (light_write (set_on true err) s).0 in
      (latest light t.updates ≡ some 1) × (latest light t.queue ≡ none)
unfolding light_write
light_write-stays err ops s e off q o =
    let t = (light_write (set_on true err) s).0 in
    let stuck : IsStuck t = rw e (record {
      remembered = off;
      queued = q;
      shown = latest-push light s.updates (record { dest = light; value = 1 });
    }) in
    let u = run-IsStuck ops t o stuck in (u.shown, u.queued)
