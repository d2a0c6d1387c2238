-- ===== src/HomeKit/Delivered.antt =====
-- A state that the queue accepts is shown.
use gdo_blaq_homekit.Prelude.{
  ℕ, zero, suc, length, ◌≢◌, ◌≡◌, refl, sym, ap, ◌∙◌, true, false, List, [], ◌∷◌, ◌++◌, append-nil,
  some, arith,
}
use gdo_blaq_homekit.Opener.{DoorState, is_unset, LockState, ObstructionState}
use gdo_blaq_homekit.HomeKit.{
  Dest, door_current_state, lock_current_state, obstruction, GdoEvent, HomeKit, boot,
  map_gdo_to_homekit_state, notify_current_door, notify_obstruction, obstruction_code,
  obstruction_value, notify_current_lock, lock_code, lock_value, consume,
}
use gdo_blaq_homekit.HomeKit.Told.{latest, remembered, InSync}
use gdo_blaq_homekit.HomeKit.Shown.{
  Op, run, run-InSync, boot-InSync, consume-InSync, door-InSync, obstruction-InSync, lock-InSync,
}

-- The task works off as many events as the queue holds.
unfoldable pub drain : ℕ → HomeKit → HomeKit
drain zero s = s
drain (suc n) s = drain n (consume s)

consume-queue :
    (e : GdoEvent) (q : List GdoEvent) (s : HomeKit) → s.queue ≡ e ∷ q → (consume s).queue ≡ q
unfolding consume
consume-queue e q s h = rw h (ground arith)

consume-remembered : (d : Dest) (s : HomeKit) → remembered d (consume s) ≡ remembered d s
unfolding consume remembered
consume-remembered d s = ground arith

drain-shows :
    (q : List GdoEvent) (s : HomeKit) (d : Dest) (v : ℕ)
    → s.queue ≡ q
    → InSync s
    → remembered d s ≡ some v
    → ((drain (length q) s).queue ≡ []) × (latest d (drain (length q) s).updates ≡ some v)
unfolding drain
drain-shows [] s d v e h r =
    (e, ap (latest d) (sym (append-nil s.updates) ∙ ap (λ q. s.updates ++ q) (sym e)) ∙ h d v r)
drain-shows (x ∷ q) s d v e h r =
    drain-shows q (consume s) d v (consume-queue x q s e) (consume-InSync s h)
      (consume-remembered d s ∙ r)

door_told :
    (d : DoorState) (s : HomeKit)
    → s.queue_ready ≡ true
    → is_unset d ≡ false
    → remembered door_current_state (notify_current_door d true s)
      ≡ some (map_gdo_to_homekit_state d)
unfolding notify_current_door remembered
door_told d s h n = ground (arith, h, n)

obstruction_told :
    (o : ObstructionState) (s : HomeKit)
    → s.queue_ready ≡ true
    → obstruction_code o ≢ 3
    → remembered obstruction (notify_obstruction o true s) ≡ some (obstruction_value o)
unfolding notify_obstruction remembered
obstruction_told o s h n = ground (arith, h, n)

lock_told :
    (k : LockState) (s : HomeKit)
    → s.queue_ready ≡ true
    → lock_code k ≢ 3
    → remembered lock_current_state (notify_current_lock k true true s) ≡ some (lock_value k)
unfolding notify_current_lock remembered
lock_told k s h n = ground (arith, h, n)

-- After any run of notifications, with any sends refused before: once the queue accepts the current
-- state of the door, and the task has worked off what the queue then holds, the queue is empty and
-- the last update of that characteristic is the state. The same holds for the obstruction and for
-- the lock, whose two events must both be accepted.
pub told-shown :
    (ops : List Op) (d : DoorState) (o : ObstructionState) (k : LockState)
    → (run ops boot).queue_ready ≡ true
    → is_unset d ≡ false
    → obstruction_code o ≢ 3
    → lock_code k ≢ 3
    → let s = run ops boot in
      let a = notify_current_door d true s in
      let b = notify_obstruction o true s in
      let c = notify_current_lock k true true s in
      (((drain (length a.queue) a).queue ≡ [])
        × (latest door_current_state (drain (length a.queue) a).updates
            ≡ some (map_gdo_to_homekit_state d)))
      × (((drain (length b.queue) b).queue ≡ [])
          × (latest obstruction (drain (length b.queue) b).updates ≡ some (obstruction_value o)))
      × (((drain (length c.queue) c).queue ≡ [])
          × (latest lock_current_state (drain (length c.queue) c).updates ≡ some (lock_value k)))
told-shown ops d o k ready hd ho hk =
    let s = run ops boot in
    let h = run-InSync ops boot boot-InSync in
    let a = notify_current_door d true s in
    let b = notify_obstruction o true s in
    let c = notify_current_lock k true true s in
    (
      drain-shows a.queue a door_current_state (map_gdo_to_homekit_state d) refl
          (door-InSync s h d true) (door_told d s ready hd),
      drain-shows b.queue b obstruction (obstruction_value o) refl (obstruction-InSync s h o true)
          (obstruction_told o s ready ho),
      drain-shows c.queue c lock_current_state (lock_value k) refl (lock-InSync s h k true true)
          (lock_told k s ready hk),
    )
