-- ===== src/HomeKit/Shown.antt =====
-- What HomeKit shows once the queue is worked off.
use gdo_blaq_homekit.Prelude.{
  ℕ, ◌≡◌, refl, sym, ap, subst, ◌∙◌, Bool, true, false, Bool-cases, inl, inr, ◌||◌, not,
  if◌then◌else◌, ◌==◌, List, [], ◌∷◌, ◌++◌, append_assoc, append-nil, some, arith,
}
use gdo_blaq_homekit.Opener.{
  DoorState, same_door, LightState, LockState, MotionState, ObstructionState, LearnState,
}
use gdo_blaq_homekit.HomeKit.{
  Dest, door_current_state, door_target_state, lock_current_state, lock_target_state, obstruction,
  light, motion, learn, GdoEvent, HomeKit, boot, notif_queue_init, enqueue,
  map_gdo_to_homekit_state, queue_homekit_target, notify_current_door, notify_light, light_code,
  light_value, notify_learn, learn_code, learn_value, notify_obstruction, obstruction_code,
  obstruction_value, notify_current_lock, lock_code, lock_value, notify_motion, motion_code,
  motion_value, sends, has_char, deliver, consume, decide_learn,
}
use gdo_blaq_homekit.HomeKit.Told.{
  latest, remembered, InSync, latest-hidden, pushed-InSync, guarded,
}

module _ (s : HomeKit) (h : InSync s) where
  pub door-InSync : (d : DoorState) (sent : Bool) → InSync (notify_current_door d sent s)
  unfolding notify_current_door remembered
  door-InSync d sent =
      let v = map_gdo_to_homekit_state d in
      let t = record (enqueue door_current_state v s) { last_door = d } in
      guarded (same_door d s.last_door) (sends sent s) s t h (
        pushed-InSync door_current_state v s t h refl (λ (d' : Dest) ne. ground (arith, ne))
          (λ (w : ℕ) e. ground (arith, e)))

  light-InSync : (new : LightState) (sent : Bool) → InSync (notify_light new sent s)
  unfolding notify_light remembered
  light-InSync new sent =
      let t = record (enqueue light (light_value new) s) { last_light = new } in
      guarded (light_code new == light_code s.last_light) (sends sent s) s t h (
        pushed-InSync light (light_value new) s t h refl (λ (d' : Dest) ne. ground (arith, ne))
          (λ (w : ℕ) e. ground (arith, e)))

  pub obstruction-InSync :
      (new : ObstructionState) (sent : Bool) → InSync (notify_obstruction new sent s)
  unfolding notify_obstruction remembered
  obstruction-InSync new sent =
      let t = record (enqueue obstruction (obstruction_value new) s) { last_obstruction = new } in
      guarded (obstruction_code new == obstruction_code s.last_obstruction) (sends sent s) s t h (
        pushed-InSync obstruction (obstruction_value new) s t h refl
          (λ (d' : Dest) ne. ground (arith, ne)) (λ (w : ℕ) e. ground (arith, e)))

  motion-InSync : (new : MotionState) (sent : Bool) → InSync (notify_motion new sent s)
  unfolding notify_motion remembered
  motion-InSync new sent =
      let t = record (enqueue motion (motion_value new) s) { last_motion = new } in
      guarded (motion_code new == motion_code s.last_motion) (sends sent s) s t h (
        pushed-InSync motion (motion_value new) s t h refl (λ (d' : Dest) ne. ground (arith, ne))
          (λ (w : ℕ) e. ground (arith, e)))

  learn-InSync : (new : LearnState) (sent : Bool) → InSync (notify_learn new sent s)
  unfolding notify_learn remembered
  learn-InSync new sent =
      let t = record (enqueue learn (learn_value new) s) { last_learn = new } in
      let u =
        if learn_code new == learn_code s.last_learn then s else if sends sent s then t else s in
      guarded (not s.learn_supported) true s u h (
        guarded (learn_code new == learn_code s.last_learn) (sends sent s) s t h (
          pushed-InSync learn (learn_value new) s t h refl (λ (d' : Dest) ne. ground (arith, ne))
            (λ (w : ℕ) e. ground (arith, e))))

  target_state :
      (tgt : ℕ) (taken sent : Bool)
      → (queue_homekit_target tgt taken sent s).0 ≡ (
          if not s.mutex_ready || not taken || tgt == s.last_target
          then s
          else if sends sent s
          then record (enqueue door_target_state tgt s) { last_target = tgt }
          else s)
  unfolding queue_homekit_target
  target_state tgt taken sent = ground arith

  target-InSync : (tgt : ℕ) (taken sent : Bool) → InSync (queue_homekit_target tgt taken sent s).0
  unfolding remembered
  target-InSync tgt taken sent =
      let t = record (enqueue door_target_state tgt s) { last_target = tgt } in
      subst InSync (sym (target_state tgt taken sent)) (
        guarded (not s.mutex_ready || not taken || tgt == s.last_target) (sends sent s) s t h (
          pushed-InSync door_target_state tgt s t h refl (λ (d' : Dest) ne. ground (arith, ne))
            (λ (w : ℕ) e. ground (arith, e))))

  pub lock-InSync :
      (new : LockState) (sent sent' : Bool) → InSync (notify_current_lock new sent sent' s)
  unfolding notify_current_lock remembered
  lock-InSync new sent sent' =
      let v = lock_value new in
      let t = enqueue lock_target_state v s in
      let u = record (enqueue lock_current_state v t) { last_lock = new } in
      let k =
        pushed-InSync lock_target_state v s t h refl (λ (d' : Dest) ne. ground (arith, ne))
          (λ (w : ℕ) e. ground (arith, e)) in
      let both = guarded false (sends sent' t) t u k (
        pushed-InSync lock_current_state v t u k refl (λ (d' : Dest) ne. ground (arith, ne))
          (λ (w : ℕ) e. ground (arith, e))) in
      guarded (lock_code new == lock_code s.last_lock) true s
        (if not (sends sent s) then s else (if sends sent' t then u else t)) h
        (guarded (not (sends sent s)) true s (if sends sent' t then u else t) h both)

  decide-InSync : (supported : Bool) → InSync (decide_learn supported s)
  unfolding remembered
  decide-InSync supported d v e = h d v (ground (arith, e))

  shown-InSync :
      (x : GdoEvent) (rest : List GdoEvent)
      → s.queue ≡ x ∷ rest
      → InSync (record s { queue = rest; updates = s.updates ++ x ∷ [] })
  unfolding remembered
  shown-InSync x rest e d v r =
      ap (latest d) (append_assoc s.updates (x ∷ []) rest ∙ ap (λ q. s.updates ++ q) (sym e))
      ∙ h d v (ground (arith, r))

  hidden-InSync :
      (x : GdoEvent) (rest : List GdoEvent)
      → s.queue ≡ x ∷ rest
      → has_char x.dest s ≡ false
      → InSync (record s { queue = rest })
  unfolding remembered
  hidden-InSync x rest e n d v r =
      sym (latest-hidden d s.updates rest x (ground (arith, n, r)))
      ∙ ap (λ q. latest d (s.updates ++ q)) (sym e)
      ∙ h d v (ground (arith, r))

  deliver-InSync : (q : List GdoEvent) → s.queue ≡ q → InSync (deliver q s)
  deliver-InSync [] e = h
  deliver-InSync (x ∷ rest) e = elim (Bool-cases (has_char x.dest s)) [
    | inl k ↦ rw k (shown-InSync x rest e)
    | inr k ↦ rw k (hidden-InSync x rest e k)
  ]

  pub consume-InSync : InSync (consume s)
  unfolding consume
  consume-InSync = deliver-InSync s.queue refl

  init-InSync : (mutex queue : Bool) → InSync (notif_queue_init mutex queue s)
  unfolding notif_queue_init remembered
  init-InSync mutex queue d v e = h d v (ground (arith, e))

-- What happens to the notifications: the queue is made, Learn is decided, a state is told, and the
-- task takes an event off the queue.
pub data Op : Type 0 where
  create : Bool → Bool → Op
  decide : Bool → Op
  tell_target : ℕ → Bool → Bool → Op
  tell_door : DoorState → Bool → Op
  tell_light : LightState → Bool → Op
  tell_lock : LockState → Bool → Bool → Op
  tell_obstruction : ObstructionState → Bool → Op
  tell_motion : MotionState → Bool → Op
  tell_learn : LearnState → Bool → Op
  take_event : Op

unfoldable pub apply : Op → HomeKit → HomeKit
apply (create m q) s = notif_queue_init m q s
apply (decide b) s = decide_learn b s
apply (tell_target tgt taken sent) s = (queue_homekit_target tgt taken sent s).0
apply (tell_door d sent) s = notify_current_door d sent s
apply (tell_light l sent) s = notify_light l sent s
apply (tell_lock l sent sent') s = notify_current_lock l sent sent' s
apply (tell_obstruction o sent) s = notify_obstruction o sent s
apply (tell_motion m sent) s = notify_motion m sent s
apply (tell_learn l sent) s = notify_learn l sent s
apply take_event s = consume s

unfoldable pub run : List Op → HomeKit → HomeKit
run [] s = s
run (op ∷ ops) s = run ops (apply op s)

apply-InSync : (op : Op) (s : HomeKit) → InSync s → InSync (apply op s)
unfolding apply
apply-InSync (create m q) s h = init-InSync s h m q
apply-InSync (decide b) s h = decide-InSync s h b
apply-InSync (tell_target tgt taken sent) s h = target-InSync s h tgt taken sent
apply-InSync (tell_door d sent) s h = door-InSync s h d sent
apply-InSync (tell_light l sent) s h = light-InSync s h l sent
apply-InSync (tell_lock l sent sent') s h = lock-InSync s h l sent sent'
apply-InSync (tell_obstruction o sent) s h = obstruction-InSync s h o sent
apply-InSync (tell_motion m sent) s h = motion-InSync s h m sent
apply-InSync (tell_learn l sent) s h = learn-InSync s h l sent
apply-InSync take_event s h = consume-InSync s h

pub run-InSync : (ops : List Op) (s : HomeKit) → InSync s → InSync (run ops s)
unfolding run
run-InSync [] s h = h
run-InSync (op ∷ ops) s h = run-InSync ops (apply op s) (apply-InSync op s h)

pub boot-InSync : InSync boot
unfolding remembered
boot-InSync d v e = ground (arith, e)

-- From the start, after any run of notifications and of rounds of the task, with any of the sends
-- refused: once the queue is empty, the last update of each characteristic is the state that is
-- remembered as sent.
pub drained-shows :
    (ops : List Op) (d : Dest) (v : ℕ)
    → (run ops boot).queue ≡ []
    → remembered d (run ops boot) ≡ some v
    → latest d (run ops boot).updates ≡ some v
drained-shows ops d v e r =
    let s = run ops boot in
    ap (latest d) (sym (append-nil s.updates) ∙ ap (λ q. s.updates ++ q) (sym e))
    ∙ run-InSync ops boot boot-InSync d v r
