-- ===== src/HomeKit/Writes.antt =====
-- main/homekit.cpp: what a write of HomeKit does (gdo_svc_set, light_svc_set, learn_svc_set).
use gdo_blaq_homekit.Prelude.{
  ℕ, ◌≡◌, ◌≢◌, ◌⊎◌, refl, ap, Bool, true, false, Bool-cases, inl, inr, ◌&&◌, ◌||◌, if◌then◌else◌,
  ◌==◌, List, [], ◌∷◌, ◌++◌, some, arith,
}
use gdo_blaq_homekit.Opener.{Esp, is_ok}
use gdo_blaq_homekit.HomeKit.{
  Dest, door_target_state, lock_target_state, light, learn, HomeKit, target_unknown,
  queue_homekit_target,
}
use gdo_blaq_homekit.HomeKit.Told.{latest, told, remembered, InSync, latest-enqueue}

-- The status of one write.
pub data WriteStatus : Type 0 where
  success comm_err val_invalid res_absent : WriteStatus

abbrev pub is_success : WriteStatus → Bool
is_success success = true
is_success _ = false

-- `hap_char_update_val` of a write's own characteristic.
abbrev pub update_val : Dest → ℕ → HomeKit → HomeKit
update_val dest value s = record s {
  updates = s.updates ++ record { dest = dest; value = value } ∷ [];
}

-- A write to the door or the lock: its value, what the command to the opener returns, and for the
-- door what queue_homekit_target() meets; or a write to another characteristic.
pub data Write : Type 0 where
  set_target : ℕ → Esp → Bool → Bool → Write
  set_lock : ℕ → Esp → Write
  set_other : Write

-- One round of `gdo_svc_set`.
unfoldable pub gdo_write : Write → HomeKit → HomeKit × WriteStatus
gdo_write (set_target value err taken sent) s =
    if value == 0 || value == 1
    then (if is_ok err
        then (let (t, accepted) = queue_homekit_target value taken sent s in
            (t, if accepted then success else comm_err))
        else (s, comm_err))
    else (s, val_invalid)
gdo_write (set_lock value err) s =
    if is_ok err then (update_val lock_target_state value s, success) else (s, comm_err)
gdo_write set_other s = (s, res_absent)

-- `gdo_svc_set`: the statuses, and whether it returns HAP_SUCCESS.
unfoldable pub gdo_svc_set : List Write → HomeKit → HomeKit × List WriteStatus × Bool
gdo_svc_set [] s = (s, [], true)
gdo_svc_set (w ∷ ws) s =
    let (t, status) = gdo_write w s in
    let (u, statuses, ok) = gdo_svc_set ws t in (u, status ∷ statuses, is_success status && ok)

-- A write to the light, or to another characteristic.
pub data LightWrite : Type 0 where
  set_on : Bool → Esp → LightWrite
  set_else : LightWrite

abbrev pub of_bool : Bool → ℕ
of_bool b = if b then 1 else 0

-- One round of `light_svc_set`.
unfoldable pub light_write : LightWrite → HomeKit → HomeKit × WriteStatus
light_write (set_on on err) s =
    if is_ok err then (update_val light (of_bool on) s, success) else (s, comm_err)
light_write set_else s = (s, res_absent)

-- `light_svc_set`.
unfoldable pub light_svc_set : List LightWrite → HomeKit → HomeKit × List WriteStatus × Bool
light_svc_set [] s = (s, [], true)
light_svc_set (w ∷ ws) s =
    let (t, status) = light_write w s in
    let (u, statuses, ok) = light_svc_set ws t in (u, status ∷ statuses, is_success status && ok)

-- `learn_svc_set`, of its first write; the result is whether it returns HAP_SUCCESS, which it does
-- also where the command failed.
unfoldable pub learn_svc_set : LightWrite → HomeKit → HomeKit × WriteStatus × Bool
learn_svc_set (set_on on err) s =
    if is_ok err then (update_val learn (of_bool on) s, success, true) else (s, comm_err, true)
learn_svc_set set_else s = (s, res_absent, false)

abbrev pub all_success : List WriteStatus → Bool
all_success [] = true
all_success (st ∷ sts) = is_success st && all_success sts

gdo_svc_set-result :
    (ws : List Write) (s : HomeKit) → (gdo_svc_set ws s).2 ≡ all_success (gdo_svc_set ws s).1
unfolding gdo_svc_set
gdo_svc_set-result [] s = refl
gdo_svc_set-result (w ∷ ws) s =
    let (t, status) = gdo_write w s in ap (λ b. is_success status && b) (gdo_svc_set-result ws t)

light_svc_set-result :
    (ws : List LightWrite) (s : HomeKit)
    → (light_svc_set ws s).2 ≡ all_success (light_svc_set ws s).1
unfolding light_svc_set
light_svc_set-result [] s = refl
light_svc_set-result (w ∷ ws) s =
    let (t, status) = light_write w s in
    ap (λ b. is_success status && b) (light_svc_set-result ws t)

-- A list of writes is reported as done exactly if every single write of it has the status success,
-- for the door and lock as for the light.
pub svc_set-all_success :
    (ws : List Write) (ls : List LightWrite) (s : HomeKit)
    → ((gdo_svc_set ws s).2 ≡ all_success (gdo_svc_set ws s).1)
      × ((light_svc_set ls s).2 ≡ all_success (light_svc_set ls s).1)
svc_set-all_success ws ls s = (gdo_svc_set-result ws s, light_svc_set-result ls s)

-- What a write of the door's target comes to, by its status.
abbrev pub TargetOutcome : ℕ → Esp → HomeKit → HomeKit → WriteStatus → Type 0
TargetOutcome value err s t success =
    (is_ok err ≡ true) × (latest door_target_state (told t) ≡ some value)
TargetOutcome value err s t comm_err = t ≡ s
TargetOutcome value err s t val_invalid = (t ≡ s) × (value ≢ 0) × (value ≢ 1)
TargetOutcome value err s t res_absent = ⊥

InSync-target :
    (s : HomeKit) (v : ℕ)
    → InSync s
    → v ≢ target_unknown
    → v ≡ s.last_target
    → latest door_target_state (told s) ≡ some v
unfolding remembered
InSync-target s v h k e = h door_target_state v (ground (arith, k, e))

queue_target-cases :
    (v : ℕ) (taken sent : Bool) (s : HomeKit)
    → InSync s
    → v ≢ target_unknown
    → let (t, accepted) = queue_homekit_target v taken sent s in
      ((accepted ≡ true) × (latest door_target_state (told t) ≡ some v))
      ⊎ ((accepted ≡ false) × (t ≡ s))
unfolding queue_homekit_target
queue_target-cases v taken sent s h k =
    ground (arith, InSync-target s v h k, latest-enqueue door_target_state door_target_state v s)

-- A write of the door's target has the status success only if the opener took the command, and then
-- the last target that HAP is told, now or from the queue, is the one written. With a communication
-- error or an invalid value (neither 0 nor 1) nothing that HAP is told changes. No other status
-- occurs. It is assumed that the state is one that the notifications lead to.
pub target_write-outcome :
    (value : ℕ) (err : Esp) (taken sent : Bool) (s : HomeKit)
    → InSync s
    → let (t, status) = gdo_write (set_target value err taken sent) s in
      TargetOutcome value err s t status
unfolding gdo_write
target_write-outcome value err taken sent s h = elim (Bool-cases (value == 0 || value == 1)) [
  | inl v ↦ elim (Bool-cases (is_ok err)) [
    | inl e ↦ elim (queue_target-cases value taken sent s h (ground (arith, v))) [
      | inl (a, told_it) ↦ rw (v, e, a) (e, told_it)
      | inr (a, same) ↦ rw (v, e, a) same
    ]
    | inr e ↦ rw (v, e) refl
  ]
  | inr v ↦ rw v (refl, ground (arith, v), ground (arith, v))
]
