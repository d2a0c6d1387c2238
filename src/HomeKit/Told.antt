-- ===== src/HomeKit/Told.antt =====
-- What HAP was told of each characteristic, and what is remembered as told.
use gdo_blaq_homekit.Prelude.{
  ℕ, ◌≡◌, ◌≢◌, refl, sym, ap, ◌∙◌, Bool, true, false, Bool-cases, ==_iff, inl, inr, ◌||◌, not,
  if◌then◌else◌, ◌==◌, List, [], ◌∷◌, ◌++◌, append_assoc, Option, none, some, arith,
}
use gdo_blaq_homekit.Opener.{is_unset}
use gdo_blaq_homekit.HomeKit.{
  Dest, door_current_state, door_target_state, lock_current_state, lock_target_state, obstruction,
  light, motion, learn, dest_code, GdoEvent, HomeKit, target_unknown, enqueue,
  map_gdo_to_homekit_state, light_code, light_value, learn_code, learn_value, obstruction_code,
  obstruction_value, lock_code, lock_value, motion_code, motion_value,
}

-- The value of the last update of a characteristic.
unfoldable pub latest : Dest → List GdoEvent → Option ℕ
latest d [] = none
latest d (e ∷ es) = elim (latest d es) [
  | none ↦ if dest_code e.dest == dest_code d then some e.value else none
  | some v ↦ some v
]

-- What HAP was told, and then what it will be told.
abbrev pub told : HomeKit → List GdoEvent
told s = s.updates ++ s.queue

pub latest-push :
    (d : Dest) (es : List GdoEvent) (e : GdoEvent)
    → latest d (es ++ e ∷ [])
      ≡ (if dest_code e.dest == dest_code d then some e.value else latest d es)
unfolding latest
latest-push d [] e = refl
latest-push d (x ∷ es) e = ground (arith, latest-push d es e)

pub latest-hidden :
    (d : Dest) (us q : List GdoEvent) (e : GdoEvent)
    → dest_code e.dest ≢ dest_code d
    → latest d (us ++ e ∷ q) ≡ latest d (us ++ q)
unfolding latest
latest-hidden d [] q e h = ground (arith, h)
latest-hidden d (x ∷ us) q e h = ground (arith, latest-hidden d us q e h)

pub latest-enqueue :
    (d d' : Dest) (v : ℕ) (s : HomeKit)
    → latest d (told (enqueue d' v s))
      ≡ (if dest_code d' == dest_code d then some v else latest d (told s))
latest-enqueue d d' v s =
    ap (latest d) (sym (append_assoc s.updates s.queue (record { dest = d'; value = v } ∷ [])))
    ∙ latest-push d (s.updates ++ s.queue) (record { dest = d'; value = v })

-- The value that the firmware remembers as sent, if any: a state that was never told has none. The
-- lock's target is not remembered, and Learn only where its tile is shown.
unfoldable pub remembered : Dest → HomeKit → Option ℕ
remembered door_current_state s =
    if is_unset s.last_door then none else some (map_gdo_to_homekit_state s.last_door)
remembered door_target_state s =
    if s.last_target == target_unknown then none else some s.last_target
remembered lock_current_state s =
    if lock_code s.last_lock == 3 then none else some (lock_value s.last_lock)
remembered lock_target_state s = none
remembered obstruction s =
    if obstruction_code s.last_obstruction == 3
    then none
    else some (obstruction_value s.last_obstruction)
remembered light s = if light_code s.last_light == 3 then none else some (light_value s.last_light)
remembered motion s =
    if motion_code s.last_motion == 3 then none else some (motion_value s.last_motion)
remembered learn s =
    if not s.learn_supported || learn_code s.last_learn == 3
    then none
    else some (learn_value s.last_learn)

-- What is remembered of a characteristic is the last update of it, told or still queued.
abbrev pub InSync : HomeKit → Type 0
InSync s = (d : Dest) (v : ℕ) → remembered d s ≡ some v → latest d (told s) ≡ some v

-- Apart from one characteristic, two states remember the same.
abbrev pub SameBut : Dest → HomeKit → HomeKit → Type 0
SameBut d s t = (d' : Dest) → dest_code d' ≢ dest_code d → remembered d' t ≡ remembered d' s

dest_code_inj : (d d' : Dest) → dest_code d ≡ dest_code d' → d ≡ d'
dest_code_inj d d' e = ground (arith, e)

-- An event that is queued and remembered.
pub pushed-InSync :
    (d : Dest) (v : ℕ) (s t : HomeKit)
    → InSync s
    → told t ≡ told (enqueue d v s)
    → SameBut d s t
    → ((w : ℕ) → remembered d t ≡ some w → w ≡ v)
    → InSync t
pushed-InSync d v s t h same others own d' w r = elim (Bool-cases (dest_code d == dest_code d')) [
  | inl e ↦
      (let eq : d ≡ d' = dest_code_inj d d' ((==_iff (dest_code d) (dest_code d')).0 e) in
        ap (latest d') same
        ∙ latest-enqueue d' d v s
        ∙ rw e (ap (λ x. some x) (sym (own w (ap (λ x. remembered x t) eq ∙ r)))))
  | inr e ↦
      ap (latest d') same
      ∙ latest-enqueue d' d v s
      ∙ rw e (h d' w (sym (others d' (ground (arith, e))) ∙ r))
]

-- Nothing, or the update, after two tests.
pub guarded :
    (b c : Bool) (s t : HomeKit)
    → InSync s
    → InSync t
    → InSync (if b then s else if c then t else s)
guarded true c s t h k = h
guarded false true s t h k = k
guarded false false s t h k = h
