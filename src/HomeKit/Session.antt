-- ===== src/HomeKit/Session.antt =====
-- main/homekit.cpp: the count of HAP sessions, and whether the Learn tile is offered.
use gdo_blaq_homekit.Prelude.{
  ℕ, suc, ◌-◌, ◌≡◌, refl, Bool, true, false, ◌&&◌, if◌then◌else◌, List, [], ◌∷◌, Option, none, some,
  arith,
}
use gdo_blaq_homekit.Prelude.Int.{ℤ, pos, ◌+ℤ◌, ◌-ℤ◌, ltb_ℤ}
use gdo_blaq_homekit.Opener.{Status, is_v2}
use gdo_blaq_homekit.Rolling.{Wait, wait_for_identified, identified_status}

-- The HAP events that the handler tells apart; those that it only logs are `other_event`.
pub data HapEvent : Type 0 where
  ctrl_connected ctrl_disconnected other_event : HapEvent

-- `hap_session_event_handler` on `s_hap_connected_controllers`.
unfoldable pub session_event : HapEvent → ℤ → ℤ
session_event ctrl_connected count = count +ℤ pos 1
session_event ctrl_disconnected count =
    let left = count -ℤ pos 1 in if ltb_ℤ left (pos 0) then pos 0 else left
session_event other_event count = count

unfoldable pub sessions : List HapEvent → ℤ → ℤ
sessions [] count = count
sessions (e ∷ es) count = sessions es (session_event e count)

-- The controllers that are connected after the events, where a disconnection with none connected
-- counts for nothing.
abbrev pub connected : List HapEvent → ℕ → ℕ
connected [] n = n
connected (ctrl_connected ∷ es) n = connected es (suc n)
connected (ctrl_disconnected ∷ es) n = connected es (n - 1)
connected (other_event ∷ es) n = connected es n

session_event-pos : (e : HapEvent) (n : ℕ) → session_event e (pos n) ≡ pos (connected (e ∷ []) n)
unfolding session_event ◌+ℤ◌ ◌-ℤ◌
session_event-pos ctrl_connected n = ground arith
session_event-pos ctrl_disconnected n = ground arith
session_event-pos other_event n = refl

-- The count of sessions is never negative, and a disconnection that has no connection before it does
-- not put it out of step: after any events it is the number of controllers that are connected.
pub sessions-connected : (es : List HapEvent) (n : ℕ) → sessions es (pos n) ≡ pos (connected es n)
unfolding sessions
sessions-connected [] n = refl
sessions-connected (ctrl_connected ∷ es) n =
    rw (session_event-pos ctrl_connected n) (sessions-connected es (suc n))
sessions-connected (ctrl_disconnected ∷ es) n =
    rw (session_event-pos ctrl_disconnected n) (sessions-connected es (n - 1))
sessions-connected (other_event ∷ es) n =
    rw (session_event-pos other_event n) (sessions-connected es n)

abbrev pub status_is_v2 : Option Status → Bool
status_is_v2 none = false
status_is_v2 (some st) = is_v2 st.protocol

-- `learn_supported`, of what gdo_wait_for_identified_protocol() answers and leaves in `st`.
unfoldable pub learn_supported : Wait → Bool
learn_supported w = wait_for_identified w && status_is_v2 w.status

-- The Learn tile is offered only for a Security+ 2.0 opener that was identified: where it is, gdolib
-- gave a status, the protocol in it is that, and the evidence of the protocol had been seen.
pub learn_supported-identified :
    (w : Wait)
    → learn_supported w ≡ true
    → (st : Status) × (w.status ≡ some st) × (is_v2 st.protocol ≡ true) × (w.after ≡ true)
unfolding learn_supported wait_for_identified identified_status
learn_supported-identified w h = identified w.status (ground (arith, h)) (ground (arith, h))
  where
    identified :
        (o : Option Status)
        → identified_status w.after o ≡ true
        → status_is_v2 o ≡ true
        → (st : Status) × (o ≡ some st) × (is_v2 st.protocol ≡ true) × (w.after ≡ true)
    identified none i v = absurd (ground (arith, v))
    identified (some st) i v = (st, refl, v, ground (arith, i))
