-- ===== src/Web/Strangers.antt =====
-- What requests without the password can do, to any URI and in any number.
use gdo_blaq_homekit.Prelude.{
  ℕ, ◌≡◌, ◌≢◌, ◌⊎◌, refl, ◌∙◌, Bool, true, false, List, [], ◌∷◌, none, arith,
}
use gdo_blaq_homekit.Ota.{firmware_update, firmware_confirm, firmware_cancel, firmware_rollback}
use gdo_blaq_homekit.Admin.{Kdf, Admin, Request, Response, ok, authorize, is_accepted}
use gdo_blaq_homekit.Admin.Password.{wrong-write_password}
use gdo_blaq_homekit.Web.Pages.{Reply, log_text, activities, status_get}
use gdo_blaq_homekit.Web.Settings.{
  auto_close_settings_post, pre_close_buzzer_post, close_schedule_post,
}
use gdo_blaq_homekit.Log.{log_used}
use gdo_blaq_homekit.Activity.{History}
use gdo_blaq_homekit.Web.World.{World}
use gdo_blaq_homekit.Web.Status.{status_get_handler}
use gdo_blaq_homekit.Web.Routes.{
  Call, root, favicon, get_status, get_logs, download_logs, restart, pre_close_buzzer, auto_close,
  close_schedule, update, confirm, cancel, rollback, change_password, set_password, get_activity,
  restart_post, handle,
}

-- The answer holds neither the log nor the activity history. The status is open to all.
abbrev pub is_discreet : Reply → Bool
is_discreet (log_text t) = false
is_discreet (activities es) = false
is_discreet _ = true

-- Nothing has changed but, at most, that an upload is no longer pending.
pub record Untouched (w v : World) : Type 0 where
  pub admin : v.admin ≡ w.admin
  pub control : v.control ≡ w.control
  pub restarting : v.restarting ≡ w.restarting
  pub flash : v.ota.trace ≡ w.ota.trace
  pub flags : v.ota.flags ≡ w.ota.flags
  pub pending :
      (v.ota.pending_partition ≡ w.ota.pending_partition) ⊎ (v.ota.pending_partition ≡ none)

accepted_ok : (r : Response) → is_accepted r ≡ false → r ≢ ok
accepted_ok r h = λ e. ground (arith, h, e)

-- A request whose token authorize_mutation() refuses, once a password is set.
pub record IsStranger (kdf : Kdf) (req : Request) (w : World) : Type 0 where
  pub set : w.admin.password_set ≡ true
  pub refused : is_accepted (authorize kdf req.token w.admin) ≡ false

abbrev Result : World → World × Reply → Type 0
Result w r = Untouched w r.0 × (is_discreet r.1 ≡ true)

handle-Untouched :
    (kdf : Kdf) (req : Request) (c : Call) (w : World)
    → IsStranger kdf req w
    → Result w (handle kdf req c w)
unfolding handle restart_post status_get_handler status_get firmware_update firmware_confirm
    firmware_cancel firmware_rollback auto_close_settings_post pre_close_buzzer_post
    close_schedule_post
handle-Untouched kdf req root w h = ground arith
handle-Untouched kdf req favicon w h = ground arith
handle-Untouched kdf req (get_status r) w h = ground arith
handle-Untouched kdf req (get_logs taken read) w h = ground (arith, h)
handle-Untouched kdf req (download_logs taken read) w h = ground (arith, h)
handle-Untouched kdf req restart w h = ground (arith, h)
handle-Untouched kdf req (pre_close_buzzer a) w h = ground (arith, h)
handle-Untouched kdf req (auto_close a b) w h = ground (arith, h)
handle-Untouched kdf req (close_schedule a) w h = ground (arith, h)
handle-Untouched kdf req (update u) w h = ground (arith, h)
handle-Untouched kdf req (confirm now set) w h = ground (arith, h)
handle-Untouched kdf req cancel w h = ground (arith, h)
handle-Untouched kdf req (rollback r) w h = ground (arith, h)
handle-Untouched kdf req (change_password salt a) w h =
    ground (arith, wrong-write_password kdf true req salt a w.admin h.set (accepted_ok _ h.refused))
handle-Untouched kdf req (set_password salt a) w h =
    ground
      (arith, wrong-write_password kdf false req salt a w.admin h.set (accepted_ok _ h.refused))
handle-Untouched kdf req (get_activity allocated added printed) w h = ground (arith, h)

-- The state with other bytes in the log, and another history.
abbrev pub with_secrets : List ℕ → History → World → World
with_secrets bytes h w = record w { log = record w.log { buf = bytes }; history = h }

handle-same_reply :
    (kdf : Kdf) (req : Request) (c : Call) (bytes : List ℕ) (h : History) (w : World)
    → IsStranger kdf req w
    → (handle kdf req c (with_secrets bytes h w)).1 ≡ (handle kdf req c w).1
unfolding handle restart_post status_get_handler log_used
handle-same_reply kdf req root bytes h w k = refl
handle-same_reply kdf req favicon bytes h w k = refl
handle-same_reply kdf req (get_status r) bytes h w k = refl
handle-same_reply kdf req (get_logs taken read) bytes h w k = ground (arith, k)
handle-same_reply kdf req (download_logs taken read) bytes h w k = ground (arith, k)
handle-same_reply kdf req restart bytes h w k = ground (arith, k)
handle-same_reply kdf req (pre_close_buzzer a) bytes h w k = refl
handle-same_reply kdf req (auto_close a b) bytes h w k = refl
handle-same_reply kdf req (close_schedule a) bytes h w k = refl
handle-same_reply kdf req (update u) bytes h w k = refl
handle-same_reply kdf req (confirm now set) bytes h w k = refl
handle-same_reply kdf req cancel bytes h w k = refl
handle-same_reply kdf req (rollback r) bytes h w k = refl
handle-same_reply kdf req (change_password salt a) bytes h w k = refl
handle-same_reply kdf req (set_password salt a) bytes h w k = refl
handle-same_reply kdf req (get_activity allocated added printed) bytes h w k = ground (arith, k)

Untouched-trans : {u v w : World} → Untouched u v → Untouched v w → Untouched u w
Untouched-trans h k = record {
  admin = k.admin ∙ h.admin;
  control = k.control ∙ h.control;
  restarting = k.restarting ∙ h.restarting;
  flash = k.flash ∙ h.flash;
  flags = k.flags ∙ h.flags;
  pending = ground (arith, h.pending, k.pending);
}

-- A request to one of the URIs.
pub record Sent : Type 0 where
  pub request : Request
  pub call : Call

unfoldable pub serve_all : Kdf → List Sent → World → World
serve_all kdf [] w = w
serve_all kdf (r ∷ rs) w = serve_all kdf rs (handle kdf r.request r.call w).0

-- No request has a token that is accepted for these credentials.
abbrev pub AllRefused : Kdf → Admin → List Sent → Type 0
AllRefused kdf admin [] = Unit {0}
AllRefused kdf admin (r ∷ rs) =
    (is_accepted (authorize kdf r.request.token admin) ≡ false) × AllRefused kdf admin rs

serve_all-Untouched :
    (kdf : Kdf) (rs : List Sent) (w : World) (admin : Admin)
    → w.admin ≡ admin
    → admin.password_set ≡ true
    → AllRefused kdf admin rs
    → Untouched w (serve_all kdf rs w)
unfolding serve_all
serve_all-Untouched kdf [] w admin e h n = ground arith
serve_all-Untouched kdf (r ∷ rs) w admin e h n =
    let v = (handle kdf r.request r.call w).0 in
    let stranger : IsStranger kdf r.request w = record { set = rw e h; refused = rw e n.0 } in
    let first = (handle-Untouched kdf r.request r.call w stranger).0 in
    Untouched-trans first (serve_all-Untouched kdf rs v admin (first.admin ∙ e) h n.1)

-- Strangers change nothing, and get neither the log nor the history: once a password is set, after
-- any number of requests to any URI, none with a token that is accepted, the credentials, the
-- settings and the control of the door, the flash and the flags of the slots are as before and no
-- restart was started; at most an upload is no longer pending. The answer to one more such request
-- is neither the text of the log nor the activity history, and is the same whatever bytes are in
-- the log and whatever the history is; this holds of the status too.
pub strangers-Untouched :
    (kdf : Kdf) (rs : List Sent) (req : Request) (c : Call) (bytes : List ℕ) (h : History)
    (w : World)
    → w.admin.password_set ≡ true
    → AllRefused kdf w.admin rs
    → is_accepted (authorize kdf req.token w.admin) ≡ false
    → let v = serve_all kdf rs w in
      Untouched w v
      × (is_discreet (handle kdf req c v).1 ≡ true)
      × ((handle kdf req c (with_secrets bytes h v)).1 ≡ (handle kdf req c v).1)
strangers-Untouched kdf rs req c bytes h w set n k =
    let u = serve_all-Untouched kdf rs w w.admin refl set n in
    let v = serve_all kdf rs w in
    let stranger : IsStranger kdf req v = record { set = rw u.admin set; refused = rw u.admin k } in
    (u, (handle-Untouched kdf req c v stranger).1, handle-same_reply kdf req c bytes h v stranger)
