-- ===== src/Web/Start.antt =====
-- main/diag_webserver.cpp: start_httpd_server, and the start by wait_for_network_and_start_task.
use gdo_blaq_homekit.Prelude.{
  ℕ, Bool, true, false, not, ◌&&◌, if◌then◌else◌, List, [], ◌∷◌, ◌++◌, ◌≡◌, refl, arith, ap, ap₂,
  ◌∙◌, append_assoc, append-nil, inl, inr, Bool-cases,
}

-- The handlers, in the order in which they are registered.
pub data Route : Type 0 where
  at_root at_status at_logs at_logs_download at_favicon at_restart at_pre_close_buzzer at_auto_close
        at_close_schedule :
      Route
  at_firmware_update at_firmware_confirm at_firmware_cancel at_firmware_rollback : Route
  at_change_password at_activity at_set_password : Route

abbrev pub routes : List Route
routes =
    at_root ∷ at_status ∷ at_logs ∷ at_logs_download ∷ at_favicon ∷ at_restart ∷ at_pre_close_buzzer
    ∷ at_auto_close ∷ at_close_schedule ∷ at_firmware_update ∷ at_firmware_confirm
    ∷ at_firmware_cancel ∷ at_firmware_rollback ∷ at_change_password ∷ at_activity ∷ at_set_password
    ∷ []

-- `config.max_uri_handlers`.
abbrev pub max_uri_handlers : ℕ
max_uri_handlers = 18

-- `s_server`, and whether a server runs with which handlers, whoever knows it.
pub record Httpd : Type 0 where
  pub handle : Bool
  pub running : Bool
  pub registered : List Route

abbrev pub stopped : Httpd
stopped = record { handle = false; running = false; registered = [] }

abbrev pub is_buzzer : Route → Bool
is_buzzer at_pre_close_buzzer = true
is_buzzer _ = false

-- What is done where a registration fails: httpd_stop() and `s_server = nullptr`, but for one handler.
unfoldable pub on_failure : Route → Httpd → Httpd
on_failure r s = if is_buzzer r then s else stopped

-- The registrations; `accepts` tells whether httpd_register_uri_handler() takes a handler.
unfoldable pub register_all : List Route → (Route → Bool) → Httpd → Httpd × Bool
unfolding on_failure
register_all [] accepts s = (s, true)
register_all (r ∷ rs) accepts s =
    let rest = register_all rs accepts (record s { registered = s.registered ++ r ∷ [] }) in
    if accepts r then rest else (on_failure r s, false)

-- `start_httpd_server`; `started` tells whether httpd_start() succeeds.
unfoldable pub start_httpd_server : Bool → (Route → Bool) → Httpd → Httpd × Bool
start_httpd_server started accepts s =
    if not started
    then (record s { handle = false }, false)
    else register_all routes accepts (record { handle = true; running = true; registered = [] })

abbrev pub all_accepted : List Route → (Route → Bool) → Bool
all_accepted [] accepts = true
all_accepted (r ∷ rs) accepts = accepts r && all_accepted rs accepts

register_all-ok :
    (rs : List Route) (accepts : Route → Bool) (s : Httpd)
    → (register_all rs accepts s).1 ≡ all_accepted rs accepts
unfolding register_all
register_all-ok [] accepts s = refl
register_all-ok (r ∷ rs) accepts s =
    ground (arith, register_all-ok rs accepts (record s { registered = s.registered ++ r ∷ [] }))

register_all-registered :
    (rs : List Route) (accepts : Route → Bool) (s : Httpd)
    → (register_all rs accepts s).1 ≡ true
    → (register_all rs accepts s).0 ≡ record s { registered = s.registered ++ rs }
unfolding register_all
register_all-registered [] accepts s h = rw (append-nil s.registered) refl
register_all-registered (r ∷ rs) accepts s h = elim (Bool-cases (accepts r)) [
  | inl e ↦
      (let t = record s { registered = s.registered ++ r ∷ [] } in
        rw e (
          register_all-registered rs accepts t (ground (arith, h, e))
          ∙ ap (λ l. record s { registered = l }) (append_assoc s.registered (r ∷ []) rs)))
  | inr e ↦ absurd (ground (arith, h, e))
]

is_buzzer-eq : (r : Route) → is_buzzer r ≡ true → r ≡ at_pre_close_buzzer
is_buzzer-eq r h = ground (arith, h)

register_all-stopped :
    (rs : List Route) (accepts : Route → Bool) (s : Httpd)
    → accepts at_pre_close_buzzer ≡ true
    → (register_all rs accepts s).1 ≡ false
    → (register_all rs accepts s).0 ≡ stopped
unfolding register_all on_failure
register_all-stopped [] accepts s b h = absurd (ground (arith, h))
register_all-stopped (r ∷ rs) accepts s b h = elim (Bool-cases (accepts r)) [
  | inl e ↦
      (let t = record s { registered = s.registered ++ r ∷ [] } in
        rw e (register_all-stopped rs accepts t b (ground (arith, h, e))))
  | inr e ↦ rw e (buzzer_only r accepts s b e)
]
  where
    buzzer_only :
        (r : Route) (accepts : Route → Bool) (s : Httpd)
        → accepts at_pre_close_buzzer ≡ true
        → accepts r ≡ false
        → (if is_buzzer r then s else stopped) ≡ stopped
    buzzer_only r accepts s b e = elim (Bool-cases (is_buzzer r)) [
      | inl k ↦ (let same = is_buzzer-eq r k in absurd (cc (ap accepts same)))
      | inr k ↦ rw k refl
    ]

-- The server runs with all its handlers or not at all: where the handler of
-- /settings/pre-close-buzzer can be registered, start_httpd_server() succeeds exactly if httpd_start()
-- does and every handler is registered, and then the server has the sixteen handlers; else, if
-- one is not registered, the server is stopped, and in either case `s_server` is null.
pub start_httpd_server-outcome :
    (started : Bool) (accepts : Route → Bool) (s : Httpd)
    → accepts at_pre_close_buzzer ≡ true
    → start_httpd_server started accepts s ≡ (
      if started
          then (if all_accepted routes accepts
              then record { handle = true; running = true; registered = routes }
              else stopped)
          else record s { handle = false },
      started && all_accepted routes accepts,
    )
unfolding start_httpd_server
start_httpd_server-outcome false accepts s b = refl
start_httpd_server-outcome true accepts s b =
    let empty : Httpd = record { handle = true; running = true; registered = [] } in
    let result = register_all-ok routes accepts empty in
    elim (Bool-cases (all_accepted routes accepts)) [
      | inl e ↦ rw e (
          ap₂ (λ t r. (t, r)) (register_all-registered routes accepts empty (result ∙ e))
            (result ∙ e))
      | inr e ↦ rw e (
          ap₂ (λ t r. (t, r)) (register_all-stopped routes accepts empty b (result ∙ e))
            (result ∙ e))
    ]
