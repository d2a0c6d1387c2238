-- ===== src/Admin/Tests.antt =====
-- Tests and witnesses for the admin password.
use gdo_blaq_homekit.Prelude.{
  ◌≡◌, ◌≢◌, ◌++◌, refl, true, false, List, [], ◌∷◌, none, some, codes, arith,
}
use gdo_blaq_homekit.Opener.{esp_ok, not_found, is_ok}
use gdo_blaq_homekit.Origin.{
  from_own_page, host_is_local, host_len, name_len, index_of, is_ipv4, quad_loop, ieq, matches_host,
  after_sep, authority_len,
}
use gdo_blaq_homekit.Control.Settings.{Write}
use gdo_blaq_homekit.Admin.{
  Kdf, Admin, Credentials, boot, absent, text, Request, ok, own_page, copy_req_header, check_hash,
  authorize, receive, may_write, take_password, store_password, write_password, found, missing,
  OlderKeys, init_credentials, init_older,
}
use gdo_blaq_homekit.Admin.Restart.{restarted, password_survives_restart}
use gdo_blaq_homekit.Admin.Password.{
  Entitled, write_password-Entitled, write_password-authorize, Attempt, run, wrong-run,
  init_credentials-fresh,
}

-- A key derivation to compute with: the salt before the password.
abbrev toy : Kdf
toy p salt n = some (salt ++ p)

abbrev saved : Write
saved = record { opened = esp_ok; set = esp_ok; committed = esp_ok }

-- The first password, set from the device's own page, in two pieces.
abbrev first : Request
first = record {
  host = text (codes "192.168.1.9");
  origin = text (codes "http://192.168.1.9");
  site = text (codes "same-origin");
  token = absent;
  content_len = 9;
  chunks = some (codes "open ") ∷ some (codes "door") ∷ [];
}

-- A page of another origin tries to set another one.
abbrev foreign : Request
foreign = record first { origin = text (codes "http://evil.example") }

abbrev guess : Request
guess = record first { token = text (codes "password") }

enrolled : (write_password toy false first (7 ∷ []) saved boot).1 ≡ ok
unfolding write_password may_write own_page copy_req_header from_own_page host_is_local host_len
    name_len index_of is_ipv4 quad_loop ieq matches_host after_sep authority_len take_password
    store_password receive
enrolled = refl

foreign_refused : (write_password toy false foreign (7 ∷ []) saved boot).0 ≡ boot
unfolding write_password may_write own_page copy_req_header from_own_page host_is_local host_len
    name_len index_of is_ipv4 quad_loop ieq matches_host after_sep authority_len
foreign_refused = refl

body : receive 9 [] first.chunks ≡ some (codes "open door")
unfolding receive
body = refl

abbrev locked : Admin
locked = record {
  credentials = record { iterations = 4096; salt = 7 ∷ []; hash = 7 ∷ codes "open door" };
  password_set = true;
  stored = none;
}

changed : (write_password toy false first (7 ∷ []) saved boot).0 ≢ boot
unfolding write_password may_write own_page copy_req_header from_own_page host_is_local host_len
    name_len index_of is_ipv4 quad_loop ieq matches_host after_sep authority_len take_password
    store_password receive
changed = λ e. ground (arith, e)

write_password-Entitled_example : Entitled toy false first boot
write_password-Entitled_example =
    write_password-Entitled toy false first (7 ∷ []) saved boot changed

write_password-authorize_at_input :
    authorize toy (text (codes "open door")) (write_password toy false first (7 ∷ []) saved boot).0
    ≡ ok
write_password-authorize_at_input =
    write_password-authorize toy false first (7 ∷ []) (codes "open door") saved boot enrolled body

wrong_token : authorize toy (text (codes "password")) locked ≢ ok
unfolding authorize check_hash
wrong_token = λ e. ground (arith, e)

no_token : authorize toy absent locked ≢ ok
unfolding authorize
no_token = λ e. ground (arith, e)

abbrev attempts : List Attempt
attempts =
    record { changing = false; request = foreign; salt = []; write = saved }
    ∷ record { changing = true; request = guess; salt = []; write = saved }
    ∷ []

wrong-run_at_input : run toy attempts locked ≡ locked
wrong-run_at_input = wrong-run toy attempts locked refl (no_token, (wrong_token, tt))

abbrev fresh : OlderKeys
fresh = record {
  salt_err = not_found;
  salt_len = 16;
  hash_err = not_found;
  hash_len = 32;
  iter_err = not_found;
  credentials = boot.credentials;
}

starts : (init_credentials esp_ok missing fresh boot).1 ≡ true
unfolding init_credentials init_older
starts = refl

starts_open : (init_credentials esp_ok missing fresh boot).0.password_set ≡ false
unfolding init_credentials init_older
starts_open = refl

init_credentials-fresh_example :
    (is_ok esp_ok ≡ true)
    × (missing ≡ missing)
    × (not_found ≡ not_found)
    × (not_found ≡ not_found)
    × (not_found ≡ not_found)
init_credentials-fresh_example = init_credentials-fresh esp_ok missing fresh starts starts_open

password_survives_restart_example :
    let t = (write_password toy false first (7 ∷ []) saved boot).0 in
    (authorize toy (text (codes "open door")) t ≡ ok)
    × ((c : Credentials) × (t.stored ≡ some c)
        × (let (u, started) = init_credentials esp_ok (found 52 c) fresh (restarted t) in
            (started ≡ true) × (authorize toy (text (codes "open door")) u ≡ ok)))
password_survives_restart_example =
    password_survives_restart toy false first (7 ∷ []) (codes "open door") saved boot fresh enrolled
      body
