-- ===== src/Admin/Restart.antt =====
-- The password over a restart: what the handler stores, and what the start loads.
use gdo_blaq_homekit.Prelude.{
  ℕ, ◌≡◌, inl, inr, ap, sym, ◌∙◌, Bool, true, Bool-cases, List, [], Option, none, some, arith,
}
use gdo_blaq_homekit.Opener.{esp_ok}
use gdo_blaq_homekit.Control.Settings.{Write}
use gdo_blaq_homekit.Admin.{
  Kdf, Admin, Credentials, boot, kdf_iterations, text, Request, ok, authorize, receive,
  may_be_password, store_password, take_password, write_password, found, OlderKeys,
  init_credentials,
}
use gdo_blaq_homekit.Admin.Password.{accepted_length, write_password-authorize}

-- The state is that of a new password.
record IsNew (t : Admin) : Type 0 where
  is_set : t.password_set ≡ true
  iterations : t.credentials.iterations ≡ kdf_iterations
  stored : t.stored ≡ some t.credentials

store_password-IsNew :
    (o : Option (List ℕ)) (salt : List ℕ) (w : Write) (s : Admin)
    → (store_password o salt w s).1 ≡ ok
    → IsNew (store_password o salt w s).0
unfolding store_password
store_password-IsNew none salt w s h = absurd (ground (arith, h))
store_password-IsNew (some hash) salt w s h = ground (arith, h)

take_password-IsNew :
    (kdf : Kdf) (o : Option (List ℕ)) (salt : List ℕ) (w : Write) (s : Admin)
    → (take_password kdf o salt w s).1 ≡ ok
    → IsNew (take_password kdf o salt w s).0
unfolding take_password
take_password-IsNew kdf none salt w s h = absurd (ground (arith, h))
take_password-IsNew kdf (some p) salt w s h = elim (Bool-cases (may_be_password p)) [
  | inl e ↦ rw e (store_password-IsNew (kdf p salt kdf_iterations) salt w s (ground (arith, h, e)))
  | inr e ↦ absurd (ground (arith, h, e))
]

write_password-IsNew :
    (kdf : Kdf) (changing : Bool) (req : Request) (salt : List ℕ) (w : Write) (s : Admin)
    → (write_password kdf changing req salt w s).1 ≡ ok
    → IsNew (write_password kdf changing req salt w s).0
write_password-IsNew kdf changing req salt w s h =
    let (low, high, e) = accepted_length kdf changing req salt w s h in
    let body = receive req.content_len [] req.chunks in
    rw e (take_password-IsNew kdf body salt w s (sym (ap (λ x. x.1) e) ∙ h))

-- The state at the next power-on: NVS keeps its record.
abbrev pub restarted : Admin → Admin
restarted t = record boot { stored = t.stored }

init_credentials-IsNew :
    (t : Admin) (k : OlderKeys)
    → IsNew t
    → init_credentials esp_ok (found 52 t.credentials) k (restarted t) ≡ (t, true)
unfolding init_credentials
init_credentials-IsNew t k h = ground (arith, h.is_set, h.iterations)

-- An accepted password stays accepted over a restart: where the handler answers ok, the password of
-- its body is let through in X-GDO-Token; NVS then holds a record, and the next start, which loads
-- that record with its 52 bytes, succeeds; and the same password is let through then, as long as
-- the key derivation computes the same again.
pub password_survives_restart :
    (kdf : Kdf) (changing : Bool) (req : Request) (salt p : List ℕ) (w : Write) (s : Admin)
    (k : OlderKeys)
    → (write_password kdf changing req salt w s).1 ≡ ok
    → receive req.content_len [] req.chunks ≡ some p
    → let t = (write_password kdf changing req salt w s).0 in
      (authorize kdf (text p) t ≡ ok)
      × ((c : Credentials) × (t.stored ≡ some c)
          × (let (u, started) = init_credentials esp_ok (found 52 c) k (restarted t) in
              (started ≡ true) × (authorize kdf (text p) u ≡ ok)))
password_survives_restart kdf changing req salt p w s k h r =
    let t = (write_password kdf changing req salt w s).0 in
    let new = write_password-IsNew kdf changing req salt w s h in
    let loaded = init_credentials-IsNew t k new in
    let now = write_password-authorize kdf changing req salt p w s h r in
    (
      now,
      (
        t.credentials,
        new.stored,
        (ap (λ x. x.1) loaded, ap (λ x. authorize kdf (text p) x.0) loaded ∙ now),
      ),
    )
