-- ===== src/Admin/Password.antt =====
-- Who can change the admin password, and that an accepted one is accepted again.
use gdo_blaq_homekit.Prelude.{
  ℕ, ◌==◌, ◌-◌, ◌<◌, leb, bytes_eq, ◌≤◌, ◌≡◌, ◌≢◌, inl, inr, refl, sym, ap, ◌∙◌, Bool, true, false,
  Bool-cases, Option-cases, not, ◌&&◌, ◌||◌, if◌then◌else◌, List, [], ◌∷◌, ◌++◌, Option, none, some,
  length, length-append, take, length-take, arith,
}
use gdo_blaq_homekit.Opener.{Esp, not_found, is_ok}
use gdo_blaq_homekit.Origin.{from_own_page}
use gdo_blaq_homekit.Origin.Local.{bytes_eq_refl, bytes_eq_sound}
use gdo_blaq_homekit.Origin.Page.{OwnPage, from_own_page-OwnPage}
use gdo_blaq_homekit.Control.Settings.{Write}
use gdo_blaq_homekit.Admin.{
  Kdf, Admin, boot, kdf_iterations, Header, absent, unreadable, text, copy_req_header, header_bytes,
  is_bad, Request, ok, bad_request, own_page, check_hash, authorize, receive, may_be_password,
  may_write, store_password, take_password, is_accepted, write_password, SavedRecord, found,
  missing, failed, OlderKeys, init_older, init_credentials,
}

-- What is read of a header into a buffer of `size` bytes with its NUL: nothing where it is not sent
-- or empty, and the whole text where it fits. A longer one, or one that cannot be read, reads as
-- nothing at all.
pub data Reads (size : ℕ) : Header → List ℕ → Type 0 where
  not_sent : Reads size absent []
  empty : Reads size (text []) []
  sent : (t : List ℕ) → t ≢ [] → length t < size → Reads size (text t) t

-- Its three headers could be read, and say that it came from the device's own page.
pub record FromOwnPage (req : Request) : Type 0 where
  pub host : List ℕ
  pub origin : List ℕ
  pub site : List ℕ
  pub host_read : Reads 128 req.host host
  pub origin_read : Reads 160 req.origin origin
  pub site_read : Reads 32 req.site site
  pub own : OwnPage host origin site

-- The header carries the password of the state: a text of at most 64 bytes from which the key
-- derivation makes the hash that is kept.
pub record Holds (kdf : Kdf) (h : Header) (s : Admin) : Type 0 where
  pub set : s.password_set ≡ true
  pub password : List ℕ
  pub carried : h ≡ text password
  pub size : length password ≤ 64
  pub same : kdf password s.credentials.salt s.credentials.iterations ≡ some s.credentials.hash

-- The request may change the password of the state: it carries the old one, or there is none yet
-- and it comes from the device's own page.
abbrev pub Entitled : Kdf → Bool → Request → Admin → Type 0
Entitled kdf true req s = Holds kdf req.token s
Entitled kdf false req s = (s.password_set ≡ false) × FromOwnPage req

empty_text : (t : List ℕ) → length t ≡ 0 → t ≡ []
empty_text [] h = refl
empty_text (c ∷ t) h = absurd (omega (arith, h))

copy_req_header-Reads :
    (size : ℕ) (h : Header)
    → is_bad (copy_req_header size h) ≡ false
    → Reads size h (header_bytes (copy_req_header size h))
unfolding copy_req_header
copy_req_header-Reads size absent b = not_sent
copy_req_header-Reads size unreadable b = absurd (ground (arith, b))
copy_req_header-Reads size (text []) b = empty
copy_req_header-Reads size (text (c ∷ t)) b =
    let some_bytes : (length (c ∷ t) == 0) ≡ false = ground arith in
    elim (Bool-cases (leb size (length (c ∷ t)))) [
      | inl e ↦ absurd (ground (arith, b, e))
      | inr e ↦
          rw (some_bytes, e) (sent (c ∷ t) (λ z. absurd (ground (arith, z))) (ground (arith, e)))
    ]

authorize-Holds : (kdf : Kdf) (h : Header) (s : Admin) → authorize kdf h s ≡ ok → Holds kdf h s
unfolding authorize check_hash
authorize-Holds kdf absent s e = absurd (ground (arith, e))
authorize-Holds kdf unreadable s e = absurd (ground (arith, e))
authorize-Holds kdf (text p) s e =
    elim (Option-cases (kdf p s.credentials.salt s.credentials.iterations)) [
      | inl k ↦ absurd (ground (arith, e, k))
      | inr (hash, k) ↦
          (let equal : bytes_eq hash s.credentials.hash ≡ true = ground (arith, e, k) in
            record {
              set = ground (arith, e);
              password = p;
              carried = refl;
              size = ground (arith, e);
              same = k ∙ ap some (bytes_eq_sound hash s.credentials.hash equal);
            })
    ]

both : (a b : Bool) → (a && b) ≡ true → (a ≡ true) × (b ≡ true)
both a b h = (ground (arith, h), ground (arith, h))

none_bad : (a b c : Bool) → not (a || b || c) ≡ true → (a ≡ false) × (b ≡ false) × (c ≡ false)
none_bad a b c h = (ground (arith, h), ground (arith, h), ground (arith, h))

own_page-FromOwnPage : (req : Request) → own_page req ≡ true → FromOwnPage req
unfolding own_page
own_page-FromOwnPage req h =
    let host = copy_req_header 128 req.host in
    let origin = copy_req_header 160 req.origin in
    let site = copy_req_header 32 req.site in
    let (fine, page) =
      both (not (is_bad host || is_bad origin || is_bad site))
        (from_own_page (header_bytes host) (header_bytes origin) (header_bytes site)) h in
    let (a, b, c) = none_bad (is_bad host) (is_bad origin) (is_bad site) fine in
    record {
      host = header_bytes host;
      origin = header_bytes origin;
      site = header_bytes site;
      host_read = copy_req_header-Reads 128 req.host a;
      origin_read = copy_req_header-Reads 160 req.origin b;
      site_read = copy_req_header-Reads 32 req.site c;
      own =
          from_own_page-OwnPage (header_bytes host) (header_bytes origin) (header_bytes site) page;
    }

may_write-Entitled :
    (kdf : Kdf) (changing : Bool) (req : Request) (s : Admin)
    → is_accepted (may_write kdf changing req s) ≡ true
    → Entitled kdf changing req s
unfolding may_write
may_write-Entitled kdf true req s h = authorize-Holds kdf req.token s (ground (arith, h))
may_write-Entitled kdf false req s h =
    (ground (arith, h), own_page-FromOwnPage req (ground (arith, h)))

-- The password changes only for a request that may change it: if the state is not as before, then a
-- password was set and X-GDO-Token carried a text of at most 64 bytes from which the key derivation
-- makes the hash that was kept, or no password was set, and the Host, Origin and Sec-Fetch-Site of
-- the request, none of which was too long or unreadable, are those of the device's own page.
pub write_password-Entitled :
    (kdf : Kdf) (changing : Bool) (req : Request) (salt : List ℕ) (w : Write) (s : Admin)
    → (write_password kdf changing req salt w s).0 ≢ s
    → Entitled kdf changing req s
unfolding write_password
write_password-Entitled kdf changing req salt w s h =
    elim (Bool-cases (is_accepted (may_write kdf changing req s))) [
      | inl e ↦ may_write-Entitled kdf changing req s e
      | inr e ↦ absurd (h (rw e refl))
    ]

receive-length :
    (wanted : ℕ) (got p : List ℕ) (chunks : List (Option (List ℕ)))
    → length got ≤ wanted
    → receive wanted got chunks ≡ some p
    → length p ≡ wanted
unfolding receive
receive-length wanted got p [] le h = ground (arith, h)
receive-length wanted got p (none ∷ chunks) le h = ground (arith, h)
receive-length wanted got p (some c ∷ chunks) le h =
    let more = got ++ take (wanted - length got) c in
    let fits : length more ≤ wanted = omega (
      arith,
      le,
      length-append got (take (wanted - length got) c),
      length-take (wanted - length got) c,
    ) in
    ground (arith, h, receive-length wanted more p chunks fits)

-- What a password that was stored comes to.
record Stored (kdf : Kdf) (p salt : List ℕ) (t : Admin) : Type 0 where
  is_set : t.password_set ≡ true
  same : kdf p t.credentials.salt t.credentials.iterations ≡ some t.credentials.hash

store_password-Stored :
    (kdf : Kdf) (p salt : List ℕ) (w : Write) (s : Admin)
    → (store_password (kdf p salt kdf_iterations) salt w s).1 ≡ ok
    → Stored kdf p salt (store_password (kdf p salt kdf_iterations) salt w s).0
unfolding store_password
store_password-Stored kdf p salt w s h = elim (Option-cases (kdf p salt kdf_iterations)) [
  | inl e ↦ ground (arith, h, e)
  | inr (hash, e) ↦ ground (arith, h, e)
]

Stored-authorize :
    (kdf : Kdf) (p salt : List ℕ) (t : Admin)
    → Stored kdf p salt t
    → length p ≢ 0
    → length p ≤ 64
    → authorize kdf (text p) t ≡ ok
unfolding authorize check_hash
Stored-authorize kdf p salt t h n le =
    ground (arith, h.is_set, h.same, n, le, bytes_eq_refl t.credentials.hash)

take_password-Stored :
    (kdf : Kdf) (p salt : List ℕ) (w : Write) (s : Admin)
    → (take_password kdf (some p) salt w s).1 ≡ ok
    → Stored kdf p salt (take_password kdf (some p) salt w s).0
unfolding take_password
take_password-Stored kdf p salt w s h = elim (Bool-cases (may_be_password p)) [
  | inl e ↦ rw e (
      store_password-Stored kdf p salt w s (
        sym (
          ap
            (λ (b : Bool).
              (if b
                then store_password (kdf p salt kdf_iterations) salt w s
                else (s, bad_request)).1)
            e)
        ∙ h))
  | inr e ↦ ground (arith, h, e)
]

pub accepted_length :
    (kdf : Kdf) (changing : Bool) (req : Request) (salt : List ℕ) (w : Write) (s : Admin)
    → (write_password kdf changing req salt w s).1 ≡ ok
    → (8 ≤ req.content_len)
      × (req.content_len ≤ 64)
      × (write_password kdf changing req salt w s
          ≡ take_password kdf (receive req.content_len [] req.chunks) salt w s)
unfolding write_password
accepted_length kdf changing req salt w s h =
    (ground (arith, h), ground (arith, h), ground (arith, h))

-- An accepted password is not locked out: where the handler answers ok, the body was received, and
-- a later request that carries it in X-GDO-Token is let through, whatever the key derivation
-- computes, as long as it computes the same again.
pub write_password-authorize :
    (kdf : Kdf) (changing : Bool) (req : Request) (salt p : List ℕ) (w : Write) (s : Admin)
    → (write_password kdf changing req salt w s).1 ≡ ok
    → receive req.content_len [] req.chunks ≡ some p
    → authorize kdf (text p) (write_password kdf changing req salt w s).0 ≡ ok
write_password-authorize kdf changing req salt p w s h r =
    let (low, high, e) = accepted_length kdf changing req salt w s h in
    let n = receive-length req.content_len [] p req.chunks (omega arith) r in
    let eq = e ∙ ap (λ b. take_password kdf b salt w s) r in
    let done = take_password-Stored kdf p salt w s (sym (ap (λ x. x.1) eq) ∙ h) in
    ap (λ x. authorize kdf (text p) x.0) eq
    ∙ Stored-authorize kdf p salt (take_password kdf (some p) salt w s).0 done
        (omega (arith, n, low)) (omega (arith, n, high))

-- A request to set or change the password, with the salt and the answers of NVS that it meets.
pub record Attempt : Type 0 where
  pub changing : Bool
  pub request : Request
  pub salt : List ℕ
  pub write : Write

unfoldable pub run : Kdf → List Attempt → Admin → Admin
run kdf [] s = s
run kdf (a ∷ as') s = run kdf as' (write_password kdf a.changing a.request a.salt a.write s).0

-- No attempt carries the password of the state.
abbrev pub AllWrong : Kdf → List Attempt → Admin → Type 0
AllWrong kdf [] s = Unit {0}
AllWrong kdf (a ∷ as') s = (authorize kdf a.request.token s ≢ ok) × AllWrong kdf as' s

not_entitled :
    (kdf : Kdf) (changing : Bool) (req : Request) (s : Admin)
    → s.password_set ≡ true
    → authorize kdf req.token s ≢ ok
    → is_accepted (may_write kdf changing req s) ≡ false
unfolding may_write
not_entitled kdf true req s h n = ground (arith, n)
not_entitled kdf false req s h n = ground (arith, h)

pub wrong-write_password :
    (kdf : Kdf) (changing : Bool) (req : Request) (salt : List ℕ) (w : Write) (s : Admin)
    → s.password_set ≡ true
    → authorize kdf req.token s ≢ ok
    → (write_password kdf changing req salt w s).0 ≡ s
unfolding write_password
wrong-write_password kdf changing req salt w s h n = simp (not_entitled kdf changing req s h n) refl

-- Once a password is set, no sequence of requests that do not carry it, from the device's own page
-- or not, changes anything of it.
pub wrong-run :
    (kdf : Kdf) (as' : List Attempt) (s : Admin)
    → s.password_set ≡ true
    → AllWrong kdf as' s
    → run kdf as' s ≡ s
unfolding run
wrong-run kdf [] s h n = refl
wrong-run kdf (a ∷ as') s h n =
    ap (run kdf as') (wrong-write_password kdf a.changing a.request a.salt a.write s h n.0)
    ∙ wrong-run kdf as' s h n.1

-- The start reopens enrollment only on a fresh device: if it succeeds from the state at power-on and
-- no password counts as set, then NVS was opened, the record was missing, and so was each key of
-- older firmware. Partial or damaged credentials never do.
pub init_credentials-fresh :
    (opened : Esp) (saved : SavedRecord) (k : OlderKeys)
    → (init_credentials opened saved k boot).1 ≡ true
    → (init_credentials opened saved k boot).0.password_set ≡ false
    → (is_ok opened ≡ true)
      × (saved ≡ missing)
      × (k.salt_err ≡ not_found)
      × (k.hash_err ≡ not_found)
      × (k.iter_err ≡ not_found)
unfolding init_credentials init_older
init_credentials-fresh opened (found len c) k h n = absurd (ground (arith, h, n))
init_credentials-fresh opened missing k h n =
    (ground (arith, h, n), refl, ground (arith, h, n), ground (arith, h, n), ground (arith, h, n))
init_credentials-fresh opened failed k h n = absurd (ground (arith, h, n))
