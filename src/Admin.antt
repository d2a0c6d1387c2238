-- ===== src/Admin.antt =====
-- main/diag_webserver.cpp: the admin password, which every request that changes something must carry.
-- mbedtls and NVS are no part of the repository: the key derivation is an argument `kdf` (`none`
-- where it fails), and each call of NVS answers by an argument. Log lines are left out.
pub mod Password
pub mod Restart
pub mod Tests
use gdo_blaq_homekit.Prelude.{
  ℕ, ◌+◌, ◌-◌, ◌==◌, Bool, true, false, not, ◌&&◌, ◌||◌, if◌then◌else◌, ltb, leb, List, [], ◌∷◌,
  ◌++◌, Option, none, some, length, take, get_or, peek, bytes_eq,
}
use gdo_blaq_homekit.Opener.{Esp, esp_ok, not_found, is_ok}
use gdo_blaq_homekit.Origin.{from_own_page}
use gdo_blaq_homekit.Control.Settings.{Write, write_result}

-- What `mbedtls_pkcs5_pbkdf2_hmac_ext` makes of a password, a salt and a number of iterations.
abbrev pub Kdf : Type 0
Kdf = List ℕ → List ℕ → ℕ → Option (List ℕ)

-- `admin_credentials_t`.
pub record Credentials : Type 0 where
  pub iterations : ℕ
  pub salt : List ℕ
  pub hash : List ℕ

-- The static variables, and the record that admin_write_password has put into NVS.
pub record Admin : Type 0 where
  pub credentials : Credentials
  pub password_set : Bool
  pub stored : Option Credentials

abbrev pub boot : Admin
boot = record {
  credentials = record { iterations = 0; salt = []; hash = [] };
  password_set = false;
  stored = none;
}

abbrev pub password_min : ℕ
password_min = 8

abbrev pub password_max : ℕ
password_max = 64

abbrev pub kdf_iterations : ℕ
kdf_iterations = 4096

-- What `copy_req_header` gives: 0, 1 or -1.
pub data Header : Type 0 where
  absent unreadable : Header
  text : List ℕ → Header

-- `copy_req_header` of a buffer of `size` bytes, for a header that is there or not and that can be
-- read or not.
unfoldable pub copy_req_header : ℕ → Header → Header
copy_req_header size absent = absent
copy_req_header size unreadable = unreadable
copy_req_header size (text t) =
    if length t == 0 then absent else if leb size (length t) then unreadable else text t

-- The bytes in the buffer.
abbrev pub header_bytes : Header → List ℕ
header_bytes (text t) = t
header_bytes _ = []

abbrev pub is_bad : Header → Bool
is_bad unreadable = true
is_bad _ = false

-- A request: its headers, its declared length, and what httpd_req_recv() gives, `none` for an error.
pub record Request : Type 0 where
  pub host : Header
  pub origin : Header
  pub site : Header
  pub token : Header
  pub content_len : ℕ
  pub chunks : List (Option (List ℕ))

-- The status of the answer.
pub data Response : Type 0 where
  ok bad_request unauthorized forbidden server_error : Response

-- `reject_unless_own_page`.
unfoldable pub own_page : Request → Bool
unfolding copy_req_header from_own_page
own_page req =
    let host = copy_req_header 128 req.host in
    let origin = copy_req_header 160 req.origin in
    let site = copy_req_header 32 req.site in
    not (is_bad host || is_bad origin || is_bad site)
    && from_own_page (header_bytes host) (header_bytes origin) (header_bytes site)

-- The comparison of the hashes: `difference` is 0 exactly if all bytes are the same.
unfoldable pub check_hash : Option (List ℕ) → Admin → Response
check_hash none s = unauthorized
check_hash (some candidate) s = if bytes_eq candidate s.credentials.hash then ok else unauthorized

-- `authorize_mutation`, of the header X-GDO-Token; `ok` is `true`.
unfoldable pub authorize : Kdf → Header → Admin → Response
authorize kdf (text token) s =
    if not s.password_set
    then forbidden
    else if length token == 0 || ltb password_max (length token)
    then unauthorized
    else check_hash (kdf token s.credentials.salt s.credentials.iterations) s
authorize kdf _ s = if not s.password_set then forbidden else unauthorized

-- The loop that receives the body. httpd_req_recv() gives at most the bytes that are asked for; an
-- error, or nothing, ends the request.
unfoldable pub receive : ℕ → List ℕ → List (Option (List ℕ)) → Option (List ℕ)
receive wanted got [] = if leb wanted (length got) then some got else none
receive wanted got (none ∷ chunks) = if leb wanted (length got) then some got else none
receive wanted got (some c ∷ chunks) =
    let rest = receive wanted (got ++ take (wanted - length got) c) chunks in
    if leb wanted (length got) then some got else if length c == 0 then none else rest

abbrev pub printable : List ℕ → Bool
printable [] = true
printable (c ∷ s) = not (ltb c 32 || ltb 126 c) && printable s

-- What a password may look like: it comes back in a header.
abbrev pub may_be_password : List ℕ → Bool
may_be_password p = printable p && not (peek p == b' ' || get_or p (length p - 1) 0 == b' ')

-- Who may write the password: the holder of the old one, or the device's own page while there is
-- none. `ok` where the request goes on.
unfoldable pub may_write : Kdf → Bool → Request → Admin → Response
may_write kdf true req s = authorize kdf req.token s
may_write kdf false req s =
    if s.password_set then forbidden else if own_page req then ok else forbidden

-- The new hash is stored, and then goes into force. A write that fails stores nothing.
unfoldable pub store_password : Option (List ℕ) → List ℕ → Write → Admin → Admin × Response
store_password none salt w s = (s, server_error)
store_password (some hash) salt w s =
    let new : Credentials = record { iterations = kdf_iterations; salt = salt; hash = hash } in
    if is_ok (write_result w)
    then (record { credentials = new; password_set = true; stored = some new }, ok)
    else (s, server_error)

unfoldable pub take_password : Kdf → Option (List ℕ) → List ℕ → Write → Admin → Admin × Response
take_password kdf none salt w s = (s, bad_request)
take_password kdf (some p) salt w s =
    if may_be_password p
    then store_password (kdf p salt kdf_iterations) salt w s
    else (s, bad_request)

abbrev pub is_accepted : Response → Bool
is_accepted ok = true
is_accepted _ = false

-- `admin_write_password`; `salt` is what esp_fill_random() fills in.
unfoldable pub write_password : Kdf → Bool → Request → List ℕ → Write → Admin → Admin × Response
write_password kdf changing req salt w s =
    if not (is_accepted (may_write kdf changing req s))
    then (s, may_write kdf changing req s)
    else if ltb req.content_len password_min || ltb password_max req.content_len
    then (s, bad_request)
    else take_password kdf (receive req.content_len [] req.chunks) salt w s

-- What NVS holds at the start: the record, with the length that was read, or none, or an error.
pub data SavedRecord : Type 0 where
  found : ℕ → Credentials → SavedRecord
  missing failed : SavedRecord

-- The three keys of older firmware, each with its error and, for the arrays, its length.
pub record OlderKeys : Type 0 where
  pub salt_err : Esp
  pub salt_len : ℕ
  pub hash_err : Esp
  pub hash_len : ℕ
  pub iter_err : Esp
  pub credentials : Credentials

abbrev pub is_missing : Esp → Bool
is_missing not_found = true
is_missing _ = false

abbrev pub older_set : OlderKeys → Bool
older_set k =
    is_ok k.salt_err
    && is_ok k.hash_err
    && is_ok k.iter_err
    && k.salt_len == 16
    && k.hash_len == 32
    && not (k.credentials.iterations == 0)

-- The keys of older firmware. Where one is there and not all are right, the start fails. What the
-- arrays then hold is never read, since no password counts as set.
unfoldable pub init_older : OlderKeys → Admin → Admin × Bool
init_older k s =
    let t = record s { credentials = k.credentials; password_set = older_set k } in
    if not (older_set k)
      && not (is_missing k.salt_err && is_missing k.hash_err && is_missing k.iter_err)
    then (t, false)
    else (t, true)

-- `init_admin_credentials`; `opened` is what nvs_open() returns, and 52 the size of the record.
unfoldable pub init_credentials : Esp → SavedRecord → OlderKeys → Admin → Admin × Bool
init_credentials opened (found len c) k s =
    if not (is_ok opened)
    then (s, false)
    else if len == 52 && not (c.iterations == 0)
    then (record s { credentials = c; password_set = true }, true)
    else (s, false)
init_credentials opened missing k s = if not (is_ok opened) then (s, false) else init_older k s
init_credentials opened failed k s = (s, false)
