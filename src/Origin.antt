-- ===== src/Origin.antt =====
-- main/request_origin.h: whether a request came from the device's own page, by its Host, Origin and
-- Sec-Fetch-Site headers. An absent header is the empty text: the code treats NULL the same.
pub mod Quad
pub mod Local
pub mod Part
pub mod Named
pub mod Page
pub mod Tests
use gdo_blaq_homekit.Prelude.{
  ℕ, zero, suc, ◌+◌, ◌-◌, ◌*◌, ◌==◌, Bool, true, false, not, ◌&&◌, ◌||◌, if◌then◌else◌, ltb, leb,
  List, [], ◌∷◌, Option, none, some, length, take, drop, get_or, codes, peek, next, is_digit,
  bytes_eq,
}

-- An ASCII capital as a small letter.
abbrev pub lower : ℕ → ℕ
lower c = if leb b'A' c && leb c b'Z' then c - b'A' + b'a' else c

-- `request_origin_ieq`.
unfoldable pub ieq : List ℕ → List ℕ → ℕ → Bool
ieq a b zero = true
ieq a b (suc n) = lower (peek a) == lower (peek b) && ieq (next a) (next b) n

-- `strchr`, as the distance from the start.
unfoldable pub index_of : ℕ → List ℕ → Option ℕ
index_of c [] = none
index_of c (x ∷ s) =
    if x == c then some 0 else elim (index_of c s) [ none ↦ none | some i ↦ some (suc i) ]

-- The length without a port, and without the dot that may end a name.
unfoldable pub name_len : List ℕ → ℕ
unfolding index_of
name_len authority =
    let n : ℕ = elim (index_of b':' authority) [ none ↦ length authority | some i ↦ i ] in
    if not (n == 0) && get_or authority (n - 1) 0 == b'.' then n - 1 else n

-- `request_origin_host_len`.
unfoldable pub host_len : List ℕ → ℕ
unfolding index_of name_len
host_len authority =
    if peek authority == b'['
    then elim (index_of b']' authority) [ none ↦ 0 | some i ↦ i + 1 ]
    else name_len authority

-- The loop of `request_origin_is_ipv4`, and its last line.
unfoldable pub quad_loop : ℕ → ℕ → ℕ → List ℕ → Bool
quad_loop groups digits value [] = groups == 3 && not (digits == 0)
quad_loop groups digits value (c ∷ s) =
    let digit = quad_loop groups (digits + 1) (value * 10 + (c - b'0')) s in
    let dot = quad_loop (groups + 1) 0 0 s in
    if is_digit c
    then not (ltb 3 (digits + 1)) && not (ltb 255 (value * 10 + (c - b'0'))) && digit
    else if c == b'.'
    then not (digits == 0) && dot
    else false

-- `request_origin_is_ipv4`, of the bytes that it reads.
unfoldable pub is_ipv4 : List ℕ → Bool
unfolding quad_loop
is_ipv4 s = quad_loop 0 0 0 s

-- The suffix that only resolves on the local link.
abbrev pub suffix : List ℕ
suffix = codes ".local"

-- `request_host_is_local`.
unfoldable pub host_is_local : List ℕ → Bool
unfolding host_len is_ipv4 ieq
host_is_local host =
    let n = host_len host in
    if n == 0
    then false
    else if peek host == b'['
    then true
    else if is_ipv4 (take n host)
    then true
    else ltb (length suffix) n && ieq (drop (n - length suffix) host) suffix (length suffix)

-- `strncmp(s, p, strlen(p)) == 0`.
abbrev pub starts_with : List ℕ → List ℕ → Bool
starts_with [] s = true
starts_with (c ∷ p) [] = false
starts_with (c ∷ p) (x ∷ s) = c == x && starts_with p s

abbrev pub separator : List ℕ
separator = codes "://"

-- `strstr(origin, "://")`, and the bytes after it.
unfoldable pub after_sep : List ℕ → Option (List ℕ)
after_sep [] = none
after_sep (c ∷ s) = if starts_with separator (c ∷ s) then some (drop 3 (c ∷ s)) else after_sep s

-- The length without a slash at the end.
unfoldable pub authority_len : List ℕ → ℕ
authority_len authority =
    let n = length authority in
    if not (n == 0) && get_or authority (n - 1) 0 == b'/' then n - 1 else n

-- `request_origin_matches_host`; neither pointer is NULL.
unfoldable pub matches_host : List ℕ → List ℕ → Bool
unfolding after_sep authority_len ieq
matches_host origin [] = false
matches_host origin (h ∷ host) = elim (after_sep origin) [
  | none ↦ false
  | some authority ↦
      let n = authority_len authority in
      n == length (h ∷ host) && not (n == 0) && ieq authority (h ∷ host) n
]

abbrev pub is_empty : List ℕ → Bool
is_empty [] = true
is_empty (c ∷ s) = false

-- `request_from_own_page`.
unfoldable pub from_own_page : List ℕ → List ℕ → List ℕ → Bool
unfolding host_is_local matches_host
from_own_page host origin site =
    if not (host_is_local host)
    then false
    else if not (is_empty origin) && not (matches_host origin host)
    then false
    else is_empty site || bytes_eq site (codes "same-origin") || bytes_eq site (codes "none")
