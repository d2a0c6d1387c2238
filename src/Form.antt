-- ===== src/Form.antt =====
-- main/form_parse.h: a value out of an application/x-www-form-urlencoded body.
pub mod Rounds
pub mod Fields
pub mod Values
pub mod Tests
use gdo_blaq_homekit.Prelude.{
  ℕ, zero, suc, ◌+◌, ◌-◌, ◌*◌, Bool, true, false, ◌&&◌, if◌then◌else◌, ◌==◌, leb, List, [], ◌∷◌,
  Option, none, some, length, drop, peek,
}

-- `form_parse_hexval`; `none` is -1.
unfoldable pub hexval : ℕ → Option ℕ
hexval c =
    if leb b'0' c && leb c b'9'
    then some (c - b'0')
    else if leb b'a' c && leb c b'f'
    then some (c - b'a' + 10)
    else if leb b'A' c && leb c b'F'
    then some (c - b'A' + 10)
    else none

-- The byte that the escape `%hl` stands for, if `h` and `l` are hexadecimal digits.
unfoldable pub escape : ℕ → ℕ → ℕ → Option ℕ
unfolding hexval
escape c h l =
    if c == b'%'
    then elim (hexval h) [
      | none ↦ none
      | some hi ↦ elim (hexval l) [ none ↦ none | some lo ↦ some (hi * 16 + lo) ]
    ]
    else none

-- One byte as it is stored when it begins no escape.
abbrev pub plain : ℕ → ℕ
plain c = if c == b'+' then b' ' else c

-- `out[o++] = c`, unless `c` is NUL or the value with its terminator does not fit.
abbrev pub put : ℕ → ℕ → ℕ → Option (List ℕ) → Option (List ℕ)
put out_len o c rest =
    if c == 0
    then none
    else if leb out_len (o + 1)
    then none
    else elim rest [ none ↦ none | some v ↦ some (c ∷ v) ]

-- The inner loop: it decodes to the next `&` or the end, with `o` bytes stored so far.
unfoldable pub decode : ℕ → ℕ → List ℕ → Option (List ℕ)
unfolding escape
decode out_len o [] = some []
decode out_len o (c ∷ []) = if c == b'&' then some [] else put out_len o (plain c) (some [])
decode out_len o (c ∷ h ∷ []) =
    let rest = decode out_len (o + 1) (h ∷ []) in
    if c == b'&' then some [] else put out_len o (plain c) rest
decode out_len o (c ∷ h ∷ l ∷ s) =
    let long = decode out_len (o + 1) s in
    let short = decode out_len (o + 1) (h ∷ l ∷ s) in
    if c == b'&' then some [] else elim (escape c h l) [
      | some d ↦ put out_len o d long
      | none ↦ put out_len o (plain c) short
    ]

-- `strncmp(p, key, klen) == 0 && p[klen] == '='`.
unfoldable pub names : List ℕ → List ℕ → Bool
names [] p = peek p == b'='
names (k ∷ key) [] = false
names (k ∷ key) (c ∷ p) = k == c && names key p

-- `strchr(p, '&')`, and the byte after it; `none` where there is no `&`.
unfoldable pub after_amp : List ℕ → Option (List ℕ)
after_amp [] = none
after_amp (c ∷ p) = if c == b'&' then some p else after_amp p

-- The outer loop, on fuel; it ends at the end of the body.
unfoldable pub find : ℕ → List ℕ → ℕ → List ℕ → Option (List ℕ)
unfolding decode names after_amp
find zero key out_len p = none
find (suc fuel) key out_len [] = none
find (suc fuel) key out_len (c ∷ p) =
    if names key (c ∷ p)
    then decode out_len 0 (drop (suc (length key)) (c ∷ p))
    else elim (after_amp (c ∷ p)) [ none ↦ none | some q ↦ find fuel key out_len q ]

-- `form_get_param`, with the value that it stores. No pointer of its callers is NULL. Each round of
-- the loop moves past an `&`, so one more round than there are bytes is enough.
unfoldable pub get_param : List ℕ → List ℕ → ℕ → Option (List ℕ)
unfolding find
get_param body key out_len =
    if out_len == 0 then none else find (suc (length body)) key out_len body
