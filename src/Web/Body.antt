-- ===== src/Web/Body.antt =====
-- main/diag_webserver.cpp: how a settings request is read. `strtoul` is that of C.
use gdo_blaq_homekit.Prelude.{
  ℕ, ◌+◌, ◌-◌, ◌*◌, ◌^◌, Bool, ◌&&◌, ◌||◌, if◌then◌else◌, ◌==◌, leb, List, [], ◌∷◌, Option, none,
  some, is_digit, peek, next,
}
use gdo_blaq_homekit.Prelude.Cstr.{until_nul}
use gdo_blaq_homekit.Opener.{u32}
use gdo_blaq_homekit.Admin.{Request, receive}

-- `isspace`.
abbrev pub is_space : ℕ → Bool
is_space c = c == 32 || (leb 9 c && leb c 13)

unfoldable pub skip_space : List ℕ → List ℕ
skip_space [] = []
skip_space (c ∷ s) = if is_space c then skip_space s else c ∷ s

-- The value of the digits that a text starts with, after `acc`.
unfoldable pub digit_value : ℕ → List ℕ → ℕ
digit_value acc [] = acc
digit_value acc (c ∷ s) = if is_digit c then digit_value (acc * 10 + (c - b'0')) s else acc

-- `ULONG_MAX` where the value does not fit, and the negated value after a `-`.
unfoldable pub ulong : Bool → ℕ → ℕ
ulong negated n = if leb (2 ^ 32) n then 2 ^ 32 - 1 else if negated then u32 (2 ^ 32 - n) else n

-- `strtoul(s, nullptr, 10)` with a 32-bit `unsigned long`.
unfoldable pub strtoul : List ℕ → ℕ
unfolding skip_space digit_value ulong
strtoul s =
    let t = skip_space s in
    let signed = peek t == b'-' || peek t == b'+' in
    ulong (peek t == b'-') (digit_value 0 (if signed then next t else t))

unfoldable pub as_text : Option (List ℕ) → Option (List ℕ)
as_text none = none
as_text (some b) = some (until_nul b)

-- The length check and the loop that receives a body into a buffer of `size` bytes.
unfoldable pub read_body : ℕ → Request → Option (List ℕ)
unfolding as_text
read_body size req =
    if req.content_len == 0 || leb size req.content_len
    then none
    else as_text (receive req.content_len [] req.chunks)
