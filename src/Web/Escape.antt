-- ===== src/Web/Escape.antt =====
-- main/diag_webserver.cpp: escape_json_version, which puts a version text of an uploaded image into
-- the status answer.
use gdo_blaq_homekit.Prelude.{
  ℕ, zero, suc, ◌+◌, ◌/◌, ◌%◌, ◌-◌, ◌||◌, if◌then◌else◌, ◌==◌, ltb, leb, List, [], ◌∷◌, ◌++◌,
  length,
}

-- A digit of `%x`.
abbrev pub hex_digit : ℕ → ℕ
hex_digit n = if ltb n 10 then b'0' + n else b'a' + (n - 10)

-- What one byte of the input adds to the output. `%04x` of a byte has two zeros in front.
unfoldable pub escape_byte : ℕ → List ℕ
escape_byte c =
    if c == b'"' || c == b'\\'
    then b'\\' ∷ c ∷ []
    else if ltb c 0x20 || leb 0x7f c
    then b'\\' ∷ b'u' ∷ b'0' ∷ b'0' ∷ hex_digit (c / 16) ∷ hex_digit (c % 16) ∷ []
    else c ∷ []

-- The loop, with `n` rounds and `used` bytes of the output behind it.
unfoldable pub escape_from : ℕ → ℕ → ℕ → List ℕ → List ℕ
unfolding escape_byte
escape_from zero used capacity s = []
escape_from (suc n) used capacity [] = []
escape_from (suc n) used capacity (c ∷ s) =
    let rest = escape_from n (used + length (escape_byte c)) capacity s in
    if c == 0 then [] else if ltb (used + 7) capacity then escape_byte c ++ rest else []

-- `escape_json_version`, without the NUL at the end.
unfoldable pub escape_json_version : List ℕ → ℕ → List ℕ
escape_json_version input capacity = escape_from 32 0 capacity input
