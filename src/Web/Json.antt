-- ===== src/Web/Json.antt =====
-- The inside of a JSON string, read as RFC 8259 says, and what escape_json_version makes of a text.
use gdo_blaq_homekit.Prelude.{
  ℕ, zero, suc, ◌+◌, ◌*◌, ◌/◌, ◌%◌, ◌-◌, ◌≤◌, ◌<◌, ◌≡◌, refl, ap, inl, inr, Bool-cases, ◌||◌,
  if◌then◌else◌, ◌==◌, ltb, List, [], ◌∷◌, ◌++◌, Option, none, some, length, length-append, take,
  arith, ◌∙◌, lt→ltb,
}
use gdo_blaq_homekit.Form.{hexval}
use gdo_blaq_homekit.Prelude.Cstr.{until_nul}
use gdo_blaq_homekit.Web.Escape.{hex_digit, escape_byte, escape_from, escape_json_version}

-- Where a reader stands: between characters, after a backslash, or in a number with this many
-- digits to go and this value so far.
pub data Mode : Type 0 where
  between escaped : Mode
  number : ℕ → ℕ → Mode

-- The character after a backslash, unless it is `u`.
unfoldable pub simple_escape : ℕ → Option ℕ
simple_escape c =
    if c == b'"' || c == b'\\' || c == b'/'
    then some c
    else if c == b'b'
    then some 8
    else if c == b'f'
    then some 12
    else if c == b'n'
    then some 10
    else if c == b'r'
    then some 13
    else if c == b't'
    then some 9
    else none

unfoldable pub cons : Option ℕ → Option (List ℕ) → Option (List ℕ)
cons (some c) (some s) = some (c ∷ s)
cons _ _ = none

-- The next mode where no character ends here.
unfoldable pub number_after : ℕ → ℕ → Option ℕ → Mode
number_after k acc none = number 0 0
number_after k acc (some d) = number k (acc * 16 + d)

-- The characters of the inside of a JSON string; `none` where it is none.
unfoldable pub unescape : Mode → List ℕ → Option (List ℕ)
unfolding simple_escape cons number_after
unescape between [] = some []
unescape _ [] = none
unescape between (c ∷ s) =
    let plain = unescape between s in
    let special = unescape escaped s in
    if c == b'\\' then special else if c == b'"' || ltb c 0x20 then none else cons (some c) plain
unescape escaped (c ∷ s) =
    let plain = unescape between s in
    let code = unescape (number 4 0) s in if c == b'u' then code else cons (simple_escape c) plain
unescape (number k acc) (c ∷ s) =
    let more = unescape (number_after (k - 1) acc (hexval c)) s in
    let plain = unescape between s in
    if k == 0
    then none
    else if k == 1
    then elim (hexval c) [ none ↦ none | some d ↦ cons (some (acc * 16 + d)) plain ]
    else more

pub hexval-hex_digit : (n : ℕ) → n < 16 → hexval (hex_digit n) ≡ some n
unfolding hexval
hexval-hex_digit n h = ground arith

unescape-unicode :
    (h l : ℕ) (s : List ℕ)
    → h < 16
    → l < 16
    → unescape between (b'\\' ∷ b'u' ∷ b'0' ∷ b'0' ∷ hex_digit h ∷ hex_digit l ∷ s)
      ≡ cons (some (h * 16 + l)) (unescape between s)
unfolding unescape number_after
unescape-unicode h l s lh ll =
    let zero_digit : hexval b'0' ≡ some 0 = unfold hexval in refl in
    let value : (0 + h) * 16 + l ≡ h * 16 + l = omega arith in
    simp (zero_digit, hexval-hex_digit h lh, hexval-hex_digit l ll)
      (ap (λ v. cons (some v) (unescape between s)) value)

unescape-escape_byte :
    (c : ℕ) (s : List ℕ)
    → c < 256
    → unescape between (escape_byte c ++ s) ≡ cons (some c) (unescape between s)
unfolding escape_byte unescape simple_escape
unescape-escape_byte c s h =
    ground (arith, unescape-unicode (c / 16) (c % 16) s (omega arith) (omega arith))

length-escape_byte : (c : ℕ) → length (escape_byte c) ≤ 6
unfolding escape_byte
length-escape_byte c = ground arith

-- Every byte of the text is below 256.
abbrev pub IsBytes : List ℕ → Type 0
IsBytes [] = Unit
IsBytes (c ∷ s) = (c < 256) × IsBytes s

cons-some : (c : ℕ) (o : Option (List ℕ)) (s : List ℕ) → o ≡ some s → cons (some c) o ≡ some (c ∷ s)
unfolding cons
cons-some c o s h = rw h refl

unescape-escape_from :
    (n used capacity : ℕ) (s : List ℕ)
    → IsBytes s
    → used + 6 * n + 7 < capacity
    → unescape between (escape_from n used capacity s) ≡ some (take n (until_nul s))
unfolding escape_from until_nul
unescape-escape_from zero used capacity s b h = unfold unescape in refl
unescape-escape_from (suc n) used capacity [] b h = unfold unescape in refl
unescape-escape_from (suc n) used capacity (c ∷ s) b h =
    let l = length (escape_byte c) in
    let le = length-escape_byte c in
    let fits = lt→ltb (used + 7) capacity (omega arith) in
    let rest = unescape-escape_from n (used + l) capacity s b.1 (omega arith) in
    elim (Bool-cases (c == 0)) [
      | inl e ↦ rw e (unfold unescape in refl)
      | inr e ↦ rw e (
          rw fits (
            unescape-escape_byte c (escape_from n (used + l) capacity s) b.0
            ∙ cons-some c _ _ rest))
    ]

-- A version text reads back as it was: in a buffer of 200 bytes, as the status answer has them, the
-- escaped text is the inside of a JSON string whose characters are the first 32 bytes of the
-- text, or those up to the NUL.
pub escape_json_version-roundtrip :
    (version : List ℕ) (capacity : ℕ)
    → IsBytes version
    → 200 ≤ capacity
    → unescape between (escape_json_version version capacity) ≡ some (take 32 (until_nul version))
unfolding escape_json_version
escape_json_version-roundtrip version capacity b h =
    unescape-escape_from 32 0 capacity version b (omega arith)

length-escape_from :
    (n used capacity : ℕ) (s : List ℕ)
    → used < capacity
    → used + length (escape_from n used capacity s) < capacity
unfolding escape_from
length-escape_from zero used capacity s h = omega arith
length-escape_from (suc n) used capacity [] h = omega arith
length-escape_from (suc n) used capacity (c ∷ s) h = ground (
  arith,
  length-append (escape_byte c) (escape_from n (used + length (escape_byte c)) capacity s),
  length-escape_byte c,
  length-escape_from n (used + length (escape_byte c)) capacity s,
)

-- The escaped text and its NUL fit the buffer, whatever its size.
pub length-escape_json_version :
    (version : List ℕ) (capacity : ℕ)
    → 0 < capacity
    → length (escape_json_version version capacity) < capacity
unfolding escape_json_version
length-escape_json_version version capacity h =
    omega (arith, length-escape_from 32 0 capacity version h)
