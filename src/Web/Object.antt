-- ===== src/Web/Object.antt =====
-- A reader of a JSON object whose values are texts, numbers, `true`, `false` and `null`, without white
-- space: the part of RFC 8259 that the status answer uses. It tells whether a text is such an object.
use gdo_blaq_homekit.Prelude.{
  ℕ, zero, suc, ◌≡◌, refl, ◌||◌, if◌then◌else◌, ◌==◌, ltb, List, [], ◌∷◌, ◌++◌, Option, none, some,
  codes, is_digit,
}
use gdo_blaq_homekit.Form.{hexval}

-- Where the reader stands. A text is the name of a member or its value.
pub data Part : Type 0 where
  name_text value_text : Part

pub data Spot : Type 0 where
  start first_name next_name before_colon before_value after_minus after_zero in_number after_value
        done bad :
      Spot
  inside escaped : Part → Spot
  code : ℕ → Part → Spot
  literal : List ℕ → Spot

unfoldable pub after_text : Part → Spot
after_text name_text = before_colon
after_text value_text = after_value

-- The byte after a whole value.
unfoldable pub end_value : ℕ → Spot
end_value c = if c == b',' then next_name else if c == b'}' then done else bad

unfoldable pub begin_number : ℕ → Spot
begin_number c = if c == b'0' then after_zero else if is_digit c then in_number else bad

unfoldable pub begin_value : ℕ → Spot
unfolding begin_number
begin_value c =
    if c == b'"'
    then inside value_text
    else if c == b'-'
    then after_minus
    else if c == b't'
    then literal (codes "rue")
    else if c == b'f'
    then literal (codes "alse")
    else if c == b'n'
    then literal (codes "ull")
    else begin_number c

unfoldable pub after_escape : Part → ℕ → Spot
after_escape p c =
    if c == b'u'
    then code 4 p
    else if c == b'"'
        || c == b'\\'
        || c == b'/'
        || c == b'b'
        || c == b'f'
        || c == b'n'
        || c == b'r'
        || c == b't'
    then inside p
    else bad

unfoldable pub after_hex : ℕ → Part → Option ℕ → Spot
after_hex k p none = bad
after_hex zero p (some d) = bad
after_hex (suc k) p (some d) = if k == 0 then inside p else code k p

-- One byte.
unfoldable pub read_byte : Spot → ℕ → Spot
unfolding after_text end_value begin_number begin_value after_escape after_hex
read_byte start c = if c == b'{' then first_name else bad
read_byte first_name c = if c == b'"' then inside name_text else if c == b'}' then done else bad
read_byte next_name c = if c == b'"' then inside name_text else bad
read_byte before_colon c = if c == b':' then before_value else bad
read_byte before_value c = begin_value c
read_byte after_minus c = begin_number c
read_byte after_zero c = end_value c
read_byte in_number c = if is_digit c then in_number else end_value c
read_byte after_value c = end_value c
read_byte done c = bad
read_byte bad c = bad
read_byte (inside p) c =
    if c == b'"'
    then after_text p
    else if c == b'\\'
    then escaped p
    else if ltb c 0x20
    then bad
    else inside p
read_byte (escaped p) c = after_escape p c
read_byte (code k p) c = after_hex k p (hexval c)
read_byte (literal []) c = end_value c
read_byte (literal (d ∷ s)) c = if c == d then literal s else bad

unfoldable pub reads : Spot → List ℕ → Spot
reads p [] = p
reads p (c ∷ s) = reads (read_byte p c) s

-- The text is an object.
abbrev pub IsObject : List ℕ → Type 0
IsObject s = reads start s ≡ done

pub reads-append : (p : Spot) (xs ys : List ℕ) → reads p (xs ++ ys) ≡ reads (reads p xs) ys
unfolding reads
reads-append p [] ys = refl
reads-append p (c ∷ xs) ys = reads-append (read_byte p c) xs ys

-- The value may end here.
pub record IsEnd (p : Spot) : Type 0 where
  pub comma : read_byte p b',' ≡ next_name
  pub brace : read_byte p b'}' ≡ done
