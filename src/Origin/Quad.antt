-- ===== src/Origin/Quad.antt =====
-- A dotted quad (request_origin_is_ipv4).
use gdo_blaq_homekit.Prelude.{
  ℕ, ◌+◌, ◌-◌, ◌*◌, ◌==◌, ◌≤◌, ◌≡◌, ◌∙◌, refl, Bool-cases, inl, inr, Bool, true, ◌&&◌, not,
  if◌then◌else◌, ltb, leb, List, [], ◌∷◌, length, is_digit, arith,
}
use gdo_blaq_homekit.Origin.{quad_loop, is_ipv4}

-- The fields between the dots: the first, and the others.
abbrev pub fields : List ℕ → List ℕ × List (List ℕ)
fields [] = ([], [])
fields (c ∷ s) =
    let rest = fields s in if c == b'.' then ([], rest.0 ∷ rest.1) else (c ∷ rest.0, rest.1)

abbrev pub all_digits : List ℕ → Bool
all_digits [] = true
all_digits (c ∷ s) = is_digit c && all_digits s

-- The number that digits write after those of `value`.
abbrev pub number : ℕ → List ℕ → ℕ
number value [] = value
number value (c ∷ s) = number (value * 10 + (c - b'0')) s

-- One to three digits that write at most 255.
unfoldable pub is_octet : List ℕ → Bool
is_octet f = leb 1 (length f) && leb (length f) 3 && all_digits f && leb (number 0 f) 255

unfoldable pub all_octets : List (List ℕ) → Bool
all_octets [] = true
all_octets (f ∷ fs) = is_octet f && all_octets fs

number-ge : (value : ℕ) (s : List ℕ) → value ≤ number value s
number-ge value [] = omega arith
number-ge value (c ∷ s) = omega (arith, number-ge (value * 10 + (c - b'0')) s)

-- What the loop still asks of the field that it stands in.
unfoldable rest_of_octet : ℕ → ℕ → List ℕ → Bool
rest_of_octet digits value f =
    leb 1 (digits + length f)
    && leb (digits + length f) 3
    && all_digits f
    && leb (number value f) 255

octet_step :
    (digits value c : ℕ) (f : List ℕ)
    → digits ≤ 3
    → value ≤ 255
    → rest_of_octet digits value (c ∷ f) ≡ (
        is_digit c
        && not (ltb 3 (digits + 1))
        && not (ltb 255 (value * 10 + (c - b'0')))
        && rest_of_octet (digits + 1) (value * 10 + (c - b'0')) f)
unfolding rest_of_octet
octet_step digits value c f h k = ground (arith, number-ge (value * 10 + (c - b'0')) f)

octet_end :
    (digits value : ℕ)
    → digits ≤ 3
    → value ≤ 255
    → rest_of_octet digits value [] ≡ not (digits == 0)
unfolding rest_of_octet
octet_end digits value h k = ground arith

octet_start : (f : List ℕ) → is_octet f ≡ rest_of_octet 0 0 f
unfolding rest_of_octet is_octet
octet_start f = ground arith

all_step : (f : List ℕ) (fs : List (List ℕ)) → all_octets (f ∷ fs) ≡ (is_octet f && all_octets fs)
unfolding all_octets
all_step f fs = refl

quad_loop-fields :
    (groups digits value : ℕ) (s : List ℕ)
    → digits ≤ 3
    → value ≤ 255
    → quad_loop groups digits value s ≡ (
        rest_of_octet digits value (fields s).0
        && all_octets (fields s).1
        && (groups + length (fields s).1) == 3)
unfolding quad_loop
quad_loop-fields groups digits value [] h k =
    rw (octet_end digits value h k) (unfold all_octets in ground arith)
quad_loop-fields groups digits value (c ∷ s) h k =
    let stay = quad_loop-fields groups (digits + 1) (value * 10 + (c - b'0')) s in
    let move = quad_loop-fields (groups + 1) 0 0 s (omega arith) (omega arith) in
    elim (Bool-cases (c == b'.')) [
      | inl dot ↦
          (let e : c ≡ b'.' = ground (arith, dot) in
            ground (
              arith,
              e,
              dot,
              move,
              octet_end digits value h k,
              octet_start (fields s).0,
              all_step (fields s).0 (fields s).1,
            ))
      | inr other ↦ ground (arith, other, stay, octet_step digits value c (fields s).0 h k)
    ]

-- A text is taken for an IPv4 literal exactly if its dots cut it into four fields, each of one to
-- three digits that write at most 255.
pub is_ipv4-fields :
    (s : List ℕ)
    → is_ipv4 s ≡ (is_octet (fields s).0 && all_octets (fields s).1 && length (fields s).1 == 3)
unfolding is_ipv4
is_ipv4-fields s =
    quad_loop-fields 0 0 0 s (omega arith) (omega arith) ∙ ground (arith, octet_start (fields s).0)
