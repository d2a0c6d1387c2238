-- ===== src/Web/Members.antt =====
-- That the members which status_get_handler prints are a JSON object.
use gdo_blaq_homekit.Prelude.{
  ℕ, zero, suc, ◌+◌, ◌/◌, ◌%◌, ◌^◌, ◌<◌, ◌≡◌, refl, ap, ◌∙◌, inl, inr, Bool, true, false,
  Bool-cases, ◌==◌, List, [], ◌∷◌, ◌++◌, arith,
}
use gdo_blaq_homekit.Prelude.Int.{ℤ, pos, negsuc}
use gdo_blaq_homekit.Web.Print.{
  Value, in_quotes, as_it_is, Member, show_value, show_member, show_rest, show_all, word, decimal,
  signed,
}
use gdo_blaq_homekit.Web.Object.{
  Part, name_text, value_text, Spot, before_value, after_minus, after_zero, in_number, after_value,
  done, inside, read_byte, reads, reads-append, IsEnd, IsObject, end_value, begin_number,
  begin_value, after_text,
}

-- A text that stays inside of its quotes.
abbrev pub IsInside : Part → List ℕ → Type 0
IsInside p s = reads (inside p) s ≡ inside p

-- The value reads as a value.
abbrev pub IsValue : Value → Type 0
IsValue (in_quotes s) = IsInside value_text s
IsValue (as_it_is s) = IsEnd (reads before_value s)

abbrev pub AllGood : List Member → Type 0
AllGood [] = Unit {0}
AllGood (m ∷ ms) = (IsInside name_text m.key × IsValue m.value) × AllGood ms

-- A pair, in a chain of them.
infixr 5 ◌&◌
abbrev pub ◌&◌ {ℓ κ} : {A : Type ℓ} {B : Type κ} → A → B → A × B
a & b = (a, b)

after_value-IsEnd : IsEnd after_value
after_value-IsEnd = record {
  comma = unfold read_byte end_value in refl;
  brace = unfold read_byte end_value in refl;
}

reads-quoted :
    (p : Part) (s rest : List ℕ)
    → IsInside p s
    → reads (inside p) (s ++ b'"' ∷ rest) ≡ reads (after_text p) rest
unfolding reads read_byte
reads-quoted p s rest h =
    reads-append (inside p) s (b'"' ∷ rest) ∙ ap (λ x. reads x (b'"' ∷ rest)) h

show_value-IsEnd : (v : Value) → IsValue v → IsEnd (reads before_value (show_value v))
unfolding reads read_byte begin_value after_text
show_value-IsEnd (in_quotes s) h = rw (reads-quoted value_text s [] h) after_value-IsEnd
show_value-IsEnd (as_it_is s) h = h

-- What stands behind the quote that begins a member.
reads-member :
    (m : Member) (rest : List ℕ)
    → IsInside name_text m.key
    → reads (inside name_text) (m.key ++ b'"' ∷ b':' ∷ show_value m.value ++ rest)
      ≡ reads (reads before_value (show_value m.value)) rest
unfolding reads read_byte after_text
reads-member m rest h =
    reads-append (inside name_text) (m.key ++ b'"' ∷ b':' ∷ show_value m.value) rest
    ∙ ap (λ x. reads x rest) (reads-quoted name_text m.key (b':' ∷ show_value m.value) h)

show_rest-done :
    (p : Spot) (ms : List Member) → IsEnd p → AllGood ms → reads p (show_rest ms) ≡ done
unfolding show_rest show_member reads read_byte
show_rest-done p [] e h = e.brace
show_rest-done p (m ∷ ms) e h =
    let text = m.key ++ b'"' ∷ b':' ∷ show_value m.value ++ show_rest ms in
    ap (λ x. reads (read_byte x b'"') text) e.comma
    ∙ reads-member m (show_rest ms) h.0.0
    ∙ show_rest-done (reads before_value (show_value m.value)) ms (show_value-IsEnd m.value h.0.1)
        h.1

-- Members whose names and values read as such are printed as an object.
pub show_all-IsObject :
    (m : Member) (ms : List Member) → AllGood (m ∷ ms) → IsObject (show_all (m ∷ ms))
unfolding show_all show_member reads read_byte
show_all-IsObject m ms h =
    reads-member m (show_rest ms) h.0.0
    ∙ show_rest-done (reads before_value (show_value m.value)) ms (show_value-IsEnd m.value h.0.1)
        h.1

-- What a member prints.
pub word-IsValue : (b : Bool) → IsValue (as_it_is (word b))
word-IsValue true = record {
  comma = unfold reads read_byte begin_value end_value in refl;
  brace = unfold reads read_byte begin_value end_value in refl;
}
word-IsValue false = record {
  comma = unfold reads read_byte begin_value end_value in refl;
  brace = unfold reads read_byte begin_value end_value in refl;
}

in_number-IsEnd : IsEnd in_number
in_number-IsEnd = record {
  comma = unfold read_byte end_value in refl;
  brace = unfold read_byte end_value in refl;
}

after_zero-IsEnd : IsEnd after_zero
after_zero-IsEnd = record {
  comma = unfold read_byte end_value in refl;
  brace = unfold read_byte end_value in refl;
}

-- A number may begin at this place.
abbrev Begins : Spot → Type 0
Begins p = (d : ℕ) → 0 < d → d < 10 → read_byte p (b'0' + d) ≡ in_number

before_value-Begins : Begins before_value
unfolding read_byte begin_value begin_number
before_value-Begins d a b = ground (arith, a, b)

after_minus-Begins : Begins after_minus
unfolding read_byte begin_number
after_minus-Begins d a b = ground (arith, a, b)

in_number-digit : (d : ℕ) → d < 10 → read_byte in_number (b'0' + d) ≡ in_number
unfolding read_byte end_value
in_number-digit d h = ground (arith, h)

-- No zero stands in front of a number.
decimal-in_number :
    (p : Spot) (k n : ℕ) → Begins p → 0 < n → n < 10 ^ k → reads p (decimal k n) ≡ in_number
unfolding decimal reads
decimal-in_number p zero n b low high = absurd (omega (arith, low, high))
decimal-in_number p (suc k) n b low high = elim (Bool-cases (n / 10 == 0)) [
  | inl e ↦ rw e (b (n % 10) (ground (arith, e, low)) (omega arith))
  | inr e ↦ rw e (
      reads-append p (decimal k (n / 10)) ((b'0' + n % 10) ∷ [])
      ∙ ap (λ x. read_byte x (b'0' + n % 10))
          (decimal-in_number p k (n / 10) b (ground (arith, e)) (omega (arith, high)))
      ∙ in_number-digit (n % 10) (omega arith))
]

pub decimal-IsValue : (k n : ℕ) → n < 10 ^ suc k → IsValue (as_it_is (decimal (suc k) n))
decimal-IsValue k zero h =
    unfold decimal reads read_byte begin_value begin_number in after_zero-IsEnd
decimal-IsValue k (suc n) h =
    rw (decimal-in_number before_value (suc k) (suc n) before_value-Begins (omega arith) h)
      in_number-IsEnd

-- The number has 63 bits and a sign.
abbrev pub IsLong : ℤ → Type 0
IsLong (pos n) = n < 2 ^ 63
IsLong (negsuc n) = n < 2 ^ 63

pub signed-IsValue : (z : ℤ) → IsLong z → IsValue (as_it_is (signed z))
unfolding signed reads read_byte begin_value
signed-IsValue (pos n) h = decimal-IsValue 18 n (omega (arith, h))
signed-IsValue (negsuc n) h =
    rw
      (decimal-in_number after_minus 19 (suc n) after_minus-Begins (omega arith) (omega (arith, h)))
      in_number-IsEnd
