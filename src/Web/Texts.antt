-- ===== src/Web/Texts.antt =====
-- That the texts which status_get_handler prints stay inside of their quotes.
use gdo_blaq_homekit.Prelude.{
  ℕ, zero, suc, ◌+◌, ◌/◌, ◌%◌, ◌<◌, ◌≡◌, refl, ap, ◌∙◌, inl, inr, Bool, true, false, Bool-cases,
  ◌==◌, ◌||◌, ◌&&◌, ltb, leb, List, [], ◌∷◌, ◌++◌, length, arith,
}
use gdo_blaq_homekit.Form.{hexval}
use gdo_blaq_homekit.Schedule.Bytes.{is_tz_byte, is_clean}
use gdo_blaq_homekit.Web.Escape.{hex_digit, escape_byte, escape_from, escape_json_version}
use gdo_blaq_homekit.Web.Json.{IsBytes, hexval-hex_digit}
use gdo_blaq_homekit.Web.Print.{decimal, padded}
use gdo_blaq_homekit.Web.Object.{
  Part, inside, read_byte, reads, reads-append, after_escape, after_hex,
}
use gdo_blaq_homekit.Web.Members.{IsInside}

-- A byte that is printed as it is.
read_byte-plain :
    (p : Part) (c : ℕ)
    → (c == b'"') ≡ false
    → (c == b'\\') ≡ false
    → ltb c 0x20 ≡ false
    → read_byte (inside p) c ≡ inside p
unfolding read_byte
read_byte-plain p c a b d = ground (arith, a, b, d)

read_byte-escaped :
    (p : Part) (c : ℕ)
    → (c == b'"' || c == b'\\') ≡ true
    → reads (inside p) (b'\\' ∷ c ∷ []) ≡ inside p
unfolding reads read_byte after_escape
read_byte-escaped p c h = ground (arith, h)

reads-code :
    (p : Part) (c : ℕ)
    → c < 256
    → reads (inside p) (b'\\' ∷ b'u' ∷ b'0' ∷ b'0' ∷ hex_digit (c / 16) ∷ hex_digit (c % 16) ∷ [])
      ≡ inside p
unfolding reads read_byte after_escape after_hex hexval
reads-code p c h =
    rw (hexval-hex_digit (c / 16) (omega (arith, h)), hexval-hex_digit (c % 16) (omega arith)) refl

escape_byte-IsInside : (p : Part) (c : ℕ) → c < 256 → IsInside p (escape_byte c)
unfolding escape_byte reads
escape_byte-IsInside p c h = elim (Bool-cases (c == b'"' || c == b'\\')) [
  | inl e ↦ rw e (read_byte-escaped p c e)
  | inr e ↦ elim (Bool-cases (ltb c 0x20 || leb 0x7f c)) [
    | inl f ↦ rw (e, f) (reads-code p c h)
    | inr f ↦
        rw (e, f) (read_byte-plain p c (ground (arith, e)) (ground (arith, e)) (ground (arith, f)))
  ]
]

IsInside-append : (p : Part) (s t : List ℕ) → IsInside p s → IsInside p t → IsInside p (s ++ t)
IsInside-append p s t h k = reads-append (inside p) s t ∙ ap (λ x. reads x t) h ∙ k

escape_from-IsInside :
    (p : Part) (n used capacity : ℕ) (s : List ℕ)
    → IsBytes s
    → IsInside p (escape_from n used capacity s)
unfolding escape_from reads
escape_from-IsInside p zero used capacity s h = refl
escape_from-IsInside p (suc n) used capacity [] h = refl
escape_from-IsInside p (suc n) used capacity (c ∷ s) h =
    let l = used + length (escape_byte c) in
    let rest = escape_from n l capacity s in
    let both =
      IsInside-append p (escape_byte c) rest (escape_byte-IsInside p c h.0)
        (escape_from-IsInside p n l capacity s h.1) in
    elim (Bool-cases (c == 0)) [
      | inl e ↦ rw e refl
      | inr e ↦ elim (Bool-cases (ltb (used + 7) capacity)) [
        | inl f ↦ rw (e, f) both
        | inr f ↦ rw (e, f) refl
      ]
    ]

pub escape_json_version-IsInside :
    (p : Part) (version : List ℕ) (capacity : ℕ)
    → IsBytes version
    → IsInside p (escape_json_version version capacity)
unfolding escape_json_version
escape_json_version-IsInside p version capacity h = escape_from-IsInside p 32 0 capacity version h

-- The bytes of a C string.
abbrev pub HasNoNul : List ℕ → Type 0
HasNoNul [] = Unit {0}
HasNoNul (c ∷ s) = (0 < c) × HasNoNul s

read_byte-tz_byte : (p : Part) (c : ℕ) → is_tz_byte c ≡ true → read_byte (inside p) c ≡ inside p
unfolding read_byte
read_byte-tz_byte p c h = ground (arith, h)

positive-nonzero : (c : ℕ) → 0 < c → (c == 0) ≡ false
positive-nonzero c h = ground (arith, h)

or_and : (a b d : Bool) → a ≡ false → (a || (b && d)) ≡ true → (b ≡ true) × (d ≡ true)
or_and a b d h e = (ground (arith, h, e), ground (arith, h, e))

pub clean-IsInside : (p : Part) (s : List ℕ) → HasNoNul s → is_clean s ≡ true → IsInside p s
unfolding is_clean reads
clean-IsInside p [] n h = refl
clean-IsInside p (c ∷ s) n h =
    let (byte, rest) = or_and (c == 0) (is_tz_byte c) (is_clean s) (positive-nonzero c n.0) h in
    ap (λ x. reads x s) (read_byte-tz_byte p c byte) ∙ clean-IsInside p s n.1 rest

read_byte-digit : (p : Part) (d : ℕ) → d < 10 → read_byte (inside p) (b'0' + d) ≡ inside p
unfolding read_byte
read_byte-digit p d h = ground (arith, h)

decimal-IsInside : (p : Part) (k n : ℕ) → IsInside p (decimal k n)
unfolding decimal reads
decimal-IsInside p zero n = refl
decimal-IsInside p (suc k) n = elim (Bool-cases (n / 10 == 0)) [
  | inl e ↦ rw e (read_byte-digit p (n % 10) (omega arith))
  | inr e ↦ rw e (
      IsInside-append p (decimal k (n / 10)) ((b'0' + n % 10) ∷ []) (decimal-IsInside p k (n / 10))
        (read_byte-digit p (n % 10) (omega arith)))
]

padded-IsInside : (p : Part) (n : ℕ) → IsInside p (padded n)
unfolding padded reads
padded-IsInside p n = elim (Bool-cases (ltb n 10)) [
  | inl e ↦ rw e (
      ap (λ x. read_byte x (b'0' + n)) (read_byte-digit p 0 (omega arith))
      ∙ read_byte-digit p n (ground (arith, e)))
  | inr e ↦ rw e (decimal-IsInside p 10 n)
]

read_byte-colon : (p : Part) → read_byte (inside p) b':' ≡ inside p
unfolding read_byte
read_byte-colon p = refl

pub time-IsInside : (p : Part) (h m : ℕ) → IsInside p (padded h ++ b':' ∷ padded m)
unfolding reads
time-IsInside p h m =
    IsInside-append p (padded h) (b':' ∷ padded m) (padded-IsInside p h)
      (ap (λ x. reads x (padded m)) (read_byte-colon p) ∙ padded-IsInside p m)
