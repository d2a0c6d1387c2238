-- ===== src/Schedule/Bytes.antt =====
-- The bytes of an accepted timezone.
use gdo_blaq_homekit.Prelude.{
  ℕ, ◌+◌, ◌-◌, ◌*◌, ◌≡◌, refl, inl, inr, Bool, true, false, not, if◌then◌else◌, ◌||◌, ◌&&◌,
  Bool-cases, ◌==◌, List, [], ◌∷◌, Option, none, some, Option-cases, peek, next, is_alpha, arith,
}
use gdo_blaq_homekit.Schedule.Tz.{
  ◌>>=◌, digits_loop, digits, is_quoted, skip, name, time, rule, tz_valid, quoted_name, plain_name,
  seconds, minutes, expect, month_rule, date, is_end, dst_offset, rules,
}

-- A letter, a digit or one of `+-<>:,./`.
abbrev pub is_tz_byte : ℕ → Bool
is_tz_byte c =
    is_quoted c || c == b'<' || c == b'>' || c == b':' || c == b',' || c == b'.' || c == b'/'

-- All bytes before a NUL are such.
unfoldable pub is_clean : List ℕ → Bool
is_clean [] = true
is_clean (c ∷ s) = c == 0 || (is_tz_byte c && is_clean s)

-- Where the rest is clean, so is the text.
abbrev Passes : List ℕ → List ℕ → Type 0
Passes s t = is_clean t ≡ true → is_clean s ≡ true

bind-some {ℓ κ} :
    {A : Type ℓ} {B : Type κ} (o : Option A) (f : A → Option B) (b : B)
    → (o >>= f) ≡ some b
    → (a : A) × (o ≡ some a) × (f a ≡ some b)
bind-some none f b h = absurd (ground (arith, h))
bind-some (some a) f b h = (a, refl, h)

next-Passes : (c : ℕ) (s : List ℕ) → (peek s == c) ≡ true → is_tz_byte c ≡ true → Passes s (next s)
unfolding is_clean
next-Passes c [] e h k = refl
next-Passes c (x ∷ s) e h k = ground (arith, e, h, k)

digits_loop-Passes : (m n v : ℕ) (s : List ℕ) → Passes s (digits_loop m n v s).2
unfolding digits_loop is_clean
digits_loop-Passes m n v [] k = refl
digits_loop-Passes m n v (c ∷ s) k =
    ground (arith, k, digits_loop-Passes m (n + 1) (v * 10 + (c - b'0')) s)

digits-Passes : (a b lo hi : ℕ) (s t : List ℕ) → digits a b lo hi s ≡ some t → Passes s t
unfolding digits
digits-Passes a b lo hi s t h k = ground (arith, h, k, digits_loop-Passes b 0 0 s)

skip-Passes :
    (p : ℕ → Bool) (s : List ℕ)
    → ((c : ℕ) → p c ≡ true → is_tz_byte c ≡ true)
    → Passes s (skip p s).1
unfolding skip is_clean
skip-Passes p [] q k = refl
skip-Passes p (c ∷ s) q k = elim (Bool-cases (p c)) [
  | inl e ↦ ground (arith, e, k, q c e, skip-Passes p s q)
  | inr e ↦ ground (arith, e, k)
]

quoted_name-Passes : (s t : List ℕ) → quoted_name s ≡ some t → Passes s t
quoted_name-Passes s t h k =
    let u = (skip is_quoted s).1 in
    elim (Bool-cases (peek u == b'>')) [
      | inl e ↦
          skip-Passes is_quoted s (λ c d. ground (arith, d))
            (next-Passes b'>' u e refl (ground (arith, h, e, k)))
      | inr e ↦ absurd (ground (arith, h, e))
    ]

plain_name-Passes : (s t : List ℕ) → plain_name s ≡ some t → Passes s t
plain_name-Passes s t h k = ground (arith, h, k, skip-Passes is_alpha s (λ c e. ground (arith, e)))

seconds-Passes : (s t : List ℕ) → seconds s ≡ some t → Passes s t
seconds-Passes s t h k = elim (Bool-cases (peek s == b':')) [
  | inl e ↦ next-Passes b':' s e refl (digits-Passes 1 2 0 59 (next s) t (ground (arith, h, e)) k)
  | inr e ↦ ground (arith, h, e, k)
]

minutes-Passes : (s t : List ℕ) → minutes s ≡ some t → Passes s t
minutes-Passes s t h k = elim (Bool-cases (peek s == b':')) [
  | inl e ↦
      (let (a, d, r) = bind-some (digits 1 2 0 59 (next s)) seconds t (ground (arith, h, e)) in
        next-Passes b':' s e refl (digits-Passes 1 2 0 59 (next s) a d (seconds-Passes a t r k)))
  | inr e ↦ ground (arith, h, e, k)
]

expect-Passes : (c : ℕ) (s t : List ℕ) → is_tz_byte c ≡ true → expect c s ≡ some t → Passes s t
expect-Passes c s t b h k = elim (Bool-cases (peek s == c)) [
  | inl e ↦ next-Passes c s e b (ground (arith, h, e, k))
  | inr e ↦ absurd (ground (arith, h, e))
]

name-Passes : (s t : List ℕ) → name s ≡ some t → Passes s t
unfolding name
name-Passes s t h k = elim (Bool-cases (peek s == b'<')) [
  | inl e ↦ next-Passes b'<' s e refl (quoted_name-Passes (next s) t (ground (arith, h, e)) k)
  | inr e ↦ plain_name-Passes s t (ground (arith, h, e)) k
]

signed-Passes :
    (sign_ok : Bool) (s : List ℕ)
    → Passes s (if sign_ok && (peek s == b'+' || peek s == b'-') then next s else s)
signed-Passes sign_ok s k = elim (Bool-cases (peek s == b'+')) [
  | inl e ↦ ground (arith, k, e, next-Passes b'+' s e refl)
  | inr e ↦ elim (Bool-cases (peek s == b'-')) [
    | inl f ↦ ground (arith, k, e, f, next-Passes b'-' s f refl)
    | inr f ↦ ground (arith, k, e, f)
  ]
]

time-Passes : (b : Bool) (hours : ℕ) (s t : List ℕ) → time b hours s ≡ some t → Passes s t
unfolding time
time-Passes b hours s t h k =
    let u = if b && (peek s == b'+' || peek s == b'-') then next s else s in
    let (a, d, r) = bind-some (digits 1 3 0 hours u) minutes t h in
    signed-Passes b s (digits-Passes 1 3 0 hours u a d (minutes-Passes a t r k))

month_rule-Passes : (s t : List ℕ) → month_rule s ≡ some t → Passes s t
month_rule-Passes s t h k =
    let (a, d, r) = bind-some (digits 1 2 1 12 s) _ t h in
    let (b, d', r') = bind-some (expect b'.' a) _ t r in
    let (c, d'', r'') = bind-some (digits 1 1 1 5 b) _ t r' in
    let (e, d3, r3) = bind-some (expect b'.' c) _ t r'' in
    digits-Passes 1 2 1 12 s a d (
      expect-Passes b'.' a b refl d' (
        digits-Passes 1 1 1 5 b c d''
          (expect-Passes b'.' c e refl d3 (digits-Passes 1 1 0 6 e t r3 k))))

date-Passes : (s t : List ℕ) → date s ≡ some t → Passes s t
date-Passes s t h k = elim (Bool-cases (peek s == b'M')) [
  | inl e ↦ next-Passes b'M' s e refl (month_rule-Passes (next s) t (ground (arith, h, e)) k)
  | inr e ↦ elim (Bool-cases (peek s == b'J')) [
    | inl f ↦
        next-Passes b'J' s f refl (digits-Passes 1 3 1 365 (next s) t (ground (arith, h, e, f)) k)
    | inr f ↦ digits-Passes 1 3 0 365 s t (ground (arith, h, e, f)) k
  ]
]

rule-Passes : (s t : List ℕ) → rule s ≡ some t → Passes s t
unfolding rule
rule-Passes s t h k =
    let (a, d, r) = bind-some (date s) _ t h in
    date-Passes s a d (elim (Bool-cases (peek a == b'/')) [
      | inl e ↦
          next-Passes b'/' a e refl (time-Passes false 167 (next a) t (ground (arith, r, e)) k)
      | inr e ↦ ground (arith, r, e, k)
    ])

dst_offset-Passes : (s t : List ℕ) → dst_offset s ≡ some t → Passes s t
dst_offset-Passes s t h k = elim (Bool-cases (not (peek s == b',') && not (is_end s))) [
  | inl e ↦ time-Passes true 24 s t (ground (arith, h, e)) k
  | inr e ↦ ground (arith, h, e, k)
]

end-is_clean : (s : List ℕ) → is_end s ≡ true → is_clean s ≡ true
unfolding is_clean
end-is_clean [] h = refl
end-is_clean (c ∷ s) h = ground (arith, h)

-- The two rules, up to the end that they leave.
abbrev two_rules : List ℕ → Option (List ℕ)
two_rules s = do a ← expect b',' s; b ← rule a; c ← expect b',' b; rule c

two_rules-Passes : (s t : List ℕ) → two_rules s ≡ some t → Passes s t
two_rules-Passes s t h k =
    let (a, d, r) = bind-some (expect b',' s) _ t h in
    let (b, d', r') = bind-some (rule a) _ t r in
    let (c, d'', r'') = bind-some (expect b',' b) _ t r' in
    expect-Passes b',' s a refl d
      (rule-Passes a b d' (expect-Passes b',' b c refl d'' (rule-Passes c t r'' k)))

rules-is_clean : (s : List ℕ) → rules s ≡ true → is_clean s ≡ true
rules-is_clean s h = elim (Bool-cases (is_end s)) [
  | inl e ↦ end-is_clean s e
  | inr e ↦ elim (Option-cases (two_rules s)) [
    | inl f ↦ absurd (ground (arith, h, e, f))
    | inr (t, f) ↦ two_rules-Passes s t f (end-is_clean t (ground (arith, h, e, f)))
  ]
]

-- The names of the standard and the daylight zone, with their offsets.
abbrev standard : List ℕ → Option (List ℕ)
standard s = do a ← name s; time true 24 a

abbrev daylight : List ℕ → Option (List ℕ)
daylight s = do a ← name s; dst_offset a

standard-Passes : (s t : List ℕ) → standard s ≡ some t → Passes s t
standard-Passes s t h k =
    let (a, d, r) = bind-some (name s) _ t h in name-Passes s a d (time-Passes true 24 a t r k)

daylight-Passes : (s t : List ℕ) → daylight s ≡ some t → Passes s t
daylight-Passes s t h k =
    let (a, d, r) = bind-some (name s) _ t h in name-Passes s a d (dst_offset-Passes a t r k)

daylight-is_clean :
    (s : List ℕ) → elim (daylight s) [ none ↦ false | some q ↦ rules q ] ≡ true → is_clean s ≡ true
daylight-is_clean s h = elim (Option-cases (daylight s)) [
  | inl e ↦ absurd (ground (arith, h, e))
  | inr (q, e) ↦ daylight-Passes s q e (rules-is_clean q (ground (arith, h, e)))
]

-- An accepted timezone is safe to be written into a JSON text, an HTML page or the environment: it
-- has only letters, digits and `+-<>:,./`, up to its end.
pub tz_valid-is_clean : (tz : List ℕ) → tz_valid tz ≡ true → is_clean tz ≡ true
unfolding tz_valid
tz_valid-is_clean tz h = elim (Option-cases (standard tz)) [
  | inl e ↦ absurd (ground (arith, h, e))
  | inr (p, e) ↦ standard-Passes tz p e (elim (Bool-cases (is_end p)) [
    | inl f ↦ end-is_clean p f
    | inr f ↦ daylight-is_clean p (ground (arith, h, e, f))
  ])
]
