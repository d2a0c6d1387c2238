-- ===== src/Form/Values.antt =====
-- What the values of form_get_param can hold, and that an encoded value is read back.
use gdo_blaq_homekit.Prelude.{
  ℕ, zero, suc, ◌+◌, ◌-◌, ◌*◌, ◌/◌, ◌%◌, ◌<◌, ◌≡◌, ◌≢◌, refl, sym, subst, ap, ◌∙◌, true,
  if◌then◌else◌, ◌==◌, ltb, leb, List, [], ◌∷◌, ◌++◌, Option, none, some, length, drop, arith,
  Bool-cases, Option-cases, inl, inr,
}
use gdo_blaq_homekit.Form.{hexval, escape, plain, put, decode, names, after_amp, find, get_param}
use gdo_blaq_homekit.Form.Rounds.{
  All, NoAmp, decode_nil, decode_one, decode_two, decode_more, find_cons,
}
use gdo_blaq_homekit.Form.Fields.{AllNoAmp, join, get_param-join}

abbrev pub NonNul : List ℕ → Type 0
NonNul = All (λ c. c ≢ 0)

-- A value from the `o`-th byte of a buffer of `n` on.
abbrev Fits : ℕ → ℕ → Option (List ℕ) → Type 0
Fits n o none = Unit {0}
Fits n o (some v) = (length v + o < n) × NonNul v

put-Fits :
    (n o c : ℕ) (rest : Option (List ℕ))
    → (o + 1 < n → Fits n (o + 1) rest)
    → Fits n o (put n o c rest)
put-Fits n o c none h = elim (Bool-cases (c == 0)) [
  | inl e ↦ rw e tt
  | inr e ↦ rw e (elim (Bool-cases (leb n (o + 1))) [ inl e' ↦ rw e' tt | inr e' ↦ rw e' tt ])
]
put-Fits n o c (some w) h = elim (Bool-cases (c == 0)) [
  | inl e ↦ rw e tt
  | inr e ↦ rw e (elim (Bool-cases (leb n (o + 1))) [
    | inl e' ↦ rw e' tt
    | inr e' ↦ rw e' (let fit = h (ground arith) in (omega arith, (ground arith, fit.1)))
  ])
]

decode-Fits : (n o : ℕ) (s : List ℕ) → o < n → Fits n o (decode n o s)
decode-Fits n o [] lt = rw (decode_nil n o) (omega arith, tt)
decode-Fits n o (c ∷ []) lt = rw (decode_one n o c) (elim (Bool-cases (c == b'&')) [
  | inl e ↦ rw e (omega arith, tt)
  | inr e ↦ rw e (put-Fits n o (plain c) (some []) (λ lt'. (omega arith, tt)))
])
decode-Fits n o (c ∷ h ∷ []) lt = rw (decode_two n o c h) (elim (Bool-cases (c == b'&')) [
  | inl e ↦ rw e (omega arith, tt)
  | inr e ↦ rw e (
      put-Fits n o (plain c) (decode n (o + 1) (h ∷ []))
        (λ lt'. decode-Fits n (o + 1) (h ∷ []) lt'))
])
decode-Fits n o (c ∷ h ∷ l ∷ s) lt = rw (decode_more n o c h l s) (elim (Bool-cases (c == b'&')) [
  | inl e ↦ rw e (omega arith, tt)
  | inr e ↦ rw e (elim (Option-cases (escape c h l)) [
    | inl e' ↦ rw e' (
        put-Fits n o (plain c) (decode n (o + 1) (h ∷ l ∷ s))
          (λ lt'. decode-Fits n (o + 1) (h ∷ l ∷ s) lt'))
    | inr (d, e') ↦ rw e' (put-Fits n o d (decode n (o + 1) s) (λ lt'. decode-Fits n (o + 1) s lt'))
  ])
])

find-Fits : (k : ℕ) (key : List ℕ) (n : ℕ) (p : List ℕ) → 0 < n → Fits n 0 (find k key n p)
find-Fits zero key n p lt = unfold find in tt
find-Fits (suc k) key n [] lt = unfold find in tt
find-Fits (suc k) key n (c ∷ p) lt =
    rw (find_cons k key n c p) (elim (Bool-cases (names key (c ∷ p))) [
      | inl e ↦ rw e (decode-Fits n 0 (drop (length key) p) lt)
      | inr e ↦ rw e (elim (Option-cases (after_amp (c ∷ p))) [
        | inl e' ↦ rw e' tt
        | inr (q, e') ↦ rw e' (find-Fits k key n q lt)
      ])
    ])

get_param-find :
    (body key : List ℕ) (n : ℕ) → n ≢ 0 → get_param body key n ≡ find (suc (length body)) key n body
unfolding get_param
get_param-find body key n h = ground arith

-- Whatever the body and the key, a value that is returned fits its buffer with the terminator and
-- holds no NUL.
pub get_param-fits :
    (body key : List ℕ) (out_len : ℕ) {v : List ℕ}
    → out_len ≢ 0
    → get_param body key out_len ≡ some v
    → (length v < out_len) × NonNul v
get_param-fits body key n {v} h e =
    let fit =
      subst (Fits n 0) (sym (get_param-find body key n h) ∙ e)
        (find-Fits (suc (length body)) key n body (omega arith)) in
    (omega arith, fit.1)

-- Percent-encoding, every byte of it.
abbrev pub hex_char : ℕ → ℕ
hex_char d = if ltb d 10 then b'0' + d else b'A' + (d - 10)

abbrev pub encode : List ℕ → List ℕ
encode [] = []
encode (c ∷ v) = b'%' ∷ hex_char (c / 16) ∷ hex_char (c % 16) ∷ encode v

abbrev pub IsText : List ℕ → Type 0
IsText = All (λ c. (0 < c) × (c < 256))

hexval-hex_char : (d : ℕ) → d < 16 → hexval (hex_char d) ≡ some d
unfolding hexval
hexval-hex_char d h = ground arith

escape_digits :
    (h l hi lo : ℕ)
    → hexval h ≡ some hi
    → hexval l ≡ some lo
    → escape b'%' h l ≡ some (hi * 16 + lo)
unfolding escape
escape_digits h l hi lo p q = rw (p, q)

escape-hex_char : (c : ℕ) → c < 256 → escape b'%' (hex_char (c / 16)) (hex_char (c % 16)) ≡ some c
escape-hex_char c h =
    escape_digits (hex_char (c / 16)) (hex_char (c % 16)) (c / 16) (c % 16)
      (hexval-hex_char (c / 16) (omega arith)) (hexval-hex_char (c % 16) (omega arith))
    ∙ ap some (omega arith)

decode-encode :
    (n o : ℕ) (v : List ℕ) → IsText v → length v + o < n → decode n o (encode v) ≡ some v
decode-encode n o [] h lt = decode_nil n o
decode-encode n o (c ∷ v) h lt = ground (
  arith,
  decode_more n o b'%' (hex_char (c / 16)) (hex_char (c % 16)) (encode v),
  escape-hex_char c,
  decode-encode n (o + 1) v h.1 (omega arith),
)

hex_char-ne : (d : ℕ) → d < 16 → hex_char d ≢ b'&'
hex_char-ne d h = ground arith

encode-NoAmp : (v : List ℕ) → IsText v → NoAmp (encode v)
encode-NoAmp [] h = tt
encode-NoAmp (c ∷ v) h = (
  λ e. absurd (omega (arith, e)),
  (hex_char-ne (c / 16) (omega arith), (hex_char-ne (c % 16) (omega arith), encode-NoAmp v h.1)),
)

-- The field that a browser sends for a key and a value.
abbrev pub field : List ℕ → List ℕ → List ℕ
field key v = key ++ (b'=' ∷ encode v)

names-field : (key r : List ℕ) → names key (key ++ (b'=' ∷ r)) ≡ true
unfolding names
names-field [] r = refl
names-field (k ∷ key) r = ground (arith, names-field key r)

drop-field : (key r : List ℕ) → drop (suc (length key)) (key ++ (b'=' ∷ r)) ≡ r
drop-field [] r = refl
drop-field (k ∷ key) r = drop-field key r

append-NoAmp : (f g : List ℕ) → NoAmp f → NoAmp g → NoAmp (f ++ g)
append-NoAmp [] g h k = k
append-NoAmp (c ∷ f) g h k = (h.0, append-NoAmp f g h.1 k)

-- A percent-encoded text of bytes 1 to 255, sent in a field before any others, is read back
-- unchanged if it fits the buffer with its terminator.
pub get_param-encode :
    (key v : List ℕ) (fs : List (List ℕ)) (out_len : ℕ)
    → NoAmp key
    → AllNoAmp fs
    → IsText v
    → length v < out_len
    → get_param (join (field key v ∷ fs)) key out_len ≡ some v
get_param-encode key v fs out_len hk hf ht lt =
    get_param-join (field key v ∷ fs) key out_len hk
      (
        append-NoAmp key (b'=' ∷ encode v) hk (λ e. absurd (omega (arith, e)), encode-NoAmp v ht),
        hf,
      )
      (omega arith)
    ∙ rw (names-field key (encode v), drop-field key (encode v))
        (decode-encode out_len 0 v ht (omega arith))
