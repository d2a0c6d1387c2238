-- ===== src/Form/Rounds.antt =====
-- The loops of form_get_param, one round at a time.
use gdo_blaq_homekit.Prelude.{
  ℕ, suc, ◌+◌, ◌≡◌, ◌≢◌, refl, sym, ◌∙◌, if◌then◌else◌, ◌==◌, List, [], ◌∷◌, ◌++◌, Option, none,
  some, length, drop, arith,
}
use gdo_blaq_homekit.Form.{escape, plain, put, decode, names, after_amp, find}

abbrev pub All {κ} : (ℕ → Type κ) → List ℕ → Type κ
All P [] = Unit
All P (c ∷ s) = P c × All P s

-- The bytes of one field.
abbrev pub NoAmp : List ℕ → Type 0
NoAmp = All (λ c. c ≢ b'&')

pub escape_amp : (c l : ℕ) → escape c b'&' l ≡ none
unfolding escape
escape_amp c l = ground arith

pub escape_amp₂ : (c h : ℕ) → escape c h b'&' ≡ none
unfolding escape
escape_amp₂ c h = ground arith

-- One round of the inner loop, at each length that it tells apart.
pub decode_nil : (n o : ℕ) → decode n o [] ≡ some []
unfolding decode
decode_nil n o = refl

pub decode_one :
    (n o c : ℕ) → decode n o (c ∷ []) ≡ (if c == b'&' then some [] else put n o (plain c) (some []))
unfolding decode
decode_one n o c = refl

pub decode_two :
    (n o c h : ℕ)
    → decode n o (c ∷ h ∷ [])
      ≡ (if c == b'&' then some [] else put n o (plain c) (decode n (o + 1) (h ∷ [])))
unfolding decode
decode_two n o c h = refl

pub decode_more :
    (n o c h l : ℕ) (s : List ℕ)
    → decode n o (c ∷ h ∷ l ∷ s) ≡ (
        if c == b'&' then some [] else elim (escape c h l) [
          | some d ↦ put n o d (decode n (o + 1) s)
          | none ↦ put n o (plain c) (decode n (o + 1) (h ∷ l ∷ s))
        ])
unfolding decode
decode_more n o c h l s = refl

pub decode_amp : (n o : ℕ) (rest : List ℕ) → decode n o (b'&' ∷ rest) ≡ some []
decode_amp n o [] = decode_one n o b'&'
decode_amp n o (x ∷ []) = decode_two n o b'&' x
decode_amp n o (x ∷ y ∷ r) = decode_more n o b'&' x y r

pub decode-append :
    (n o : ℕ) (f rest : List ℕ) → NoAmp f → decode n o (f ++ (b'&' ∷ rest)) ≡ decode n o f
decode-append n o [] rest h = decode_amp n o rest ∙ sym (decode_nil n o)
decode-append n o (c ∷ []) [] h =
    ground (arith, decode_one n o c, decode_two n o c b'&', decode_amp n (o + 1) [])
decode-append n o (c ∷ []) (x ∷ r) h = ground (
  arith,
  decode_one n o c,
  decode_more n o c b'&' x r,
  decode_amp n (o + 1) (x ∷ r),
  escape_amp c x,
)
decode-append n o (c ∷ d ∷ []) r h = ground (
  arith,
  decode_two n o c d,
  decode_more n o c d b'&' r,
  decode-append n (o + 1) (d ∷ []) r h.1,
  escape_amp₂ c d,
)
decode-append n o (c ∷ d ∷ e ∷ f) r h = ground (
  arith,
  decode_more n o c d e f,
  decode_more n o c d e (f ++ (b'&' ∷ r)),
  decode-append n (o + 1) f r h.1.1.1,
  decode-append n (o + 1) (d ∷ e ∷ f) r h.1,
)

-- The value of a field: what follows the name and its `=`, decoded.
abbrev pub value_of : List ℕ → ℕ → List ℕ → Option (List ℕ)
value_of key n f = decode n 0 (drop (suc (length key)) f)

pub find_cons :
    (k : ℕ) (key : List ℕ) (n c : ℕ) (p : List ℕ)
    → find (suc k) key n (c ∷ p) ≡ (
        if names key (c ∷ p)
        then value_of key n (c ∷ p)
        else elim (after_amp (c ∷ p)) [ none ↦ none | some q ↦ find k key n q ])
unfolding find
find_cons k key n c p = refl
