-- ===== src/Form/Fields.antt =====
-- form_get_param against a body taken as its list of fields.
use gdo_blaq_homekit.Prelude.{
  ℕ, zero, suc, ◌<◌, ◌≡◌, ◌≢◌, refl, ap, ◌∙◌, true, false, ◌&&◌, if◌then◌else◌, ◌==◌, List, [], ◌∷◌,
  ◌++◌, Option, none, some, length, drop, length-append, arith,
}
use gdo_blaq_homekit.Form.{names, after_amp, find, get_param}
use gdo_blaq_homekit.Form.Rounds.{NoAmp, decode-append, value_of, find_cons}

names-append : (key f rest : List ℕ) → NoAmp key → names key (f ++ (b'&' ∷ rest)) ≡ names key f
unfolding names
names-append [] [] rest h = refl
names-append [] (c ∷ f) rest h = refl
names-append (k ∷ key) [] rest h = ground arith
names-append (k ∷ key) (c ∷ f) rest h = ap (λ b. (k == c) && b) (names-append key f rest h.1)

-- A field that is named holds the name and its `=`.
drop-append :
    (key f rest : List ℕ)
    → names key f ≡ true
    → drop (suc (length key)) (f ++ rest) ≡ drop (suc (length key)) f ++ rest
unfolding names
drop-append [] [] rest h = ground arith
drop-append [] (c ∷ f) rest h = refl
drop-append (k ∷ key) [] rest h = ground arith
drop-append (k ∷ key) (c ∷ f) rest h = drop-append key f rest (ground arith)

drop-NoAmp : (n : ℕ) (f : List ℕ) → NoAmp f → NoAmp (drop n f)
drop-NoAmp zero f h = h
drop-NoAmp (suc n) [] h = h
drop-NoAmp (suc n) (c ∷ f) h = drop-NoAmp n f h.1

after_amp-append : (f rest : List ℕ) → NoAmp f → after_amp (f ++ (b'&' ∷ rest)) ≡ some rest
unfolding after_amp
after_amp-append [] rest h = refl
after_amp-append (c ∷ f) rest h = ground (arith, after_amp-append f rest h.1)

after_amp-none : (f : List ℕ) → NoAmp f → after_amp f ≡ none
unfolding after_amp
after_amp-none [] h = refl
after_amp-none (c ∷ f) h = ground (arith, after_amp-none f h.1)

-- The reference: the first field that the key names decides.
abbrev pub first_value : List ℕ → ℕ → List (List ℕ) → Option (List ℕ)
first_value key n [] = none
first_value key n (f ∷ fs) = if names key f then value_of key n f else first_value key n fs

-- A body, from its fields.
abbrev pub join : List (List ℕ) → List ℕ
join [] = []
join (f ∷ []) = f
join (f ∷ g ∷ fs) = f ++ (b'&' ∷ join (g ∷ fs))

abbrev pub AllNoAmp : List (List ℕ) → Type 0
AllNoAmp [] = Unit {0}
AllNoAmp (f ∷ fs) = NoAmp f × AllNoAmp fs

find_last :
    (k : ℕ) (key : List ℕ) (n : ℕ) (f : List ℕ)
    → NoAmp f
    → find (suc k) key n f ≡ (if names key f then value_of key n f else none)
unfolding find names
find_last k [] n [] h = refl
find_last k (c ∷ key) n [] h = refl
find_last k key n (c ∷ f) h = ground (arith, after_amp-none (c ∷ f) h)

names_nil : (key : List ℕ) → names key [] ≡ false
unfolding names
names_nil [] = refl
names_nil (k ∷ key) = refl

find_round :
    (k : ℕ) (key : List ℕ) (n : ℕ) (f rest : List ℕ)
    → NoAmp key
    → NoAmp f
    → find (suc k) key n (f ++ (b'&' ∷ rest))
      ≡ (if names key f then value_of key n f else find k key n rest)
find_round k key n [] rest hk h = ground (
  arith,
  find_cons k key n b'&' rest,
  names-append key [] rest hk,
  names_nil key,
  after_amp-append [] rest h,
)
find_round k key n (c ∷ f) rest hk h = ground (
  arith,
  find_cons k key n c (f ++ (b'&' ∷ rest)),
  names-append key (c ∷ f) rest hk,
  drop-append key (c ∷ f) (b'&' ∷ rest),
  decode-append n 0 (drop (suc (length key)) (c ∷ f)) rest
      (drop-NoAmp (suc (length key)) (c ∷ f) h),
  after_amp-append (c ∷ f) rest h,
)

find-join :
    (k : ℕ) (key : List ℕ) (n : ℕ) (fs : List (List ℕ))
    → NoAmp key
    → AllNoAmp fs
    → length (join fs) < k
    → find k key n (join fs) ≡ first_value key n fs
find-join zero key n fs hk h lt = absurd (omega arith)
find-join (suc k) key n [] hk h lt = find_last k key n [] tt ∙ rw (names_nil key)
find-join (suc k) key n (f ∷ []) hk h lt = find_last k key n f h.0
find-join (suc k) key n (f ∷ g ∷ fs) hk h lt = ground (
  arith,
  find_round k key n f (join (g ∷ fs)) hk h.0,
  find-join k key n (g ∷ fs) hk h.1 (omega (arith, lt, length-append f (b'&' ∷ join (g ∷ fs)))),
)

-- On a body made of fields that hold no `&`, joined by `&`, a key that holds no `&` gets the
-- decoded value of the first field that begins with the key and `=`, and nothing if there is no
-- such field or its value is refused. Fuel never runs out.
pub get_param-join :
    (fs : List (List ℕ)) (key : List ℕ) (out_len : ℕ)
    → NoAmp key
    → AllNoAmp fs
    → out_len ≢ 0
    → get_param (join fs) key out_len ≡ first_value key out_len fs
unfolding get_param
get_param-join fs key out_len hk h pos =
    ground (arith, find-join (suc (length (join fs))) key out_len fs hk h)
