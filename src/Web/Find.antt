-- ===== src/Web/Find.antt =====
-- What strstr() finds.
use gdo_blaq_homekit.Prelude.{
  ℕ, suc, ◌≤◌, ◌≡◌, ◌≢◌, refl, sym, ap, ◌∙◌, Option-cases, inl, inr, List, [], ◌∷◌, ◌++◌, Option,
  none, some, length, arith,
}
use gdo_blaq_homekit.Prelude.Cstr.{strip, or_else, strstr}

-- The text is nowhere in the other.
abbrev pub Never : List ℕ → List ℕ → Type 0
Never needle s = (before after : List ℕ) → s ≢ before ++ (needle ++ after)

-- The text is in the other for the first time before `after`.
pub record First (needle s after : List ℕ) : Type 0 where
  pub before : List ℕ
  pub split : s ≡ before ++ (needle ++ after)
  pub first :
      (before' after' : List ℕ) → s ≡ before' ++ (needle ++ after') → length before ≤ length before'

strip-some : (k s p : List ℕ) → strip k s ≡ some p → s ≡ k ++ p
unfolding strip
strip-some [] s p h = ground (arith, h)
strip-some (x ∷ k) [] p h = absurd (ground (arith, h))
strip-some (x ∷ k) (c ∷ s) p h = ground (arith, h, strip-some k s p)

strip-append : (k p : List ℕ) → strip k (k ++ p) ≡ some p
unfolding strip
strip-append [] p = refl
strip-append (x ∷ k) p = ground (arith, strip-append k p)

not_here : (k s p : List ℕ) → strip k s ≡ none → s ≢ k ++ p
not_here k s p h e = absurd (ground (arith, sym h ∙ ap (strip k) e ∙ strip-append k p))

abbrev tail_of : List ℕ → List ℕ
tail_of [] = []
tail_of (c ∷ s) = s

or_else-none : (a b : Option (List ℕ)) → or_else a b ≡ none → (a ≡ none) × (b ≡ none)
unfolding or_else
or_else-none none b h = (refl, h)
or_else-none (some p) b h = absurd (ground (arith, h))

pub strstr-Never : (needle s : List ℕ) → strstr needle s ≡ none → Never needle s
unfolding strstr
strstr-Never needle [] h [] after e = not_here needle [] after h e
strstr-Never needle [] h (b ∷ before) after e = absurd (ground (arith, e))
strstr-Never needle (c ∷ s) h [] after e =
    not_here needle (c ∷ s) after (or_else-none (strip needle (c ∷ s)) (strstr needle s) h).0 e
strstr-Never needle (c ∷ s) h (b ∷ before) after e =
    strstr-Never needle s (or_else-none (strip needle (c ∷ s)) (strstr needle s) h).1 before after
      (ap tail_of e)

at_start : (needle s after : List ℕ) → strip needle s ≡ some after → First needle s after
at_start needle s after h = record {
  before = [];
  split = strip-some needle s after h;
  first = λ before' after' e. omega arith;
}

first_later :
    (needle s after : List ℕ) (c : ℕ)
    → strip needle (c ∷ s) ≡ none
    → First needle s after
    → (before' after' : List ℕ) → c ∷ s ≡ before' ++ (needle ++ after')
    → (f : First needle s after) → suc (length f.before) ≤ length before'
first_later needle s after c n g [] after' e f = absurd (not_here needle (c ∷ s) after' n e)
first_later needle s after c n g (b ∷ before') after' e f =
    omega (arith, f.first before' after' (ap tail_of e))

later :
    (needle s after : List ℕ) (c : ℕ)
    → strip needle (c ∷ s) ≡ none
    → First needle s after
    → First needle (c ∷ s) after
later needle s after c n f = record {
  before = c ∷ f.before;
  split = ap (λ r. c ∷ r) f.split;
  first = λ before' after' e. first_later needle s after c n f before' after' e f;
}

pub strstr-First : (needle s after : List ℕ) → strstr needle s ≡ some after → First needle s after
unfolding strstr or_else
strstr-First needle [] after h = at_start needle [] after h
strstr-First needle (c ∷ s) after h = elim (Option-cases (strip needle (c ∷ s))) [
  | inl n ↦ later needle s after c n (strstr-First needle s after (ground (arith, h, n)))
  | inr (p, e) ↦ at_start needle (c ∷ s) after (ground (arith, h, e))
]
