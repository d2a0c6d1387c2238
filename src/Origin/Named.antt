-- ===== src/Origin/Named.antt =====
-- Which origins name a host (request_origin_matches_host).
use gdo_blaq_homekit.Prelude.{
  ℕ, zero, suc, ◌-◌, ◌==◌, ◌≡◌, ◌≢◌, ◌⊎◌, refl, sym, ap, ap₂, ◌∙◌, Bool, true, false, Bool-cases,
  Option-cases, inl, inr, not, ◌&&◌, List, [], ◌∷◌, ◌++◌, map, Option, none, some, length, take,
  drop, get_or, bytes_eq, take-append-drop, append-nil, ==_iff, arith,
}
use gdo_blaq_homekit.Prelude.Ring.{drop-get_or, drop-all}
use gdo_blaq_homekit.Origin.{
  lower, ieq, starts_with, separator, after_sep, authority_len, matches_host, is_empty,
}
use gdo_blaq_homekit.Origin.Local.{bytes_eq_sound, bytes_eq_refl, ieq-lower}

-- An Origin names the authority: a scheme, `://`, and the authority in letters of either case, with
-- or without a slash at the end.
pub record Names (origin host : List ℕ) : Type 0 where
  pub scheme : List ℕ
  pub authority : List ℕ
  pub slash : List ℕ
  pub parts : origin ≡ scheme ++ separator ++ (authority ++ slash)
  pub end : (slash ≡ []) ⊎ (slash ≡ b'/' ∷ [])
  pub same : map lower authority ≡ map lower host

starts_with-split : (p s : List ℕ) → starts_with p s ≡ true → s ≡ p ++ drop (length p) s
starts_with-split [] s h = refl
starts_with-split (c ∷ p) [] h = ground (arith, h)
starts_with-split (c ∷ p) (x ∷ s) h =
    ap₂ (λ y r. y ∷ r) (ground (arith, h)) (starts_with-split p s (ground (arith, h)))

after_sep-hit :
    (c : ℕ) (s : List ℕ)
    → starts_with separator (c ∷ s) ≡ true
    → after_sep (c ∷ s) ≡ some (drop 3 (c ∷ s))
unfolding after_sep
after_sep-hit c s e = ground (arith, e)

after_sep-miss :
    (c : ℕ) (s : List ℕ) → starts_with separator (c ∷ s) ≡ false → after_sep (c ∷ s) ≡ after_sep s
unfolding after_sep
after_sep-miss c s e = ground (arith, e)

some_inj : {a b : List ℕ} → Path (Option (List ℕ)) (some a) (some b) → a ≡ b
some_inj h = cc

after_sep-split :
    (origin rest : List ℕ)
    → after_sep origin ≡ some rest
    → (scheme : List ℕ) × (origin ≡ scheme ++ separator ++ rest)
after_sep-split [] rest h = unfold after_sep in ground (arith, h)
after_sep-split (c ∷ s) rest h = elim (Bool-cases (starts_with separator (c ∷ s))) [
  | inl e ↦ (
    [],
    starts_with-split separator (c ∷ s) e
        ∙ ap (λ t. separator ++ t) (some_inj (sym (after_sep-hit c s e) ∙ h)),
  )
  | inr e ↦
      let (scheme, eq) = after_sep-split s rest (sym (after_sep-miss c s e) ∙ h) in
      (c ∷ scheme, ap (λ t. c ∷ t) eq)
]

-- No byte of a text is a colon.
abbrev pub NoColon : List ℕ → Type 0
NoColon [] = Unit {0}
NoColon (c ∷ s) = (c ≢ b':') × NoColon s

no_start : (c : ℕ) (s : List ℕ) → c ≢ b':' → starts_with separator (c ∷ s) ≡ false
no_start c s h = ground (arith, h)

after_sep-scheme :
    (scheme rest : List ℕ) → NoColon scheme → after_sep (scheme ++ separator ++ rest) ≡ some rest
after_sep-scheme [] rest h = after_sep-hit b':' (b'/' ∷ b'/' ∷ rest) refl
after_sep-scheme (c ∷ scheme) rest h =
    after_sep-miss c (scheme ++ separator ++ rest) (no_start c (scheme ++ separator ++ rest) h.0)
    ∙ after_sep-scheme scheme rest h.1

last-split :
    (s : List ℕ) → length s ≢ 0 → s ≡ take (length s - 1) s ++ get_or s (length s - 1) 0 ∷ []
last-split s n =
    sym (take-append-drop (length s - 1) s)
    ∙ ap (λ t. take (length s - 1) s ++ t)
        (drop-get_or s (length s - 1) 0 (omega (arith, n))
          ∙ ap (λ t. get_or s (length s - 1) 0 ∷ t)
              (drop-all s (suc (length s - 1)) (omega (arith, n))))

take-all : (s : List ℕ) (n : ℕ) → n ≡ length s → take n s ≡ s
take-all [] zero e = refl
take-all [] (suc n) e = refl
take-all (x ∷ s) zero e = absurd (omega (arith, e))
take-all (x ∷ s) (suc n) e = ap (λ t. x ∷ t) (take-all s n (omega (arith, e)))

authority_len-cases :
    (s : List ℕ)
    → (authority_len s ≡ length s)
      ⊎ ((length s ≢ 0) × (get_or s (length s - 1) 0 ≡ b'/') × (authority_len s ≡ length s - 1))
unfolding authority_len
authority_len-cases s = ground arith

authority-split :
    (s : List ℕ)
    → (slash : List ℕ) × (s ≡ take (authority_len s) s ++ slash)
      × ((slash ≡ []) ⊎ (slash ≡ b'/' ∷ []))
authority-split s = elim (authority_len-cases s) [
  | inl e ↦
      ([], sym (append-nil (take (authority_len s) s) ∙ take-all s (authority_len s) e), inl refl)
  | inr (n, c, e) ↦ (
    b'/' ∷ [],
    last-split s n
        ∙ ap (λ x. take (length s - 1) s ++ x ∷ []) c
        ∙ ap (λ (x : ℕ). take x s ++ b'/' ∷ []) (sym e),
    inr refl,
  )
]

-- What the comparison of a whole authority comes to.
compared :
    (authority host : List ℕ)
    → authority_len authority ≡ length host
    → ieq authority host (authority_len authority)
      ≡ bytes_eq (map lower (take (authority_len authority) authority)) (map lower host)
compared authority host e =
    ieq-lower authority host (authority_len authority)
      (ground (arith, authority_len-cases authority)) (omega (arith, e))
    ∙ ap (λ t. bytes_eq (map lower (take (authority_len authority) authority)) (map lower t))
        (take-all host (authority_len authority) e)

-- `matches_host`, when the origin has an authority.
matches_host-tests :
    (origin host authority : List ℕ)
    → after_sep origin ≡ some authority
    → matches_host origin host ≡ (
        not (is_empty host)
        && authority_len authority == length host
        && not (authority_len authority == 0)
        && ieq authority host (authority_len authority))
unfolding matches_host
matches_host-tests origin [] authority e = refl
matches_host-tests origin (h ∷ host) authority e = rw (matches_host, e) refl

matches_host-no_sep :
    (origin host : List ℕ) → after_sep origin ≡ none → matches_host origin host ≡ false
unfolding matches_host
matches_host-no_sep origin [] e = refl
matches_host-no_sep origin (h ∷ host) e = rw (matches_host, e) refl

and_elim : (a b c d : Bool) → (a && b && c && d) ≡ true → (b ≡ true) × (d ≡ true)
and_elim a b c d h = (ground (arith, h), ground (arith, h))

pub matches_host-Names :
    (origin host : List ℕ) → matches_host origin host ≡ true → Names origin host
matches_host-Names origin host h = elim (Option-cases (after_sep origin)) [
  | inl e ↦ absurd (ground (arith, h, matches_host-no_sep origin host e))
  | inr (authority, e) ↦
      (let (len, same) =
          and_elim (not (is_empty host)) (authority_len authority == length host)
            (not (authority_len authority == 0)) (ieq authority host (authority_len authority))
            (sym (matches_host-tests origin host authority e) ∙ h) in
        let n = (==_iff (authority_len authority) (length host)).0 len in
        let (scheme, split) = after_sep-split origin authority e in
        let (slash, rest, end) = authority-split authority in
        record {
          scheme = scheme;
          authority = take (authority_len authority) authority;
          slash = slash;
          parts = split ∙ ap (λ t. scheme ++ separator ++ t) rest;
          end = end;
          same =
              bytes_eq_sound (map lower (take (authority_len authority) authority)) (map lower host)
                (sym (compared authority host n) ∙ same);
        })
]

own_name :
    (host : List ℕ)
    → host ≢ []
    → get_or host (length host - 1) 0 ≢ b'/'
    → authority_len host ≡ length host
own_name host h k = elim (authority_len-cases host) [ inl e ↦ e | inr (n, c, e) ↦ absurd (k c) ]

length-zero : (s : List ℕ) → length s ≡ 0 → s ≡ []
length-zero [] h = refl
length-zero (c ∷ s) h = absurd (omega (arith, h))

pub matches_host-own :
    (scheme host : List ℕ)
    → NoColon scheme
    → host ≢ []
    → get_or host (length host - 1) 0 ≢ b'/'
    → matches_host (scheme ++ separator ++ host) host ≡ true
matches_host-own scheme [] hs h k = absurd (h refl)
matches_host-own scheme (c ∷ t) hs h k =
    let host = c ∷ t in
    let n = own_name host h k in
    let same =
      compared host host n
      ∙ ap (λ x. bytes_eq (map lower x) (map lower host)) (take-all host (authority_len host) n)
      ∙ bytes_eq_refl (map lower host) in
    matches_host-tests (scheme ++ separator ++ host) host host (after_sep-scheme scheme host hs)
    ∙ rw same (ground (arith, n))
