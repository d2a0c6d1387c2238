-- ===== src/Origin/Part.antt =====
-- The host part of an authority (request_origin_host_len), and which ones are local.
use gdo_blaq_homekit.Prelude.{
  ℕ, zero, suc, ◌+◌, ◌-◌, ◌==◌, ◌≤◌, ◌≡◌, ◌≢◌, ◌↔◌, refl, sym, ap, ◌∙◌, Bool, true, false,
  Bool-cases, Option-cases, inl, inr, not, ◌&&◌, if◌then◌else◌, List, [], ◌∷◌, ◌++◌, map, Option,
  none, some, length, take, get_or, peek, arith,
}
use gdo_blaq_homekit.Origin.{lower, index_of, name_len, host_len, is_ipv4, suffix, host_is_local}
use gdo_blaq_homekit.Origin.Quad.{fields, is_octet, all_octets, is_ipv4-fields}
use gdo_blaq_homekit.Origin.Local.{
  code_part, index_of-lt, length-code_part, Accepted, by_bracket, by_ipv4, by_suffix,
  host_is_local-Accepted,
}

-- The bytes before the first `c`, or all.
abbrev pub before : ℕ → List ℕ → List ℕ
before c [] = []
before c (x ∷ s) = if x == c then [] else x ∷ before c s

-- One byte more in front, unless there is nothing.
abbrev pub onto : ℕ → List ℕ → List ℕ
onto x [] = []
onto x (y ∷ t) = x ∷ y ∷ t

-- The bytes up to the first `c`, with it; nothing where there is none.
abbrev pub through : ℕ → List ℕ → List ℕ
through c [] = []
through c (x ∷ s) = if x == c then x ∷ [] else onto x (through c s)

-- Without the dot that may stand at the end.
abbrev pub without_dot : List ℕ → List ℕ
without_dot [] = []
without_dot (x ∷ []) = if x == b'.' then [] else x ∷ []
without_dot (x ∷ y ∷ s) = x ∷ without_dot (y ∷ s)

-- The host: an address in brackets, or a name without its port and without a dot at its end.
abbrev pub host_part : List ℕ → List ℕ
host_part host = if peek host == b'[' then through b']' host else without_dot (before b':' host)

-- Four numbers between the dots, each of one to three digits and at most 255.
abbrev pub is_quad : List ℕ → Bool
is_quad s = is_octet (fields s).0 && all_octets (fields s).1 && length (fields s).1 == 3

-- What names this device in a way that no public name can: a bracketed IPv6 literal, a dotted quad,
-- or a name under .local, in letters of either case.
pub data IsLocal (host : List ℕ) : Type 0 where
  literal : peek host ≡ b'[' → host_part host ≢ [] → IsLocal host
  quad : is_quad (host_part host) ≡ true → IsLocal host
  mdns :
      (name end : List ℕ)
      → host_part host ≡ name ++ end
      → name ≢ []
      → map lower end ≡ suffix
      → IsLocal host

take_all : (s : List ℕ) → take (length s) s ≡ s
take_all [] = refl
take_all (x ∷ s) = ap (λ r. x ∷ r) (take_all s)

before_step :
    (o : Option ℕ) (x : ℕ) (s b : List ℕ)
    → take (elim o [ none ↦ length s | some i ↦ i ]) s ≡ b
    → take
        (elim (elim o as (λ _. Option ℕ) [ none ↦ none | some i ↦ some (suc i) ]) [
          | none ↦ length (x ∷ s)
          | some i ↦ i
        ])
        (x ∷ s)
      ≡ x ∷ b
before_step none x s b h = ap (λ r. x ∷ r) h
before_step (some i) x s b h = ap (λ r. x ∷ r) h

index-before :
    (c : ℕ) (s : List ℕ)
    → take (elim (index_of c s) [ none ↦ length s | some i ↦ i ]) s ≡ before c s
unfolding index_of
index-before c [] = refl
index-before c (x ∷ s) = elim (Bool-cases (x == c)) [
  | inl e ↦ rw e refl
  | inr e ↦ rw e (before_step (index_of c s) x s (before c s) (index-before c s))
]

through_step :
    (o : Option ℕ) (c x : ℕ) (s t : List ℕ)
    → index_of c s ≡ o
    → take (elim o [ none ↦ 0 | some i ↦ i + 1 ]) s ≡ t
    → take
        (elim (elim o as (λ _. Option ℕ) [ none ↦ none | some i ↦ some (suc i) ]) [
          | none ↦ 0
          | some i ↦ i + 1
        ])
        (x ∷ s)
      ≡ onto x t
unfolding index_of
through_step none c x s t e h = ap (onto x) h
through_step (some i) c x [] t e h = absurd (ground (arith, e))
through_step (some i) c x (y ∷ s) t e h =
    let one : i + 1 ≡ suc i = omega arith in
    let two : suc i + 1 ≡ suc (suc i) = omega arith in
    ap (λ (n : ℕ). take n (x ∷ y ∷ s)) two
    ∙ ap (onto x) (ap (λ (n : ℕ). take n (y ∷ s)) (sym one) ∙ h)

index-through :
    (c : ℕ) (s : List ℕ) → take (elim (index_of c s) [ none ↦ 0 | some i ↦ i + 1 ]) s ≡ through c s
unfolding index_of
index-through c [] = refl
index-through c (x ∷ s) = elim (Bool-cases (x == c)) [
  | inl e ↦ rw e refl
  | inr e ↦ rw e (through_step (index_of c s) c x s (through c s) refl (index-through c s))
]

cut_step :
    (b : Bool) (n x : ℕ) (s : List ℕ)
    → take (if b then suc n else suc (suc n)) (x ∷ s) ≡ x ∷ take (if b then n else suc n) s
cut_step true n x s = refl
cut_step false n x s = refl

-- A name that the code cuts after `n + 1` bytes, or one before where the last is a dot.
cut-without_dot :
    (n : ℕ) (s : List ℕ)
    → suc n ≤ length s
    → take (if get_or s n 0 == b'.' then n else suc n) s ≡ without_dot (take (suc n) s)
cut-without_dot n [] h = absurd (omega (arith, h))
cut-without_dot zero (x ∷ s) h = elim (Bool-cases (x == b'.')) [
  | inl e ↦ rw e refl
  | inr e ↦ rw e refl
]
cut-without_dot (suc n) (x ∷ []) h = absurd (omega (arith, h))
cut-without_dot (suc n) (x ∷ y ∷ s) h =
    cut_step (get_or (y ∷ s) n 0 == b'.') n x (y ∷ s)
    ∙ ap (λ r. x ∷ r) (cut-without_dot n (y ∷ s) (omega (arith, h)))

cut_name :
    (n : ℕ) (s : List ℕ)
    → n ≤ length s
    → take (if not (n == 0) && get_or s (n - 1) 0 == b'.' then n - 1 else n) s
      ≡ without_dot (take n s)
cut_name zero s h = refl
cut_name (suc n) s h =
    let positive : (suc n == 0) ≡ false = ground arith in
    let less : suc n - 1 ≡ n = omega arith in rw (positive, less) (cut-without_dot n s h)

index_of-le : (c : ℕ) (s : List ℕ) → elim (index_of c s) [ none ↦ length s | some i ↦ i ] ≤ length s
index_of-le c s = elim (Option-cases (index_of c s)) [
  | inl e ↦ rw e (omega arith)
  | inr (i, e) ↦ rw e (omega (arith, index_of-lt c s i e))
]

name-part : (s : List ℕ) → take (name_len s) s ≡ without_dot (before b':' s)
unfolding name_len
name-part s =
    cut_name (elim (index_of b':' s) [ none ↦ length s | some i ↦ i ]) s (index_of-le b':' s)
    ∙ ap without_dot (index-before b':' s)

code_part-host_part : (host : List ℕ) → code_part host ≡ host_part host
unfolding host_len
code_part-host_part host = elim (Bool-cases (peek host == b'[')) [
  | inl e ↦ rw e (index-through b']' host)
  | inr e ↦ rw e (name-part host)
]

literal_len : (host : List ℕ) → (host_len host ≢ 0) ↔ (host_part host ≢ [])
literal_len host =
    let same = code_part-host_part host in
    let size = length-code_part host in
    (
      λ n e. n (sym size ∙ ap length (same ∙ e)),
      λ n e. n (sym same ∙ ap (λ (k : ℕ). take k host) e),
    )

is_ipv4-is_quad : (s : List ℕ) → is_ipv4 s ≡ is_quad s
is_ipv4-is_quad s = is_ipv4-fields s

to_IsLocal : (host : List ℕ) → Accepted host → IsLocal host
to_IsLocal host (by_bracket e n) = literal e ((literal_len host).0 n)
to_IsLocal host (by_ipv4 q) =
    quad (sym (is_ipv4-is_quad (host_part host)) ∙ ap is_ipv4 (sym (code_part-host_part host)) ∙ q)
to_IsLocal host (by_suffix name end e ne l) =
    mdns name end (sym (code_part-host_part host) ∙ e) ne l

of_IsLocal : (host : List ℕ) → IsLocal host → Accepted host
of_IsLocal host (literal e n) = by_bracket e ((literal_len host).1 n)
of_IsLocal host (quad q) =
    by_ipv4 (ap is_ipv4 (code_part-host_part host) ∙ is_ipv4-is_quad (host_part host) ∙ q)
of_IsLocal host (mdns name end e ne l) = by_suffix name end (code_part-host_part host ∙ e) ne l

-- A Host header is taken for this device exactly if it begins with `[` and has a `]`, or its host
-- part, which is what stands before the first `:`, without a dot at its end, is four numbers of one
-- to three digits, none above 255, between three dots, or ends in `.local` (in any case) behind at
-- least one byte. No other name passes, so a public name that resolves to the address of the device
-- is refused.
pub host_is_local-IsLocal : (host : List ℕ) → (host_is_local host ≡ true) ↔ IsLocal host
host_is_local-IsLocal host =
    let both = host_is_local-Accepted host in
    (λ h. to_IsLocal host (both.0 h), λ l. both.1 (of_IsLocal host l))
