-- ===== src/Origin/Local.antt =====
-- Which hosts are local (request_host_is_local).
use gdo_blaq_homekit.Prelude.{
  ℕ, zero, suc, ◌+◌, ◌-◌, ◌==◌, ◌≤◌, ◌<◌, ◌≡◌, ◌≢◌, ◌↔◌, refl, sym, ap, ap₂, subst, ◌∙◌, Bool, true,
  false, Bool-cases, Option-cases, inl, inr, ◌&&◌, if◌then◌else◌, ltb, ltb→lt, lt→ltb, ==_iff, List,
  [], ◌∷◌, ◌++◌, map, some, length, take, drop, peek, bytes_eq, length-take, length-drop,
  length-append, length-map, take-append-drop, arith,
}
use gdo_blaq_homekit.Origin.{
  lower, ieq, index_of, name_len, host_len, is_ipv4, suffix, host_is_local,
}

pub bytes_eq_sound : (a b : List ℕ) → bytes_eq a b ≡ true → a ≡ b
bytes_eq_sound [] [] h = refl
bytes_eq_sound [] (b ∷ bs) h = ground (arith, h)
bytes_eq_sound (a ∷ as') [] h = ground (arith, h)
bytes_eq_sound (a ∷ as') (b ∷ bs) h =
    ap₂ (λ x r. x ∷ r) (ground (arith, h)) (bytes_eq_sound as' bs (ground (arith, h)))

pub bytes_eq_refl : (a : List ℕ) → bytes_eq a a ≡ true
bytes_eq_refl [] = refl
bytes_eq_refl (a ∷ as') = ground (arith, bytes_eq_refl as')

-- `ieq` compares two texts in small letters.
pub ieq-lower :
    (a b : List ℕ) (n : ℕ)
    → n ≤ length a
    → n ≤ length b
    → ieq a b n ≡ bytes_eq (map lower (take n a)) (map lower (take n b))
unfolding ieq
ieq-lower a b zero h k = refl
ieq-lower [] b (suc n) h k = absurd (omega (arith, h))
ieq-lower (x ∷ a) [] (suc n) h k = absurd (omega (arith, k))
ieq-lower (x ∷ a) (y ∷ b) (suc n) h k =
    ap (λ r. lower x == lower y && r) (ieq-lower a b n (omega arith) (omega arith))

pub index_of-lt : (c : ℕ) (s : List ℕ) (i : ℕ) → index_of c s ≡ some i → i < length s
unfolding index_of
index_of-lt c [] i h = ground (arith, h)
index_of-lt c (x ∷ s) zero h = omega arith
index_of-lt c (x ∷ s) (suc i) h = ground (arith, h, index_of-lt c s i)

name_len-le : (s : List ℕ) → name_len s ≤ length s
unfolding name_len
name_len-le s = elim (Option-cases (index_of b':' s)) [
  | inl e ↦ rw e (ground arith)
  | inr (i, e) ↦ rw e (ground (arith, index_of-lt b':' s i e))
]

host_len-le : (s : List ℕ) → host_len s ≤ length s
unfolding host_len
host_len-le s = elim (Option-cases (index_of b']' s)) [
  | inl e ↦ rw e (ground (arith, name_len-le s))
  | inr (i, e) ↦ rw e (ground (arith, name_len-le s, index_of-lt b']' s i e))
]

take-drop : (m k n : ℕ) (xs : List ℕ) → m + k ≡ n → take k (drop m xs) ≡ drop m (take n xs)
take-drop zero k n xs e = ap (λ (x : ℕ). take x xs) (omega (arith, e))
take-drop (suc m) k zero xs e = absurd (omega (arith, e))
take-drop (suc m) zero (suc n) [] e = refl
take-drop (suc m) (suc k) (suc n) [] e = refl
take-drop (suc m) k (suc n) (x ∷ xs) e = take-drop m k n xs (omega (arith, e))

drop-append : (n : ℕ) (xs ys : List ℕ) → n ≡ length xs → drop n (xs ++ ys) ≡ ys
drop-append zero [] ys e = refl
drop-append zero (x ∷ xs) ys e = absurd (omega (arith, e))
drop-append (suc n) [] ys e = absurd (omega (arith, e))
drop-append (suc n) (x ∷ xs) ys e = drop-append n xs ys (omega (arith, e))

-- The host without a port and without a dot at its end, as the code finds it.
abbrev pub code_part : List ℕ → List ℕ
code_part host = take (host_len host) host

-- What the tests accept.
pub data Accepted (host : List ℕ) : Type 0 where
  by_bracket : peek host ≡ b'[' → host_len host ≢ 0 → Accepted host
  by_ipv4 : is_ipv4 (code_part host) ≡ true → Accepted host
  by_suffix :
      (name end : List ℕ)
      → code_part host ≡ name ++ end
      → name ≢ []
      → map lower end ≡ suffix
      → Accepted host

pub length-code_part : (host : List ℕ) → length (code_part host) ≡ host_len host
length-code_part host = omega (arith, length-take (host_len host) host, host_len-le host)

-- The test of the suffix, on the host part.
suffix_test :
    (host : List ℕ)
    → 6 < host_len host
    → ieq (drop (host_len host - 6) host) suffix 6
      ≡ bytes_eq (map lower (drop (host_len host - 6) (code_part host))) suffix
suffix_test host h =
    let n = host_len host in
    ieq-lower (drop (n - 6) host) suffix 6
      (omega (arith, h, host_len-le host, length-drop (n - 6) host)) (omega arith)
    ∙ ap (λ t. bytes_eq (map lower t) suffix) (take-drop (n - 6) 6 n host (omega (arith, h)))

append-drop : (n : ℕ) (xs : List ℕ) → xs ≡ take n xs ++ drop n xs
append-drop n xs = sym (take-append-drop n xs)

to_mdns :
    (host : List ℕ)
    → 6 < host_len host
    → ieq (drop (host_len host - 6) host) suffix 6 ≡ true
    → Accepted host
to_mdns host h e =
    let n = host_len host in
    let name = take (n - 6) (code_part host) in
    let size = length-take (n - 6) (code_part host) in
    by_suffix name (drop (n - 6) (code_part host)) (append-drop (n - 6) (code_part host))
      (λ z. absurd (omega (arith, ap length z, size, length-code_part host, h)))
      (bytes_eq_sound (map lower (drop (n - 6) (code_part host))) suffix
        (sym (suffix_test host h) ∙ e))

-- The decision, of its tests.
abbrev decide : Bool → Bool → Bool → Bool → Bool → Bool
decide z b q l m = if z then false else if b then true else if q then true else l && m

decide_suffix :
    (z b q l m : Bool) → b ≡ false → q ≡ false → decide z b q l m ≡ true → (l ≡ true) × (m ≡ true)
decide_suffix z b q l m e f h = (ground (arith, e, f, h), ground (arith, e, f, h))

decide_some : (z b q l m : Bool) → decide z b q l m ≡ true → z ≡ false
decide_some z b q l m h = ground (arith, h)

not_zero : (n : ℕ) → (n == 0) ≡ false → n ≢ 0
not_zero n h = ground (arith, h)

suffix_decides : (z b q l m : Bool) → z ≡ false → l ≡ true → m ≡ true → decide z b q l m ≡ true
suffix_decides z b q l m e f g = ground (arith, e, f, g)

host_is_local-decide :
    (host : List ℕ)
    → host_is_local host
      ≡ decide
          (host_len host == 0)
          (peek host == b'[')
          (is_ipv4 (code_part host))
          (ltb 6 (host_len host))
          (ieq (drop (host_len host - 6) host) suffix 6)
unfolding host_is_local
host_is_local-decide host = refl

to_Accepted : (host : List ℕ) → host_is_local host ≡ true → Accepted host
to_Accepted host h = elim (Bool-cases (peek host == b'[')) [
  | inl e ↦ by_bracket ((==_iff (peek host) b'[').0 e) (
      not_zero (host_len host) (
        decide_some (host_len host == 0) (peek host == b'[') (is_ipv4 (code_part host))
          (ltb 6 (host_len host)) (ieq (drop (host_len host - 6) host) suffix 6)
          (sym (host_is_local-decide host) ∙ h)))
  | inr e ↦ elim (Bool-cases (is_ipv4 (code_part host))) [
    | inl q ↦ by_ipv4 q
    | inr q ↦
        (let (long, same) =
            decide_suffix (host_len host == 0) (peek host == b'[') (is_ipv4 (code_part host))
              (ltb 6 (host_len host)) (ieq (drop (host_len host - 6) host) suffix 6) e q
              (sym (host_is_local-decide host) ∙ h) in
          to_mdns host (ltb→lt 6 (host_len host) long) same)
  ]
]

mdns_suffix :
    (host name end : List ℕ)
    → code_part host ≡ name ++ end
    → name ≢ []
    → map lower end ≡ suffix
    → (6 < host_len host) × (ieq (drop (host_len host - 6) host) suffix 6 ≡ true)
mdns_suffix host [] end e ne l = absurd (ne refl)
mdns_suffix host (c ∷ name) end e ne l =
    let n : host_len host ≡ length (c ∷ name) + 6 = omega (
      arith,
      ap length e,
      length-code_part host,
      length-append (c ∷ name) end,
      ap length l,
      length-map end lower,
    ) in
    let rest : drop (host_len host - 6) (code_part host) ≡ end =
      ap (drop (host_len host - 6)) e
      ∙ drop-append (host_len host - 6) (c ∷ name) end (omega (arith, n)) in
    (
      omega (arith, n),
      suffix_test host (omega (arith, n))
          ∙ ap (λ t. bytes_eq (map lower t) suffix) rest
          ∙ ap (λ t. bytes_eq t suffix) l
          ∙ bytes_eq_refl suffix,
    )

quad-host_len : (host : List ℕ) → is_ipv4 (code_part host) ≡ true → host_len host ≢ 0
unfolding is_ipv4
quad-host_len host h z = ground (arith, subst (λ (n : ℕ). is_ipv4 (take n host) ≡ true) z h)

of_Accepted : (host : List ℕ) → Accepted host → host_is_local host ≡ true
unfolding host_is_local
of_Accepted host (by_bracket e n) = ground (arith, e, n)
of_Accepted host (by_ipv4 q) = ground (arith, q, quad-host_len host q)
of_Accepted host (by_suffix name end e ne l) =
    let (long, same) = mdns_suffix host name end e ne l in
    host_is_local-decide host
    ∙ suffix_decides (host_len host == 0) (peek host == b'[') (is_ipv4 (code_part host))
        (ltb 6 (host_len host)) (ieq (drop (host_len host - 6) host) suffix 6)
        (ground (arith, long)) (lt→ltb 6 (host_len host) long) same

pub host_is_local-Accepted : (host : List ℕ) → (host_is_local host ≡ true) ↔ Accepted host
host_is_local-Accepted host = (to_Accepted host, of_Accepted host)
