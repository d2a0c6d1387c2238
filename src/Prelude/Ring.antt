-- ===== src/Prelude/Ring.antt =====
-- A buffer of `cap` places that is written round and round: what it holds of all that was written,
-- and what a loop that reads it round the end copies.
use native.Mathlib.Nat.{mod-add-mod, mod-eq_of_lt, mod-eq-sub-mod, mod-lt}
use gdo_blaq_homekit.Prelude.{
  ℕ, zero, suc, ◌+◌, ◌-◌, ◌%◌, ◌≤◌, ◌<◌, ◌≡◌, ◌≢◌, refl, sym, ap, ap₂, ◌∙◌, List, [], ◌∷◌, ◌++◌,
  length, drop, get_or, set, length-append, dec_lt, ℕ_discrete, arith,
}

module _ {ℓ} {A : Type ℓ} where
  -- The loop `for (i = 0; i < n; i++) out[i] = buf[(start + i) % cap]`.
  abbrev pub copy : List A → ℕ → ℕ → ℕ → A → List A
  copy buf cap start zero d = []
  copy buf cap start (suc n) d = get_or buf (start % cap) d ∷ copy buf cap (start + 1) n d

  -- The newest `n` of a list.
  abbrev pub last : ℕ → List A → List A
  last n xs = drop (length xs - n) xs

  -- Of everything written, each of the newest `cap` is at its place.
  abbrev pub Holds : A → List A → ℕ → List A → Type ℓ
  Holds d buf cap written =
      (j : ℕ)
      → j < length written
      → length written ≤ j + cap
      → get_or buf (j % cap) d ≡ get_or written j d

  get_or-set_self : (xs : List A) (i : ℕ) (v d : A) → i < length xs → get_or (set xs i v) i d ≡ v
  get_or-set_self [] i v d h = absurd (omega (arith, h))
  get_or-set_self (x ∷ xs) zero v d h = refl
  get_or-set_self (x ∷ xs) (suc i) v d h = get_or-set_self xs i v d (omega arith)

  get_or-set_ne :
      (xs : List A) (i j : ℕ) (v d : A) → i ≢ j → get_or (set xs i v) j d ≡ get_or xs j d
  get_or-set_ne [] i j v d h = refl
  get_or-set_ne (x ∷ xs) zero zero v d h = absurd (h refl)
  get_or-set_ne (x ∷ xs) zero (suc j) v d h = refl
  get_or-set_ne (x ∷ xs) (suc i) zero v d h = refl
  get_or-set_ne (x ∷ xs) (suc i) (suc j) v d h = get_or-set_ne xs i j v d (λ e. h (ap suc e))

  get_or-append_lt :
      (xs ys : List A) (j : ℕ) (d : A) → j < length xs → get_or (xs ++ ys) j d ≡ get_or xs j d
  get_or-append_lt [] ys j d h = absurd (omega (arith, h))
  get_or-append_lt (x ∷ xs) ys zero d h = refl
  get_or-append_lt (x ∷ xs) ys (suc j) d h = get_or-append_lt xs ys j d (omega arith)

  get_or-append_end :
      (xs : List A) (v d : A) (j : ℕ) → j ≡ length xs → get_or (xs ++ v ∷ []) j d ≡ v
  get_or-append_end [] v d zero h = refl
  get_or-append_end [] v d (suc j) h = absurd (omega (arith, h))
  get_or-append_end (x ∷ xs) v d zero h = absurd (omega (arith, h))
  get_or-append_end (x ∷ xs) v d (suc j) h = get_or-append_end xs v d j (omega arith)

  pub drop-get_or :
      (xs : List A) (i : ℕ) (d : A) → i < length xs → drop i xs ≡ get_or xs i d ∷ drop (suc i) xs
  drop-get_or [] i d h = absurd (omega (arith, h))
  drop-get_or (x ∷ xs) zero d h = refl
  drop-get_or (x ∷ xs) (suc i) d h = drop-get_or xs i d (omega arith)

  pub drop-all : (xs : List A) (i : ℕ) → length xs ≤ i → drop i xs ≡ []
  drop-all [] zero h = refl
  drop-all [] (suc i) h = refl
  drop-all (x ∷ xs) zero h = absurd (omega (arith, h))
  drop-all (x ∷ xs) (suc i) h = drop-all xs i (omega arith)

-- Two places of the newest `cap` differ.
shifted : (r d cap : ℕ) → r < cap → 0 < d → d < cap → (r + d) % cap ≢ r
shifted r d cap h p q = elim (dec_lt (r + d) cap) [
  | yes k ↦ λ e. absurd (omega (arith, e, mod-eq_of_lt k))
  | no k ↦
      (let le : cap ≤ r + d = omega (arith, k) in
        let small : r + d - cap < cap = omega arith in
        λ e. absurd (omega (arith, e, mod-eq-sub-mod le, mod-eq_of_lt small)))
]

places_differ : (j n cap : ℕ) → j < n → n < j + cap → n % cap ≢ j % cap
places_differ j n cap h k =
    let d = n - j in
    let e : (j % cap + d) % cap ≡ n % cap =
      mod-add-mod j cap d ∙ ap (λ (x : ℕ). x % cap) (omega arith) in
    λ eq. shifted (j % cap) d cap (mod-lt j (omega arith)) (omega arith) (omega arith) (e ∙ eq)

module _ {ℓ} {A : Type ℓ} where
  -- One write, after which the newest are still at their places.
  pub Holds-write :
      (d : A) (buf : List A) (cap : ℕ) (written : List A) (v : A)
      → 0 < cap
      → length buf ≡ cap
      → Holds d buf cap written
      → Holds d (set buf (length written % cap) v) cap (written ++ v ∷ [])
  Holds-write d buf cap written v pos full h j lt le =
      let n = length-append written (v ∷ []) in
      elim (ℕ_discrete j (length written)) [
        | yes e ↦
            ap (λ (x : ℕ). get_or (set buf (length written % cap) v) (x % cap) d) e
            ∙ get_or-set_self buf (length written % cap) v d
                (omega (arith, full, mod-lt (length written) pos))
            ∙ sym (get_or-append_end written v d j e)
        | no ne ↦
            let under : j < length written = omega (arith, ne, lt, n) in
            get_or-set_ne buf (length written % cap) (j % cap) v d
              (places_differ j (length written) cap under (omega (arith, le, n)))
            ∙ h j under (omega (arith, le, n))
            ∙ sym (get_or-append_lt written (v ∷ []) j d under)
      ]

  -- The loop reads the newest in order.
  pub copy-Holds :
      (d : A) (buf : List A) (cap : ℕ) (written : List A) (k n : ℕ)
      → Holds d buf cap written
      → k + n ≡ length written
      → n ≤ cap
      → copy buf cap k n d ≡ drop k written
  copy-Holds d buf cap written k zero h e le = sym (drop-all written k (omega (arith, e)))
  copy-Holds d buf cap written k (suc n) h e le =
      ap₂ (λ x r. x ∷ r) (h k (omega (arith, e)) (omega (arith, e, le)))
        (copy-Holds d buf cap written (k + 1) n h (omega (arith, e)) (omega (arith, le))
          ∙ ap (λ (x : ℕ). drop x written) {y = suc k} (omega arith))
      ∙ sym (drop-get_or written k d (omega (arith, e)))

  -- Where it starts matters only up to whole rounds.
  pub copy_round :
      (d : A) (buf : List A) (cap a b n : ℕ)
      → a % cap ≡ b % cap
      → copy buf cap a n d ≡ copy buf cap b n d
  copy_round d buf cap a b zero e = refl
  copy_round d buf cap a b (suc n) e =
      ap₂ (λ x r. x ∷ r) (ap (λ (x : ℕ). get_or buf x d) e)
        (copy_round d buf cap (a + 1) (b + 1) n
          (sym (mod-add-mod a cap 1) ∙ ap (λ (x : ℕ). (x + 1) % cap) e ∙ mod-add-mod b cap 1))
