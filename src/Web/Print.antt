-- ===== src/Web/Print.antt =====
-- main/diag_webserver.cpp: how the format of status_get_handler prints a number and a member.
use gdo_blaq_homekit.Prelude.{
  ℕ, zero, suc, ◌+◌, ◌-◌, ◌*◌, ◌/◌, ◌%◌, ◌^◌, ◌≤◌, ◌<◌, ◌≡◌, refl, inl, inr, Bool, true, false,
  Bool-cases, if◌then◌else◌, ◌==◌, ltb, List, [], ◌∷◌, ◌++◌, codes, length, length-append, arith,
}
use gdo_blaq_homekit.Prelude.Int.{ℤ, pos, negsuc}

-- The decimal digits of a number that has `k` at most.
unfoldable pub decimal : ℕ → ℕ → List ℕ
decimal zero n = []
decimal (suc k) n =
    let rest = decimal k (n / 10) in (if n / 10 == 0 then [] else rest) ++ (b'0' + n % 10) ∷ []

-- `%u` of 32 bits.
abbrev pub unsigned : ℕ → List ℕ
unsigned n = decimal 10 n

-- `%02u`.
unfoldable pub padded : ℕ → List ℕ
padded n = if ltb n 10 then b'0' ∷ (b'0' + n) ∷ [] else unsigned n

-- `%d` and `%lld`, up to 64 bits.
unfoldable pub signed : ℤ → List ℕ
signed (pos n) = decimal 19 n
signed (negsuc n) = b'-' ∷ decimal 19 (suc n)

abbrev pub word : Bool → List ℕ
word true = codes "true"
word false = codes "false"

-- What stands behind a key: a text in quotes, or what is printed as it is.
pub data Value : Type 0 where
  in_quotes as_it_is : List ℕ → Value

pub record Member : Type 0 where
  pub key : List ℕ
  pub value : Value

abbrev pub show_value : Value → List ℕ
show_value (in_quotes s) = b'"' ∷ s ++ b'"' ∷ []
show_value (as_it_is s) = s

unfoldable pub show_member : Member → List ℕ
show_member m = b'"' ∷ m.key ++ b'"' ∷ b':' ∷ show_value m.value

-- The members that are left, and the brace at the end.
unfoldable pub show_rest : List Member → List ℕ
unfolding show_member
show_rest [] = b'}' ∷ []
show_rest (m ∷ ms) = b',' ∷ show_member m ++ show_rest ms

unfoldable pub show_all : List Member → List ℕ
unfolding show_rest
show_all [] = codes "{}"
show_all (m ∷ ms) = b'{' ∷ show_member m ++ show_rest ms

-- The bytes that a member takes, with what stands before it.
abbrev pub value_size : Value → ℕ
value_size (in_quotes s) = length s + 2
value_size (as_it_is s) = length s

abbrev pub size : List Member → ℕ
size [] = 1
size (m ∷ ms) = length m.key + 4 + value_size m.value + size ms

length-show_value : (v : Value) → length (show_value v) ≡ value_size v
length-show_value (in_quotes s) = omega (arith, length-append s (b'"' ∷ []))
length-show_value (as_it_is s) = refl

length-show_member : (m : Member) → length (show_member m) ≡ length m.key + 3 + value_size m.value
unfolding show_member
length-show_member m =
    omega (arith, length-append m.key (b'"' ∷ b':' ∷ show_value m.value), length-show_value m.value)

length-show_rest : (ms : List Member) → length (show_rest ms) ≡ size ms
unfolding show_rest
length-show_rest [] = refl
length-show_rest (m ∷ ms) =
    omega (
      arith,
      length-append (show_member m) (show_rest ms),
      length-show_member m,
      length-show_rest ms,
    )

pub length-show_all : (m : Member) (ms : List Member) → length (show_all (m ∷ ms)) ≡ size (m ∷ ms)
unfolding show_all
length-show_all m ms =
    omega (
      arith,
      length-append (show_member m) (show_rest ms),
      length-show_member m,
      length-show_rest ms,
    )

pub length-decimal : (k n : ℕ) → length (decimal k n) ≤ k
unfolding decimal
length-decimal zero n = omega arith
length-decimal (suc k) n = elim (Bool-cases (n / 10 == 0)) [
  | inl e ↦ rw e (omega arith)
  | inr e ↦ rw e (
      omega (
        arith,
        length-append (decimal k (n / 10)) ((b'0' + n % 10) ∷ []),
        length-decimal k (n / 10),
      ))
]

pub length-signed : (z : ℤ) → length (signed z) ≤ 20
unfolding signed
length-signed (pos n) = omega (arith, length-decimal 19 n)
length-signed (negsuc n) = omega (arith, length-decimal 19 (suc n))

pub length-padded : (n : ℕ) → n < 100 → length (padded n) ≡ 2
unfolding padded decimal
length-padded n h = ground (arith, h)

-- The number that decimal digits write, after `acc`.
abbrev pub value_after : ℕ → List ℕ → ℕ
value_after acc [] = acc
value_after acc (c ∷ s) = value_after (acc * 10 + (c - b'0')) s

value_after-snoc :
    (acc c : ℕ) (s : List ℕ) → value_after acc (s ++ c ∷ []) ≡ value_after acc s * 10 + (c - b'0')
value_after-snoc acc c [] = refl
value_after-snoc acc c (d ∷ s) = value_after-snoc (acc * 10 + (d - b'0')) c s

below_tenth : (k n : ℕ) → n < 10 ^ suc k → n / 10 < 10 ^ k
below_tenth k n h = omega (arith, h)

-- What is printed of a number reads back as it, where the digits are enough for it.
pub decimal-value : (k n : ℕ) → n < 10 ^ k → value_after 0 (decimal k n) ≡ n
unfolding decimal
decimal-value zero n h = omega (arith, h)
decimal-value (suc k) n h = elim (Bool-cases (n / 10 == 0)) [
  | inl e ↦ rw e (ground (arith, e))
  | inr e ↦ rw e (
      omega (
        arith,
        value_after-snoc 0 (b'0' + n % 10) (decimal k (n / 10)),
        decimal-value k (n / 10) (below_tenth k n h),
      ))
]
