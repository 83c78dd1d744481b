-- ===== src/Strconv.antt =====
-- The parts of Go's `strconv`, `fmt` and `strings` that the program calls on numbers and fields.
use Prim.Native.Char.{Char, code}
use text.Mathlib.TextLemmas.{cons-ne-nil, cons-append, nil-append}
use pontifex.Base.{
  ℕ, zero, suc, ◌+◌, ◌*◌, ◌/◌, ◌%◌, ◌-◌, ◌^◌, ◌<◌, ◌<>◌, String, Bool, ◌&&◌, Option, none, some,
  ◌≡◌, ◌≢◌, refl, ap, ◌∙◌, arith, Bool-cases, inl, inr, ltb, leb, nat_equal, if◌then◌else◌,
}

abbrev is_digit : Char → Bool
is_digit c = leb b'0' (code c) && leb (code c) b'9'

digit : ℕ → Char
digit zero = "0"
digit (suc zero) = "1"
digit (suc (suc zero)) = "2"
digit (suc (suc (suc zero))) = "3"
digit (suc (suc (suc (suc zero)))) = "4"
digit (suc (suc (suc (suc (suc zero))))) = "5"
digit (suc (suc (suc (suc (suc (suc zero)))))) = "6"
digit (suc (suc (suc (suc (suc (suc (suc zero))))))) = "7"
digit (suc (suc (suc (suc (suc (suc (suc (suc zero)))))))) = "8"
digit _ = "9"

-- The digits of `n` in front of `s`; one round of fuel for each digit.
unfoldable pub digits_before : ℕ → ℕ → String → String
unfolding digit
digits_before zero n s = s
digits_before (suc fuel) n s =
    let more = digits_before fuel (n / 10) (String.◌∷◌ (digit (n % 10)) s) in
    if ltb n 10 then String.◌∷◌ (digit n) s else more

-- `%d`
unfoldable pub decimal : ℕ → String
unfolding digits_before
decimal n = digits_before (suc n) n ""

unfoldable pub parse_digits : String → ℕ → Option ℕ
parse_digits String.[] n = some n
parse_digits (String.◌∷◌ c s) n =
    let rest = parse_digits s (n * 10 + (code c - b'0')) in if is_digit c then rest else none

in_32_bits : ℕ → Option ℕ
in_32_bits n = if ltb n (2 ^ 32) then some n else none

-- `strconv.ParseUint(s, 10, 32)`, where `none` is a non-nil error.
unfoldable pub parse_uint32 : String → Option ℕ
unfolding parse_digits in_32_bits
parse_uint32 String.[] = none
parse_uint32 (String.◌∷◌ c s) = elim (parse_digits (String.◌∷◌ c s) 0) [
  | none ↦ none
  | some n ↦ in_32_bits n
]

-- `parts := strings.SplitN(s, ":", 2)`: `parts[1]`, or none if there is one part only.
unfoldable pub after_colon : String → Option String
after_colon String.[] = none
after_colon (String.◌∷◌ c s) = if nat_equal (code c) b':' then some s else after_colon s

code-digit : (d : ℕ) → d < 10 → code (digit d) ≡ d + 48
unfolding digit
code-digit zero h = refl
code-digit (suc zero) h = refl
code-digit (suc (suc zero)) h = refl
code-digit (suc (suc (suc zero))) h = refl
code-digit (suc (suc (suc (suc zero)))) h = refl
code-digit (suc (suc (suc (suc (suc zero))))) h = refl
code-digit (suc (suc (suc (suc (suc (suc zero)))))) h = refl
code-digit (suc (suc (suc (suc (suc (suc (suc zero))))))) h = refl
code-digit (suc (suc (suc (suc (suc (suc (suc (suc zero)))))))) h = refl
code-digit (suc (suc (suc (suc (suc (suc (suc (suc (suc zero))))))))) h = refl
code-digit (suc (suc (suc (suc (suc (suc (suc (suc (suc (suc d)))))))))) h = absurd (omega arith)

parse_digits-digit :
    (d : ℕ) (s : String) (n : ℕ)
    → d < 10
    → parse_digits (String.◌∷◌ (digit d) s) n ≡ parse_digits s (n * 10 + d)
unfolding parse_digits
parse_digits-digit d s n h = ground (arith, code-digit d h)

parse_digits-digits_before :
    (fuel n : ℕ) (s : String)
    → n < fuel
    → parse_digits (digits_before fuel n s) 0 ≡ parse_digits s n
unfolding digits_before
parse_digits-digits_before zero n s h = elim h [ ]
parse_digits-digits_before (suc fuel) n s h = elim (Bool-cases (ltb n 10)) [
  | inl p ↦
      rw (p, digits_before)
        (parse_digits-digit n s 0 (ground arith) ∙ ap (parse_digits s) (omega arith))
  | inr p ↦
      rw (p, digits_before)
        (parse_digits-digits_before fuel (n / 10) _ (ground arith)
          ∙ parse_digits-digit (n % 10) s (n / 10) (omega arith)
          ∙ ap (parse_digits s) (omega arith))
]

pub parse_digits-decimal : (n : ℕ) → parse_digits (decimal n) 0 ≡ some n
unfolding decimal parse_digits
parse_digits-decimal n = parse_digits-digits_before (suc n) n "" (omega arith)

digits_before-ne-nil : (fuel n : ℕ) (s : String) → s ≢ "" → digits_before fuel n s ≢ ""
unfolding digits_before
digits_before-ne-nil zero n s h = h
digits_before-ne-nil (suc fuel) n s h = elim (Bool-cases (ltb n 10)) [
  | inl p ↦ rw (p, digits_before) (λ e. cons-ne-nil _ _ e)
  | inr p ↦ rw (p, digits_before) (digits_before-ne-nil fuel (n / 10) _ (λ e. cons-ne-nil _ _ e))
]

decimal-ne-nil : (n : ℕ) → decimal n ≢ ""
unfolding decimal digits_before
decimal-ne-nil n = elim (Bool-cases (ltb n 10)) [
  | inl p ↦ rw (p, decimal) (λ e. cons-ne-nil _ _ e)
  | inr p ↦ rw (p, decimal) (digits_before-ne-nil n (n / 10) _ (λ e. cons-ne-nil _ _ e))
]

parse_uint32_of_digits :
    (s : String) (n : ℕ) → s ≢ "" → parse_digits s 0 ≡ some n → n < 2 ^ 32 → parse_uint32 s ≡ some n
unfolding parse_uint32
parse_uint32_of_digits String.[] n h e l = absurd (h refl)
parse_uint32_of_digits (String.◌∷◌ c s) n h e l = rw (e, parse_uint32) (ground arith)

-- What is printed reads back, if it fits in 32 bits.
pub parse_uint32-decimal : (n : ℕ) → n < 2 ^ 32 → parse_uint32 (decimal n) ≡ some n
parse_uint32-decimal n h =
    parse_uint32_of_digits (decimal n) n (decimal-ne-nil n) (parse_digits-decimal n) h

after_colon-digit :
    (d : ℕ) (s : String) → d < 10 → after_colon (String.◌∷◌ (digit d) s) ≡ after_colon s
unfolding after_colon
after_colon-digit d s h = ground (arith, code-digit d h)

after_colon-digits_before :
    (fuel n : ℕ) (s : String) → after_colon (digits_before fuel n s) ≡ after_colon s
unfolding digits_before
after_colon-digits_before zero n s = refl
after_colon-digits_before (suc fuel) n s = elim (Bool-cases (ltb n 10)) [
  | inl p ↦ rw (p, digits_before) (after_colon-digit n s (ground arith))
  | inr p ↦
      rw (p, digits_before)
        (after_colon-digits_before fuel (n / 10) _ ∙ after_colon-digit (n % 10) s (omega arith))
]

digits_before-append :
    (fuel n : ℕ) (s t : String) → digits_before fuel n s <> t ≡ digits_before fuel n (s <> t)
unfolding digits_before
digits_before-append zero n s t = refl
digits_before-append (suc fuel) n s t = elim (Bool-cases (ltb n 10)) [
  | inl p ↦ rw (p, digits_before) (cons-append (digit n) s t)
  | inr p ↦
      rw (p, digits_before)
        (digits_before-append fuel (n / 10) _ t
          ∙ ap (digits_before fuel (n / 10)) (cons-append (digit (n % 10)) s t))
]

-- A printed number holds no colon.
pub after_colon-decimal : (n : ℕ) (s : String) → after_colon (decimal n <> ":" <> s) ≡ some s
unfolding decimal after_colon
after_colon-decimal n s =
    ap after_colon (
      digits_before-append (suc n) n "" (":" <> s)
      ∙ ap (digits_before (suc n) n) (nil-append (":" <> s)))
    ∙ after_colon-digits_before (suc n) n (":" <> s)
    ∙ ap after_colon (cons-append ":" "" s ∙ ap (String.◌∷◌ ":") (nil-append s))

-- Two numbers that print alike are equal.
pub decimal_inj : (m n : ℕ) → decimal m ≡ decimal n → m ≡ n
decimal_inj m n h = cc (parse_digits-decimal m, parse_digits-decimal n)
