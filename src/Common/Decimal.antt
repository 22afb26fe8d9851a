-- ===== src/Common/Decimal.antt =====
-- Go's `strconv.FormatInt` and `FormatUint` in base 10, of numbers that are not negative.
use Prim.Native.Nat.{ℕ, zero, suc, ◌+◌, ◌-◌, ◌*◌, ◌/◌, ◌%◌, ◌^◌, ◌<◌}
use Prim.Native.Char.{Char, code}
use Prim.Native.String.{String, [], ◌∷◌}
use mathlib.Core.Path.{◌≡◌, refl, ap, sym, ◌∙◌}
use native.Mathlib.Omega.{arith}
use native.Mathlib.Nat.{pow-succ'}
use mathlib.Core.Logic.{inl, inr}
use mathlib.Core.Bool.{Bool, true, ◌&&◌}
use gwf.Common.Tests.{ltb, leb, ltb→lt, if◌then◌else◌, Bool-cases}

digit : ℕ → Char
digit zero = "0"
digit (suc zero) = "1"
digit (suc (suc zero)) = "2"
digit (suc (suc (suc zero))) = "3"
digit (suc (suc (suc (suc zero)))) = "4"
digit (suc (suc (suc (suc (suc zero))))) = "5"
digit (suc (suc (suc (suc (suc (suc zero)))))) = "6"
digit (suc (suc (suc (suc (suc (suc (suc zero))))))) = "7"
digit (suc (suc (suc (suc (suc (suc (suc (suc zero)))))))) = "8"
digit _ = "9"

-- The first argument bounds the number of digits that are written before `rest`.
digits : ℕ → ℕ → String → String
unfolding digit
digits zero n rest = rest
digits (suc fuel) n rest =
    let more = digits fuel (n / 10) (digit (n % 10) ∷ rest) in
    if ltb n 10 then digit n ∷ rest else more

-- 20 digits are enough for 64 bits.
unfoldable pub decimal : ℕ → String
unfolding digits
decimal n = digits 20 n ""

unfoldable pub read : ℕ → String → ℕ
read n [] = n
read n (c ∷ s) = read (n * 10 + (code c - 48)) s

code-digit : (d : ℕ) → d < 10 → code (digit d) - 48 ≡ d
unfolding digit
code-digit zero h = refl
code-digit (suc zero) h = refl
code-digit (suc (suc zero)) h = refl
code-digit (suc (suc (suc zero))) h = refl
code-digit (suc (suc (suc (suc zero)))) h = refl
code-digit (suc (suc (suc (suc (suc zero))))) h = refl
code-digit (suc (suc (suc (suc (suc (suc zero)))))) h = refl
code-digit (suc (suc (suc (suc (suc (suc (suc zero))))))) h = refl
code-digit (suc (suc (suc (suc (suc (suc (suc (suc zero)))))))) h = refl
code-digit (suc (suc (suc (suc (suc (suc (suc (suc (suc zero))))))))) h = refl
code-digit (suc (suc (suc (suc (suc (suc (suc (suc (suc (suc d)))))))))) h = absurd (omega arith)

read-digits :
    (fuel n : ℕ) (rest : String) → n < 10 ^ fuel → read 0 (digits fuel n rest) ≡ read n rest
unfolding digits read
read-digits zero n rest h = let e : n ≡ 0 = omega arith in rw e refl
read-digits (suc fuel) n rest h = elim (Bool-cases (ltb n 10)) [
  | inl last ↦
      let e : 0 + (code (digit n) - 48) ≡ n = omega (arith, code-digit n (ltb→lt n 10 last)) in
      rw last (ap (λ m. read m rest) e)
  | inr more ↦
      let e : n / 10 * 10 + (code (digit (n % 10)) - 48) ≡ n =
        omega (arith, code-digit (n % 10) (omega arith)) in
      rw
        (more, read-digits fuel (n / 10) (digit (n % 10) ∷ rest) (omega (arith, pow-succ' 10 fuel)))
        (ap (λ m. read m rest) e)
]

-- Two numbers of at most 20 digits that are written alike are the same.
pub decimal-injective : (m n : ℕ) → m < 10 ^ 20 → n < 10 ^ 20 → decimal m ≡ decimal n → m ≡ n
unfolding decimal read
decimal-injective m n hm hn h =
    sym (read-digits 20 m "" hm) ∙ ap (read 0) h ∙ read-digits 20 n "" hn

-- Whether a text is digits only.
abbrev pub is_digit : Char → Bool
is_digit c = leb 48 (code c) && leb (code c) 57

abbrev pub is_digits : String → Bool
is_digits [] = true
is_digits (c ∷ s) = is_digit c && is_digits s

is_digit-digit : (d : ℕ) → is_digit (digit d) ≡ true
unfolding digit
is_digit-digit zero = refl
is_digit-digit (suc zero) = refl
is_digit-digit (suc (suc zero)) = refl
is_digit-digit (suc (suc (suc zero))) = refl
is_digit-digit (suc (suc (suc (suc zero)))) = refl
is_digit-digit (suc (suc (suc (suc (suc zero))))) = refl
is_digit-digit (suc (suc (suc (suc (suc (suc zero)))))) = refl
is_digit-digit (suc (suc (suc (suc (suc (suc (suc zero))))))) = refl
is_digit-digit (suc (suc (suc (suc (suc (suc (suc (suc zero)))))))) = refl
is_digit-digit (suc (suc (suc (suc (suc (suc (suc (suc (suc d))))))))) = refl

is_digits-digits :
    (fuel n : ℕ) (rest : String) → is_digits rest ≡ true → is_digits (digits fuel n rest) ≡ true
unfolding digits
is_digits-digits zero n rest h = h
is_digits-digits (suc fuel) n rest h = elim (Bool-cases (ltb n 10)) [
  | inl last ↦ rw (last, is_digit-digit n) h
  | inr more ↦
      rw more
        (is_digits-digits fuel (n / 10) (digit (n % 10) ∷ rest) (rw (is_digit-digit (n % 10)) h))
]

pub is_digits-decimal : (n : ℕ) → is_digits (decimal n) ≡ true
unfolding decimal
is_digits-decimal n = is_digits-digits 20 n "" refl

digits-cons :
    (fuel n : ℕ) (c : Char) (rest : String)
    → (d : Char) × (s : String) × (digits fuel n (c ∷ rest) ≡ d ∷ s)
unfolding digits
digits-cons zero n c rest = (c, rest, refl)
digits-cons (suc fuel) n c rest = elim (Bool-cases (ltb n 10)) [
  | inl last ↦ (digit n, c ∷ rest, rw last refl)
  | inr more ↦
      let (d, s, e) = digits-cons fuel (n / 10) (digit (n % 10)) (c ∷ rest) in (d, s, rw more e)
]

pub decimal-cons : (n : ℕ) → (d : Char) × (s : String) × (decimal n ≡ d ∷ s)
unfolding decimal digits
decimal-cons n = elim (Bool-cases (ltb n 10)) [
  | inl last ↦ (digit n, "", rw last refl)
  | inr more ↦ let (d, s, e) = digits-cons 19 (n / 10) (digit (n % 10)) "" in (d, s, rw more e)
]

pub read-decimal : (n : ℕ) → n < 10 ^ 20 → read 0 (decimal n) ≡ n
unfolding decimal read
read-decimal n h = read-digits 20 n "" h

decimal_example : decimal 40960 ≡ "40960"
unfolding decimal
decimal_example = refl
