-- ===== src/Throttle/Kvdb/Text/RoundTrip.antt =====
-- What is written of a bucket is what is read of it.
use Prim.Native.Char.{Char, code}
use Prim.Native.String.{[] as empty, ◌∷◌ as cons, ◌++◌ as append}
use text.Mathlib.TextLemmas.{cons-append, nil-append, cons-ne-nil}
use gwf.Common.{
  ℕ, String, refl, ap, true, false, some, arith, eq_iff, subst, ◌+◌, ◌-◌, ◌*◌, ◌≤◌, ◌≡◌, ◌∙◌, ◌==◌,
  String_eq, ℕ_eq,
}
use gwf.Common.Decimal.{
  decimal, read, is_digit, is_digits, is_digits-decimal, decimal-cons, read-decimal,
}
use gwf.Common.Int.{pos, max_int}
use gwf.Throttle.Kvdb.Text.{
  cut, read_digits, read_number, in_range, parse_int, format_int, stored, parse_cut, parse_bucket,
  format_bucket,
}

cut-append : (s t : String) → is_digits s ≡ true → cut (append s (append "|" t)) ≡ some (s, t)
unfolding cut
cut-append empty t h = rw (nil-append (append "|" t), cons-append "|" "" t, nil-append t) refl
cut-append (cons c s) t h =
    let other : (code c == 124) ≡ false = ground arith in
    let rest : is_digits s ≡ true = ground arith in
    rw (cons-append c s (append "|" t), other, cut-append s t rest) refl

read_digits_lem : (n : ℕ) (s : String) → is_digits s ≡ true → read_digits n s ≡ some (read n s)
unfolding read_digits read
read_digits_lem n empty h = refl
read_digits_lem n (cons c s) h =
    let one : is_digit c ≡ true = ground arith in
    let rest : is_digits s ≡ true = ground arith in
    rw (one, read_digits_lem (n * 10 + (code c - 48)) s rest) refl

parse_int-cons :
    (c : Char) (s : String) (n : ℕ)
    → is_digits (cons c s) ≡ true
    → read_digits 0 (cons c s) ≡ some n
    → n ≤ max_int
    → parse_int (cons c s) ≡ some (pos n)
unfolding parse_int read_number in_range
parse_int-cons c s n all value h =
    let plus : (code c == 43) ≡ false = ground arith in
    let minus : (code c == 45) ≡ false = ground arith in
    let full : (cons c s == "") ≡ false = ground (arith, eq_iff (cons c s) "", cons-ne-nil c s) in
    rw (minus, plus, full, value) (ground arith)

-- A number that is not negative is read as it was written.
pub parse_int-decimal : (n : ℕ) → n ≤ max_int → parse_int (decimal n) ≡ some (pos n)
parse_int-decimal n h =
    let (c, s, e) = decimal-cons n in
    let value : read_digits 0 (decimal n) ≡ some n =
      read_digits_lem 0 (decimal n) (is_digits-decimal n)
      ∙ ap some (read-decimal n (omega (arith, h))) in
    ap parse_int e
    ∙ parse_int-cons c s n (subst (λ t. is_digits t ≡ true) e (is_digits-decimal n))
        (subst (λ t. read_digits 0 t ≡ some n) e value) h

-- A bucket of tokens and a moment that an int64 holds is read back as it was written, where
-- neither is negative.
pub parse_bucket-format_bucket :
    (tokens last : ℕ)
    → tokens ≤ max_int
    → last ≤ max_int
    → parse_bucket (some (format_bucket (pos tokens) (pos last)))
      ≡ some (record { tokens = pos tokens; last = pos last })
unfolding parse_bucket format_bucket format_int parse_cut
parse_bucket-format_bucket tokens last ht hl =
    rw
      (
        cut-append (decimal tokens) (decimal last) (is_digits-decimal tokens),
        parse_int-decimal tokens ht,
        parse_int-decimal last hl,
      )
      (unfold stored in refl)
