-- ===== src/Throttle/Kvdb/Text.antt =====
-- gw/throttle/limiterkvdbbuckets.go: parseBucket and formatBucket, the text of a bucket in the store.
-- A moment is in nanoseconds from the epoch, before it if negative.
pub mod RoundTrip
use Prim.Native.Char.{Char, code}
use Prim.Native.String.{[] as empty, ◌∷◌ as cons, ◌++◌ as append}
use gwf.Common.{
  ℕ, String, Bool, true, false, Option, none, some, leb, ◌+◌, ◌-◌, ◌*◌, ◌&&◌, ◌==◌, if◌then◌else◌,
  String_eq, ℕ_eq,
}
use gwf.Common.Decimal.{decimal}
use gwf.Common.Int.{ℤ, pos, negsuc, max_int}

-- strings.Cut(s, "|")
unfoldable pub cut : String → Option (String × String)
cut empty = none
cut (cons c s) =
    let rest = cut s in
    if code c == 124
    then some ("", s)
    else elim rest [ none ↦ none | some (before, after) ↦ some (cons c before, after) ]

read_digits : ℕ → String → Option ℕ
read_digits n empty = some n
read_digits n (cons c s) =
    let rest = read_digits (n * 10 + (code c - 48)) s in
    if leb 48 (code c) && leb (code c) 57 then rest else none

read_number : String → Option ℕ
unfolding read_digits
read_number s = if s == "" then none else read_digits 0 s

in_range : Bool → Option ℕ → Option ℤ
in_range minus none = none
in_range true (some n) =
    if leb n (max_int + 1) then some (if n == 0 then pos 0 else negsuc (n - 1)) else none
in_range false (some n) = if leb n max_int then some (pos n) else none

-- strconv.Atoi, and ParseInt in base 10 with 64 bits.
pub parse_int : String → Option ℤ
unfolding in_range read_number
parse_int empty = none
parse_int (cons c s) =
    if code c == 45
    then in_range true (read_number s)
    else if code c == 43
    then in_range false (read_number s)
    else in_range false (read_number (cons c s))

-- strconv.Itoa
pub format_int : ℤ → String
unfolding decimal
format_int (pos n) = decimal n
format_int (negsuc n) = cons "-" (decimal (n + 1))

-- The tokens and the moment of the last refill.
pub record Stored : Type 0 where
  pub tokens : ℤ
  pub last : ℤ

stored : Option ℤ → Option ℤ → Option Stored
stored none last = none
stored (some tokens) none = none
stored (some tokens) (some last) = some (record { tokens = tokens; last = last })

unfoldable pub parse_cut : Option (String × String) → Option Stored
unfolding stored parse_int
parse_cut none = none
parse_cut (some (tokens, last)) = stored (parse_int tokens) (parse_int last)

-- `none` where the store holds no bucket, or one that cannot be read.
unfoldable pub parse_bucket : Option String → Option Stored
unfolding parse_cut cut
parse_bucket none = none
parse_bucket (some raw) = parse_cut (cut raw)

pub format_bucket : ℤ → ℤ → String
unfolding format_int
format_bucket tokens last = append (format_int tokens) (append "|" (format_int last))
