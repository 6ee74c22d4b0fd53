-- ===== src/Base/Strconv.antt =====
-- `strconv.ParseInt(s, 10, 64)` and `strconv.FormatInt(z, 10)` of Go's standard library.
pub mod Laws
use hyper_gnomon.Base.{
  ℕ, zero, suc, ◌+◌, ◌-◌, ◌*◌, ◌/◌, ◌%◌, ◌^◌, List, [], ◌∷◌, Bool, true, false, ◌||◌, Option, none,
  some,
}
use hyper_gnomon.Base.{ltb, leb, ◌==◌, if◌then◌else◌}
use hyper_gnomon.Base.Int.{ℤ, pos, negsuc}
use hyper_gnomon.Base.Texts.{Bytes, is_empty}

-- The value of digits only; any other byte is an error.
unfoldable pub parse_digits : ℕ → Bytes → Option ℕ
parse_digits acc [] = some acc
parse_digits acc (c ∷ cs) =
    let rest = parse_digits (acc * 10 + (c - 48)) cs in if ltb c 48 || ltb 57 c then none else rest

abbrev pub in_range : Bool → Option ℕ → Option ℤ
in_range minus none = none
in_range true (some zero) = some (pos 0)
in_range true (some (suc n)) = if leb n (2 ^ 63 - 1) then some (negsuc n) else none
in_range false (some n) = if ltb n (2 ^ 63) then some (pos n) else none

abbrev pub unsigned : Bool → Bytes → Option ℤ
unsigned minus s = if is_empty s then none else in_range minus (parse_digits 0 s)

-- `none` where the error is not nil.
unfoldable pub parse_int : Bytes → Option ℤ
unfolding parse_digits
parse_int [] = none
parse_int (c ∷ cs) =
    if c == 45
    then unsigned true cs
    else if c == 43
    then unsigned false cs
    else unsigned false (c ∷ cs)

-- The value beside an error: 0 for a text that is no number, the limit for one out of range.
abbrev pub clamped : Bool → Option ℕ → ℤ
clamped minus none = pos 0
clamped true (some zero) = pos 0
clamped true (some (suc n)) = if leb n (2 ^ 63 - 1) then negsuc n else negsuc (2 ^ 63 - 1)
clamped false (some n) = if ltb n (2 ^ 63) then pos n else pos (2 ^ 63 - 1)

abbrev pub unsigned_value : Bool → Bytes → ℤ
unsigned_value minus s = if is_empty s then pos 0 else clamped minus (parse_digits 0 s)

unfoldable pub parse_int_value : Bytes → ℤ
unfolding parse_digits
parse_int_value [] = pos 0
parse_int_value (c ∷ cs) =
    if c == 45
    then unsigned_value true cs
    else if c == 43
    then unsigned_value false cs
    else unsigned_value false (c ∷ cs)

-- The digits of `n` before those that are there; an int64 has at most 19.
unfoldable pub put_digits : ℕ → ℕ → Bytes → Bytes
put_digits zero n acc = acc
put_digits (suc f) n acc =
    let rest = put_digits f (n / 10) ((48 + n % 10) ∷ acc) in
    if ltb n 10 then (48 + n) ∷ acc else rest

unfoldable pub format_int : ℤ → Bytes
unfolding put_digits
format_int (pos n) = put_digits 20 n []
format_int (negsuc n) = 45 ∷ put_digits 20 (n + 1) []

-- `strconv.FormatUint(n, 10)`; a uint64 has at most 20 digits.
unfoldable pub format_uint : ℕ → Bytes
unfolding put_digits
format_uint n = put_digits 20 n []
