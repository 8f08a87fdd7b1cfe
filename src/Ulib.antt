-- ===== src/Ulib.antt =====
-- xv6/ulib.c and printf.c: the user library's strings and its printing. A string is the list of its
-- bytes up to its end, and what is printed is the list of the bytes that `putc` writes.
pub mod Decimal
mod Tests
use tp2_ronaldo_joaopedro.Common.{
  ℕ, zero, suc, ◌+◌, ◌-◌, ◌*◌, ◌/◌, ◌%◌, ◌^◌, Bool, true, false, ◌&&◌, ◌||◌, Option, none, some,
  List, [], ◌∷◌, ◌++◌, ◌==◌, ◌!=◌, ltb, leb, if◌then◌else◌,
}
use tp2_ronaldo_joaopedro.Machine.{add32, sub32}
use tp2_ronaldo_joaopedro.Str.{first, rest}

-- The bytes that `strcpy` leaves before the end of the string.
unfoldable pub strcpy : List ℕ → List ℕ
strcpy [] = []
strcpy (c ∷ cs) = let more = strcpy cs in if c == 0 then [] else c ∷ more

-- The difference of two bytes is an `int`.
unfoldable pub strcmp : List ℕ → List ℕ → ℕ
strcmp [] q = sub32 0 (first q)
strcmp (c ∷ cs) q =
    let more = strcmp cs (rest q) in if (c != 0) && (c == first q) then more else sub32 c (first q)

-- The part of the string from the first `c` on.
unfoldable pub strchr : List ℕ → ℕ → Option (List ℕ)
strchr [] c = none
strchr (d ∷ ds) c =
    let more = strchr ds c in if d == 0 then none else if d == c then some (d ∷ ds) else more

-- The loop of `gets`, with room for `left` bytes before the last; an empty input is a failed `read`.
-- It gives the bytes put into the buffer and the input that is left.
unfoldable pub gets_from : ℕ → List ℕ → List ℕ × List ℕ
gets_from zero input = ([], input)
gets_from (suc left) [] = ([], [])
gets_from (suc left) (c ∷ input) =
    let more = gets_from left input in
    if (c == b'\n') || (c == b'\r') then (c ∷ [], input) else (c ∷ more.0, more.1)

unfoldable pub gets : ℕ → List ℕ → List ℕ × List ℕ
unfolding gets_from
gets max input = gets_from (max - 1) input

-- `'0' <= *s && *s <= '9'`
abbrev pub is_digit : ℕ → Bool
is_digit c = leb b'0' c && leb c b'9'

-- The loop of `atoi`, in 32-bit arithmetic.
unfoldable pub atoi_from : ℕ → List ℕ → ℕ
atoi_from n [] = n
atoi_from n (c ∷ cs) =
    let more = atoi_from (sub32 (add32 (n * 10 % 2 ^ 32) c) b'0') cs in
    if is_digit c then more else n

unfoldable pub atoi : List ℕ → ℕ
atoi s = atoi_from 0 s

-- `digits[d]` of "0123456789ABCDEF"
abbrev pub digit : ℕ → ℕ
digit d = if ltb d 10 then b'0' + d else b'A' + (d - 10)

-- The loop of `printint` that fills `buf`, lowest digit first, with fuel; `none` is a loop that has
-- used it up.
unfoldable pub digits_from : ℕ → ℕ → ℕ → Option (List ℕ)
digits_from zero x base = none
digits_from (suc fuel) x base =
    let more = digits_from fuel (x / base) base in
    if x / base == 0
    then some (digit (x % base) ∷ [])
    else elim more [ none ↦ none | some ds ↦ some (digit (x % base) ∷ ds) ]

-- The loop that prints `buf` from its end.
unfoldable pub print_backwards : List ℕ → List ℕ → List ℕ
print_backwards [] done = done
print_backwards (c ∷ cs) done = print_backwards cs (c ∷ done)

abbrev pub printed : Bool → Option (List ℕ) → Option (List ℕ)
printed neg none = none
printed neg (some ds) = some (print_backwards (if neg then ds ++ b'-' ∷ [] else ds) [])

-- `xx` is an `int` as a 32-bit pattern.
unfoldable pub printint : ℕ → ℕ → Bool → Option (List ℕ)
printint xx base sgn =
    let neg = sgn && leb (2 ^ 31) xx in
    printed neg (digits_from 33 (if neg then sub32 0 xx else xx) base)
