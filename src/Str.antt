-- ===== src/Str.antt =====
-- xv6/string.c: `memmove` and `strncmp`. Memory is a function of addresses, and a string is the list
-- of its bytes up to its end.
pub mod Moves
mod Tests
use tp2_ronaldo_joaopedro.Common.{
  ℕ, zero, suc, ◌+◌, ◌-◌, ◌%◌, ◌^◌, Bool, true, false, ◌&&◌, List, [], ◌∷◌, ◌==◌, ◌!=◌, ltb, leb,
  update, if◌then◌else◌,
}
use tp2_ronaldo_joaopedro.Machine.{sub32}

-- The two loops of `memmove`.
unfoldable pub copy_forwards : (ℕ → ℕ) → ℕ → ℕ → ℕ → ℕ → ℕ
copy_forwards m d s zero = m
copy_forwards m d s (suc n) = copy_forwards (update m d (m s)) (d + 1) (s + 1) n

unfoldable pub copy_backwards : (ℕ → ℕ) → ℕ → ℕ → ℕ → ℕ → ℕ
copy_backwards m d s zero = m
copy_backwards m d s (suc n) = copy_backwards (update m (d + n) (m (s + n))) d s n

unfoldable pub memmove : (ℕ → ℕ) → ℕ → ℕ → ℕ → ℕ → ℕ
memmove m dst src n =
    if ltb src dst && ltb dst (src + n)
    then copy_backwards m dst src n
    else copy_forwards m dst src n

-- A string's first byte; its end reads as 0.
abbrev pub first : List ℕ → ℕ
first [] = 0
first (c ∷ cs) = c

abbrev pub rest : List ℕ → List ℕ
rest [] = []
rest (c ∷ cs) = cs

-- The difference of two bytes is an `int`.
unfoldable pub strncmp : List ℕ → List ℕ → ℕ → ℕ
strncmp p q zero = 0
strncmp p q (suc n) =
    let more = strncmp (rest p) (rest q) n in
    if (first p != 0) && (first p == first q) then more else sub32 (first p) (first q)

-- `memset` on bytes; `stosl` of four equal bytes at a time leaves the same memory.
unfoldable pub memset : (ℕ → ℕ) → ℕ → ℕ → ℕ → ℕ → ℕ
memset m dst c n x = if leb dst x && ltb x (dst + n) then c % 256 else m x

-- `memcmp` of two places of a memory; the difference of two bytes is an `int`.
unfoldable pub memcmp : (ℕ → ℕ) → ℕ → ℕ → ℕ → ℕ
memcmp m v1 v2 zero = 0
memcmp m v1 v2 (suc n) =
    let more = memcmp m (v1 + 1) (v2 + 1) n in if m v1 == m v2 then more else sub32 (m v1) (m v2)

-- The `n` bytes that `strncpy` leaves at its destination.
unfoldable pub strncpy : List ℕ → ℕ → List ℕ
strncpy t zero = []
strncpy [] (suc n) = 0 ∷ strncpy [] n
strncpy (c ∷ cs) (suc n) = let more = strncpy cs n in if c == 0 then 0 ∷ strncpy [] n else c ∷ more

unfoldable pub strlen : List ℕ → ℕ
strlen [] = 0
strlen (c ∷ cs) = let more = strlen cs in if c == 0 then 0 else more + 1
