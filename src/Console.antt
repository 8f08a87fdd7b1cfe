-- ===== src/Console.antt =====
-- xv6/console.c: the line that is typed at the console, and reading it. The screen is output only and
-- not part of the state.
pub mod Ring
pub mod Lines
pub mod Editing
mod Tests
use tp2_ronaldo_joaopedro.Common.{
  ℕ, zero, suc, ◌+◌, ◌-◌, ◌%◌, Bool, true, false, ◌&&◌, ◌||◌, Option, none, some, List, [], ◌∷◌,
  ◌==◌, ◌!=◌, ltb, update, if◌then◌else◌,
}
use tp2_ronaldo_joaopedro.Machine.{add32, sub32}

abbrev pub input_buf : ℕ
input_buf = 128

-- `input`: the bytes from `r` to `w` wait for readers, those from `w` to `e` can still be edited. The
-- indices are `uint` and wrap.
pub record Input : Type 0 where
  pub buf : ℕ → ℕ
  pub r : ℕ
  pub w : ℕ
  pub e : ℕ

-- The loop of `C('U')`, with fuel.
unfoldable pub kill_line : ℕ → Input → Option Input
kill_line zero s = none
kill_line (suc fuel) s =
    let more = kill_line fuel (record s { e = sub32 s.e 1 }) in
    if (s.e != s.w) && (s.buf (sub32 s.e 1 % input_buf) != b'\n') then more else some s

abbrev pub typed : ℕ → ℕ
typed c = if c == b'\r' then b'\n' else c

-- `input.buf[input.e++ % INPUT_BUF] = c`
abbrev pub put : ℕ → Input → Input
put c s = record s { buf = update s.buf (s.e % input_buf) c; e = add32 s.e 1 }

-- Whether the line is complete, with `c` as its last byte: for a newline, `C('D')` or a full buffer.
abbrev pub completes : ℕ → Input → Bool
completes c s = (c == b'\n') || (c == 4) || (s.e == add32 s.r input_buf)

-- A byte that is no editing key: the input, and whether readers are woken.
unfoldable pub type_byte : ℕ → Input → Input × Bool
type_byte c s =
    if (c != 0) && ltb (sub32 s.e s.r) input_buf
    then if completes (typed c) (put (typed c) s)
      then (record (put (typed c) s) { w = add32 s.e 1 }, true)
      else (put (typed c) s, false)
    else (s, false)

abbrev still : Option Input → Option (Input × Bool)
still none = none
still (some s) = some (s, false)

-- One byte in `consoleintr`; `C('P')` only lists the processes. `none` is a loop out of fuel.
unfoldable pub consoleintr : ℕ → Input → Option (Input × Bool)
unfolding kill_line type_byte
consoleintr c s =
    if c == 16
    then some (s, false)
    else if c == 21
    then still (kill_line 129 s)
    else if (c == 8) || (c == 127)
    then some (if s.e != s.w then record s { e = sub32 s.e 1 } else s, false)
    else some (type_byte c s)

-- What a run of `consoleread` has read, and whether it sleeps for more.
pub record Reading : Type 0 where
  pub bytes : List ℕ
  pub asleep : Bool
  pub input : Input

abbrev add_byte : ℕ → Reading → Reading
add_byte c g = record g { bytes = c ∷ g.bytes }

-- The loop of `consoleread` for `n` bytes that are left; `some_read` is `n < target`.
unfoldable pub consoleread : ℕ → Bool → Input → Reading
consoleread zero some_read s = record { bytes = []; asleep = false; input = s }
consoleread (suc n) some_read s =
    let c = s.buf (s.r % input_buf) in
    let taken = record s { r = add32 s.r 1 } in
    let more = consoleread n true taken in
    if s.r == s.w
    then record { bytes = []; asleep = true; input = s }
    else if c == 4
    then record { bytes = []; asleep = false; input = if some_read then s else taken }
    else if c == b'\n'
    then record { bytes = c ∷ []; asleep = false; input = taken }
    else add_byte c more
