-- ===== src/Console/Lines.antt =====
-- xv6/console.c: a line editor, the ring that holds its line, and what takes bytes off the line.
use tp2_ronaldo_joaopedro.Common.{
  ℕ, zero, suc, ◌+◌, ◌%◌, ◌^◌, ◌<◌, ◌≤◌, true, false, ◌&&◌, ◌||◌, some, List, [], ◌∷◌, ◌++◌, length,
  All, ◌≡◌, ◌≢◌, ap, ◌∙◌, arith, ◌==◌, ◌!=◌, ltb, if◌then◌else◌,
}
use tp2_ronaldo_joaopedro.Machine.{sub32}
use tp2_ronaldo_joaopedro.Console.{Input, kill_line, typed}
use tp2_ronaldo_joaopedro.Console.Ring.{window, but_last, All-last}

-- The bytes that wait for readers, and those of the line that is being typed.
pub record Line : Type 0 where
  pub ready : List ℕ
  pub edit : List ℕ

-- The line editor that the console is to its users.
abbrev pub edit_key : ℕ → Line → Line
edit_key c l =
    if c == 16
    then l
    else if c == 21
    then record l { edit = [] }
    else if (c == 8) || (c == 127)
    then record l { edit = but_last l.edit }
    else if (c != 0) && ltb (length l.ready + length l.edit) 128
    then if (typed c == b'\n') || (typed c == 4) || (length l.ready + length l.edit == 127)
      then record { ready = l.ready ++ (l.edit ++ typed c ∷ []); edit = [] }
      else record l { edit = l.edit ++ typed c ∷ [] }
    else l

-- The ring holds `a` bytes for readers and `b` bytes of a line without a newline.
pub record Holds (s : Input) (a b : ℕ) : Type 0 where
  pub word : s.r < 2 ^ 32
  pub ready : s.w ≡ (s.r + a) % 2 ^ 32
  pub typing : s.e ≡ (s.w + b) % 2 ^ 32
  pub fits : a + b ≤ 128
  pub plain : All (λ c. c ≢ b'\n') (window s.buf s.w b)

abbrev pub line_of : Input → ℕ → ℕ → Line
line_of s a b = record { ready = window s.buf s.r a; edit = window s.buf s.w b }

-- One byte less of the line.
pub shorter-Holds :
    (s : Input) (a b : ℕ) → Holds s a (suc b) → Holds (record s { e = sub32 s.e 1 }) a b
shorter-Holds s a b h = record {
  word = h.word;
  ready = h.ready;
  typing = omega (arith, h.typing, h.ready);
  fits = omega (arith, h.fits);
  plain = (All-last (λ c. c ≢ b'\n') s.buf s.w b (omega (arith, h.ready)) h.plain).1;
}

pub some_typed : (s : Input) (a b : ℕ) → Holds s a (suc b) → (s.e != s.w) ≡ true
some_typed s a b h =
    let ne : s.e ≢ s.w = omega (arith, h.typing, h.ready, h.fits) in ground (arith, ne)

pub none_typed : (s : Input) (a : ℕ) → Holds s a 0 → s.e ≡ s.w
none_typed s a h = omega (arith, h.typing, h.ready)

pub kill_line-Holds :
    (fuel a b : ℕ) (s : Input)
    → b < fuel
    → Holds s a b
    → kill_line fuel s ≡ some (record s { e = s.w })
unfolding kill_line
kill_line-Holds zero a b s f h = absurd (omega arith)
kill_line-Holds (suc fuel) a zero s f h =
    let done : (s.e != s.w) ≡ false = ground (arith, none_typed s a h) in
    rw done (ap (λ x. some (record s { e = x })) (none_typed s a h))
kill_line-Holds (suc fuel) a (suc b) s f h =
    let last = (All-last (λ c. c ≢ b'\n') s.buf s.w b (omega (arith, h.ready)) h.plain).0 in
    let place : sub32 s.e 1 ≡ (s.w + b) % 2 ^ 32 = omega (arith, h.typing, h.ready) in
    let goes_on : (s.buf (sub32 s.e 1 % 128) != b'\n') ≡ true =
      ap (λ x. s.buf (x % 128) != b'\n') place ∙ ground (arith, last) in
    rw (some_typed s a b h, goes_on)
      (kill_line-Holds fuel a b (record s { e = sub32 s.e 1 }) (omega arith)
        (shorter-Holds s a b h))
