-- ===== src/Console/Tests.antt =====
-- The console after "l" and "x" have been typed.
use tp2_ronaldo_joaopedro.Common.{true, false, some, [], ◌∷◌, ◌≡◌, refl, arith, ◌==◌, if◌then◌else◌}
use tp2_ronaldo_joaopedro.Console.{Input, kill_line, consoleintr, consoleread}
use tp2_ronaldo_joaopedro.Console.Lines.{Holds}
use tp2_ronaldo_joaopedro.Console.Editing.{Edited, consoleintr-Edited}

abbrev two_typed : Input
two_typed = record {
  buf = λ k. if k == 0 then b'l' else if k == 1 then b'x' else 0;
  r = 0;
  w = 0;
  e = 2;
}

two_typed-Holds : Holds two_typed 0 2
two_typed-Holds = omega arith

consoleintr-Edited_example : Edited 8 two_typed 0 2 (consoleintr 8 two_typed)
consoleintr-Edited_example = consoleintr-Edited 8 0 2 two_typed two_typed-Holds

line_dropped : consoleintr 21 two_typed ≡ some (record two_typed { e = 0 }, false)
unfolding consoleintr kill_line
line_dropped = refl

nothing_ready : (consoleread 10 false two_typed).asleep ≡ true
unfolding consoleread
nothing_ready = refl

line_read : (consoleread 10 false (record two_typed { buf = λ k. b'\n'; w = 2 })).bytes ≡ b'\n' ∷ []
unfolding consoleread
line_read = refl
