-- ===== src/Pipe/Tests.antt =====
-- The theorems on pipe.c at concrete inputs.
use tp2_ronaldo_joaopedro.Common.{
  ℕ, ◌<◌, true, false, List, [], ◌∷◌, ◌++◌, length, replicate, length-replicate, ◌≡◌, refl, arith,
}
use tp2_ronaldo_joaopedro.Pipe.{
  Pipe, put, get, is_full, is_empty, read_from, pipe_init, bytes_read, piperead, pipewrite,
}
use tp2_ronaldo_joaopedro.Pipe.Ring.{IsRing, contents, size}
use tp2_ronaldo_joaopedro.Pipe.Stream.{transfers, sent, received, transfers-in_order, Transfer}
use tp2_ronaldo_joaopedro.Pipe.Wakeup.{
  Shared, IsAwake, on_write, Steps, done, writes, Steps-IsAwake, pipewrite-killed,
}

abbrev new_pipe : Pipe
unfolding pipe_init
new_pipe = pipe_init (replicate 512 0)

new_pipe-IsRing : IsRing new_pipe
unfolding pipe_init
new_pipe-IsRing = record {
  page = length-replicate {A = ℕ} 512 0;
  read_word = omega arith;
  write_word = omega arith;
  fits = omega arith;
}

unfoldable three_sent : List ℕ → Pipe
three_sent cs = (pipewrite false new_pipe cs).1

three_read : (piperead false (three_sent (10 ∷ 20 ∷ 30 ∷ [])) 2).0 ≡ bytes_read (10 ∷ 20 ∷ [])
unfolding three_sent pipewrite put is_full piperead read_from get is_empty pipe_init
three_read = refl

abbrev exchange : List Transfer
exchange = sent false (10 ∷ 20 ∷ 30 ∷ []) ∷ received 2 ∷ sent true (40 ∷ []) ∷ received 9 ∷ []

transfers-in_order_example :
    IsRing (transfers new_pipe exchange).2
    × (contents new_pipe ++ (transfers new_pipe exchange).0
        ≡ (transfers new_pipe exchange).1 ++ contents (transfers new_pipe exchange).2)
transfers-in_order_example = transfers-in_order new_pipe exchange new_pipe-IsRing

-- A reader sleeps on the new pipe.
abbrev waiting : Shared
waiting = record { pipe = new_pipe; readers = true; writers = false }

waiting-IsAwake : IsAwake waiting
unfolding pipe_init
waiting-IsAwake = record {
  ring = new_pipe-IsRing;
  empty = λ e. (refl, refl, refl);
  full = λ e. absurd (ground (arith, e));
}

abbrev filled : Shared
filled = on_write waiting false (replicate 600 7)

filled-Steps : Steps waiting filled
filled-Steps = writes waiting filled (replicate 600 7) (done filled)

Steps-IsAwake_example : IsAwake filled
Steps-IsAwake_example = Steps-IsAwake waiting filled filled-Steps waiting-IsAwake

long_write : 512 < length {A = ℕ} (replicate 600 7)
long_write = omega (arith, length-replicate {A = ℕ} 600 7)

pipewrite-killed_example :
    ((on_write waiting true (replicate 600 7)).readers ≡ true)
    × (size (on_write waiting true (replicate 600 7)).pipe ≡ 512)
pipewrite-killed_example =
    pipewrite-killed waiting (replicate 600 7) waiting-IsAwake refl long_write
