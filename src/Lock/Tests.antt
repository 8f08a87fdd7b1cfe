-- ===== src/Lock/Tests.antt =====
-- The lock theorem on two CPUs: CPU 0 takes the lock while CPU 1 spins.
use tp2_ronaldo_joaopedro.Common.{ℕ, true, false, none, refl}
use tp2_ronaldo_joaopedro.Lock.{
  initlock, holding, pushcli, outside, spinning, State, move, acquire_start, acquire_try,
  acquire_record, Steps, stay, step, enters, tries, records,
}
use tp2_ronaldo_joaopedro.Lock.Mutex.{IsFresh, IsSafe, Steps-IsSafe}

abbrev at_rest : State
at_rest = record {
  lock = record { locked = false; cpu = none };
  cpus = λ _. record { interrupts = true; ncli = 0; intena = false };
  phase = λ _. outside;
}

at_rest-IsFresh : IsFresh at_rest
unfolding initlock
at_rest-IsFresh = record { lock = refl; phase = λ _. refl }

abbrev entered : ℕ → State → State
entered c s = move c spinning (pushcli (s.cpus c)) s.lock s

abbrev both_spin : State
both_spin = entered 1 (entered 0 at_rest)

one_has_it : Steps at_rest (acquire_try 1 (acquire_record 0 (acquire_try 0 both_spin)))
unfolding acquire_start acquire_try acquire_record holding
one_has_it = step at_rest (entered 0 at_rest) _ (enters 0 at_rest (entered 0 at_rest) refl refl) (
    step (entered 0 at_rest) both_spin _ (enters 1 (entered 0 at_rest) both_spin refl refl) (
      step both_spin (acquire_try 0 both_spin) _ (tries 0 both_spin refl) (
        step (acquire_try 0 both_spin) (acquire_record 0 (acquire_try 0 both_spin)) _
          (records 0 (acquire_try 0 both_spin) refl)
          (step (acquire_record 0 (acquire_try 0 both_spin)) _ _
            (tries 1 (acquire_record 0 (acquire_try 0 both_spin)) refl) (stay _)))))

Steps-IsSafe_example : IsSafe (acquire_try 1 (acquire_record 0 (acquire_try 0 both_spin)))
Steps-IsSafe_example = Steps-IsSafe at_rest _ at_rest-IsFresh one_has_it
