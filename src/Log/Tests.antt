-- ===== src/Log/Tests.antt =====
-- The theorems on log.c at concrete inputs.
use tp2_ronaldo_joaopedro.Common.{
  ℕ, zero, suc, length, ◌+◌, ◌⊎◌, ◌<◌, ◌≤◌, Bool, true, false, some, List, [], ◌∷◌, ◌≡◌, ◌↔◌, refl,
  inr, arith, update, if◌then◌else◌,
}
use tp2_ronaldo_joaopedro.Log.{
  Log, Store, begin_op, end_op, log_write, logged, log_panic, too_big, logsize, member, read_head,
  commit, write_log, install_trans, write_head, head_block, bwrite,
}
use tp2_ronaldo_joaopedro.Log.Effects.{mixed}
use tp2_ronaldo_joaopedro.Log.Recovery.{boot, recovered}
use tp2_ronaldo_joaopedro.Log.Crash.{interrupted, commit-atomic}
use tp2_ronaldo_joaopedro.Log.Space.{
  IsRoomy, total, begin_op-IsRoomy, log_write-IsRoomy, end_op-IsRoomy,
}

-- The log stands in blocks 2 to 31; blocks 40 and 41 are changed in the cache.
abbrev changed : Store
changed = record {
  disk = λ _. 0 ∷ [];
  view = update (update (λ _. 0 ∷ []) 40 (7 ∷ [])) 41 (8 ∷ []);
  written = [];
}

commit_installs : (commit 2 (40 ∷ 41 ∷ []) changed).disk 41 ≡ 8 ∷ []
unfolding commit write_log install_trans write_head head_block bwrite
commit_installs = refl

clean : read_head 2 (boot changed.disk) ≡ []
unfolding read_head
clean = refl

commit-atomic_example :
    (4 ≤ 2 → recovered 2 (interrupted 2 (40 ∷ 41 ∷ []) changed 4) 41 ≡ changed.disk 41)
    × (2 < 4
        → recovered 2 (interrupted 2 (40 ∷ 41 ∷ []) changed 4) 41
          ≡ mixed (40 ∷ 41 ∷ []) changed.view changed.disk 41)
commit-atomic_example =
    commit-atomic 2 30 (40 ∷ 41 ∷ []) changed 4 41 (inr (omega arith), (inr (omega arith), tt))
      (omega arith) (omega arith) clean (inr (omega arith))

abbrev idle_log : Log
idle_log = record { start = 2; size = 30; outstanding = 0; committing = false; lh = [] }

abbrev busy_log : Log
busy_log = record idle_log { outstanding = 1 }

idle_log-IsRoomy : IsRoomy idle_log []
idle_log-IsRoomy = record { count = refl; each = tt; room = omega arith }

idle_begins : begin_op idle_log ≡ some busy_log
unfolding begin_op
idle_begins = refl

begin_op-IsRoomy_example : IsRoomy busy_log (10 ∷ [])
begin_op-IsRoomy_example = begin_op-IsRoomy idle_log busy_log [] idle_log-IsRoomy idle_begins

busy_log-IsRoomy : IsRoomy busy_log (10 ∷ [])
busy_log-IsRoomy = record { count = refl; each = (omega arith, tt); room = omega arith }

abbrev blocks_from : ℕ → ℕ → List ℕ
blocks_from b zero = []
blocks_from b (suc n) = b ∷ blocks_from (b + 1) n

-- Three operations, of which one has a block left of its ten, the others none.
abbrev full_log : Log
full_log = record idle_log { outstanding = 3; lh = blocks_from 50 29 }

full_log-IsRoomy : IsRoomy full_log (1 ∷ 0 ∷ 0 ∷ [])
full_log-IsRoomy = record {
  count = refl;
  each = (omega arith, (omega arith, (omega arith, tt)));
  room = omega arith;
}

log_write-IsRoomy_example :
    ((log_write full_log 40 ≡ log_panic too_big)
      × (full_log.size ≡ logsize)
      × (length full_log.lh + 1 ≡ logsize)
      × (0 + total (0 ∷ 0 ∷ []) ≡ 0))
    ⊎ ((length full_log.lh + 1 < full_log.size)
        × (l' : Log) × (log_write full_log 40 ≡ logged l')
        × (member 40 l'.lh ≡ true)
        × IsRoomy l' ((if member 40 full_log.lh then 1 else 0) ∷ 0 ∷ 0 ∷ []))
log_write-IsRoomy_example =
    log_write-IsRoomy full_log 0 (0 ∷ 0 ∷ []) 40 (omega arith) full_log-IsRoomy

end_op-IsRoomy_example :
    (c : Bool) × (l' : Log) × (end_op busy_log ≡ some (c, l'))
    × IsRoomy l' []
    × (c ≡ true ↔ ◌≡◌ {A = List ℕ} [] [])
end_op-IsRoomy_example = end_op-IsRoomy busy_log 10 [] busy_log-IsRoomy refl
