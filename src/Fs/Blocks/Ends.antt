-- ===== src/Fs/Blocks/Ends.antt =====
-- xv6/fs.c: the loops of `balloc` and `bfree`, and the sizes in the inode cache.
use tp2_ronaldo_joaopedro.Common.{
  ℕ, zero, suc, ◌+◌, ◌-◌, ◌*◌, ◌/◌, ◌%◌, ◌<◌, ◌≤◌, min, Option, none, some, arith, inl, inr, ltb,
  update, Bool-cases,
}
use tp2_ronaldo_joaopedro.Log.{log_write, Logged, logged, log_panic}
use tp2_ronaldo_joaopedro.Fs.{Fs, F, Bytes, write_block, with_log}
use tp2_ronaldo_joaopedro.Fs.Triples.{
  After, After-bind, bind, returns, Sizes, Keeps, Keeps-Ends, Ends, Anything,
}
use tp2_ronaldo_joaopedro.Fs.Blocks.{
  readsb, bzero, find_free, take_block, balloc_from, balloc, bfree, clear_block, bblock, mark,
  unmark, is_free,
}

with_log-Sizes : (f : ℕ → ℕ) (s : Fs) (r : Logged) → Sizes f s → After (λ _. Sizes f) (with_log s r)
with_log-Sizes f s (logged l) h = h
with_log-Sizes f s (log_panic p) h = tt

pub write_block-Keeps : (b : ℕ) (v : Bytes) → Keeps (write_block b v)
unfolding write_block
write_block-Keeps b v f = record {
  apply = λ s h. with_log-Sizes f (record s { blocks = update s.blocks b v }) (log_write s.log b) h;
}

bzero-Keeps : (b : ℕ) → Keeps (bzero b)
unfolding bzero
bzero-Keeps b f = record { apply = λ s h. (write_block-Keeps b _ f).apply s h }

take_block-Keeps : (b bi : ℕ) → Keeps (take_block b bi)
unfolding take_block
take_block-Keeps b bi f = record {
  apply = λ s h.
      After-bind (λ _. Sizes f) (λ _. Sizes f) _ _
        ((write_block-Keeps (bblock b s.sb) (mark (s.blocks (bblock b s.sb)) bi) f).apply s h)
        (λ _. bind (λ _. Sizes f) (bzero-Keeps (b + bi) f) (λ _. returns (b + bi) (λ s h. h)));
}

balloc_from-Keeps :
    (f : ℕ → ℕ) (fuel b : ℕ) (s : Fs)
    → Sizes f s
    → s.sb.size + 4096 ≤ b + 4096 * fuel
    → b < s.sb.size + 4096
    → After (λ _. Sizes f) (balloc_from fuel b s)
unfolding balloc_from
balloc_from-Keeps f zero b s h enough near = absurd (omega arith)
balloc_from-Keeps f (suc fuel) b s h enough near = elim (Bool-cases (ltb b s.sb.size)) [
  | inr past ↦ rw past tt
  | inl more ↦ rw more (
      by_search (find_free (s.blocks (bblock b s.sb)) 0 (min 4096 (s.sb.size - b)))
        (balloc_from-Keeps f fuel (b + 4096) s h (omega arith) (ground (arith, more))))
]
  where
    run : Option ℕ → F ℕ
    run o = elim o [ some bi ↦ take_block b bi | none ↦ balloc_from fuel (b + 4096) ]

    by_search :
        (o : Option ℕ)
        → After (λ _. Sizes f) (balloc_from fuel (b + 4096) s)
        → After (λ _. Sizes f) (run o s)
    by_search none later = later
    by_search (some bi) later = (take_block-Keeps b bi f).apply s h

pub balloc-Keeps : Keeps balloc
unfolding balloc
balloc-Keeps f = record {
  apply = λ s h. balloc_from-Keeps f (s.sb.size / 4096 + 2) 0 s h (omega arith) (omega arith);
}

readsb-Ends : Ends readsb
unfolding readsb
readsb-Ends = record { apply = λ s h. tt }

clear_block-Ends : (b : ℕ) → Ends (clear_block b)
unfolding clear_block
clear_block-Ends b = record {
  apply = λ s h. elim (Bool-cases (is_free (s.blocks (bblock b s.sb)) (b % 4096))) [
    | inl free ↦ rw free tt
    | inr used ↦
        let write =
          write_block-Keeps (bblock b s.sb) (unmark (s.blocks (bblock b s.sb)) (b % 4096)) in
        rw used ((Keeps-Ends write).apply s tt)
  ];
}

pub bfree-Ends : (b : ℕ) → Ends (bfree b)
unfolding bfree
bfree-Ends b = bind (λ _. Anything) readsb-Ends (λ _. clear_block-Ends b)
