-- ===== src/Proc/Waiting/Keeping.antt =====
-- xv6/proc.c: the relation between two process tables that carries over who may sleep in `wait`, and the
-- loop of `exit`.

use tp2_ronaldo_joaopedro.Common.{
  ℕ, zero, suc, ◌+◌, true, false, some, ◌≡◌, subst, ◌⊎◌, inl, inr, arith, ◌==◌, update,
  if◌then◌else◌, Bool-cases,
}
use tp2_ronaldo_joaopedro.Proc.{
  Proc, Procs, sleeping, runnable, zombie, Chan, proc_chan, address, is_state, same_chan, sleeps_on,
  set_state, wakeup1, is_child, pass_children,
}

-- The process in slot `i` sleeps in `wait`.
pub record IsWaiting (procs : Procs) (i : ℕ) : Type 0 where
  pub asleep : is_state (procs i).state sleeping ≡ true
  pub own_chan : (procs i).chan ≡ some (proc_chan i)

abbrev pub IsDead : Procs → ℕ → Type 0
IsDead procs j = is_state (procs j).state zombie ≡ true

-- Nobody new waits, nobody new is dead, and the dead have kept a parent that waits.
pub record Keeps (procs procs' : Procs) : Type 0 where
  pub waits : (i : ℕ) → IsWaiting procs' i → IsWaiting procs i
  pub dead : (j : ℕ) → IsDead procs' j → IsDead procs j
  pub parents :
      (i j : ℕ)
      → IsWaiting procs' i
      → IsDead procs' j
      → (procs' j).parent ≡ some i
      → (procs j).parent ≡ some i

pub Keeps-refl : (procs : Procs) → Keeps procs procs
Keeps-refl procs = record { waits = λ i w. w; dead = λ j d. d; parents = λ i j w d e. e }

pub Keeps-trans : {p q r : Procs} → Keeps p q → Keeps q r → Keeps p r
Keeps-trans h k = record {
  waits = λ i w. h.waits i (k.waits i w);
  dead = λ j d. h.dead j (k.dead j d);
  parents = λ i j w d e. h.parents i j (k.waits i w) (k.dead j d) (k.parents i j w d e);
}

-- A slot is rewritten to a process that neither waits nor is dead.
pub update-Keeps :
    (procs : Procs) (i : ℕ) (p : Proc)
    → (is_state p.state sleeping ≡ false) ⊎ ((a : ℕ) × (p.chan ≡ some (address a)))
    → is_state p.state zombie ≡ false
    → Keeps procs (update procs i p)
update-Keeps procs i p up alive = record {
  waits = λ x w. elim (Bool-cases (i == x)) [
    | inl here ↦ absurd (ground (arith, here, up, w.asleep, w.own_chan))
    | inr there ↦ record {
      asleep = ground (arith, there, w.asleep);
      own_chan = ground (arith, there, w.own_chan);
    }
  ];
  dead = λ j d. ground (arith, alive, d);
  parents = λ x j w d e. ground (arith, alive, d, e);
}

abbrev woken : Chan → Proc → Proc
woken c p = if sleeps_on c p then set_state runnable p else p

woken-still :
    (c : Chan) (p : Proc) → is_state (woken c p).state sleeping ≡ true → sleeps_on c p ≡ false
unfolding is_state
woken-still c p e = ground (arith, e)

woken-dead :
    (c : Chan) (p : Proc) → is_state (woken c p).state zombie ≡ true → sleeps_on c p ≡ false
unfolding is_state
woken-dead c p e = ground (arith, e)

pub wakeup1-Keeps : (c : Chan) (procs : Procs) → Keeps procs (wakeup1 c procs)
unfolding wakeup1
wakeup1-Keeps c procs = record {
  waits = λ i w.
      let still = woken-still c (procs i) w.asleep in
      record { asleep = rw still at w.asleep; own_chan = rw still at w.own_chan };
  dead = λ j d. rw (woken-dead c (procs j) d) at d;
  parents = λ i j w d e. rw (woken-dead c (procs j) d) at e;
}

hears :
    (i : ℕ) (p : Proc)
    → is_state p.state sleeping ≡ true
    → p.chan ≡ some (proc_chan i)
    → sleeps_on (proc_chan i) p ≡ false
    → ⊥
unfolding sleeps_on same_chan is_state
hears i p a b e = ground (arith, a, b, e)

-- Who slept in `wait` on its own channel is woken by it.
pub wakeup1-wakes : (i : ℕ) (procs : Procs) → IsWaiting (wakeup1 (proc_chan i) procs) i → ⊥
unfolding wakeup1
wakeup1-wakes i procs w =
    let still = woken-still (proc_chan i) (procs i) w.asleep in
    hears i (procs i) (rw still at w.asleep) (rw still at w.own_chan) still

-- One child is passed on to init, which is woken if the child is dead.
abbrev adopted : ℕ → ℕ → Procs → Procs
adopted init i procs = update procs i (record (procs i) { parent = some init })

abbrev pub adopt : ℕ → ℕ → ℕ → Procs → Procs
adopt cur init i procs =
    if is_child cur (procs i)
    then (if is_state (procs i).state zombie
        then wakeup1 (proc_chan init) (adopted init i procs)
        else adopted init i procs)
    else procs

adopt-Keeps : (cur init i : ℕ) (procs : Procs) → Keeps procs (adopt cur init i procs)
adopt-Keeps cur init i procs = elim (Bool-cases (is_child cur (procs i))) [
  | inr other ↦ rw other (Keeps-refl procs)
  | inl child ↦ rw child (elim (Bool-cases (is_state (procs i).state zombie)) [
    | inr alive ↦ rw alive (record {
      waits = λ x w. adopted_waits x w;
      dead = λ j d. adopted_dead j d;
      parents = λ x j w d e. ground (arith, alive, d, e);
    })
    | inl dead ↦ rw dead (record {
      waits = λ x w.
          adopted_waits x ((wakeup1-Keeps (proc_chan init) (adopted init i procs)).waits x w);
      dead =
          λ j d. adopted_dead j ((wakeup1-Keeps (proc_chan init) (adopted init i procs)).dead j d);
      parents = λ x j w d e.
          let kept = (wakeup1-Keeps (proc_chan init) (adopted init i procs)).parents x j w d e in
          elim (Bool-cases (i == j)) [
            | inr there ↦ ground (arith, there, kept)
            | inl here ↦
                let x_init : init ≡ x = ground (arith, here, kept) in
                absurd (
                  subst (λ y. IsWaiting (wakeup1 (proc_chan init) (adopted init i procs)) y → ⊥)
                    x_init (wakeup1-wakes init (adopted init i procs)) w)
          ];
    })
  ])
]
  where
    adopted_waits : (x : ℕ) → IsWaiting (adopted init i procs) x → IsWaiting procs x
    adopted_waits x w = record {
      asleep = ground (arith, w.asleep);
      own_chan = ground (arith, w.own_chan);
    }

    adopted_dead : (x : ℕ) → IsDead (adopted init i procs) x → IsDead procs x
    adopted_dead x d = ground (arith, d)

pub pass_children-Keeps :
    (cur init n i : ℕ) (procs : Procs) → Keeps procs (pass_children cur init n i procs)
unfolding pass_children
pass_children-Keeps cur init zero i procs = Keeps-refl procs
pass_children-Keeps cur init (suc n) i procs =
    Keeps-trans (adopt-Keeps cur init i procs)
      (pass_children-Keeps cur init n (i + 1) (adopt cur init i procs))
