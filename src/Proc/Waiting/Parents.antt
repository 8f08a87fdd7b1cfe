-- ===== src/Proc/Waiting/Parents.antt =====
-- xv6/proc.c: the parents of processes, also where `exit` passes on the children of a process.
use tp2_ronaldo_joaopedro.Common.{
  ℕ, zero, suc, ◌+◌, false, none, some, ◌≡◌, ◌≢◌, refl, sym, ◌∙◌, inl, inr, arith, ◌==◌, update,
  Bool-cases,
}
use tp2_ronaldo_joaopedro.Proc.{
  Proc, Procs, Chan, proc_chan, is_state, sleeps_on, wakeup1, zombie, is_child, pass_children,
}
use tp2_ronaldo_joaopedro.Proc.Waiting.Keeping.{adopt}

pub record IsRooted (init : ℕ) (procs : Procs) : Type 0 where
  pub own : (i : ℕ) → (procs i).parent ≢ some i
  pub root : (procs init).parent ≡ none

pub same-IsRooted :
    (init : ℕ) (procs procs' : Procs)
    → ((j : ℕ) → (procs' j).parent ≡ (procs j).parent)
    → IsRooted init procs
    → IsRooted init procs'
same-IsRooted init procs procs' same v = record {
  own = λ i e. v.own i (sym (same i) ∙ e);
  root = same init ∙ v.root;
}

pub update-parent :
    (procs : Procs) (i : ℕ) (p : Proc)
    → p.parent ≡ (procs i).parent
    → (j : ℕ) → (update procs i p j).parent ≡ (procs j).parent
update-parent procs i p e j = ground (arith, e)

pub wakeup1-parent :
    (c : Chan) (procs : Procs) (j : ℕ) → (wakeup1 c procs j).parent ≡ (procs j).parent
unfolding wakeup1
wakeup1-parent c procs j = ground (arith, Bool-cases (sleeps_on c (procs j)))

-- A slot gets a parent that is neither itself nor, for init, anything.
pub update-IsRooted :
    (init : ℕ) (procs : Procs) (i : ℕ) (p : Proc)
    → p.parent ≢ some i
    → (i ≡ init → p.parent ≡ none)
    → IsRooted init procs
    → IsRooted init (update procs i p)
update-IsRooted init procs i p other top v = record {
  own = λ j e. elim (Bool-cases (i == j)) [
    | inl here ↦ other (ground (arith, here, e))
    | inr there ↦ v.own j (ground (arith, there, e))
  ];
  root = ground (arith, top, v.root);
}

adopt-IsRooted :
    (cur init i : ℕ) (procs : Procs) → IsRooted init procs → IsRooted init (adopt cur init i procs)
adopt-IsRooted cur init i procs v = elim (Bool-cases (is_child cur (procs i))) [
  | inr other ↦ rw other v
  | inl child ↦
      let p = record (procs i) { parent = some init } in
      let not_init : i ≢ init = λ e. ground (arith, e, child, v.root) in
      let w =
        update-IsRooted init procs i p (λ e. not_init (ground (arith, e)))
          (λ e. absurd (not_init e)) v in
      rw child (elim (Bool-cases (is_state (procs i).state zombie)) [
        | inl dead ↦ rw dead (
            same-IsRooted init (update procs i p) (wakeup1 (proc_chan init) (update procs i p))
              (wakeup1-parent (proc_chan init) (update procs i p)) w)
        | inr alive ↦ rw alive w
      ])
]

pub pass_children-IsRooted :
    (cur init n i : ℕ) (procs : Procs)
    → IsRooted init procs
    → IsRooted init (pass_children cur init n i procs)
unfolding pass_children
pass_children-IsRooted cur init zero i procs v = v
pass_children-IsRooted cur init (suc n) i procs v =
    pass_children-IsRooted cur init n (i + 1) (adopt cur init i procs)
      (adopt-IsRooted cur init i procs v)

adopt-parent :
    (cur init i : ℕ) (procs : Procs) (j : ℕ)
    → is_child cur (procs j) ≡ false
    → (adopt cur init i procs j).parent ≡ (procs j).parent
adopt-parent cur init i procs j h =
    let p = record (procs i) { parent = some init } in
    elim (Bool-cases (is_child cur (procs i))) [
      | inr other ↦ rw other refl
      | inl child ↦
          let kept : (update procs i p j).parent ≡ (procs j).parent = ground (arith, h, child) in
          rw child (elim (Bool-cases (is_state (procs i).state zombie)) [
            | inl dead ↦ rw dead (wakeup1-parent (proc_chan init) (update procs i p) j ∙ kept)
            | inr alive ↦ rw alive kept
          ])
    ]

-- Who is no child of `cur` keeps its parent.
pub pass_children-parent :
    (cur init n i : ℕ) (procs : Procs) (j : ℕ)
    → is_child cur (procs j) ≡ false
    → (pass_children cur init n i procs j).parent ≡ (procs j).parent
unfolding pass_children
pass_children-parent cur init zero i procs j h = refl
pass_children-parent cur init (suc n) i procs j h =
    let e = adopt-parent cur init i procs j h in
    pass_children-parent cur init n (i + 1) (adopt cur init i procs) j (ground (arith, e, h)) ∙ e
