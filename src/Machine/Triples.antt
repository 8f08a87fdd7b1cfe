-- ===== src/Machine/Triples.antt =====
-- Reasoning about kernel operations by what holds before and after. A triple allows a panic and
-- forbids a hang, so it also says that the loops of the operation end.
use tp2_ronaldo_joaopedro.Common.{ℕ, Bool, true, false, if◌then◌else◌, ◌≡◌, refl}
use tp2_ronaldo_joaopedro.Machine.{
  Machine, Outcome, ok, panic, hang, M, pure, fail, Panic, load, store, fill_page, dec_refcount,
  get_refcount, ◌>>=◌,
}

abbrev pub After {ℓ} : {A : Type ℓ} → (A → Machine → Type 0) → Outcome A → Type 0
After Q (ok a m) = Q a m
After Q (panic p) = Unit {0}
After Q hang = ⊥

-- From `P`, the operation `c` gets to `Q` of its result.
pub record Triple {ℓ} {A : Type ℓ} (P : Machine → Type 0) (c : M A) (Q : A → Machine → Type 0)
    : Type 0 where
  pub apply : (m : Machine) → P m → After Q (c m)

After-bind {ℓ κ} :
    {A : Type ℓ} {B : Type κ} (Q : A → Machine → Type 0) (R : B → Machine → Type 0) (o : Outcome A)
    (f : A → M B)
    → After Q o
    → ((a : A) → Triple (Q a) (f a) R)
    → After R (elim o [ ok a m' ↦ f a m' | panic p ↦ panic p | hang ↦ hang ])
After-bind Q R (ok a m) f h k = (k a).apply m h
After-bind Q R (panic p) f h k = tt
After-bind Q R hang f h k = h

After-weaken {ℓ} :
    {A : Type ℓ} (Q R : A → Machine → Type 0) (o : Outcome A)
    → ((a : A) (m : Machine) → Q a m → R a m)
    → After Q o
    → After R o
After-weaken Q R (ok a m) w h = w a m h
After-weaken Q R (panic p) w h = tt
After-weaken Q R hang w h = h

After-both {ℓ} :
    {A : Type ℓ} (Q Q' : A → Machine → Type 0) (o : Outcome A)
    → After Q o
    → After Q' o
    → After (λ a m. Q a m × Q' a m) o
After-both Q Q' (ok a m) h k = (h, k)
After-both Q Q' (panic p) h k = tt
After-both Q Q' hang h k = h

-- What an operation keeps apart it keeps together.
pub both {ℓ} :
    {A : Type ℓ} {P P' : Machine → Type 0} {Q Q' : A → Machine → Type 0} {c : M A}
    → Triple P c Q
    → Triple P' c Q'
    → Triple (λ m. P m × P' m) c (λ a m. Q a m × Q' a m)
both {Q = Q} {Q'} {c} h k = record {
  apply = λ m p. After-both Q Q' (c m) (h.apply m p.0) (k.apply m p.1);
}

module _ {ℓ} {A : Type ℓ} {P : Machine → Type 0} where
  pub bind {κ} :
      {B : Type κ} (Q : A → Machine → Type 0) {R : B → Machine → Type 0} {c : M A} {f : A → M B}
      → Triple P c Q
      → ((a : A) → Triple (Q a) (f a) R)
      → Triple P (c >>= f) R
  bind Q {R} {c} {f} h k = record { apply = λ m p. After-bind Q R (c m) f (h.apply m p) k }

  pub branch :
      {Q : A → Machine → Type 0} (b : Bool) {c d : M A}
      → (b ≡ true → Triple P c Q)
      → (b ≡ false → Triple P d Q)
      → Triple P (if b then c else d) Q
  branch true h k = h refl
  branch false h k = k refl

  pub weaken :
      (Q : A → Machine → Type 0) {R : A → Machine → Type 0} {c : M A}
      → ((a : A) (m : Machine) → Q a m → R a m)
      → Triple P c Q
      → Triple P c R
  weaken Q {R} {c} w h = record { apply = λ m p. After-weaken Q R (c m) w (h.apply m p) }

  pub strengthen :
      (P' : Machine → Type 0) {Q : A → Machine → Type 0} {c : M A}
      → ((m : Machine) → P m → P' m)
      → Triple P' c Q
      → Triple P c Q
  strengthen P' w h = record { apply = λ m p. h.apply m (w m p) }

  pub returns :
      {Q : A → Machine → Type 0} (a : A) → ((m : Machine) → P m → Q a m) → Triple P (pure a) Q
  returns a h = record { apply = h }

  pub fails : {Q : A → Machine → Type 0} (p : Panic) → Triple P (fail p) Q
  fails p = record { apply = λ m h. tt }

  -- A step that always succeeds, given by its effect.
  pub always :
      {Q : A → Machine → Type 0} {c : M A} (value : A) (effect : Machine → Machine)
      → ((m : Machine) → c m ≡ ok value (effect m))
      → ((m : Machine) → P m → Q value (effect m))
      → Triple P c Q
  always {Q} value effect e h = record { apply = λ m p. rw (e m) (h m p) }

-- Nothing is asked and nothing is said, but that the operation does not hang.
abbrev pub Anything : Machine → Type 0
Anything _ = Unit {0}

abbrev pub Whatever {ℓ} : {A : Type ℓ} → A → Machine → Type 0
Whatever _ _ = Unit {0}

pub load_ends : (page i : ℕ) → Triple Anything (load page i) Whatever
load_ends page i = record { apply = λ m h. tt }

pub store_ends : (page i w : ℕ) → Triple Anything (store page i w) Whatever
store_ends page i w = record { apply = λ m h. tt }

pub fill_page_ends : (page w : ℕ) → Triple Anything (fill_page page w) Whatever
fill_page_ends page w = record { apply = λ m h. tt }

pub dec_refcount_ends : (pa : ℕ) → Triple Anything (dec_refcount pa) Whatever
dec_refcount_ends pa = record { apply = λ m h. tt }

pub get_refcount_ends : (pa : ℕ) → Triple Anything (get_refcount pa) Whatever
get_refcount_ends pa = record { apply = λ m h. tt }
