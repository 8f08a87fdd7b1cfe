-- ===== src/Fs/Triples.antt =====
-- Reasoning about the steps of xv6/fs.c by what holds before and after. A triple allows a panic and
-- forbids a hang, so it also says that the loops of the operation end.
use tp2_ronaldo_joaopedro.Common.{
  ℕ, Bool, true, false, if◌then◌else◌, ◌≡◌, ◌≢◌, refl, ap, subst, ◌∙◌, arith, update, ◌==◌, inl,
  inr, Bool-cases,
}
use tp2_ronaldo_joaopedro.Fs.{Fs, Inode, Outcome, ok, stop, hang, F, pure, fail, Stop, ◌>>=◌}

abbrev pub After {ℓ} : {A : Type ℓ} → (A → Fs → Type 0) → Outcome A → Type 0
After Q (ok a s) = Q a s
After Q (stop p) = Unit {0}
After Q hang = ⊥

-- From `P`, the operation `c` gets to `Q` of its result.
pub record Triple {ℓ} {A : Type ℓ} (P : Fs → Type 0) (c : F A) (Q : A → Fs → Type 0) : Type 0 where
  pub apply : (s : Fs) → P s → After Q (c s)

pub After-bind {ℓ κ} :
    {A : Type ℓ} {B : Type κ} (Q : A → Fs → Type 0) (R : B → Fs → Type 0) (o : Outcome A)
    (f : A → F B)
    → After Q o
    → ((a : A) → Triple (Q a) (f a) R)
    → After R (elim o [ ok a s' ↦ f a s' | stop p ↦ stop p | hang ↦ hang ])
After-bind Q R (ok a s) f h k = (k a).apply s h
After-bind Q R (stop p) f h k = tt
After-bind Q R hang f h k = h

pub After-weaken {ℓ} :
    {A : Type ℓ} (Q R : A → Fs → Type 0) (o : Outcome A)
    → ((a : A) (s : Fs) → Q a s → R a s)
    → After Q o
    → After R o
After-weaken Q R (ok a s) w h = w a s h
After-weaken Q R (stop p) w h = tt
After-weaken Q R hang w h = h

module _ {ℓ} {A : Type ℓ} {P : Fs → Type 0} where
  pub bind {κ} :
      {B : Type κ} (Q : A → Fs → Type 0) {R : B → Fs → Type 0} {c : F A} {f : A → F B}
      → Triple P c Q
      → ((a : A) → Triple (Q a) (f a) R)
      → Triple P (c >>= f) R
  bind Q {R} {c} {f} h k = record { apply = λ s p. After-bind Q R (c s) f (h.apply s p) k }

  pub branch :
      {Q : A → Fs → Type 0} (b : Bool) {c d : F A}
      → (b ≡ true → Triple P c Q)
      → (b ≡ false → Triple P d Q)
      → Triple P (if b then c else d) Q
  branch true h k = h refl
  branch false h k = k refl

  pub returns : {Q : A → Fs → Type 0} (a : A) → ((s : Fs) → P s → Q a s) → Triple P (pure a) Q
  returns a h = record { apply = h }

  pub fails : {Q : A → Fs → Type 0} (p : Stop) → Triple P (fail p) Q
  fails p = record { apply = λ s h. tt }

-- The sizes in the inode cache.
abbrev pub Sizes : (ℕ → ℕ) → Fs → Type 0
Sizes f s = (i : ℕ) → (s.inodes i).size ≡ f i

-- An operation that ends and changes no size.
abbrev pub Keeps {ℓ} : {A : Type ℓ} → F A → Type 0
Keeps c = (f : ℕ → ℕ) → Triple (Sizes f) c (λ _. Sizes f)

abbrev pub Anything : Fs → Type 0
Anything _ = Unit {0}

-- An operation that ends.
abbrev pub Ends {ℓ} : {A : Type ℓ} → F A → Type 0
Ends c = Triple Anything c (λ _. Anything)

pub Keeps-Ends {ℓ} : {A : Type ℓ} {c : F A} → Keeps c → Ends c
Keeps-Ends {c} k = record {
  apply = λ s p.
      After-weaken _ _ (c s) (λ a s' h. tt) ((k (λ i. (s.inodes i).size)).apply s (λ i. refl));
}

-- An inode is written whose size stays.
pub put_inode-Sizes :
    (f : ℕ → ℕ) (s : Fs) (i : ℕ) (ip : Inode)
    → ip.size ≡ (s.inodes i).size
    → Sizes f s
    → Sizes f (record s { inodes = update s.inodes i ip })
put_inode-Sizes f s i ip e h j = elim (Bool-cases (i == j)) [
  | inl here ↦ let same : i ≡ j = ground (arith, here) in rw here (e ∙ h i ∙ ap f same)
  | inr other ↦ rw other (h j)
]

pub not_hang : {A : Type 0} (o : Outcome A) → After (λ _. Anything) o → o ≢ hang
not_hang o h e = subst (After (λ _. Anything)) e h
