-- ===== src/Kalloc/FreeList.antt =====
-- kalloc.c: what `kalloc` and `kfree` do to the list of free pages.
use tp2_ronaldo_joaopedro.Common.{
  ℕ, zero, suc, ◌*◌, update, ◌+◌, ◌%◌, ◌<◌, ◌≤◌, Option, none, some, List, [], ◌∷◌, All, ◌≡◌, ◌≢◌,
  refl, ap, arith,
}
use tp2_ronaldo_joaopedro.Machine.{Machine, M, kernbase, ◌>>=◌, ok, phystop, v2p}
use tp2_ronaldo_joaopedro.Machine.Triples.{Triple, After}
use tp2_ronaldo_joaopedro.Kalloc.{kalloc, take_free, kfree, junk, head_of, freerange_from}

then-After {ℓ} :
    {B : Type ℓ} (R : B → Machine → Type 0) (f : Option ℕ → M B) (m : Machine) (l : List ℕ)
    → (l ≡ [] → After R (f none m))
    → ((v : ℕ) (rest : List ℕ) → l ≡ v ∷ rest → After R (f (some v) (record m { freelist = rest })))
    → After R ((take_free l >>= f) m)
unfolding take_free
then-After R f m [] h k = h refl
then-After R f m (v ∷ rest) h k = k v rest refl

-- An operation that begins with `kalloc`: it fails on the empty list only, and otherwise takes the
-- first page.
pub kalloc_then {ℓ} :
    {B : Type ℓ} {P : Machine → Type 0} {R : B → Machine → Type 0} (f : Option ℕ → M B)
    → ((m : Machine) → P m → m.freelist ≡ [] → After R (f none m))
    → ((m : Machine) (v : ℕ) (rest : List ℕ)
        → P m
        → m.freelist ≡ v ∷ rest
        → After R (f (some v) (record m { freelist = rest })))
    → Triple P (kalloc >>= f) R
unfolding kalloc
kalloc_then {R = R} f h k = record {
  apply = λ m p. then-After R f m m.freelist (h m p) (λ v rest e. k m v rest p e);
}

pub kalloc-cons :
    (m : Machine) (v : ℕ) (rest : List ℕ)
    → m.freelist ≡ v ∷ rest
    → kalloc m ≡ ok (some v) (record m { freelist = rest })
unfolding kalloc take_free
kalloc-cons m v rest e = ap (λ l. take_free l m) e

pub kalloc-nil : (m : Machine) → m.freelist ≡ [] → kalloc m ≡ ok none m
unfolding kalloc take_free
kalloc-nil m e = ap (λ l. take_free l m) e

-- What `kfree` insists on: an aligned page past the kernel, below the top of memory.
pub record IsFreeable (m : Machine) (v : ℕ) : Type 0 where
  pub aligned : v % 4096 ≡ 0
  pub past_kernel : m.kernel_end ≤ v
  pub below_top : v2p v < phystop

-- The page filled with junk but for the link in its first word, and first on the free list.
abbrev pub freed : Machine → ℕ → Machine
freed m v =
    let words = update m.words (v2p v) (λ _. junk) in
    record m {
      words = update words (v2p v) (update (words (v2p v)) 0 (head_of m.freelist));
      freelist = v ∷ m.freelist;
    }

pub kfree_lem : (m : Machine) (v : ℕ) → IsFreeable m v → kfree v m ≡ ok tt (freed m v)
unfolding kfree
kfree_lem m v h = ground arith

-- No page twice.
abbrev pub NotIn : ℕ → List ℕ → Type 0
NotIn v = All (λ u. v ≢ u)

abbrev pub Distinct : List ℕ → Type 0
Distinct [] = Unit {0}
Distinct (v ∷ rest) = NotIn v rest × Distinct rest

-- `n` pages from `p` on, pushed one after the other.
abbrev pub pushed : ℕ → ℕ → List ℕ → List ℕ
pushed p zero l = l
pushed p (suc n) l = pushed (p + 4096) n (p ∷ l)

-- The loop of `freerange`, on aligned addresses of allocatable memory, pushes each page that lies
-- whole before `vend`, and returns.
pub freerange_lem :
    (fuel n p vend : ℕ) (m : Machine)
    → p % 4096 ≡ 0
    → m.kernel_end ≤ p
    → kernbase ≤ p
    → vend ≤ kernbase + phystop
    → p + 4096 * n ≤ vend
    → vend < p + 4096 * n + 4096
    → n < fuel
    → (m' : Machine) × (freerange_from fuel p vend m ≡ ok tt m')
      × (m'.freelist ≡ pushed p n m.freelist)
unfolding freerange_from
freerange_lem zero n p vend m a k b t lo hi f = absurd (omega arith)
freerange_lem (suc fuel) zero p vend m a k b t lo hi f = (m, ground arith, refl)
freerange_lem (suc fuel) (suc n) p vend m a k b t lo hi f =
    let (m', e, l) =
      freerange_lem fuel n (p + 4096) vend (freed m p) (omega arith) (omega arith) (omega arith) t
        (omega arith) (omega arith) (omega arith) in
    (m', ground (arith, kfree_lem m p freeable), l)
  where
    freeable : IsFreeable m p
    freeable = record { aligned = a; past_kernel = k; below_top = omega arith }
