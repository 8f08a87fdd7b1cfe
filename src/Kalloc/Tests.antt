-- ===== src/Kalloc/Tests.antt =====
-- The kalloc.c theorem at a machine whose kernel ends at 0x80300000, with one free page.
use tp2_ronaldo_joaopedro.Common.{
  ℕ, none, some, [], ◌∷◌, true, All, Option, ◌≡◌, ◌≢◌, ◌⊎◌, refl, arith, update,
}
use tp2_ronaldo_joaopedro.Machine.{Machine, ok, panic, kfree_bad, v2p}
use tp2_ronaldo_joaopedro.Kalloc
use tp2_ronaldo_joaopedro.Kalloc.Links.{kfree, kalloc}
use tp2_ronaldo_joaopedro.Kalloc.Links.Refine.{IsThreaded, kmem, pointer, kmem_refines}

abbrev booted : Machine
booted = record {
  words = λ _ _. 0;
  freelist = 0x80301000 ∷ [];
  use_lock = true;
  pg_refcount = λ _. 0;
  cr3 = 0;
  kernel_end = 0x80300000;
  kmap = [];
}

booted-IsThreaded : IsThreaded booted 0x80301000
booted-IsThreaded = record {
  chain = (refl, refl);
  pages = (
    (
      record { aligned = omega arith; past_kernel = omega arith; below_top = omega arith },
      omega arith,
    ),
    tt,
  );
  once = (tt, tt);
}

kmem_refines_example :
    (((Kalloc.kfree 0x80302000 booted ≡ panic kfree_bad)
        × (kfree 0x80302000 (kmem booted 0x80301000) ≡ none))
      ⊎ ((m' : Machine) × (Kalloc.kfree 0x80302000 booted ≡ ok tt m')
          × (kfree 0x80302000 (kmem booted 0x80301000) ≡ some (kmem m' 0x80302000))
          × (m'.freelist ≡ 0x80302000 ∷ 0x80301000 ∷ [])
          × IsThreaded m' 0x80302000))
    × ((r : Option ℕ) × (m' : Machine) × (a' : ℕ) × (Kalloc.kalloc booted ≡ ok r m')
        × (kalloc (kmem booted 0x80301000) ≡ (pointer r, kmem m' a'))
        × (0x80301000 ∷ [] ≡ (elim r [ none ↦ [] | some u ↦ u ∷ m'.freelist ]))
        × IsThreaded m' a')
    × ((t : ℕ) (page : ℕ → ℕ)
        → All (λ u. v2p u ≢ t) (0x80301000 ∷ [])
        → IsThreaded (record booted { words = update booted.words t page }) 0x80301000)
kmem_refines_example =
    kmem_refines booted 0x80301000 0x80302000 booted-IsThreaded (omega arith) (omega arith)
