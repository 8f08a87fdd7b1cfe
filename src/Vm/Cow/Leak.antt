-- ===== src/Vm/Cow/Leak.antt =====
-- The reference counts of pages under the deep copy of `fork` in vm.c.
use tp2_ronaldo_joaopedro.Common.{
  ℕ, zero, suc, ◌+◌, ◌-◌, ◌/◌, ◌<◌, ◌≤◌, Bool, true, false, Option, none, some, List, [], ◌∷◌,
  update, ◌≡◌, refl, arith, ltb,
}
use tp2_ronaldo_joaopedro.Machine.{
  Machine, M, Kmap, pure, copy_page, ◌>>◌, page_size, kernbase, v2p, add32, sub32, page_not_present,
  pte_should_exist,
}
use tp2_ronaldo_joaopedro.Machine.Triples.{
  After, Triple, bind, branch, returns, fails, strengthen, Anything, Whatever,
}
use tp2_ronaldo_joaopedro.Kalloc.FreeList.{kalloc_then}
use tp2_ronaldo_joaopedro.Vm.Pte.{pte_p, pte_addr, pte_flags, has}
use tp2_ronaldo_joaopedro.Vm.Walk.{Slot, load_pte, walkpgdir, mappages}
use tp2_ronaldo_joaopedro.Vm.Walk.Lookup.{walkpgdir-lookup}
use tp2_ronaldo_joaopedro.Vm.Walk.Counts.{Counts, mappages-Counts}
use tp2_ronaldo_joaopedro.Vm.Uvm.{map_kernel, setupkvm, freevm}
use tp2_ronaldo_joaopedro.Vm.Uvm.Ends.{freevm_ends}
use tp2_ronaldo_joaopedro.Vm.Cow.{present_slot, deep_copy_page, copy_from, copy_rounds, copyuvm}

-- The loop of a copy keeps what each page keeps, and ends, for sizes up to KERNBASE.
pub copy_from-keeps :
    (I : Machine → Type 0) (copy : ℕ → M Bool)
    → ((i : ℕ) → Triple I (copy i) (λ _ m. I m))
    → (fuel i sz : ℕ) → sz ≤ kernbase
    → i ≤ sz + 4096
    → (sz + 4096 - i) / 4096 < fuel
    → Triple I (copy_from copy fuel i sz) (λ _ m. I m)
unfolding copy_from
copy_from-keeps I copy keep zero i sz k b h = absurd (omega arith)
copy_from-keeps I copy keep (suc fuel) i sz k b h =
    branch (ltb i sz)
      (λ e.
        bind (λ _ m. I m) (keep i)
          (elim [
            | false ↦ returns false (λ m i. i)
            | true ↦
                copy_from-keeps I copy keep fuel (add32 i page_size) sz k (ground arith)
                  (ground arith)
          ]))
      (λ _. returns true (λ m i. i))

-- Looking an entry up changes nothing.
pub present_slot-keeps :
    (I : Machine → Type 0) (pgdir i : ℕ) → Triple I (present_slot pgdir i) (λ _ m. I m)
unfolding present_slot
present_slot-keeps I pgdir i =
    bind (λ _ m. I m) walk
      (elim [
        | none ↦ fails pte_should_exist
        | some slot ↦
            bind (λ _ m. I m) (read slot)
              (λ pte.
                branch (has pte pte_p) (λ _. returns slot (λ m h. h)) (λ _. fails page_not_present))
      ])
  where
    walk : Triple I (walkpgdir pgdir i false) (λ _ m. I m)
    walk = record { apply = λ m h. rw (walkpgdir-lookup m pgdir i) h }

    read : (slot : Slot) → Triple I (load_pte slot) (λ _ m. I m)
    read slot = record { apply = λ m h. h }

module _ (c : ℕ → ℕ) where
  -- The counts are `c` where a page directory is returned.
  abbrev pub Kept : Option ℕ → Machine → Type 0
  Kept got m = (d : ℕ) → got ≡ some d → Counts c m

  gives_up : {P : Machine → Type 0} (d : ℕ) → Triple P (freevm d >> pure none) Kept
  gives_up d =
      bind Whatever (strengthen Anything (λ m h. tt) (freevm_ends d))
        (λ _. returns none (λ m h d' e. cc))

  map_kernel-Kept : (d : ℕ) (rows : List Kmap) → Triple (Counts c) (map_kernel d rows) Kept
  unfolding map_kernel
  map_kernel-Kept d [] = returns (some d) (λ m h d' e. h)
  map_kernel-Kept d (k ∷ rest) =
      bind (λ _ m. Counts c m)
        (mappages-Counts c d k.virt (sub32 k.phys_end k.phys_start) k.phys_start k.perm)
        (elim [ true ↦ map_kernel-Kept d rest | false ↦ gives_up d ])

  pub setupkvm-Kept : Triple (Counts c) setupkvm Kept
  unfolding setupkvm
  setupkvm-Kept =
      kalloc_then _ (λ m h _ d e. cc) (λ m d rest h e. (map_kernel-Kept d m.kmap).apply _ h)

  deep_copy_page-Counts :
      (pgdir d i : ℕ) → Triple (Counts c) (deep_copy_page pgdir d i) (λ _ m. Counts c m)
  unfolding deep_copy_page
  deep_copy_page-Counts pgdir d i =
      bind (λ _ m. Counts c m) (present_slot-keeps (Counts c) pgdir i)
        (λ slot.
          bind (λ _ m. Counts c m) (read slot)
            (λ pte.
              kalloc_then
                (elim [
                  | none ↦ pure false
                  | some mem ↦
                      copy_page (v2p mem) (pte_addr pte)
                      >> mappages d i page_size (v2p mem) (pte_flags pte)
                ])
                (λ m h _. h)
                (λ m mem rest h e.
                  (mappages-Counts c d i page_size (v2p mem) (pte_flags pte)).apply
                    (record m {
                      words = update m.words (v2p mem) (m.words (pte_addr pte));
                      freelist = rest;
                    })
                    h)))
    where
      read : (slot : Slot) → Triple (Counts c) (load_pte slot) (λ _ m. Counts c m)
      read slot = record { apply = λ m h. h }

  pub copyuvm-Kept : (pgdir sz : ℕ) → sz ≤ kernbase → Triple (Counts c) (copyuvm pgdir sz) Kept
  unfolding copyuvm copy_rounds
  copyuvm-Kept pgdir sz k = bind Kept setupkvm-Kept (elim [
    | none ↦ returns none (λ m h d e. cc)
    | some d ↦
        bind (λ _ m. Counts c m)
          (strengthen (Counts c) (λ m h. h d refl)
            (copy_from-keeps (Counts c) (deep_copy_page pgdir d) (deep_copy_page-Counts pgdir d)
              (copy_rounds sz) 0 sz k (omega arith) (omega arith)))
          (λ copied. branch copied (λ _. returns (some d) (λ m h d' e. h)) (λ _. gives_up d))
  ])

-- The deep copy, for sizes up to KERNBASE, comes to an end, and where it returns a page directory no
-- reference count has changed: the pages that it gives to the child are not counted.
pub copyuvm_uncounted :
    (m : Machine) (pgdir sz : ℕ)
    → sz ≤ kernbase
    → After (λ got m'. (d : ℕ) → got ≡ some d → m'.pg_refcount ≡ m.pg_refcount) (copyuvm pgdir sz m)
copyuvm_uncounted m pgdir sz k = (copyuvm-Kept m.pg_refcount pgdir sz k).apply m refl
