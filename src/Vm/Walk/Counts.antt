-- ===== src/Vm/Walk/Counts.antt =====
-- The reference counts of pages under `mappages` in vm.c, whose callers count.
use tp2_ronaldo_joaopedro.Common.{ℕ, true, false, none, some, ◌≡◌, inl, inr, Bool-cases}
use tp2_ronaldo_joaopedro.Machine.{Machine, v2p}
use tp2_ronaldo_joaopedro.Machine.Triples.{Triple, bind, returns}
use tp2_ronaldo_joaopedro.Kalloc.FreeList.{kalloc_then}
use tp2_ronaldo_joaopedro.Vm.Pte.{pte_p, has, pdx}
use tp2_ronaldo_joaopedro.Vm.Walk.{new_table, walkpgdir, map_page, mappages}
use tp2_ronaldo_joaopedro.Vm.Walk.Frame.{mappages-keeps}

module _ (c : ℕ → ℕ) where
  abbrev pub Counts : Machine → Type 0
  Counts m = m.pg_refcount ≡ c

  new_table-Counts : (d va : ℕ) → Triple Counts (new_table d va true) (λ _ m. Counts m)
  unfolding new_table
  new_table-Counts d va = kalloc_then _ (λ m h _. h) (λ m v rest h e. h)

  walkpgdir-Counts : (d va : ℕ) → Triple Counts (walkpgdir d va true) (λ _ m. Counts m)
  unfolding walkpgdir
  walkpgdir-Counts d va = record {
    apply = λ m h. elim (Bool-cases (has (m.words (v2p d) (pdx va)) pte_p)) [
      | inl e ↦ rw e h
      | inr e ↦ rw e ((new_table-Counts d va).apply m h)
    ];
  }

  map_page-Counts : (d a pa perm : ℕ) → Triple Counts (map_page d a pa perm) (λ _ m. Counts m)
  unfolding map_page
  map_page-Counts d a pa perm =
      bind (λ _ m. Counts m) (walkpgdir-Counts d a)
        (elim [
          | none ↦ returns false (λ m h. h)
          | some slot ↦ record {
            apply = λ m h. elim (Bool-cases (has (m.words slot.page slot.index) pte_p)) [
              | inl e ↦ rw e tt
              | inr e ↦ rw e h
            ];
          }
        ])

  pub mappages-Counts :
      (d va size pa perm : ℕ) → Triple Counts (mappages d va size pa perm) (λ _ m. Counts m)
  mappages-Counts d va size pa perm = mappages-keeps Counts d (map_page-Counts d) va size pa perm
