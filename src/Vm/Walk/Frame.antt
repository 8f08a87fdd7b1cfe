-- ===== src/Vm/Walk/Frame.antt =====
-- What `walkpgdir` and `mappages` in vm.c leave alone in memory.
use tp2_ronaldo_joaopedro.Common.{
  ℕ, zero, suc, ◌/◌, ◌%◌, ◌^◌, ◌<◌, true, false, Option, none, some, List, ◌∷◌, update, All,
  All-uncons, ◌≡◌, ◌≢◌, refl, ◌∙◌, arith, inl, inr, Bool-cases, ◌==◌,
}
use tp2_ronaldo_joaopedro.Machine.{Machine, page_size, v2p, add32, sub32, pg_round_down}
use tp2_ronaldo_joaopedro.Machine.Triples.{Triple, bind, branch, returns}
use tp2_ronaldo_joaopedro.Bits.{bit_and_page}
use tp2_ronaldo_joaopedro.Kalloc.FreeList.{kalloc_then}
use tp2_ronaldo_joaopedro.Vm.Pte.Flags.{addr-pde, addr_of_page, zero-has}
use tp2_ronaldo_joaopedro.Vm.Pte.{pte_p, pte_addr, has, pdx}
use tp2_ronaldo_joaopedro.Vm.Walk.{Slot, pde_of, new_table, walkpgdir, map_page, map_from, mappages}

-- The loop of `mappages` keeps what each round keeps, and ends: from an aligned address it meets
-- the last one after as many rounds as there are pages in between, also across the wrap at 2^32.
module _ (I : Machine → Type 0) (d : ℕ)
    (round : (a pa perm : ℕ) → Triple I (map_page d a pa perm) (λ _ m. I m)) where
  pub map_from-keeps :
      (fuel a last pa perm : ℕ)
      → a % 4096 ≡ 0
      → last % 4096 ≡ 0
      → a < 2 ^ 32
      → last < 2 ^ 32
      → sub32 last a / 4096 < fuel
      → Triple I (map_from fuel d a last pa perm) (λ _ m. I m)
  unfolding map_from
  map_from-keeps zero a last pa perm ha hl la ll h = absurd (omega arith)
  map_from-keeps (suc fuel) a last pa perm ha hl la ll h =
      bind (λ _ m. I m) (round a pa perm)
        (elim [
          | false ↦ returns false (λ m i. i)
          | true ↦
              branch (a == last) (λ _. returns true (λ m i. i))
                (λ ne.
                  map_from-keeps fuel (add32 a page_size) last (add32 pa page_size) perm
                    (omega arith) hl (omega arith) ll (ground arith))
        ])

  pub mappages-keeps : (va size pa perm : ℕ) → Triple I (mappages d va size pa perm) (λ _ m. I m)
  unfolding mappages pg_round_down
  mappages-keeps va size pa perm =
      let last = sub32 (add32 va size) 1 in
      map_from-keeps (suc (sub32 (pg_round_down last) (pg_round_down va) / page_size))
        (pg_round_down va) (pg_round_down last) pa perm (omega (arith, bit_and_page va))
        (omega (arith, bit_and_page last)) (omega (arith, bit_and_page va))
        (omega (arith, bit_and_page last)) (omega arith)

-- `q` is a page that the address space of `d` cannot reach: it is neither free, nor the directory
-- `d`, nor a table of it; and it holds `w`. No table of `d` is the directory itself.
abbrev pub IsOther : ℕ → ℕ → ℕ → Type 0
IsOther d q p = (p ≢ q) × (p ≢ v2p d)

pub record Apart (d q : ℕ) (w : ℕ → ℕ) (m : Machine) : Type 0 where
  pub dir : v2p d ≢ q
  pub tables :
      (i : ℕ) → has (m.words (v2p d) i) pte_p ≡ true → IsOther d q (pte_addr (m.words (v2p d) i))
  pub free : All (λ v. (v % 4096 ≡ 0) × IsOther d q (v2p v)) m.freelist
  pub contents : (j : ℕ) → m.words q j ≡ w j

-- The directory at page `dp` when the page `vp` is cleared and entered as a table of it.
abbrev pub with_table : (ℕ → ℕ → ℕ) → ℕ → ℕ → ℕ → ℕ → ℕ → ℕ → ℕ
with_table words dp vp i pde =
    let cleared = update words vp (λ _. 0) in update cleared dp (update (cleared dp) i pde)

tables-with_table :
    (words : ℕ → ℕ → ℕ) (dp vp i pde q k : ℕ)
    → (has (words dp k) pte_p ≡ true → (pte_addr (words dp k) ≢ q) × (pte_addr (words dp k) ≢ dp))
    → (pte_addr pde ≢ q) × (pte_addr pde ≢ dp)
    → has (with_table words dp vp i pde dp k) pte_p ≡ true
    → (pte_addr (with_table words dp vp i pde dp k) ≢ q)
      × (pte_addr (with_table words dp vp i pde dp k) ≢ dp)
tables-with_table words dp vp i pde q k h ne p = ground (arith, zero-has pte_p)

contents-with_table :
    (words : ℕ → ℕ → ℕ) (dp vp i pde q j : ℕ)
    → dp ≢ q
    → vp ≢ q
    → with_table words dp vp i pde q j ≡ words q j
contents-with_table words dp vp i pde q j h k = ground arith

-- A free page is a page.
pub v2p_page : (v : ℕ) → v % 4096 ≡ 0 → (v2p v % 4096 ≡ 0) × (v2p v < 2 ^ 32)
v2p_page v h = omega arith

pub addr-v2p : (v : ℕ) → v % 4096 ≡ 0 → pte_addr (v2p v) ≡ v2p v
addr-v2p v h = addr_of_page (v2p v) (v2p_page v h).0 (v2p_page v h).1

-- A free page that becomes a table of the address space is not `q`.
Apart-new_table :
    (d q : ℕ) (w : ℕ → ℕ) (m : Machine) (i v : ℕ) (rest : List ℕ)
    → m.freelist ≡ v ∷ rest
    → Apart d q w m
    → Apart d q w
        (record m { freelist = rest; words = with_table m.words (v2p d) (v2p v) i (pde_of v) })
      × IsOther d q (v2p v)
Apart-new_table d q w m i v rest e h =
    let f = All-uncons _ e h.free in
    (
      record {
        dir = h.dir;
        tables = λ k.
            tables-with_table m.words (v2p d) (v2p v) i (pde_of v) q k (h.tables k)
              (rw (addr-pde (v2p v) (addr-v2p v f.0.0)) f.0.1);
        free = f.1;
        contents = λ j.
            contents-with_table m.words (v2p d) (v2p v) i (pde_of v) q j h.dir f.0.1.0
            ∙ h.contents j;
      },
      f.0.1,
    )

-- Writing an entry of another page, not the directory, changes none of it.
Apart-store :
    (d q : ℕ) (w : ℕ → ℕ) (m : Machine) (page i v : ℕ)
    → IsOther d q page
    → Apart d q w m
    → Apart d q w (record m { words = update m.words page (update (m.words page) i v) })
Apart-store d q w m page i v ne h = record {
  dir = h.dir;
  tables = λ k. ground (arith, h.tables k);
  free = h.free;
  contents = λ j. ground (arith, h.contents j);
}

module _ (d q : ℕ) (w : ℕ → ℕ) where
  abbrev Found : Option Slot → Machine → Type 0
  Found got m = Apart d q w m × ((s : Slot) → got ≡ some s → IsOther d q s.page)

  new_table-Apart : (va : ℕ) → Triple (Apart d q w) (new_table d va true) Found
  unfolding new_table
  new_table-Apart va =
      kalloc_then _ (λ m h _. (h, λ s e. cc))
        (λ m v rest h e.
          let fresh = Apart-new_table d q w m (pdx va) v rest e h in
          (fresh.0, λ s p. ground (arith, fresh.1)))

  -- The page of an entry found in the address space of `d` is not `q`.
  walkpgdir-Apart : (va : ℕ) → Triple (Apart d q w) (walkpgdir d va true) Found
  unfolding walkpgdir
  walkpgdir-Apart va = record {
    apply = λ m h. elim (Bool-cases (has (m.words (v2p d) (pdx va)) pte_p)) [
      | inl e ↦ rw e (h, λ s p. ground (arith, h.tables (pdx va) e))
      | inr e ↦ rw e ((new_table-Apart va).apply m h)
    ];
  }

  map_page-Apart :
      (a pa perm : ℕ) → Triple (Apart d q w) (map_page d a pa perm) (λ _ m. Apart d q w m)
  unfolding map_page
  map_page-Apart a pa perm = bind Found (walkpgdir-Apart a) (elim [
    | none ↦ returns false (λ m h. h.0)
    | some slot ↦ record {
      apply = λ m h. elim (Bool-cases (has (m.words slot.page slot.index) pte_p)) [
        | inl e ↦ rw e tt
        | inr e ↦ rw e (Apart-store d q w m slot.page slot.index _ (h.1 slot refl) h.0)
      ];
    }
  ])

  -- `mappages` on the address space of `d` writes no page apart from it, and it ends.
  pub mappages-Apart :
      (va size pa perm : ℕ)
      → Triple (Apart d q w) (mappages d va size pa perm) (λ _ m. Apart d q w m)
  mappages-Apart va size pa perm = mappages-keeps (Apart d q w) d map_page-Apart va size pa perm
