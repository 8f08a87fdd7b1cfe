-- ===== src/Vm/Tests.antt =====
-- The vm.c theorems at a small machine: one page directory at 0x400000, with one page table at
-- 0x401000, and one user page at 0x402000 that two processes share.
use tp2_ronaldo_joaopedro.Common.{
  ℕ, ◌+◌, ◌<◌, true, false, Option, some, [], ◌∷◌, ◌≡◌, refl, arith, ◌==◌, if◌then◌else◌,
}
use tp2_ronaldo_joaopedro.Machine.{Machine, Outcome, panic, hang, pg_round_down, ok, kernbase}
use tp2_ronaldo_joaopedro.Machine.Triples.{After, Anything, Whatever, Triple}
use tp2_ronaldo_joaopedro.Kalloc.{kalloc, take_free}
use tp2_ronaldo_joaopedro.Vm.Pte.{pte_p, pte_w, pte_u, pte_addr, pte_flags, has, pdx, ptx}
use tp2_ronaldo_joaopedro.Vm.Walk.{Slot, walkpgdir, mappages, map_from, map_page, new_table}
use tp2_ronaldo_joaopedro.Vm.Walk.Frame.{Apart, mappages-Apart}
use tp2_ronaldo_joaopedro.Vm.Walk.Lookup.{slot_of}
use tp2_ronaldo_joaopedro.Vm.Uvm.{deallocuvm, setupkvm, map_kernel}
use tp2_ronaldo_joaopedro.Vm.Uvm.Ends.{deallocuvm_ends}
use tp2_ronaldo_joaopedro.Vm.Cow.{
  resumed, cow_fault, user_fault, pagefault, share_page, copyuvm, copy_from, deep_copy_page,
  present_slot, copy_rounds,
}
use tp2_ronaldo_joaopedro.Vm.Cow.PageFault.{entry, copied}
use tp2_ronaldo_joaopedro.Vm.Cow.Isolation.{Separate, Isolated, pagefault-Isolated}
use tp2_ronaldo_joaopedro.Vm.Cow.Leak.{copyuvm_uncounted}
use tp2_ronaldo_joaopedro.Vm.Cow.Share.{SharedBy, share_page-SharedBy}

abbrev dir : ℕ
dir = 0x80400000

abbrev small_words : ℕ → ℕ → ℕ
small_words page i =
    if page == 0x400000
    then (if i == 0 then 0x401007 else 0)
    else if page == 0x401000
    then (if i == 0 then 0x402405 else 0)
    else if page == 0x402000
    then i + 7
    else 0

abbrev small : Machine
small = record {
  words = small_words;
  freelist = 0x80403000 ∷ 0x80404000 ∷ 0x80405000 ∷ [];
  use_lock = true;
  pg_refcount = λ f. if f == 0x402 then 2 else 0;
  cr3 = 0;
  kernel_end = 0x80300000;
  kmap = [];
}

abbrev small_slot : Slot
small_slot = record { page = 0x401000; index = 0 }

small_found : slot_of small dir 0 ≡ some small_slot
unfolding has pte_addr pdx ptx
small_found = refl

small-Separate : Separate small small_slot
unfolding pte_addr
small-Separate = omega arith

small_faults :
    pagefault (some dir) 12 small
    ≡ ok resumed (copied small dir small_slot 0x80403000 (0x80404000 ∷ 0x80405000 ∷ []))
unfolding pagefault user_fault cow_fault walkpgdir kalloc take_free has pte_addr pdx ptx
small_faults = refl

pagefault-Isolated_example :
    (12 < kernbase)
    × (has (entry small small_slot) pte_p ≡ true)
    × (has (entry small small_slot) pte_u ≡ true)
    × (has (entry small small_slot) pte_w ≡ false)
    × Isolated small small_slot
        (copied small dir small_slot 0x80403000 (0x80404000 ∷ 0x80405000 ∷ []))
unfolding pdx ptx
pagefault-Isolated_example =
    pagefault-Isolated small dir 12 small_slot
      (copied small dir small_slot 0x80403000 (0x80404000 ∷ 0x80405000 ∷ [])) small_found
      small-Separate small_faults

-- The machine that an operation returns with.
abbrev machine_of {ℓ} : {A : Type ℓ} → Outcome A → Machine
machine_of (ok a m) = m
machine_of (panic p) = small
machine_of hang = small

abbrev deep : Outcome (Option ℕ)
deep = copyuvm dir 4096 small

small_copies : copyuvm dir 4096 small ≡ ok (some 0x80403000) (machine_of deep)
unfolding copyuvm copy_from copy_rounds deep_copy_page present_slot mappages map_from map_page
    walkpgdir new_table setupkvm map_kernel kalloc take_free has pte_addr pte_flags pdx ptx
    pg_round_down
small_copies = refl

copyuvm_uncounted_example :
    After
      (λ got m'. (d : ℕ) → got ≡ some d → m'.pg_refcount ≡ small.pg_refcount)
      (copyuvm dir 4096 small)
copyuvm_uncounted_example = copyuvm_uncounted small dir 4096 (omega arith)

deallocuvm_ends_example : Triple Anything (deallocuvm dir 4096 0) Whatever
deallocuvm_ends_example = deallocuvm_ends dir 4096 0 (omega arith)

-- An empty directory for a child, at 0x403000.
abbrev forking : Machine
forking = record small { freelist = 0x80404000 ∷ 0x80405000 ∷ [] }

forking-Apart : Apart 0x80403000 0x401000 (small_words 0x401000) forking
unfolding has
forking-Apart = record {
  dir = omega arith;
  tables = λ i e. cc;
  free = omega arith;
  contents = λ j. refl;
}

small_present : has (entry forking small_slot) pte_p ≡ true
unfolding has
small_present = refl

share_page-SharedBy_example :
    After
      (λ copied m'. copied ≡ true → SharedBy forking small_slot m')
      (share_page dir 0x80403000 0 forking)
share_page-SharedBy_example =
    share_page-SharedBy dir 0x80403000 0 forking small_slot small_found small_present forking-Apart

mappages-Apart_example :
    Triple
      (Apart 0x80403000 0x401000 (small_words 0x401000))
      (mappages 0x80403000 0 4096 0x402000 6)
      (λ _ m. Apart 0x80403000 0x401000 (small_words 0x401000) m)
mappages-Apart_example = mappages-Apart 0x80403000 0x401000 (small_words 0x401000) 0 4096 0x402000 6
