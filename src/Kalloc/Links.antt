-- ===== src/Kalloc/Links.antt =====
-- xv6/kalloc.c: `kfree` and `kalloc` on the free list that is threaded through the free pages, each of
-- which has the address of the next one in its first word.
pub mod Refine
use tp2_ronaldo_joaopedro.Common.{
  ℕ, Option, none, some, ◌%◌, ◌||◌, ◌!=◌, ltb, leb, update, if◌then◌else◌,
}
use tp2_ronaldo_joaopedro.Machine.{page_size, phystop, v2p}
use tp2_ronaldo_joaopedro.Kalloc.{junk}

-- Memory as in Machine, `kmem.freelist` as the address that it holds, and `end`.
pub record Kmem : Type 0 where
  pub words : ℕ → ℕ → ℕ
  pub freelist : ℕ
  pub kernel_end : ℕ

-- `memset(v, 1, PGSIZE)`
abbrev pub fill : ℕ → Kmem → Kmem
fill v k = record k { words = update k.words (v2p v) (λ _. junk) }

-- `r->next = kmem.freelist; kmem.freelist = r`
abbrev pub push : ℕ → Kmem → Kmem
push v k = record k {
  words = update k.words (v2p v) (update (k.words (v2p v)) 0 k.freelist);
  freelist = v;
}

-- `none` is the panic.
unfoldable pub kfree : ℕ → Kmem → Option Kmem
kfree v k =
    if (v % page_size != 0) || ltb v k.kernel_end || leb phystop (v2p v)
    then none
    else some (push v (fill v k))

-- The result is an address, 0 where the list is empty.
unfoldable pub kalloc : Kmem → ℕ × Kmem
kalloc k =
    let r = k.freelist in if r != 0 then (r, record k { freelist = k.words (v2p r) 0 }) else (r, k)
