-- ===== src/Vm/Cow/Share.antt =====
-- Sharing a page, one round of `copyuvmcow` in vm.c.
use tp2_ronaldo_joaopedro.Common.{
  ℕ, ◌+◌, ◌/◌, ◌%◌, bit_and, bit_or, Bool, true, false, not, some, update, written, ◌≡◌, ◌≢◌, refl,
  ap, ap₂, ◌∙◌, arith, if◌then◌else◌,
}
use tp2_ronaldo_joaopedro.Machine.{Machine, ok, M, pure, ◌>>=◌, ◌>>◌, page_size, inc_refcount}
use tp2_ronaldo_joaopedro.Machine.Triples.{After, Triple, bind, both}
use tp2_ronaldo_joaopedro.Vm.Pte.{pte_p, pte_cow, not_w, pte_addr, pte_flags, has}
use tp2_ronaldo_joaopedro.Vm.Pte.Flags.{clear_w-addr}
use tp2_ronaldo_joaopedro.Vm.Walk.{Slot, load_pte, store_pte, mappages}
use tp2_ronaldo_joaopedro.Vm.Walk.Frame.{Apart, mappages-Apart}
use tp2_ronaldo_joaopedro.Vm.Walk.Lookup.{slot_of, walkpgdir-lookup}
use tp2_ronaldo_joaopedro.Vm.Walk.Counts.{Counts, mappages-Counts}
use tp2_ronaldo_joaopedro.Vm.Cow.{present_slot, share_page}
use tp2_ronaldo_joaopedro.Vm.Cow.PageFault.{entry, sharers}

-- The entry that a shared page has for the parent.
abbrev pub shared_entry : ℕ → ℕ
shared_entry pte = bit_or (bit_and pte not_w) pte_cow

module _ (m : Machine) (slot : Slot) where
  -- The table of `slot` when the entry has lost its write bit.
  abbrev table_words : ℕ → ℕ
  table_words = update (m.words slot.page) slot.index (bit_and (entry m slot) not_w)

  abbrev read_only : Machine
  read_only = record m { words = update m.words slot.page table_words }

  abbrev flags_of : ℕ
  flags_of = pte_flags (bit_and (entry m slot) not_w)

  abbrev addr_of : ℕ
  addr_of = pte_addr (bit_and (entry m slot) not_w)

-- The rest of the round, once the child has the page or has run out of memory.
abbrev after_map : Slot → ℕ → Bool → M Bool
after_map slot pa mapped =
    if not mapped
    then pure false
    else (load_pte slot >>= λ pte'.
        store_pte slot (bit_or pte' pte_cow) >> (inc_refcount pa >> pure true))

module _ (pgdir d i : ℕ) (m : Machine) (slot : Slot) (found : slot_of m pgdir i ≡ some slot) where
  pub present_slot-found : has (entry m slot) pte_p ≡ true → present_slot pgdir i m ≡ ok slot m
  unfolding present_slot
  present_slot-found e = ground (arith, walkpgdir-lookup m pgdir i)

  share_page_unfolds :
      has (entry m slot) pte_p ≡ true
      → share_page pgdir d i m
        ≡ (mappages d i page_size (addr_of m slot) (flags_of m slot)
              >>= after_map slot (addr_of m slot))
            (read_only m slot)
  unfolding share_page
  share_page_unfolds e = ground (arith, present_slot-found e)

-- What sharing the page of `slot` has done to the parent and to the counts: the entry is read-only
-- and marked, the rest of its page table is as it was, and the page has one more reference.
pub record SharedBy (m : Machine) (slot : Slot) (m' : Machine) : Type 0 where
  pub parent : entry m' slot ≡ shared_entry (entry m slot)
  pub table : (j : ℕ) → j ≢ slot.index → m'.words slot.page j ≡ m.words slot.page j
  pub counted :
      m'.pg_refcount
      ≡ update m.pg_refcount
          (pte_addr (entry m slot) / 4096)
          ((sharers m (pte_addr (entry m slot)) + 1) % 256)

module _ (d : ℕ) (m : Machine) (slot : Slot) where
  abbrev Mapped : Machine → Type 0
  Mapped m' = Apart d slot.page (table_words m slot) m' × Counts m.pg_refcount m'

  abbrev Shares : Bool → Machine → Type 0
  Shares copied m' = copied ≡ true → SharedBy m slot m'

  Apart-read_only : Apart d slot.page (m.words slot.page) m → Mapped (read_only m slot)
  Apart-read_only h = (
    record {
      dir = h.dir;
      tables = λ k. ground (arith, h.tables k);
      free = h.free;
      contents = λ j. ground arith;
    },
    refl,
  )

  at_index : table_words m slot slot.index ≡ bit_and (entry m slot) not_w
  at_index = ground arith

  after_map-Shares : (mapped : Bool) → Triple Mapped (after_map slot (addr_of m slot) mapped) Shares
  after_map-Shares false = record { apply = λ m' h e. cc }
  after_map-Shares true = record {
    apply = λ m' h e. record {
      parent =
          written m'.words slot.page slot.index _
          ∙ ap (λ t. bit_or t pte_cow) (h.0.contents slot.index ∙ at_index);
      table = λ j ne. ground (arith, h.0.contents j);
      counted =
          ap₂ (λ (c : ℕ → ℕ) (pa : ℕ). update c (pa / 4096) ((c (pa / 4096) + 1) % 256)) h.1
            (clear_w-addr (entry m slot));
    };
  }

-- One round of the copy-on-write copy, for a present page of the parent whose page table the child
-- cannot reach: it ends, and where it succeeds the parent's entry is read-only and marked
-- copy-on-write, the rest of the parent's page table is unchanged, and the page has exactly one
-- more reference while every other count stays.
pub share_page-SharedBy :
    (pgdir d i : ℕ) (m : Machine) (slot : Slot)
    → slot_of m pgdir i ≡ some slot
    → has (entry m slot) pte_p ≡ true
    → Apart d slot.page (m.words slot.page) m
    → After (λ copied m'. copied ≡ true → SharedBy m slot m') (share_page pgdir d i m)
share_page-SharedBy pgdir d i m slot found p h = rw (share_page_unfolds pgdir d i m slot found p) (
    (bind (λ _ m'. Mapped d m slot m')
        (both
          (mappages-Apart d slot.page (table_words m slot) i page_size (addr_of m slot)
            (flags_of m slot))
          (mappages-Counts m.pg_refcount d i page_size (addr_of m slot) (flags_of m slot)))
        (after_map-Shares d m slot)).apply
      (read_only m slot) (Apart-read_only d m slot h))
