-- ===== src/Bio.antt =====
-- xv6/bio.c: the buffer cache. The ring of buffers is the list of them, the most recently used one
-- first; a buffer is known by its slot in `bcache.buf`. The lock of the cache and those of the
-- buffers are not part of the state.
pub mod Unique
mod Tests
use tp2_ronaldo_joaopedro.Common.{
  ℕ, zero, suc, ◌+◌, ◌-◌, Bool, true, false, not, ◌&&◌, Option, none, some, List, [], ◌∷◌, ◌==◌,
  if◌then◌else◌,
}

-- `struct buf`: `valid` and `dirty` are the flags B_VALID and B_DIRTY.
pub record Buf : Type 0 where
  pub slot : ℕ
  pub dev : ℕ
  pub blockno : ℕ
  pub refcnt : ℕ
  pub valid : Bool
  pub dirty : Bool
  pub words : List ℕ

abbrev pub has_key : ℕ → ℕ → Buf → Bool
has_key dev blockno b = (b.dev == dev) && (b.blockno == blockno)

abbrev pub is_spare : Buf → Bool
is_spare b = (b.refcnt == 0) && not b.dirty

-- The first loop of `bget`: the block is in the cache, and gets another reference.
unfoldable pub find_cached : ℕ → ℕ → List Buf → Option (ℕ × List Buf)
find_cached dev blockno [] = none
find_cached dev blockno (b ∷ bs) =
    let rest : Option (ℕ × List Buf) = elim (find_cached dev blockno bs) [
      | none ↦ none
      | some (i, bs') ↦ some (i, b ∷ bs')
    ] in
    if has_key dev blockno b then some (b.slot, record b { refcnt = b.refcnt + 1 } ∷ bs) else rest

abbrev pub recycled : ℕ → ℕ → Buf → Buf
recycled dev blockno b = record b {
  dev = dev;
  blockno = blockno;
  valid = false;
  dirty = false;
  refcnt = 1;
}

-- The second loop of `bget`, from the least recently used buffer on.
unfoldable pub recycle : ℕ → ℕ → List Buf → Option (ℕ × List Buf)
recycle dev blockno [] = none
recycle dev blockno (b ∷ bs) = elim (recycle dev blockno bs) [
  | some (i, bs') ↦ some (i, b ∷ bs')
  | none ↦ if is_spare b then some (b.slot, recycled dev blockno b ∷ bs) else none
]

-- `none` is the panic.
unfoldable pub bget : ℕ → ℕ → List Buf → Option (ℕ × List Buf)
bget dev blockno bs = elim (find_cached dev blockno bs) [
  | some r ↦ some r
  | none ↦ recycle dev blockno bs
]

-- The buffer of a slot, taken out of the list.
unfoldable pub take_out : ℕ → List Buf → Option (Buf × List Buf)
take_out slot [] = none
take_out slot (b ∷ bs) =
    let rest : Option (Buf × List Buf) = elim (take_out slot bs) [
      | none ↦ none
      | some (c, bs') ↦ some (c, b ∷ bs')
    ] in
    if b.slot == slot then some (b, bs) else rest

unfoldable pub drop_refcnt : ℕ → List Buf → List Buf
drop_refcnt slot [] = []
drop_refcnt slot (b ∷ bs) =
    if b.slot == slot then record b { refcnt = b.refcnt - 1 } ∷ bs else b ∷ drop_refcnt slot bs

-- `brelse` of a buffer that its caller holds: the last reference moves it to the front.
unfoldable pub brelse : ℕ → List Buf → List Buf
brelse slot bs = elim (take_out slot (drop_refcnt slot bs)) [
  | none ↦ bs
  | some (b, rest) ↦ if b.refcnt == 0 then b ∷ rest else drop_refcnt slot bs
]
