-- ===== src/Fs/Blocks.antt =====
-- xv6/fs.c: the superblock and the allocator of disk blocks, whose bitmap has a bit per block.
pub mod Bit
pub mod Bitmap
pub mod Ends
use tp2_ronaldo_joaopedro.Common.{
  ℕ, zero, suc, ◌+◌, ◌-◌, ◌/◌, ◌%◌, ◌^◌, min, bit_and, bit_or, Bool, Option, none, some, ◌==◌, ltb,
  update, if◌then◌else◌,
}
use tp2_ronaldo_joaopedro.Fs.{
  Superblock, F, ok, hang, pure, fail, ◌>>=◌, ◌>>◌, get, Bytes, bread, write_block, get32, fill,
  bsize, out_of_blocks, freeing_free,
}

-- Bits of a bitmap block.
abbrev pub bpb : ℕ
bpb = 4096

-- `BBLOCK(b, sb)`
abbrev pub bblock : ℕ → Superblock → ℕ
bblock b sb = b / bpb + sb.bmapstart

-- `memmove(sb, bp->data, sizeof(*sb))`
abbrev decode_sb : Bytes → Superblock
decode_sb v = record {
  size = get32 v 0;
  nblocks = get32 v 4;
  ninodes = get32 v 8;
  nlog = get32 v 12;
  logstart = get32 v 16;
  inodestart = get32 v 20;
  bmapstart = get32 v 24;
}

unfoldable pub readsb : F (Unit {0})
readsb s = ok tt (record s { sb = decode_sb (s.blocks 1) })

unfoldable pub bzero : ℕ → F (Unit {0})
bzero bno = do v ← bread bno; write_block bno (fill v 0 0 bsize)

-- `(data[bi/8] & m) == 0`
unfoldable pub is_free : Bytes → ℕ → Bool
is_free v bi = bit_and (v (bi / 8)) (2 ^ (bi % 8)) == 0

-- `data[bi/8] |= m` and `data[bi/8] &= ~m`
unfoldable pub mark : Bytes → ℕ → Bytes
mark v bi = update v (bi / 8) (bit_or (v (bi / 8)) (2 ^ (bi % 8)))

unfoldable pub unmark : Bytes → ℕ → Bytes
unmark v bi = update v (bi / 8) (bit_and (v (bi / 8)) (255 - 2 ^ (bi % 8)))

-- The inner loop of `balloc`, over the bits that are left.
unfoldable pub find_free : Bytes → ℕ → ℕ → Option ℕ
find_free v bi zero = none
find_free v bi (suc left) =
    let rest = find_free v (bi + 1) left in if is_free v bi then some bi else rest

unfoldable pub take_block : ℕ → ℕ → F ℕ
unfolding bzero
take_block b bi = do
  s ← get
  v ← bread (bblock b s.sb)
  write_block (bblock b s.sb) (mark v bi)
  bzero (b + bi)
  pure (b + bi)

-- The outer loop, with fuel.
unfoldable pub balloc_from : ℕ → ℕ → F ℕ
balloc_from zero b = λ s. hang
balloc_from (suc fuel) b =
    let rest = balloc_from fuel (b + bpb) in
    do
      s ← get
      if ltb b s.sb.size
          then elim (find_free (s.blocks (bblock b s.sb)) 0 (min bpb (s.sb.size - b))) [
            | some bi ↦ take_block b bi
            | none ↦ rest
          ]
          else fail out_of_blocks

unfoldable pub balloc : F ℕ
balloc = do s ← get; balloc_from (s.sb.size / bpb + 2) 0

-- The part of `bfree` after `readsb`.
unfoldable pub clear_block : ℕ → F (Unit {0})
clear_block b = do
  s ← get
  v ← bread (bblock b s.sb)
  if is_free v (b % bpb)
      then fail freeing_free
      else write_block (bblock b s.sb) (unmark v (b % bpb))

unfoldable pub bfree : ℕ → F (Unit {0})
unfolding readsb clear_block
bfree b = readsb >> clear_block b
