-- ===== src/Fs/Inodes.antt =====
-- xv6/fs.c: the inode cache and the inodes on the disk, without their contents.
pub mod Cache
pub mod Disk
use tp2_ronaldo_joaopedro.Common.{
  ℕ, zero, suc, ◌+◌, ◌-◌, ◌*◌, ◌/◌, ◌%◌, Bool, true, false, not, ◌&&◌, ◌||◌, Option, none, some,
  ◌==◌, ltb, if◌then◌else◌,
}
use tp2_ronaldo_joaopedro.Fs.{
  Superblock, Inode, F, pure, fail, ◌>>=◌, ◌>>◌, get, Bytes, bread, write_block, put_inode,
  get_inode, get16, put16, get32, put32, fill, get_words, put_words, ninode, no_free_inode,
  icache_full, ilock_unreferenced, ilock_no_type, iunlock_bad, asleep,
}

-- Inodes of a block.
abbrev pub ipb : ℕ
ipb = 8

-- `IBLOCK(i, sb)`
abbrev pub iblock : ℕ → Superblock → ℕ
iblock i sb = i / ipb + sb.inodestart

-- `(struct dinode*)bp->data + inum%IPB`
abbrev pub dinode_at : ℕ → ℕ
dinode_at inum = inum % ipb * 64

-- The loop of `iget`: the slot that has the inode, or else the first empty one.
pub data Search : Type 0 where
  cached : ℕ → Search
  spare : Option ℕ → Search

abbrev pub has_inode : ℕ → ℕ → Inode → Bool
has_inode dev inum ip = ltb 0 ip.ref && (ip.dev == dev) && (ip.inum == inum)

unfoldable pub search : (ℕ → Inode) → ℕ → ℕ → ℕ → ℕ → Option ℕ → Search
search inodes dev inum i zero empty = spare empty
search inodes dev inum i (suc left) empty =
    let rest = search inodes dev inum (i + 1) left in
    if has_inode dev inum (inodes i) then cached i else elim empty [
      | some j ↦ rest (some j)
      | none ↦ if (inodes i).ref == 0 then rest (some i) else rest none
    ]

abbrev pub recycled : ℕ → ℕ → Inode → Inode
recycled dev inum ip = record ip { dev = dev; inum = inum; ref = 1; valid = false }

unfoldable pub idup : ℕ → F ℕ
idup i = do ip ← get_inode i; put_inode i (record ip { ref = ip.ref + 1 }); pure i

abbrev pub claim : ℕ → ℕ → Search → F ℕ
claim dev inum (cached i) = do
  ip ← get_inode i
  put_inode i (record ip { ref = ip.ref + 1 })
  pure i
claim dev inum (spare none) = fail icache_full
claim dev inum (spare (some i)) = do ip ← get_inode i; put_inode i (recycled dev inum ip); pure i

unfoldable pub iget : ℕ → ℕ → F ℕ
iget dev inum = do s ← get; claim dev inum (search s.inodes dev inum 0 ninode none)

-- The loop of `ialloc` over the inode numbers that are left.
unfoldable pub ialloc_from : ℕ → ℕ → ℕ → ℕ → F ℕ
ialloc_from dev type inum zero = fail no_free_inode
ialloc_from dev type inum (suc left) =
    let rest = ialloc_from dev type (inum + 1) left in
    do
      s ← get
      v ← bread (iblock inum s.sb)
      if get16 v (dinode_at inum) == 0
          then write_block (iblock inum s.sb)
              (put16 (fill v (dinode_at inum) 0 64) (dinode_at inum) type)
            >> iget dev inum
          else rest

unfoldable pub ialloc : ℕ → ℕ → F ℕ
ialloc dev type = do s ← get; ialloc_from dev type 1 (s.sb.ninodes - 1)

-- The disk inode of an inode, at `o` in its block.
unfoldable pub encode : Bytes → ℕ → Inode → Bytes
encode v o ip =
    put_words
      (put32
        (put16 (put16 (put16 (put16 v o ip.type) (o + 2) ip.major) (o + 4) ip.minor) (o + 6)
          ip.nlink)
        (o + 8) ip.size)
      (o + 12) ip.addrs

unfoldable pub decode : Bytes → ℕ → Inode → Inode
decode v o ip = record ip {
  type = get16 v o;
  major = get16 v (o + 2);
  minor = get16 v (o + 4);
  nlink = get16 v (o + 6);
  size = get32 v (o + 8);
  addrs = get_words v (o + 12) 13;
  valid = true;
}

unfoldable pub iupdate : ℕ → F (Unit {0})
iupdate i = do
  ip ← get_inode i
  s ← get
  v ← bread (iblock ip.inum s.sb)
  write_block (iblock ip.inum s.sb) (encode v (dinode_at ip.inum) ip)

-- `acquiresleep(&ip->lock)`: on a lock that is held the process sleeps.
abbrev pub acquire_lock : ℕ → F (Unit {0})
acquire_lock i = do
  ip ← get_inode i
  if ip.locked then fail asleep else put_inode i (record ip { locked = true })

abbrev pub release_lock : ℕ → F (Unit {0})
release_lock i = do ip ← get_inode i; put_inode i (record ip { locked = false })

-- The part of `ilock` that reads the inode from the disk.
unfoldable pub read_inode : ℕ → F (Unit {0})
read_inode i = do
  ip ← get_inode i
  s ← get
  v ← bread (iblock ip.inum s.sb)
  put_inode i (decode v (dinode_at ip.inum) ip)
  if get16 v (dinode_at ip.inum) == 0 then fail ilock_no_type else pure tt

unfoldable pub ilock : ℕ → F (Unit {0})
ilock i = do
  ip ← get_inode i
  if ltb ip.ref 1
      then fail ilock_unreferenced
      else do acquire_lock i; if ip.valid then pure tt else read_inode i

unfoldable pub iunlock : ℕ → F (Unit {0})
iunlock i = do
  ip ← get_inode i
  if not ip.locked || ltb ip.ref 1 then fail iunlock_bad else release_lock i
