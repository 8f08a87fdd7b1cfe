-- ===== src/Fs/Contents.antt =====
-- xv6/fs.c: the contents of an inode: `bmap`, `itrunc`, `readi`, `writei`, and `iput`, which
-- truncates.
pub mod Mapped
pub mod Reads
pub mod Writes
pub mod Ends
use tp2_ronaldo_joaopedro.Common.{
  ℕ, zero, suc, ◌+◌, ◌-◌, ◌*◌, ◌/◌, ◌%◌, min, Bool, true, false, ◌&&◌, ◌||◌, Option, none, some,
  List, [], ◌∷◌, ◌++◌, get_or, set, ◌==◌, ltb, leb, if◌then◌else◌,
}
use tp2_ronaldo_joaopedro.Machine.{add32}
use tp2_ronaldo_joaopedro.Fs.{
  Inode, F, hang, pure, fail, ◌>>=◌, ◌>>◌, get, Bytes, bread, write_block, put_inode, get_inode,
  get32, put32, bsize, ndirect, nindirect, maxfile, t_dev, bmap_out_of_range,
}
use tp2_ronaldo_joaopedro.Fs.Blocks.{balloc, bfree}
use tp2_ronaldo_joaopedro.Fs.Inodes.{iupdate, iunlock, acquire_lock, release_lock}

-- The result -1 of an `int` function.
abbrev pub minus_one : ℕ
minus_one = 0xffffffff

abbrev pub ndev : ℕ
ndev = 10

-- `ip->addrs[k]`, allocated when it is 0.
unfoldable pub own_block : ℕ → ℕ → F ℕ
own_block i k = do
  ip ← get_inode i
  if get_or ip.addrs k 0 == 0
      then (do
        addr ← balloc
        now ← get_inode i
        put_inode i (record now { addrs = set now.addrs k addr })
        pure addr)
      else pure (get_or ip.addrs k 0)

-- `a[k]` of the indirect block `addr`, allocated when it is 0.
unfoldable pub indirect_block : ℕ → ℕ → F ℕ
indirect_block addr k = do
  v ← bread addr
  if get32 v (4 * k) == 0
      then (do new ← balloc; now ← bread addr; write_block addr (put32 now (4 * k) new); pure new)
      else pure (get32 v (4 * k))

unfoldable pub bmap : ℕ → ℕ → F ℕ
unfolding own_block indirect_block
bmap i bn =
    if ltb bn ndirect
    then own_block i bn
    else if ltb (bn - ndirect) nindirect
    then (do addr ← own_block i ndirect; indirect_block addr (bn - ndirect))
    else fail bmap_out_of_range

-- The loops of `itrunc` over the entries that are left.
unfoldable pub free_direct : ℕ → ℕ → ℕ → F (Unit {0})
free_direct i k zero = pure tt
free_direct i k (suc left) =
    let rest = free_direct i (k + 1) left in
    do
      ip ← get_inode i
      if get_or ip.addrs k 0 == 0 then rest else (do
        bfree (get_or ip.addrs k 0)
        put_inode i (record ip { addrs = set ip.addrs k 0 })
        rest)

unfoldable pub free_indirect : ℕ → ℕ → ℕ → F (Unit {0})
free_indirect addr j zero = pure tt
free_indirect addr j (suc left) =
    let rest = free_indirect addr (j + 1) left in
    do v ← bread addr; if get32 v (4 * j) == 0 then rest else bfree (get32 v (4 * j)) >> rest

unfoldable pub itrunc : ℕ → F (Unit {0})
unfolding free_direct free_indirect
itrunc i = do
  free_direct i 0 ndirect
  ip ← get_inode i
  if get_or ip.addrs ndirect 0 == 0 then pure tt else (do
    free_indirect (get_or ip.addrs ndirect 0) 0 nindirect
    bfree (get_or ip.addrs ndirect 0)
    put_inode i (record ip { addrs = set ip.addrs ndirect 0 }))
  now ← get_inode i
  put_inode i (record now { size = 0 })
  iupdate i

-- The part of `iput` for an inode without links and without other references.
unfoldable pub free_inode : ℕ → F (Unit {0})
unfolding itrunc
free_inode i = do
  itrunc i
  ip ← get_inode i
  put_inode i (record ip { type = 0 })
  iupdate i
  now ← get_inode i
  put_inode i (record now { valid = false })

-- The part of `iput` under the lock, and what follows it. The caller holds a reference, so the count
-- does not go below 0.
unfoldable pub put_locked : ℕ → F (Unit {0})
unfolding free_inode
put_locked i = do
  ip ← get_inode i
  if ip.valid && (ip.nlink == 0) && (ip.ref == 1) then free_inode i else pure tt
  release_lock i
  now ← get_inode i
  put_inode i (record now { ref = now.ref - 1 })

unfoldable pub iput : ℕ → F (Unit {0})
unfolding put_locked
iput i = acquire_lock i >> put_locked i

unfoldable pub iunlockput : ℕ → F (Unit {0})
unfolding iput
iunlockput i = do iunlock i; iput i

-- `struct stat`
pub record Stat : Type 0 where
  pub dev : ℕ
  pub ino : ℕ
  pub type : ℕ
  pub nlink : ℕ
  pub size : ℕ

unfoldable pub stati : Inode → Stat
stati ip = record { dev = ip.dev; ino = ip.inum; type = ip.type; nlink = ip.nlink; size = ip.size }

-- `m` bytes of a buffer from `o` on.
abbrev pub slice : Bytes → ℕ → ℕ → List ℕ
slice v o zero = []
slice v o (suc m) = v o ∷ slice v (o + 1) m

-- The length of the next piece at offset `off`, of `n` bytes that are left.
abbrev pub piece : ℕ → ℕ → ℕ
piece off n = min n (bsize - off % bsize)

-- The loop of `readi`, with fuel, for `n` bytes that are left.
unfoldable pub read_from : ℕ → ℕ → ℕ → ℕ → F (List ℕ)
read_from zero i off n = λ s. hang
read_from (suc fuel) i off n =
    let more = read_from fuel i (off + piece off n) (n - piece off n) in
    if ltb 0 n
    then (do
      b ← bmap i (off / bsize)
      v ← bread b
      later ← more
      pure (slice v (off % bsize) (piece off n) ++ later))
    else pure []

-- `ip->major < 0 || ip->major >= NDEV`
abbrev pub bad_major : ℕ → Bool
bad_major major = leb 0x8000 major || leb ndev major

-- The result, and the bytes put at `dst`.
unfoldable pub readi : ℕ → ℕ → ℕ → F (ℕ × List ℕ)
unfolding read_from
readi i off n = do
  ip ← get_inode i
  s ← get
  if ip.type == t_dev
      then (if bad_major ip.major then pure (minus_one, []) else elim ((s.devsw ip.major).read) [
        | none ↦ pure (minus_one, [])
        | some read ↦ pure (read i n)
      ])
      else if ltb ip.size off || ltb (add32 off n) off
      then pure (minus_one, [])
      else (do
        let len = if ltb ip.size (off + n) then ip.size - off else n
        bytes ← read_from (suc len) i off len
        pure (len, bytes))

-- `memmove(v + o, src + tot, m)`
abbrev pub put_bytes : Bytes → ℕ → Bytes → ℕ → ℕ → Bytes
put_bytes v o src tot m k = if leb o k && ltb k (o + m) then src (tot + (k - o)) else v k

-- The loop of `writei`, with fuel; `tot` bytes of `src` are written and `n` are left.
unfoldable pub write_from : ℕ → ℕ → Bytes → ℕ → ℕ → ℕ → F (Unit {0})
write_from zero i src tot off n = λ s. hang
write_from (suc fuel) i src tot off n =
    let more = write_from fuel i src (tot + piece off n) (off + piece off n) (n - piece off n) in
    if ltb 0 n
    then (do
      b ← bmap i (off / bsize)
      v ← bread b
      write_block b (put_bytes v (off % bsize) src tot (piece off n))
      more)
    else pure tt

unfoldable pub grow : ℕ → ℕ → F (Unit {0})
grow i off = do ip ← get_inode i; put_inode i (record ip { size = off }); iupdate i

unfoldable pub writei : ℕ → Bytes → ℕ → ℕ → F ℕ
unfolding write_from grow
writei i src off n = do
  ip ← get_inode i
  s ← get
  if ip.type == t_dev
      then (if bad_major ip.major then pure minus_one else elim ((s.devsw ip.major).write) [
        | none ↦ pure minus_one
        | some write ↦ pure (write i (slice src 0 n))
      ])
      else if ltb ip.size off || ltb (add32 off n) off
      then pure minus_one
      else if ltb (maxfile * bsize) (off + n)
      then pure minus_one
      else (do
        write_from (suc n) i src 0 off n
        now ← get_inode i
        if ltb 0 n && ltb now.size (off + n) then grow i (off + n) else pure tt
        pure n)
