-- ===== src/Fs.antt =====
-- xv6/fs.c and fs.h: the state of the file system on its one disk, and the steps on it. A block is a
-- function from the index of a byte to the byte, as `bread` gives it; the modules below follow the
-- layers of the source.
pub mod Room
pub mod Triples
pub mod Blocks
pub mod Inodes
pub mod Contents
pub mod Dirs
pub mod Paths
pub mod Files
mod Tests
use tp2_ronaldo_joaopedro.Common.{
  ℕ, zero, suc, ◌+◌, ◌*◌, ◌/◌, ◌%◌, Bool, List, [], ◌∷◌, Option, ◌&&◌, leb, ltb, update,
  if◌then◌else◌,
}
use tp2_ronaldo_joaopedro.Log
use tp2_ronaldo_joaopedro.Log.{Logged, logged, log_panic}

abbrev pub bsize : ℕ
bsize = 512

abbrev pub ndirect : ℕ
ndirect = 12

abbrev pub nindirect : ℕ
nindirect = 128

abbrev pub maxfile : ℕ
maxfile = 140

abbrev pub ninode : ℕ
ninode = 50

abbrev pub t_dir : ℕ
t_dir = 1

abbrev pub t_dev : ℕ
t_dev = 3

-- `struct superblock`
pub record Superblock : Type 0 where
  pub size : ℕ
  pub nblocks : ℕ
  pub ninodes : ℕ
  pub nlog : ℕ
  pub logstart : ℕ
  pub inodestart : ℕ
  pub bmapstart : ℕ

-- `struct inode`; `locked` is the sleep lock. The `short` fields hold 16-bit patterns.
pub record Inode : Type 0 where
  pub dev : ℕ
  pub inum : ℕ
  pub ref : ℕ
  pub locked : Bool
  pub valid : Bool
  pub type : ℕ
  pub major : ℕ
  pub minor : ℕ
  pub nlink : ℕ
  pub size : ℕ
  pub addrs : List ℕ

-- `struct devsw`: the drivers are not part of this file; a driver gives its result and the bytes.
pub record Devsw : Type 0 where
  pub read : Option (ℕ → ℕ → ℕ × List ℕ)
  pub write : Option (ℕ → List ℕ → ℕ)

-- The blocks, the transaction that `log_write` adds them to, the superblock, the inode cache by
-- slots (a pointer to an inode is its slot) and the device table.
pub record Fs : Type 0 where
  pub blocks : ℕ → ℕ → ℕ
  pub log : Log.Log
  pub sb : Superblock
  pub inodes : ℕ → Inode
  pub devsw : ℕ → Devsw

-- The panics of the source; `asleep` is a process that waits for a sleep lock that is
-- held, or for space in the log.
pub data Stop : Type 0 where
  out_of_blocks freeing_free no_free_inode icache_full ilock_unreferenced : Stop
  ilock_no_type iunlock_bad bmap_out_of_range not_a_directory dirlookup_read : Stop
  dirlink_read dirlink_write log_full asleep : Stop
  end_op_committing short_filewrite : Stop

-- `hang` is a loop that has used up its fuel.
pub data Outcome {ℓ} (A : Type ℓ) : Type ℓ where
  ok : A → Fs → Outcome A
  stop : Stop → Outcome A
  hang : Outcome A

abbrev pub F {ℓ} : Type ℓ → Type ℓ
F A = Fs → Outcome A

abbrev pub pure {ℓ} : {A : Type ℓ} → A → F A
pure a s = ok a s

abbrev pub fail {ℓ} : {A : Type ℓ} → Stop → F A
fail p s = stop p

infixl 5 ◌>>=◌ ◌>>◌
abbrev pub ◌>>=◌ {ℓ κ} : {A : Type ℓ} {B : Type κ} → F A → (A → F B) → F B
◌>>=◌ c f s = elim (c s) [ ok a s' ↦ f a s' | stop p ↦ stop p | hang ↦ hang ]

abbrev pub ◌>>◌ {ℓ} : {B : Type ℓ} → F (Unit {0}) → F B → F B
c >> k = c >>= λ _. k

abbrev pub get : F Fs
get s = ok s s

abbrev pub Bytes : Type 0
Bytes = ℕ → ℕ

abbrev pub bread : ℕ → F Bytes
bread b s = ok (s.blocks b) s

abbrev pub with_log : Fs → Logged → Outcome (Unit {0})
with_log s (logged l) = ok tt (record s { log = l })
with_log s (log_panic p) = stop log_full

-- A buffer is given new contents and handed to `log_write`.
unfoldable pub write_block : ℕ → Bytes → F (Unit {0})
write_block b v s = with_log (record s { blocks = update s.blocks b v }) (Log.log_write s.log b)

abbrev pub put_inode : ℕ → Inode → F (Unit {0})
put_inode i v s = ok tt (record s { inodes = update s.inodes i v })

abbrev pub get_inode : ℕ → F Inode
get_inode i s = ok (s.inodes i) s

-- Numbers of 16 and 32 bits in a block, lowest byte first.
abbrev pub get16 : Bytes → ℕ → ℕ
get16 v o = v o + 256 * v (o + 1)

abbrev pub put16 : Bytes → ℕ → ℕ → Bytes
put16 v o x = update (update v o (x % 256)) (o + 1) (x / 256 % 256)

abbrev pub get32 : Bytes → ℕ → ℕ
get32 v o = get16 v o + 65536 * get16 v (o + 2)

abbrev pub put32 : Bytes → ℕ → ℕ → Bytes
put32 v o x = put16 (put16 v o (x % 65536)) (o + 2) (x / 65536)

-- `memset(v + o, c, n)`
abbrev pub fill : Bytes → ℕ → ℕ → ℕ → Bytes
fill v o c n i = if leb o i && ltb i (o + n) then c else v i

-- Arrays of `uint` in a block.
unfoldable pub get_words : Bytes → ℕ → ℕ → List ℕ
get_words v o zero = []
get_words v o (suc n) = get32 v o ∷ get_words v (o + 4) n

unfoldable pub put_words : Bytes → ℕ → List ℕ → Bytes
put_words v o [] = v
put_words v o (x ∷ xs) = put_words (put32 v o x) (o + 4) xs
