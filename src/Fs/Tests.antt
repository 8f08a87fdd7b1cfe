-- ===== src/Fs/Tests.antt =====
-- The fs.c theorems on a small disk: a directory, inode 1, whose entry "." is its first, and a file,
-- inode 2, of 1000 bytes.
use tp2_ronaldo_joaopedro.Common.{
  ℕ, zero, suc, ◌+◌, ◌-◌, ◌*◌, ◌/◌, ◌%◌, ◌^◌, ◌<◌, ◌≤◌, min, true, false, ◌||◌, none, some, List,
  [], ◌∷◌, ◌≡◌, ◌≢◌, ◌⊎◌, refl, ap, arith, ◌==◌, ltb, update, if◌then◌else◌, replicate, get_or,
  take,
}
use tp2_ronaldo_joaopedro.Str.{strncmp}
use tp2_ronaldo_joaopedro.Fs.{
  Superblock, Inode, Fs, ok, stop, hang, Bytes, get32, asleep, freeing_free,
}
use tp2_ronaldo_joaopedro.Fs.Room.{HasRoom}
use tp2_ronaldo_joaopedro.Fs.Blocks.{balloc, bfree, readsb, is_free, bblock}
use tp2_ronaldo_joaopedro.Fs.Blocks.Bitmap.{
  IsBitmap, Balloc, block_free, balloc-Allocated, bfree-Freed,
}
use tp2_ronaldo_joaopedro.Fs.Inodes.{iget, iupdate, read_inode, iblock, dinode_at}
use tp2_ronaldo_joaopedro.Fs.Inodes.Cache.{IsUnique, Iget, iget-IsUnique}
use tp2_ronaldo_joaopedro.Fs.Inodes.Disk.{IsStorable, stored, iupdate-read_inode}
use tp2_ronaldo_joaopedro.Fs.Contents.{readi, writei, bmap, own_block, read_from, slice}
use tp2_ronaldo_joaopedro.Fs.Contents.Mapped.{IsMapped, file_byte, contents}
use tp2_ronaldo_joaopedro.Fs.Contents.Reads.{readi-contents}
use tp2_ronaldo_joaopedro.Fs.Contents.Writes.{IsApart, KeepsOthers, writei-readi}
use tp2_ronaldo_joaopedro.Fs.Dirs.{namecmp, read_entry, lookup_from, dirlink}
use tp2_ronaldo_joaopedro.Fs.Dirs.Locked.{dirlink_asleep}
use tp2_ronaldo_joaopedro.Fs.Paths.{skipelem, skip_slashes, element, namex}
use tp2_ronaldo_joaopedro.Fs.Paths.Elements.{Slashes, Split, skipelem-Split}
use tp2_ronaldo_joaopedro.Fs.Paths.Ends.{namex_ends}

abbrev layout : Superblock
layout = record {
  size = 1000;
  nblocks = 941;
  ninodes = 200;
  nlog = 30;
  logstart = 2;
  inodestart = 32;
  bmapstart = 58;
}

-- The first 64 blocks are in use.
abbrev bitmap : Bytes
bitmap k = if ltb k 8 then 255 else 0

abbrev super_words : List ℕ
super_words = 1000 ∷ 941 ∷ 200 ∷ 30 ∷ 2 ∷ 32 ∷ 58 ∷ []

abbrev super_block : Bytes
super_block k =
    if k == 0
    then 232
    else if k == 1
    then 3
    else if k == 4
    then 173
    else if k == 5
    then 3
    else if k == 8
    then 200
    else if k == 12
    then 30
    else if k == 16
    then 2
    else if k == 20
    then 32
    else if k == 24
    then 58
    else 0

abbrev dir_block : Bytes
dir_block k = if k == 0 then 1 else if k == 2 then b'.' else 0

abbrev dir_inode : Inode
dir_inode = record {
  dev = 1;
  inum = 1;
  ref = 1;
  locked = true;
  valid = true;
  type = 1;
  major = 0;
  minor = 0;
  nlink = 1;
  size = 32;
  addrs = 60 ∷ replicate {A = ℕ} 12 0;
}

abbrev file_inode : Inode
file_inode = record {
  dev = 1;
  inum = 2;
  ref = 1;
  locked = true;
  valid = true;
  type = 2;
  major = 0;
  minor = 0;
  nlink = 1;
  size = 1000;
  addrs = 61 ∷ 62 ∷ replicate {A = ℕ} 11 0;
}

abbrev unused_inode : Inode
unused_inode = record file_inode { inum = 0; ref = 0; locked = false; valid = false }

abbrev disk : Fs
disk = record {
  blocks = λ b.
      if b == 1
      then super_block
      else if b == 58
      then bitmap
      else if b == 60
      then dir_block
      else λ _. 7;
  log = record { start = 2; size = 30; outstanding = 1; committing = false; lh = [] };
  sb = layout;
  inodes = λ i. if i == 0 then dir_inode else if i == 1 then file_inode else unused_inode;
  devsw = λ _. record { read = none; write = none };
}

roomy : (n : ℕ) → n ≤ 29 → HasRoom n disk.log
roomy n h = record { inside = omega arith; in_log = omega arith; on_disk = omega arith }

disk-IsBitmap : IsBitmap disk
unfolding block_free is_free
disk-IsBitmap c p =
    let first_block : c / 4096 ≡ 0 = omega arith in ap (λ x. block_free disk (x + 58)) first_block

balloc-Allocated_example : Balloc 3 disk (balloc disk)
balloc-Allocated_example = balloc-Allocated 3 disk (roomy 5 (omega arith)) disk-IsBitmap

disk_loaded : readsb disk ≡ ok tt disk
unfolding readsb
disk_loaded = refl

bfree-Freed_example :
    ((block_free disk 61 ≡ true) × (bfree 61 disk ≡ stop freeing_free))
    ⊎ ((block_free disk 61 ≡ false)
        × (s' : Fs) × (bfree 61 disk ≡ ok tt s')
        × ((c : ℕ) → block_free s' c ≡ (if 61 == c then true else block_free disk c))
        × ((c : ℕ) → bblock 61 disk.sb ≢ c → s'.blocks c ≡ disk.blocks c)
        × HasRoom 2 s'.log)
bfree-Freed_example = bfree-Freed 2 61 disk (roomy 3 (omega arith)) disk_loaded

disk-IsUnique : IsUnique disk.inodes
disk-IsUnique d n i j p q e1 e2 = ground (arith, e1, e2)

iget-IsUnique_example : Iget 1 3 disk (iget 1 3 disk)
iget-IsUnique_example = iget-IsUnique 1 3 disk disk-IsUnique

file-IsStorable : IsStorable file_inode
file-IsStorable = omega arith

iupdate-read_inode_example :
    (s' : Fs) × (iupdate 1 disk ≡ ok tt s')
    × (read_inode 1 s'
        ≡ ok tt (record s' { inodes = update disk.inodes 1 (stored file_inode file_inode) }))
    × ((b o : ℕ)
        → (b ≢ iblock 2 layout) ⊎ ((o < dinode_at 2) ⊎ (dinode_at 2 + 64 ≤ o))
        → s'.blocks b o ≡ disk.blocks b o)
    × HasRoom 4 s'.log
iupdate-read_inode_example =
    iupdate-read_inode 4 1 1 disk (roomy 5 (omega arith)) file-IsStorable (omega arith) refl

file-IsMapped : IsMapped disk 1 1000
file-IsMapped = record {
  in_range = omega arith;
  block = blocks;
  indirect = λ p. absurd (omega arith);
}
  where
    blocks :
        (n : ℕ)
        → n * 512 < 1000
        → (if ltb n 12 then get_or file_inode.addrs n 0 else get32 (disk.blocks 0) (4 * (n - 12)))
          ≢ 0
    blocks zero p = omega arith
    blocks (suc zero) p = omega arith
    blocks (suc (suc n)) p = absurd (omega arith)

readi-contents_example : readi 1 100 1200 disk ≡ (
    if ltb 1000 100 || ltb (2 ^ 32 - 1) (100 + 1200)
    then ok (4294967295, []) disk
    else ok (min 1200 (1000 - 100), contents disk 1 100 (min 1200 (1000 - 100))) disk)
readi-contents_example =
    readi-contents 1 100 1200 disk (omega arith) file-IsMapped (omega arith) (omega arith)

file-IsApart : IsApart disk 1 1000
file-IsApart = record { once = once; indirect = indirect }
  where
    block : ℕ → ℕ
    block n = if ltb n 12 then get_or file_inode.addrs n 0 else get32 (disk.blocks 0) (4 * (n - 12))

    once : (m n : ℕ) → m * 512 < 1000 → n * 512 < 1000 → block m ≡ block n → m ≡ n
    once zero zero p q e = refl
    once zero (suc zero) p q e = absurd (omega (arith, e))
    once (suc zero) zero p q e = absurd (omega (arith, e))
    once (suc zero) (suc zero) p q e = refl
    once (suc (suc m)) n p q e = absurd (omega arith)
    once zero (suc (suc n)) p q e = absurd (omega arith)
    once (suc zero) (suc (suc n)) p q e = absurd (omega arith)

    indirect : (n : ℕ) → n * 512 < 1000 → block n ≢ 0
    indirect zero p = omega arith
    indirect (suc zero) p = omega arith
    indirect (suc (suc n)) p = absurd (omega arith)

writei-readi_example :
    (s' : Fs) × (writei 1 (λ k. k % 256) 500 20 disk ≡ ok 20 s')
    × (readi 1 500 20 s' ≡ ok (20, slice (λ k. k % 256) 0 20) s')
    × ((o : ℕ) → o < 1000 → (o < 500) ⊎ (500 + 20 ≤ o) → file_byte s' 1 o ≡ file_byte disk 1 o)
    × KeepsOthers disk 1 1000 s'.blocks
    × HasRoom 4 s'.log
writei-readi_example =
    writei-readi 2 4 1 500 20 (λ k. k % 256) disk (omega arith) file-IsMapped file-IsApart
      (omega arith) (omega arith) (roomy 6 (omega arith))

dot_found : lookup_from 4 0 (b'.' ∷ []) 0 disk ≡ ok (some (1, 0)) disk
unfolding lookup_from read_entry readi read_from bmap own_block namecmp strncmp
dot_found = refl

dirlink_asleep_example : dirlink 0 (b'.' ∷ []) 2 disk ≡ stop asleep
dirlink_asleep_example =
    dirlink_asleep 0 2 0 (b'.' ∷ []) disk disk-IsUnique (omega arith) (omega arith) refl refl
      dot_found

skipelem-Split_example :
    ((skipelem (b'/' ∷ b'a' ∷ b'/' ∷ b'/' ∷ b'b' ∷ []) ≡ none)
      × Slashes (b'/' ∷ b'a' ∷ b'/' ∷ b'/' ∷ b'b' ∷ []))
    ⊎ ((elem : List ℕ) × (rest : List ℕ) × (skipelem (b'/' ∷ b'a' ∷ b'/' ∷ b'/' ∷ b'b' ∷ [])
          ≡ some (take 14 elem, rest))
        × Split (b'/' ∷ b'a' ∷ b'/' ∷ b'/' ∷ b'b' ∷ []) elem rest)
skipelem-Split_example = skipelem-Split (b'/' ∷ b'a' ∷ b'/' ∷ b'/' ∷ b'b' ∷ [])

namex_ends_example : namex 0 (b'.' ∷ b'/' ∷ b'x' ∷ []) true disk ≢ hang
namex_ends_example = namex_ends 0 (b'.' ∷ b'/' ∷ b'x' ∷ []) true disk

-- The examples of the comment above `skipelem`.
two_elements :
    skipelem (b'a' ∷ b'/' ∷ b'b' ∷ b'b' ∷ b'/' ∷ b'c' ∷ [])
    ≡ some (b'a' ∷ [], b'b' ∷ b'b' ∷ b'/' ∷ b'c' ∷ [])
unfolding skipelem skip_slashes element
two_elements = refl

last_element : skipelem (b'a' ∷ []) ≡ some (b'a' ∷ [], [])
unfolding skipelem skip_slashes element
last_element = refl
