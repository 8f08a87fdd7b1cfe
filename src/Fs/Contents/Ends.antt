-- ===== src/Fs/Contents/Ends.antt =====
-- xv6/fs.c: the loops that read and truncate a file, and the sizes in the inode cache.
use tp2_ronaldo_joaopedro.Common.{
  ℕ, zero, suc, ◌+◌, ◌-◌, ◌*◌, ◌/◌, ◌%◌, ◌<◌, true, false, not, Option, none, some, List, [], ◌++◌,
  get_or, set, refl, arith, inl, inr, ltb, Bool-cases, ◌==◌, ◌||◌, ◌&&◌, if◌then◌else◌,
}
use tp2_ronaldo_joaopedro.Machine.{add32}
use tp2_ronaldo_joaopedro.Fs.{
  Fs, Inode, F, asleep, iunlock_bad, ilock_unreferenced, get16, get32, put32, bread, pure, ◌>>=◌,
  ◌>>◌, put_inode, get_inode, write_block,
}
use tp2_ronaldo_joaopedro.Fs.Triples.{
  After, bind, branch, returns, fails, Sizes, Keeps, Keeps-Ends, Ends, Anything, put_inode-Sizes,
}
use tp2_ronaldo_joaopedro.Fs.Blocks.Ends.{write_block-Keeps, balloc-Keeps, bfree-Ends}
use tp2_ronaldo_joaopedro.Fs.Inodes.{
  iupdate, ilock, iunlock, read_inode, acquire_lock, release_lock, iblock, encode, dinode_at,
}
use tp2_ronaldo_joaopedro.Fs.Contents.{
  own_block, indirect_block, bmap, read_from, readi, piece, slice, free_direct, free_indirect,
  itrunc, iput, put_locked, iunlockput, free_inode, bad_major, minus_one,
}

bread-Keeps : (b : ℕ) → Keeps (bread b)
bread-Keeps b f = record { apply = λ s h. h }

-- `ip->addrs[k] = addr`
set_addr-Keeps :
    (i k addr : ℕ)
    → Keeps (
        get_inode i >>= λ now.
        put_inode i (record now { addrs = set now.addrs k addr }) >> pure addr)
set_addr-Keeps i k addr f = record {
  apply = λ s h.
      put_inode-Sizes f s i (record (s.inodes i) { addrs = set (s.inodes i).addrs k addr }) refl h;
}

own_block-Keeps : (i k : ℕ) → Keeps (own_block i k)
unfolding own_block
own_block-Keeps i k f = record {
  apply = λ s h. elim (Bool-cases (get_or (s.inodes i).addrs k 0 == 0)) [
    | inl missing ↦
        rw missing
          ((bind (λ _. Sizes f) (balloc-Keeps f) (λ addr. set_addr-Keeps i k addr f)).apply s h)
    | inr there ↦ rw there h
  ];
}

set_entry-Keeps :
    (addr k new : ℕ)
    → Keeps (bread addr >>= λ now. write_block addr (put32 now (4 * k) new) >> pure new)
set_entry-Keeps addr k new f =
    bind (λ _. Sizes f) (bread-Keeps addr f)
      (λ now.
        bind (λ _. Sizes f) (write_block-Keeps addr (put32 now (4 * k) new) f)
          (λ _. returns new (λ s h. h)))

indirect_block-Keeps : (addr k : ℕ) → Keeps (indirect_block addr k)
unfolding indirect_block
indirect_block-Keeps addr k f = record {
  apply = λ s h. elim (Bool-cases (get32 (s.blocks addr) (4 * k) == 0)) [
    | inl missing ↦
        rw missing
          ((bind (λ _. Sizes f) (balloc-Keeps f) (λ new. set_entry-Keeps addr k new f)).apply s h)
    | inr there ↦ rw there h
  ];
}

pub bmap-Keeps : (i bn : ℕ) → Keeps (bmap i bn)
unfolding bmap
bmap-Keeps i bn f =
    branch (ltb bn 12) (λ e. own_block-Keeps i bn f)
      (λ e.
        branch (ltb (bn - 12) 128)
          (λ e.
            bind (λ _. Sizes f) (own_block-Keeps i 12 f)
              (λ addr. indirect_block-Keeps addr (bn - 12) f))
          (λ e. fails _))

read_from-Keeps : (fuel i off n : ℕ) → n < fuel → Keeps (read_from fuel i off n)
unfolding read_from
read_from-Keeps zero i off n lt f = absurd (omega arith)
read_from-Keeps (suc fuel) i off n lt f =
    branch (ltb 0 n)
      (λ more.
        bind (λ _. Sizes f) (bmap-Keeps i (off / 512) f)
          (λ b.
            bind (λ _. Sizes f) (bread-Keeps b f)
              (λ v.
                bind (λ _. Sizes f)
                  (read_from-Keeps fuel i (off + piece off n) (n - piece off n)
                    (ground (arith, more, lt)) f)
                  (λ later. returns (slice v (off % 512) (piece off n) ++ later) (λ s h. h)))))
      (λ done. returns [] (λ s h. h))

pub readi-Keeps : (i off n : ℕ) → Keeps (readi i off n)
unfolding readi
readi-Keeps i off n f = record {
  apply = λ s h.
      let ip = s.inodes i in
      let len : ℕ = if ltb ip.size (off + n) then ip.size - off else n in
      elim (Bool-cases (ip.type == 3)) [
        | inl device ↦ rw device (elim (Bool-cases (bad_major ip.major)) [
          | inl bad ↦ rw bad h
          | inr good ↦ rw good (by_driver s h ((s.devsw ip.major).read))
        ])
        | inr file ↦ rw file (elim (Bool-cases (ltb ip.size off || ltb (add32 off n) off)) [
          | inl bad ↦ rw bad h
          | inr good ↦ rw good (
              (bind (λ _. Sizes f) (read_from-Keeps (suc len) i off len (omega arith) f)
                  (λ bytes. returns (len, bytes) (λ s h. h))).apply
                s h)
        ])
      ];
}
  where
    run : Option (ℕ → ℕ → ℕ × List ℕ) → F (ℕ × List ℕ)
    run o = elim o [ none ↦ pure (minus_one, []) | some read ↦ pure (read i n) ]

    by_driver :
        (s : Fs) → Sizes f s → (o : Option (ℕ → ℕ → ℕ × List ℕ)) → After (λ _. Sizes f) (run o s)
    by_driver s h none = h
    by_driver s h (some read) = h

-- Truncating and dropping an inode end.
pub get_inode-Ends : (i : ℕ) → Ends (get_inode i)
get_inode-Ends i = record { apply = λ s h. tt }

put_inode-Ends : (i : ℕ) (ip : Inode) → Ends (put_inode i ip)
put_inode-Ends i ip = record { apply = λ s h. tt }

-- One operation that ends after another.
pub and_then :
    {A B : Type 0} {c : F A} {f : A → F B} → Ends c → ((a : A) → Ends (f a)) → Ends (c >>= f)
and_then h k = bind (λ _. Anything) h k

free_direct-Ends : (i k left : ℕ) → Ends (free_direct i k left)
unfolding free_direct
free_direct-Ends i k zero = returns tt (λ s h. tt)
free_direct-Ends i k (suc left) = and_then (get_inode-Ends i) (λ ip.
    branch (get_or ip.addrs k 0 == 0) (λ e. free_direct-Ends i (k + 1) left)
      (λ e. and_then (bfree-Ends (get_or ip.addrs k 0)) (λ _.
        and_then (put_inode-Ends i (record ip { addrs = set ip.addrs k 0 }))
          (λ _. free_direct-Ends i (k + 1) left))))

free_indirect-Ends : (addr j left : ℕ) → Ends (free_indirect addr j left)
unfolding free_indirect
free_indirect-Ends addr j zero = returns tt (λ s h. tt)
free_indirect-Ends addr j (suc left) = and_then (Keeps-Ends (bread-Keeps addr)) (λ v.
    branch (get32 v (4 * j) == 0) (λ e. free_indirect-Ends addr (j + 1) left)
      (λ e. and_then (bfree-Ends (get32 v (4 * j))) (λ _. free_indirect-Ends addr (j + 1) left)))

pub iupdate-Ends : (i : ℕ) → Ends (iupdate i)
unfolding iupdate
iupdate-Ends i = record {
  apply = λ s h.
      (Keeps-Ends (
          write_block-Keeps (iblock (s.inodes i).inum s.sb) (
            encode (s.blocks (iblock (s.inodes i).inum s.sb)) (dinode_at (s.inodes i).inum)
              (s.inodes i)))).apply
        s tt;
}

itrunc-Ends : (i : ℕ) → Ends (itrunc i)
unfolding itrunc
itrunc-Ends i = and_then (free_direct-Ends i 0 12) (λ _. and_then (get_inode-Ends i) (λ ip.
    and_then
      (branch (get_or ip.addrs 12 0 == 0) (λ e. returns tt (λ s h. tt))
        (λ e. and_then (free_indirect-Ends (get_or ip.addrs 12 0) 0 128) (λ _.
          and_then (bfree-Ends (get_or ip.addrs 12 0))
            (λ _. put_inode-Ends i (record ip { addrs = set ip.addrs 12 0 })))))
      (λ _.
        and_then (get_inode-Ends i)
          (λ now. and_then (put_inode-Ends i (record now { size = 0 })) (λ _. iupdate-Ends i)))))

free_inode-Ends : (i : ℕ) → Ends (free_inode i)
unfolding free_inode
free_inode-Ends i = and_then (itrunc-Ends i) (λ _. and_then (get_inode-Ends i) (λ ip.
    and_then (put_inode-Ends i (record ip { type = 0 })) (λ _.
      and_then (iupdate-Ends i) (λ _.
        and_then (get_inode-Ends i) (λ now. put_inode-Ends i (record now { valid = false }))))))

acquire_lock-Ends : (i : ℕ) → Ends (acquire_lock i)
acquire_lock-Ends i = and_then (get_inode-Ends i) (λ ip.
    branch ip.locked (λ e. fails asleep) (λ e. put_inode-Ends i (record ip { locked = true })))

release_lock-Ends : (i : ℕ) → Ends (release_lock i)
release_lock-Ends i =
    and_then (get_inode-Ends i) (λ ip. put_inode-Ends i (record ip { locked = false }))

put_locked-Ends : (i : ℕ) → Ends (put_locked i)
unfolding put_locked
put_locked-Ends i = and_then (get_inode-Ends i) (λ ip.
    and_then
      (branch (ip.valid && (ip.nlink == 0) && (ip.ref == 1)) (λ e. free_inode-Ends i)
        (λ e. returns tt (λ s h. tt)))
      (λ _. and_then (release_lock-Ends i) (λ _.
        and_then (get_inode-Ends i) (λ now. put_inode-Ends i (record now { ref = now.ref - 1 })))))

pub iput-Ends : (i : ℕ) → Ends (iput i)
unfolding iput
iput-Ends i = and_then (acquire_lock-Ends i) (λ _. put_locked-Ends i)

pub iunlock-Ends : (i : ℕ) → Ends (iunlock i)
unfolding iunlock
iunlock-Ends i = and_then (get_inode-Ends i) (λ ip.
    branch (not ip.locked || ltb ip.ref 1) (λ e. fails iunlock_bad) (λ e. release_lock-Ends i))

pub iunlockput-Ends : (i : ℕ) → Ends (iunlockput i)
unfolding iunlockput
iunlockput-Ends i = and_then (iunlock-Ends i) (λ _. iput-Ends i)

read_inode-Ends : (i : ℕ) → Ends (read_inode i)
unfolding read_inode
read_inode-Ends i = record {
  apply = λ s h.
      elim (Bool-cases
        (get16 (s.blocks (iblock (s.inodes i).inum s.sb)) (dinode_at (s.inodes i).inum) == 0)) [
          | inl untyped ↦ rw untyped tt
          | inr typed ↦ rw typed tt
        ];
}

pub ilock-Ends : (i : ℕ) → Ends (ilock i)
unfolding ilock
ilock-Ends i = and_then (get_inode-Ends i) (λ ip.
    branch (ltb ip.ref 1) (λ e. fails ilock_unreferenced)
      (λ e.
        and_then (acquire_lock-Ends i)
          (λ _. branch ip.valid (λ e. returns tt (λ s h. tt)) (λ e. read_inode-Ends i))))
