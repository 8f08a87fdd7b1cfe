-- ===== src/Fs/Files.antt =====
-- xv6/file.c: `filestat`, `fileread` and `filewrite` of a file that is an inode, and the transactions
-- that `filewrite` makes.

pub mod Chunks
pub mod Ends
pub mod Tests
use tp2_ronaldo_joaopedro.Common.{
  ℕ, zero, suc, ◌+◌, ◌-◌, ◌^◌, min, Bool, true, false, not, Option, none, some, List, [], ◌==◌,
  ◌!=◌, ltb, leb, ◌&&◌, ◌||◌, ◌/◌, ◌*◌, if◌then◌else◌,
}
use tp2_ronaldo_joaopedro.Machine.{add32}
use tp2_ronaldo_joaopedro.Log
use tp2_ronaldo_joaopedro.Log.{Log}
use tp2_ronaldo_joaopedro.Fs.{
  Fs, Outcome, ok, stop, hang, F, pure, fail, ◌>>=◌, ◌>>◌, get_inode, Bytes, asleep,
  end_op_committing, short_filewrite,
}
use tp2_ronaldo_joaopedro.Fs.Inodes.{ilock, iunlock}
use tp2_ronaldo_joaopedro.Fs.Contents.{readi, writei, stati, Stat, minus_one}

-- An open inode: `struct file` with `type` FD_INODE.
pub record Open : Type 0 where
  pub readable : Bool
  pub writable : Bool
  pub ip : ℕ
  pub off : ℕ

-- `begin_op`: without space in the log the process sleeps.
unfoldable pub begin_op : F (Unit {0})
begin_op s = elim (Log.begin_op s.log) [
  | none ↦ stop asleep
  | some l ↦ ok tt (record s { log = l })
]

abbrev ended : Bool → Log.Log → Log.Log
ended true l = Log.end_commit l
ended false l = l

-- `end_op`, with the commit by the last operation.
unfoldable pub end_op : F (Unit {0})
end_op s = elim (Log.end_op s.log) [
  | none ↦ stop end_op_committing
  | some (commits, l) ↦ ok tt (record s { log = ended commits l })
]

unfoldable pub filestat : Open → F Stat
filestat f = do ilock f.ip; ip ← get_inode f.ip; iunlock f.ip; pure (stati ip)

-- The result and the bytes, and the file with its new offset.
unfoldable pub fileread : Open → ℕ → F (ℕ × List ℕ × Open)
fileread f n = if not f.readable then pure (minus_one, [], f) else (do
  ilock f.ip
  (r, bytes) ← readi f.ip f.off n
  iunlock f.ip
  let f' = if ltb 0 r && ltb r (2 ^ 31) then record f { off = add32 f.off r } else f
  pure (r, bytes, f'))

-- `((LOGSIZE-1-1-2) / 2) * 512`
abbrev pub chunk_max : ℕ
chunk_max = (30 - 1 - 1 - 2) / 2 * 512

-- One transaction of `filewrite`: `n1` bytes from `i` on.
unfoldable pub write_chunk : Open → Bytes → ℕ → ℕ → F ℕ
unfolding begin_op end_op
write_chunk f src i n1 = do
  begin_op
  ilock f.ip
  r ← writei f.ip (λ k. src (i + k)) f.off n1
  iunlock f.ip
  end_op
  pure r

-- The loop of `filewrite`, with fuel: how many bytes are written, and the file.
unfoldable pub write_chunks : ℕ → Open → Bytes → ℕ → ℕ → F (ℕ × Open)
unfolding write_chunk
write_chunks zero f src i n = λ s. hang
write_chunks (suc fuel) f src i n =
    let n1 = min (n - i) chunk_max in
    let more = write_chunks fuel (record f { off = add32 f.off n1 }) src (i + n1) n in
    if ltb i n
    then (do
      r ← write_chunk f src i n1
      if leb (2 ^ 31) r then pure (i, f) else if r != n1 then fail short_filewrite else more)
    else pure (i, f)

-- `n` is an `int` as a 32-bit pattern.
unfoldable pub filewrite : Open → Bytes → ℕ → F (ℕ × Open)
unfolding write_chunks
filewrite f src n =
    if not f.writable || leb (2 ^ 31) n
    then pure (minus_one, f)
    else (do (i, f') ← write_chunks (suc n) f src 0 n; pure (if i == n then n else minus_one, f'))
