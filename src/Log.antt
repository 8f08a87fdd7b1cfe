-- ===== src/Log.antt =====
-- xv6/log.c: the redo log of the file system. A block is the list of its words; blocks are named by
-- their numbers on `log.dev`. The locks are not part of the state.
pub mod Space
pub mod Writes
pub mod Effects
pub mod Recovery
pub mod Crash
mod Tests
use tp2_ronaldo_joaopedro.Common.{
  ℕ, zero, suc, ◌+◌, ◌-◌, ◌*◌, Bool, true, false, ◌||◌, Option, none, some, List, [], ◌∷◌, ◌++◌,
  length, get_or, take, drop, ◌==◌, ltb, leb, update, if◌then◌else◌,
}

abbrev pub maxopblocks : ℕ
maxopblocks = 10

abbrev pub logsize : ℕ
logsize = 30

-- `struct log`; `lh` holds the `n` first entries of `lh.block`.
pub record Log : Type 0 where
  pub start : ℕ
  pub size : ℕ
  pub outstanding : ℕ
  pub committing : Bool
  pub lh : List ℕ

-- One turn of the loop of `begin_op`; `none` is the sleep.
unfoldable pub begin_op : Log → Option Log
begin_op l =
    if l.committing
    then none
    else if ltb logsize (length l.lh + (l.outstanding + 1) * maxopblocks)
    then none
    else some (record l { outstanding = l.outstanding + 1 })

-- `end_op` up to its first release: whether it is to commit, or else it wakes who waits for space.
-- `none` is the panic. Only a process inside an operation calls it, so the count does not go below 0.
unfoldable pub end_op : Log → Option (Bool × Log)
end_op l =
    let l' = record l { outstanding = l.outstanding - 1 } in
    if l.committing
    then none
    else if l.outstanding == 1
    then some (true, record l' { committing = true })
    else some (false, l')

-- The rest of `end_op`, after `commit` has emptied the header.
unfoldable pub end_commit : Log → Log
end_commit l = record l { committing = false; lh = [] }

abbrev pub member : ℕ → List ℕ → Bool
member b [] = false
member b (x ∷ xs) = (x == b) || member b xs

pub data LogPanic : Type 0 where
  too_big outside : LogPanic

pub data Logged : Type 0 where
  logged : Log → Logged
  log_panic : LogPanic → Logged

-- A block that is in the header already is not entered again.
unfoldable pub log_write : Log → ℕ → Logged
log_write l blockno =
    if leb logsize (length l.lh) || leb (l.size - 1) (length l.lh)
    then log_panic too_big
    else if ltb l.outstanding 1
    then log_panic outside
    else if member blockno l.lh
    then logged l
    else logged (record l { lh = l.lh ++ blockno ∷ [] })

abbrev pub Block : Type 0
Block = List ℕ

-- The blocks on the disk, the blocks as `bread` gives them, which may be newer in the cache, and the
-- writes to the disk so far.
pub record Store : Type 0 where
  pub disk : ℕ → Block
  pub view : ℕ → Block
  pub written : List (ℕ × Block)

unfoldable pub bwrite : ℕ → Block → Store → Store
bwrite b v s = record {
  disk = update s.disk b v;
  view = update s.view b v;
  written = s.written ++ (b, v) ∷ [];
}

-- The loops of `write_log` and `install_trans` from entry `tail` on.
unfoldable pub write_log : ℕ → ℕ → List ℕ → Store → Store
write_log start tail [] s = s
write_log start tail (b ∷ bs) s =
    write_log start (tail + 1) bs (bwrite (start + tail + 1) (s.view b) s)

unfoldable pub install_trans : ℕ → ℕ → List ℕ → Store → Store
install_trans start tail [] s = s
install_trans start tail (b ∷ bs) s =
    install_trans start (tail + 1) bs (bwrite b (s.view (start + tail + 1)) s)

-- The header block: the count, then the block numbers; the words behind them stay.
unfoldable pub head_block : Block → List ℕ → Block
head_block old lh = (length lh ∷ lh) ++ drop (length lh + 1) old

unfoldable pub write_head : ℕ → List ℕ → Store → Store
write_head start lh s = bwrite start (head_block (s.view start) lh) s

unfoldable pub read_head : ℕ → Store → List ℕ
read_head start s = take (get_or (s.view start) 0 0) (drop 1 (s.view start))

unfoldable pub commit : ℕ → List ℕ → Store → Store
commit start lh s =
    if ltb 0 (length lh)
    then write_head start []
        (install_trans start 0 lh (write_head start lh (write_log start 0 lh s)))
    else s

unfoldable pub recover_from_log : ℕ → Store → Store
recover_from_log start s = write_head start [] (install_trans start 0 (read_head start s) s)
