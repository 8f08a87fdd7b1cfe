-- ===== src/Pipe.antt =====
-- xv6/pipe.c: a pipe is a ring of 512 bytes. A writer or reader that has to sleep stops with the
-- work that is left, and goes on with the pipe as it is when it is woken.
pub mod Ring
pub mod Stream
pub mod Wakeup
mod Tests
use tp2_ronaldo_joaopedro.Common.{
  ℕ, zero, suc, ◌+◌, ◌-◌, ◌%◌, ◌^◌, Bool, true, false, not, ◌&&◌, ◌||◌, List, [], ◌∷◌, replicate,
  get_or, set, ◌==◌, if◌then◌else◌,
}
use tp2_ronaldo_joaopedro.Machine.{add32}

abbrev pub pipesize : ℕ
pipesize = 512

-- `struct pipe`, less its lock. `nread` and `nwrite` are `uint` and wrap.
pub record Pipe : Type 0 where
  pub bytes : List ℕ
  pub nread : ℕ
  pub nwrite : ℕ
  pub readopen : Bool
  pub writeopen : Bool

-- The pipe that `pipealloc` sets up; the contents of the new page are `junk`.
unfoldable pub pipe_init : List ℕ → Pipe
pipe_init junk = record { bytes = junk; nread = 0; nwrite = 0; readopen = true; writeopen = true }

-- What a process of a pipe sleeps on: `&p->nread` for readers, `&p->nwrite` for writers.
pub data Channel : Type 0 where
  nread_channel : Channel
  nwrite_channel : Channel

-- `pipeclose`: the pipe, the channel that is woken, and whether its page is freed.
unfoldable pub pipeclose : Pipe → Bool → Pipe × Channel × Bool
pipeclose p writable =
    let p' = if writable then record p { writeopen = false } else record p { readopen = false } in
    (p', if writable then nread_channel else nwrite_channel, not p'.readopen && not p'.writeopen)

-- One byte: `p->data[p->nwrite++ % PIPESIZE] = c`.
unfoldable pub put : Pipe → ℕ → Pipe
put p c = record p { bytes = set p.bytes (p.nwrite % pipesize) c; nwrite = add32 p.nwrite 1 }

-- `p->data[p->nread++ % PIPESIZE]`
unfoldable pub get : Pipe → ℕ × Pipe
get p = (get_or p.bytes (p.nread % pipesize) 0, record p { nread = add32 p.nread 1 })

unfoldable pub is_full : Pipe → Bool
is_full p = p.nwrite == add32 p.nread pipesize

unfoldable pub is_empty : Pipe → Bool
is_empty p = p.nread == p.nwrite

-- `wrote` returns n, `broken` is -1, and `asleep` holds the bytes that are still to be written.
pub data Written : Type 0 where
  wrote : Written
  broken : Written
  asleep : List ℕ → Written

-- Both `wakeup(&p->nread)` of `pipewrite`: before it sleeps and before it returns n.
unfoldable pub wakes_readers : Written → Bool
wakes_readers wrote = true
wakes_readers broken = false
wakes_readers (asleep cs) = true

-- The loop of `pipewrite` over the bytes from `addr + i` on, up to its end or its next sleep.
unfoldable pub pipewrite : Bool → Pipe → List ℕ → Written × Pipe
pipewrite killed p [] = (wrote, p)
pipewrite killed p (c ∷ cs) =
    let rest = pipewrite killed (put p c) cs in
    if is_full p
    then (if not p.readopen || killed then (broken, p) else (asleep (c ∷ cs), p))
    else rest

-- `bytes_read` returns the bytes and their number, `read_killed` is -1.
pub data Got : Type 0 where
  bytes_read : List ℕ → Got
  read_killed : Got
  read_asleep : Got

-- The `wakeup(&p->nwrite)` of `piperead`, before it returns the bytes.
unfoldable pub wakes_writers : Got → Bool
wakes_writers (bytes_read cs) = true
wakes_writers read_killed = false
wakes_writers read_asleep = false

-- The copy loop of `piperead`.
unfoldable pub read_from : ℕ → Pipe → List ℕ × Pipe
read_from zero p = ([], p)
read_from (suc n) p =
    let rest = read_from n (get p).1 in if is_empty p then ([], p) else ((get p).0 ∷ rest.0, rest.1)

unfoldable pub piperead : Bool → Pipe → ℕ → Got × Pipe
unfolding read_from
piperead killed p n =
    if is_empty p && p.writeopen
    then (if killed then (read_killed, p) else (read_asleep, p))
    else (let (cs, p') = read_from n p in (bytes_read cs, p'))
