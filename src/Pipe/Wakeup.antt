-- ===== src/Pipe/Wakeup.antt =====
-- pipe.c: who sleeps on a pipe through runs of `pipewrite`, `piperead` and `pipeclose`, each of which runs
-- under the pipe's lock from its start or its wakeup to its end or its next sleep: which wakeups come,
-- and one that a killed writer leaves out.
use tp2_ronaldo_joaopedro.Common.{
  ℕ, zero, suc, ◌+◌, ◌<◌, Bool, true, false, not, ◌&&◌, ◌||◌, List, [], ◌∷◌, length, take, min, ap₂,
  length-append, ◌≡◌, refl, ap, ◌∙◌, sym, arith, Bool-cases, inl, inr,
}
use tp2_ronaldo_joaopedro.Pipe.{
  Pipe, Channel, nread_channel, nwrite_channel, is_empty, Written, wrote, broken, asleep, pipewrite,
  Got, bytes_read, read_killed, read_asleep, piperead, pipeclose, wakes_readers, wakes_writers,
}
use tp2_ronaldo_joaopedro.Pipe.Ring.{IsRing, contents, size, is_empty_lem, length-window}
use tp2_ronaldo_joaopedro.Pipe.Stream.{Writes, pipewrite-Writes, room, read_from-Reads}

-- A pipe, and whether some process sleeps on each of its channels.
pub record Shared : Type 0 where
  pub pipe : Pipe
  pub readers : Bool
  pub writers : Bool

unfoldable pub sleeps : Written → Bool
sleeps wrote = false
sleeps broken = false
sleeps (asleep cs) = true

unfoldable pub waits : Got → Bool
waits (bytes_read cs) = false
waits read_killed = false
waits read_asleep = true

unfoldable pub on_write : Shared → Bool → List ℕ → Shared
on_write s killed cs =
    let (r, p) = pipewrite killed s.pipe cs in
    record {
      pipe = p;
      readers = s.readers && not (wakes_readers r);
      writers = s.writers || sleeps r;
    }

unfoldable pub on_read : Shared → Bool → ℕ → Shared
on_read s killed n =
    let (r, p) = piperead killed s.pipe n in
    record {
      pipe = p;
      readers = s.readers || waits r;
      writers = s.writers && not (wakes_writers r);
    }

abbrev wakes : Channel → Bool → Bool
wakes nread_channel reader = reader
wakes nwrite_channel reader = not reader

unfoldable pub on_close : Shared → Bool → Shared
on_close s writable =
    let (p, c, freed) = pipeclose s.pipe writable in
    record {
      pipe = p;
      readers = s.readers && not (wakes c true);
      writers = s.writers && not (wakes c false);
    }

-- A process sleeps on a channel only while what it waits for has not come.
pub record IsAwake (s : Shared) : Type 0 where
  pub ring : IsRing s.pipe
  pub empty :
      s.readers ≡ true → (size s.pipe ≡ 0) × (s.pipe.writeopen ≡ true) × (s.pipe.readopen ≡ true)
  pub full : s.writers ≡ true → (size s.pipe ≡ 512) × (s.pipe.readopen ≡ true)

length-take : (n : ℕ) (l : List ℕ) → length (take n l) ≡ min n (length l)
length-take zero l = ground arith
length-take (suc n) [] = ground arith
length-take (suc n) (x ∷ l) = ground (arith, length-take n l)

length-contents : (p : Pipe) → length (contents p) ≡ size p
length-contents p = length-window p.bytes p.nread (size p)

-- A write fills the room that there is.
Writes-size :
    (killed : Bool) (p : Pipe) (cs : List ℕ) (r : Written × Pipe)
    → Writes killed p cs r
    → size r.1 ≡ size p + min (room p) (length cs)
Writes-size killed p cs r w =
    sym (length-contents r.1)
    ∙ ap length w.queue
    ∙ length-append (contents p) (take (room p) cs)
    ∙ ap₂ ◌+◌ (length-contents p) (length-take (room p) cs)

pub on_write-IsAwake : (s : Shared) (cs : List ℕ) → IsAwake s → IsAwake (on_write s false cs)
unfolding on_write wakes_readers sleeps
on_write-IsAwake s cs v =
    awake (pipewrite false s.pipe cs) (pipewrite-Writes false s.pipe cs v.ring)
  where
    awake :
        (r : Written × Pipe)
        → Writes false s.pipe cs r
        → IsAwake (record {
          pipe = r.1;
          readers = s.readers && not (wakes_readers r.0);
          writers = s.writers || sleeps r.0;
        })
    awake (wrote, p) w =
        let z = Writes-size false s.pipe cs (wrote, p) w in
        record {
          ring = w.ring;
          empty = λ e. ground arith;
          full = λ e. ground (arith, w.status, w.reader, z, v.full);
        }
    awake (broken, p) w =
        let z = Writes-size false s.pipe cs (broken, p) w in
        record {
          ring = w.ring;
          empty = λ e. ground (arith, w.status, v.empty);
          full = λ e. ground (arith, w.status, w.reader, z, v.full);
        }
    awake (asleep l, p) w =
        let z = Writes-size false s.pipe cs (asleep l, p) w in
        record {
          ring = w.ring;
          empty = λ e. ground arith;
          full = λ e. ground (arith, w.status, w.reader, z, v.full);
        }

on_read-IsAwake :
    (s : Shared) (killed : Bool) (n : ℕ)
    → IsAwake s
    → s.pipe.readopen ≡ true
    → IsAwake (on_read s killed n)
unfolding on_read piperead waits wakes_writers
on_read-IsAwake s killed n v h = elim (Bool-cases (is_empty s.pipe && s.pipe.writeopen)) [
  | inl e ↦
      let z : size s.pipe ≡ 0 = ground (arith, e, is_empty_lem s.pipe v.ring) in
      rw e (record {
        ring = ground (arith, v.ring);
        empty = λ a. ground (arith, v.empty, e, z, h);
        full = λ a. ground (arith, v.full, z);
      })
  | inr e ↦
      let w = read_from-Reads n s.pipe v.ring in
      rw e (record {
        ring = w.ring;
        empty = λ a. ground (arith, v.empty, e, is_empty_lem s.pipe v.ring);
        full = λ a. ground arith;
      })
]

on_close-IsAwake :
    (s : Shared) (writable : Bool)
    → IsAwake s
    → (writable ≡ false → s.readers ≡ false)
    → IsAwake (on_close s writable)
unfolding on_close pipeclose
on_close-IsAwake s true v h = record {
  ring = record {
    page = v.ring.page;
    read_word = v.ring.read_word;
    write_word = v.ring.write_word;
    fits = v.ring.fits;
  };
  empty = λ e. ground arith;
  full = λ e. v.full (ground arith);
}
on_close-IsAwake s false v h = record {
  ring = record {
    page = v.ring.page;
    read_word = v.ring.read_word;
    write_word = v.ring.write_word;
    fits = v.ring.fits;
  };
  empty = λ e. ground (arith, h refl);
  full = λ e. ground arith;
}

-- What the processes of a pipe do, in any order. A writer that has been killed is left out (see
-- `pipewrite-killed`), and the read end is closed by its last owner, which does not sleep on it.
pub data Steps : Shared → Shared → Type 0 where
  done : (s : Shared) → Steps s s
  writes : (s t : Shared) (cs : List ℕ) → Steps (on_write s false cs) t → Steps s t
  reads :
      (s t : Shared) (killed : Bool) (n : ℕ)
      → s.pipe.readopen ≡ true
      → Steps (on_read s killed n) t
      → Steps s t
  closes_write : (s t : Shared) → Steps (on_close s true) t → Steps s t
  closes_read : (s t : Shared) → s.readers ≡ false → Steps (on_close s false) t → Steps s t

-- No wakeup is lost. From a well-formed pipe on which nobody wrongly sleeps, after any steps of
-- writers that are not killed, of readers that hold the read end and of closes, where the read
-- end is closed only when no reader sleeps: the pipe is well formed, who still sleeps for bytes
-- finds it empty with both ends open, and who still sleeps for room finds it full with its read
-- end open.
pub Steps-IsAwake : (s t : Shared) → Steps s t → IsAwake s → IsAwake t
Steps-IsAwake s t (done _) v = v
Steps-IsAwake s t (writes _ _ cs r) v =
    Steps-IsAwake (on_write s false cs) t r (on_write-IsAwake s cs v)
Steps-IsAwake s t (reads _ _ killed n h r) v =
    Steps-IsAwake (on_read s killed n) t r (on_read-IsAwake s killed n v h)
Steps-IsAwake s t (closes_write _ _ r) v =
    Steps-IsAwake (on_close s true) t r (on_close-IsAwake s true v (λ e. ground (arith, e)))
Steps-IsAwake s t (closes_read _ _ h r) v =
    Steps-IsAwake (on_close s false) t r (on_close-IsAwake s false v (λ e. h))

-- A killed writer with more than 512 bytes, on a pipe with a reader asleep and nobody wrongly
-- asleep, fills the pipe and wakes no reader, which sleeps on with the pipe full.
pub pipewrite-killed :
    (s : Shared) (cs : List ℕ)
    → IsAwake s
    → s.readers ≡ true
    → 512 < length cs
    → ((on_write s true cs).readers ≡ true) × (size (on_write s true cs).pipe ≡ 512)
unfolding on_write wakes_readers
pipewrite-killed s cs v h k =
    lost (pipewrite true s.pipe cs) (pipewrite-Writes true s.pipe cs v.ring)
  where
    lost :
        (r : Written × Pipe)
        → Writes true s.pipe cs r
        → ((s.readers && not (wakes_readers r.0)) ≡ true) × (size r.1 ≡ 512)
    lost (wrote, p) w = absurd (ground (arith, w.status, v.empty))
    lost (broken, p) w =
        (ground (arith, h), omega (arith, Writes-size true s.pipe cs (broken, p) w, v.empty h))
    lost (asleep l, p) w = absurd (ground (arith, w.status, v.empty))
