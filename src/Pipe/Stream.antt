-- ===== src/Pipe/Stream.antt =====
-- What one run of `pipewrite` or `piperead` in pipe.c does to the queue, and what a sequence of them does.
use mathlib.Core.List.{append_assoc, append-nil}
use tp2_ronaldo_joaopedro.Common.{
  ℕ, zero, suc, ◌-◌, ◌<◌, Bool, not, ◌||◌, List, [], ◌∷◌, ◌++◌, length, take, drop, ◌≡◌, refl, ap,
  ap₂, ◌∙◌, sym, arith, leb, if◌then◌else◌, Bool-cases, inl, inr,
}
use tp2_ronaldo_joaopedro.Pipe.{
  Pipe, put, get, is_full, is_empty, Written, wrote, broken, asleep, pipewrite, read_from,
}
use tp2_ronaldo_joaopedro.Pipe.Ring.{
  IsRing, contents, size, is_full_lem, is_empty_lem, put_lem, get_lem, size-put,
}

-- The specification: as many bytes as there is room for go to the end of the queue, and the call
-- returns only if that was all of them.
abbrev pub room : Pipe → ℕ
room p = 512 - size p

abbrev pub write_status : Bool → Bool → ℕ → List ℕ → Written
write_status killed readopen space cs =
    if leb (length cs) space
    then wrote
    else (if not readopen || killed then broken else asleep (drop space cs))

pub record Writes (killed : Bool) (p : Pipe) (cs : List ℕ) (r : Written × Pipe) : Type 0 where
  pub ring : IsRing r.1
  pub queue : contents r.1 ≡ contents p ++ take (room p) cs
  pub status : r.0 ≡ write_status killed p.readopen (room p) cs
  pub reader : r.1.readopen ≡ p.readopen

Writes-more :
    (killed : Bool) (p : Pipe) (c : ℕ) (cs : List ℕ) (r : Written × Pipe)
    → IsRing p
    → size p < 512
    → Writes killed (put p c) cs r
    → Writes killed p (c ∷ cs) r
unfolding put
Writes-more killed p c cs r v h w =
    let e : room p ≡ suc (room (put p c)) = omega (arith, size-put p c v h) in
    record {
      ring = w.ring;
      queue =
          w.queue
          ∙ ap (λ l. l ++ take (room (put p c)) cs) (put_lem p c v h).1
          ∙ append_assoc (contents p) (c ∷ []) (take (room (put p c)) cs)
          ∙ ap (λ k. contents p ++ take k (c ∷ cs)) (sym e);
      status = w.status ∙ sym (ap (λ k. write_status killed p.readopen k (c ∷ cs)) e ∙ same);
      reader = w.reader;
    }
  where
    same :
        write_status killed p.readopen (suc (room (put p c))) (c ∷ cs)
        ≡ write_status killed p.readopen (room (put p c)) cs
    same = ground arith

take-nil {ℓ} : {A : Type ℓ} (n : ℕ) → take {A = A} n [] ≡ []
take-nil zero = refl
take-nil (suc n) = refl

drop-nil {ℓ} : {A : Type ℓ} (n : ℕ) → drop {A = A} n [] ≡ []
drop-nil zero = refl
drop-nil (suc n) = refl

Writes-none : (killed : Bool) (p : Pipe) → IsRing p → Writes killed p [] (wrote, p)
Writes-none killed p v = record {
  ring = v;
  queue = sym (rw (take-nil {A = ℕ} (room p)) (append-nil (contents p)));
  status = ground arith;
  reader = refl;
}

Writes-full :
    (killed : Bool) (p : Pipe) (c : ℕ) (cs : List ℕ)
    → IsRing p
    → size p ≡ 512
    → Writes killed p
        (c ∷ cs)
        (if not p.readopen || killed then (broken, p) else (asleep (c ∷ cs), p))
Writes-full killed p c cs v h =
    let e : room p ≡ 0 = omega (arith, h) in
    elim (Bool-cases (not p.readopen || killed)) [
      | inl stop ↦ rw stop (record {
        ring = v;
        queue = sym (rw e (append-nil (contents p)));
        status = rw e (ground (arith, stop));
        reader = refl;
      })
      | inr more ↦ rw more (record {
        ring = v;
        queue = sym (rw e (append-nil (contents p)));
        status = rw e (ground (arith, more));
        reader = refl;
      })
    ]

-- One run of pipewrite on a well-formed pipe keeps it well formed and its read end as it was, and
-- puts as many bytes as there is room for at the end of the queue. It returns n exactly if that
-- was all of them; if not, it returns -1 where the read end is closed or the caller is killed,
-- and else sleeps with the rest.
pub pipewrite-Writes :
    (killed : Bool) (p : Pipe) (cs : List ℕ) → IsRing p → Writes killed p cs (pipewrite killed p cs)
unfolding pipewrite
pipewrite-Writes killed p [] v = Writes-none killed p v
pipewrite-Writes killed p (c ∷ cs) v = elim (Bool-cases (is_full p)) [
  | inl full ↦ rw full (Writes-full killed p c cs v ((is_full_lem p v).0 full))
  | inr more ↦
      let h = (is_full_lem p v).1 more in
      rw more (
        Writes-more killed p c cs (pipewrite killed (put p c) cs) v h
          (pipewrite-Writes killed (put p c) cs (put_lem p c v h).0))
]

-- The copy loop of `piperead` takes the oldest bytes, at most `n` of them.
pub record Reads (n : ℕ) (p : Pipe) (r : List ℕ × Pipe) : Type 0 where
  pub ring : IsRing r.1
  pub taken : r.0 ≡ take n (contents p)
  pub left : contents r.1 ≡ drop n (contents p)
  pub ends : (r.1.readopen ≡ p.readopen) × (r.1.writeopen ≡ p.writeopen)

Reads-none : (n : ℕ) (p : Pipe) → IsRing p → size p ≡ 0 → Reads n p ([], p)
Reads-none n p v e = record {
  ring = v;
  taken = rw e (sym (take-nil n));
  left = rw e (sym (drop-nil n));
  ends = (refl, refl);
}

Reads-more :
    (n : ℕ) (p : Pipe) (r : List ℕ × Pipe)
    → IsRing p
    → 0 < size p
    → Reads n (get p).1 r
    → Reads (suc n) p ((get p).0 ∷ r.0, r.1)
unfolding get
Reads-more n p r v h w = record {
  ring = w.ring;
  taken = rw (get_lem p v h).1 (ap (λ l. (get p).0 ∷ l) w.taken);
  left = rw (get_lem p v h).1 w.left;
  ends = w.ends;
}

pub read_from-Reads : (n : ℕ) (p : Pipe) → IsRing p → Reads n p (read_from n p)
unfolding read_from
read_from-Reads zero p v = record { ring = v; taken = refl; left = refl; ends = (refl, refl) }
read_from-Reads (suc n) p v = elim (Bool-cases (is_empty p)) [
  | inl none_left ↦ rw none_left (Reads-none (suc n) p v ((is_empty_lem p v).0 none_left))
  | inr more ↦
      let h = (is_empty_lem p v).1 more in
      rw more
        (Reads-more n p (read_from n (get p).1) v h (read_from-Reads n (get p).1 (get_lem p v h).0))
]

-- The abstract view: a byte queue and what came out of it.
pub data Transfer : Type 0 where
  sent : Bool → List ℕ → Transfer
  received : ℕ → Transfer

-- The bytes that go in, the bytes that come out, and the pipe after a sequence of transfers.
unfoldable pub transfers : Pipe → List Transfer → List ℕ × List ℕ × Pipe
transfers p [] = ([], [], p)
transfers p (sent killed cs ∷ ts) =
    let (i, o, p') = transfers (pipewrite killed p cs).1 ts in (take (room p) cs ++ i, o, p')
transfers p (received n ∷ ts) =
    let (i, o, p') = transfers (read_from n p).1 ts in (i, (read_from n p).0 ++ o, p')

take-drop : (n : ℕ) (l : List ℕ) → take n l ++ drop n l ≡ l
take-drop zero l = refl
take-drop (suc n) [] = refl
take-drop (suc n) (x ∷ l) = ap (λ t. x ∷ t) (take-drop n l)

-- From a well-formed pipe, over every sequence of writes and reads, what the pipe held followed
-- by the bytes that the writes had room for is, in order, what was read followed by what the pipe
-- still holds; and the pipe stays well formed.
pub transfers-in_order :
    (p : Pipe) (ts : List Transfer)
    → IsRing p
    → IsRing (transfers p ts).2
      × (contents p ++ (transfers p ts).0 ≡ (transfers p ts).1 ++ contents (transfers p ts).2)
unfolding transfers
transfers-in_order p [] v = (v, append-nil (contents p))
transfers-in_order p (sent killed cs ∷ ts) v =
    let w = pipewrite-Writes killed p cs v in
    let ih = transfers-in_order (pipewrite killed p cs).1 ts w.ring in
    let rest = transfers (pipewrite killed p cs).1 ts in
    (
      ih.0,
      sym (append_assoc (contents p) (take (room p) cs) rest.0)
          ∙ ap (λ l. l ++ rest.0) (sym w.queue)
          ∙ ih.1,
    )
transfers-in_order p (received n ∷ ts) v =
    let w = read_from-Reads n p v in
    let ih = transfers-in_order (read_from n p).1 ts w.ring in
    let rest = transfers (read_from n p).1 ts in
    (
      ih.0,
      ap (λ l. l ++ rest.0) (sym (take-drop n (contents p)) ∙ ap₂ ◌++◌ (sym w.taken) (sym w.left))
          ∙ append_assoc (read_from n p).0 (contents (read_from n p).1) rest.0
          ∙ ap (λ l. (read_from n p).0 ++ l) ih.1
          ∙ sym (append_assoc (read_from n p).0 rest.1 (contents rest.2)),
    )
