-- ===== src/Pipe/Ring.antt =====
-- The ring of pipe.c as a queue of the bytes written and not yet read, oldest first.
use tp2_ronaldo_joaopedro.Common.{
  ℕ, zero, suc, ◌+◌, ◌%◌, ◌^◌, ◌≤◌, ◌<◌, true, false, List, [], ◌∷◌, ◌++◌, length, get_or, set,
  length-set, get_or-set_self, get_or-set_ne, ◌≡◌, refl, ap, ap₂, ◌∙◌, arith,
}
use tp2_ronaldo_joaopedro.Machine.{sub32}
use tp2_ronaldo_joaopedro.Pipe.{Pipe, put, get, is_full, is_empty}

-- The `n` bytes from counter `r` on.
abbrev pub window : List ℕ → ℕ → ℕ → List ℕ
window bytes r zero = []
window bytes r (suc n) = get_or bytes (r % 512) 0 ∷ window bytes ((r + 1) % 2 ^ 32) n

-- How many bytes the pipe holds; the counters wrap.
abbrev pub size : Pipe → ℕ
size p = sub32 p.nwrite p.nread

abbrev pub contents : Pipe → List ℕ
contents p = window p.bytes p.nread (size p)

pub record IsRing (p : Pipe) : Type 0 where
  pub page : length p.bytes ≡ 512
  pub read_word : p.nread < 2 ^ 32
  pub write_word : p.nwrite < 2 ^ 32
  pub fits : size p ≤ 512

-- The tests of the code say what they mean.
pub is_full_lem :
    (p : Pipe) → IsRing p → (is_full p ≡ true → size p ≡ 512) × (is_full p ≡ false → size p < 512)
unfolding is_full
is_full_lem p v = (λ e. ground arith, λ e. ground arith)

pub is_empty_lem :
    (p : Pipe) → IsRing p → (is_empty p ≡ true → size p ≡ 0) × (is_empty p ≡ false → 0 < size p)
unfolding is_empty
is_empty_lem p v = (λ e. ground arith, λ e. ground arith)

-- Writing just past a window extends it.
window-set :
    (bytes : List ℕ) (n r i c : ℕ)
    → length bytes ≡ 512
    → n < 512
    → i ≡ (r + n) % 512
    → window (set bytes i c) r (suc n) ≡ window bytes r n ++ c ∷ []
window-set bytes zero r i c h k e =
    let e' : r % 512 ≡ i = omega arith in
    ap (λ x. x ∷ []) (ground (arith, get_or-set_self bytes i c 0))
window-set bytes (suc n) r i c h k e =
    ap₂ ◌∷◌ (get_or-set_ne bytes i (r % 512) c 0 (omega arith))
      (window-set bytes n ((r + 1) % 2 ^ 32) i c h (omega arith) (omega arith))

pub length-window : (bytes : List ℕ) (r n : ℕ) → length (window bytes r n) ≡ n
length-window bytes r zero = refl
length-window bytes r (suc n) = ap suc (length-window bytes ((r + 1) % 2 ^ 32) n)

pub size-put : (p : Pipe) (c : ℕ) → IsRing p → size p < 512 → size (put p c) ≡ suc (size p)
unfolding put
size-put p c v h = omega arith

pub size-get : (p : Pipe) → IsRing p → 0 < size p → size p ≡ suc (size (get p).1)
unfolding get
size-get p v h = omega arith

-- A byte written to a pipe that is not full goes to the end of the queue.
pub put_lem :
    (p : Pipe) (c : ℕ)
    → IsRing p
    → size p < 512
    → IsRing (put p c) × (contents (put p c) ≡ contents p ++ c ∷ [])
unfolding put
put_lem p c v h = (
  record {
    page = ground (arith, length-set p.bytes (p.nwrite % 512) c);
    read_word = v.read_word;
    write_word = omega arith;
    fits = omega arith;
  },
  ap (window (set p.bytes (p.nwrite % 512) c) p.nread) (size-put p c v h)
      ∙ window-set p.bytes (size p) p.nread (p.nwrite % 512) c v.page h (omega arith),
)

-- A byte read from a pipe that is not empty is the oldest one.
pub get_lem :
    (p : Pipe)
    → IsRing p
    → 0 < size p
    → IsRing (get p).1 × (contents p ≡ (get p).0 ∷ contents (get p).1)
unfolding get
get_lem p v h = (omega arith, ap (window p.bytes p.nread) (size-get p v h))
