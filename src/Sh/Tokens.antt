-- ===== src/Sh/Tokens.antt =====
-- xv6/sh.c: how far `gettoken` goes on.
use tp2_ronaldo_joaopedro.Common.{
  ℕ, ◌<◌, ◌≤◌, true, false, ◌||◌, List, [], ◌∷◌, length, ◌≡◌, refl, ap, sym, ◌∙◌, inl, inr, arith,
  ◌==◌, Bool-cases,
}
use tp2_ronaldo_joaopedro.Sh.{
  among, whitespace, symbols, skip, word, token, gettoken, peek, starts_with, tail,
}

pub skip-le : (s : List ℕ) → length (skip s) ≤ length s
unfolding skip
skip-le [] = omega arith
skip-le (c ∷ cs) = elim (Bool-cases (among whitespace c)) [
  | inl white ↦ rw white (omega (arith, skip-le cs))
  | inr black ↦ rw black (omega arith)
]

word-le : (s : List ℕ) → length ((word s).1) ≤ length s
unfolding word
word-le [] = omega arith
word-le (c ∷ cs) = elim (Bool-cases (among whitespace c || among symbols c)) [
  | inl end ↦ rw end (omega arith)
  | inr letter ↦ rw letter (omega (arith, word-le cs))
]

tail-le : (s : List ℕ) → length (tail s) ≤ length s
tail-le [] = omega arith
tail-le (c ∷ cs) = omega arith

token-le : (s : List ℕ) → length ((token s).after) ≤ length s
unfolding token
token-le [] = omega arith
token-le (c ∷ cs) = elim (Bool-cases (among (b'|' ∷ b'(' ∷ b')' ∷ b';' ∷ b'&' ∷ b'<' ∷ []) c)) [
  | inl one ↦ rw one (omega arith)
  | inr other ↦ elim (Bool-cases (c == b'>')) [
    | inl greater ↦ elim (Bool-cases (starts_with b'>' cs)) [
      | inl twice ↦ rw (other, greater, twice) (omega (arith, tail-le cs))
      | inr once ↦ rw (other, greater, once) (omega arith)
    ]
    | inr letter ↦ rw (other, letter) (word-le (c ∷ cs))
  ]
]

word-shorter :
    (c : ℕ) (cs : List ℕ)
    → (among whitespace c || among symbols c) ≡ false
    → length ((word (c ∷ cs)).1) < length (c ∷ cs)
unfolding word
word-shorter c cs h = rw h (omega (arith, word-le cs))

-- A byte that is no white space and starts none of the other tokens starts a word.
letter_lem :
    (c : ℕ)
    → among whitespace c ≡ false
    → among (b'|' ∷ b'(' ∷ b')' ∷ b';' ∷ b'&' ∷ b'<' ∷ []) c ≡ false
    → (c == b'>') ≡ false
    → (among whitespace c || among symbols c) ≡ false
letter_lem c w o g = ground (arith, w, o, g)

token-shorter :
    (c : ℕ) (cs : List ℕ)
    → among whitespace c ≡ false
    → length ((token (c ∷ cs)).after) < length (c ∷ cs)
unfolding token
token-shorter c cs w = elim (Bool-cases (among (b'|' ∷ b'(' ∷ b')' ∷ b';' ∷ b'&' ∷ b'<' ∷ []) c)) [
  | inl one ↦ rw one (omega arith)
  | inr other ↦ elim (Bool-cases (c == b'>')) [
    | inl greater ↦ elim (Bool-cases (starts_with b'>' cs)) [
      | inl twice ↦ rw (other, greater, twice) (omega (arith, tail-le cs))
      | inr once ↦ rw (other, greater, once) (omega arith)
    ]
    | inr letter ↦ rw (other, letter) (word-shorter c cs (letter_lem c w other letter))
  ]
]

skip-black : (s : List ℕ) (c : ℕ) (cs : List ℕ) → skip s ≡ c ∷ cs → among whitespace c ≡ false
unfolding skip
skip-black [] c cs e = absurd (ground (arith, e))
skip-black (d ∷ ds) c cs e = elim (Bool-cases (among whitespace d)) [
  | inl white ↦ skip-black ds c cs (rw white at e)
  | inr black ↦
      let same : d ≡ c = ground (arith, (rw black at e)) in ap (among whitespace) (sym same) ∙ black
]

pub gettoken-le : (s : List ℕ) → length ((gettoken s).after) ≤ length s
unfolding gettoken
gettoken-le s = omega (arith, skip-le ((token (skip s)).after), token-le (skip s), skip-le s)

-- A token that is there is taken off.
pub gettoken-shorter :
    (s : List ℕ) (c : ℕ) (cs : List ℕ) → skip s ≡ c ∷ cs → length ((gettoken s).after) < length s
unfolding gettoken
gettoken-shorter s c cs e =
    let taken : length ((token (skip s)).after) < length (c ∷ cs) =
      rw e (token-shorter c cs (skip-black s c cs e)) in
    omega (arith, skip-le ((token (skip s)).after), taken, skip-le s, ap length e)

pub gettoken-peek : (toks s : List ℕ) → peek toks s ≡ true → length ((gettoken s).after) < length s
unfolding peek
gettoken-peek toks s h = by_rest (skip s) refl
  where
    by_rest : (l : List ℕ) → skip s ≡ l → length ((gettoken s).after) < length s
    by_rest [] e = absurd (ground (arith, (rw (e, peek) at h)))
    by_rest (c ∷ cs) e = gettoken-shorter s c cs e

gettoken-end : (s : List ℕ) → skip s ≡ [] → (gettoken s).kind ≡ 0
unfolding gettoken token
gettoken-end s e = rw e refl

pub gettoken-kind :
    (s : List ℕ) → ((gettoken s).kind == 0) ≡ false → length ((gettoken s).after) < length s
gettoken-kind s h = by_rest (skip s) refl
  where
    by_rest : (l : List ℕ) → skip s ≡ l → length ((gettoken s).after) < length s
    by_rest [] e = absurd (ground (arith, h, gettoken-end s e))
    by_rest (c ∷ cs) e = gettoken-shorter s c cs e
