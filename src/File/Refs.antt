-- ===== src/File/Refs.antt =====
-- The reference counts of file.c, for holders of files that go by filealloc, filedup and fileclose.
use tp2_ronaldo_joaopedro.Common.{
  ℕ, zero, suc, ◌+◌, ◌-◌, ◌<◌, ◌≤◌, Option, none, some, List, [], ◌∷◌, ◌≡◌, ◌≢◌, refl, arith, ◌==◌,
  ltb, update, if◌then◌else◌, Bool-cases, inl, inr,
}
use tp2_ronaldo_joaopedro.File.{
  Files, File, fd_none, filealloc_from, filealloc, filedup, fileclose, kept, closing, nfile,
}

-- How often slot `i` stands among the references that are held.
abbrev pub count : ℕ → List ℕ → ℕ
count i [] = 0
count i (x ∷ xs) = (if i == x then 1 else 0) + count i xs

-- The references less one of slot `i`.
abbrev pub release_one : ℕ → List ℕ → List ℕ
release_one i [] = []
release_one i (x ∷ xs) = if i == x then xs else x ∷ release_one i xs

abbrev pub IsCounted : Files → List ℕ → Type 0
IsCounted files held = (i : ℕ) → (files i).ref ≡ count i held

count-release_self : (i : ℕ) (l : List ℕ) → count i (release_one i l) ≡ count i l - 1
count-release_self i [] = refl
count-release_self i (x ∷ xs) = ground (arith, count-release_self i xs)

count-release_ne : (i j : ℕ) (l : List ℕ) → i ≢ j → count j (release_one i l) ≡ count j l
count-release_ne i j [] h = refl
count-release_ne i j (x ∷ xs) h = ground (arith, count-release_ne i j xs h)

-- A search of `n` slots from `j` on finds a slot that nobody holds and hands out one reference to
-- it, or every one of the slots is held.
abbrev pub Allocated : Files → List ℕ → ℕ → ℕ → Option (ℕ × Files) → Type 0
Allocated files held n j none = (k : ℕ) → j ≤ k → k < j + n → 0 < count k held
Allocated files held n j (some (i, files')) =
    (j ≤ i) × (i < j + n) × (count i held ≡ 0) × IsCounted files' (i ∷ held)

later :
    (files : Files) (held : List ℕ) (n j : ℕ) (o : Option (ℕ × Files))
    → 0 < count j held
    → Allocated files held n (j + 1) o
    → Allocated files held (suc n) j o
later files held n j none used h = λ k a b. elim (Bool-cases (j == k)) [
  | inl here ↦ ground (arith, here, used)
  | inr there ↦ h k (ground (arith, there)) (omega arith)
]
later files held n j (some (i, files')) used h = (omega (arith, h.0), omega (arith, h.1), h.2, h.3)

filealloc_from-Allocated :
    (files : Files) (held : List ℕ) (n j : ℕ)
    → IsCounted files held
    → Allocated files held n j (filealloc_from files n j)
unfolding filealloc_from
filealloc_from-Allocated files held zero j c = λ k a b. absurd (omega arith)
filealloc_from-Allocated files held (suc n) j c = elim (Bool-cases ((files j).ref == 0)) [
  | inl free ↦
      rw free
        (omega arith, omega arith, ground (arith, c j, free), λ k. ground (arith, c j, c k, free))
  | inr used ↦ rw used (
      later files held n j (filealloc_from files n (j + 1)) (ground (arith, c j, used))
        (filealloc_from-Allocated files held n (j + 1) c))
]

-- Where the counts of the file table are the numbers of references held, filealloc hands out one
-- reference to a slot of the table that nobody holds, or fails and every slot of the table is
-- held.
pub filealloc-Allocated :
    (files : Files) (held : List ℕ)
    → IsCounted files held
    → Allocated files held nfile 0 (filealloc files)
unfolding filealloc
filealloc-Allocated files held c = filealloc_from-Allocated files held nfile 0 c

-- Where the counts of the file table are the numbers of references held, filedup of a held file
-- does not meet the panic and adds one reference to it.
pub filedup-IsCounted :
    (files : Files) (held : List ℕ) (i : ℕ)
    → IsCounted files held
    → 0 < count i held
    → (files' : Files) × (filedup files i ≡ some files') × IsCounted files' (i ∷ held)
unfolding filedup
filedup-IsCounted files held i c h = (
  update files i (record (files i) { ref = (files i).ref + 1 }),
  ground (arith, c i),
  λ j. ground (arith, c i, c j),
)

IsCounted-release :
    (files : Files) (held : List ℕ) (i : ℕ) (f : File)
    → IsCounted files held
    → f.ref ≡ count i (release_one i held)
    → IsCounted (update files i f) (release_one i held)
IsCounted-release files held i f c e j = elim (Bool-cases (i == j)) [
  | inl here ↦ ground (arith, here, e)
  | inr there ↦ ground (arith, there, c j, count-release_ne i j held)
]

-- Where the counts of the file table are the numbers of references held, fileclose of a held file
-- does not meet the panic and takes one of its references away; it closes what is behind the file
-- exactly if that was the last one.
pub fileclose-IsCounted :
    (files : Files) (held : List ℕ) (i : ℕ)
    → IsCounted files held
    → 0 < count i held
    → (files' : Files) × (fileclose files i
        ≡ some (files', if count i (release_one i held) == 0 then closing (files i) else kept))
      × IsCounted files' (release_one i held)
unfolding fileclose
fileclose-IsCounted files held i c h =
    let k = count-release_self i held in
    elim (Bool-cases (ltb 0 ((files i).ref - 1))) [
      | inl more ↦
          let f = record (files i) { ref = (files i).ref - 1 } in
          (
            update files i f,
            rw more (ground (arith, c i, more, k)),
            IsCounted-release files held i f c (omega (arith, c i, k)),
          )
      | inr last ↦
          let f = record (files i) { ref = 0; kind = fd_none } in
          (
            update files i f,
            rw last (ground (arith, c i, last, k)),
            IsCounted-release files held i f c (ground (arith, c i, k, last)),
          )
    ]
