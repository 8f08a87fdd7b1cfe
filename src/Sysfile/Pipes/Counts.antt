-- ===== src/Sysfile/Pipes/Counts.antt =====
-- xv6/pipe.c: `pipealloc` and the counts of the file table.
use tp2_ronaldo_joaopedro.Common.{
  ℕ, zero, suc, ◌+◌, Bool, not, true, false, Option, Option-cases, none, some, List, [], ◌∷◌, ◌≡◌,
  ◌≢◌, ◌⊎◌, refl, ap, sym, ◌∙◌, inl, inr, arith, ◌==◌, ==_refl, update, if◌then◌else◌, Bool-cases,
}
use tp2_ronaldo_joaopedro.File.{
  Files, File, Closing, fd_pipe, filealloc_from, filealloc, fileclose, nfile,
}
use tp2_ronaldo_joaopedro.Sysfile.Descriptors.{fileclose-held}
use tp2_ronaldo_joaopedro.Sysfile.Pipes.{close_all, pipealloc, pipe_ends}

-- The counts of the file table.
abbrev pub HasCounts : Files → (ℕ → ℕ) → Type 0
HasCounts files w = (i : ℕ) → (files i).ref ≡ w i

-- One reference more.
abbrev pub plus : ℕ → (ℕ → ℕ) → ℕ → ℕ
plus f w i = (if f == i then 1 else 0) + w i

filealloc_from-free :
    (files : Files) (w : ℕ → ℕ) (n j : ℕ)
    → HasCounts files w
    → (filealloc_from files n j ≡ none)
      ⊎ ((f : ℕ) × (files' : Files) × (filealloc_from files n j ≡ some (f, files'))
          × ((files f).ref ≡ 0)
          × HasCounts files' (plus f w))
unfolding filealloc_from
filealloc_from-free files w zero j h = inl refl
filealloc_from-free files w (suc n) j h = elim (Bool-cases ((files j).ref == 0)) [
  | inl free ↦ inr (
    j,
    update files j (record (files j) { ref = 1 }),
    rw free refl,
    ground (arith, free),
    λ i. ground (arith, h i, h j, free),
  )
  | inr used ↦ rw used (filealloc_from-free files w n (j + 1) h)
]

filealloc-free :
    (files : Files) (w : ℕ → ℕ)
    → HasCounts files w
    → (filealloc files ≡ none)
      ⊎ ((f : ℕ) × (files' : Files) × (filealloc files ≡ some (f, files'))
          × ((files f).ref ≡ 0)
          × HasCounts files' (plus f w))
unfolding filealloc
filealloc-free files w h = filealloc_from-free files w nfile 0 h

fileclose-plus :
    (files : Files) (f : ℕ) (w : ℕ → ℕ)
    → HasCounts files (plus f w)
    → (files' : Files) × (c : Closing) × (fileclose files f ≡ some (files', c)) × HasCounts files' w
fileclose-plus files f w h =
    let one : (f == f) ≡ true = ==_refl f in
    let here : (files f).ref ≡ 1 + w f = h f ∙ rw one refl in
    let (g, done, left) = fileclose-held files f (w f) (omega (arith, here)) in
    (
      update files f g,
      _,
      done,
      λ i. elim (Bool-cases (f == i)) [
        | inl here ↦ let e : f ≡ i = ground (arith, here) in rw here (left ∙ ap w e)
        | inr there ↦
            let gone : (files i).ref ≡ 0 + w i = h i ∙ rw there refl in
            rw there (omega (arith, gone))
      ],
    )

pub close_two :
    (files : Files) (f g : ℕ) (w : ℕ → ℕ)
    → HasCounts files (plus f (plus g w))
    → (files' : Files) × (cs : List Closing) × (close_all files (f ∷ g ∷ []) ≡ some (files', cs))
      × HasCounts files' w
close_two files f g w h =
    let (files1, c1, e1, h1) = fileclose-plus files f (plus g w) h in
    let (files2, c2, e2, h2) = fileclose-plus files1 g w h1 in
    (files2, c1 ∷ c2 ∷ [], rw (e1, e2, close_all) refl, h2)

-- One end of the pipe at `p`.
abbrev pub IsEnd : File → Bool → ℕ → Type 0
IsEnd f reads p =
    (f.kind ≡ fd_pipe) × (f.readable ≡ reads) × (f.writable ≡ not reads) × (f.pipe ≡ p)

abbrev pub IsPiped : Files → (ℕ → ℕ) → ℕ → ℕ → ℕ → Files → Type 0
IsPiped files w rf wf p files' =
    (w rf ≡ 0)
    × (w wf ≡ 0)
    × (rf ≢ wf)
    × IsEnd (files' rf) true p
    × IsEnd (files' wf) false p
    × HasCounts files' (plus rf (plus wf w))

swapped :
    (files : Files) (f g : ℕ) (w : ℕ → ℕ)
    → HasCounts files (plus g (plus f w))
    → HasCounts files (plus f (plus g w))
swapped files f g w h i = omega (arith, h i)

written_ref :
    (rf p : ℕ) (files : Files) (i : ℕ)
    → (update files rf
        (record (files rf) { kind = fd_pipe; readable = true; writable = false; pipe = p })
        i).ref
      ≡ (files i).ref
written_ref rf p files i = elim (Bool-cases (rf == i)) [
  | inl here ↦ let e : rf ≡ i = ground (arith, here) in rw here (ap (λ k. (files k).ref) e)
  | inr there ↦ rw there refl
]

pipe_ends-ref :
    (rf wf p : ℕ) (files : Files) (i : ℕ) → (pipe_ends rf wf p files i).ref ≡ (files i).ref
pipe_ends-ref rf wf p files i = elim (Bool-cases (wf == i)) [
  | inl here ↦
      let e : wf ≡ i = ground (arith, here) in
      rw here (written_ref rf p files wf ∙ ap (λ k. (files k).ref) e)
  | inr there ↦ rw there (written_ref rf p files i)
]

pipe_ends-IsPiped :
    (files : Files) (w : ℕ → ℕ) (rf wf p : ℕ) (files1 : Files)
    → w rf ≡ 0
    → plus rf w wf ≡ 0
    → HasCounts files1 (plus wf (plus rf w))
    → IsPiped files w rf wf p (pipe_ends rf wf p files1)
pipe_ends-IsPiped files w rf wf p files1 a b h =
    let apart : (rf == wf) ≡ false = ground (arith, b) in
    let apart' : (wf == rf) ≡ false = ground (arith, apart) in
    (
      a,
      ground (arith, b, apart),
      ground (arith, apart),
      rw (apart', ==_refl rf) (refl, refl, refl, refl),
      rw (==_refl wf) (refl, refl, refl, refl),
      λ i. pipe_ends-ref rf wf p files1 i ∙ swapped files1 rf wf w h i,
    )

pub pipealloc-IsPiped :
    (files : Files) (w : ℕ → ℕ) (page : Option ℕ)
    → HasCounts files w
    → ((files' : Files) × (cs : List Closing) × (pipealloc files page ≡ some (none, files', cs))
        × HasCounts files' w)
      ⊎ ((rf : ℕ) × (wf : ℕ) × (p : ℕ) × (files' : Files) × (pipealloc files page
            ≡ some (some (rf, wf), files', []))
          × (page ≡ some p)
          × IsPiped files w rf wf p files')
unfolding pipealloc
pipealloc-IsPiped files w page h = elim (filealloc-free files w h) [
  | inl no_file ↦ inl (files, [], rw no_file refl, h)
  | inr (rf, files0, e0, free0, h0) ↦ elim (filealloc-free files0 (plus rf w) h0) [
    | inl no_second ↦
        let (files', c, e, h') = fileclose-plus files0 rf w h0 in
        inl (files', c ∷ [], rw (e0, no_second, e, close_all) refl, h')
    | inr (wf, files1, e1, free1, h1) ↦ elim (Option-cases page) [
      | inl no_page ↦
          let (files', cs, e, h') = close_two files1 rf wf w (swapped files1 rf wf w h1) in
          inl (files', cs, rw (e0, e1, no_page, e) refl, h')
      | inr (p, there) ↦ inr (
        rf,
        wf,
        p,
        pipe_ends rf wf p files1,
        rw (e0, e1, there) refl,
        there,
        pipe_ends-IsPiped files w rf wf p files1 (sym (h rf) ∙ free0) (sym (h0 wf) ∙ free1) h1,
      )
    ]
  ]
]
