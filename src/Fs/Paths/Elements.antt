-- ===== src/Fs/Paths/Elements.antt =====
-- xv6/fs.c: `skipelem` takes a path apart.
use tp2_ronaldo_joaopedro.Common.{
  ℕ, ◌<◌, none, some, List, [], ◌∷◌, ◌++◌, length, length-append, take, All, ◌≡◌, ◌≢◌, ◌⊎◌, refl,
  ap, sym, subst, ◌∙◌, inl, inr, arith, ◌==◌, ==_ne, Bool-cases, append-nil,
}
use tp2_ronaldo_joaopedro.Fs.Paths.{slash, skip_slashes, element, skipelem}

abbrev pub Slashes : List ℕ → Type 0
Slashes = All (λ c. c ≡ slash)

abbrev pub NoSlash : List ℕ → Type 0
NoSlash = All (λ c. c ≢ slash)

-- The path does not go on with a slash.
abbrev pub IsStripped : List ℕ → Type 0
IsStripped [] = Unit {0}
IsStripped (c ∷ cs) = c ≢ slash

pub skip_slashes_lem :
    (path : List ℕ)
    → (lead : List ℕ) × (path ≡ lead ++ skip_slashes path)
      × Slashes lead
      × IsStripped (skip_slashes path)
unfolding skip_slashes
skip_slashes_lem [] = ([], refl, tt, tt)
skip_slashes_lem (c ∷ cs) = elim (Bool-cases (c == slash)) [
  | inl is ↦
      let (lead, e, s, st) = skip_slashes_lem cs in
      rw is (c ∷ lead, ap (λ l. c ∷ l) e, (ground (arith, is), s), st)
  | inr other ↦ rw other ([], refl, tt, λ e. ground (arith, other, e))
]

-- An element, up to a slash or the end.
abbrev pub IsEnd : List ℕ → Type 0
IsEnd [] = Unit {0}
IsEnd (c ∷ cs) = c ≡ slash

element_lem :
    (path : List ℕ)
    → (path ≡ (element path).0 ++ (element path).1)
      × NoSlash ((element path).0)
      × IsEnd ((element path).1)
unfolding element
element_lem [] = (refl, tt, tt)
element_lem (c ∷ cs) = elim (Bool-cases (c == slash)) [
  | inl is ↦ rw is (refl, tt, ground (arith, is))
  | inr other ↦
      let (e, s, st) = element_lem cs in
      rw other (ap (λ l. c ∷ l) e, ((λ z. ground (arith, other, z)), s), st)
]

-- How `skipelem` takes a path apart.
pub record Split (path elem rest : List ℕ) : Type 0 where
  pub lead : List ℕ
  pub trail : List ℕ
  pub whole : path ≡ lead ++ (elem ++ (trail ++ rest))
  pub lead_slashes : Slashes lead
  pub some_elem : 0 < length elem
  pub elem_plain : NoSlash elem
  pub trail_slashes : Slashes trail
  pub parted : (rest ≡ []) ⊎ (0 < length trail)
  pub stripped : IsStripped rest

parted-by :
    (l trail rest : List ℕ)
    → l ≡ trail ++ rest
    → IsEnd l
    → IsStripped rest
    → (rest ≡ []) ⊎ (0 < length trail)
parted-by l (t ∷ ts) rest e h st = inr (omega arith)
parted-by l [] [] e h st = inl refl
parted-by l [] (r ∷ rs) e h st = absurd (st (subst IsEnd e h))

element-plain :
    (c : ℕ) (cs : List ℕ) → c ≢ slash → element (c ∷ cs) ≡ (c ∷ (element cs).0, (element cs).1)
unfolding element
element-plain c cs h = rw (==_ne c slash h) refl

append-nil-Slashes : (path lead : List ℕ) → path ≡ lead ++ [] → Slashes lead → Slashes path
append-nil-Slashes path lead e s = subst Slashes (sym (e ∙ append-nil lead)) s

-- skipelem finds nothing in a path of slashes only; else the path is slashes, then the element, which has a
-- byte and no slash, then slashes, if anything follows, then the rest, which starts with no slash.
-- It returns the first 14 bytes of the element, and the rest.
pub skipelem-Split :
    (path : List ℕ)
    → ((skipelem path ≡ none) × Slashes path)
      ⊎ ((elem : List ℕ) × (rest : List ℕ) × (skipelem path ≡ some (take 14 elem, rest))
          × Split path elem rest)
unfolding skipelem
skipelem-Split path =
    let (lead, e, s, st) = skip_slashes_lem path in by_start (skip_slashes path) lead refl e s st
  where
    Result : Type 0
    Result =
        ((skipelem path ≡ none) × Slashes path)
        ⊎ ((elem : List ℕ) × (rest : List ℕ) × (skipelem path ≡ some (take 14 elem, rest))
            × Split path elem rest)

    by_start :
        (l lead : List ℕ)
        → skip_slashes path ≡ l
        → path ≡ lead ++ l
        → Slashes lead
        → IsStripped l
        → Result
    by_start [] lead is e s st = inl (rw (is, skipelem) refl, append-nil-Slashes path lead e s)
    by_start (c ∷ cs) lead is e s st =
        let (e2, plain, end) = element_lem (c ∷ cs) in
        let (trail, e3, s3, st3) = skip_slashes_lem ((element (c ∷ cs)).1) in
        inr (
          (element (c ∷ cs)).0,
          skip_slashes ((element (c ∷ cs)).1),
          rw (is, skipelem) refl,
          record {
            lead = lead;
            trail = trail;
            whole = e ∙ ap (λ t. lead ++ t) (e2 ∙ ap (λ t. (element (c ∷ cs)).0 ++ t) e3);
            lead_slashes = s;
            some_elem = rw (element-plain c cs st) (omega arith);
            elem_plain = plain;
            trail_slashes = s3;
            parted =
                parted-by ((element (c ∷ cs)).1) trail (skip_slashes ((element (c ∷ cs)).1)) e3 end
                  st3;
            stripped = st3;
          },
        )

-- What skipelem leaves of a path is shorter.
pub skipelem-shorter :
    (path name rest : List ℕ) → skipelem path ≡ some (name, rest) → length rest < length path
skipelem-shorter path name rest e = elim (skipelem-Split path) [
  | inl (nothing, s) ↦ absurd (ground (arith, nothing, e))
  | inr (elem, rest', e', sp) ↦
      let same : rest' ≡ rest = ground (arith, e, e') in
      let long : length path ≡ length (sp.lead ++ (elem ++ (sp.trail ++ rest'))) =
        ap length sp.whole in
      omega (
        arith,
        ap length same,
        long,
        sp.some_elem,
        length-append sp.lead (elem ++ (sp.trail ++ rest')),
        length-append elem (sp.trail ++ rest'),
        length-append sp.trail rest',
      )
]
