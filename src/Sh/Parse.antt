-- ===== src/Sh/Parse.antt =====
-- xv6/sh.c: when the parser comes to an end, and how many arguments a command gets.
use tp2_ronaldo_joaopedro.Common.{
  ℕ, zero, suc, ◌+◌, ◌*◌, ◌<◌, ◌≤◌, true, List, [], ◌∷◌, ◌++◌, length, length-append, ◌≡◌, inl, inr,
  arith, ◌==◌, ◌!=◌, leb, if◌then◌else◌, Bool-cases,
}
use tp2_ronaldo_joaopedro.Sh.{
  Redir, Cmd, execcmd, redircmd, pipecmd, listcmd, backcmd, skip, gettoken, peek, Parsed, parsed,
  syntax, out_of_fuel, Parser, ◌>>=◌, pure, redir_of, wrap, redirs_from, parseredirs, args_from,
  backs_from, close_block, parseline, parsepipe, parseexec, whole_line, parsecmd,
}
use tp2_ronaldo_joaopedro.Sh.Tokens.{skip-le, gettoken-le, gettoken-peek, gettoken-kind}

-- A parser that has come to an end: with at most `n` bytes left and `P` of what it has read, or with a
-- syntax error.
abbrev pub Good : {A : Type 0} → ℕ → (A → Type 0) → Parsed A → Type 0
Good n P (parsed a s) = P a × (length s ≤ n)
Good n P syntax = Unit {0}
Good n P out_of_fuel = ⊥

then-Good :
    {A B : Type 0} (n : ℕ) (P : A → Type 0) (Q : B → Type 0) (o : Parsed A) (f : A → Parser B)
    → Good n P o
    → ((a : A) (s : List ℕ) → P a → length s ≤ n → Good n Q (f a s))
    → Good n Q (elim o [ parsed a s ↦ f a s | syntax ↦ syntax | out_of_fuel ↦ out_of_fuel ])
then-Good n P Q (parsed a s) f h k = k a s h.0 h.1
then-Good n P Q syntax f h k = tt
then-Good n P Q out_of_fuel f h k = h

weaken-Good :
    {A : Type 0} (m n : ℕ) (P : A → Type 0) (o : Parsed A) → m ≤ n → Good m P o → Good n P o
weaken-Good m n P (parsed a s) le h = (h.0, omega (arith, h.1, le))
weaken-Good m n P syntax le h = tt
weaken-Good m n P out_of_fuel le h = h

abbrev Whatever : {A : Type 0} → A → Type 0
Whatever a = Unit {0}

-- Every simple command of a command has room for the 0 behind its arguments.
abbrev pub IsSmall : Cmd → Type 0
IsSmall (execcmd argv) = length argv < 10
IsSmall (redircmd cmd r) = IsSmall cmd
IsSmall (pipecmd left right) = IsSmall left × IsSmall right
IsSmall (listcmd left right) = IsSmall left × IsSmall right
IsSmall (backcmd cmd) = IsSmall cmd

wrap-IsSmall : (cmd : Cmd) (rs : List Redir) → IsSmall cmd → IsSmall (wrap cmd rs)
wrap-IsSmall cmd [] h = h
wrap-IsSmall cmd (r ∷ rs) h = wrap-IsSmall (redircmd cmd r) rs h

redirs_from-Good :
    (fuel : ℕ) (rs : List Redir) (s : List ℕ)
    → length s < fuel
    → Good (length s) Whatever (redirs_from fuel rs s)
unfolding redirs_from
redirs_from-Good zero rs s f = absurd (omega arith)
redirs_from-Good (suc fuel) rs s f = elim (Bool-cases (peek (b'<' ∷ b'>' ∷ []) s)) [
  | inr other ↦ rw other (tt, skip-le s)
  | inl here ↦
      let tok = gettoken s in
      let file = gettoken tok.after in
      let shorter : length file.after < length s =
        omega (arith, gettoken-peek (b'<' ∷ b'>' ∷ []) s here, gettoken-le tok.after) in
      elim (Bool-cases (file.kind == b'a')) [
        | inr bad ↦ rw (here, bad) tt
        | inl good ↦
            rw (here, good)
              (weaken-Good (length file.after) (length s) Whatever _ (omega (arith, shorter)) (
                redirs_from-Good fuel (rs ++ redir_of tok.kind file.text ∷ []) file.after
                  (omega (arith, shorter, f))))
      ]
]

parseredirs-Good : (rs : List Redir) (s : List ℕ) → Good (length s) Whatever (parseredirs rs s)
unfolding parseredirs
parseredirs-Good rs s = redirs_from-Good (suc (length s)) rs s (omega arith)

args_from-Good :
    (fuel : ℕ) (argv : List (List ℕ)) (rs : List Redir) (s : List ℕ)
    → length s < fuel
    → length argv < 10
    → Good (length s) IsSmall (args_from fuel argv rs s)
unfolding args_from
args_from-Good zero argv rs s f a = absurd (omega arith)
args_from-Good (suc fuel) argv rs s f a =
    elim (Bool-cases (peek (b'|' ∷ b')' ∷ b'&' ∷ b';' ∷ []) s)) [
      | inl ends ↦ rw ends (wrap-IsSmall (execcmd argv) rs a, skip-le s)
      | inr goes_on ↦ rw goes_on (elim (Bool-cases ((gettoken s).kind == 0)) [
        | inl nothing ↦ rw nothing (wrap-IsSmall (execcmd argv) rs a, gettoken-le s)
        | inr something ↦ rw something (elim (Bool-cases ((gettoken s).kind != b'a')) [
          | inl bad ↦ rw bad tt
          | inr word ↦ rw word (elim (Bool-cases (leb 10 (length argv + 1))) [
            | inl full ↦ rw full tt
            | inr room ↦ rw room (
                next (gettoken-kind s something) (ground (arith, room))
                  (λ argv' rs' s'. args_from-Good fuel argv' rs' s'))
          ])
        ])
      ])
    ]
  where
    next :
        length ((gettoken s).after) < length s
        → length argv + 1 < 10
        → ((argv' : List (List ℕ)) (rs' : List Redir) (s' : List ℕ)
            → length s' < fuel
            → length argv' < 10
            → Good (length s') IsSmall (args_from fuel argv' rs' s'))
        → Good (length s) IsSmall (
            (parseredirs rs >>= λ rs'. args_from fuel (argv ++ (gettoken s).text ∷ []) rs')
              ((gettoken s).after))
    next shorter room later =
        let after = (gettoken s).after in
        weaken-Good (length after) (length s) IsSmall _ (omega (arith, shorter)) (
          then-Good (length after) Whatever IsSmall (parseredirs rs after) _
            (parseredirs-Good rs after)
            (λ rs' s' t le. weaken-Good (length s') (length after) IsSmall _ le (
              later (argv ++ (gettoken s).text ∷ []) rs' s' (omega (arith, le, shorter, f))
                (omega (arith, room, length-append argv ((gettoken s).text ∷ []))))))

backs_from-Good :
    (fuel : ℕ) (cmd : Cmd) (s : List ℕ)
    → length s < fuel
    → IsSmall cmd
    → Good (length s) IsSmall (backs_from fuel cmd s)
unfolding backs_from
backs_from-Good zero cmd s f h = absurd (omega arith)
backs_from-Good (suc fuel) cmd s f h = elim (Bool-cases (peek (b'&' ∷ []) s)) [
  | inr other ↦ rw other (h, skip-le s)
  | inl here ↦
      let after = (gettoken s).after in
      let shorter = gettoken-peek (b'&' ∷ []) s here in
      rw here (
        weaken-Good (length after) (length s) IsSmall _ (omega (arith, shorter))
          (backs_from-Good fuel (backcmd cmd) after (omega (arith, shorter, f)) h))
]

close_block-Good :
    (cmd : Cmd) (s : List ℕ) → IsSmall cmd → Good (length s) IsSmall (close_block cmd s)
unfolding close_block
close_block-Good cmd s h = elim (Bool-cases (peek (b')' ∷ []) s)) [
  | inr missing ↦ rw missing tt
  | inl here ↦
      let after = (gettoken s).after in
      rw here (
        weaken-Good (length after) (length s) IsSmall _
          (omega (arith, gettoken-peek (b')' ∷ []) s here))
          (then-Good (length after) Whatever IsSmall (parseredirs [] after) _
            (parseredirs-Good [] after) (λ rs s' t le. (wrap-IsSmall cmd rs h, le))))
]

-- A second command after a separator, put together with the first.
second-Good :
    (left : Cmd) (join : Cmd → Cmd → Cmd) (rest : Parser Cmd) (toks s : List ℕ)
    → IsSmall left
    → ((right : Cmd) → IsSmall right → IsSmall (join left right))
    → (peek toks s ≡ true → Good (length ((gettoken s).after)) IsSmall (rest ((gettoken s).after)))
    → Good (length s) IsSmall (
        if peek toks s
        then (rest >>= λ right. pure (join left right)) ((gettoken s).after)
        else parsed left (skip s))
second-Good left join rest toks s h j later = elim (Bool-cases (peek toks s)) [
  | inr other ↦ rw other (h, skip-le s)
  | inl here ↦
      let after = (gettoken s).after in
      rw here (
        weaken-Good (length after) (length s) IsSmall _ (omega (arith, gettoken-peek toks s here)) (
          then-Good (length after) IsSmall IsSmall (rest after) _ (later here)
            (λ right s' r le. (j right r, le))))
]

-- What fuel is enough for.
pub record Enough (fuel : ℕ) : Type 0 where
  pub line : (s : List ℕ) → 3 * length s + 3 ≤ fuel → Good (length s) IsSmall (parseline fuel s)
  pub pipe : (s : List ℕ) → 3 * length s + 2 ≤ fuel → Good (length s) IsSmall (parsepipe fuel s)
  pub exec : (s : List ℕ) → 3 * length s + 1 ≤ fuel → Good (length s) IsSmall (parseexec fuel s)

module _ (fuel : ℕ) (h : Enough fuel) where
  line-Good :
      (s : List ℕ) → 3 * length s + 3 ≤ suc fuel → Good (length s) IsSmall (parseline (suc fuel) s)
  unfolding parseline
  line-Good s f =
      then-Good (length s) IsSmall IsSmall (parsepipe fuel s) _ (h.pipe s (omega (arith, f)))
        (λ cmd s1 c le1. weaken-Good (length s1) (length s) IsSmall _ le1 (
          then-Good (length s1) IsSmall IsSmall (backs_from (suc (length s1)) cmd s1) _
            (backs_from-Good (suc (length s1)) cmd s1 (omega arith) c)
            (λ cmd' s2 c' le2. weaken-Good (length s2) (length s1) IsSmall _ le2 (
              second-Good cmd' listcmd (parseline fuel) (b';' ∷ []) s2 c' (λ right r. (c', r))
                (λ here.
                  h.line ((gettoken s2).after)
                    (omega (arith, gettoken-peek (b';' ∷ []) s2 here, le2, le1, f)))))))

  pipe-Good :
      (s : List ℕ) → 3 * length s + 2 ≤ suc fuel → Good (length s) IsSmall (parsepipe (suc fuel) s)
  unfolding parsepipe
  pipe-Good s f =
      then-Good (length s) IsSmall IsSmall (parseexec fuel s) _ (h.exec s (omega (arith, f)))
        (λ cmd s1 c le1. weaken-Good (length s1) (length s) IsSmall _ le1 (
          second-Good cmd pipecmd (parsepipe fuel) (b'|' ∷ []) s1 c (λ right r. (c, r))
            (λ here.
              h.pipe ((gettoken s1).after)
                (omega (arith, gettoken-peek (b'|' ∷ []) s1 here, le1, f)))))

  exec-Good :
      (s : List ℕ) → 3 * length s + 1 ≤ suc fuel → Good (length s) IsSmall (parseexec (suc fuel) s)
  unfolding parseexec
  exec-Good s f = elim (Bool-cases (peek (b'(' ∷ []) s)) [
    | inl here ↦
        let after = (gettoken s).after in
        let shorter = gettoken-peek (b'(' ∷ []) s here in
        rw here (
          weaken-Good (length after) (length s) IsSmall _ (omega (arith, shorter)) (
            then-Good (length after) IsSmall IsSmall (parseline fuel after) close_block
              (h.line after (omega (arith, shorter, f)))
              (λ cmd s' c le.
                weaken-Good (length s') (length after) IsSmall _ le (close_block-Good cmd s' c))))
    | inr simple ↦ rw simple (
        weaken-Good (length (skip s)) (length s) IsSmall _ (skip-le s) (
          then-Good (length (skip s)) Whatever IsSmall (parseredirs [] (skip s)) _
            (parseredirs-Good [] (skip s))
            (λ rs s1 t le.
              weaken-Good (length s1) (length (skip s)) IsSmall _ le
                (args_from-Good (suc (length s1)) [] rs s1 (omega arith) (omega arith)))))
  ]

all-Enough : (fuel : ℕ) → Enough fuel
all-Enough zero = record {
  line = λ s f. absurd (omega (arith, f));
  pipe = λ s f. absurd (omega (arith, f));
  exec = λ s f. absurd (omega (arith, f));
}
all-Enough (suc fuel) =
    let h = all-Enough fuel in
    record { line = line-Good fuel h; pipe = pipe-Good fuel h; exec = exec-Good fuel h }

-- parsecmd comes to an end on every line, with a syntax error or with a command, the whole line
-- read, in which every simple command has at most nine arguments, one fewer than its vectors hold.
pub parsecmd-Good : (s : List ℕ) → Good 0 IsSmall (parsecmd s)
unfolding parsecmd
parsecmd-Good s =
    finish (parseline (3 * length s + 3) s) ((all-Enough (3 * length s + 3)).line s (omega arith))
  where
    at_end : (cmd : Cmd) (s' : List ℕ) → IsSmall cmd → Good 0 IsSmall (whole_line cmd s')
    at_end cmd s' c = elim (Bool-cases (length (skip s') == 0)) [
      | inl all ↦ rw all (c, omega arith)
      | inr left ↦ rw left tt
    ]

    finish :
        (o : Parsed Cmd)
        → Good (length s) IsSmall o
        → Good 0 IsSmall
            (elim o [ parsed a s' ↦ whole_line a s' | syntax ↦ syntax | out_of_fuel ↦ out_of_fuel ])
    finish (parsed cmd s') g = at_end cmd s' g.0
    finish syntax g = tt
    finish out_of_fuel g = g
