-- ===== src/Sh.antt =====
-- xv6/sh.c: the parser of the shell. A command line is the list of its bytes up to its end; a token is
-- kept as its bytes, which is what `nulterminate` makes of the pointers to its two ends.
pub mod Tokens
pub mod Parse
mod Tests
use tp2_ronaldo_joaopedro.Common.{
  ℕ, zero, suc, ◌+◌, ◌*◌, Bool, true, false, not, ◌&&◌, ◌||◌, List, [], ◌∷◌, ◌++◌, length, ◌==◌,
  ◌!=◌, leb, if◌then◌else◌,
}

abbrev pub maxargs : ℕ
maxargs = 10

-- `struct redircmd` without its command: the file, the open mode and the descriptor.
pub record Redir : Type 0 where
  pub file : List ℕ
  pub mode : ℕ
  pub fd : ℕ

pub data Cmd : Type 0 where
  execcmd : List (List ℕ) → Cmd
  redircmd : Cmd → Redir → Cmd
  pipecmd listcmd : Cmd → Cmd → Cmd
  backcmd : Cmd → Cmd

-- `strchr(set, c)` for a byte that is not 0.
abbrev pub among : List ℕ → ℕ → Bool
among [] c = false
among (d ∷ ds) c = (d == c) || among ds c

abbrev pub whitespace : List ℕ
whitespace = b' ' ∷ b'\t' ∷ b'\r' ∷ b'\n' ∷ 11 ∷ []

abbrev pub symbols : List ℕ
symbols = b'<' ∷ b'|' ∷ b'>' ∷ b'&' ∷ b';' ∷ b'(' ∷ b')' ∷ []

unfoldable pub skip : List ℕ → List ℕ
skip [] = []
skip (c ∷ cs) = let more = skip cs in if among whitespace c then more else c ∷ cs

-- The bytes of a word, and what follows it.
unfoldable pub word : List ℕ → List ℕ × List ℕ
word [] = ([], [])
word (c ∷ cs) =
    let more = word cs in
    if among whitespace c || among symbols c then ([], c ∷ cs) else (c ∷ more.0, more.1)

-- What `gettoken` returns, the token's bytes and the place after it.
pub record Token : Type 0 where
  pub kind : ℕ
  pub text : List ℕ
  pub after : List ℕ

abbrev starts_with : ℕ → List ℕ → Bool
starts_with c [] = false
starts_with c (d ∷ ds) = d == c

abbrev tail : List ℕ → List ℕ
tail [] = []
tail (c ∷ cs) = cs

-- `gettoken` after the white space, up to the place after the token.
unfoldable pub token : List ℕ → Token
unfolding word
token [] = record { kind = 0; text = []; after = [] }
token (c ∷ cs) =
    if among (b'|' ∷ b'(' ∷ b')' ∷ b';' ∷ b'&' ∷ b'<' ∷ []) c
    then record { kind = c; text = c ∷ []; after = cs }
    else if c == b'>'
    then if starts_with b'>' cs
      then record { kind = b'+'; text = c ∷ b'>' ∷ []; after = tail cs }
      else record { kind = c; text = c ∷ []; after = cs }
    else record { kind = b'a'; text = (word (c ∷ cs)).0; after = (word (c ∷ cs)).1 }

unfoldable pub gettoken : List ℕ → Token
unfolding skip token
gettoken s = let t = token (skip s) in record t { after = skip t.after }

-- The test of `peek`; it moves on to `skip s`.
unfoldable pub peek : List ℕ → List ℕ → Bool
unfolding skip
peek toks s = elim (skip s) [ [] ↦ false | c ∷ cs ↦ among toks c ]

pub data Parsed (A : Type 0) : Type 0 where
  parsed : A → List ℕ → Parsed A
  syntax out_of_fuel : Parsed A

abbrev pub Parser : Type 0 → Type 0
Parser A = List ℕ → Parsed A

infixl 5 ◌>>=◌
abbrev pub ◌>>=◌ : {A B : Type 0} → Parser A → (A → Parser B) → Parser B
p >>= f = λ s. elim (p s) [ parsed a s' ↦ f a s' | syntax ↦ syntax | out_of_fuel ↦ out_of_fuel ]

abbrev pub pure : {A : Type 0} → A → Parser A
pure a s = parsed a s

-- The modes of open: O_RDONLY, and O_WRONLY|O_CREATE.
abbrev pub redir_of : ℕ → List ℕ → Redir
redir_of kind file =
    if kind == b'<'
    then record { file = file; mode = 0; fd = 0 }
    else record { file = file; mode = 0x201; fd = 1 }

-- The redirections around a command, the first of them innermost.
abbrev pub wrap : Cmd → List Redir → Cmd
wrap cmd [] = cmd
wrap cmd (r ∷ rs) = wrap (redircmd cmd r) rs

-- The loop of `parseredirs`, with fuel: the redirections found after those given.
unfoldable pub redirs_from : ℕ → List Redir → Parser (List Redir)
redirs_from zero rs s = out_of_fuel
redirs_from (suc fuel) rs s =
    let tok = gettoken s in
    let file = gettoken tok.after in
    let more = redirs_from fuel (rs ++ redir_of tok.kind file.text ∷ []) file.after in
    if peek (b'<' ∷ b'>' ∷ []) s
    then if file.kind == b'a' then more else syntax
    else parsed rs (skip s)

unfoldable pub parseredirs : List Redir → Parser (List Redir)
parseredirs rs s = redirs_from (suc (length s)) rs s

-- The loop of `parseexec` over the arguments, with fuel.
unfoldable pub args_from : ℕ → List (List ℕ) → List Redir → Parser Cmd
args_from zero argv rs s = out_of_fuel
args_from (suc fuel) argv rs s =
    let tok = gettoken s in
    let more = (parseredirs rs >>= λ rs'. args_from fuel (argv ++ tok.text ∷ []) rs') tok.after in
    if peek (b'|' ∷ b')' ∷ b'&' ∷ b';' ∷ []) s
    then parsed (wrap (execcmd argv) rs) (skip s)
    else if tok.kind == 0
    then parsed (wrap (execcmd argv) rs) tok.after
    else if tok.kind != b'a'
    then syntax
    else if leb maxargs (length argv + 1)
    then syntax
    else more

-- The loop of `parseline` over the `&`s, with fuel.
unfoldable pub backs_from : ℕ → Cmd → Parser Cmd
backs_from zero cmd s = out_of_fuel
backs_from (suc fuel) cmd s =
    let more = backs_from fuel (backcmd cmd) (gettoken s).after in
    if peek (b'&' ∷ []) s then more else parsed cmd (skip s)

-- The end of `parseblock`, after its command.
unfoldable pub close_block : Cmd → Parser Cmd
close_block cmd s =
    if not (peek (b')' ∷ []) s)
    then syntax
    else (parseredirs [] >>= λ rs. pure (wrap cmd rs)) (gettoken s).after

-- Each call costs a unit of fuel, since what it is given need not be shorter.
unfoldable mutual
  pub parseline : ℕ → Parser Cmd
  parseline zero s = out_of_fuel
  parseline (suc fuel) s =
      (parsepipe fuel >>= λ cmd s1.
      (backs_from (suc (length s1)) cmd >>= λ cmd' s2.
      let more = (parseline fuel >>= λ right. pure (listcmd cmd' right)) (gettoken s2).after in
      if peek (b';' ∷ []) s2 then more else parsed cmd' (skip s2))
        s1)
        s

  pub parsepipe : ℕ → Parser Cmd
  parsepipe zero s = out_of_fuel
  parsepipe (suc fuel) s =
      (parseexec fuel >>= λ cmd s1.
      let more = (parsepipe fuel >>= λ right. pure (pipecmd cmd right)) (gettoken s1).after in
      if peek (b'|' ∷ []) s1 then more else parsed cmd (skip s1))
        s

  pub parseexec : ℕ → Parser Cmd
  parseexec zero s = out_of_fuel
  parseexec (suc fuel) s =
      let block = (parseline fuel >>= close_block) (gettoken s).after in
      let simple = (parseredirs [] >>= λ rs s1. args_from (suc (length s1)) [] rs s1) (skip s) in
      if peek (b'(' ∷ []) s then block else simple

-- The end of `parsecmd`: what is left over is an error.
abbrev pub whole_line : Cmd → Parser Cmd
whole_line cmd s = if length (skip s) == 0 then parsed cmd [] else syntax

unfoldable pub parsecmd : Parser Cmd
parsecmd s = (parseline (3 * length s + 3) >>= whole_line) s
