-- ===== src/Sh/Tests.antt =====
-- The parser of the shell on small command lines.
use tp2_ronaldo_joaopedro.Common.{ℕ, List, [], ◌∷◌, ◌≡◌, refl}
use tp2_ronaldo_joaopedro.Sh.{
  execcmd, redircmd, pipecmd, listcmd, backcmd, parsed, syntax, skip, word, token, gettoken, peek,
  redirs_from, parseredirs, args_from, backs_from, close_block, parseline, parsepipe, parseexec,
  parsecmd,
}
use tp2_ronaldo_joaopedro.Sh.Parse.{Good, IsSmall, parsecmd-Good}

-- "ls|(a>b;c)&"
abbrev line : List ℕ
line = b'l' ∷ b's' ∷ b'|' ∷ b'(' ∷ b'a' ∷ b'>' ∷ b'b' ∷ b';' ∷ b'c' ∷ b')' ∷ b'&' ∷ []

parsecmd-Good_example : Good 0 IsSmall (parsecmd line)
parsecmd-Good_example = parsecmd-Good line

line_parsed :
    parsecmd line
    ≡ parsed
        (backcmd (
          pipecmd (execcmd ((b'l' ∷ b's' ∷ []) ∷ [])) (
            listcmd
              (redircmd
                (execcmd ((b'a' ∷ []) ∷ []))
                (record { file = b'b' ∷ []; mode = 0x201; fd = 1 }))
              (execcmd ((b'c' ∷ []) ∷ [])))))
        []
unfolding parsecmd parseline parsepipe parseexec skip word token gettoken peek redirs_from
    parseredirs args_from backs_from close_block
line_parsed = refl

not_closed : parsecmd (b'(' ∷ b'a' ∷ []) ≡ syntax
unfolding parsecmd parseline parsepipe parseexec skip word token gettoken peek redirs_from
    parseredirs args_from backs_from close_block
not_closed = refl
