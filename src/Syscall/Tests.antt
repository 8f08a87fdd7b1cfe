-- ===== src/Syscall/Tests.antt =====
-- The syscall.c theorems on a caller of two pages whose first argument is the address of a string.
use tp2_ronaldo_joaopedro.Common.{
  ℕ, ◌+◌, ◌<◌, ◌≤◌, none, some, ◌≡◌, ◌≢◌, ◌⊎◌, ◌↔◌, refl, arith, ◌==◌, if◌then◌else◌,
}
use tp2_ronaldo_joaopedro.Syscall.{Caller, fetchint, argint, argptr, argstr, syscall}
use tp2_ronaldo_joaopedro.Syscall.Bounds.{IsString, IsBlock, argstr-IsString, argptr-IsBlock}

-- "sh" at 256, with its address at 8004 above the stack pointer.
abbrev shell : Caller
shell = record {
  sz = 8192;
  esp = 8000;
  memory = λ a. if a == 8005 then 1 else if a == 256 then b's' else if a == 257 then b'h' else 0;
}

argstr-IsString_example :
    ((addr : ℕ) × (len : ℕ) × (argstr shell 0 ≡ some (addr, len))
      × (argint shell 0 ≡ some addr)
      × IsString shell addr len)
    ⊎ ((argstr shell 0 ≡ none)
        × ((addr : ℕ)
            → argint shell 0 ≡ some addr
            → (k : ℕ) → addr ≤ k
            → k < 8192
            → shell.memory k ≢ 0))
argstr-IsString_example = argstr-IsString shell 0 (omega arith)

argptr-IsBlock_example : (argptr shell 0 16 ≡ some 256) ↔ IsBlock shell 0 16 256
argptr-IsBlock_example = argptr-IsBlock shell 0 16 256 (omega arith)

block_let_through : argptr shell 0 16 ≡ some 256
unfolding argptr argint fetchint
block_let_through = refl

-- A block that would wrap around is refused.
block_refused : argptr shell 0 0x7fffffff ≡ none
unfolding argptr argint fetchint
block_refused = refl

unknown_call : syscall (λ call n. (0, n + 1)) 26 7 ≡ (0xffffffff, 7)
unfolding syscall
unknown_call = refl
