-- ===== src/Syscall.antt =====
-- xv6/syscall.c: the arguments of system calls, which lie in the memory of the caller, and the
-- dispatch. `int` values are 32-bit patterns; `none` is the result -1.
pub mod Bounds
mod Tests
use tp2_ronaldo_joaopedro.Common.{
  ℕ, zero, suc, ◌+◌, ◌-◌, ◌*◌, ◌^◌, ◌%◌, Bool, ◌&&◌, ◌||◌, Option, none, some, List, [], ◌∷◌,
  get_elem?, ◌==◌, ltb, leb, if◌then◌else◌,
}
use tp2_ronaldo_joaopedro.Machine.{add32}

-- The running process: its size, its saved stack pointer and its memory, byte by byte.
pub record Caller : Type 0 where
  pub sz : ℕ
  pub esp : ℕ
  pub memory : ℕ → ℕ

-- The `int` at an address.
abbrev pub word_at : (ℕ → ℕ) → ℕ → ℕ
word_at m a = m a + 256 * m (a + 1) + 65536 * m (a + 2) + 16777216 * m (a + 3)

unfoldable pub fetchint : Caller → ℕ → Option ℕ
fetchint p addr =
    if leb p.sz addr || ltb p.sz (add32 addr 4) then none else some (word_at p.memory addr)

-- The loop of `fetchstr` over the bytes that are left.
unfoldable pub scan : (ℕ → ℕ) → ℕ → ℕ → Option ℕ
scan m s zero = none
scan m s (suc left) =
    let more = scan m (s + 1) left in
    if m s == 0 then some 0 else elim more [ none ↦ none | some n ↦ some (n + 1) ]

-- The length of the string at an address.
unfoldable pub fetchstr : Caller → ℕ → Option ℕ
unfolding scan
fetchstr p addr = if leb p.sz addr then none else scan p.memory addr (p.sz - addr)

unfoldable pub argint : Caller → ℕ → Option ℕ
unfolding fetchint
argint p n = fetchint p (add32 (add32 p.esp 4) (4 * n % 2 ^ 32))

abbrev pub checked : Caller → ℕ → Option ℕ → Option ℕ
checked p size none = none
checked p size (some i) =
    if leb (2 ^ 31) size || leb p.sz i || ltb p.sz (add32 i size) then none else some i

unfoldable pub argptr : Caller → ℕ → ℕ → Option ℕ
unfolding argint
argptr p n size = checked p size (argint p n)

abbrev pub string_at : Caller → Option ℕ → Option (ℕ × ℕ)
string_at p none = none
string_at p (some addr) = elim (fetchstr p addr) [ none ↦ none | some n ↦ some (addr, n) ]

-- The address and the length.
unfoldable pub argstr : Caller → ℕ → Option (ℕ × ℕ)
unfolding argint fetchstr
argstr p n = string_at p (argint p n)

pub data Sys : Type 0 where
  sys_fork sys_exit sys_wait sys_pipe sys_read sys_kill : Sys
  sys_exec sys_fstat sys_chdir sys_dup sys_getpid sys_sbrk sys_sleep : Sys
  sys_uptime sys_open sys_write sys_mknod sys_unlink sys_link sys_mkdir : Sys
  sys_close sys_date sys_virt2real sys_num_pages sys_forkcow : Sys

-- The table `syscalls`, from entry 1 on.
abbrev pub syscalls : List Sys
syscalls =
    sys_fork ∷ sys_exit ∷ sys_wait ∷ sys_pipe ∷ sys_read ∷ sys_kill ∷ sys_exec ∷ sys_fstat
    ∷ sys_chdir ∷ sys_dup ∷ sys_getpid ∷ sys_sbrk ∷ sys_sleep ∷ sys_uptime ∷ sys_open ∷ sys_write
    ∷ sys_mknod ∷ sys_unlink ∷ sys_link ∷ sys_mkdir ∷ sys_close ∷ sys_date ∷ sys_virt2real
    ∷ sys_num_pages ∷ sys_forkcow ∷ []

abbrev run_call {ℓ} : {S : Type ℓ} → (Sys → S → ℕ × S) → Option Sys → S → ℕ × S
run_call run none s = (0xffffffff, s)
run_call run (some call) s = run call s

-- What `syscall` leaves in `eax`, for the call number that it finds there; `run` is the calls.
unfoldable pub syscall {ℓ} : {S : Type ℓ} → (Sys → S → ℕ × S) → ℕ → S → ℕ × S
syscall run num s =
    if ltb 0 num && ltb num 26
    then run_call run (get_elem? syscalls (num - 1)) s
    else (0xffffffff, s)
