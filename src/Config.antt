-- ===== src/Config.antt =====
-- The constants of include/kernel.h, queue.h, semaphore.h and config/Configuration, and the
-- process table of include/process.h.
use cs503_lab.Base.{ℕ, ◌-◌, ◌+◌, ◌^◌, Bool, true, false, List, ◌||◌, slt, sge}

-- config/Configuration: NPROC and NSEM; include/queue.h: NQENT
abbrev pub nproc : ℕ
nproc = 100

abbrev pub nsem : ℕ
nsem = 100

abbrev pub nqent : ℕ
nqent = nproc + 4 + nsem + nsem

-- include/kernel.h: the return values, as 32-bit patterns
abbrev pub ok : ℕ
ok = 1

abbrev pub syserr : ℕ
syserr = 2 ^ 32 - 1

abbrev pub timeout : ℕ
timeout = 2 ^ 32 - 3

-- include/queue.h
abbrev pub empty : ℕ
empty = 2 ^ 32 - 1

abbrev pub max_key : ℕ
max_key = 0x7fff_ffff

abbrev pub min_key : ℕ
min_key = 0x8000_0000

-- PR_FREE, PR_CURR, PR_READY, PR_RECV, PR_SLEEP, PR_SUSP, PR_WAIT, PR_RECTIM
pub data PrState : Type 0 where
  free curr ready recv sleep susp wait rectim : PrState

abbrev pub is_free : PrState → Bool
is_free PrState.free = true
is_free _ = false

-- `proctab`, field by field; `name` without its final NUL.
pub record ProcTab : Type 0 where
  pub state : ℕ → PrState
  pub prio : ℕ → ℕ
  pub stkptr : ℕ → ℕ
  pub stkbase : ℕ → ℕ
  pub stklen : ℕ → ℕ
  pub name : ℕ → List ℕ
  pub sem : ℕ → ℕ
  pub parent : ℕ → ℕ
  pub msg : ℕ → ℕ
  pub has_msg : ℕ → Bool
  pub desc : ℕ → List ℕ
  pub pdbr : ℕ → ℕ

-- `isbadpid`
abbrev pub is_bad_pid : ProcTab → ℕ → Bool
is_bad_pid p x = slt x 0 || sge x nproc || is_free (p.state x)
