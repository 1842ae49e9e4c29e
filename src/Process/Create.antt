-- ===== src/Process/Create.antt =====
-- system/create.c: a new process, suspended. The stack is the memory manager's: `saddr` is what
-- `getstk` returned for it.
pub mod Alloc
use cs503_lab.Base.{
  ℕ, zero, suc, ◌+◌, ◌*◌, ◌-◌, ◌^◌, ◌%◌, ◌/◌, ◌≤◌, ◌<◌, ◌||◌, Bool, true, false, not, ◌==◌,
  if◌then◌else◌, slt, sge, ltb, put, List, [], ◌∷◌, ◌++◌, length, take, drop, add32, sub32,
}
use mathlib.Core.List.{reverse}
use cs503_lab.Config.{nproc, ok, syserr, PrState, ProcTab, is_free}
use cs503_lab.Kernel.{Kernel}

abbrev pub min_stk : ℕ
min_stk = 400

abbrev pub stack_magic : ℕ
stack_magic = 0x0a0a_aaa9

-- `if (ssize < MINSTK) ssize = MINSTK; ssize = roundew(ssize)`, the size that `getstk` is asked for
pub stack_size : ℕ → ℕ
stack_size ssize =
    let size = if ltb ssize min_stk then min_stk else ssize in ((size + 3) % 2 ^ 32) / 4 * 4

-- The words of the new stack, from `saddr` down: the mark, the arguments last to first, the return
-- address, what `ctxsw` expects of a saved process, and the registers of a `pushal`.
pub stack_words : ℕ → ℕ → ℕ → List ℕ → List ℕ
stack_words saddr initret funcaddr args =
    let called = stack_magic ∷ (reverse args ++ initret ∷ funcaddr ∷ []) in
    let ebp = sub32 saddr (4 * length called) in
    let esp = sub32 saddr (4 * (length called + 9)) in
    called ++ saddr ∷ 0x200 ∷ 0 ∷ 0 ∷ 0 ∷ 0 ∷ esp ∷ ebp ∷ 0 ∷ 0 ∷ []

-- `newpid` tries each index once, from the static `nextpid` on.
pub newpid : ℕ → Kernel → ℕ × Kernel
newpid zero k = (syserr, k)
newpid (suc n) k =
    let pid = k.next_pid % nproc in
    let k' = record k { next_pid = pid + 1 } in
    let further = newpid n k' in if is_free (k.procs.state pid) then (pid, k') else further

pub set_entry : ℕ → ℕ → ℕ → ℕ → List ℕ → ℕ → List ℕ → Kernel → Kernel
set_entry console pid saddr priority name ssize words k = record k {
  prcount = add32 k.prcount 1;
  procs = record (k.procs) {
    state = put k.procs.state pid PrState.susp;
    prio = put k.procs.prio pid priority;
    stkptr = put k.procs.stkptr pid (sub32 saddr (4 * (length words - 1)));
    stkbase = put k.procs.stkbase pid saddr;
    stklen = put k.procs.stklen pid ssize;
    name = put k.procs.name pid name;
    sem = put k.procs.sem pid (2 ^ 32 - 1);
    parent = put k.procs.parent pid k.currpid;
    has_msg = put k.procs.has_msg pid false;
    desc = put k.procs.desc pid (console ∷ console ∷ console ∷ drop 3 (k.procs.desc pid));
  };
}

-- `console` is the device number WCONSOLE and `initret` the address INITRET, both of the build.
unfoldable pub create : ℕ → ℕ → ℕ → ℕ → ℕ → ℕ → List ℕ → List ℕ → Kernel → ℕ × Kernel
unfolding newpid set_entry
create console initret saddr funcaddr ssize priority name args k =
    if saddr == syserr
    then (syserr, k)
    else let (pid, k') = newpid nproc k in
      if pid == syserr || slt priority 1 then (syserr, k') else (
        pid,
        set_entry console pid saddr priority (take 15 name) (stack_size ssize)
            (stack_words saddr initret funcaddr args) k',
      )
