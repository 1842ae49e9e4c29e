-- ===== src/Message.antt =====
-- One-word messages between processes: system/send.c, receive.c, recvclr.c and recvtime.c.
pub mod Send
pub mod Receive
use cs503_lab.Base.{ℕ, ◌||◌, Bool, true, false, ◌==◌, if◌then◌else◌, slt, put}
use cs503_lab.Config.{ok, syserr, timeout, PrState, is_bad_pid, is_free}
use cs503_lab.Queue.{insertd}
use cs503_lab.Kernel.{Kernel, set_state, resched, make_ready}
use cs503_lab.Sleep.{unsleep}

abbrev pub is_recv : PrState → Bool
is_recv PrState.recv = true
is_recv _ = false

abbrev pub is_rectim : PrState → Bool
is_rectim PrState.rectim = true
is_rectim _ = false

-- `prptr->prmsg = msg; prptr->prhasmsg = TRUE`
abbrev pub deliver : ℕ → ℕ → Kernel → Kernel
deliver pid msg k = record k {
  procs = record (k.procs) {
    msg = put k.procs.msg pid msg;
    has_msg = put k.procs.has_msg pid true;
  };
}

pub send : ℕ → ℕ → Kernel → ℕ × Kernel
send pid msg k =
    if is_bad_pid k.procs pid
    then (syserr, k)
    else if is_free (k.procs.state pid) || k.procs.has_msg pid
    then (syserr, k)
    else let k' = deliver pid msg k in
      (
        ok,
        if is_recv (k'.procs.state pid)
            then (make_ready pid k').1
            else if is_rectim (k'.procs.state pid)
            then (make_ready pid (unsleep pid k').1).1
            else k',
      )

-- `receive` up to the switch, and what its process does when it runs.
pub receive_wait : Kernel → Kernel
receive_wait k =
    if k.procs.has_msg k.currpid then k else resched (set_state k.currpid PrState.recv k)

abbrev pub clear_msg : ℕ → Kernel → Kernel
clear_msg pid k = record k { procs = record (k.procs) { has_msg = put k.procs.has_msg pid false } }

pub receive_take : ℕ → Kernel → ℕ × Kernel
receive_take pid k = (k.procs.msg pid, clear_msg pid k)

pub recvclr : Kernel → ℕ × Kernel
recvclr k =
    if k.procs.has_msg k.currpid then (k.procs.msg k.currpid, clear_msg k.currpid k) else (ok, k)

-- `recvtime` up to the switch: SYSERR, or the wait.
pub recvtime_wait : ℕ → Kernel → ℕ × Kernel
recvtime_wait maxwait k =
    if slt maxwait 0
    then (syserr, k)
    else if k.procs.has_msg k.currpid
    then (ok, k)
    else let (r, queues) = insertd k.procs k.currpid k.sleepq maxwait k.queues in
      let k' = record k { queues = queues } in
      if r == syserr then (syserr, k') else (ok, resched (set_state k'.currpid PrState.rectim k'))

pub recvtime_take : ℕ → Kernel → ℕ × Kernel
recvtime_take pid k =
    if k.procs.has_msg pid then (k.procs.msg pid, clear_msg pid k) else (timeout, k)
