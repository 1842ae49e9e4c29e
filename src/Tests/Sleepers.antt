-- ===== src/Tests/Sleepers.antt =====
-- Sleeping, on the busy kernel.
use cs503_lab.Base.{true, false, [], ◌≡◌, refl, ◌≢◌, arith, bias, has}
use mathlib.Core.Path.{subst}
use cs503_lab.Config.{ok}
use cs503_lab.Queue.{insert, dequeue, newqueue}
use cs503_lab.Queue.Delta.{Delays}
use cs503_lab.Kernel.{make_ready, put_ready, resched, switch}
use cs503_lab.Boot.{sysinit}
use cs503_lab.Process.{resume}
use cs503_lab.Process.Create.{create}
use cs503_lab.Process.Suspend.{resume_lem}
use cs503_lab.Semaphore.{semcreate}
use cs503_lab.Sleep.{sleepms}
use cs503_lab.Sleep.Sleepms.{Slept, sleepms_lem}
use cs503_lab.Tests.Kernels.{
  with_proc, with_proc_running, with_proc_susp, busy, busy_lists, busy_running, busy_curr,
}

ready_at : with_proc.readylist ≡ 300
unfolding sysinit semcreate create newqueue bias
ready_at = refl

sleep_at : busy.sleepq ≡ 302
unfolding sysinit semcreate create resume make_ready put_ready resched switch insert dequeue
    newqueue bias
sleep_at = refl

nobody : busy_lists busy.sleepq ≡ []
nobody =
    (resume_lem with_proc_running 1 (omega arith) with_proc_susp).1.others busy.sleepq
      (omega (arith, sleep_at, ready_at))

busy-Delays : Delays busy.queues.key (busy_lists busy.sleepq)
busy-Delays x m = absurd (let f : false ≡ true = subst (λ l. has x l ≡ true) nobody m in cc)

busy_not_null : busy.currpid ≢ 0
busy_not_null = omega (arith, busy_curr)

sleepms_lem_example :
    ((sleepms 50 busy).0 ≡ ok)
    × Slept busy_running 50 (omega arith) busy-Delays busy_not_null (sleepms 50 busy).1
sleepms_lem_example =
    sleepms_lem busy_running 50 (omega arith) busy-Delays busy_not_null (omega arith)
