-- ===== src/Kernel/Schedule.antt =====
-- resched.c and ready.c as a whole: the process of highest priority runs.
use cs503_lab.Base.{
  ℕ, ◌≡◌, refl, ◌∙◌, ◌≢◌, inl, inr, true, false, List, arith, put_ne, Bool-cases, slt,
}
use cs503_lab.Queue.{first_id}
use cs503_lab.Kernel.{Kernel, is_curr, switch, put_ready, resched}
use cs503_lab.Kernel.Invariant.{IsKernel, IsKernel-Loose, Keyed}
use cs503_lab.Kernel.Ready.{put_ready-IsKernel, put_ready-Keyed}
use cs503_lab.Kernel.Resched.{
  Switched, SameFields, same_fields, is_eligible, switch-Switched, keep-Scheduled, curr-Idle,
  NoCurr-put_ready, no_curr,
}

-- A switch after the lists changed only in the ready list.
Switched-from :
    {k k' : Kernel} {c c' : ℕ → List ℕ} (after : Kernel)
    → Switched k' after c'
    → ((q : ℕ) → q ≢ k.readylist → c' q ≡ c q)
    → (k'.sem_count ≡ k.sem_count) × (k'.sem_used ≡ k.sem_used)
    → (k'.sem_queue ≡ k.sem_queue) × (k'.readylist ≡ k.readylist) × (k'.ndefers ≡ k.ndefers)
    → SameFields k.procs k'.procs
    → ((a : ℕ)
        → is_eligible (k.procs.state a) ≡ false
        → (is_eligible (k'.procs.state a) ≡ false) × (k'.procs.state a ≡ k.procs.state a))
    → ((a : ℕ) → is_eligible (k.procs.state a) ≡ true → is_eligible (k'.procs.state a) ≡ true)
    → Switched k after c
Switched-from after s others sems queues fields kept stays = record {
  lists = s.lists;
  kernel = s.kernel;
  keyed = s.keyed;
  scheduled = s.scheduled;
  others = λ q ne. s.others q (λ e. ne (e ∙ queues.1)) ∙ others q ne;
  sems = (s.sems.0 ∙ sems.0, s.sems.1 ∙ sems.1);
  queues = (s.queues.0 ∙ queues.0, s.queues.1 ∙ queues.1);
  defers = s.defers ∙ queues.2;
  fields = record {
    prio = s.fields.prio ∙ fields.prio;
    sem = s.fields.sem ∙ fields.sem;
    msg = s.fields.msg ∙ fields.msg;
    has_msg = s.fields.has_msg ∙ fields.has_msg;
  };
  kept = λ a m. s.kept a (kept a m).0 ∙ (kept a m).1;
  stays = λ a m. s.stays a (stays a m);
}

module _ {k : Kernel} {c : ℕ → List ℕ} (v : IsKernel k c) (keyed : Keyed k c) where
  -- `resched`, if it is not deferred, keeps the kernel well formed and leaves a current process
  -- that no ready process goes before; only the ready list changes.
  pub resched-Switched : slt 0 k.ndefers ≡ false → Switched k (resched k) c
  unfolding resched
  resched-Switched now = elim (Bool-cases (is_curr (k.procs.state k.currpid))) [
    | inl runs ↦
        elim (Bool-cases
          (slt (k.queues.key (first_id k.queues k.readylist)) (k.procs.prio k.currpid))) [
            | inl above ↦
                rw (now, runs, above)
                  (record {
                    lists = c;
                    kernel = v;
                    keyed = keyed;
                    scheduled = keep-Scheduled v keyed runs above;
                    others = λ q ne. refl;
                    sems = (refl, refl);
                    queues = (refl, refl);
                    defers = refl;
                    fields = same_fields k.procs;
                    kept = λ a m. refl;
                    stays = λ a m. m;
                  })
            | inr below ↦ rw (now, runs, below) (preempted runs)
          ]
    | inr stopped ↦ rw (now, stopped) (switch-Switched v keyed (no_curr v keyed stopped))
  ]
    where
      kept :
          is_curr (k.procs.state k.currpid) ≡ true
          → (a : ℕ) → is_eligible (k.procs.state a) ≡ false
          → (is_eligible ((put_ready k.currpid k).procs.state a) ≡ false)
            × ((put_ready k.currpid k).procs.state a ≡ k.procs.state a)
      kept runs a m = ground arith

      preempted :
          is_curr (k.procs.state k.currpid) ≡ true → Switched k (switch (put_ready k.currpid k)) c
      preempted runs =
          let idle = curr-Idle v keyed runs in
          Switched-from (switch (put_ready k.currpid k))
            (switch-Switched (put_ready-IsKernel k.currpid (IsKernel-Loose k.currpid v) idle)
              (put_ready-Keyed k.currpid (IsKernel-Loose k.currpid v) idle keyed)
              (NoCurr-put_ready v keyed))
            (λ q ne. put_ne c k.readylist _ q ne) (refl, refl) (refl, refl, refl)
            (record { prio = refl; sem = refl; msg = refl; has_msg = refl }) (λ a m. kept runs a m)
            (λ a m. ground arith)
