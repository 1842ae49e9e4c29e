-- ===== src/Vprocess/Kill.antt =====
-- The end of a process: system/kill.c, in two parts, since `send` may switch to the parent: up to the
-- call of `send`, and from there on, once the caller runs again. The devices that the process has
-- open are closed between them.
pub mod Release
use cs503_lab.Base.{
  ℕ, zero, suc, ◌+◌, ◌*◌, ◌-◌, ◌/◌, ◌%◌, ◌^◌, ◌||◌, ◌&&◌, Bool, true, false, not, ◌==◌,
  if◌then◌else◌, Option, none, some, List, [], ◌∷◌, take, slt, ltb, leb, add32, sub32, put,
}
use cs503_lab.Config.{nproc, ok, syserr, PrState, is_bad_pid, is_free}
use cs503_lab.Queue.{getitem}
use cs503_lab.Kernel.{Kernel, set_state, resched}
use cs503_lab.Sleep.{unsleep}
use cs503_lab.Message.{send}
use cs503_lab.Memory.{Mem, getstk, freemem, roundmb}
use cs503_lab.Vheap.{Vheap, set_vnext, set_vaddr, set_vmlength}
use cs503_lab.Frames.{Frames, FrameUse, is_page, is_null_page, nframes, null_entry, unlink_fifo}
use cs503_lab.Backing.{Server, and_then, max_bs_entries, max_pages_per_bs, write_bs, deallocate_bs}
use cs503_lab.Paging.{Paging, Entry, page_size, cal_addr, store_entry, get_store_offset, bs_mapping}
use cs503_lab.Paging.Replace.{get_free_frame_number}
use cs503_lab.Paging.Fault.{clear_pres, set_kernel_entries}
use cs503_lab.Process.Create.{newpid, set_entry, stack_size, stack_words}
use cs503_lab.Vprocess.{Machine, with_kernel}

-- Frame `i` of a process that ends: a page goes to its store and leaves the queue.
pub release_frame : ℕ → ℕ → Paging → Option Paging
release_frame pid i s =
    let reset = λ (p : Paging). record p {
      frames = record (p.frames) {
        use_of = put p.frames.use_of i FrameUse.null_page;
        frame_number = put p.frames.frame_number i i;
        owner = put p.frames.owner i 0;
        vpage_num = put p.frames.vpage_num i 0;
        ref_count = put p.frames.ref_count i 0;
      };
    } in
    if not (s.frames.owner i == pid)
    then some s
    else if not (is_page (s.frames.use_of i))
    then some (reset s)
    else and_then (get_store_offset pid (s.frames.vpage_num i * page_size % 2 ^ 32) s) (λ at.
      and_then (write_bs ((i + 1024) * page_size) at.0 at.1 s.mem s.server) (λ r.
        if r.0 == syserr
        then none
        else some (reset (record s { server = r.1; frames = unlink_fifo i s.frames }))))

-- `for( i = 0 ; i < NFRAMES ; i++ )`, over the last `n` frames from `i` on
pub release_frames : ℕ → ℕ → ℕ → Paging → Option Paging
release_frames zero pid i s = some s
release_frames (suc n) pid i s =
    and_then (release_frame pid i s) (λ s1. release_frames n pid (i + 1) s1)

-- `for( i = MIN_ID ; i <= MAX_ID ; i++ )`, over the last `n` stores from `i` on
pub release_stores : ℕ → ℕ → ℕ → Paging → Option Paging
release_stores zero pid i s = some s
release_stores (suc n) pid i s =
    let further = release_stores n pid (i + 1) s in
    let freed = and_then (deallocate_bs i s.server) (λ r. release_stores n pid (i + 1) (record s {
      server = r.1;
      if_map = put s.if_map i false;
      map_pid = put s.map_pid i 0;
      num_pages = put s.num_pages i 0;
      start_vpn = put s.start_vpn i 0;
    })) in
    if s.map_pid i == pid then freed else further

-- `switch (prptr->prstate)`
pub end_state : PrState → ℕ → Kernel → Kernel
end_state PrState.curr pid k = resched (set_state pid PrState.free k)
end_state PrState.sleep pid k = set_state pid PrState.free (unsleep pid k).1
end_state PrState.rectim pid k = set_state pid PrState.free (unsleep pid k).1
end_state PrState.wait pid k =
    let sem = k.procs.sem pid in
    let k1 = record k { sem_count = put k.sem_count sem (add32 (k.sem_count sem) 1) } in
    set_state pid PrState.free (record k1 { queues = (getitem pid k1.queues).1 })
end_state PrState.ready pid k =
    set_state pid PrState.free (record k { queues = (getitem pid k.queues).1 })
end_state _ pid k = set_state pid PrState.free k

-- `freestk(prptr->prstkbase, prptr->prstklen)`
pub free_stack : ℕ → Machine → Machine
free_stack pid m =
    let len = roundmb (m.paging.kernel.procs.stklen pid) in
    let base = add32 (sub32 (m.paging.kernel.procs.stkbase pid) len) 4 in
    record m { memory = (freemem base len m.memory).1 }

-- `kill` up to `send`: it does not return from the last process's end, which halts the processor.
pub kill_send : ℕ → Machine → Option (ℕ × Machine)
kill_send pid m =
    let k = m.paging.kernel in
    if is_bad_pid k.procs pid || (pid == 0 || is_free (k.procs.state pid))
    then some (syserr, m)
    else let k1 = record k { prcount = sub32 k.prcount 1 } in
      if not (slt 1 k1.prcount)
      then none
      else some (ok, with_kernel (λ old. (send (k1.procs.parent pid) pid k1).1) m)

-- The rest of `kill`, after the devices are closed
pub kill_rest : ℕ → Machine → Option Machine
kill_rest pid m = and_then (release_frames nframes pid 0 m.paging) (λ s1.
    and_then (release_stores max_bs_entries pid 0 s1) (λ s2.
      (let m1 = free_stack pid (record m { paging = s2 }) in
        some (with_kernel (end_state (m1.paging.kernel.procs.state pid) pid) m1))))
