-- ===== src/Vprocess.antt =====
-- Processes with a virtual heap: system/vcreate.c. It changes the kernel, the paging and the free
-- memory together.
pub mod Kill
pub mod Heap
use cs503_lab.Base.{
  ℕ, zero, suc, ◌+◌, ◌*◌, ◌-◌, ◌/◌, ◌%◌, ◌^◌, ◌||◌, ◌&&◌, Bool, true, false, not, ◌==◌,
  if◌then◌else◌, Option, none, some, List, [], ◌∷◌, take, slt, ltb, leb, add32, sub32, put,
}
use cs503_lab.Config.{nproc, ok, syserr, PrState, is_bad_pid, is_free}
use cs503_lab.Queue.{getitem}
use cs503_lab.Kernel.{Kernel, set_state, resched}
use cs503_lab.Sleep.{unsleep}
use cs503_lab.Message.{send}
use cs503_lab.Memory.{Mem, getstk, freemem, roundmb}
use cs503_lab.Vheap.{Vheap, set_vnext, set_vaddr, set_vmlength}
use cs503_lab.Frames.{Frames, FrameUse, is_page, is_null_page, nframes, null_entry, unlink_fifo}
use cs503_lab.Backing.{Server, and_then, max_bs_entries, max_pages_per_bs, write_bs, deallocate_bs}
use cs503_lab.Paging.{Paging, Entry, page_size, cal_addr, store_entry, get_store_offset, bs_mapping}
use cs503_lab.Paging.Replace.{get_free_frame_number}
use cs503_lab.Paging.Fault.{clear_pres, set_kernel_entries}
use cs503_lab.Process.Create.{newpid, set_entry, stack_size, stack_words}

pub record Machine : Type 0 where
  pub paging : Paging
  pub memory : Mem
  -- the static of vcreate.c's own `newpid`
  pub next_vpid : ℕ

abbrev pub with_kernel : (Kernel → Kernel) → Machine → Machine
with_kernel f m = record m { paging = record (m.paging) { kernel = f m.paging.kernel } }

-- The virtual heap of a new process: `hsize` free pages from 16 MB on
pub new_vheap : ℕ → ℕ → Vheap → Vheap
new_vheap pid hsize h =
    let start : ℕ = 0x0100_0000 in
    let size = page_size * hsize % 2 ^ 32 in
    let list = h.vmemlist pid in
    let first = h.vminheap pid in
    let last = h.vmaxheap pid in
    let h1 = set_vmlength list size (set_vaddr list start h) in
    let h2 = set_vmlength first size (set_vnext first 0 (set_vaddr first start h1)) in
    let h3 = set_vmlength last 0 (set_vnext last 0 (set_vaddr last (add32 start size) h2)) in
    set_vnext list first h3

-- The loop that maps the heap to stores, and the call behind it: `t` stores are mapped so far. A store
-- has room for MAX_PAGES_PER_BS pages, and the fuel is one more than the stores that are needed.
pub map_heap : ℕ → ℕ → ℕ → ℕ → Paging → Option Paging
map_heap zero pid remain t s = none
map_heap (suc fuel) pid remain t s =
    let last = and_then (bs_mapping pid remain (t * max_pages_per_bs) s) (λ r. some r.1) in
    let more =
      and_then (bs_mapping pid max_pages_per_bs (t * max_pages_per_bs) s)
        (λ r. map_heap fuel pid (remain - max_pages_per_bs) (t + 1) r.1) in
    if ltb max_pages_per_bs remain then more else last

-- The page directory of a new process, in frame `f`
pub new_directory : ℕ → Paging → Paging
new_directory f s =
    let dir = cal_addr f / 4 in
    store_entry (dir + 576) (5 + 1024) (set_kernel_entries dir (clear_pres 1024 dir s))

-- What vcreate does for process `pid` between `newpid` and the entry of the process table
pub new_space : ℕ → ℕ → Paging → Option Paging
new_space pid hsize s = and_then (get_free_frame_number pid 0 FrameUse.page_dir s) (λ r.
    let s1 = r.1 in
    let k = s1.kernel in
    let s2 = record s1 {
      kernel = record k { procs = record (k.procs) { pdbr = put k.procs.pdbr pid (cal_addr r.0) } };
    } in
    let s3 = new_directory r.0 s2 in
    map_heap (hsize / max_pages_per_bs + 1) pid hsize 0
      (record s3 { vheap = new_vheap pid hsize s3.vheap }))

-- `vcreate`: `console` and `initret` are the device CONSOLE and the address INITRET of the build.
pub vcreate : ℕ → ℕ → ℕ → ℕ → ℕ → ℕ → List ℕ → List ℕ → Machine → Option (ℕ × Machine)
vcreate console initret funcaddr ssize hsize priority name args m =
    let size = stack_size ssize in
    let (saddr, memory) = getstk size m.memory in
    let m1 = record m { memory = memory } in
    if saddr == syserr
    then some (syserr, m1)
    else let (pid, k) = newpid nproc (record (m1.paging.kernel) { next_pid = m1.next_vpid }) in
      let m2 = record m1 { next_vpid = k.next_pid } in
      if pid == syserr || slt priority 1
      then some (syserr, m2)
      else and_then (new_space pid hsize m2.paging) (λ s. some (
        pid,
        with_kernel
            (set_entry console pid saddr priority (take 15 name) size
              (stack_words saddr initret funcaddr args))
            (record m2 { paging = s }),
      ))
