-- ===== src/Paging/Fault.antt =====
-- myPageFault, create_pagetable and initialize_paging of system/initialize.c.
pub mod Entries
pub mod Start
pub mod Translate
pub mod Serve
pub mod Create
pub mod Handle
pub mod Swap
use cs503_lab.Base.{
  ℕ, zero, suc, ◌+◌, ◌*◌, ◌-◌, ◌/◌, ◌%◌, ◌^◌, ◌||◌, ◌&&◌, Bool, true, false, not, ◌==◌,
  if◌then◌else◌, Option, none, some, ltb, leb, add32, sub32, put,
}
use cs503_lab.Config.{ok, syserr}
use cs503_lab.Frames.{Frames, FrameUse, nframes, init_frames}
use cs503_lab.Backing.{and_then, read_bs}
use cs503_lab.Kernel.{Kernel}
use cs503_lab.Paging.{
  heap_start, heap_end, Paging, Entry, page_size, cal_addr, entry_to, store_entry, pd_word, pt_word,
  table_of, get_store_offset, hook_pfault, reset_bsmap,
}
use cs503_lab.Paging.Replace.{get_free_frame_number}

-- `pres = 0` in `n` entries from `word` on
pub clear_pres : ℕ → ℕ → Paging → Paging
clear_pres zero word s = s
clear_pres (suc n) word s =
    clear_pres n (word + 1)
      (record s { entries = put s.entries word (record (s.entries word) { pres = false }) })

-- The loop of `create_pagetable`: `n` empty entries from `word` on
pub empty_entries : ℕ → ℕ → Paging → Paging
empty_entries zero word s = s
empty_entries (suc n) word s =
    empty_entries n (word + 1)
      (record s { entries = put s.entries word (record (entry_to 0) { pres = false }) })

-- `n` entries from `word` on, for the pages from `page_number` on
pub set_entries : ℕ → ℕ → ℕ → Paging → Paging
set_entries zero word page_number s = s
set_entries (suc n) word page_number s =
    set_entries n (word + 1) (page_number + 1) (store_entry word page_number s)

pub create_pagetable : ℕ → Paging → Option Paging
create_pagetable pd s =
    and_then (get_free_frame_number s.kernel.currpid 0 FrameUse.page_tab s)
      (λ r. some (empty_entries 1024 (cal_addr r.0 / 4) (store_entry pd (r.0 + 1024) r.1)))

-- The rest of `myPageFault`, for the address `vaddr`, once its page table exists: `pd` is the
-- directory's entry and `pt` the table's.
pub load_page : ℕ → ℕ → ℕ → Paging → Option Paging
load_page vaddr pd pt s =
    let pid = s.kernel.currpid in
    let vpn = vaddr / page_size in
    and_then (get_store_offset pid vaddr s) (λ at.
      and_then (get_free_frame_number pid vpn FrameUse.page s) (λ r.
        let s1 = r.1 in
        and_then (read_bs ((r.0 + 1024) * page_size) at.0 at.1 s1.server s1.mem) (λ b.
          if b.0 == syserr
          then none
          else let s2 = store_entry pt (r.0 + 1024) (record s1 { mem = b.1 }) in
            let table = table_of pd s2 in
            let count = add32 (s2.frames.ref_count table) 1 in
            if not (ltb table nframes)
            then none
            else hook_pfault pid vpn (record s2 {
              frames = record (s2.frames) { ref_count = put s2.frames.ref_count table count };
            }))))

abbrev leave : Paging → Paging
leave s = record s { pgf_frame_sem = s.pgf_frame_sem + 1 }

-- `myPageFault`, with the address that it reads from CR2
pub page_fault : ℕ → Paging → Option Paging
page_fault vaddr s =
    let pid = s.kernel.currpid in
    let s1 = record s { pgf_frame_sem = s.pgf_frame_sem - 1; num_fault = add32 s.num_fault 1 } in
    let pd = pd_word pid vaddr s in
    if s.pgf_frame_sem == 0
    then none
    else if ltb vaddr (heap_start pid s) || leb (heap_end pid s) vaddr
    then some (leave s1)
    else and_then (if (s.entries pd).pres then some s1 else create_pagetable pd s1)
        (λ s2. and_then (load_page vaddr pd (pt_word pid vaddr s2) s2) (λ s3. some (leave s3)))

-- The directory's entries for the kernel's memory
pub set_kernel_entries : ℕ → Paging → Paging
set_kernel_entries dir s = store_entry (dir + 3) (4 + 1024) (
    store_entry (dir + 2) (3 + 1024)
      (store_entry (dir + 1) (2 + 1024) (store_entry dir (1 + 1024) s)))

-- `initialize_paging`, but for the processor's other registers
pub initialize_paging : Paging → Paging
initialize_paging s =
    let k = s.kernel in
    let s1 = reset_bsmap (record s {
      num_fault = 0;
      get_frame_sem = 1;
      pgf_frame_sem = 1;
      frames = init_frames s.frames;
    }) in
    let s2 = record s1 {
      kernel = record k { procs = record (k.procs) { pdbr = put k.procs.pdbr 0 (cal_addr 0) } };
    } in
    let s3 = set_kernel_entries (cal_addr 0 / 4) (clear_pres 1024 (cal_addr 0 / 4) s2) in
    let s4 = set_entries 4096 (cal_addr 1 / 4) 0 s3 in
    let s5 = store_entry (cal_addr 0 / 4 + 576) (5 + 1024) s4 in
    let s6 = set_entries 1024 (cal_addr 5 / 4) (576 * 1024) s5 in
    record s6 { kernel = record (s6.kernel) { cr3 = cal_addr 0 } }
