-- ===== src/Paging.antt =====
-- Demand paging: the page tables and the store map of system/initialize.c, and system/hooks.c,
-- srpolicy.c and get_faults.c. A call gives `none` where the source panics, blocks for ever,
-- indexes a table out of its bounds, or uses a variable that was never set.
pub mod StoreMap
pub mod Replace
pub mod Fault
use cs503_lab.Base.{
  ℕ, zero, suc, ◌+◌, ◌*◌, ◌-◌, ◌/◌, ◌%◌, ◌^◌, ◌||◌, ◌&&◌, Bool, true, false, not, ◌==◌,
  if◌then◌else◌, Option, none, some, ltb, leb, add32, sub32, put,
}
use cs503_lab.Config.{ok, syserr, is_bad_pid}
use cs503_lab.Kernel.{Kernel}
use cs503_lab.Vheap.{Vheap}
use cs503_lab.Frames.{Frames, nframes}
use cs503_lab.Backing.{Server, and_then, allocate_bs, max_bs_entries}

-- PAGE_SIZE; the policies FIFO and GCA
abbrev pub page_size : ℕ
page_size = 4096

abbrev pub fifo : ℕ
fifo = 3

abbrev pub gca : ℕ
gca = 4

-- `pd_t` and `pt_t`, which have the same layout: `mbz` is `dirty` in one, `fmb` is `mbz` in the other
pub record Entry : Type 0 where
  pub pres : Bool
  pub write : Bool
  pub user : Bool
  pub pwt : Bool
  pub pcd : Bool
  pub acc : Bool
  pub dirty : Bool
  pub big : Bool
  pub global : Bool
  pub avail : ℕ
  pub base : ℕ

pub record Paging : Type 0 where
  pub frames : Frames
  -- the memory in two views: the page directories and tables, by the number of the word, and bytes
  pub entries : ℕ → Entry
  pub mem : ℕ → ℕ
  -- `bsmap`; index 2 ^ 32 - 1 is the memory in front of the first entry
  pub if_map : ℕ → Bool
  pub map_pid : ℕ → ℕ
  pub num_pages : ℕ → ℕ
  pub start_vpn : ℕ → ℕ
  pub server : Server
  pub kernel : Kernel
  pub vheap : Vheap
  pub currpolicy : ℕ
  pub num_fault : ℕ
  -- how often `get_frame_sem` and `pgf_frame_sem` can be waited on
  pub get_frame_sem : ℕ
  pub pgf_frame_sem : ℕ
  -- `frame_md`
  pub alloc_page_proc : ℕ → ℕ
  pub alloc_page : ℕ → ℕ
  pub curframe : ℕ
  pub reclaimframe : ℕ

-- `vmemlist.vaddr` and `vmaxheap.vaddr` of a process
abbrev pub heap_start : ℕ → Paging → ℕ
heap_start pid s = s.vheap.vaddr (s.vheap.vmemlist pid)

abbrev pub heap_end : ℕ → Paging → ℕ
heap_end pid s = s.vheap.vaddr (s.vheap.vmaxheap pid)

-- `Cal_Addr`
abbrev pub cal_addr : ℕ → ℕ
cal_addr frame_number = (frame_number + 1024) * page_size % 2 ^ 32

-- `set_pd_t` and `set_pt_t`: what they store for `page_number`
abbrev pub entry_to : ℕ → Entry
entry_to page_number = record {
  pres = true;
  write = true;
  user = false;
  pwt = false;
  pcd = false;
  acc = false;
  dirty = false;
  big = false;
  global = false;
  avail = 0;
  base = page_number % 2 ^ 20;
}

abbrev pub store_entry : ℕ → ℕ → Paging → Paging
store_entry word page_number s = record s { entries = put s.entries word (entry_to page_number) }

-- The entry of the page directory of `pid` for the address `vaddr`, and the entry of the page table
abbrev pub pd_word : ℕ → ℕ → Paging → ℕ
pd_word pid vaddr s = s.kernel.procs.pdbr pid % 2 ^ 32 / 4 + vaddr / 2 ^ 22

-- The frame that the entry `word` of a page directory names
abbrev pub table_of : ℕ → Paging → ℕ
table_of word s = sub32 (s.entries word).base 1024

abbrev pub pt_word : ℕ → ℕ → Paging → ℕ
pt_word pid vaddr s = cal_addr (table_of (pd_word pid vaddr s) s) / 4 + vaddr / page_size % 1024

-- `reset_BSmapTab`
pub reset_bsmap : Paging → Paging
reset_bsmap s = record s {
  if_map = λ i. if ltb i max_bs_entries then false else s.if_map i;
  map_pid = λ i. if ltb i max_bs_entries then 0 else s.map_pid i;
  num_pages = λ i. if ltb i max_bs_entries then 0 else s.num_pages i;
  start_vpn = λ i. if ltb i max_bs_entries then 0 else s.start_vpn i;
}

-- The test of `get_store_offset` for store `i`
abbrev pub in_store : ℕ → ℕ → ℕ → Paging → Bool
in_store i pid vpn s =
    pid == s.map_pid i && (leb (s.start_vpn i) vpn && ltb (vpn - s.start_vpn i) (s.num_pages i))

-- Its loop, over the last `n` stores from `i` on: the store and the offset
unfoldable pub find_store : ℕ → ℕ → ℕ → ℕ → Paging → Option (ℕ × ℕ)
find_store zero i pid vpn s = none
find_store (suc n) i pid vpn s =
    let further = find_store n (i + 1) pid vpn s in
    if in_store i pid vpn s then some (i, vpn - s.start_vpn i) else further

unfoldable pub get_store_offset : ℕ → ℕ → Paging → Option (ℕ × ℕ)
get_store_offset pid vaddr s = find_store max_bs_entries 0 pid (vaddr / page_size) s

pub bs_mapping : ℕ → ℕ → ℕ → Paging → Option (Bool × Paging)
bs_mapping pid n_pages vpn s =
    if n_pages == 0
    then some (true, s)
    else and_then (allocate_bs n_pages s.server) (λ r.
      let store = r.0 in
      let s1 = record s { server = r.1 } in
      if s1.if_map store
      then some (false, s1)
      else some (
        true,
        record s1 {
          if_map = put s1.if_map store true;
          map_pid = put s1.map_pid store pid;
          num_pages = put s1.num_pages store n_pages;
          start_vpn = put s1.start_vpn store (add32 vpn 4096);
        },
      ))

pub srpolicy : ℕ → Paging → ℕ × Paging
srpolicy policy s =
    if policy == fifo
    then (ok, record s { currpolicy = fifo })
    else if policy == gca
    then (ok, record s { currpolicy = gca })
    else (syserr, s)

pub get_faults : Paging → ℕ
get_faults s = s.num_fault

-- An `int16` as the 32-bit pattern it is promoted to
abbrev pub int16 : ℕ → ℕ
int16 x = if ltb (x % 2 ^ 16) (2 ^ 15) then x % 2 ^ 16 else x % 2 ^ 16 + (2 ^ 32 - 2 ^ 16)

-- An index of `frame_md` moves on, around the end.
abbrev pub next_slot : ℕ → ℕ
next_slot i = if i + 1 == nframes then 0 else i + 1

pub hook_pfault : ℕ → ℕ → Paging → Option Paging
hook_pfault procid pagenum s =
    if is_bad_pid s.kernel.procs s.kernel.currpid
    then none
    else some (record s {
      alloc_page_proc = put s.alloc_page_proc s.curframe (int16 procid);
      alloc_page = put s.alloc_page s.curframe pagenum;
      curframe = next_slot s.curframe;
    })

pub hook_pswap_out : ℕ → ℕ → Paging → Option Paging
hook_pswap_out procid pagenum s =
    if is_bad_pid s.kernel.procs s.kernel.currpid
    then none
    else if not (s.currpolicy == fifo)
    then some s
    else if not (s.alloc_page s.reclaimframe == pagenum)
        || not (int16 procid == s.alloc_page_proc s.reclaimframe)
    then none
    else some (record s { reclaimframe = next_slot s.reclaimframe })
