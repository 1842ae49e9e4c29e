-- ===== src/Paging/Replace.antt =====
-- get_free_frame_number of system/initialize.c, with both replacement policies.
pub mod Evict
pub mod Oldest
pub mod Turn
pub mod Stop
pub mod Clock
pub mod Stuck
use cs503_lab.Base.{
  ℕ, zero, suc, ◌+◌, ◌*◌, ◌-◌, ◌/◌, ◌%◌, ◌^◌, ◌||◌, ◌&&◌, Bool, true, false, not, ◌==◌,
  if◌then◌else◌, Option, none, some, ltb, leb, add32, sub32, put,
}
use cs503_lab.Config.{ok, syserr}
use cs503_lab.Frames.{
  Frames, FrameUse, nframes, fifo_head, fifo_tail, null_entry, is_page, is_page_tab, find_null,
  unlink_fifo, claim,
}
use cs503_lab.Backing.{and_then, write_bs}
use cs503_lab.Paging.{
  Paging, Entry, page_size, fifo, gca, pd_word, pt_word, table_of, get_store_offset, hook_pswap_out,
}

-- The frame leaves the queue, if `ivptab` has it.
abbrev pub take_off : ℕ → Paging → Option (ℕ × Paging)
take_off ret s =
    if ltb ret nframes then some (ret, record s { frames = unlink_fifo ret s.frames }) else none

-- `currpolicy == FIFO`
pub choose_oldest : Paging → Option (ℕ × Paging)
choose_oldest s =
    let ret = s.frames.frame_number (s.frames.fifo_prev fifo_head) in
    if is_page (s.frames.use_of ret) then take_off ret s else none

abbrev pub set_hand : ℕ → Paging → Paging
set_hand i s = record s { frames = record (s.frames) { fifo_hand = i } }

-- The page table's entry for the page in frame `i`
abbrev pub page_word : ℕ → Paging → ℕ
page_word i s = pt_word (s.frames.owner i) (s.frames.vpage_num i * page_size % 2 ^ 32) s

abbrev pub clear_acc : ℕ → Paging → Paging
clear_acc word s = record s {
  entries = put s.entries word (record (s.entries word) { acc = false });
}

abbrev pub clear_dirty : ℕ → Paging → Paging
clear_dirty word s = record s {
  entries = put s.entries word (record (s.entries word) { dirty = false });
}

-- `fifo_hand = fifo_hand -> fifo_prev`
abbrev pub advance : Paging → Paging
advance s = set_hand (s.frames.fifo_prev s.frames.fifo_hand) s

-- The end of the loop's body: the hand goes from the tail to the oldest page.
abbrev pub wrap_hand : Paging → Paging
wrap_hand s =
    if s.frames.fifo_hand == fifo_tail then set_hand (s.frames.fifo_prev fifo_head) s else s

-- The start of it: the first access
abbrev pub start_hand : Paging → Paging
start_hand s =
    if s.frames.fifo_hand == fifo_head then set_hand (s.frames.fifo_prev fifo_head) s else s

-- `while( 1 )` of `currpolicy == GCA`, `fuel` times at most
pub turn : ℕ → Paging → Option (ℕ × Paging)
turn zero s = none
turn (suc fuel) s =
    let s1 = start_hand s in
    let hand = s1.frames.fifo_hand in
    let word = page_word hand s1 in
    let entry = s1.entries word in
    let past_acc = turn fuel (wrap_hand (advance (clear_acc word s1))) in
    let past_dirty = turn fuel (wrap_hand (advance (clear_dirty word s1))) in
    if s.frames.fifo_hand == fifo_tail || hand == null_entry
    then none
    else if not entry.acc && not entry.dirty
    then some (s1.frames.frame_number hand, advance s1)
    else if entry.acc && not entry.dirty
    then past_acc
    else if entry.acc && entry.dirty
    then past_dirty
    else none

pub choose_gca : Paging → Option (ℕ × Paging)
choose_gca s = and_then (turn (3 * nframes) s) (λ r. take_off r.0 r.1)

-- The page that is replaced
pub choose : Paging → Option (ℕ × Paging)
choose s =
    if s.frames.fifo_prev fifo_head == null_entry
    then none
    else if s.currpolicy == fifo
    then choose_oldest s
    else if s.currpolicy == gca
    then choose_gca s
    else none

-- One page less in the page table `table`, which the directory's entry `pd` names
abbrev pub drop_ref : ℕ → ℕ → Paging → Paging
drop_ref pd table s =
    let count = sub32 (s.frames.ref_count table) 1 in
    let s1 = record s {
      frames = record (s.frames) { ref_count = put s.frames.ref_count table count };
    } in
    if count == 0
    then record s1 {
      entries = put s1.entries pd (record (s1.entries pd) { pres = false });
      frames = record (s1.frames) { use_of = put s1.frames.use_of table FrameUse.null_page };
    }
    else s1

-- The page in frame `ret` goes to its backing store, and its page table forgets it.
pub swap_out : ℕ → Paging → Option Paging
swap_out ret s =
    let pid = s.frames.owner ret in
    let vaddr = s.frames.vpage_num ret * page_size % 2 ^ 32 in
    let pd = pd_word pid vaddr s in
    let pt = pt_word pid vaddr s in
    and_then (get_store_offset pid vaddr s) (λ at.
      and_then (write_bs ((ret + 1024) * page_size) at.0 at.1 s.mem s.server) (λ r.
        if r.0 == syserr
        then none
        else let s1 = record s {
          server = r.1;
          entries = put s.entries pt (record (s.entries pt) { pres = false });
        } in
          let table = table_of pd s1 in
          if not (ltb table nframes && is_page_tab (s1.frames.use_of table))
          then none
          else some (drop_ref pd table s1)))

-- What follows the choice of frame `ret`
pub replace : ℕ → ℕ → ℕ → FrameUse → Paging → Option (ℕ × Paging)
replace ret pid vpn purpose s = and_then (swap_out ret s) (λ s1.
    let old_pid = s1.frames.owner ret in
    let old_pagenum = s1.frames.vpage_num ret in
    and_then
      (hook_pswap_out old_pid old_pagenum
        (record s1 { frames = claim ret pid vpn purpose s1.frames }))
      (λ s2. some (ret, s2)))

abbrev pub or_else : {B : Type 0} → Option ℕ → (ℕ → B) → B → B
or_else none f b = b
or_else (some i) f b = f i

-- `get_free_frame_number` between `wait` and `signal`
pub free_frame : ℕ → ℕ → FrameUse → Paging → Option (ℕ × Paging)
free_frame pid vpn purpose s =
    or_else (find_null s.frames nframes 0)
      (λ i. some (i, record s { frames = claim i pid vpn purpose s.frames }))
      (and_then (choose s) (λ r. replace r.0 pid vpn purpose r.1))

pub get_free_frame_number : ℕ → ℕ → FrameUse → Paging → Option (ℕ × Paging)
get_free_frame_number pid vpn purpose s =
    if s.get_frame_sem == 0
    then none
    else and_then (free_frame pid vpn purpose (record s { get_frame_sem = s.get_frame_sem - 1 }))
        (λ r. some (r.0, record (r.1) { get_frame_sem = r.1.get_frame_sem + 1 }))
