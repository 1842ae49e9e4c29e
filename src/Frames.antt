-- ===== src/Frames.antt =====
-- The frame table `ivptab` and the queue of the frames that hold pages, of system/initialize.c.
-- A pointer to an entry is its index; the two dummy entries and NULL have the indices behind.
pub mod Fifo
pub mod Claim
use cs503_lab.Base.{
  ℕ, zero, suc, ◌+◌, ◌-◌, ◌^◌, Bool, true, false, ◌==◌, if◌then◌else◌, ltb, Option, none, some, put,
}

-- NFRAMES; then fifo_head_dummy_entry, fifo_tail_dummy_entry and NULL
abbrev pub nframes : ℕ
nframes = 50

abbrev pub fifo_head : ℕ
fifo_head = nframes

abbrev pub fifo_tail : ℕ
fifo_tail = nframes + 1

abbrev pub null_entry : ℕ
null_entry = nframes + 2

-- NULL_PAGE, PAGE_DIR, PAGE_TAB and PAGE
pub data FrameUse : Type 0 where
  null_page page_dir page_tab page : FrameUse

abbrev pub is_null_page : FrameUse → Bool
is_null_page FrameUse.null_page = true
is_null_page _ = false

abbrev pub is_page_tab : FrameUse → Bool
is_page_tab FrameUse.page_tab = true
is_page_tab _ = false

abbrev pub is_page : FrameUse → Bool
is_page FrameUse.page = true
is_page _ = false

-- `ivptab` and the dummy entries, field by field (`valid` is `use`), and `fifo_hand`
pub record Frames : Type 0 where
  pub use_of : ℕ → FrameUse
  pub frame_number : ℕ → ℕ
  pub owner : ℕ → ℕ
  pub vpage_num : ℕ → ℕ
  pub ref_count : ℕ → ℕ
  pub fifo_next : ℕ → ℕ
  pub fifo_prev : ℕ → ℕ
  pub fifo_hand : ℕ

abbrev pub set_fifo_next : ℕ → ℕ → Frames → Frames
set_fifo_next i v t = record t { fifo_next = put t.fifo_next i v }

abbrev pub set_fifo_prev : ℕ → ℕ → Frames → Frames
set_fifo_prev i v t = record t { fifo_prev = put t.fifo_prev i v }

-- The first lines of initialize_paging: an empty queue
pub init_fifo : Frames → Frames
init_fifo t =
    let t1 = record t { fifo_hand = fifo_head } in
    let t2 = set_fifo_prev fifo_head fifo_tail (set_fifo_next fifo_head null_entry t1) in
    let t3 = set_fifo_prev fifo_tail null_entry (set_fifo_next fifo_tail fifo_head t2) in
    record t3 {
      frame_number = put (put t3.frame_number fifo_head (2 ^ 32 - 1)) fifo_tail (2 ^ 32 - 1);
    }

-- `reset_ivtentry`
pub reset_ivtentry : Frames → Frames
reset_ivtentry t = record t {
  use_of = λ i. if ltb i nframes then FrameUse.null_page else t.use_of i;
  frame_number = λ i. if ltb i nframes then i else t.frame_number i;
  owner = λ i. if ltb i nframes then 0 else t.owner i;
  vpage_num = λ i. if ltb i nframes then 0 else t.vpage_num i;
  ref_count = λ i. if ltb i nframes then 0 else t.ref_count i;
  fifo_next = λ i. if ltb i nframes then null_entry else t.fifo_next i;
  fifo_prev = λ i. if ltb i nframes then null_entry else t.fifo_prev i;
}

-- `set_ivtentry_pd_pt`
pub set_ivtentry_pd_pt : ℕ → ℕ → FrameUse → Frames → Frames
set_ivtentry_pd_pt i pid type t = record t {
  use_of = put t.use_of i type;
  frame_number = put t.frame_number i i;
  owner = put t.owner i pid;
}

-- `for( uint32 i = 1 ; i < 6 ; i++)`: the page tables of the kernel
pub set_kernel_tables : ℕ → ℕ → Frames → Frames
unfolding set_ivtentry_pd_pt
set_kernel_tables zero i t = t
set_kernel_tables (suc n) i t =
    set_kernel_tables n (i + 1) (set_ivtentry_pd_pt i 0 FrameUse.page_tab t)

-- What initialize_paging does to the frame table
unfoldable pub init_frames : Frames → Frames
unfolding init_fifo reset_ivtentry set_kernel_tables
init_frames t =
    set_kernel_tables 5 1 (set_ivtentry_pd_pt 0 0 FrameUse.page_dir (reset_ivtentry (init_fifo t)))

-- The search for an unused frame, among the last `n` from `i` on
pub find_null : Frames → ℕ → ℕ → Option ℕ
find_null t zero i = none
find_null t (suc n) i =
    let further = find_null t n (i + 1) in if is_null_page (t.use_of i) then some i else further

-- A frame goes to the end of the queue, next to the tail.
unfoldable pub append_fifo : ℕ → Frames → Frames
append_fifo i t =
    let t1 = set_fifo_prev i fifo_tail t in
    let t2 = set_fifo_next i (t1.fifo_next fifo_tail) t1 in
    set_fifo_next fifo_tail i (set_fifo_prev (t2.fifo_next i) i t2)

-- A frame leaves the queue.
unfoldable pub unlink_fifo : ℕ → Frames → Frames
unlink_fifo i t =
    let t1 = set_fifo_next (t.fifo_prev i) (t.fifo_next i) t in
    let t2 = set_fifo_prev (t1.fifo_next i) (t1.fifo_prev i) t1 in
    set_fifo_prev i null_entry (set_fifo_next i null_entry t2)

-- Frame `i` is given to a process, for `purpose`.
unfoldable pub claim : ℕ → ℕ → ℕ → FrameUse → Frames → Frames
unfolding append_fifo
claim i pid vpn purpose t =
    let t' = record t { use_of = put t.use_of i purpose; owner = put t.owner i pid } in
    if is_page purpose then append_fifo i (record t' { vpage_num = put t'.vpage_num i vpn }) else t'
