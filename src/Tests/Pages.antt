-- ===== src/Tests/Pages.antt =====
-- A paged machine: process 3 has its page directory in frame 6, a page table in frame 7, and pages.
use cs503_lab.Base.{
  ◌*◌, ℕ, ◌+◌, ◌%◌, ◌<◌, ◌≡◌, refl, inl, inr, ◌||◌, true, false, [], ◌∷◌, arith, ◌==◌,
  if◌then◌else◌, has, some, leb, bias, sub32, Bool-cases,
}
use mathlib.Core.Path.{subst}
use cs503_lab.Config.{is_bad_pid}
use cs503_lab.Frames.{Frames, FrameUse, nframes, claim}
use cs503_lab.Frames.Claim.{IsFrames, FirstNull, claimed}
use cs503_lab.Vheap.{Vheap}
use cs503_lab.Backing.Pages.{Ready}
use cs503_lab.Paging.{Paging, entry_to, cal_addr, fifo, gca, get_store_offset, find_store}
use cs503_lab.Paging.Replace.{get_free_frame_number}
use cs503_lab.Paging.Replace.Evict.{Evictable, Expected, Replaced}
use cs503_lab.Paging.Replace.Oldest.{
  Full, get_free_frame_number-FirstNull, get_free_frame_number-Replaced,
}
use cs503_lab.Paging.Replace.Clock.{ClockReady, Clocked, get_free_frame_number-Clocked}
use cs503_lab.Tests.Kernels.{raw}
use cs503_lab.Tests.Stores.{server}

-- Frames 48 and 49 hold the first two pages of the heap; those from `used` on to 47 are unused.
abbrev pub frames : ℕ → Frames
frames used = record {
  use_of = λ i.
      if leb 48 i
      then FrameUse.page
      else if leb used i
      then FrameUse.null_page
      else if i == 6
      then FrameUse.page_dir
      else FrameUse.page_tab;
  frame_number = λ i. i;
  owner = λ i. 3;
  vpage_num = λ i. i + 4048;
  ref_count = λ i. if i == 7 then 2 else 0;
  fifo_next = λ i. if i == 51 then 49 else if i == 49 then 48 else if i == 48 then 50 else 52;
  fifo_prev = λ i. if i == 50 then 48 else if i == 48 then 49 else if i == 49 then 51 else 52;
  fifo_hand = 50;
}

-- A heap of five pages from 16 MB on, all free, for each process
abbrev vheap : Vheap
vheap = record {
  vmemlist = λ p. 0x30_0000 + p * 128;
  vminheap = λ p. 0x30_0000 + p * 128 + 12;
  vmaxheap = λ p. 0x30_0000 + p * 128 + 24;
  vnext = λ a. if a % 128 == 0 then a + 12 else 0;
  vaddr = λ a. if a % 128 == 24 then 0x100_5000 else 0x100_0000;
  vmlength = λ a. if a % 128 == 24 then 0 else 0x5000;
}

abbrev pub machine : ℕ → ℕ → Paging
machine used policy = record {
  frames = frames used;
  entries = λ w. record (entry_to 0) {
    pres = w == 1054724 || (w == 1055744 || w == 1055745);
    base = if w == 1054724 then 1031 else if w == 1055744 then 1072 else 1073;
  };
  mem = λ x. x % 256;
  if_map = λ i. i == 2;
  map_pid = λ i. if i == 2 then 3 else 0;
  num_pages = λ i. if i == 2 then 5 else 0;
  start_vpn = λ i. if i == 2 then 4096 else 0;
  server = server;
  kernel = record raw { currpid = 3; procs = record (raw.procs) { pdbr = λ i. cal_addr 6 } };
  vheap = vheap;
  currpolicy = policy;
  num_fault = 2;
  get_frame_sem = 1;
  pgf_frame_sem = 1;
  alloc_page_proc = λ i. 3;
  alloc_page = λ i. i + 4096;
  curframe = 2;
  reclaimframe = 0;
}

pub machine-IsFrames : (used : ℕ) → IsFrames (frames used) (48 ∷ 49 ∷ [])
machine-IsFrames used = record {
  lined = record {
    chain = ((refl, refl), ((refl, refl), ((refl, refl), tt)));
    distinct = (refl, (refl, tt));
    frames = λ i m. ground arith;
  };
  pages = λ i lt. ground arith;
  numbers = λ i lt. refl;
}

pub machine-Full : (policy : ℕ) → Full (machine 48 policy)
machine-Full policy i lt = ground arith

pub alive :
    (used policy : ℕ)
    → is_bad_pid (machine used policy).kernel.procs (machine used policy).kernel.currpid ≡ false
unfolding bias
alive used policy = refl

pub server-pages : (page : ℕ) → page < 5 → Ready 2 page server
server-pages page lt = record {
  active = refl;
  store = omega arith;
  opened = refl;
  page_in = lt;
  unlocked = omega arith;
  works = λ i il. refl;
}

pub first-Expected : (policy : ℕ) → Expected 48 (machine 48 policy)
unfolding bias
first-Expected policy = record { alive = refl; next_page = λ p. refl; next_proc = λ p. refl }

pub first-Evictable : (policy : ℕ) → Evictable 48 (machine 48 policy) 2 0
unfolding get_store_offset find_store sub32
first-Evictable policy = record {
  mapped = refl;
  store = server-pages 0 (omega arith);
  in_table = omega arith;
  table = refl;
}

second-Evictable : (policy : ℕ) → Evictable 49 (machine 48 policy) 2 1
unfolding get_store_offset find_store sub32
second-Evictable policy = record {
  mapped = refl;
  store = server-pages 1 (omega arith);
  in_table = omega arith;
  table = refl;
}

-- With every frame from 8 to 47 unused
get_free_frame_number-FirstNull_example :
    (f : ℕ) × FirstNull (frames 8) 0 nframes f
    × (get_free_frame_number 3 4098 FrameUse.page (machine 8 fifo)
        ≡ some (f, record (machine 8 fifo) { frames = claim f 3 4098 FrameUse.page (frames 8) }))
    × IsFrames (claim f 3 4098 FrameUse.page (frames 8)) (claimed FrameUse.page f (48 ∷ 49 ∷ []))
get_free_frame_number-FirstNull_example =
    get_free_frame_number-FirstNull {s = machine 8 fifo} 3 4098 FrameUse.page (machine-IsFrames 8)
      (omega arith) 20 (omega arith) refl

-- With no frame unused: page 4098 takes the place of page 4096.
get_free_frame_number-Replaced_example :
    (s' : Paging) × (get_free_frame_number 3 4098 FrameUse.page (machine 48 fifo) ≡ some (48, s'))
    × Replaced 48 3 4098 FrameUse.page 2 0 (machine 48 fifo) s' (49 ∷ [])
get_free_frame_number-Replaced_example =
    get_free_frame_number-Replaced (machine 48 fifo) (machine-IsFrames 48) 3 4098 FrameUse.page
      (omega arith) (machine-Full fifo) refl (first-Evictable fifo) (first-Expected fifo)

two_pages :
    (policy i : ℕ)
    → has i (48 ∷ 49 ∷ []) ≡ true
    → (id : ℕ) × (page : ℕ) × Evictable i (machine 48 policy) id page
two_pages policy i m = elim (Bool-cases (i == 48)) [
  | inl e ↦
      let same : 48 ≡ i = ground arith in
      (2, 0, subst (λ j. Evictable j (machine 48 policy) 2 0) same (first-Evictable policy))
  | inr e ↦
      let same : 49 ≡ i = ground arith in
      (2, 1, subst (λ j. Evictable j (machine 48 policy) 2 1) same (second-Evictable policy))
]

clock-ready : ClockReady (machine 48 gca) (48 ∷ 49 ∷ [])
clock-ready = record {
  queue = machine-IsFrames 48;
  policy = refl;
  hand = inl refl;
  accessed = λ i m d. absurd (cc);
}

get_free_frame_number-Clocked_example :
    (f : ℕ) × (id : ℕ) × (page : ℕ) × (s' : Paging) × (get_free_frame_number 3 4098 FrameUse.page
        (machine 48 gca)
      ≡ some (f, s'))
    × Clocked f 3 4098 FrameUse.page id page (machine 48 gca) s' (48 ∷ 49 ∷ [])
get_free_frame_number-Clocked_example =
    get_free_frame_number-Clocked clock-ready (λ e. absurd (cc)) (machine-Full gca) 3 4098
      FrameUse.page (omega arith) (alive 48 gca) (two_pages gca)
