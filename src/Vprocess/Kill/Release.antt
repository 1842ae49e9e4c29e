-- ===== src/Vprocess/Kill/Release.antt =====
-- The frames of a process that ends.
use cs503_lab.Base.{
  ℕ, ◌+◌, ◌*◌, ◌^◌, ◌%◌, ◌≤◌, ◌<◌, ◌≡◌, ◌≢◌, ◌⊎◌, ◌&&◌, true, not, List, ◌==◌, has, some, put,
}
use cs503_lab.Frames.{Frames, FrameUse, is_null_page}
use cs503_lab.Frames.Claim.{IsFrames}
use cs503_lab.Backing.Pages.{Ready}
use cs503_lab.Paging.{Paging, page_size, get_store_offset}

-- The page in frame `i` of `pid` has page `page` of store `id`, which can be written.
pub record Savable (pid i : ℕ) (s : Paging) : Type 0 where
  pub id : ℕ
  pub page : ℕ
  pub mapped : get_store_offset pid (s.frames.vpage_num i * page_size % 2 ^ 32) s ≡ some (id, page)
  pub store : Ready id page s.server

-- Frame `i` is unused, and the rest of the table is as before: `l` is the queue before, `l'` after.
record Freed (pid i : ℕ) (s s' : Paging) (l l' : List ℕ) : Type 0 where
  queue : IsFrames s'.frames l'
  left : (j : ℕ) → has j l' ≡ (has j l && not (j == i && s.frames.owner i == pid))
  unused : s.frames.owner i ≡ pid → is_null_page (s'.frames.use_of i) ≡ true
  others :
      (j : ℕ)
      → j ≢ i
      → (s'.frames.use_of j ≡ s.frames.use_of j)
        × (s'.frames.owner j ≡ s.frames.owner j)
        × (s'.frames.vpage_num j ≡ s.frames.vpage_num j)
  same : s.frames.owner i ≢ pid → s' ≡ s
  kept : s' ≡ record s { server = record (s.server) { disk = s'.server.disk }; frames = s'.frames }

-- The entry of a frame that leaves the process
abbrev cleared : ℕ → Frames → Frames
cleared i t = record t {
  use_of = put t.use_of i FrameUse.null_page;
  frame_number = put t.frame_number i i;
  owner = put t.owner i 0;
  vpage_num = put t.vpage_num i 0;
  ref_count = put t.ref_count i 0;
}

-- The `n` frames from `i` on: those of `pid` are unused, and no longer in the queue.
pub record AllFreed (pid i n : ℕ) (s s' : Paging) (l l' : List ℕ) : Type 0 where
  pub queue : IsFrames s'.frames l'
  pub left : (j : ℕ) → i ≤ j → j < i + n → has j l' ≡ (has j l && not (s.frames.owner j == pid))
  pub unused :
      (j : ℕ)
      → i ≤ j
      → j < i + n
      → s.frames.owner j ≡ pid
      → is_null_page (s'.frames.use_of j) ≡ true
  pub others :
      (j : ℕ)
      → s.frames.owner j ≢ pid
      → (s'.frames.use_of j ≡ s.frames.use_of j)
        × (s'.frames.owner j ≡ s.frames.owner j)
        × (s'.frames.vpage_num j ≡ s.frames.vpage_num j)
  pub outside :
      (j : ℕ)
      → (j < i) ⊎ (i + n ≤ j)
      → (has j l' ≡ has j l) × (s'.frames.use_of j ≡ s.frames.use_of j)
