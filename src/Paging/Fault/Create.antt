-- ===== src/Paging/Fault/Create.antt =====
-- create_pagetable: an empty page table in an unused frame.
use cs503_lab.Base.{
  ℕ, ◌+◌, ◌/◌, ◌^◌, ◌<◌, ◌≡◌, refl, ◌∙◌, ◌≢◌, true, false, List, arith, some, put_self,
}
use cs503_lab.Frames.{Frames, FrameUse, is_null_page, nframes, claim}
use cs503_lab.Frames.Claim.{IsFrames, FirstNull}
use cs503_lab.Paging.{Paging, cal_addr, entry_to, store_entry, pd_word}
use cs503_lab.Paging.Replace.Oldest.{get_free_frame_number-FirstNull}
use cs503_lab.Paging.Fault.Translate.{HasDirectory, pd_word-at}
use cs503_lab.Paging.Fault.{create_pagetable, empty_entries}
use cs503_lab.Paging.Fault.Entries.{among, empty_entries-kept, empty_entries-out}

-- The page table in frame `f`, which the entry `pd` names: no page of it is present.
abbrev pub with_table : ℕ → ℕ → Frames → Paging → Paging
with_table pd f t s =
    empty_entries 1024 (cal_addr f / 4) (store_entry pd (f + 1024) (record s { frames = t }))

-- While a frame is unused, the lowest of them becomes the page table.
pub create_pagetable-FirstNull :
    (s : Paging) {l : List ℕ} (pd : ℕ)
    → IsFrames s.frames l
    → s.get_frame_sem ≢ 0
    → (i : ℕ) → i < nframes
    → is_null_page (s.frames.use_of i) ≡ true
    → (f : ℕ) × FirstNull s.frames 0 nframes f
      × (create_pagetable pd s
          ≡ some (with_table pd f (claim f s.kernel.currpid 0 FrameUse.page_tab s.frames) s))
      × IsFrames (claim f s.kernel.currpid 0 FrameUse.page_tab s.frames) l
unfolding create_pagetable
create_pagetable-FirstNull s {l} pd v sem i lt e =
    let g =
      get_free_frame_number-FirstNull {s = s} {l = l} s.kernel.currpid 0 FrameUse.page_tab v sem i
        lt e in
    (g.0, g.1, rw g.2 refl, g.3)

-- The new page table is found in the directory, if it is not in the directory's own frame.
module _ (pid f vaddr : ℕ) (t : Frames) (s : Paging) where
  abbrev pub after : Paging
  after = with_table (pd_word pid vaddr s) f t s

  pub after-kept : after ≡ record s { frames = t; entries = after.entries }
  after-kept = empty_entries-kept 1024 (cal_addr f / 4) _

  module _ {d : ℕ} (h : HasDirectory pid d s) (small : vaddr < 2 ^ 32) (fl : f < nframes)
      (ne : f ≢ d) where
    outside : among 1024 (cal_addr f / 4) (pd_word pid vaddr s) ≡ false
    outside = ground (arith, pd_word-at h vaddr small, h.frame)

    pub entry_there : after.entries (pd_word pid vaddr s) ≡ entry_to (f + 1024)
    entry_there =
        empty_entries-out 1024 (cal_addr f / 4) (pd_word pid vaddr s) _ outside
        ∙ put_self s.entries (pd_word pid vaddr s) (entry_to (f + 1024))
