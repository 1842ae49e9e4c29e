-- ===== src/Paging/Fault/Swap.antt =====
-- The page fault handler when every frame is in use, under FIFO.
use cs503_lab.Base.{
  ℕ, ◌+◌, ◌*◌, ◌-◌, ◌/◌, ◌%◌, ◌^◌, ◌≤◌, ◌<◌, ◌≡◌, refl, sym, ap, ◌∙◌, ◌≢◌, ◌⊎◌, ◌||◌, true, false,
  List, ◌∷◌, arith, ◌==◌, some, ltb, leb, sub32,
}
use mathlib.Core.Path.{subst}
use cs503_lab.Frames.{FrameUse, is_page_tab, nframes}
use cs503_lab.Frames.Claim.{IsFrames, Lined-links}
use cs503_lab.Backing.{first_block, rd_blksiz, max_pages_per_bs}
use cs503_lab.Backing.Pages.{Ready-Written, Written}
use cs503_lab.Paging.{
  Paging, page_size, fifo, cal_addr, pd_word, pt_word, table_of, get_store_offset, find_store,
  heap_start, heap_end,
}
use cs503_lab.Paging.Replace.{page_word}
use cs503_lab.Paging.Replace.Evict.{Evictable, Expected, dir_word}
use cs503_lab.Paging.Replace.Oldest.{Full, get_free_frame_number-Replaced}
use cs503_lab.Paging.Fault.{page_fault}
use cs503_lab.Paging.Fault.Translate.{words_apart, pd_word-at}
use cs503_lab.Paging.Fault.Serve.{
  Served, Reachable, loaded, load_page-Loaded, loaded-translate, Loaded-bytes,
}
use cs503_lab.Paging.Fault.Handle.{Counted, entered}

Evictable-entered :
    {f id page : ℕ} {s : Paging} → Evictable f s id page → Evictable f (entered s) id page
unfolding get_store_offset find_store
Evictable-entered e = record {
  mapped = e.mapped;
  store = e.store;
  in_table = e.in_table;
  table = e.table;
}

mapped_entered :
    {id page vaddr d : ℕ} {s : Paging}
    → Reachable id page vaddr d s
    → get_store_offset s.kernel.currpid vaddr (entered s) ≡ some (id, page)
unfolding get_store_offset find_store
mapped_entered r = r.mapped

-- The two pages: `page` of store `id` is faulted in, `page0` of store `id0` goes from frame `f`.
module _ {id page vaddr d f id0 page0 : ℕ} {s : Paging} {l : List ℕ}
    (r : Reachable id page vaddr d s) (v : IsFrames s.frames (f ∷ l))
    (e : Evictable f s id0 page0) where
  -- The directory's entry is not the entry of the page that goes.
  other_word :
      is_page_tab (s.frames.use_of d) ≡ false → pd_word s.kernel.currpid vaddr s ≢ page_word f s
  other_word dir same =
      let t = table_of (dir_word f s) s in
      let ne : t ≢ d = λ q.
        absurd
          (ground (arith, subst (λ i. is_page_tab (s.frames.use_of i) ≡ true) q e.table, dir)) in
      absurd (
        omega
          (arith, pd_word-at r.directory vaddr r.small, same, ne, e.in_table, r.directory.frame))

  -- The blocks of one are not the blocks of the other.
  blocks_apart :
      page < max_pages_per_bs
      → page0 < max_pages_per_bs
      → (id ≢ id0) ⊎ (page ≢ page0)
      → (k : ℕ) → k < 8
      → (first_block id page + k < first_block id0 page0)
        ⊎ (first_block id0 page0 + 8 ≤ first_block id page + k)
  blocks_apart a b ne k lt = omega arith

  -- A fault in a page of the heap whose page table exists, when every frame is in use and the policy is
  -- FIFO: the oldest page goes to its store, and its frame to the page that is needed, if no other
  -- caller holds the semaphores, the stores of both pages can be accessed, the old page's table has
  -- other pages, the two are different pages of the stores, the frame of the process's directory is
  -- neither the page table's nor in use as one, and the hook's ring names the old page and its process in the slot that it checks (it
  -- panics otherwise). The handler returns, the frame has the page's bytes from the store and is the
  -- newest of the queue, the address leads to it, and the old page's bytes are in its store.
  pub page_fault-Swapped :
      s.pgf_frame_sem ≢ 0
      → Full s
      → s.currpolicy ≡ fifo
      → Expected f s
      → (s.entries (pd_word s.kernel.currpid vaddr s)).pres ≡ true
      → (t : ℕ) → table_of (pd_word s.kernel.currpid vaddr s) s ≡ t
      → t < nframes
      → t ≢ d
      → is_page_tab (s.frames.use_of d) ≡ false
      → (sub32 (s.frames.ref_count (table_of (dir_word f s) s)) 1 == 0) ≡ false
      → page < max_pages_per_bs
      → page0 < max_pages_per_bs
      → (id ≢ id0) ⊎ (page ≢ page0)
      → (s' : Paging) × (page_fault vaddr s ≡ some s')
        × Served f id page vaddr s s' l
        × Written 8 (first_block id0 page0) ((f + 1024) * page_size) s.mem s.server s'.server
        × Counted s s'
  unfolding page_fault
  page_fault-Swapped sem full policy x there t table lt ne dir more pl pl0 apart =
      let pid = s.kernel.currpid in
      let vpn = vaddr / page_size in
      let pd = pd_word pid vaddr s in
      let pt = pt_word pid vaddr s in
      let q : Paging = entered s in
      let locked : (s.pgf_frame_sem == 0) ≡ false = ground arith in
      let in_heap : (ltb vaddr (heap_start pid s) || leb (heap_end pid s) vaddr) ≡ false =
        ground (arith, r.above, r.below) in
      let fl : f < nframes = v.lined.frames f (ground arith) in
      let g =
        get_free_frame_number-Replaced q {l = l} v pid vpn FrameUse.page r.free full policy
          (Evictable-entered e)
          (record { alive = x.alive; next_page = x.next_page; next_proc = x.next_proc }) in
      let s1 = g.0 in
      let kernel : s1.kernel ≡ s.kernel = ap (λ p. p.kernel) g.2.kept in
      let at : table_of pd s1 ≡ t = ap (λ b. sub32 b 1024) (g.2.base pd) ∙ table in
      let pds = words_apart r.directory vaddr r.small t table lt ne in
      let w =
        load_page-Loaded q vaddr pd pt (mapped_entered r) g.1 kernel
          (Ready-Written g.2.stored.table r.store) (subst (λ u. u < nframes) (sym at) lt) pds
          r.alive in
      let here : pd ≡ pd_word pid vaddr s1 =
        ap (λ k. k.procs.pdbr pid % 2 ^ 32 / 4 + vaddr / 2 ^ 22) (sym kernel) in
      let there_at : pt ≡ cal_addr (table_of pd s1) / 4 + vaddr / page_size % 1024 =
        ap (λ b. cal_addr (sub32 b 1024) / 4 + vaddr / page_size % 1024) (sym (g.2.base pd)) in
      let pgf : s1.pgf_frame_sem ≡ s.pgf_frame_sem - 1 = ap (λ p. p.pgf_frame_sem) g.2.kept in
      (
        record (loaded pid vpn pd pt f w.0 s1) { pgf_frame_sem = s1.pgf_frame_sem + 1 },
        rw (locked, in_heap, there, w.1) refl,
        record {
          queue = record {
            lined = Lined-links refl g.2.queue.lined;
            pages = g.2.queue.pages;
            numbers = g.2.queue.numbers;
          };
          present =
              loaded-translate pid vaddr pd pt f vpn w.0 s1 here there_at pds
                (g.2.pres more pd (other_word dir) ∙ there) fl;
          bytes = λ o ol.
              Loaded-bytes f id page w.2 o ol
              ∙ g.2.stored.outside (first_block id page + o / rd_blksiz) (o % rd_blksiz)
                  (blocks_apart pl pl0 apart (o / rd_blksiz) (omega arith));
          owner = g.2.given;
          vpage_num = g.2.for_page refl;
        },
        g.2.stored,
        record {
          num_fault = ap (λ p. p.num_fault) g.2.kept;
          get_frame_sem = g.2.sem;
          pgf_frame_sem = omega (arith, pgf, sem);
        },
      )
