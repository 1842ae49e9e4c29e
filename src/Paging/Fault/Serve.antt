-- ===== src/Paging/Fault/Serve.antt =====
-- create_pagetable and myPageFault while frames are unused.
use cs503_lab.Base.{
  ℕ, ◌+◌, ◌*◌, ◌/◌, ◌%◌, ◌^◌, ◌≤◌, ◌<◌, ◌≡◌, refl, sym, ap, ◌∙◌, ◌≢◌, true, false, List, [], ◌∷◌,
  ◌++◌, arith, ◌==◌, some, put, ltb, add32,
}
use mathlib.Core.Path.{subst}
use cs503_lab.Config.{is_bad_pid}
use cs503_lab.Frames.{FrameUse, is_null_page, nframes, claim}
use cs503_lab.Frames.Claim.{IsFrames, FirstNull, Lined-links}
use cs503_lab.Backing.{Server, first_block, rd_blksiz}
use cs503_lab.Backing.Pages.{Ready, Loaded, read_bs-Loaded}
use cs503_lab.Paging.{
  heap_start, heap_end, Paging, page_size, cal_addr, entry_to, pd_word, pt_word, table_of,
  get_store_offset, hook_pfault, int16, next_slot,
}
use cs503_lab.Paging.Replace.{get_free_frame_number}
use cs503_lab.Paging.Replace.Oldest.{get_free_frame_number-FirstNull}
use cs503_lab.Paging.Fault.Translate.{translate, HasDirectory, words_apart}
use cs503_lab.Paging.Fault.{load_page}

-- The page is in frame `f`: the entry `pt` of its page table, which the entry `pd` names, leads to it.
abbrev pub loaded : ℕ → ℕ → ℕ → ℕ → ℕ → (ℕ → ℕ) → Paging → Paging
loaded pid vpn pd pt f mem s = record s {
  mem = mem;
  entries = put s.entries pt (entry_to (f + 1024));
  frames = record (s.frames) {
    ref_count =
        put s.frames.ref_count (table_of pd s) (add32 (s.frames.ref_count (table_of pd s)) 1);
  };
  alloc_page_proc = put s.alloc_page_proc s.curframe (int16 pid);
  alloc_page = put s.alloc_page s.curframe vpn;
  curframe = next_slot s.curframe;
}

-- Once a frame is found, the rest of the handler reads the page into it.
pub load_page-Loaded :
    {f id page : ℕ} (s : Paging) {s1 : Paging} (vaddr pd pt : ℕ)
    → get_store_offset s.kernel.currpid vaddr s ≡ some (id, page)
    → get_free_frame_number s.kernel.currpid (vaddr / page_size) FrameUse.page s ≡ some (f, s1)
    → s1.kernel ≡ s.kernel
    → Ready id page s1.server
    → table_of pd s1 < nframes
    → pd ≢ pt
    → is_bad_pid s.kernel.procs s.kernel.currpid ≡ false
    → (mem : ℕ → ℕ) × (load_page vaddr pd pt s
        ≡ some (loaded s.kernel.currpid (vaddr / page_size) pd pt f mem s1))
      × Loaded 8 (first_block id page) ((f + 1024) * page_size) s1.server s1.mem mem
unfolding load_page hook_pfault
load_page-Loaded {f} {id} {page} s {s1} vaddr pd pt at found same store in_table ne alive =
    let r = read_bs-Loaded store ((f + 1024) * page_size) s1.mem in
    let other : (pd == pt) ≡ false = ground arith in
    let lt : ltb (table_of pd s1) nframes ≡ true = ground arith in
    let alive' = subst (λ k. is_bad_pid k.procs k.currpid ≡ false) (sym same) alive in
    (r.0, rw (at, found, r.1, other, lt, alive') refl, r.2)

-- The fault at `vaddr` is served: the page is in frame `f`, with what page `page` of store `id` has.
pub record Served (f id page vaddr : ℕ) (s s' : Paging) (l : List ℕ) : Type 0 where
  pub queue : IsFrames s'.frames (l ++ f ∷ [])
  pub present :
      translate s.kernel.currpid vaddr s' ≡ some ((f + 1024) * page_size + vaddr % page_size)
  pub bytes :
      (o : ℕ)
      → o < page_size
      → s'.mem ((f + 1024) * page_size + o)
        ≡ s.server.disk (first_block id page + o / rd_blksiz) (o % rd_blksiz)
  pub owner : s'.frames.owner f ≡ s.kernel.currpid
  pub vpage_num : s'.frames.vpage_num f ≡ vaddr / page_size

-- The current process may touch `vaddr`: it is in its heap, and its page is page `page` of store `id`.
pub record Reachable (id page vaddr d : ℕ) (s : Paging) : Type 0 where
  pub small : vaddr < 2 ^ 32
  pub above : heap_start s.kernel.currpid s ≤ vaddr
  pub below : vaddr < heap_end s.kernel.currpid s
  pub directory : HasDirectory s.kernel.currpid d s
  pub mapped : get_store_offset s.kernel.currpid vaddr s ≡ some (id, page)
  pub store : Ready id page s.server
  pub alive : is_bad_pid s.kernel.procs s.kernel.currpid ≡ false
  pub free : s.get_frame_sem ≢ 0

-- The read of a page, byte by byte
pub Loaded-bytes :
    (f id page : ℕ) {r : Server} {mem mem' : ℕ → ℕ}
    → Loaded 8 (first_block id page) ((f + 1024) * page_size) r mem mem'
    → (o : ℕ) → o < page_size
    → mem' ((f + 1024) * page_size + o)
      ≡ r.disk (first_block id page + o / rd_blksiz) (o % rd_blksiz)
Loaded-bytes f id page {mem'} l o lt =
    let e : (f + 1024) * page_size + o
        ≡ (f + 1024) * page_size + o / rd_blksiz * rd_blksiz + o % rd_blksiz =
      omega arith in
    ap mem' e ∙ l.inside (o / rd_blksiz) (o % rd_blksiz) (omega arith) (omega arith)

-- The loaded page is translated to its frame.
pub loaded-translate :
    (pid vaddr pd pt f vpn : ℕ) (mem : ℕ → ℕ) (s : Paging)
    → pd ≡ pd_word pid vaddr s
    → pt ≡ cal_addr (table_of pd s) / 4 + vaddr / page_size % 1024
    → pd ≢ pt
    → (s.entries pd).pres ≡ true
    → f < nframes
    → translate pid vaddr (loaded pid vpn pd pt f mem s)
      ≡ some ((f + 1024) * page_size + vaddr % page_size)
loaded-translate pid vaddr pd pt f vpn mem s e e' ne there lt =
    let other : (pd == pt) ≡ false = ground arith in
    let self : (pt == pt) ≡ true = ground arith in
    let small : (f + 1024) % 2 ^ 20 ≡ f + 1024 = omega arith in
    rw (sym e, other, sym e', self, there, small) refl

-- The rest of the handler, while frame `i` is unused, for a page whose page table exists
module _ {id page vaddr d : ℕ} {s : Paging} (r : Reachable id page vaddr d s) where
  pub load_page-Served :
      (l : List ℕ)
      → IsFrames s.frames l
      → (s.entries (pd_word s.kernel.currpid vaddr s)).pres ≡ true
      → (t : ℕ) → table_of (pd_word s.kernel.currpid vaddr s) s ≡ t
      → t < nframes
      → t ≢ d
      → (i : ℕ) → i < nframes
      → is_null_page (s.frames.use_of i) ≡ true
      → (f : ℕ) × (s' : Paging) × FirstNull s.frames 0 nframes f
        × (load_page vaddr (pd_word s.kernel.currpid vaddr s) (pt_word s.kernel.currpid vaddr s) s
            ≡ some s')
        × Served f id page vaddr s s' l
        × (s'.num_fault ≡ s.num_fault)
        × (s'.get_frame_sem ≡ s.get_frame_sem)
        × (s'.pgf_frame_sem ≡ s.pgf_frame_sem)
  unfolding claim
  load_page-Served l v there t table lt ne i il unused =
      let pid = s.kernel.currpid in
      let pd = pd_word pid vaddr s in
      let pt = pt_word pid vaddr s in
      let apart = words_apart r.directory vaddr r.small t table lt ne in
      let g =
        get_free_frame_number-FirstNull {s = s} {l = l} pid (vaddr / page_size) FrameUse.page v
          r.free i il unused in
      let fl : g.0 < nframes = omega (arith, g.1.within) in
      let w =
        load_page-Loaded s vaddr pd pt r.mapped g.2 refl r.store
          (subst (λ u. u < nframes) (sym table) lt) apart r.alive in
      (
        g.0,
        loaded pid (vaddr / page_size) pd pt g.0 w.0
            (record s { frames = claim g.0 pid (vaddr / page_size) FrameUse.page s.frames }),
        g.1,
        w.1,
        record {
          queue = record {
            lined = Lined-links refl g.3.lined;
            pages = g.3.pages;
            numbers = g.3.numbers;
          };
          present =
              loaded-translate pid vaddr pd pt g.0 (vaddr / page_size) w.0 s refl refl apart there
                fl;
          bytes = Loaded-bytes g.0 id page w.2;
          owner = ground arith;
          vpage_num = ground arith;
        },
        refl,
        refl,
        refl,
      )
