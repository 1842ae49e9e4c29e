-- ===== src/Paging/Fault/Handle.antt =====
-- The page fault handler: every branch that needs no replacement.
use cs503_lab.Base.{
  ℕ, ◌+◌, ◌-◌, ◌%◌, ◌^◌, ◌≤◌, ◌<◌, ◌≡◌, refl, ap, ◌∙◌, ◌≢◌, ◌⊎◌, inl, inr, ◌||◌, true, false, List,
  arith, ◌==◌, if◌then◌else◌, some, put, Bool-cases, ltb, leb, sub32, sub32-small, add32,
}
use mathlib.Core.Path.{subst}
use cs503_lab.Frames.{Frames, FrameUse, is_null_page, nframes, claim}
use cs503_lab.Frames.Claim.{IsFrames}
use cs503_lab.Paging.{
  heap_start, heap_end, Paging, Entry, entry_to, pd_word, table_of, get_store_offset, find_store,
}
use cs503_lab.Paging.Fault.{create_pagetable, page_fault}
use cs503_lab.Paging.Fault.Serve.{Served, Reachable, load_page-Served}
use cs503_lab.Paging.Fault.Create.{after, after-kept, entry_there, create_pagetable-FirstNull}

-- `wait(pgf_frame_sem)` and `num_fault ++`
abbrev pub entered : Paging → Paging
entered s = record s { pgf_frame_sem = s.pgf_frame_sem - 1; num_fault = add32 s.num_fault 1 }

-- The fault is counted, and the semaphores are as before.
pub record Counted (s s' : Paging) : Type 0 where
  pub num_fault : s'.num_fault ≡ add32 s.num_fault 1
  pub get_frame_sem : s'.get_frame_sem ≡ s.get_frame_sem
  pub pgf_frame_sem : s'.pgf_frame_sem ≡ s.pgf_frame_sem

-- What a page needs to be reached does not depend on the frames and the entries.
Reachable-entered :
    {id page vaddr d : ℕ} {s : Paging} (t : Frames) (en : ℕ → Entry)
    → Reachable id page vaddr d s
    → Reachable id page vaddr d (record (entered s) { frames = t; entries = en })
unfolding get_store_offset find_store
Reachable-entered t en r = record {
  small = r.small;
  above = r.above;
  below = r.below;
  directory = record { pdbr = r.directory.pdbr; frame = r.directory.frame };
  mapped = r.mapped;
  store = r.store;
  alive = r.alive;
  free = r.free;
}

-- A frame that is unused after another was taken was unused before.
was_null :
    (kind : ℕ → FrameUse) (f k : ℕ)
    → is_null_page (put kind f FrameUse.page_tab k) ≡ true
    → is_null_page (kind k) ≡ true
was_null kind f k e = elim (Bool-cases (k == f)) [
  | inl a ↦ absurd (
      ground
        (arith, subst (λ b. is_null_page (if b then FrameUse.page_tab else kind k) ≡ true) a e))
  | inr a ↦ subst (λ b. is_null_page (if b then FrameUse.page_tab else kind k) ≡ true) a e
]

-- Outside the heap of the process nothing but the count of faults changes.
pub page_fault-outside :
    (vaddr : ℕ) (s : Paging)
    → s.pgf_frame_sem ≢ 0
    → (vaddr < heap_start s.kernel.currpid s) ⊎ (heap_end s.kernel.currpid s ≤ vaddr)
    → page_fault vaddr s ≡ some (record s { num_fault = add32 s.num_fault 1 })
unfolding page_fault
page_fault-outside vaddr s sem out =
    let locked : (s.pgf_frame_sem == 0) ≡ false = ground arith in
    let restored : s.pgf_frame_sem - 1 + 1 ≡ s.pgf_frame_sem = omega arith in
    let test : (ltb vaddr (heap_start s.kernel.currpid s)
          || leb (heap_end s.kernel.currpid s) vaddr)
        ≡ true =
      ground arith in
    rw (locked, test, restored) refl

module _ {id page vaddr d : ℕ} {s : Paging} (r : Reachable id page vaddr d s)
    (sem : s.pgf_frame_sem ≢ 0) where
  in_heap :
      (ltb vaddr (heap_start s.kernel.currpid s) || leb (heap_end s.kernel.currpid s) vaddr) ≡ false
  in_heap = ground (arith, r.above, r.below)

  locked : (s.pgf_frame_sem == 0) ≡ false
  locked = ground (arith, sem)

  page_fault-present :
      (l : List ℕ)
      → IsFrames s.frames l
      → (s.entries (pd_word s.kernel.currpid vaddr s)).pres ≡ true
      → (t : ℕ) → table_of (pd_word s.kernel.currpid vaddr s) s ≡ t
      → t < nframes
      → t ≢ d
      → (i : ℕ) → i < nframes
      → is_null_page (s.frames.use_of i) ≡ true
      → (f : ℕ) × (s' : Paging) × (page_fault vaddr s ≡ some s')
        × (is_null_page (s.frames.use_of f) ≡ true)
        × Served f id page vaddr s s' l
        × Counted s s'
  unfolding page_fault
  page_fault-present l v there t table lt ne i il unused =
      let w =
        load_page-Served (Reachable-entered s.frames s.entries r) l v there t table lt ne i il
          unused in
      (
        w.0,
        record (w.1) { pgf_frame_sem = w.1.pgf_frame_sem + 1 },
        rw (locked, in_heap, there, w.3) refl,
        w.2.unused,
        record {
          queue = w.4.queue;
          present = w.4.present;
          bytes = w.4.bytes;
          owner = w.4.owner;
          vpage_num = w.4.vpage_num;
        },
        record { num_fault = w.5; get_frame_sem = w.6; pgf_frame_sem = omega (arith, w.7, sem) },
      )

  -- The fault in a page with no page table, while frames `i` and `j` are unused
  page_fault-absent :
      (l : List ℕ)
      → IsFrames s.frames l
      → (s.entries (pd_word s.kernel.currpid vaddr s)).pres ≡ false
      → is_null_page (s.frames.use_of d) ≡ false
      → (i j : ℕ) → i < nframes
      → j < nframes
      → i ≢ j
      → is_null_page (s.frames.use_of i) ≡ true
      → is_null_page (s.frames.use_of j) ≡ true
      → (f : ℕ) × (s' : Paging) × (page_fault vaddr s ≡ some s')
        × (is_null_page (s.frames.use_of f) ≡ true)
        × Served f id page vaddr s s' l
        × Counted s s'
  unfolding page_fault claim
  page_fault-absent l v there held i j il jl ne ei ej =
      let pid = s.kernel.currpid in
      let pd = pd_word pid vaddr s in
      let c = create_pagetable-FirstNull (entered s) {l = l} pd v r.free i il ei in
      let t = claim c.0 pid 0 FrameUse.page_tab s.frames in
      let fl : c.0 < nframes = omega (arith, c.1.within) in
      let apart : c.0 ≢ d = λ e.
        absurd (
          ground
            (arith, subst (λ u. is_null_page (s.frames.use_of u) ≡ true) e c.1.unused, held)) in
      let en = (after pid c.0 vaddr t (entered s)).entries in
      let q : Paging = record (entered s) { frames = t; entries = en } in
      let made : create_pagetable pd (entered s) ≡ some q =
        c.2 ∙ ap some (after-kept pid c.0 vaddr t (entered s)) in
      let entry : en pd ≡ entry_to (c.0 + 1024) =
        entry_there pid c.0 vaddr t (entered s)
          (record { pdbr = r.directory.pdbr; frame = r.directory.frame }) r.small fl apart in
      let table : sub32 ((c.0 + 1024) % 2 ^ 20) 1024 ≡ c.0 =
        let e : (c.0 + 1024) % 2 ^ 20 ≡ c.0 + 1024 = omega arith in
        rw e (sub32-small (c.0 + 1024) 1024 (omega arith) (omega arith) ∙ omega arith) in
      let free = left_over c.0 i j il jl ne ei ej in
      let w =
        load_page-Served (Reachable-entered t en r) l c.3 (ap (λ e. e.pres) entry) c.0
          (ap (λ e. sub32 e.base 1024) entry ∙ table) fl apart free.0 free.1 free.2 in
      (
        w.0,
        record (w.1) { pgf_frame_sem = w.1.pgf_frame_sem + 1 },
        rw (locked, in_heap, there, made, w.3) refl,
        was_null s.frames.use_of c.0 w.0 w.2.unused,
        record {
          queue = w.4.queue;
          present = w.4.present;
          bytes = w.4.bytes;
          owner = w.4.owner;
          vpage_num = w.4.vpage_num;
        },
        record { num_fault = w.5; get_frame_sem = w.6; pgf_frame_sem = omega (arith, w.7, sem) },
      )
    where
      -- One of two unused frames is left.
      left_over :
          (f i j : ℕ)
          → i < nframes
          → j < nframes
          → i ≢ j
          → is_null_page (s.frames.use_of i) ≡ true
          → is_null_page (s.frames.use_of j) ≡ true
          → (k : ℕ) × (k < nframes)
            × (is_null_page (put s.frames.use_of f FrameUse.page_tab k) ≡ true)
      left_over f i j il jl ne ei ej = elim (Bool-cases (i == f)) [
        | inl e ↦ let other : (j == f) ≡ false = ground (arith) in (j, jl, rw other ej)
        | inr e ↦ (i, il, rw e ei)
      ]

  -- A fault in a page of the process's heap, while two frames are unused: the handler returns, with a
  -- new page table if the directory had none. A frame that was unused has the page's bytes from the
  -- store and is the newest of the queue, the address leads to it, the fault is counted, and the
  -- semaphores are as before.
  pub page_fault-Served :
      (l : List ℕ)
      → IsFrames s.frames l
      → is_null_page (s.frames.use_of d) ≡ false
      → ((s.entries (pd_word s.kernel.currpid vaddr s)).pres ≡ true
          → (table_of (pd_word s.kernel.currpid vaddr s) s < nframes)
            × (table_of (pd_word s.kernel.currpid vaddr s) s ≢ d))
      → (i j : ℕ) → i < nframes
      → j < nframes
      → i ≢ j
      → is_null_page (s.frames.use_of i) ≡ true
      → is_null_page (s.frames.use_of j) ≡ true
      → (f : ℕ) × (s' : Paging) × (page_fault vaddr s ≡ some s')
        × (is_null_page (s.frames.use_of f) ≡ true)
        × Served f id page vaddr s s' l
        × Counted s s'
  page_fault-Served l v held table i j il jl ne ei ej =
      elim (Bool-cases (s.entries (pd_word s.kernel.currpid vaddr s)).pres) [
        | inl p ↦ page_fault-present l v p _ refl (table p).0 (table p).1 i il ei
        | inr p ↦ page_fault-absent l v p held i j il jl ne ei ej
      ]
