-- ===== src/Paging/Fault/Start.antt =====
-- initialize_paging: the kernel's memory and the devices are mapped to themselves.
use cs503_lab.Base.{
  ℕ, zero, suc, ◌+◌, ◌*◌, ◌-◌, ◌/◌, ◌%◌, ◌^◌, ◌≤◌, ◌<◌, ◌≡◌, refl, sym, ap, ◌∙◌, ◌⊎◌, inl, inr,
  Bool, true, false, not, [], arith, ◌==◌, put, ltb, sub32, sub32-small,
}
use mathlib.Core.Path.{subst}
use cs503_lab.Frames.{init_frames, is_null_page, nframes}
use cs503_lab.Frames.Claim.{IsFrames, init_frames-IsFrames}
use cs503_lab.Backing.{Server}
use cs503_lab.Paging.{
  Paging, entry_to, store_entry, cal_addr, pd_word, pt_word, page_size, reset_bsmap,
}
use cs503_lab.Paging.StoreMap.{IsStoreMap}
use cs503_lab.Paging.Fault.{clear_pres, set_entries, set_kernel_entries, initialize_paging}
use cs503_lab.Paging.Fault.Entries.{
  set_entries-kept, set_entries-in, set_entries-out, clear_pres-kept,
}

-- The numbers of the first words of the null process's page directory, of the kernel's page tables
-- and of the devices' page table
abbrev dir : ℕ
dir = cal_addr 0 / 4

abbrev tables : ℕ
tables = cal_addr 1 / 4

abbrev devices : ℕ
devices = cal_addr 5 / 4

-- The first word of the page table that an entry for frame `f` names
table_word :
    (f : ℕ) → f < 2 ^ 19 → cal_addr (sub32 ((f + 1024) % 2 ^ 20) 1024) / 4 ≡ (f + 1024) * 1024
table_word f lt =
    let base : (f + 1024) % 2 ^ 20 ≡ f + 1024 = omega arith in
    let frame : sub32 (f + 1024) 1024 ≡ f =
      sub32-small (f + 1024) 1024 (omega arith) (omega arith) ∙ omega arith in
    rw (base, frame) (omega arith)

kernel_entry :
    (s : Paging) (p : ℕ)
    → p < 4
    → (set_kernel_entries dir s).entries (dir + p) ≡ entry_to (p + 1 + 1024)
unfolding set_kernel_entries
kernel_entry s zero lt = refl
kernel_entry s (suc zero) lt = refl
kernel_entry s (suc (suc zero)) lt = refl
kernel_entry s (suc (suc (suc zero))) lt = refl
kernel_entry s (suc (suc (suc (suc p)))) lt = absurd (omega arith)

-- The page tables lead from `vaddr` to the same address.
pub record Direct (vaddr : ℕ) (t : Paging) : Type 0 where
  pub in_directory : (t.entries (pd_word 0 vaddr t)).pres ≡ true
  pub in_table : (t.entries (pt_word 0 vaddr t)).pres ≡ true
  pub same : (t.entries (pt_word 0 vaddr t)).base ≡ vaddr / page_size

abbrev stores : Paging → Server × (ℕ → Bool) × (ℕ → ℕ)
stores p = (p.server, p.if_map, p.num_pages)

-- The state before the page tables are filled, and after
module _ (s : Paging) where
  abbrev cleared : Paging
  cleared = set_kernel_entries dir (
      clear_pres 1024 dir
        (record (reset_bsmap (record s {
          num_fault = 0;
          get_frame_sem = 1;
          pgf_frame_sem = 1;
          frames = init_frames s.frames;
        })) {
          kernel = record (s.kernel) {
            procs = record (s.kernel.procs) { pdbr = put s.kernel.procs.pdbr 0 (cal_addr 0) };
          };
        }))

  abbrev filled : Paging
  filled =
      set_entries 1024 devices (576 * 1024)
        (store_entry (dir + 576) (5 + 1024) (set_entries 4096 tables 0 cleared))

  initialize_paging-filled :
      initialize_paging s ≡ record filled { kernel = record (filled.kernel) { cr3 = cal_addr 0 } }
  unfolding initialize_paging
  initialize_paging-filled = refl

  dir_entry : (p : ℕ) → p < 4 → filled.entries (dir + p) ≡ entry_to (p + 1 + 1024)
  dir_entry p lt =
      let other : (dir + p == dir + 576) ≡ false = ground arith in
      set_entries-out 1024 devices (576 * 1024) (dir + p) _ (ground arith)
      ∙ rw other
          (set_entries-out 4096 tables 0 (dir + p) cleared (ground arith) ∙ kernel_entry _ p lt)

  device_dir_entry : filled.entries (dir + 576) ≡ entry_to (5 + 1024)
  device_dir_entry = set_entries-out 1024 devices (576 * 1024) (dir + 576) _ (ground arith)

  table_entry : (k : ℕ) → k < 4096 → filled.entries (tables + k) ≡ entry_to (0 + k)
  table_entry k lt =
      let other : (tables + k == dir + 576) ≡ false = ground arith in
      set_entries-out 1024 devices (576 * 1024) (tables + k) _ (ground arith)
      ∙ rw other (set_entries-in 4096 tables 0 k cleared lt)

  device_entry : (k : ℕ) → k < 1024 → filled.entries (devices + k) ≡ entry_to (576 * 1024 + k)
  device_entry k lt = set_entries-in 1024 devices (576 * 1024) k _ lt

  -- What the loops leave alone
  filled-kernel : filled.kernel.procs.pdbr 0 ≡ cal_addr 0
  unfolding set_kernel_entries
  filled-kernel =
      ap (λ p. p.kernel.procs.pdbr 0) (set_entries-kept 1024 devices (576 * 1024) _)
      ∙ ap (λ p. p.kernel.procs.pdbr 0) (set_entries-kept 4096 tables 0 cleared)
      ∙ ap (λ p. p.kernel.procs.pdbr 0) (clear_pres-kept 1024 dir _)

  filled-frames : filled.frames ≡ init_frames s.frames
  unfolding set_kernel_entries reset_bsmap
  filled-frames =
      ap (λ p. p.frames) (set_entries-kept 1024 devices (576 * 1024) _)
      ∙ ap (λ p. p.frames) (set_entries-kept 4096 tables 0 cleared)
      ∙ ap (λ p. p.frames) (clear_pres-kept 1024 dir _)

  walk :
      (t : Paging) (vaddr d w : ℕ)
      → t.entries ≡ filled.entries
      → t.kernel.procs.pdbr 0 ≡ cal_addr 0
      → filled.entries (dir + vaddr / 2 ^ 22) ≡ entry_to d
      → cal_addr (sub32 (d % 2 ^ 20) 1024) / 4 + vaddr / page_size % 1024 ≡ w
      → filled.entries w ≡ entry_to (vaddr / page_size)
      → vaddr < 2 ^ 32
      → Direct vaddr t
  walk t vaddr d w en pd in_dir at in_tab small =
      let small_base : vaddr / page_size % 2 ^ 20 ≡ vaddr / page_size = omega arith in
      record {
        in_directory = rw (en, pd, in_dir) refl;
        in_table = rw (en, pd, in_dir, at, in_tab) refl;
        same = rw (en, pd, in_dir, at, in_tab, small_base) refl;
      }

  -- The server and the map of its stores
  filled-stores : stores filled ≡ stores (reset_bsmap s)
  unfolding set_kernel_entries reset_bsmap
  filled-stores =
      ap stores (set_entries-kept 1024 devices (576 * 1024) _)
      ∙ ap stores (set_entries-kept 4096 tables 0 cleared)
      ∙ ap stores (clear_pres-kept 1024 dir _)

  filled-IsStoreMap : ((j : ℕ) → s.server.is_allocated j ≡ false) → IsStoreMap (initialize_paging s)
  unfolding initialize_paging reset_bsmap
  filled-IsStoreMap unallocated =
      let server : filled.server ≡ s.server = ap (λ p. p.0) filled-stores in
      record {
        in_use = λ j jl.
            let small : ltb j 8 ≡ true = ground (arith, jl) in
            ap (λ p. p.1 j) filled-stores
            ∙ rw small (sym (ap (λ r. r.is_allocated j) server ∙ unallocated j));
        unused = λ j jl e.
            let small : ltb j 8 ≡ true = ground (arith, jl) in
            ap (λ p. p.2 j) filled-stores ∙ rw small refl;
      }

  small-Direct : (vaddr : ℕ) → vaddr < 2 ^ 24 → Direct vaddr (initialize_paging s)
  unfolding initialize_paging
  small-Direct vaddr lt =
      let p = vaddr / 2 ^ 22 in
      let plain : 0 + vaddr / page_size ≡ vaddr / page_size = omega arith in
      walk (initialize_paging s) vaddr (p + 1 + 1024) (tables + vaddr / page_size) refl
        filled-kernel (dir_entry p (omega arith))
        (ap (λ i. i + vaddr / page_size % 1024) (table_word (p + 1) (omega arith)) ∙ omega arith)
        (table_entry (vaddr / page_size) (omega arith) ∙ ap entry_to plain) (omega arith)

  device-Direct :
      (vaddr : ℕ) → 576 * 2 ^ 22 ≤ vaddr → vaddr < 577 * 2 ^ 22 → Direct vaddr (initialize_paging s)
  unfolding initialize_paging
  device-Direct vaddr le lt =
      let k = vaddr / page_size - 576 * 1024 in
      let page : 576 * 1024 + k ≡ vaddr / page_size = omega arith in
      let at : dir + vaddr / 2 ^ 22 ≡ dir + 576 = omega arith in
      walk (initialize_paging s) vaddr (5 + 1024) (devices + k) refl filled-kernel
        (rw at device_dir_entry)
        (ap (λ i. i + vaddr / page_size % 1024) (table_word 5 (omega arith)) ∙ omega arith)
        (device_entry k (omega arith) ∙ ap entry_to page) (omega arith)

  -- After `initialize_paging` no frame holds a page and the queue is empty; the six tables' frames are
  -- in use and all others are not; the processor has the null process's page directory, which leads
  -- each address below 16 MB, and each of the devices, to itself; and with no store allocated the
  -- map of the stores is well formed.
  pub initialize_paging-Direct :
      IsFrames (initialize_paging s).frames []
      × ((i : ℕ)
          → i < nframes
          → is_null_page ((initialize_paging s).frames.use_of i) ≡ not (ltb i 6))
      × ((initialize_paging s).kernel.cr3 ≡ (initialize_paging s).kernel.procs.pdbr 0)
      × ((vaddr : ℕ)
          → (vaddr < 2 ^ 24) ⊎ ((576 * 2 ^ 22 ≤ vaddr) × (vaddr < 577 * 2 ^ 22))
          → Direct vaddr (initialize_paging s))
      × (((j : ℕ) → s.server.is_allocated j ≡ false) → IsStoreMap (initialize_paging s))
  unfolding initialize_paging
  initialize_paging-Direct = (
    subst (λ t. IsFrames t []) (sym filled-frames) (init_frames-IsFrames s.frames).0,
    (λ i lt.
        subst (λ t. is_null_page (t.use_of i) ≡ not (ltb i 6)) (sym filled-frames)
          ((init_frames-IsFrames s.frames).1 i lt)),
    sym filled-kernel,
    (λ vaddr at. elim at [ inl lt ↦ small-Direct vaddr lt | inr h ↦ device-Direct vaddr h.0 h.1 ]),
    filled-IsStoreMap,
  )
