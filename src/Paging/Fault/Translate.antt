-- ===== src/Paging/Fault/Translate.antt =====
-- What the page directories and page tables mean to the processor.
use cs503_lab.Base.{
  ℕ, ◌+◌, ◌*◌, ◌/◌, ◌%◌, ◌^◌, ◌<◌, ◌≡◌, refl, ap, ◌∙◌, ◌≢◌, ◌&&◌, arith, if◌then◌else◌, Option,
  none, some,
}
use cs503_lab.Frames.{nframes}
use cs503_lab.Paging.{Paging, page_size, cal_addr, pd_word, pt_word, table_of}

-- Where the processor finds the byte at `vaddr` of process `pid`, if its page is present
abbrev pub translate : ℕ → ℕ → Paging → Option ℕ
translate pid vaddr s =
    if (s.entries (pd_word pid vaddr s)).pres && (s.entries (pt_word pid vaddr s)).pres
    then some ((s.entries (pt_word pid vaddr s)).base * page_size + vaddr % page_size)
    else none

-- A process's page directory is a frame, and a page table is another one.
pub record HasDirectory (pid d : ℕ) (s : Paging) : Type 0 where
  pub pdbr : s.kernel.procs.pdbr pid ≡ cal_addr d
  pub frame : d < nframes

frame_word : (f : ℕ) → f < nframes → cal_addr f / 4 ≡ (f + 1024) * 1024
frame_word f lt = omega arith

module _ {pid d : ℕ} {s : Paging} (h : HasDirectory pid d s) (vaddr : ℕ)
    (small : vaddr < 2 ^ 32) where
  pub pd_word-at : pd_word pid vaddr s ≡ (d + 1024) * 1024 + vaddr / 2 ^ 22
  pd_word-at =
      let e : cal_addr d % 2 ^ 32 / 4 ≡ (d + 1024) * 1024 = omega (arith, h.frame) in
      rw (h.pdbr, e) refl

  pub pt_word-at :
      (t : ℕ)
      → table_of (pd_word pid vaddr s) s ≡ t
      → t < nframes
      → pt_word pid vaddr s ≡ (t + 1024) * 1024 + vaddr / page_size % 1024
  pt_word-at t e lt =
      ap (λ u. cal_addr u / 4 + vaddr / page_size % 1024) e
      ∙ ap (λ u. u + vaddr / page_size % 1024) (frame_word t lt)

  pub words_apart :
      (t : ℕ)
      → table_of (pd_word pid vaddr s) s ≡ t
      → t < nframes
      → t ≢ d
      → pd_word pid vaddr s ≢ pt_word pid vaddr s
  words_apart t e lt ne same =
      absurd (omega (arith, pd_word-at, pt_word-at t e lt, same, ne, h.frame))
