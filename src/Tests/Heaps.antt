-- ===== src/Tests/Heaps.antt =====
-- The free list on the heap that `meminit` makes, and on one with a single small block.
use cs503_lab.Base.{
  ℕ, true, List, [], ◌∷◌, ◌≡◌, refl, ◌+◌, ◌*◌, ◌-◌, ◌^◌, ◌⊎◌, arith, add32, sub32, ◌==◌,
  if◌then◌else◌,
}
use cs503_lab.Config.{ok, syserr}
use cs503_lab.Memory.{Mem, roundmb, getmem, freemem, getstk, meminit}
use cs503_lab.Memory.Blocks.{covers, inside, IsHeap}
use cs503_lab.Memory.Take.{NoFit}
use cs503_lab.Memory.Getmem.{Got, getmem_lem}
use cs503_lab.Memory.Wrapped.{getmem_wrapped}
use cs503_lab.Memory.Freed.{Freed, freemem_lem}
use cs503_lab.Memory.Getstk.{LastFit, getstk_lem}
use cs503_lab.Memory.Meminit.{meminit_lem}

abbrev unset : Mem
unset = record { memlist = 4096; minheap = 7; maxheap = 7; next = λ x. 7; size = λ x. 7 }

abbrev fresh : Mem
fresh = meminit 0x10_0000 unset

abbrev fresh_blocks : List (ℕ × ℕ)
fresh_blocks = (0x10_0000, 4 * 1024 * 1024 - 0x10_0000) ∷ []

fresh-IsHeap : IsHeap fresh fresh_blocks
fresh-IsHeap = meminit_lem 0x10_0000 unset (omega arith) (omega arith) (omega arith)

getmem_lem_example :
    Got (roundmb 100) (getmem 100 fresh).0 fresh_blocks fresh (getmem 100 fresh).1
    ⊎ (getmem 100 fresh ≡ (syserr, fresh)) × NoFit (roundmb 100) fresh_blocks
getmem_lem_example = getmem_lem fresh-IsHeap 100 (omega arith) (omega arith)

getmem_runs : (getmem 100 fresh).0 ≡ 0x10_0000
unfolding getmem meminit sub32
getmem_runs = refl

getmem_wrapped_example :
    ((getmem (2 ^ 32 - 4) fresh).0 ≡ 0x10_0000)
    × IsHeap (getmem (2 ^ 32 - 4) fresh).1 fresh_blocks
    × (covers fresh_blocks 0x10_0000 ≡ true)
getmem_wrapped_example =
    getmem_wrapped 0x10_0000 (4 * 1024 * 1024 - 0x10_0000) [] fresh-IsHeap (2 ^ 32 - 4)
      (omega arith) (omega arith)

getstk_lem_example :
    ((a : ℕ) × ((getstk 100 fresh).0 ≡ a + roundmb 100 - 4)
      × Got (roundmb 100) a fresh_blocks fresh (getstk 100 fresh).1
      × LastFit (roundmb 100) a fresh_blocks)
    ⊎ ((getstk 100 fresh ≡ (syserr, fresh)) × NoFit (roundmb 100) fresh_blocks)
getstk_lem_example = getstk_lem fresh-IsHeap 100 (omega arith) (omega arith)

-- One free block of 4096 bytes at 2 MB
abbrev sparse : Mem
sparse = record {
  memlist = 4096;
  minheap = 0x10_0000;
  maxheap = 0x40_0000;
  next = λ x. if x == 4096 then 0x20_0000 else 0;
  size = λ x. 4096;
}

abbrev sparse_blocks : List (ℕ × ℕ)
sparse_blocks = (0x20_0000, 4096) ∷ []

sparse-IsHeap : IsHeap sparse sparse_blocks
sparse-IsHeap = record {
  seg = (refl, refl, refl);
  spaced = (omega arith, omega arith, refl, refl, omega arith, tt);
  free = refl;
  head = omega arith;
  top = omega arith;
  bottom = omega arith;
}

freemem_lem_example :
    (((freemem 0x1f_ff90 112 sparse).0 ≡ ok)
      × Freed 0x1f_ff90 (roundmb 112) sparse_blocks sparse (freemem 0x1f_ff90 112 sparse).1)
    ⊎ ((freemem 0x1f_ff90 112 sparse ≡ (syserr, sparse))
        × ((x : ℕ) × (inside 0x1f_ff90 (roundmb 112) x ≡ true) × (covers sparse_blocks x ≡ true)))
freemem_lem_example =
    freemem_lem sparse-IsHeap 0x1f_ff90 112 (omega arith) (omega arith) refl (omega arith)
      (omega arith)

-- The block is joined to the one behind it.
freemem_runs : (freemem 0x1f_ff90 112 sparse).1.size 0x1f_ff90 ≡ 4208
unfolding freemem add32
freemem_runs = refl
