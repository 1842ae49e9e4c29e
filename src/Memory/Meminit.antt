-- ===== src/Memory/Meminit.antt =====
-- `meminit` of system/meminit.c.
use cs503_lab.Base.{ℕ, ◌*◌, ◌-◌, ◌%◌, ◌<◌, ◌≡◌, [], ◌∷◌, arith, sub32, sub32-small}
use cs503_lab.Memory.{Mem, meminit}
use cs503_lab.Memory.Blocks.{IsHeap}

-- From memory with any contents, `meminit` makes a well formed heap with one free block, from the
-- end of the kernel's image, if that is a multiple of 8, to 4 MB.
pub meminit_lem :
    (image_end : ℕ) (m : Mem)
    → image_end % 8 ≡ 0
    → m.memlist < image_end
    → image_end < 4 * 1024 * 1024
    → IsHeap (meminit image_end m) ((image_end, 4 * 1024 * 1024 - image_end) ∷ [])
unfolding meminit
meminit_lem image_end m whole above below =
    let len : sub32 (4 * 1024 * 1024) image_end ≡ 4 * 1024 * 1024 - image_end =
      sub32-small (4 * 1024 * 1024) image_end (omega arith) (omega arith) in
    rw len (record {
      seg = (ground arith, ground arith, ground arith);
      spaced = (omega arith, omega arith, whole, omega arith, omega arith, tt);
      free = ground arith;
      head = above;
      top = omega arith;
      bottom = omega arith;
    })
