-- ===== src/Memory/Wrapped.antt =====
-- getmem.c on a size that wraps when it is rounded up.
use cs503_lab.Base.{
  ℕ, zero, suc, ◌+◌, ◌-◌, ◌^◌, ◌<◌, ◌≡◌, refl, ◌∙◌, true, false, List, ◌∷◌, arith, ◌==◌, add32,
  sub32, put, put_self,
}
use cs503_lab.Memory.{Mem, set_mnext, set_mlength, roundmb, find_fit, take_fit, charge, getmem}
use cs503_lab.Memory.Blocks.{covers, IsHeap, Seg-frame, Spaced-total}

-- The memory in which the first block, at `a`, was cut at its own address.
abbrev recut : ℕ → ℕ → Mem → Mem
recut a s m =
    set_mlength m.memlist (sub32 (m.size m.memlist) 0)
      (set_mlength a s (set_mnext a (m.next a) (set_mnext m.memlist a m)))

add32-zero : (a : ℕ) → a < 2 ^ 32 → add32 a 0 ≡ a
unfolding add32
add32-zero a lt = omega arith

sub32-zero : (a : ℕ) → a < 2 ^ 32 → sub32 a 0 ≡ a
unfolding sub32
sub32-zero a lt = omega arith

first_found :
    (m : Mem) (a s : ℕ) (r : List (ℕ × ℕ))
    → IsHeap m ((a, s) ∷ r)
    → find_fit m 0 m.maxheap m.memlist (m.next m.memlist) ≡ (m.memlist, a)
unfolding find_fit
first_found m a s r h = go m.maxheap (omega (arith, h.bottom, h.head))
  where
    go : (fuel : ℕ) → 0 < fuel → find_fit m 0 fuel m.memlist (m.next m.memlist) ≡ (m.memlist, a)
    go zero lt = absurd (omega arith)
    go (suc fuel) lt = rw h.seg.0 (ground arith)

recut-take_fit :
    (m : Mem) (a s : ℕ) (r : List (ℕ × ℕ))
    → IsHeap m ((a, s) ∷ r)
    → charge 0 (take_fit 0 (m.memlist, a) m) ≡ recut a s m
unfolding take_fit charge
recut-take_fit m a s r h =
    let test : (m.size a == 0) ≡ false = ground (arith, h.seg.1, h.spaced.1) in
    let size : m.size a ≡ s = h.seg.1 in
    let at : add32 a 0 ≡ a = add32-zero a (omega (arith, h.spaced.4, h.top)) in
    let len : sub32 s 0 ≡ s = sub32-zero s (omega (arith, h.spaced.4, h.top)) in
    let keep : (a == m.memlist) ≡ false = ground (arith, h.head, h.spaced.0) in
    let keep' : (m.memlist == a) ≡ false = ground (arith, h.head, h.spaced.0) in
    rw (test, at, size, len, keep, keep') refl

recut-IsHeap :
    (m : Mem) (a s : ℕ) (r : List (ℕ × ℕ))
    → IsHeap m ((a, s) ∷ r)
    → IsHeap (recut a s m) ((a, s) ∷ r)
recut-IsHeap m a s r h = record {
  seg = (
    ground (arith, h.head, h.spaced.0),
    ground (arith, h.head, h.spaced.0),
    Seg-frame m (recut a s m) (a + s + 1) m.maxheap a a r h.spaced.5
        (ground (arith, h.head, h.spaced.0)) (λ x le. ground (arith, h.head, h.spaced.0)) h.seg.2,
  );
  spaced = h.spaced;
  free =
      put_self (put m.size a s) m.memlist _
      ∙ sub32-zero (m.size m.memlist) (
          omega (
            arith,
            h.free,
            Spaced-total m.minheap m.maxheap ((a, s) ∷ r) (omega (arith, h.bottom)) h.spaced,
            h.top,
            h.head,
          ))
      ∙ h.free;
  head = h.head;
  top = h.top;
  bottom = h.bottom;
}

roundmb-wraps : (nbytes : ℕ) → 2 ^ 32 - 8 < nbytes → nbytes < 2 ^ 32 → roundmb nbytes ≡ 0
roundmb-wraps nbytes big small = omega arith

-- A request of more than 2 ^ 32 - 8 bytes, from a heap that has a free block, does not fail: the
-- address of the first free block is returned, and the block stays free.
pub getmem_wrapped :
    {m : Mem} (a s : ℕ) (r : List (ℕ × ℕ)) (h : IsHeap m ((a, s) ∷ r)) (nbytes : ℕ)
    → 2 ^ 32 - 8 < nbytes
    → nbytes < 2 ^ 32
    → ((getmem nbytes m).0 ≡ a)
      × IsHeap (getmem nbytes m).1 ((a, s) ∷ r)
      × (covers ((a, s) ∷ r) a ≡ true)
unfolding getmem
getmem_wrapped {m} a s r h nbytes big small =
    let some : (nbytes == 0) ≡ false = ground arith in
    let found : (a == 0) ≡ false = ground (arith, h.spaced.0, h.head) in
    rw
      (some, roundmb-wraps nbytes big small, first_found m a s r h, found, recut-take_fit m a s r h)
      (refl, recut-IsHeap m a s r h, ground (arith, h.spaced.1))
