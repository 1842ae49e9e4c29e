-- ===== src/Vheap.antt =====
-- The virtual heap of a process: system/vgetmem.c and vfreemem.c. Its free list is of nodes in real
-- memory (`struct vmemblk`), the first two in the process table, that hold virtual addresses.
use cs503_lab.Base.{
  ℕ, zero, suc, ◌^◌, ◌||◌, ◌&&◌, Bool, not, ◌==◌, if◌then◌else◌, ltb, leb, add32, sub32, put,
}
use cs503_lab.Config.{ok, syserr}
use cs503_lab.Memory.{Mem, roundmb, getmem, freemem}

pub record Vheap : Type 0 where
  -- the addresses of `vmemlist`, `vminheap` and `vmaxheap` of each process
  pub vmemlist : ℕ → ℕ
  pub vminheap : ℕ → ℕ
  pub vmaxheap : ℕ → ℕ
  -- `vnext`, `vaddr` and `vmlength` at each address
  pub vnext : ℕ → ℕ
  pub vaddr : ℕ → ℕ
  pub vmlength : ℕ → ℕ

abbrev pub set_vnext : ℕ → ℕ → Vheap → Vheap
set_vnext a v h = record h { vnext = put h.vnext a v }

abbrev pub set_vaddr : ℕ → ℕ → Vheap → Vheap
set_vaddr a v h = record h { vaddr = put h.vaddr a v }

abbrev pub set_vmlength : ℕ → ℕ → Vheap → Vheap
set_vmlength a v h = record h { vmlength = put h.vmlength a v }

-- More nodes than the memory has room for
abbrev pub walk_fuel : ℕ
walk_fuel = 2 ^ 32

-- `vgetmem`'s loop, up to the block that it returns or splits: `curr` is NULL if no block fits.
pub find_vfit : Vheap → ℕ → ℕ → ℕ → ℕ → ℕ × ℕ
find_vfit h n zero prev curr = (prev, 0)
find_vfit h n (suc fuel) prev curr =
    let further = find_vfit h n fuel curr (h.vnext curr) in
    if curr == 0 || leb n (h.vmlength curr) then (prev, curr) else further

-- An exact match is unlinked; a bigger block loses its lower part. `list` is `vmemlist`.
pub take_vfit : ℕ → ℕ → ℕ × ℕ → Vheap → ℕ × Vheap
take_vfit list n (prev, curr) h =
    if h.vmlength curr == n
    then (let h1 = set_vnext prev (h.vnext curr) h in
        let h2 = set_vmlength list (sub32 (h1.vmlength list) n) h1 in (h2.vaddr curr, h2))
    else let output = h.vaddr curr in
      let h1 = set_vaddr curr (add32 (h.vaddr curr) n) h in
      let h2 = set_vmlength curr (sub32 (h1.vmlength curr) n) h1 in
      (output, set_vmlength list (sub32 (h2.vmlength list) n) h2)

-- `vgetmem`, for the current process `pid`
pub vgetmem : ℕ → ℕ → Vheap → ℕ × Vheap
vgetmem pid nbytes h =
    let list = h.vmemlist pid in
    if nbytes == 0
    then (syserr, h)
    else let n = roundmb nbytes in
      let at = find_vfit h n walk_fuel list (h.vnext list) in
      if at.1 == 0 then (syserr, h) else take_vfit list n at h

-- `vfreemem`'s walk: the last node below `block`, or `vmemlist`, and the one behind it
pub seek_vblock : Vheap → ℕ → ℕ → ℕ → ℕ → ℕ × ℕ
seek_vblock h block zero prev next = (prev, next)
seek_vblock h block (suc fuel) prev next =
    let further = seek_vblock h block fuel next (h.vnext next) in
    if not (next == 0) && ltb (h.vaddr next) block then further else (prev, next)

-- The end of the block before, or NULL if there is none
abbrev pub vtop_of : ℕ → ℕ → Vheap → ℕ
vtop_of list prev h = if prev == list then 0 else add32 (h.vaddr prev) (h.vmlength prev)

abbrev pub voverlaps : ℕ → ℕ → ℕ → ℕ × ℕ → Vheap → Bool
voverlaps list block n (prev, next) h =
    (not (prev == list) && ltb block (vtop_of list prev h))
    || (not (next == 0) && ltb (h.vaddr next) (add32 block n))

-- The block is joined to the one before, whose node is kept, or `node` becomes its node.
pub join_vprev : ℕ → ℕ → ℕ → ℕ → ℕ × ℕ → Vheap → Mem → ℕ × Vheap × Mem
join_vprev node block n top (prev, next) h m =
    if top == block
    then (prev, set_vmlength prev (add32 (h.vmlength prev) n) h, (freemem node 12 m).1)
    else (node, set_vnext prev node (set_vmlength node n (set_vnext node next h)), m)

-- The block behind is joined; with no such node the source reads the words at NULL.
pub join_vnext : ℕ → ℕ → Vheap → Vheap
join_vnext next node h =
    if add32 (h.vaddr node) (h.vmlength node) == h.vaddr next
    then (let h1 = set_vmlength node (add32 (h.vmlength node) (h.vmlength next)) h in
        set_vnext node (h1.vnext next) h1)
    else h

-- `vfreemem`, for the current process `pid`; a node has three words.
pub vfreemem : ℕ → ℕ → ℕ → Vheap → Mem → ℕ × Vheap × Mem
vfreemem pid block nbytes h m =
    let list = h.vmemlist pid in
    if nbytes == 0 || ltb block (h.vaddr list) || leb (h.vaddr (h.vmaxheap pid)) block
    then (syserr, h, m)
    else let n = roundmb nbytes in
      let (node, m1) = getmem 12 m in
      let h1 = set_vaddr node block h in
      let at = seek_vblock h1 block walk_fuel list (h1.vnext list) in
      if voverlaps list block n at h1
      then (syserr, h1, m1)
      else let h2 = set_vmlength list (add32 (h1.vmlength list) n) h1 in
        let (kept, h3, m2) = join_vprev node block n (vtop_of list at.0 h1) at h2 m1 in
        (ok, join_vnext at.1 kept h3, m2)
