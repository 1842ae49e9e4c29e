-- ===== src/Memory.antt =====
-- Free memory: system/getmem.c, freemem.c and getstk.c, and `meminit` of system/meminit.c. A
-- `struct memblk` lies at each free block's address, and `memlist` is the one at the head.
pub mod Blocks
pub mod Take
pub mod Getmem
pub mod Wrapped
pub mod Join
pub mod Place
pub mod Freemem
pub mod Freed
pub mod Getstk
pub mod Meminit
use cs503_lab.Base.{
  ℕ, zero, suc, ◌+◌, ◌*◌, ◌-◌, ◌^◌, ◌%◌, ◌/◌, ◌||◌, ◌&&◌, Bool, true, false, not, ◌==◌,
  if◌then◌else◌, ltb, leb, add32, sub32, put,
}
use cs503_lab.Config.{ok, syserr}

pub record Mem : Type 0 where
  -- the address of `memlist`
  pub memlist : ℕ
  pub minheap : ℕ
  pub maxheap : ℕ
  -- `mnext` and `mlength` at each address
  pub next : ℕ → ℕ
  pub size : ℕ → ℕ

abbrev pub set_mnext : ℕ → ℕ → Mem → Mem
set_mnext a v m = record m { next = put m.next a v }

abbrev pub set_mlength : ℕ → ℕ → Mem → Mem
set_mlength a v m = record m { size = put m.size a v }

abbrev pub roundmb : ℕ → ℕ
roundmb n = ((7 + n) % 2 ^ 32) / 8 * 8

-- `getmem`'s loop, up to the block that it returns or splits: `prev` and `curr`, with `curr` NULL
-- if no block fits. The fuel is more than the heap has blocks.
pub find_fit : Mem → ℕ → ℕ → ℕ → ℕ → ℕ × ℕ
find_fit m n zero prev curr = (prev, 0)
find_fit m n (suc fuel) prev curr =
    let further = find_fit m n fuel curr (m.next curr) in
    if curr == 0 || leb n (m.size curr) then (prev, curr) else further

-- An exact match is unlinked; of a bigger block the upper part stays.
pub take_fit : ℕ → ℕ × ℕ → Mem → Mem
take_fit n (prev, curr) m =
    if m.size curr == n
    then set_mnext prev (m.next curr) m
    else let leftover = add32 curr n in
      let m1 = set_mnext prev leftover m in
      let m2 = set_mnext leftover (m1.next curr) m1 in
      set_mlength leftover (sub32 (m2.size curr) n) m2

-- `memlist.mlength -= nbytes`
pub charge : ℕ → Mem → Mem
charge n m = set_mlength m.memlist (sub32 (m.size m.memlist) n) m

unfoldable pub getmem : ℕ → Mem → ℕ × Mem
unfolding find_fit take_fit charge
getmem nbytes m =
    if nbytes == 0
    then (syserr, m)
    else let n = roundmb nbytes in
      let (prev, curr) = find_fit m n m.maxheap m.memlist (m.next m.memlist) in
      if curr == 0 then (syserr, m) else (curr, charge n (take_fit n (prev, curr) m))

-- `meminit`: one free block from the end of the kernel's image on
unfoldable pub meminit : ℕ → Mem → Mem
meminit image_end m =
    let top = 4 * 1024 * 1024 in
    let len = sub32 top image_end in
    let m1 = record m { minheap = image_end; maxheap = top } in
    let m2 = set_mnext m.memlist image_end (set_mlength m.memlist len m1) in
    set_mlength image_end len (set_mnext image_end 0 m2)

-- `freemem`'s walk: the last free block below `block`, or `memlist`, and the one behind it
pub seek_block : (ℕ → ℕ) → ℕ → ℕ → ℕ → ℕ → ℕ × ℕ
seek_block links block zero prev next = (prev, next)
seek_block links block (suc fuel) prev next =
    let further = seek_block links block fuel next (links next) in
    if not (next == 0) && ltb next block then further else (prev, next)

-- The end of the previous block, or NULL if there is none
abbrev pub top_of : ℕ → Mem → ℕ
top_of prev m = if prev == m.memlist then 0 else add32 prev (m.size prev)

abbrev pub overlaps : ℕ → ℕ → ℕ × ℕ → Mem → Bool
overlaps block n (prev, next) m =
    (not (prev == m.memlist) && ltb block (top_of prev m))
    || (not (next == 0) && ltb next (add32 block n))

-- `memlist.mlength += nbytes`
pub credit : ℕ → Mem → Mem
credit n m = set_mlength m.memlist (add32 (m.size m.memlist) n) m

-- The block is joined to the previous one, or becomes a node of its own.
pub join_prev : ℕ → ℕ → ℕ × ℕ → ℕ → Mem → ℕ × Mem
join_prev block n (prev, next) top m =
    if top == block
    then (prev, set_mlength prev (add32 (m.size prev) n) m)
    else (block, set_mnext prev block (set_mlength block n (set_mnext block next m)))

pub join_next : ℕ → ℕ × Mem → Mem
join_next next (block, m) =
    if add32 block (m.size block) == next
    then (let m1 = set_mlength block (add32 (m.size block) (m.size next)) m in
        set_mnext block (m1.next next) m1)
    else m

unfoldable pub freemem : ℕ → ℕ → Mem → ℕ × Mem
unfolding seek_block credit join_prev join_next
freemem block nbytes m =
    if nbytes == 0 || ltb block m.minheap || ltb m.maxheap block
    then (syserr, m)
    else let n = roundmb nbytes in
      let at = seek_block m.next block m.maxheap m.memlist (m.next m.memlist) in
      if overlaps block n at m
      then (syserr, m)
      else (ok, join_next at.1 (join_prev block n at (top_of at.0 m) (credit n m)))

-- `getstk`'s loop: the last block that fits, and the one before it. `fits` is NULL if none does.
pub scan_fits : Mem → ℕ → ℕ → ℕ → ℕ → ℕ × ℕ → ℕ × ℕ
scan_fits m n zero prev curr fits = fits
scan_fits m n (suc fuel) prev curr fits =
    let further =
      scan_fits m n fuel curr (m.next curr) (if leb n (m.size curr) then (prev, curr) else fits) in
    if curr == 0 then fits else further

-- An exact match is unlinked; a bigger block loses its upper part.
pub take_top : ℕ → ℕ × ℕ → Mem → ℕ × Mem
take_top n (prev, fits) m =
    if n == m.size fits
    then (fits, set_mnext prev (m.next fits) m)
    else let m1 = set_mlength fits (sub32 (m.size fits) n) m in (add32 fits (m1.size fits), m1)

pub getstk : ℕ → Mem → ℕ × Mem
unfolding scan_fits take_top
getstk nbytes m =
    if nbytes == 0
    then (syserr, m)
    else let n = roundmb nbytes in
      let fits = scan_fits m n m.maxheap m.memlist (m.next m.memlist) (0, 0) in
      let (a, m') = take_top n fits m in
      if fits.1 == 0 then (syserr, m) else (sub32 (add32 a n) 4, charge n m')
