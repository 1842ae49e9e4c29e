-- ===== src/Backing.antt =====
-- The backing stores of paging/*.c: pages kept on a remote disk, in up to eight stores. A call
-- gives `none` if it never returns: it blocks on a semaphore that nobody holds up, or panics.
pub mod Pages
pub mod Stores
use cs503_lab.Base.{
  ℕ, zero, suc, ◌+◌, ◌*◌, ◌-◌, ◌^◌, ◌%◌, ◌||◌, ◌&&◌, Bool, true, false, not, ◌==◌, if◌then◌else◌,
  Option, none, some, slt, ltb, leb, add32, sub32, put,
}
use cs503_lab.Config.{ok, syserr}

-- MAX_ID, MIN_ID, MAX_BS_ENTRIES, RD_PAGES_PER_BS, MAX_PAGES_PER_BS and RD_BLKSIZ
abbrev pub max_id : ℕ
max_id = 7

abbrev pub min_id : ℕ
min_id = 0

abbrev pub max_bs_entries : ℕ
max_bs_entries = max_id - min_id + 1

abbrev pub rd_pages_per_bs : ℕ
rd_pages_per_bs = 205

abbrev pub max_pages_per_bs : ℕ
max_pages_per_bs = 200

abbrev pub rd_blksiz : ℕ
rd_blksiz = 512

pub record Server : Type 0 where
  -- PAGE_SERVER_STATUS, and `bstab` field by field
  pub active : Bool
  pub is_open : ℕ → Bool
  pub is_allocated : ℕ → Bool
  pub use_count : ℕ → ℕ
  pub npages : ℕ → ℕ
  -- how often `bs_sem` and `bs_init_sem` can be waited on
  pub bs_sem : ℕ
  pub bs_init_sem : ℕ
  -- the remote disk: the bytes of each block, and whether an access succeeds
  pub disk : ℕ → ℕ → ℕ
  pub works : ℕ → Bool
  -- whether `open(WRDISK)` and `semcreate(1)` succeed
  pub can_start : Bool

abbrev pub and_then : {A B : Type 0} → Option A → (A → Option B) → Option B
and_then none f = none
and_then (some x) f = f x

-- `wait(bs_sem)` and `signal(bs_sem)`
abbrev pub down : Server → Option Server
down s = if s.bs_sem == 0 then none else some (record s { bs_sem = s.bs_sem - 1 })

abbrev pub up : Server → Server
up s = record s { bs_sem = s.bs_sem + 1 }

abbrev pub is_bad_store : ℕ → Bool
is_bad_store id = slt max_id id || slt id min_id

-- `for(i=0; i < MAX_BS_ENTRIES; i++)` of psinit
abbrev pub clear_stores : Server → Server
clear_stores s = record s {
  is_open = λ i. if ltb i max_bs_entries then false else s.is_open i;
  is_allocated = λ i. if ltb i max_bs_entries then false else s.is_allocated i;
  use_count = λ i. if ltb i max_bs_entries then 0 else s.use_count i;
  npages = λ i. if ltb i max_bs_entries then 0 else s.npages i;
}

pub psinit : Server → Option (ℕ × Server)
psinit s =
    if s.bs_init_sem == 0
    then none
    else let s1 = record s { bs_init_sem = s.bs_init_sem - 1 } in
      if s1.active
      then some (ok, s1)
      else if not s1.can_start
      then none
      else some (
        ok,
        record (clear_stores s1) { bs_sem = 1; active = true; bs_init_sem = s1.bs_init_sem + 1 },
      )

-- `if(PAGE_SERVER_STATUS == PAGE_SERVER_INACTIVE) psinit()`
abbrev pub started : Server → Option Server
started s = if s.active then some s else and_then (psinit s) (λ r. some r.1)

pub get_bs : ℕ → ℕ → Server → Option (ℕ × Server)
unfolding psinit
get_bs id pages s = and_then (started s) (λ s1.
    if is_bad_store id || pages == 0 || ltb max_pages_per_bs pages
    then some (syserr, s1)
    else and_then (down s1) (λ s2.
      if s2.is_open id
      then some (syserr, up s2)
      else some (
        pages,
        up (record s2 { is_open = put s2.is_open id true; npages = put s2.npages id pages }),
      )))

pub release_bs : ℕ → Server → Option (ℕ × Server)
release_bs id s =
    if not s.active
    then some (syserr, s)
    else and_then (down s) (λ s1.
      if is_bad_store id || not (s1.is_open id)
      then some (syserr, up s1)
      else some
          (ok, up (record s1 { is_open = put s1.is_open id false; npages = put s1.npages id 0 })))

-- The loop of `allocate_bs`, over the last `n` stores from `i` on
pub try_stores : ℕ → ℕ → ℕ → Server → Option (ℕ × Server)
try_stores zero i pages s = some (syserr, s)
try_stores (suc n) i pages s =
    let skipped = try_stores n (i + 1) pages s in
    let tried = and_then (get_bs i pages s) (λ r.
      let further = try_stores n (i + 1) pages r.1 in
      if r.0 == syserr
      then further
      else some (
        i,
        record (r.1) {
          is_allocated = put r.1.is_allocated i true;
          use_count = put r.1.use_count i 0;
        },
      )) in
    if s.is_allocated i then skipped else tried

pub allocate_bs : ℕ → Server → Option (ℕ × Server)
unfolding try_stores
allocate_bs pages s = and_then (started s) (λ s1. try_stores max_bs_entries 0 pages s1)

pub deallocate_bs : ℕ → Server → Option (ℕ × Server)
unfolding release_bs
deallocate_bs id s =
    if is_bad_store id
    then some (syserr, s)
    else if not (s.is_allocated id)
    then some (syserr, s)
    else if slt 0 (s.use_count id)
    then some (syserr, s)
    else and_then (release_bs id s) (λ r. some (
      id,
      record (r.1) {
        is_allocated = put r.1.is_allocated id false;
        use_count = put r.1.use_count id 0;
      },
    ))

-- `open_bs` and `close_bs`: `count` is what they do to the use count.
abbrev pub change_use : (ℕ → ℕ) → ℕ → Server → Option (ℕ × Server)
change_use count id s =
    if is_bad_store id
    then some (syserr, s)
    else and_then (down s) (λ s1.
      if not (s1.is_allocated id)
      then some (syserr, up s1)
      else some (id, up (record s1 { use_count = put s1.use_count id (count (s1.use_count id)) })))

pub open_bs : ℕ → Server → Option (ℕ × Server)
open_bs id s = change_use (λ n. add32 n 1) id s

pub close_bs : ℕ → Server → Option (ℕ × Server)
close_bs id s = change_use (λ n. sub32 n 1) id s

-- `count_bs`, over the last `n` stores from `i` on
pub count_free : ℕ → ℕ → Server → ℕ
count_free zero i s = 0
count_free (suc n) i s =
    let rest = count_free n (i + 1) s in if s.is_allocated i then rest else rest + 1

pub count_bs : Server → ℕ
unfolding count_free
count_bs s = count_free max_bs_entries 0 s

-- The checks that `read_bs` and `write_bs` make of a page
abbrev pub checked : ℕ → ℕ → Server → Option Bool
checked id page s =
    if not s.active || is_bad_store id
    then some false
    else if s.bs_sem == 0
    then none
    else some (s.is_open id && ltb page (s.npages id))

abbrev pub first_block : ℕ → ℕ → ℕ
first_block id page = (id * rd_pages_per_bs + page) * 8

-- The loops over the blocks of a page: `n` blocks from `blk` on, at `addr` in memory
pub read_blocks : ℕ → ℕ → ℕ → Server → (ℕ → ℕ) → Option (ℕ → ℕ)
read_blocks zero blk addr s mem = some mem
read_blocks (suc n) blk addr s mem =
    let further =
      read_blocks n (blk + 1) (addr + rd_blksiz) s
        (λ x. if leb addr x && ltb x (addr + rd_blksiz) then s.disk blk (x - addr) else mem x) in
    if s.works blk then further else none

pub write_blocks : ℕ → ℕ → ℕ → (ℕ → ℕ) → Server → Option Server
write_blocks zero blk addr mem s = some s
write_blocks (suc n) blk addr mem s =
    let further =
      write_blocks n (blk + 1) (addr + rd_blksiz) mem
        (record s { disk = put s.disk blk (λ o. mem (addr + o)) }) in
    if s.works blk then further else none

pub read_bs : ℕ → ℕ → ℕ → Server → (ℕ → ℕ) → Option (ℕ × (ℕ → ℕ))
unfolding read_blocks
read_bs dst id page s mem = and_then (checked id page s) (λ good.
    if not good
    then some (syserr, mem)
    else and_then (read_blocks 8 (first_block id page) dst s mem) (λ mem'. some (ok, mem')))

pub write_bs : ℕ → ℕ → ℕ → (ℕ → ℕ) → Server → Option (ℕ × Server)
unfolding write_blocks
write_bs src id page mem s = and_then (checked id page s) (λ good.
    if not good
    then some (syserr, s)
    else and_then (write_blocks 8 (first_block id page) src mem s) (λ s'. some (ok, s')))
