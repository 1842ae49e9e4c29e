-- ===== src/Backing/Pages.antt =====
-- paging/read_bs.c and write_bs.c: what is written to a page is read from it.
use cs503_lab.Base.{
  ℕ, zero, suc, ◌+◌, ◌*◌, ◌-◌, ◌/◌, ◌%◌, ◌≤◌, ◌<◌, ◌≡◌, refl, sym, ap, ◌∙◌, ◌≢◌, ◌⊎◌, inl, ◌&&◌,
  true, false, ◌==◌, if◌then◌else◌, some, bias, ltb, leb, put, put_self, put_ne, arith,
}
use mathlib.Core.Path.{subst}
use cs503_lab.Config.{ok}
use cs503_lab.Backing.{
  Server, max_id, is_bad_store, rd_blksiz, max_pages_per_bs, checked, first_block, read_blocks,
  write_blocks, read_bs, write_bs,
}

-- The state after `n` blocks from `blk` on were written from `addr` on.
pub record Written (n blk addr : ℕ) (mem : ℕ → ℕ) (s s' : Server) : Type 0 where
  pub inside :
      (i o : ℕ) → i < n → o < rd_blksiz → s'.disk (blk + i) o ≡ mem (addr + i * rd_blksiz + o)
  pub outside : (j o : ℕ) → (j < blk) ⊎ (blk + n ≤ j) → s'.disk j o ≡ s.disk j o
  pub table : s' ≡ record s { disk = s'.disk }

module _ (mem : ℕ → ℕ) where
  write_blocks-Written :
      (n blk addr : ℕ) (s : Server)
      → ((i : ℕ) → i < n → s.works (blk + i) ≡ true)
      → (s' : Server) × (write_blocks n blk addr mem s ≡ some s') × Written n blk addr mem s s'
  unfolding write_blocks
  write_blocks-Written zero blk addr s works = (
    s,
    refl,
    record { inside = λ i o il ol. absurd (omega arith); outside = λ j o out. refl; table = refl },
  )
  write_blocks-Written (suc n) blk addr s works =
      let s1 : Server = record s { disk = put s.disk blk (λ o. mem (addr + o)) } in
      let w = write_blocks-Written n (blk + 1) (addr + rd_blksiz) s1 (λ i il.
        let e : blk + (i + 1) ≡ blk + 1 + i = omega arith in
        subst (λ j. s.works j ≡ true) e (works (i + 1) (omega arith))) in
      let first : s.works blk ≡ true =
        let e : blk + 0 ≡ blk = omega arith in
        subst (λ j. s.works j ≡ true) e (works 0 (omega arith)) in
      (
        w.0,
        rw first w.1,
        record {
          inside = λ i o il ol. block w.0 w.2 i o il ol;
          outside = λ j o out.
              w.2.outside j o (ground arith) ∙ ap (λ f. f o) (put_ne s.disk blk _ j (ground arith));
          table = w.2.table;
        },
      )
    where
      block :
          (s' : Server)
          → Written n
              (blk + 1)
              (addr + rd_blksiz)
              mem
              (record s { disk = put s.disk blk (λ o. mem (addr + o)) })
              s'
          → (i o : ℕ) → i < suc n
          → o < rd_blksiz
          → s'.disk (blk + i) o ≡ mem (addr + i * rd_blksiz + o)
      block s' w zero o il ol =
          let e : blk + 0 ≡ blk = omega arith in
          let e' : addr + o ≡ addr + 0 * rd_blksiz + o = omega arith in
          ap (λ j. s'.disk j o) e
          ∙ w.outside blk o (inl (omega arith))
          ∙ ap (λ f. f o) (put_self s.disk blk (λ o. mem (addr + o)))
          ∙ ap mem e'
      block s' w (suc i) o il ol =
          let e : blk + suc i ≡ blk + 1 + i = omega arith in
          let e' : addr + rd_blksiz + i * rd_blksiz + o ≡ addr + suc i * rd_blksiz + o =
            omega arith in
          ap (λ j. s'.disk j o) e ∙ w.inside i o (omega arith) ol ∙ ap mem e'

-- The memory after `n` blocks from `blk` on were read to `addr`.
pub record Loaded (n blk addr : ℕ) (s : Server) (mem mem' : ℕ → ℕ) : Type 0 where
  pub inside :
      (i o : ℕ) → i < n → o < rd_blksiz → mem' (addr + i * rd_blksiz + o) ≡ s.disk (blk + i) o
  pub outside : (x : ℕ) → (x < addr) ⊎ (addr + n * rd_blksiz ≤ x) → mem' x ≡ mem x

abbrev load_block : ℕ → ℕ → Server → (ℕ → ℕ) → ℕ → ℕ
load_block blk addr s mem x =
    if leb addr x && ltb x (addr + rd_blksiz) then s.disk blk (x - addr) else mem x

load_block-at :
    (blk addr : ℕ) (s : Server) (mem : ℕ → ℕ) (o : ℕ)
    → o < rd_blksiz
    → load_block blk addr s mem (addr + o) ≡ s.disk blk o
load_block-at blk addr s mem o ol =
    let test : (leb addr (addr + o) && ltb (addr + o) (addr + rd_blksiz)) ≡ true = ground arith in
    let e : addr + o - addr ≡ o = omega arith in rw (test, e) refl

load_block-off :
    (blk addr : ℕ) (s : Server) (mem : ℕ → ℕ) (x : ℕ)
    → (x < addr) ⊎ (addr + rd_blksiz ≤ x)
    → load_block blk addr s mem x ≡ mem x
load_block-off blk addr s mem x out =
    let test : (leb addr x && ltb x (addr + rd_blksiz)) ≡ false = ground arith in rw test refl

module _ (s : Server) where
  read_blocks-Loaded :
      (n blk addr : ℕ) (mem : ℕ → ℕ)
      → ((i : ℕ) → i < n → s.works (blk + i) ≡ true)
      → (mem' : ℕ → ℕ) × (read_blocks n blk addr s mem ≡ some mem') × Loaded n blk addr s mem mem'
  unfolding read_blocks
  read_blocks-Loaded zero blk addr mem works =
      (mem, refl, record { inside = λ i o il ol. absurd (omega arith); outside = λ x out. refl })
  read_blocks-Loaded (suc n) blk addr mem works =
      let r = read_blocks-Loaded n (blk + 1) (addr + rd_blksiz) (load_block blk addr s mem) (λ i il.
        let e : blk + (i + 1) ≡ blk + 1 + i = omega arith in
        subst (λ j. s.works j ≡ true) e (works (i + 1) (omega arith))) in
      let first : s.works blk ≡ true =
        let e : blk + 0 ≡ blk = omega arith in
        subst (λ j. s.works j ≡ true) e (works 0 (omega arith)) in
      (
        r.0,
        rw first r.1,
        record {
          inside = λ i o il ol. byte r.0 r.2 i o il ol;
          outside = λ x out.
              r.2.outside x (ground arith) ∙ load_block-off blk addr s mem x (ground arith);
        },
      )
    where
      byte :
          (mem' : ℕ → ℕ)
          → Loaded n (blk + 1) (addr + rd_blksiz) s (load_block blk addr s mem) mem'
          → (i o : ℕ) → i < suc n
          → o < rd_blksiz
          → mem' (addr + i * rd_blksiz + o) ≡ s.disk (blk + i) o
      byte mem' r zero o il ol =
          let e : addr + 0 * rd_blksiz + o ≡ addr + o = omega arith in
          let e' : blk ≡ blk + 0 = omega arith in
          ap mem' e
          ∙ r.outside (addr + o) (inl (omega arith))
          ∙ load_block-at blk addr s mem o ol
          ∙ ap (λ j. s.disk j o) e'
      byte mem' r (suc i) o il ol =
          let e : addr + suc i * rd_blksiz + o ≡ addr + rd_blksiz + i * rd_blksiz + o =
            omega arith in
          let e' : blk + 1 + i ≡ blk + suc i = omega arith in
          ap mem' e ∙ r.inside i o (omega arith) ol ∙ ap (λ j. s.disk j o) e'

-- A page of an open store, with nobody in the way, and a disk that works
pub record Ready (id page : ℕ) (s : Server) : Type 0 where
  pub active : s.active ≡ true
  pub store : id ≤ max_id
  pub opened : s.is_open id ≡ true
  pub page_in : page < s.npages id
  pub unlocked : s.bs_sem ≢ 0
  pub works : (i : ℕ) → i < 8 → s.works (first_block id page + i) ≡ true

Ready-checked : {id page : ℕ} {s : Server} → Ready id page s → checked id page s ≡ some true
unfolding bias
Ready-checked {id} {page} {s} r =
    let bad : is_bad_store id ≡ false = ground (arith, r.store) in
    let free : (s.bs_sem == 0) ≡ false = ground (arith, r.unlocked) in
    let within : ltb page (s.npages id) ≡ true = ground (arith, r.page_in) in
    rw (r.active, bad, free, r.opened, within) refl

-- Two pages that are not the same share no block.
pub first_block-apart :
    (id page id' page' i j : ℕ)
    → page < max_pages_per_bs
    → page' < max_pages_per_bs
    → i < 8
    → j < 8
    → first_block id page + i ≡ first_block id' page' + j
    → (id ≡ id') × (page ≡ page')
first_block-apart id page id' page' i j pl pl' il jl e = (omega arith, omega arith)

-- After `write_bs` the state is the one before, but for the blocks of the page.
pub write_bs-Written :
    {id page : ℕ} {s : Server} (r : Ready id page s) (src : ℕ) (mem : ℕ → ℕ)
    → (s' : Server) × (write_bs src id page mem s ≡ some (ok, s'))
      × Written 8 (first_block id page) src mem s s'
unfolding write_bs
write_bs-Written {id} {page} {s} r src mem =
    let w = write_blocks-Written mem 8 (first_block id page) src s r.works in
    (w.0, rw (Ready-checked r, w.1) refl, w.2)

pub read_bs-Loaded :
    {id page : ℕ} {s : Server} (r : Ready id page s) (dst : ℕ) (mem : ℕ → ℕ)
    → (mem' : ℕ → ℕ) × (read_bs dst id page s mem ≡ some (ok, mem'))
      × Loaded 8 (first_block id page) dst s mem mem'
unfolding read_bs
read_bs-Loaded {id} {page} {s} r dst mem =
    let l = read_blocks-Loaded s 8 (first_block id page) dst mem r.works in
    (l.0, rw (Ready-checked r, l.1) refl, l.2)

pub Ready-Written :
    {id page : ℕ} {s s' : Server}
    → s' ≡ record s { disk = s'.disk }
    → Ready id page s
    → Ready id page s'
Ready-Written {id} {page} {s} {s'} e r = subst (Ready id page) (sym e) (record {
  active = r.active;
  store = r.store;
  opened = r.opened;
  page_in = r.page_in;
  unlocked = r.unlocked;
  works = r.works;
})

-- A page that was written from `src` is read back to `dst` byte for byte, with any memory contents
-- in between; both calls return OK, and the read changes no memory outside the page.
pub read_bs-write_bs :
    {id page : ℕ} {s : Server} (r : Ready id page s) (src dst : ℕ) (mem mem2 : ℕ → ℕ)
    → (s' : Server) × (write_bs src id page mem s ≡ some (ok, s'))
      × ((mem' : ℕ → ℕ) × (read_bs dst id page s' mem2 ≡ some (ok, mem'))
          × ((o : ℕ) → o < 4096 → mem' (dst + o) ≡ mem (src + o))
          × ((x : ℕ) → (x < dst) ⊎ (dst + 4096 ≤ x) → mem' x ≡ mem2 x))
read_bs-write_bs {id} {page} {s} r src dst mem mem2 =
    let w = write_bs-Written r src mem in
    let l = read_bs-Loaded (Ready-Written w.2.table r) dst mem2 in
    (
      w.0,
      w.1,
      (l.0, l.1, (λ o ol. byte w.0 l.0 w.2 l.2 o ol), (λ x out. l.2.outside x (ground arith))),
    )
  where
    byte :
        (s' : Server) (mem' : ℕ → ℕ)
        → Written 8 (first_block id page) src mem s s'
        → Loaded 8 (first_block id page) dst s' mem2 mem'
        → (o : ℕ) → o < 4096
        → mem' (dst + o) ≡ mem (src + o)
    byte s' mem' w l o ol =
        let e : dst + o ≡ dst + o / rd_blksiz * rd_blksiz + o % rd_blksiz = omega arith in
        let e' : src + o / rd_blksiz * rd_blksiz + o % rd_blksiz ≡ src + o = omega arith in
        ap mem' e
        ∙ l.inside (o / rd_blksiz) (o % rd_blksiz) (omega arith) (omega arith)
        ∙ w.inside (o / rd_blksiz) (o % rd_blksiz) (omega arith) (omega arith)
        ∙ ap mem e'

-- `write_bs` leaves every other page of every store as it was.
pub write_bs_others :
    {id page : ℕ} {s : Server} (r : Ready id page s) (src : ℕ) (mem : ℕ → ℕ)
    → page < max_pages_per_bs
    → (s' : Server) × (write_bs src id page mem s ≡ some (ok, s'))
      × ((id' page' j o : ℕ)
          → page' < max_pages_per_bs
          → (id' ≢ id) ⊎ (page' ≢ page)
          → j < 8
          → s'.disk (first_block id' page' + j) o ≡ s.disk (first_block id' page' + j) o)
write_bs_others {id} {page} {s} r src mem pl =
    let w = write_bs-Written r src mem in
    (w.0, w.1, λ id' page' j o pl' ne jl. w.2.outside (first_block id' page' + j) o (omega arith))
