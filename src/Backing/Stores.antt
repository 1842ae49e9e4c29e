-- ===== src/Backing/Stores.antt =====
-- The table of stores: paging/allocate_bs.c, deallocate_bs.c, get_bs.c, open_bs.c, close_bs.c and
-- psinit.c.
use cs503_lab.Base.{
  ℕ, zero, suc, ◌+◌, ◌-◌, ◌^◌, ◌≤◌, ◌<◌, ◌≡◌, refl, sym, ap, ◌∙◌, ◌≢◌, ◌⊎◌, inl, inr, ◌||◌, true,
  false, ◌==◌, if◌then◌else◌, Option, none, some, slt, bias, ltb, add32, sub32, put, put_self,
  arith, Bool-cases,
}
use mathlib.Core.Path.{subst}
use cs503_lab.Config.{syserr}
use cs503_lab.Backing.{
  Server, and_then, max_id, max_bs_entries, max_pages_per_bs, is_bad_store, psinit, get_bs,
  release_bs, try_stores, allocate_bs, deallocate_bs, open_bs, close_bs,
}

is_bad_store-le : (id : ℕ) → id ≤ max_id → is_bad_store id ≡ false
unfolding bias
is_bad_store-le id le = ground arith

-- The server runs, and nobody is in the way.
pub record IsServing (s : Server) : Type 0 where
  pub active : s.active ≡ true
  pub unlocked : s.bs_sem ≢ 0

-- Store `id` is allocated, with `pages` pages and nobody using it.
abbrev pub taken : ℕ → ℕ → Server → Server
taken id pages s = record s {
  is_open = put s.is_open id true;
  npages = put s.npages id pages;
  is_allocated = put s.is_allocated id true;
  use_count = put s.use_count id 0;
}

abbrev opened : ℕ → ℕ → Server → Server
opened id pages s = record s { is_open = put s.is_open id true; npages = put s.npages id pages }

module _ {s : Server} (r : IsServing s) where
  free : (s.bs_sem == 0) ≡ false
  free = ground (arith, r.unlocked)

  restored : s.bs_sem - 1 + 1 ≡ s.bs_sem
  restored = omega (arith, r.unlocked)

  module _ (pages : ℕ) (pos : 0 < pages) (le : pages ≤ max_pages_per_bs) where
    good :
        (id : ℕ)
        → id ≤ max_id
        → (is_bad_store id || pages == 0 || ltb max_pages_per_bs pages) ≡ false
    good id il = rw (is_bad_store-le id il) (ground arith)

    get_bs-open :
        (id : ℕ) → id ≤ max_id → s.is_open id ≡ true → get_bs id pages s ≡ some (syserr, s)
    unfolding get_bs
    get_bs-open id il o = rw (r.active, good id il, free, o, restored) refl

    get_bs-closed :
        (id : ℕ)
        → id ≤ max_id
        → s.is_open id ≡ false
        → get_bs id pages s ≡ some (pages, opened id pages s)
    unfolding get_bs
    get_bs-closed id il o = rw (r.active, good id il, free, o, restored) refl

    pages-ne : (pages == syserr) ≡ false
    pages-ne = ground arith

    -- What the search of `n` stores from `i` on comes to.
    abbrev Tried : ℕ → ℕ → Option (ℕ × Server) → Type 0
    Tried n i found =
        ((j : ℕ) × (i ≤ j)
          × (j < i + n)
          × (s.is_allocated j ≡ false)
          × (s.is_open j ≡ false)
          × (found ≡ some (j, taken j pages s)))
        ⊎ ((found ≡ some (syserr, s))
            × ((j : ℕ) → i ≤ j → j < i + n → (s.is_allocated j || s.is_open j) ≡ true))

    Tried-behind :
        (n i : ℕ) (found : Option (ℕ × Server))
        → (s.is_allocated i || s.is_open i) ≡ true
        → Tried n (i + 1) found
        → Tried (suc n) i found
    Tried-behind n i found busy (inl t) =
        inl (t.0, omega (arith, t.1), omega (arith, t.2), t.3, t.4, t.5)
    Tried-behind n i found busy (inr t) = inr (
      t.0,
      λ j le lt. elim (Bool-cases (j == i)) [
        | inl e ↦
            let same : i ≡ j = ground arith in
            subst (λ k. (s.is_allocated k || s.is_open k) ≡ true) same busy
        | inr e ↦ t.1 j (ground arith) (omega arith)
      ],
    )

    try_stores-Tried : (n i : ℕ) → i + n ≤ max_bs_entries → Tried n i (try_stores n i pages s)
    unfolding try_stores
    try_stores-Tried zero i il = inr (refl, λ j le lt. absurd (omega arith))
    try_stores-Tried (suc n) i il =
        let further = try_stores-Tried n (i + 1) (omega arith) in
        elim (Bool-cases (s.is_allocated i)) [
          | inl a ↦ rw a (Tried-behind n i _ (rw a refl) further)
          | inr a ↦ elim (Bool-cases (s.is_open i)) [
            | inl o ↦
                rw (a, get_bs-open i (omega arith) o) (Tried-behind n i _ (rw (a, o) refl) further)
            | inr o ↦
                rw (a, get_bs-closed i (omega arith) o, pages-ne)
                  (inl (i, omega arith, omega arith, a, o, refl))
          ]
        ]

    allocate_bs-started : allocate_bs pages s ≡ try_stores max_bs_entries 0 pages s
    unfolding allocate_bs
    allocate_bs-started =
        ap
          (λ a.
            and_then (if a then some s else and_then (psinit s) (λ r. some r.1))
              (λ s1. try_stores max_bs_entries 0 pages s1))
          r.active

    -- `allocate_bs` on a running server, of 1 to 200 pages: the call returns; either it gives a store
    -- that was neither allocated nor open, and now is both, with that many pages and nobody using
    -- it, while all else is as before; or each of the eight stores is allocated or open, and the
    -- call fails and changes nothing.
    pub allocate_bs_lem : Tried max_bs_entries 0 (allocate_bs pages s)
    allocate_bs_lem =
        subst (Tried max_bs_entries 0) (sym allocate_bs-started)
          (try_stores-Tried max_bs_entries 0 (omega arith))

  module _ (id : ℕ) (il : id ≤ max_id) (allocated : s.is_allocated id ≡ true) where
    abbrev pub returned : Server
    returned = record s {
      is_open = put s.is_open id false;
      npages = put s.npages id 0;
      is_allocated = put s.is_allocated id false;
      use_count = put s.use_count id 0;
    }

    -- `deallocate_bs` of an open, allocated store on a running server: it fails and changes nothing
    -- if the use count is above zero; else the store is closed and no longer allocated, with all
    -- else as before.
    pub deallocate_bs_lem :
        s.is_open id ≡ true
        → deallocate_bs id s
          ≡ (if slt 0 (s.use_count id) then some (syserr, s) else some (id, returned))
    unfolding deallocate_bs release_bs
    deallocate_bs_lem o = elim (Bool-cases (slt 0 (s.use_count id))) [
      | inl u ↦ rw (is_bad_store-le id il, allocated, u) refl
      | inr u ↦ rw (is_bad_store-le id il, allocated, u, r.active, free, o, restored) refl
    ]

    close_bs-lowers :
        close_bs id s
        ≡ some (id, record s { use_count = put s.use_count id (sub32 (s.use_count id) 1) })
    unfolding close_bs
    close_bs-lowers = rw (is_bad_store-le id il, free, allocated, restored) refl

    open_bs-raises :
        open_bs id s
        ≡ some (id, record s { use_count = put s.use_count id (add32 (s.use_count id) 1) })
    unfolding open_bs
    open_bs-raises = rw (is_bad_store-le id il, free, allocated, restored) refl

    -- `open_bs` and then `close_bs` of an allocated store on a running server restore the use count.
    pub close_bs-open_bs :
        s.use_count id < 2 ^ 32
        → and_then (open_bs id s) (λ o. close_bs id o.1)
          ≡ some (
            id,
            record s {
              use_count = put (put s.use_count id (add32 (s.use_count id) 1)) id (s.use_count id);
            },
          )
    unfolding close_bs add32 sub32
    close_bs-open_bs small =
        let self = put_self s.use_count id (add32 (s.use_count id) 1) in
        let back : sub32 (add32 (s.use_count id) 1) 1 ≡ s.use_count id = omega arith in
        rw open_bs-raises (
          rw (is_bad_store-le id il, free, allocated, restored)
            (ap
              (λ n. some (
                id,
                record s { use_count = put (put s.use_count id (add32 (s.use_count id) 1)) id n },
              ))
              (ap (λ n. sub32 n 1) self ∙ back)))

-- A second `psinit` on a server that is active, whose semaphore had been left at 1, never returns.
pub psinit-psinit :
    (s : Server)
    → s.active ≡ true
    → s.bs_init_sem ≡ 1
    → and_then (psinit s) (λ r. psinit r.1) ≡ none
unfolding psinit
psinit-psinit s active one = rw (one, active) refl

below_zero : sub32 0 1 ≡ 2 ^ 32 - 1
unfolding sub32
below_zero = refl

to_zero : add32 (2 ^ 32 - 1) 1 ≡ 0
unfolding add32
to_zero = refl

not_used : slt 0 0 ≡ false
unfolding bias
not_used = refl

-- A `close_bs` of an allocated, open store that nobody uses is not refused, and takes the use count
-- below zero, to -1; the `open_bs` of the next user brings it to zero, and `deallocate_bs` does not
-- refuse the store that is in use: it is closed and no longer allocated. The server runs and its
-- semaphore is free.
pub close_bs-early :
    {s : Server} (r : IsServing s) (id : ℕ)
    → id ≤ max_id
    → s.is_allocated id ≡ true
    → s.is_open id ≡ true
    → s.use_count id ≡ 0
    → (s1 : Server) × (s2 : Server) × (s3 : Server) × (close_bs id s ≡ some (id, s1))
      × (s1.use_count id ≡ 2 ^ 32 - 1)
      × (open_bs id s1 ≡ some (id, s2))
      × (s2.use_count id ≡ 0)
      × (deallocate_bs id s2 ≡ some (id, s3))
      × ((s3.is_open id || s3.is_allocated id) ≡ false)
close_bs-early {s} r id il allocated o z =
    let s1 : Server = record s { use_count = put s.use_count id (sub32 (s.use_count id) 1) } in
    let s2 : Server = record s1 { use_count = put s1.use_count id (add32 (s1.use_count id) 1) } in
    let r1 : IsServing s1 = record { active = r.active; unlocked = r.unlocked } in
    let r2 : IsServing s2 = record { active = r.active; unlocked = r.unlocked } in
    let low : s1.use_count id ≡ 2 ^ 32 - 1 =
      put_self s.use_count id _ ∙ ap (λ n. sub32 n 1) z ∙ below_zero in
    let back : s2.use_count id ≡ 0 =
      put_self s1.use_count id _ ∙ ap (λ n. add32 n 1) low ∙ to_zero in
    let test : slt 0 (s2.use_count id) ≡ false = rw back not_used in
    (
      s1,
      s2,
      returned r2 id il allocated,
      close_bs-lowers r id il allocated,
      low,
      open_bs-raises r1 id il allocated,
      back,
      deallocate_bs_lem r2 id il allocated o
          ∙ ap (λ t. if t then some (syserr, s2) else some (id, returned r2 id il allocated)) test,
      ground arith,
    )
