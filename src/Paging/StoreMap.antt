-- ===== src/Paging/StoreMap.antt =====
-- Which store has a page: bs_mapping and get_store_offset.
use cs503_lab.Base.{
  ℕ, zero, suc, ◌+◌, ◌*◌, ◌-◌, ◌/◌, ◌^◌, ◌≤◌, ◌<◌, ◌≡◌, refl, sym, ap, ◌∙◌, ◌≢◌, ◌⊎◌, inl, inr,
  ◌||◌, not, true, false, arith, ◌==◌, none, some, put, put_self, Bool-cases, add32-small,
}
use mathlib.Core.Path.{subst}
use cs503_lab.Config.{syserr}
use cs503_lab.Backing.{allocate_bs, max_id, max_bs_entries, max_pages_per_bs}
use cs503_lab.Backing.Stores.{IsServing, taken, allocate_bs_lem}
use cs503_lab.Paging.{Paging, page_size, in_store, find_store, get_store_offset, bs_mapping}

-- The first store, from `i` on, that the map gives for page `vpn` of `pid`
record FirstStore (pid vpn : ℕ) (s : Paging) (i n id : ℕ) : Type 0 where
  within : (i ≤ id) × (id < i + n)
  has_page : in_store id pid vpn s ≡ true
  least : (j : ℕ) → i ≤ j → j < id → in_store j pid vpn s ≡ false

find_store-first :
    (n i id pid vpn : ℕ) (s : Paging)
    → FirstStore pid vpn s i n id
    → find_store n i pid vpn s ≡ some (id, vpn - s.start_vpn id)
unfolding find_store
find_store-first zero i id pid vpn s f = absurd (omega (arith, f.within))
find_store-first (suc n) i id pid vpn s f = elim (Bool-cases (id == i)) [
  | inl e ↦
      let same : id ≡ i = ground arith in
      rw (subst (λ j. in_store j pid vpn s ≡ true) same f.has_page)
        (ap (λ j. some (j, vpn - s.start_vpn j)) (sym same))
  | inr e ↦ rw (f.least i (omega arith) (ground (arith, f.within))) (
      find_store-first n (i + 1) id pid vpn s (record {
        within = (ground (arith, f.within), ground (arith, f.within));
        has_page = f.has_page;
        least = λ j le lt. f.least j (omega arith) lt;
      }))
]

find_store-none :
    (n i pid vpn : ℕ) (s : Paging)
    → find_store n i pid vpn s ≡ none
    → (j : ℕ) → i ≤ j
    → j < i + n
    → in_store j pid vpn s ≡ false
unfolding find_store
find_store-none zero i pid vpn s e j le lt = absurd (omega arith)
find_store-none (suc n) i pid vpn s e j le lt = elim (Bool-cases (in_store i pid vpn s)) [
  | inl t ↦ absurd (cc)
  | inr t ↦ elim (Bool-cases (j == i)) [
    | inl m ↦ let same : i ≡ j = ground arith in subst (λ k. in_store k pid vpn s ≡ false) same t
    | inr m ↦ find_store-none n (i + 1) pid vpn s (rw t at e) j (ground arith) (ground arith)
  ]
]

-- Stores with the same entries answer the same.
find_store-same :
    (n i pid vpn : ℕ) (s s' : Paging) (id : ℕ)
    → ((j : ℕ) → j ≢ id → in_store j pid vpn s' ≡ in_store j pid vpn s)
    → ((j : ℕ) → j ≢ id → s'.start_vpn j ≡ s.start_vpn j)
    → in_store id pid vpn s ≡ false
    → in_store id pid vpn s' ≡ false
    → find_store n i pid vpn s' ≡ find_store n i pid vpn s
unfolding find_store
find_store-same zero i pid vpn s s' id same start a b = refl
find_store-same (suc n) i pid vpn s s' id same start a b = elim (Bool-cases (i == id)) [
  | inl e ↦
      let here : id ≡ i = ground arith in
      rw
        (
          subst (λ k. in_store k pid vpn s ≡ false) here a,
          subst (λ k. in_store k pid vpn s' ≡ false) here b,
        )
        (find_store-same n (i + 1) pid vpn s s' id same start a b)
  | inr e ↦
      rw
        (
          same i (ground arith),
          start i (ground arith),
          find_store-same n (i + 1) pid vpn s s' id same start a b,
        )
        refl
]

find_store-below :
    (n i pid vpn : ℕ) (s s' : Paging)
    → ((j : ℕ) → j < i + n → in_store j pid vpn s' ≡ in_store j pid vpn s)
    → ((j : ℕ) → j < i + n → s'.start_vpn j ≡ s.start_vpn j)
    → find_store n i pid vpn s' ≡ find_store n i pid vpn s
unfolding find_store
find_store-below zero i pid vpn s s' same start = refl
find_store-below (suc n) i pid vpn s s' same start =
    rw
      (
        same i (omega arith),
        start i (omega arith),
        find_store-below n (i + 1) pid vpn s s' (λ j lt. same j (omega arith))
            (λ j lt. start j (omega arith)),
      )
      refl

-- A store is mapped when it is allocated, and the map gives no page to one that is not.
pub record IsStoreMap (s : Paging) : Type 0 where
  pub in_use : (j : ℕ) → j ≤ max_id → s.if_map j ≡ s.server.is_allocated j
  pub unused : (j : ℕ) → j ≤ max_id → s.if_map j ≡ false → s.num_pages j ≡ 0

-- Store `id` has the `n` pages from `vpn` on of `pid`.
abbrev pub mapped_to : ℕ → ℕ → ℕ → ℕ → Paging → Paging
mapped_to id pid n vpn s = record s {
  server = taken id n s.server;
  if_map = put s.if_map id true;
  map_pid = put s.map_pid id pid;
  num_pages = put s.num_pages id n;
  start_vpn = put s.start_vpn id (vpn + 4096);
}

-- The new entry of the map finds its pages, and the others find theirs.
pub record Maps (id pid n vpn : ℕ) (s s' : Paging) : Type 0 where
  pub store_map : IsStoreMap s'
  pub pages :
      (k b : ℕ)
      → k < n
      → b < page_size
      → get_store_offset pid ((vpn + 4096 + k) * page_size + b) s' ≡ some (id, k)
  pub others :
      (pid' vaddr : ℕ)
      → (pid' ≢ pid) ⊎ ((vaddr / page_size < vpn + 4096) ⊎ (vpn + 4096 + n ≤ vaddr / page_size))
      → get_store_offset pid' vaddr s' ≡ get_store_offset pid' vaddr s
  pub server : s'.server ≡ taken id n s.server

module _ {s : Paging} (m : IsStoreMap s) (pid n vpn : ℕ) (pos : 0 < n) (le : n ≤ max_pages_per_bs)
    (small : vpn + 4096 < 2 ^ 32) where
  module _ (free : (k : ℕ) → k < n → get_store_offset pid ((vpn + 4096 + k) * page_size) s ≡ none)
      (id : ℕ) (il : id ≤ max_id) (unallocated : s.server.is_allocated id ≡ false) where
    new : Paging
    new = mapped_to id pid n vpn s

    unmapped : s.if_map id ≡ false
    unmapped = m.in_use id il ∙ unallocated

    no_page : (pid' v : ℕ) → in_store id pid' v s ≡ false
    no_page pid' v = ground (arith, m.unused id il unmapped)

    mapped_to-Maps : Maps id pid n vpn s new
    unfolding get_store_offset new
    mapped_to-Maps = record {
      store_map = record {
        in_use = λ j jl. ground (arith, m.in_use j jl);
        unused = λ j jl e. ground (arith, m.unused j);
      };
      pages = λ k b kl bl.
          let v : ((vpn + 4096 + k) * page_size + b) / page_size ≡ vpn + 4096 + k = omega arith in
          let w : (vpn + 4096 + k) * page_size / page_size ≡ vpn + 4096 + k = omega arith in
          let none_yet = subst (λ u. find_store max_bs_entries 0 pid u s ≡ none) w (free k kl) in
          let off : vpn + 4096 + k - (vpn + 4096) ≡ k = omega arith in
          rw v (
            find_store-first max_bs_entries 0 id pid (vpn + 4096 + k) new (record {
              within = (omega arith, omega arith);
              has_page = ground arith;
              least = λ j jl lt.
                  ground
                    (arith, find_store-none max_bs_entries 0 pid (vpn + 4096 + k) s none_yet j);
            })
            ∙ ap (λ o. some (id, o))
                (ap (λ u. vpn + 4096 + k - u) (put_self s.start_vpn id (vpn + 4096)) ∙ off));
      others = λ pid' vaddr ne.
          find_store-same max_bs_entries 0 pid' (vaddr / page_size) s new id (λ j o. ground arith)
            (λ j o. ground arith) (no_page pid' (vaddr / page_size)) (ground arith);
      server = refl;
    }

    bs_mapping-taken :
        allocate_bs n s.server ≡ some (id, taken id n s.server)
        → bs_mapping pid n vpn s ≡ some (true, new)
    unfolding bs_mapping new
    bs_mapping-taken e =
        let known : (n == 0) ≡ false = ground arith in
        rw (known, e, unmapped, add32-small vpn 4096 small) refl

  -- The map is written in front of its first entry, where no page is looked for.
  failed :
      allocate_bs n s.server ≡ some (syserr, s.server)
      → (s' : Paging) × (bs_mapping pid n vpn s ≡ some (not (s.if_map syserr), s'))
        × ((pid' vaddr : ℕ) → get_store_offset pid' vaddr s' ≡ get_store_offset pid' vaddr s)
  unfolding bs_mapping get_store_offset
  failed e =
      let known : (n == 0) ≡ false = ground arith in
      elim (Bool-cases (s.if_map syserr)) [
        | inl t ↦ (s, rw (known, e, t) refl, λ pid' vaddr. refl)
        | inr t ↦ (
          in_front,
          rw (known, e, t, add32-small vpn 4096 small) refl,
          λ pid' vaddr.
              find_store-below max_bs_entries 0 pid' (vaddr / page_size) s in_front
                (λ j lt. ground arith) (λ j lt. ground arith),
        )
      ]
    where
      in_front : Paging
      in_front = record s {
        if_map = put s.if_map syserr true;
        map_pid = put s.map_pid syserr pid;
        num_pages = put s.num_pages syserr n;
        start_vpn = put s.start_vpn syserr (vpn + 4096);
      }

  -- For 1 to 200 pages that have no store yet, with 32-bit page numbers and a well formed map,
  -- `bs_mapping` with a running server finds a store that was free: it returns 1, the map stays well formed, every address in the new pages is found in that
  -- store, at its page, and all other pages are found where they were. With no free store it reads the
  -- flag in front of the first entry of the map, and returns 1 if it is clear and 0 if not; either way
  -- every page is found where it was, so the new ones in no store.
  pub bs_mapping-Maps :
      IsServing s.server
      → ((k : ℕ) → k < n → get_store_offset pid ((vpn + 4096 + k) * page_size) s ≡ none)
      → ((id : ℕ) × (s' : Paging) × (s.server.is_allocated id ≡ false)
          × (bs_mapping pid n vpn s ≡ some (true, s'))
          × Maps id pid n vpn s s')
        ⊎ (((s' : Paging) × (bs_mapping pid n vpn s ≡ some (not (s.if_map syserr), s'))
              × ((pid' vaddr : ℕ) → get_store_offset pid' vaddr s' ≡ get_store_offset pid' vaddr s))
            × ((j : ℕ) → j ≤ max_id → (s.server.is_allocated j || s.server.is_open j) ≡ true))
  unfolding new
  bs_mapping-Maps r free = elim (allocate_bs_lem r n pos le) [
    | inl t ↦
        let il : t.0 ≤ max_id = omega (arith, t.2) in
        inl (
          t.0,
          mapped_to t.0 pid n vpn s,
          t.3,
          bs_mapping-taken free t.0 il t.3 t.5,
          mapped_to-Maps free t.0 il t.3,
        )
    | inr t ↦ inr (failed t.0, λ j jl. t.1 j (omega arith) (omega arith))
  ]
