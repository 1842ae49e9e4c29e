-- ===== src/Vprocess/Heap.antt =====
-- The virtual heap of a new process: each page of it has a page of a store.
use cs503_lab.Base.{
  ℕ, zero, suc, ◌+◌, ◌*◌, ◌-◌, ◌/◌, ◌^◌, ◌%◌, ◌≤◌, ◌<◌, ◌≡◌, refl, sym, ap, ◌∙◌, ◌≢◌, ◌⊎◌, inl, inr,
  ◌||◌, true, false, arith, ◌==◌, if◌then◌else◌, none, some, Bool-cases, ltb,
}
use mathlib.Core.Path.{subst}
use cs503_lab.Backing.{Server, max_bs_entries, max_pages_per_bs}
use cs503_lab.Backing.Stores.{IsServing, taken}
use cs503_lab.Paging.{Paging, page_size, get_store_offset, bs_mapping}
use cs503_lab.Paging.StoreMap.{IsStoreMap, Maps, bs_mapping-Maps}
use cs503_lab.Vprocess.{map_heap}

-- How many of the `n` stores from `i` on are neither allocated nor open
unfoldable pub free_stores : ℕ → ℕ → Server → ℕ
free_stores zero i r = 0
free_stores (suc n) i r =
    let rest = free_stores n (i + 1) r in if r.is_allocated i || r.is_open i then rest else rest + 1

free_stores_busy :
    (n i : ℕ) (r : Server)
    → ((j : ℕ) → i ≤ j → j < i + n → (r.is_allocated j || r.is_open j) ≡ true)
    → free_stores n i r ≡ 0
unfolding free_stores
free_stores_busy zero i r busy = refl
free_stores_busy (suc n) i r busy =
    rw (busy i (omega arith) (omega arith))
      (free_stores_busy n (i + 1) r (λ j a b. busy j (omega arith) (omega arith)))

free_stores-below :
    (n i id pages : ℕ) (r : Server)
    → id < i
    → free_stores n i (taken id pages r) ≡ free_stores n i r
unfolding free_stores
free_stores-below zero i id pages r lt = refl
free_stores-below (suc n) i id pages r lt =
    let other : (i == id) ≡ false = ground arith in
    rw (other, free_stores-below n (i + 1) id pages r (omega arith)) refl

free_stores-taken :
    (n i id pages : ℕ) (r : Server) → free_stores n i r ≤ free_stores n i (taken id pages r) + 1
unfolding free_stores
free_stores-taken zero i id pages r = omega arith
free_stores-taken (suc n) i id pages r = elim (Bool-cases (i == id)) [
  | inl e ↦
      let lt : id < i + 1 = ground arith in
      rw (e, free_stores-below n (i + 1) id pages r lt) (ground arith)
  | inr e ↦ rw e (ground (arith, free_stores-taken n (i + 1) id pages r))
]

-- The `n` pages from `first` on of `pid` have stores, in order, and all other pages are where they were.
pub record HeapMapped (pid first n : ℕ) (s s' : Paging) : Type 0 where
  pub store_map : IsStoreMap s'
  pub pages :
      (k b : ℕ)
      → k < n
      → b < page_size
      → (id : ℕ) × (get_store_offset pid ((first + k) * page_size + b) s'
          ≡ some (id, k % max_pages_per_bs))
  pub others :
      (pid' vaddr : ℕ)
      → (pid' ≢ pid) ⊎ ((vaddr / page_size < first) ⊎ (first + n ≤ vaddr / page_size))
      → get_store_offset pid' vaddr s' ≡ get_store_offset pid' vaddr s

Maps-HeapMapped :
    (id pid n vpn : ℕ) (s s' : Paging)
    → n ≤ max_pages_per_bs
    → Maps id pid n vpn s s'
    → HeapMapped pid (vpn + 4096) n s s'
Maps-HeapMapped id pid n vpn s s' le m = record {
  store_map = m.store_map;
  pages = λ k b kl bl.
      let same : k ≡ k % max_pages_per_bs = omega arith in
      (id, m.pages k b kl bl ∙ ap (λ o. some (id, o)) same);
  others = m.others;
}

-- 200 pages, and those behind them
HeapMapped-more :
    (pid first n : ℕ) (s s1 s' : Paging)
    → HeapMapped pid first max_pages_per_bs s s1
    → HeapMapped pid (first + max_pages_per_bs) n s1 s'
    → HeapMapped pid first (max_pages_per_bs + n) s s'
HeapMapped-more pid first n s s1 s' h r = record {
  store_map = r.store_map;
  pages = λ k b kl bl. elim (Bool-cases (ltb k max_pages_per_bs)) [
    | inl e ↦
        let p = h.pages k b (ground arith) bl in
        (p.0, r.others pid ((first + k) * page_size + b) (inr (inl (ground arith))) ∙ p.1)
    | inr e ↦ later k b kl bl (ground arith)
  ];
  others =
      λ pid' vaddr out. r.others pid' vaddr (ground arith) ∙ h.others pid' vaddr (ground arith);
}
  where
    later :
        (k b : ℕ)
        → k < max_pages_per_bs + n
        → b < page_size
        → max_pages_per_bs ≤ k
        → (id : ℕ) × (get_store_offset pid ((first + k) * page_size + b) s'
            ≡ some (id, k % max_pages_per_bs))
    later k b kl bl le =
        let p = r.pages (k - max_pages_per_bs) b (omega arith) bl in
        let at : first + max_pages_per_bs + (k - max_pages_per_bs) ≡ first + k = omega arith in
        let off : (k - max_pages_per_bs) % max_pages_per_bs ≡ k % max_pages_per_bs = omega arith in
        (
          p.0,
          subst
              (λ v. get_store_offset pid (v * page_size + b) s' ≡ some (p.0, k % max_pages_per_bs))
              at (p.1 ∙ ap (λ o. some (p.0, o)) off),
        )

-- The pages from `first` on of `pid` have no store.
abbrev pub Unmapped : ℕ → ℕ → ℕ → Paging → Type 0
Unmapped pid first n s = (k : ℕ) → k < n → get_store_offset pid ((first + k) * page_size) s ≡ none

-- One call of `bs_mapping`, while a store is free
map_step :
    (pid n vpn : ℕ) (s : Paging)
    → IsStoreMap s
    → IsServing s.server
    → 0 < n
    → n ≤ max_pages_per_bs
    → vpn + 4096 < 2 ^ 32
    → 0 < free_stores max_bs_entries 0 s.server
    → Unmapped pid (vpn + 4096) n s
    → (s' : Paging) × (bs_mapping pid n vpn s ≡ some (true, s'))
      × HeapMapped pid (vpn + 4096) n s s'
      × IsServing s'.server
      × (free_stores max_bs_entries 0 s.server ≤ free_stores max_bs_entries 0 s'.server + 1)
map_step pid n vpn s m r pos le small room free =
    elim (bs_mapping-Maps m pid n vpn pos le small r free) [
      | inl h ↦ (
        h.1,
        h.3,
        Maps-HeapMapped h.0 pid n vpn s h.1 le h.4,
        subst IsServing (sym h.4.server) (record { active = r.active; unlocked = r.unlocked }),
        subst (λ q. free_stores max_bs_entries 0 s.server ≤ free_stores max_bs_entries 0 q + 1)
            (sym h.4.server) (free_stores-taken max_bs_entries 0 h.0 n s.server),
      )
      | inr h ↦ absurd (
          omega (
            arith,
            free_stores_busy max_bs_entries 0 s.server (λ j a b. h.1 j (omega arith)),
            room,
          ))
    ]

-- The loop of vcreate that maps the heap: while there are stores for all of its pages, it returns, each
-- page of the heap has a page of a store, 200 in a store, and all other pages are where they were.
pub map_heap-HeapMapped :
    (fuel pid remain t : ℕ) (s : Paging)
    → IsStoreMap s
    → IsServing s.server
    → 0 < remain
    → remain ≤ fuel * max_pages_per_bs
    → remain ≤ max_pages_per_bs * free_stores max_bs_entries 0 s.server
    → t * max_pages_per_bs + 4096 + remain < 2 ^ 32
    → Unmapped pid (t * max_pages_per_bs + 4096) remain s
    → (s' : Paging) × (map_heap fuel pid remain t s ≡ some s')
      × HeapMapped pid (t * max_pages_per_bs + 4096) remain s s'
unfolding map_heap
map_heap-HeapMapped zero pid remain t s m r pos enough room small free = absurd (omega arith)
map_heap-HeapMapped (suc fuel) pid remain t s m r pos enough room small free =
    elim (Bool-cases (ltb max_pages_per_bs remain)) [
      | inr e ↦
          let b =
            map_step pid remain (t * max_pages_per_bs) s m r pos (ground arith) (omega arith)
              (omega arith) free in
          (b.0, rw (e, b.1) refl, b.2)
      | inl e ↦
          let b =
            map_step pid max_pages_per_bs (t * max_pages_per_bs) s m r (omega arith) (omega arith)
              (omega arith) (omega arith) (λ k kl. free k (ground arith)) in
          let next : (t + 1) * max_pages_per_bs + 4096
              ≡ t * max_pages_per_bs + 4096 + max_pages_per_bs =
            omega arith in
          let rest =
            map_heap-HeapMapped fuel pid (remain - max_pages_per_bs) (t + 1) b.0 b.2.store_map b.3
              (ground arith) (omega arith) (omega (arith, b.4)) (ground arith)
              (λ k kl. behind b.0 b.2 k (ground arith)) in
          let whole : max_pages_per_bs + (remain - max_pages_per_bs) ≡ remain = ground arith in
          (
            rest.0,
            rw (e, b.1) rest.1,
            subst (λ n. HeapMapped pid (t * max_pages_per_bs + 4096) n s rest.0) whole
                (HeapMapped-more pid (t * max_pages_per_bs + 4096) (remain - max_pages_per_bs) s b.0
                  rest.0 b.2
                  (subst (λ f. HeapMapped pid f (remain - max_pages_per_bs) b.0 rest.0) next
                    rest.2)),
          )
    ]
  where
    behind :
        (s1 : Paging)
        → HeapMapped pid (t * max_pages_per_bs + 4096) max_pages_per_bs s s1
        → (k : ℕ) → max_pages_per_bs + k < remain
        → get_store_offset pid (((t + 1) * max_pages_per_bs + 4096 + k) * page_size) s1 ≡ none
    behind s1 h k lt =
        let at : t * max_pages_per_bs + 4096 + (max_pages_per_bs + k)
            ≡ (t + 1) * max_pages_per_bs + 4096 + k =
          omega arith in
        h.others pid (((t + 1) * max_pages_per_bs + 4096 + k) * page_size) (inr (inr (omega arith)))
        ∙ subst (λ v. get_store_offset pid (v * page_size) s ≡ none) at
            (free (max_pages_per_bs + k) lt)
