-- ===== src/Tests/Faults.antt =====
-- The start of paging, the map of the stores, page faults, and the clock algorithm's last page.
use cs503_lab.Base.{
  ℕ, ◌+◌, ◌*◌, ◌^◌, ◌≤◌, ◌<◌, ◌≡◌, refl, ◌⊎◌, inr, ◌||◌, true, false, not, [], ◌∷◌, ◌++◌, arith,
  none, some, ltb, sub32,
}
use cs503_lab.Frames.{fifo_tail, FrameUse, is_null_page, nframes}
use cs503_lab.Frames.Claim.{IsFrames}
use cs503_lab.Backing.{max_id, first_block}
use cs503_lab.Backing.Pages.{Written}
use cs503_lab.Backing.Stores.{IsServing}
use cs503_lab.Paging.{Paging, page_size, fifo, gca, get_store_offset, find_store, bs_mapping}
use cs503_lab.Paging.StoreMap.{IsStoreMap, Maps, bs_mapping-Maps}
use cs503_lab.Paging.Replace.{turn, choose, get_free_frame_number}
use cs503_lab.Paging.Replace.Clock.{ClockReady}
use cs503_lab.Paging.Replace.Evict.{Evictable}
use cs503_lab.Config.{syserr}
use cs503_lab.Paging.Replace.Stuck.{get_free_frame_number-newest}
use cs503_lab.Paging.Fault.{page_fault, initialize_paging}
use cs503_lab.Paging.Fault.Start.{Direct, initialize_paging-Direct}
use cs503_lab.Paging.Fault.Serve.{Served, Reachable}
use cs503_lab.Paging.Fault.Handle.{Counted, page_fault-Served}
use cs503_lab.Paging.Fault.Swap.{page_fault-Swapped}
use cs503_lab.Tests.Stores.{server}
use cs503_lab.Tests.Pages.{
  first-Evictable, first-Expected, machine-Full, machine, frames, machine-IsFrames, server-pages,
  alive,
}

initialize_paging-Direct_example :
    IsFrames (initialize_paging (machine 8 fifo)).frames []
    × ((i : ℕ)
        → i < nframes
        → is_null_page ((initialize_paging (machine 8 fifo)).frames.use_of i) ≡ not (ltb i 6))
    × ((initialize_paging (machine 8 fifo)).kernel.cr3
        ≡ (initialize_paging (machine 8 fifo)).kernel.procs.pdbr 0)
    × ((vaddr : ℕ)
        → (vaddr < 2 ^ 24) ⊎ ((576 * 2 ^ 22 ≤ vaddr) × (vaddr < 577 * 2 ^ 22))
        → Direct vaddr (initialize_paging (machine 8 fifo)))
    × (((j : ℕ) → server.is_allocated j ≡ false) → IsStoreMap (initialize_paging (machine 8 fifo)))
initialize_paging-Direct_example = initialize_paging-Direct (machine 8 fifo)

pub machine-IsStoreMap : IsStoreMap (machine 8 fifo)
machine-IsStoreMap = record { in_use = λ j jl. refl; unused = λ j jl e. ground arith }

pub serving : IsServing server
serving = record { active = refl; unlocked = omega arith }

no_store : (k : ℕ) → get_store_offset 4 ((0 + 4096 + k) * page_size) (machine 8 fifo) ≡ none
unfolding get_store_offset find_store
no_store k = refl

bs_mapping-Maps_example :
    ((id : ℕ) × (s' : Paging) × (server.is_allocated id ≡ false)
      × (bs_mapping 4 3 0 (machine 8 fifo) ≡ some (true, s'))
      × Maps id 4 3 0 (machine 8 fifo) s')
    ⊎ (((s' : Paging) × (bs_mapping 4 3 0 (machine 8 fifo)
            ≡ some (not ((machine 8 fifo).if_map syserr), s'))
          × ((pid vaddr : ℕ)
              → get_store_offset pid vaddr s' ≡ get_store_offset pid vaddr (machine 8 fifo)))
        × ((j : ℕ) → j ≤ max_id → (server.is_allocated j || server.is_open j) ≡ true))
bs_mapping-Maps_example =
    bs_mapping-Maps machine-IsStoreMap 4 3 0 (omega arith) (omega arith) (omega arith) serving
      (λ k kl. no_store k)

-- The third page of the heap
third-Reachable : (used : ℕ) → Reachable 2 2 0x100_2011 6 (machine used fifo)
unfolding get_store_offset find_store
third-Reachable used = record {
  small = omega arith;
  above = omega arith;
  below = omega arith;
  directory = record { pdbr = refl; frame = omega arith };
  mapped = refl;
  store = server-pages 2 (omega arith);
  alive = alive used fifo;
  free = omega arith;
}

page_fault-Served_example :
    (f : ℕ) × (s' : Paging) × (page_fault 0x100_2011 (machine 8 fifo) ≡ some s')
    × (is_null_page ((frames 8).use_of f) ≡ true)
    × Served f 2 2 0x100_2011 (machine 8 fifo) s' (48 ∷ 49 ∷ [])
    × Counted (machine 8 fifo) s'
unfolding sub32
page_fault-Served_example =
    page_fault-Served (third-Reachable 8) (omega arith) (48 ∷ 49 ∷ []) (machine-IsFrames 8) refl
      (λ p. (omega arith, omega arith)) 10 20 (omega arith) (omega arith) (omega arith) refl refl

-- The hand stands at the newest page, in frame 49, and no frame is unused.
abbrev at_newest : Paging
at_newest = record (machine 48 gca) { frames = record (frames 48) { fifo_hand = 49 } }

at_newest-ready : ClockReady at_newest ((48 ∷ []) ++ 49 ∷ [])
at_newest-ready = record {
  queue = record {
    lined = record {
      chain = ((refl, refl), ((refl, refl), ((refl, refl), tt)));
      distinct = (refl, (refl, tt));
      frames = λ i m. ground arith;
    };
    pages = λ i lt. ground arith;
    numbers = λ i lt. refl;
  };
  policy = refl;
  hand = inr refl;
  accessed = λ i m d. absurd (cc);
}

newest-Evictable : Evictable 49 at_newest 2 1
unfolding get_store_offset find_store sub32
newest-Evictable = record {
  mapped = refl;
  store = server-pages 1 (omega arith);
  in_table = omega arith;
  table = refl;
}

get_free_frame_number-newest_example :
    (s' : Paging) × (get_free_frame_number 3 4098 FrameUse.page at_newest ≡ some (49, s'))
    × (s'.frames.fifo_hand ≡ fifo_tail)
    × (s'.get_frame_sem ≡ 1)
    × (choose s' ≡ none)
    × ((n : ℕ) → turn n s' ≡ none)
get_free_frame_number-newest_example =
    get_free_frame_number-newest (48 ∷ []) at_newest-ready (machine-Full gca) refl refl 3 4098
      FrameUse.page (omega arith) (alive 48 gca) newest-Evictable

-- With no frame unused the first page makes room for the third.
page_fault-Swapped_example :
    (s' : Paging) × (page_fault 0x100_2011 (machine 48 fifo) ≡ some s')
    × Served 48 2 2 0x100_2011 (machine 48 fifo) s' (49 ∷ [])
    × Written 8 (first_block 2 0) ((48 + 1024) * page_size) (machine 48 fifo).mem server s'.server
    × Counted (machine 48 fifo) s'
unfolding sub32
page_fault-Swapped_example =
    page_fault-Swapped (third-Reachable 48) (machine-IsFrames 48) (first-Evictable fifo)
      (omega arith) (machine-Full fifo) refl (first-Expected fifo) refl 7 refl (omega arith)
      (omega arith) refl refl (omega arith) (omega arith) (inr (omega arith))
