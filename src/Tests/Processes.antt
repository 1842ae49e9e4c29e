-- ===== src/Tests/Processes.antt =====
-- The heap of a new process, and the frames of one that ends.
use cs503_lab.Base.{ℕ, ◌+◌, ◌*◌, ◌≡◌, refl, arith, none, some}
use cs503_lab.Backing.{max_bs_entries}
use cs503_lab.Paging.{Paging, fifo, page_size, get_store_offset, find_store}
use cs503_lab.Vprocess.{map_heap}
use cs503_lab.Vprocess.Heap.{HeapMapped, free_stores, map_heap-HeapMapped}
use cs503_lab.Tests.Stores.{server}
use cs503_lab.Tests.Pages.{machine}
use cs503_lab.Tests.Faults.{machine-IsStoreMap, serving}

seven_free : free_stores max_bs_entries 0 server ≡ 7
unfolding free_stores
seven_free = refl

nothing_yet :
    (k : ℕ) → get_store_offset 4 ((0 * 200 + 4096 + k) * page_size) (machine 8 fifo) ≡ none
unfolding get_store_offset find_store
nothing_yet k = refl

-- Process 4 gets a heap of 300 pages, in two stores.
map_heap-HeapMapped_example :
    (s' : Paging) × (map_heap 2 4 300 0 (machine 8 fifo) ≡ some s')
    × HeapMapped 4 (0 * 200 + 4096) 300 (machine 8 fifo) s'
map_heap-HeapMapped_example =
    map_heap-HeapMapped 2 4 300 0 (machine 8 fifo) machine-IsStoreMap serving (omega arith)
      (omega arith) (omega (arith, seven_free)) (omega arith) (λ k kl. nothing_yet k)
