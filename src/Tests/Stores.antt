-- ===== src/Tests/Stores.antt =====
-- The backing stores: one that is open on a server that runs.
use cs503_lab.Base.{
  ℕ, true, false, ◌≡◌, refl, ◌<◌, ◌≤◌, ◌+◌, ◌-◌, ◌^◌, ◌≢◌, ◌⊎◌, arith, ◌==◌, if◌then◌else◌, ◌||◌,
  some,
}
use cs503_lab.Config.{ok, syserr}
use cs503_lab.Backing.{
  Server, max_bs_entries, max_pages_per_bs, first_block, allocate_bs, deallocate_bs, open_bs,
  close_bs, read_bs, write_bs,
}
use cs503_lab.Backing.Pages.{Ready, read_bs-write_bs, write_bs_others}
use cs503_lab.Backing.Stores.{IsServing, taken, allocate_bs_lem, close_bs-early}

-- Store 2 is allocated, with 5 pages.
abbrev pub server : Server
server = record {
  active = true;
  is_open = λ i. i == 2;
  is_allocated = λ i. i == 2;
  use_count = λ i. 0;
  npages = λ i. if i == 2 then 5 else 0;
  bs_sem = 1;
  bs_init_sem = 1;
  disk = λ b o. 0;
  works = λ b. true;
  can_start = true;
}

server-Ready : Ready 2 4 server
server-Ready = record {
  active = refl;
  store = omega arith;
  opened = refl;
  page_in = omega arith;
  unlocked = omega arith;
  works = λ i il. refl;
}

server-IsServing : IsServing server
server-IsServing = record { active = refl; unlocked = omega arith }

read_bs-write_bs_example :
    (s' : Server) × (write_bs 8192 2 4 (λ x. x) server ≡ some (ok, s'))
    × ((mem' : ℕ → ℕ) × (read_bs 16384 2 4 s' (λ x. 0) ≡ some (ok, mem'))
        × ((o : ℕ) → o < 4096 → mem' (16384 + o) ≡ 8192 + o)
        × ((x : ℕ) → (x < 16384) ⊎ (16384 + 4096 ≤ x) → mem' x ≡ 0))
read_bs-write_bs_example = read_bs-write_bs server-Ready 8192 16384 (λ x. x) (λ x. 0)

write_bs_others_example :
    (s' : Server) × (write_bs 8192 2 4 (λ x. x) server ≡ some (ok, s'))
    × ((id' page' j o : ℕ)
        → page' < max_pages_per_bs
        → (id' ≢ 2) ⊎ (page' ≢ 4)
        → j < 8
        → s'.disk (first_block id' page' + j) o ≡ server.disk (first_block id' page' + j) o)
write_bs_others_example = write_bs_others server-Ready 8192 (λ x. x) (omega arith)

allocate_bs_lem_example :
    ((j : ℕ) × (0 ≤ j)
      × (j < 0 + max_bs_entries)
      × (server.is_allocated j ≡ false)
      × (server.is_open j ≡ false)
      × (allocate_bs 10 server ≡ some (j, taken j 10 server)))
    ⊎ ((allocate_bs 10 server ≡ some (syserr, server))
        × ((j : ℕ)
            → 0 ≤ j
            → j < 0 + max_bs_entries
            → (server.is_allocated j || server.is_open j) ≡ true))
allocate_bs_lem_example = allocate_bs_lem server-IsServing 10 (omega arith) (omega arith)

close_bs-early_example :
    (s1 : Server) × (s2 : Server) × (s3 : Server) × (close_bs 2 server ≡ some (2, s1))
    × (s1.use_count 2 ≡ 2 ^ 32 - 1)
    × (open_bs 2 s1 ≡ some (2, s2))
    × (s2.use_count 2 ≡ 0)
    × (deallocate_bs 2 s2 ≡ some (2, s3))
    × ((s3.is_open 2 || s3.is_allocated 2) ≡ false)
close_bs-early_example = close_bs-early server-IsServing 2 (omega arith) refl refl refl
