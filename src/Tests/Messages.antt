-- ===== src/Tests/Messages.antt =====
-- A port with one message, and a pool with two buffers.
use cs503_lab.Base.{ℕ, ◌+◌, ◌≡◌, refl, [], ◌∷◌, ◌++◌, arith, ◌==◌, if◌then◌else◌, some, false, bias}
use cs503_lab.Config.{ok}
use cs503_lab.Ports.{Ports, PortState, is_closed, ptsend_rest, ptrecv_rest, ptreset}
use cs503_lab.Ports.Lists.{Stores, Holds}
use cs503_lab.Ports.Send.{ptsend_rest-Stores}
use cs503_lab.Ports.Receive.{ptrecv_rest-Stores}
use cs503_lab.Ports.Clear.{Reset, ptreset-Stores}
use cs503_lab.Kernel.{Kernel}
use cs503_lab.Semaphore.{signal}
use cs503_lab.Buffers.{Pools, is_bad_pool, getbuf_rest, freebuf}
use cs503_lab.Buffers.Return.{freebuf-getbuf_rest}
use cs503_lab.Tests.Kernels.{boot}

-- Port 3 holds message 7 in the node at 100; the nodes at 108 and 116 are free.
abbrev ports : Ports
ports = record {
  kernel = boot;
  ptfree = 108;
  ptmsg = λ a. 7;
  ptnext = λ a. if a == 108 then 116 else 0;
  ssem = λ i. 0;
  rsem = λ i. 1;
  state = λ i. PortState.alloc;
  maxcnt = λ i. 2;
  seq = λ i. 1;
  head = λ i. if i == 3 then 100 else 0;
  tail = λ i. if i == 3 then 100 else 0;
  ptnextid = 4;
}

ports-Holds : Holds ports 3 (100 ∷ []) (108 ∷ 116 ∷ [])
ports-Holds = record {
  queue = (refl, ground arith, refl);
  last = refl;
  frees = (refl, ground arith, (refl, ground arith, refl));
  distinct = (refl, tt);
  distinct_free = (refl, (refl, tt));
  apart = λ a m. ground arith;
}

abbrev ports-Stores : Stores ports 3 (7 ∷ []) (108 ∷ 116 ∷ [])
ports-Stores = record { nodes = 100 ∷ []; holds = ports-Holds; same = refl }

ports_open : is_closed ports 3 ≡ false
unfolding bias
ports_open = ground arith

-- Message 9 follows message 7.
ptsend_rest-Stores_example :
    (t' : Ports) × (ptsend_rest 3 9 1 ok ports ≡ some (ok, t'))
    × (t'.kernel ≡ (signal 1 boot).1)
    × Stores t' 3 ((7 ∷ []) ++ 9 ∷ []) (116 ∷ [])
ptsend_rest-Stores_example = ptsend_rest-Stores 1 ok (ground arith) refl 9 ports-Stores

-- Message 7 is received, and its node is free.
ptrecv_rest-Stores_example :
    ((ptrecv_rest 3 1 ok ports).0 ≡ 7)
    × ((ptrecv_rest 3 1 ok ports).1.kernel ≡ (signal 0 boot).1)
    × Stores (ptrecv_rest 3 1 ok ports).1 3 [] (100 ∷ 108 ∷ 116 ∷ [])
ptrecv_rest-Stores_example = ptrecv_rest-Stores 1 ok (ground arith) refl ports-Stores

-- `dispose` signals semaphore 0 and adds up what it gets.
abbrev add_up : ℕ → Kernel × ℕ → Kernel × ℕ
add_up m s = ((signal 0 s.0).1, s.1 + m)

-- Port 3 is reset.
ptreset-Stores_example :
    (t' : Ports) × (ptreset add_up 3 ports 5 ≡ some (ok, t', 12))
    × Reset 3 (signal 0 boot).1 ((100 ∷ []) ++ 108 ∷ 116 ∷ []) ports t'
ptreset-Stores_example = ptreset-Stores add_up ports 3 5 ports_open ports-Stores (omega arith)

-- Pool 0 has the buffers at 200 and 220.
abbrev pools : Pools
pools = record {
  kernel = boot;
  bpnext = λ i. 200;
  bpsem = λ i. 0;
  bpsize = λ i. 16;
  nbpools = 1;
  word = λ a. if a == 200 then 220 else 0;
}

pool_known : is_bad_pool pools 0 ≡ false
unfolding bias
pool_known = refl

freebuf-getbuf_rest_example :
    freebuf (getbuf_rest 0 pools).0 (getbuf_rest 0 pools).1
    ≡ (ok, record pools { kernel = (signal 0 boot).1 })
freebuf-getbuf_rest_example = freebuf-getbuf_rest pools 0 (omega arith) pool_known
