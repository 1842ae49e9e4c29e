-- ===== src/Buffers.antt =====
-- Buffer pools: system/bufinit.c, mkbufpool.c, getbuf.c, freebuf.c. `getbuf` waits for a buffer: it is a
-- function up to `wait` and one from there on.
use cs503_lab.Base.{
  ℕ, zero, suc, ◌+◌, ◌*◌, ◌-◌, ◌%◌, ◌<◌, ◌^◌, ◌≡◌, refl, ◌||◌, Bool, false, ◌==◌, if◌then◌else◌,
  slt, sge, leb, ltb, add32, sub32, put, arith,
}
use cs503_lab.Config.{ok, syserr}
use cs503_lab.Kernel.{Kernel}
use cs503_lab.Memory.{Mem, getmem}
use cs503_lab.Semaphore.{wait, signal, semcreate}
pub mod Return

abbrev pub nbpools_max : ℕ
nbpools_max = 20

abbrev pub bp_minb : ℕ
bp_minb = 8

abbrev pub bp_maxb : ℕ
bp_maxb = 8192

abbrev pub bp_maxn : ℕ
bp_maxn = 2048

pub record Pools : Type 0 where
  pub kernel : Kernel
  -- `buftab`
  pub bpnext : ℕ → ℕ
  pub bpsem : ℕ → ℕ
  pub bpsize : ℕ → ℕ
  pub nbpools : ℕ
  -- The word at each address of the buffers: the next free buffer, or the pool of one that is in use
  pub word : ℕ → ℕ

abbrev pub is_bad_pool : Pools → ℕ → Bool
is_bad_pool s poolid = slt poolid 0 || sge poolid s.nbpools

pub bufinit : Pools → ℕ × Pools
bufinit s = (ok, record s { nbpools = 0 })

-- `mkbufpool`'s loop over the `n` buffers behind the one at `buf`, and NULL in the last one
pub link_bufs : ℕ → ℕ → ℕ → (ℕ → ℕ) → ℕ → ℕ
link_bufs zero bufsiz buf word = put word buf 0
link_bufs (suc n) bufsiz buf word =
    link_bufs n bufsiz (add32 buf bufsiz) (put word buf (add32 buf bufsiz))

-- The pool's entry; the memory is lost if there is no semaphore.
pub enter_pool : ℕ → ℕ → ℕ → Pools → ℕ × Pools
enter_pool bufsiz numbufs buf s =
    let poolid = s.nbpools in
    let (sem, k) = semcreate numbufs s.kernel in
    let s1 = record s {
      kernel = k;
      bpnext = put s.bpnext poolid buf;
      bpsize = put s.bpsize poolid bufsiz;
      bpsem = put s.bpsem poolid sem;
    } in
    if sem == syserr then (syserr, s1) else (
      poolid,
      record s1 {
        nbpools = add32 poolid 1;
        word = link_bufs (numbufs - 1) (bufsiz + 4) buf s1.word;
      },
    )

pub mkbufpool : ℕ → ℕ → Pools → Mem → ℕ × Pools × Mem
mkbufpool bufsiz numbufs s m =
    let rounded = (bufsiz + 3) - (bufsiz + 3) % 4 in
    let (buf, m1) = getmem (numbufs * (rounded + 4)) m in
    let (r, s1) = enter_pool rounded numbufs buf s in
    if slt bufsiz bp_minb
      || slt bp_maxb bufsiz
      || slt numbufs 1
      || slt bp_maxn numbufs
      || sge s.nbpools nbpools_max
    then (syserr, s, m)
    else if buf == syserr
    then (syserr, s, m1)
    else (r, s1, m1)

-- `getbuf` up to `wait`, whose result it does not use
pub getbuf_wait : ℕ → Pools → ℕ × Pools
getbuf_wait poolid s =
    if is_bad_pool s poolid
    then (syserr, s)
    else (let (r, k) = wait (s.bpsem poolid) s.kernel in (r, record s { kernel = k }))

pub getbuf_rest : ℕ → Pools → ℕ × Pools
getbuf_rest poolid s =
    let bufptr = s.bpnext poolid in
    (
      add32 bufptr 4,
      record s { bpnext = put s.bpnext poolid (s.word bufptr); word = put s.word bufptr poolid },
    )

pub freebuf : ℕ → Pools → ℕ × Pools
freebuf bufaddr s =
    let buf = sub32 bufaddr 4 in
    let poolid = s.word buf in
    if is_bad_pool s poolid then (syserr, s) else (
      ok,
      record s {
        word = put s.word buf (s.bpnext poolid);
        bpnext = put s.bpnext poolid buf;
        kernel = (signal (s.bpsem poolid) s.kernel).1;
      },
    )
