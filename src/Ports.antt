-- ===== src/Ports.antt =====
-- Message ports: system/pt*.c. A call that waits is two functions, up to `wait` and from there on.

use cs503_lab.Base.{
  ℕ, zero, suc, ◌+◌, ◌*◌, ◌-◌, ◌^◌, ◌%◌, ◌||◌, ◌&&◌, Bool, true, false, not, ◌==◌, if◌then◌else◌,
  List, [], ◌∷◌, Option, none, some, slt, sge, leb, ltb, add32, sub32, put,
}
use cs503_lab.Config.{ok, syserr}
use cs503_lab.Kernel.{Kernel}
use cs503_lab.Memory.{Mem, getmem}
use cs503_lab.Semaphore.{wait, signal, semcreate, semreset, semdelete, semcount}
pub mod Lists
pub mod Send
pub mod Receive
pub mod Clear

abbrev pub nports : ℕ
nports = 30

-- PT_FREE, PT_LIMBO and PT_ALLOC
pub data PortState : Type 0 where
  free limbo alloc : PortState

abbrev pub is_alloc : PortState → Bool
is_alloc PortState.alloc = true
is_alloc _ = false

abbrev pub is_free_port : PortState → Bool
is_free_port PortState.free = true
is_free_port _ = false

pub record Ports : Type 0 where
  pub kernel : Kernel
  -- `ptfree`, and `ptmsg` and `ptnext` of the node at each address
  pub ptfree : ℕ
  pub ptmsg : ℕ → ℕ
  pub ptnext : ℕ → ℕ
  -- `porttab`, and `ptnextid`
  pub ssem : ℕ → ℕ
  pub rsem : ℕ → ℕ
  pub state : ℕ → PortState
  pub maxcnt : ℕ → ℕ
  pub seq : ℕ → ℕ
  pub head : ℕ → ℕ
  pub tail : ℕ → ℕ
  pub ptnextid : ℕ

-- `isbadport`, and the test of the state that follows it
abbrev pub is_bad_port : ℕ → Bool
is_bad_port portid = slt portid 0 || sge portid nports

abbrev pub is_closed : Ports → ℕ → Bool
is_closed t portid = is_bad_port portid || not (is_alloc (t.state portid))

-- `curr->ptnext = ++next`, `n` times, for nodes of two words, and NULL in the last one
pub link_free : ℕ → ℕ → Ports → Ports
link_free zero curr t = record t { ptnext = put t.ptnext curr 0 }
link_free (suc n) curr t =
    link_free n (curr + 8) (record t { ptnext = put t.ptnext curr (curr + 8) })

-- `ptinit` for `maxmsgs` > 0 messages; it panics if there is no memory for them.
pub ptinit : ℕ → Ports → Mem → Option (ℕ × Ports × Mem)
ptinit maxmsgs t m =
    let (a, m1) = getmem (maxmsgs * 8 % 2 ^ 32) m in
    if a == syserr
    then none
    else some (
      ok,
      link_free (maxmsgs - 1) a (record t {
        ptfree = a;
        state = λ i. if ltb i nports then PortState.free else t.state i;
        seq = λ i. if ltb i nports then 0 else t.seq i;
        ptnextid = 0;
      }),
      m1,
    )

-- The entry that `ptcreate` fills, with its semaphores
pub open_port : ℕ → ℕ → Ports → Ports
open_port ptnum count t =
    let (s, k1) = semcreate count t.kernel in
    let (r, k2) = semcreate 0 k1 in
    record t {
      kernel = k2;
      state = put t.state ptnum PortState.alloc;
      ssem = put t.ssem ptnum s;
      rsem = put t.rsem ptnum r;
      head = put t.head ptnum 0;
      tail = put t.tail ptnum 0;
      seq = put t.seq ptnum (add32 (t.seq ptnum) 1);
      maxcnt = put t.maxcnt ptnum (count % 2 ^ 16);
    }

-- `ptcreate`'s loop, `n` entries from `ptnextid` on
pub try_ports : ℕ → ℕ → Ports → ℕ × Ports
try_ports zero count t = (syserr, t)
try_ports (suc n) count t =
    let ptnum = t.ptnextid in
    let t1 = record t { ptnextid = if leb nports (ptnum + 1) then 0 else ptnum + 1 } in
    let further = try_ports n count t1 in
    if is_free_port (t1.state ptnum) then (ptnum, open_port ptnum count t1) else further

pub ptcreate : ℕ → Ports → ℕ × Ports
ptcreate count t = if slt count 0 then (syserr, t) else try_ports nports count t

-- `ptsend` and `ptrecv` up to `wait(sem)`: the result of `wait`, and the port's sequence number
abbrev pub wait_port : (ℕ → ℕ) → ℕ → Ports → ℕ × Ports
wait_port sem portid t =
    if is_closed t portid
    then (syserr, t)
    else (let (r, k) = wait (sem portid) t.kernel in (r, record t { kernel = k }))

-- The test that follows: was the port deleted or reset since its number was `seq`?
abbrev pub was_reset : ℕ → ℕ → Ports → Bool
was_reset portid seq t = not (is_alloc (t.state portid)) || not (t.seq portid == seq)

-- A node from the free list goes to the end of the port's list; there is none left if `ptfree` is NULL.
pub put_msg : ℕ → ℕ → Ports → Option Ports
put_msg portid msg t =
    let node = t.ptfree in
    let t1 = record t {
      ptfree = t.ptnext node;
      ptnext = put t.ptnext node 0;
      ptmsg = put t.ptmsg node msg;
    } in
    let tailnode = t1.tail portid in
    if node == 0
    then none
    else if tailnode == 0
    then some (record t1 { head = put t1.head portid node; tail = put t1.tail portid node })
    else some (record t1 { ptnext = put t1.ptnext tailnode node; tail = put t1.tail portid node })

-- The first node of the port's list goes back to the free list.
pub take_msg : ℕ → Ports → ℕ × Ports
take_msg portid t =
    let node = t.head portid in
    let t1 =
      if t.head portid == t.tail portid
      then record t { head = put t.head portid 0; tail = put t.tail portid 0 }
      else record t { head = put t.head portid (t.ptnext node) } in
    (t.ptmsg node, record t1 { ptnext = put t1.ptnext node t1.ptfree; ptfree = node })

abbrev pub signal_port : ℕ → Ports → Ports
signal_port sem t = record t { kernel = (signal sem t.kernel).1 }

pub ptsend_wait : ℕ → Ports → ℕ × Ports
ptsend_wait portid t = wait_port t.ssem portid t

-- The rest of `ptsend`, after `wait` returned `r`
pub ptsend_rest : ℕ → ℕ → ℕ → ℕ → Ports → Option (ℕ × Ports)
ptsend_rest portid msg seq r t =
    if r == syserr || was_reset portid seq t
    then some (syserr, t)
    else elim (put_msg portid msg t) [
      | none ↦ none
      | some t1 ↦ some (ok, signal_port (t1.rsem portid) t1)
    ]

pub ptrecv_wait : ℕ → Ports → ℕ × Ports
ptrecv_wait portid t = wait_port t.rsem portid t

pub ptrecv_rest : ℕ → ℕ → ℕ → Ports → ℕ × Ports
ptrecv_rest portid seq r t =
    if r == syserr || was_reset portid seq t
    then (syserr, t)
    else (let (msg, t1) = take_msg portid t in (msg, signal_port (t1.ssem portid) t1))

-- The port's messages go to the free list.
pub drop_msgs : ℕ → Ports → Ports
drop_msgs portid t =
    if t.head portid == 0
    then t
    else record t { ptnext = put t.ptnext (t.tail portid) t.ptfree; ptfree = t.head portid }

-- No list has more nodes than there are addresses.
abbrev pub walk_max : ℕ
walk_max = 2 ^ 32

-- `_ptclear`'s loop: `dispose` gets each message from the node `walk` on. It changes the kernel and the
-- data of its own; the loop does not end if NULL is not reached.
pub dispose_msgs :
    {D : Type 0}
    → (ℕ → Kernel × D → Kernel × D)
    → (ℕ → ℕ)
    → (ℕ → ℕ)
    → ℕ
    → ℕ
    → Kernel × D
    → Option (Kernel × D)
dispose_msgs dispose ptmsg ptnext zero walk s = none
dispose_msgs dispose ptmsg ptnext (suc n) walk s =
    let rest = dispose_msgs dispose ptmsg ptnext n (ptnext walk) (dispose (ptmsg walk) s) in
    if walk == 0 then some s else rest

-- The end of `_ptclear`, with the messages on the free list
pub end_clear : ℕ → PortState → Ports → Ports
end_clear portid newstate t =
    let t1 =
      if is_alloc newstate
      then record t {
        head = put t.head portid 0;
        tail = put t.tail portid 0;
        kernel =
            (semreset (t.rsem portid) 0 (semreset (t.ssem portid) (t.maxcnt portid) t.kernel).1).1;
      }
      else record t {
        kernel = (semdelete (t.rsem portid) (semdelete (t.ssem portid) t.kernel).1).1;
      } in
    record t1 { state = put t1.state portid newstate }

-- `_ptclear`, with `dispose` and its data `d`
pub ptclear :
    {D : Type 0} → (ℕ → Kernel × D → Kernel × D) → ℕ → PortState → Ports → D → Option (Ports × D)
ptclear dispose portid newstate t d =
    let t1 = record t {
      state = put t.state portid PortState.limbo;
      seq = put t.seq portid (add32 (t.seq portid) 1);
    } in
    elim (dispose_msgs dispose t1.ptmsg t1.ptnext walk_max (t1.head portid) (t1.kernel, d)) [
      | none ↦ none
      | some s ↦
          some (end_clear portid newstate (drop_msgs portid (record t1 { kernel = s.0 })), s.1)
    ]

pub ptdelete : {D : Type 0} → (ℕ → Kernel × D → Kernel × D) → ℕ → Ports → D → Option (ℕ × Ports × D)
ptdelete disp portid t d =
    if is_closed t portid
    then some (syserr, t, d)
    else elim (ptclear disp portid PortState.free t d) [
      | none ↦ none
      | some r ↦ some (ok, record (r.0) { ptnextid = portid }, r.1)
    ]

pub ptreset : {D : Type 0} → (ℕ → Kernel × D → Kernel × D) → ℕ → Ports → D → Option (ℕ × Ports × D)
ptreset disp portid t d =
    if is_closed t portid
    then some (syserr, t, d)
    else elim (ptclear disp portid PortState.alloc t d) [
      | none ↦ none
      | some r ↦ some (ok, r.0, r.1)
    ]

-- The messages, and the senders that wait if any do
pub ptcount : ℕ → Ports → ℕ
ptcount portid t =
    let count = semcount (t.rsem portid) t.kernel in
    let senders = semcount (t.ssem portid) t.kernel in
    if is_closed t portid
    then syserr
    else if slt count 0
    then count
    else if slt senders 0
    then add32 count (sub32 0 senders)
    else count
