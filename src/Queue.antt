-- ===== src/Queue.antt =====
-- The queue table of system/queue.c, insert.c, insertd.c, getitem.c and newqueue.c. An index is an
-- `int32` pattern; a `qid16` holds indices below NQENT and EMPTY only, which the narrowing keeps.
pub mod Chain
pub mod Links
pub mod Contents
pub mod Remove
pub mod Ends
pub mod Enqueue
pub mod Insert
pub mod Delta
pub mod Create
use cs503_lab.Base.{
  ℕ, zero, suc, ◌+◌, ◌%◌, ◌^◌, ◌-◌, ◌||◌, ◌&&◌, Bool, not, ltb, leb, ◌==◌, if◌then◌else◌, slt, sge,
  sub32, put,
}
use cs503_lab.Config.{nproc, nqent, ok, syserr, empty, max_key, min_key, ProcTab, is_bad_pid}

-- `queuetab`, field by field
pub record QTab : Type 0 where
  pub key : ℕ → ℕ
  pub next : ℕ → ℕ
  pub prev : ℕ → ℕ

abbrev pub set_next : ℕ → ℕ → QTab → QTab
set_next i v t = record t { next = put t.next i v }

abbrev pub set_prev : ℕ → ℕ → QTab → QTab
set_prev i v t = record t { prev = put t.prev i v }

abbrev pub set_key : ℕ → ℕ → QTab → QTab
set_key i v t = record t { key = put t.key i v }

abbrev pub tail_of : ℕ → ℕ
tail_of q = q + 1

-- `firstid`, `isempty` and `isbadqid`
abbrev pub first_id : QTab → ℕ → ℕ
first_id t q = t.next q

abbrev pub is_empty : QTab → ℕ → Bool
is_empty t q = sge (first_id t q) nproc

abbrev pub is_bad_qid : ℕ → Bool
is_bad_qid q = slt q 0 || sge q (nqent - 1)

-- getitem.c: `getitem` unlinks a process, wherever it stands.
unfoldable pub getitem : ℕ → QTab → ℕ × QTab
getitem pid t =
    let next = t.next pid in
    let prev = t.prev pid in (pid, set_prev next prev (set_next prev next t))

unfoldable pub getfirst : ℕ → QTab → ℕ × QTab
unfolding getitem
getfirst q t = if is_empty t q then (empty, t) else getitem (t.next q) t

unfoldable pub getlast : ℕ → QTab → ℕ × QTab
unfolding getitem
getlast q t = if is_empty t q then (empty, t) else getitem (t.prev (tail_of q)) t

-- queue.c
unfoldable pub enqueue : ProcTab → ℕ → ℕ → QTab → ℕ × QTab
enqueue procs pid q t =
    if is_bad_qid q || is_bad_pid procs pid
    then (syserr, t)
    else let tail = tail_of q in
      let prev = t.prev tail in
      (pid, set_prev tail pid (set_next prev pid (set_prev pid prev (set_next pid tail t))))

clear_links : ℕ × QTab → ℕ × QTab
clear_links (pid, t) = (pid, set_next pid empty (set_prev pid empty t))

unfoldable pub dequeue : ℕ → QTab → ℕ × QTab
unfolding getfirst clear_links
dequeue q t =
    if is_bad_qid q
    then (syserr, t)
    else if is_empty t q
    then (empty, t)
    else clear_links (getfirst q t)

-- insert.c: `while (queuetab[curr].qkey >= key) curr = queuetab[curr].qnext`. The fuel is the size
-- of the table.
unfoldable pub seek : QTab → ℕ → ℕ → ℕ → ℕ
seek t key zero at = at
seek t key (suc fuel) at =
    let further = seek t key fuel (t.next at) in if sge (t.key at) key then further else at

unfoldable pub insert : ProcTab → ℕ → ℕ → ℕ → QTab → ℕ × QTab
unfolding seek
insert procs pid q key t =
    if is_bad_qid q || is_bad_pid procs pid
    then (syserr, t)
    else let at = seek t key nqent (first_id t q) in
      let prev = t.prev at in
      (
        ok,
        set_prev at pid
            (set_next prev pid (set_key pid key (set_prev pid prev (set_next pid at t)))),
      )

-- insertd.c: walks down the delta list, taking each delay off the key.
pub seek_delay : QTab → ℕ → ℕ → ℕ → ℕ → ℕ → ℕ × ℕ × ℕ
seek_delay t q zero prev next key = (prev, next, key)
seek_delay t q (suc fuel) prev next key =
    let further = seek_delay t q fuel next (t.next next) (sub32 key (t.key next)) in
    if not (next == tail_of q) && not (slt key (t.key next)) then further else (prev, next, key)

place_delay : ℕ → ℕ → ℕ × ℕ × ℕ → QTab → QTab
place_delay pid q (prev, next, key) t =
    let t' =
      set_prev next pid
        (set_next prev pid (set_key pid key (set_prev pid prev (set_next pid next t)))) in
    if next == tail_of q then t' else set_key next (sub32 (t'.key next) key) t'

unfoldable pub insertd : ProcTab → ℕ → ℕ → ℕ → QTab → ℕ × QTab
unfolding seek_delay place_delay
insertd procs pid q key t =
    if is_bad_qid q || is_bad_pid procs pid
    then (syserr, t)
    else (ok, place_delay pid q (seek_delay t q nqent q (first_id t q) key) t)

-- newqueue.c: the first component of the state is its static `nextqid`.
unfoldable pub newqueue : ℕ → QTab → ℕ × ℕ × QTab
newqueue next_qid t =
    if ltb nqent next_qid
    then (syserr, next_qid, t)
    else let q = next_qid in
      let t1 = set_key q max_key (set_prev q empty (set_next q (tail_of q) t)) in
      let t2 =
        set_key (tail_of q) min_key (set_prev (tail_of q) q (set_next (tail_of q) empty t1)) in
      (q, next_qid + 2, t2)

-- The calls of `newqueue` that sysinit (one for each semaphore, and the ready list) and clkinit
-- (the sleep queue) make.
pub newqueues : ℕ → ℕ → QTab → ℕ × QTab
newqueues zero next t = (next, t)
newqueues (suc n) next t = let (q, next', t') = newqueue next t in newqueues n next' t'
