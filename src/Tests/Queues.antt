-- ===== src/Tests/Queues.antt =====
-- The queue operations on the tables that sysinit makes and on ones with a few processes.
use cs503_lab.Base.{
  ℕ, true, false, List, [], ◌∷◌, ◌≡◌, refl, ap, ◌<◌, ◌+◌, arith, ◌≢◌, ◌==◌, if◌then◌else◌, put, slt,
  bias,
}
use cs503_lab.Config.{nproc, nsem, nqent, ok, is_bad_pid, min_key}
use cs503_lab.Queue.{QTab, insert, insertd, dequeue, enqueue, getfirst, newqueues}
use cs503_lab.Queue.Contents.{IsQid, Holds}
use cs503_lab.Queue.Remove.{getfirst-take_first}
use cs503_lab.Queue.Ends.{dequeue-take_first}
use cs503_lab.Queue.Enqueue.{enqueue-append}
use cs503_lab.Queue.Insert.{Bounded, Desc, place, insert-place, place-Desc}
use cs503_lab.Queue.Delta.{Delays, wakes, wake_at, insertd-delay_place, wakes-insertd}
use cs503_lab.Queue.Create.{newqueues-Holds}
use cs503_lab.Tests.Kernels.{raw, awake}

abbrev start : QTab
start = (newqueues (nsem + 2) nproc raw.queues).1

start_made :
    ((newqueues (nsem + 2) nproc raw.queues).0 ≡ nqent) × Holds start (λ q. []) × Bounded start
start_made = newqueues-Holds raw.queues

ready_id : IsQid 300
ready_id = (omega arith, omega arith, omega arith)

abbrev nothing : ℕ → List ℕ
nothing q = []

good : (p : ℕ) → p < nproc → is_bad_pid awake p ≡ false
unfolding bias
good p lt = ground arith

above : slt min_key 20 ≡ true
unfolding bias
above = refl

insert-place_example :
    ((insert awake 5 300 20 start).0 ≡ ok)
    × Holds (insert awake 5 300 20 start).1 (put nothing 300 (place start.key 20 5 []))
    × ((insert awake 5 300 20 start).1.key ≡ put start.key 5 20)
insert-place_example =
    insert-place start_made.1 start_made.2 300 ready_id 5 (omega arith, λ r ir. refl) 20 above awake
      (good 5 (omega arith))

-- Processes 5 and then 6 in queue 300
abbrev one : ℕ → List ℕ
one = put nothing 300 (5 ∷ [])

abbrev one_tab : QTab
one_tab = (enqueue awake 5 300 start).1

abbrev two : ℕ → List ℕ
two = put one 300 (5 ∷ 6 ∷ [])

abbrev two_tab : QTab
two_tab = (enqueue awake 6 300 one_tab).1

one_Holds : Holds one_tab one
one_Holds =
    (enqueue-append start_made.1 300 ready_id 5 (omega arith, λ r ir. refl) awake
      (good 5 (omega arith))).1

two_Holds : Holds two_tab two
two_Holds =
    (enqueue-append one_Holds 300 ready_id 6 (omega arith, λ r ir. ground arith) awake
      (good 6 (omega arith))).1

getfirst-take_first_example :
    ((getfirst 300 two_tab).0 ≡ 5) × Holds (getfirst 300 two_tab).1 (put two 300 (6 ∷ []))
getfirst-take_first_example = getfirst-take_first two_Holds 300 ready_id

dequeue-take_first_example :
    ((dequeue 300 two_tab).0 ≡ 5) × Holds (dequeue 300 two_tab).1 (put two 300 (6 ∷ []))
dequeue-take_first_example = dequeue-take_first two_Holds 300 ready_id

abbrev keys : ℕ → ℕ
keys i = if i == 5 then 30 else 10

place-Desc_example : Desc (put keys 7 20) (place keys 20 7 (5 ∷ 6 ∷ []))
unfolding bias
place-Desc_example = place-Desc keys 20 7 (5 ∷ 6 ∷ []) refl (omega arith, tt)

-- Process 5 sleeps, to wake in 30 ticks.
one-Delays : Delays start.key []
one-Delays x m = absurd (cc)

abbrev one_asleep : QTab
one_asleep = (insertd awake 5 302 30 start).1

sleep_id : IsQid 302
sleep_id = (omega arith, omega arith, omega arith)

asleep :
    ((insertd awake 5 302 30 start).0 ≡ ok)
    × Holds one_asleep (put nothing 302 (5 ∷ []))
    × (one_asleep.key ≡ put start.key 5 30)
asleep =
    insertd-delay_place start_made.1 302 sleep_id 5 (omega arith, λ r ir. refl) 30 one-Delays
      (omega arith) awake (good 5 (omega arith))

asleep_key : one_asleep.key 5 ≡ 30
asleep_key = ap (λ f. f 5) asleep.2

one_asleep-Delays : Delays one_asleep.key (5 ∷ [])
one_asleep-Delays x m = let e : x ≡ 5 = ground arith in ground (arith, e, asleep_key)

wakes-insertd_example :
    let t' = (insertd awake 6 302 20 one_asleep).1 in
    (c' : ℕ → List ℕ) × Holds t' c'
    × (wakes t'.key 0 (c' 302) ≡ wake_at 6 20 (wakes one_asleep.key 0 (5 ∷ [])))
    × ((r : ℕ) → r ≢ 302 → c' r ≡ put nothing 302 (5 ∷ []) r)
wakes-insertd_example =
    wakes-insertd asleep.1 302 sleep_id 6 (omega arith, λ r ir. ground arith) 20 one_asleep-Delays
      (omega arith) awake (good 6 (omega arith))
