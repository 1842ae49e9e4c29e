-- ===== src/Queue/Delta.antt =====
-- insertd.c: the delta list. Each key is the delay behind the process before.
use cs503_lab.Base.{
  ℕ, zero, suc, ◌+◌, ◌-◌, ◌^◌, ◌≤◌, ◌<◌, ◌≡◌, refl, sym, ap, ◌∙◌, ◌≢◌, inl, inr, true, false, not,
  List, [], ◌∷◌, ◌++◌, arith, ◌==◌, leb, if◌then◌else◌, has, length, Distinct, put, put_ne,
  put_self, has-append, Bool-cases, slt, bias, sub32,
}
use mathlib.Core.Path.{subst}
use native.Mathlib.Nat.{zero-add}
use cs503_lab.Config.{nproc, nqent, ok, ProcTab, is_bad_pid}
use cs503_lab.Queue.{QTab, tail_of, set_key, insertd, seek_delay, place_delay}
use cs503_lab.Queue.Chain.{Chain}
use cs503_lab.Queue.Links.{link_in}
use cs503_lab.Queue.Contents.{IsQid, Holds, Idle, Holds-SameLinks, length-contents}
use cs503_lab.Queue.Ends.{is_bad_qid-IsQid}
use cs503_lab.Queue.Enqueue.{first_or, link_in-Holds}
use cs503_lab.Queue.Insert.{next-first_or}

-- Where a process with delay `k` goes, and the keys that this leaves.
abbrev pub delay_place : (ℕ → ℕ) → ℕ → ℕ → List ℕ → List ℕ
delay_place keys k p [] = p ∷ []
delay_place keys k p (x ∷ xs) =
    let rest = delay_place keys (k - keys x) p xs in if leb (keys x) k then x ∷ rest else p ∷ x ∷ xs

abbrev pub delay_keys : (ℕ → ℕ) → ℕ → ℕ → List ℕ → ℕ → ℕ
delay_keys keys k p [] = put keys p k
delay_keys keys k p (x ∷ xs) =
    let rest = delay_keys keys (k - keys x) p xs in
    if leb (keys x) k then rest else put (put keys p k) x (keys x - k)

-- No delay is negative.
abbrev pub Delays : (ℕ → ℕ) → List ℕ → Type 0
Delays keys l = (x : ℕ) → has x l ≡ true → keys x < 2 ^ 31

record Found (t : QTab) (q k p fuel prev : ℕ) (l : List ℕ) : Type 0 where
  front : List ℕ
  back : List ℕ
  left : ℕ
  key : ℕ
  whole : l ≡ front ++ back
  placed : delay_place t.key k p l ≡ front ++ p ∷ back
  found :
      seek_delay t q fuel prev (first_or (tail_of q) l) k ≡ (left, first_or (tail_of q) back, key)
  behind : t.prev (first_or (tail_of q) back) ≡ left
  keys : delay_keys t.key k p l ≡ delay_keys t.key key p back
  stops : delay_keys t.key key p back ≡ (
      if first_or (tail_of q) back == tail_of q
      then put t.key p key
      else put
          (put t.key p key)
          (first_or (tail_of q) back)
          (sub32 (t.key (first_or (tail_of q) back)) key))

sub32-sub : (a b : ℕ) → b ≤ a → a < 2 ^ 31 → sub32 a b ≡ a - b
unfolding sub32
sub32-sub a b le lt = omega arith

slt-small : (a b : ℕ) → a < 2 ^ 31 → b < 2 ^ 31 → not (slt a b) ≡ leb b a
unfolding bias
slt-small a b la lb = ground arith

module _ (t : QTab) (q p : ℕ) (iq : IsQid q) where
  seek_delay-Found :
      (fuel prev k : ℕ) (l : List ℕ)
      → Chain t (prev ∷ (l ++ tail_of q ∷ []))
      → ((x : ℕ) → has x l ≡ true → x < nproc)
      → Delays t.key l
      → k < 2 ^ 31
      → length l < fuel
      → Found t q k p fuel prev l
  unfolding seek_delay
  seek_delay-Found zero prev k l c pids small kl lt = absurd (omega arith)
  seek_delay-Found (suc fuel) prev k [] c pids small kl lt = record {
    front = [];
    back = [];
    left = prev;
    key = k;
    whole = refl;
    placed = refl;
    found = ground arith;
    behind = c.0.1;
    keys = refl;
    stops = ground arith;
  }
  seek_delay-Found (suc fuel) prev k (x ∷ xs) c pids small kl lt =
      let ne : (x == tail_of q) ≡ false = ground (arith, pids x (ground arith)) in
      let sx : t.key x < 2 ^ 31 = small x (ground arith) in
      elim (Bool-cases (leb (t.key x) k)) [
        | inl e ↦
            let r =
              seek_delay-Found fuel x (k - t.key x) xs c.1 (λ y m. pids y (ground arith))
                (λ y m. small y (ground arith)) (omega arith) (omega arith) in
            record {
              front = x ∷ r.front;
              back = r.back;
              left = r.left;
              key = r.key;
              whole = ap (λ l. x ∷ l) r.whole;
              placed = rw e (ap (λ l. x ∷ l) r.placed);
              found =
                  rw
                    (
                      ne,
                      slt-small k (t.key x) kl sx,
                      e,
                      next-after xs c.1,
                      sub32-sub k (t.key x) (ground arith) kl,
                    )
                    r.found;
              behind = r.behind;
              keys = rw e r.keys;
              stops = r.stops;
            }
        | inr e ↦ record {
          front = [];
          back = x ∷ xs;
          left = prev;
          key = k;
          whole = refl;
          placed = rw e;
          found = rw (ne, slt-small k (t.key x) kl sx, e);
          behind = c.0.1;
          keys = refl;
          stops = rw (e, ne, sub32-sub (t.key x) k (ground arith) sx);
        }
      ]
    where
      next-after :
          (xs : List ℕ) → Chain t (x ∷ (xs ++ tail_of q ∷ [])) → t.next x ≡ first_or (tail_of q) xs
      next-after [] c = c.0.0
      next-after (y ∷ ys) c = c.0.0

-- Processes with their times: each delay added to those before.
abbrev pub wakes : (ℕ → ℕ) → ℕ → List ℕ → List (ℕ × ℕ)
wakes keys time [] = []
wakes keys time (x ∷ xs) = (x, time + keys x) ∷ wakes keys (time + keys x) xs

-- `p` behind all whose time is at most `w`.
abbrev pub wake_at : ℕ → ℕ → List (ℕ × ℕ) → List (ℕ × ℕ)
wake_at p w [] = (p, w) ∷ []
wake_at p w ((x, v) ∷ r) = if leb v w then (x, v) ∷ wake_at p w r else (p, w) ∷ (x, v) ∷ r

wakes-same :
    (keys keys' : ℕ → ℕ) (time : ℕ) (l : List ℕ)
    → ((x : ℕ) → has x l ≡ true → keys' x ≡ keys x)
    → wakes keys' time l ≡ wakes keys time l
wakes-same keys keys' time [] same = refl
wakes-same keys keys' time (x ∷ xs) same =
    rw (
      same x (ground arith),
      wakes-same keys keys' (time + keys x) xs (λ y m. same y (ground arith)),
    )

pub delay_keys-outside :
    (keys : ℕ → ℕ) (k p : ℕ) (l : List ℕ) (x : ℕ)
    → has x (p ∷ l) ≡ false
    → delay_keys keys k p l x ≡ keys x
delay_keys-outside keys k p [] x out = ground arith
delay_keys-outside keys k p (y ∷ ys) x out =
    ground (arith, delay_keys-outside keys (k - keys y) p ys x)

-- The delay list after an insertion wakes everyone else when it did, and `p` after `k`.
pub wakes-delay_place :
    (keys : ℕ → ℕ) (time k p : ℕ) (l : List ℕ)
    → Distinct l
    → has p l ≡ false
    → wakes (delay_keys keys k p l) time (delay_place keys k p l)
      ≡ wake_at p (time + k) (wakes keys time l)
wakes-delay_place keys time k p [] d out = ground arith
wakes-delay_place keys time k p (x ∷ xs) d out = elim (Bool-cases (leb (keys x) k)) [
  | inl e ↦
      let same : delay_keys keys (k - keys x) p xs x ≡ keys x =
        delay_keys-outside keys (k - keys x) p xs x (ground (arith, d.0)) in
      let sum : time + keys x + (k - keys x) ≡ time + k = ground arith in
      let test : leb (time + keys x) (time + k) ≡ true = ground arith in
      rw (
        e,
        test,
        same,
        wakes-delay_place keys (time + keys x) (k - keys x) p xs d.1 (ground arith),
        sum,
      )
  | inr e ↦
      let keys' = put (put keys p k) x (keys x - k) in
      let at_p : keys' p ≡ k = ground arith in
      let at_x : keys' x ≡ keys x - k = ground arith in
      let sum : time + k + (keys x - k) ≡ time + keys x = ground arith in
      let test : leb (time + keys x) (time + k) ≡ false = ground arith in
      rw (
        e,
        test,
        at_p,
        at_x,
        sum,
        wakes-same keys keys' (time + keys x) xs (λ y m. ground (arith, d.0)),
      )
]

place_delay-Holds :
    (t : QTab) (c : ℕ → List ℕ) (p q left v key : ℕ)
    → Holds (link_in left p v (set_key p key t)) c
    → Holds (place_delay p q (left, v, key) t) c
unfolding place_delay
place_delay-Holds t c p q left v key h = elim (Bool-cases (v == tail_of q)) [
  | inl e ↦ rw e h
  | inr e ↦ rw e (Holds-SameLinks _ h (λ i m. (refl, refl)))
]

place_delay-key :
    (t : QTab) (p q left v key : ℕ)
    → v ≢ p
    → (place_delay p q (left, v, key) t).key
      ≡ (if v == tail_of q then put t.key p key else put (put t.key p key) v (sub32 (t.key v) key))
unfolding place_delay
place_delay-key t p q left v key ne =
    let other : put t.key p key v ≡ t.key v = put_ne t.key p key v ne in
    elim (Bool-cases (v == tail_of q)) [ inl e ↦ rw e | inr e ↦ rw (e, other) ]

first_or-ne : (z p : ℕ) (xs ys : List ℕ) → has p (xs ++ ys) ≡ false → z ≢ p → first_or z ys ≢ p
first_or-ne z p xs [] out ne = ne
first_or-ne z p xs (y ∷ ys) out ne = ground (arith, has-append p xs (y ∷ ys))

module _ {t : QTab} {c : ℕ → List ℕ} (h : Holds t c) (q : ℕ) (iq : IsQid q) (p : ℕ)
    (idle : Idle c p) (k : ℕ) (small : Delays t.key (c q)) (kl : k < 2 ^ 31) where
  -- `insertd` puts a process that is in no queue behind all that wake no later, and takes its
  -- delay off the next; the walk always ends, and all other queues and keys are left alone.
  pub insertd-delay_place :
      (procs : ProcTab)
      → is_bad_pid procs p ≡ false
      → ((insertd procs p q k t).0 ≡ ok)
        × Holds (insertd procs p q k t).1 (put c q (delay_place t.key k p (c q)))
        × ((insertd procs p q k t).1.key ≡ delay_keys t.key k p (c q))
  unfolding insertd
  insertd-delay_place procs good =
      let f =
        seek_delay-Found t q p iq nqent q k (c q) (h.chain q iq) (λ x m. h.pids q x iq m) small kl
          (omega (arith, length-contents q h iq)) in
      let v = first_or (tail_of q) f.back in
      let at : seek_delay t q nqent q (t.next q) k ≡ (f.left, v, f.key) =
        ap (λ i. seek_delay t q nqent q i k) (next-first_or t q (c q) (h.chain q iq)) ∙ f.found in
      let h' = Holds-SameLinks (set_key p f.key t) h (λ i m. (refl, refl)) in
      let linked = link_in-Holds h' q iq p idle f.front f.back f.whole in
      let ne : v ≢ p =
        first_or-ne (tail_of q) p f.front f.back
          (subst (λ l. has p l ≡ false) f.whole (idle.1 q iq)) (ground (arith, idle.0)) in
      rw (is_bad_qid-IsQid q iq, good, at)
        (
          refl,
          place_delay-Holds t _ p q f.left v f.key (
              subst (λ l. Holds (link_in f.left p v (set_key p f.key t)) (put c q l)) (sym f.placed)
                (subst
                  (λ u. Holds (link_in u p v (set_key p f.key t)) (put c q (f.front ++ p ∷ f.back)))
                  f.behind linked)),
          place_delay-key t p q f.left v f.key ne ∙ sym f.stops ∙ sym f.keys,
        )

  -- After `insertd`, with a delay `k` below 2 ^ 31 of an existing process that is in no queue and no
  -- negative delay in the queue, each sleeping process wakes exactly when it did, and the new one `k` ticks from
  -- now, behind those of the same time.
  pub wakes-insertd :
      (procs : ProcTab)
      → is_bad_pid procs p ≡ false
      → let t' = (insertd procs p q k t).1 in
        (c' : ℕ → List ℕ) × Holds t' c'
        × (wakes t'.key 0 (c' q) ≡ wake_at p k (wakes t.key 0 (c q)))
        × ((r : ℕ) → r ≢ q → c' r ≡ c r)
  wakes-insertd procs good =
      let r = insertd-delay_place procs good in
      let l = delay_place t.key k p (c q) in
      (
        put c q (delay_place t.key k p (c q)),
        r.1,
        ap (λ f. wakes f 0 (put c q l q)) r.2
            ∙ ap (wakes (delay_keys t.key k p (c q)) 0) (put_self c q l)
            ∙ wakes-delay_place t.key 0 k p (c q) (h.distinct q iq) (idle.1 q iq)
            ∙ ap (λ w. wake_at p w (wakes t.key 0 (c q))) (zero-add k),
        λ i ne. put_ne c q _ i ne,
      )
