-- ===== src/Queue/Remove.antt =====
-- getitem.c and `dequeue` on the lists that the table stands for.
use cs503_lab.Base.{
  ℕ, ◌<◌, ◌≡◌, refl, sym, ap, ◌∙◌, ◌⊎◌, inl, inr, Bool, true, false, List, [], ◌∷◌, ◌++◌,
  append_assoc, arith, has, has-append, Distinct, Distinct-remove, has-remove-of, remove, Split-at,
  Front-view, Back-view, put, bias, put_same,
}
use mathlib.Core.Path.{subst}
use cs503_lab.Config.{nproc, empty}
use cs503_lab.Queue.{QTab, tail_of, getitem, getfirst, is_empty}
use cs503_lab.Queue.Chain.{Chain}
use cs503_lab.Queue.Links.{getitem-Chain}
use cs503_lab.Queue.Contents.{
  IsQid, nodes, Holds, OnlyIn, Holds-OnlyIn, has-nodes, Distinct-nodes, Holds-change,
}

-- The nodes round a member, with what stands on either side of it.
pub record Place (q p : ℕ) (xs : List ℕ) : Type 0 where
  pub before : List ℕ
  pub left : ℕ
  pub right : ℕ
  pub after : List ℕ
  pub whole : nodes q xs ≡ before ++ left ∷ p ∷ right ∷ after
  pub without : nodes q (remove p xs) ≡ before ++ left ∷ right ∷ after
  pub left_mem : has left (nodes q xs) ≡ true
  pub right_mem : has right (nodes q xs) ≡ true

pub nodes-split :
    (q : ℕ) (ls rs ys : List ℕ) → ys ≡ ls ++ rs → nodes q ys ≡ (q ∷ ls) ++ (rs ++ tail_of q ∷ [])
nodes-split q ls rs ys e = rw (e, append_assoc)

pub place : (q p : ℕ) (xs : List ℕ) → has p xs ≡ true → Place q p xs
place q p xs m =
    let s = Split-at p xs m in
    let f = Front-view q s.front in
    let b = Back-view s.back (tail_of q) in
    let e : nodes q xs ≡ f.init ++ f.last ∷ p ∷ b.first ∷ b.rest =
      nodes-split q s.front (p ∷ s.back) xs s.whole
      ∙ ap (λ l. l ++ p ∷ (s.back ++ tail_of q ∷ [])) f.whole
      ∙ append_assoc f.init (f.last ∷ []) (p ∷ (s.back ++ tail_of q ∷ []))
      ∙ ap (λ l. f.init ++ f.last ∷ p ∷ l) b.whole in
    record {
      before = f.init;
      left = f.last;
      right = b.first;
      after = b.rest;
      whole = e;
      without =
          nodes-split q s.front s.back (remove p xs) s.removed
          ∙ ap (λ l. l ++ (s.back ++ tail_of q ∷ [])) f.whole
          ∙ append_assoc f.init (f.last ∷ []) (s.back ++ tail_of q ∷ [])
          ∙ ap (λ l. f.init ++ f.last ∷ l) b.whole;
      left_mem =
          subst (λ l. has f.last l ≡ true) (sym e)
            (ground (arith, has-append f.last f.init (f.last ∷ p ∷ b.first ∷ b.rest)));
      right_mem =
          subst (λ l. has b.first l ≡ true) (sym e)
            (ground (arith, has-append b.first f.init (f.last ∷ p ∷ b.first ∷ b.rest)));
    }

module _ {t : QTab} {c : ℕ → List ℕ} (h : Holds t c) (q : ℕ) (iq : IsQid q) where
  -- A process that stands in no queue but `q`, or an end of `q`.
  pub mem_nodes :
      (i : ℕ)
      → has i (nodes q (c q)) ≡ true
      → ((i < nproc) × OnlyIn c q i) ⊎ ((i ≡ q) ⊎ (i ≡ tail_of q))
  mem_nodes i m = go (has i (c q)) refl
    where
      go : (b : Bool) → has i (c q) ≡ b → ((i < nproc) × OnlyIn c q i) ⊎ ((i ≡ q) ⊎ (i ≡ tail_of q))
      go true e = inl (h.pids q i iq e, Holds-OnlyIn q i h iq e)
      go false e = inr (ground (arith, has-nodes i q (c q)))

  -- Unlinking a process takes it out of its queue, and leaves all other queues alone.
  pub getitem-Holds :
      (p : ℕ) → has p (c q) ≡ true → Holds (getitem p t).1 (put c q (remove p (c q)))
  getitem-Holds p m =
      let w = place q p (c q) m in
      let d = Distinct-nodes q h iq in
      let r =
        getitem-Chain t w.before w.left p w.right w.after (subst (Chain t) w.whole (h.chain q iq))
          (subst Distinct w.whole d) in
      Holds-change q h iq (getitem p t).1 (remove p (c q)) (w.left ∷ w.right ∷ [])
        (subst (Chain (getitem p t).1) (sym w.without) r.0)
        (Distinct-remove p (c q) (h.distinct q iq))
        (λ a n. let o = has-remove-of a p (c q) n in (h.pids q a iq o, Holds-OnlyIn q a h iq o)) r.1
        (λ i n. mem_nodes i (ground (arith, w.left_mem, w.right_mem)))

  -- The test of `isempty` finds out whether the list is empty.
  pub is_empty-nil : c q ≡ [] → is_empty t q ≡ true
  unfolding bias
  is_empty-nil e = ground (arith, subst (λ l. Chain t (nodes q l)) e (h.chain q iq))

  pub is_empty-cons : (p : ℕ) (xs : List ℕ) → c q ≡ p ∷ xs → is_empty t q ≡ false
  unfolding bias
  is_empty-cons p xs e =
      ground (arith, subst (λ l. Chain t (nodes q l)) e (h.chain q iq), first_lt p xs e)
    where
      first_lt : (p : ℕ) (xs : List ℕ) → c q ≡ p ∷ xs → p < nproc
      first_lt p xs e = h.pids q p iq (rw e (ground arith))

  pub is_empty-mem : (p : ℕ) → has p (c q) ≡ true → is_empty t q ≡ false
  is_empty-mem p m = go (c q) refl m
    where
      go : (l : List ℕ) → c q ≡ l → has p l ≡ true → is_empty t q ≡ false
      go [] e m = absurd (cc)
      go (x ∷ xs) e m = is_empty-cons x xs e

-- The first process of a list, or EMPTY, and the rest.
abbrev pub take_first : List ℕ → ℕ × List ℕ
take_first [] = (empty, [])
take_first (p ∷ xs) = (p, xs)

module _ {t : QTab} {c : ℕ → List ℕ} (h : Holds t c) (q : ℕ) (iq : IsQid q) where
  next-first : (p : ℕ) (xs : List ℕ) → c q ≡ p ∷ xs → t.next q ≡ p
  next-first p xs e = (subst (λ l. Chain t (nodes q l)) e (h.chain q iq)).0.0

  getfirst_go :
      (l : List ℕ)
      → c q ≡ l
      → ((getfirst q t).0 ≡ (take_first l).0) × Holds (getfirst q t).1 (put c q (take_first l).1)
  unfolding getfirst getitem
  getfirst_go [] e =
      rw (is_empty-nil h q iq e)
        (refl, subst (Holds t) (sym (ap (put c q) (sym e) ∙ put_same c q)) h)
  getfirst_go (p ∷ xs) e =
      let m : has p (c q) ≡ true = rw e (ground arith) in
      let r : remove p (c q) ≡ xs = rw e (ground arith) in
      rw (is_empty-cons h q iq p xs e) (
        next-first p xs e,
        subst (λ i. Holds (getitem i t).1 (put c q xs)) (sym (next-first p xs e))
            (subst (λ l. Holds (getitem p t).1 (put c q l)) r (getitem-Holds h q iq p m)),
      )

  -- `getfirst` returns the first process of a queue and takes it out, or returns EMPTY and
  -- changes nothing that the queues stand for; no other queue changes.
  pub getfirst-take_first :
      ((getfirst q t).0 ≡ (take_first (c q)).0)
      × Holds (getfirst q t).1 (put c q (take_first (c q)).1)
  getfirst-take_first = getfirst_go (c q) refl
