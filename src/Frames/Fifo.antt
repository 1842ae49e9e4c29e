-- ===== src/Frames/Fifo.antt =====
-- The queue of the frames that hold pages, as a list: the oldest page first.
use cs503_lab.Base.{
  ℕ, ◌<◌, ◌≡◌, refl, sym, ap, ◌∙◌, ◌≢◌, inl, inr, true, false, List, [], ◌∷◌, ◌++◌, append-nil,
  arith, ◌==◌, has, has-append, has-remove, has-remove-of, Distinct, Distinct-append,
  Distinct-insert, Distinct-remove, remove, Bool-cases,
}
use mathlib.Core.Path.{subst}
use cs503_lab.Queue.{QTab, getitem, set_next, set_prev}
use cs503_lab.Queue.Chain.{Chain, Chain-back}
use cs503_lab.Queue.Links.{link_in, link_in-Chain, getitem-Chain, SameLinks-Chain}
use cs503_lab.Queue.Contents.{nodes, has-nodes}
use cs503_lab.Queue.Remove.{place}
use cs503_lab.Queue.Enqueue.{gap}
use cs503_lab.Frames.{Frames, nframes, fifo_head, fifo_tail, null_entry, append_fifo, unlink_fifo}

-- The links of the queue, from the head on: `fifo_prev` is the way to the newer pages.
abbrev pub links : Frames → QTab
links t = record { key = λ i. 0; next = t.fifo_prev; prev = t.fifo_next }

-- The queue of `t` is `l`.
pub record Lined (t : Frames) (l : List ℕ) : Type 0 where
  pub chain : Chain (links t) (nodes fifo_head l)
  pub distinct : Distinct l
  pub frames : (i : ℕ) → has i l ≡ true → i < nframes

module _ {t : Frames} {l : List ℕ} (v : Lined t l) where
  Distinct-nodes : Distinct (nodes fifo_head l)
  Distinct-nodes = (
    ground (arith, has-append fifo_head l (fifo_tail ∷ []), v.frames fifo_head),
    Distinct-append l (fifo_tail ∷ []) v.distinct (ground arith)
        (λ a m. ground (arith, v.frames a m)),
  )

  module _ (i : ℕ) (lt : i < nframes) (out : has i l ≡ false) where
    out_nodes : has i (nodes fifo_head l) ≡ false
    out_nodes = ground (arith, has-nodes i fifo_head l)

    append_fifo-links :
        (last : ℕ)
        → t.fifo_next fifo_tail ≡ last
        → last ≢ i
        → links (append_fifo i t) ≡ link_in last i fifo_tail (links t)
    unfolding append_fifo
    append_fifo-links last e ne = let same : (i == i) ≡ true = ground arith in rw (e, same) refl

    -- A frame that is not in the queue goes to its end.
    pub append_fifo-Lined : Lined (append_fifo i t) (l ++ i ∷ [])
    append_fifo-Lined =
        let g = gap fifo_head i l [] in
        let whole = ap (nodes fifo_head) (sym (append-nil l)) ∙ g.whole in
        let c = subst (Chain (links t)) whole v.chain in
        let last = (Chain-back (links t) g.before g.left (fifo_tail ∷ []) c).0.1 in
        let ne : g.left ≢ i = λ e. absurd (
          ground (
            arith,
            out_nodes,
            subst (λ j. has j (nodes fifo_head (l ++ [])) ≡ true) e g.left_mem,
            append-nil l,
          )) in
        let r =
          link_in-Chain (links t) g.before g.left i fifo_tail [] c
            (subst Distinct whole Distinct-nodes)
            (subst (λ ns. has i ns ≡ false) whole out_nodes) in
        record {
          chain =
              subst (λ q. Chain q (nodes fifo_head (l ++ i ∷ [])))
                (sym (append_fifo-links g.left last ne))
                (subst (Chain (link_in g.left i fifo_tail (links t))) (sym g.filled) r.0);
          distinct =
              Distinct-insert i l [] (subst Distinct (sym (append-nil l)) v.distinct)
                (rw append-nil out);
          frames = λ a m. ground (arith, has-append a l (i ∷ []), v.frames a);
        }

  module _ (i : ℕ) (m : has i l ≡ true) where
    cleared : QTab → QTab
    cleared q = set_next i null_entry (set_prev i null_entry q)

    unlink_fifo-links : links (unlink_fifo i t) ≡ cleared (getitem i (links t)).1
    unfolding unlink_fifo getitem cleared
    unlink_fifo-links = elim (Bool-cases (i == t.fifo_prev i)) [
      | inl a ↦ rw a refl
      | inr a ↦ rw a refl
    ]

    gone : has i (nodes fifo_head (remove i l)) ≡ false
    gone =
        ground
          (arith, has-nodes i fifo_head (remove i l), has-remove i i l v.distinct, v.frames i m)

    -- A frame leaves the queue, wherever it stands.
    pub unlink_fifo-Lined : Lined (unlink_fifo i t) (remove i l)
    unfolding cleared
    unlink_fifo-Lined =
        let w = place fifo_head i l m in
        let r =
          getitem-Chain (links t) w.before w.left i w.right w.after
            (subst (Chain (links t)) w.whole v.chain) (subst Distinct w.whole Distinct-nodes) in
        let c = subst (Chain (getitem i (links t)).1) (sym w.without) r.0 in
        let c' =
          SameLinks-Chain (getitem i (links t)).1 (cleared (getitem i (links t)).1) (i ∷ [])
            (nodes fifo_head (remove i l)) (λ j o. ground arith)
            (λ j n. elim (Bool-cases (j == i)) [
              | inl e ↦
                  let same : j ≡ i = ground arith in
                  absurd (
                    ground (
                      arith,
                      gone,
                      subst (λ k. has k (nodes fifo_head (remove i l)) ≡ true) same n,
                    ))
              | inr e ↦ rw e refl
            ])
            c in
        record {
          chain = subst (λ q. Chain q (nodes fifo_head (remove i l))) (sym unlink_fifo-links) c';
          distinct = Distinct-remove i l v.distinct;
          frames = λ a n. v.frames a (has-remove-of a i l n);
        }
