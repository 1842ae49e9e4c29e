-- ===== src/Queue/Chain.antt =====
-- Doubly linked chains of queue entries: splitting, framing, unlinking and linking in.
use cs503_lab.Base.{ℕ, ◌≡◌, ◌≢◌, true, false, List, [], ◌∷◌, ◌++◌, arith, has, has-append, Distinct}
use cs503_lab.Queue.{QTab}

abbrev pub Edge : QTab → ℕ → ℕ → Type 0
Edge t u v = (t.next u ≡ v) × (t.prev v ≡ u)

-- Each node of the list points at the one behind it, and is pointed back at.
abbrev pub Chain : QTab → List ℕ → Type 0
Chain t [] = Unit
Chain t (a ∷ []) = Unit
Chain t (a ∷ b ∷ r) = Edge t a b × Chain t (b ∷ r)

-- The forward links of the nodes `ns`, and the backward links of the nodes `ms`, are as before.
abbrev pub SameNext : QTab → QTab → List ℕ → Type 0
SameNext t t' ns = (i : ℕ) → has i ns ≡ true → t'.next i ≡ t.next i

abbrev pub SamePrev : QTab → QTab → List ℕ → Type 0
SamePrev t t' ns = (i : ℕ) → has i ns ≡ true → t'.prev i ≡ t.prev i

pub Chain-append :
    (t : QTab) (ns : List ℕ) (u : ℕ) (ms : List ℕ)
    → Chain t (ns ++ u ∷ [])
    → Chain t (u ∷ ms)
    → Chain t (ns ++ u ∷ ms)
Chain-append t [] u ms c d = d
Chain-append t (a ∷ []) u ms c d = (c.0, d)
Chain-append t (a ∷ b ∷ ns) u ms c d = (c.0, Chain-append t (b ∷ ns) u ms c.1 d)

pub Chain-front :
    (t : QTab) (ns : List ℕ) (u : ℕ) (ms : List ℕ) → Chain t (ns ++ u ∷ ms) → Chain t (ns ++ u ∷ [])
Chain-front t [] u ms c = tt
Chain-front t (a ∷ []) u ms c = (c.0, tt)
Chain-front t (a ∷ b ∷ ns) u ms c = (c.0, Chain-front t (b ∷ ns) u ms c.1)

pub Chain-back :
    (t : QTab) (ns : List ℕ) (u : ℕ) (ms : List ℕ) → Chain t (ns ++ u ∷ ms) → Chain t (u ∷ ms)
Chain-back t [] u ms c = c
Chain-back t (a ∷ []) u ms c = c.1
Chain-back t (a ∷ b ∷ ns) u ms c = Chain-back t (b ∷ ns) u ms c.1

pub frame-front :
    (t t' : QTab) (ns : List ℕ) (u : ℕ)
    → SameNext t t' ns
    → SamePrev t t' (ns ++ u ∷ [])
    → Chain t (ns ++ u ∷ [])
    → Chain t' (ns ++ u ∷ [])
frame-front t t' [] u sn sp c = tt
frame-front t t' (a ∷ []) u sn sp c = (ground (arith, sn a, sp u), tt)
frame-front t t' (a ∷ b ∷ ns) u sn sp c = (
  ground (arith, sn a, sp b),
  frame-front t t' (b ∷ ns) u (λ i h. sn i (ground arith)) (λ i h. sp i (ground arith)) c.1,
)

pub frame-back :
    (t t' : QTab) (v : ℕ) (ms : List ℕ)
    → SameNext t t' (v ∷ ms)
    → SamePrev t t' ms
    → Chain t (v ∷ ms)
    → Chain t' (v ∷ ms)
frame-back t t' v [] sn sp c = tt
frame-back t t' v (w ∷ ms) sn sp c = (
  ground (arith, sn v, sp w),
  frame-back t t' w ms (λ i h. sn i (ground arith)) (λ i h. sp i (ground arith)) c.1,
)

-- What distinctness says of the nodes round a place.
pub record Around (ns : List ℕ) (u : ℕ) (ms : List ℕ) : Type 0 where
  pub front : (i : ℕ) → has i ns ≡ true → (i ≢ u) × (has i ms ≡ false)
  pub here : has u ms ≡ false
  pub front_distinct : Distinct ns
  pub back : Distinct ms

pub Distinct-Around : (ns : List ℕ) (u : ℕ) (ms : List ℕ) → Distinct (ns ++ u ∷ ms) → Around ns u ms
Distinct-Around [] u ms d = record {
  front = λ i h. absurd (cc);
  here = d.0;
  front_distinct = tt;
  back = d.1;
}
Distinct-Around (a ∷ ns) u ms d =
    let r = Distinct-Around ns u ms d.1 in
    record {
      front = λ i h. ground (arith, has-append a ns (u ∷ ms), r.front i);
      here = r.here;
      front_distinct = (ground (arith, has-append a ns (u ∷ ms)), r.front_distinct);
      back = r.back;
    }
