-- ===== src/Paging/Replace/Turn.antt =====
-- The global clock algorithm of get_free_frame_number: the hand stops after two turns at most.
use cs503_lab.Base.{
  ℕ, ◌+◌, ◌*◌, ◌/◌, ◌%◌, ◌^◌, ◌≤◌, ◌<◌, ◌≡◌, refl, ap, ◌∙◌, ◌⊎◌, inl, inr, ◌||◌, Bool, true, false,
  List, [], ◌∷◌, ◌++◌, length, arith, ◌==◌, if◌then◌else◌, has, put, Bool-cases, sub32,
}
use mathlib.Core.Path.{subst}
use cs503_lab.Queue.Chain.{Chain}
use cs503_lab.Frames.{Frames, fifo_head, fifo_tail}
use cs503_lab.Frames.Fifo.{links}
use cs503_lab.Frames.Claim.{IsFrames, Lined-links}
use cs503_lab.Paging.{Paging, Entry, page_size, cal_addr, pd_word}
use cs503_lab.Paging.Replace.{page_word, advance, wrap_hand}

abbrev pub bit : Bool → ℕ
bit true = 1
bit false = 0

-- How many of the pages' bits are set: `word` gives the entry of each page.
pub set_bits : (ℕ → Entry) → (ℕ → ℕ) → List ℕ → ℕ
set_bits en word [] = 0
set_bits en word (i ∷ l) = bit (en (word i)).acc + bit (en (word i)).dirty + set_bits en word l

pub set_bits-length :
    (en : ℕ → Entry) (word : ℕ → ℕ) (l : List ℕ) → set_bits en word l ≤ 2 * length l
unfolding set_bits
set_bits-length en word [] = omega arith
set_bits-length en word (i ∷ l) = ground (arith, set_bits-length en word l)

-- `e'` is `e`, but for bits of `acc` and `dirty` that were cleared.
pub record Fewer (e e' : Entry) : Type 0 where
  pub base : e'.base ≡ e.base
  pub acc : e'.acc ≡ true → e.acc ≡ true
  pub dirty : e'.dirty ≡ true → e.dirty ≡ true

set_bits-put :
    (en : ℕ → Entry) (word : ℕ → ℕ) (l : List ℕ) (w : ℕ) (e : Entry)
    → Fewer (en w) e
    → set_bits (put en w e) word l ≤ set_bits en word l
unfolding set_bits
set_bits-put en word [] w e f = omega arith
set_bits-put en word (i ∷ l) w e f = elim (Bool-cases (word i == w)) [
  | inl s ↦
      let same : w ≡ word i = ground arith in
      let f' : Fewer (en (word i)) e = subst (λ v. Fewer (en v) e) same f in
      rw s (ground (arith, set_bits-put en word l w e f, f'.acc, f'.dirty))
  | inr s ↦ rw s (ground (arith, set_bits-put en word l w e f))
]

-- One entry of the pages loses a bit.
pub record Cleared (e e' : Entry) : Type 0 where
  pub fewer : Fewer e e'
  pub less : bit e'.acc + bit e'.dirty < bit e.acc + bit e.dirty

pub set_bits_less :
    (en : ℕ → Entry) (word : ℕ → ℕ) (l : List ℕ) (i : ℕ) (e : Entry)
    → has i l ≡ true
    → Cleared (en (word i)) e
    → set_bits (put en (word i) e) word l < set_bits en word l
unfolding set_bits
set_bits_less en word [] i e m c = absurd (cc)
set_bits_less en word (x ∷ l) i e m c = elim (Bool-cases (i == x)) [
  | inl s ↦
      let same : i ≡ x = ground arith in
      let at : (word x == word i) ≡ true =
        subst (λ j. (word j == word i) ≡ true) same (ground arith) in
      let less : bit e.acc + bit e.dirty < bit (en (word x)).acc + bit (en (word x)).dirty =
        subst (λ j. bit e.acc + bit e.dirty < bit (en (word j)).acc + bit (en (word j)).dirty) same
          c.less in
      rw at (omega (arith, set_bits-put en word l (word i) e c.fewer, less))
  | inr s ↦
      let rest = set_bits_less en word l i e (ground arith) c in
      elim (Bool-cases (word x == word i)) [
        | inl w ↦
            let same : word i ≡ word x = ground arith in
            let less : bit e.acc + bit e.dirty < bit (en (word x)).acc + bit (en (word x)).dirty =
              subst (λ v. bit e.acc + bit e.dirty < bit (en v).acc + bit (en v).dirty) same
                c.less in
            rw w (omega (arith, rest, less))
        | inr w ↦ rw w (omega (arith, rest))
      ]
]

-- From a page of the queue the hand goes to the next one, or to the tail.
next_page :
    (t : Frames) (a i : ℕ) (l : List ℕ)
    → Chain (links t) (a ∷ (l ++ fifo_tail ∷ []))
    → has i l ≡ true
    → (t.fifo_prev i ≡ fifo_tail) ⊎ (has (t.fifo_prev i) l ≡ true)
next_page t a i [] c m = absurd (cc)
next_page t a i (x ∷ l) c m = elim (Bool-cases (i == x)) [
  | inl s ↦ let same : x ≡ i = ground arith in from x i l same c.1
  | inr s ↦ elim (next_page t x i l c.1 (ground arith)) [
    | inl e ↦ inl e
    | inr h ↦ inr (ground arith)
  ]
]
  where
    from :
        (x i : ℕ) (l : List ℕ)
        → x ≡ i
        → Chain (links t) (x ∷ (l ++ fifo_tail ∷ []))
        → (t.fifo_prev i ≡ fifo_tail) ⊎ (has (t.fifo_prev i) (x ∷ l) ≡ true)
    from x i [] e c = inl (subst (λ j. t.fifo_prev j ≡ fifo_tail) e c.0.0)
    from x i (y ∷ l) e c =
        let n : t.fifo_prev i ≡ y = subst (λ j. t.fifo_prev j ≡ y) e c.0.0 in inr (ground arith)

put-base :
    (en : ℕ → Entry) (w : ℕ) (e : Entry)
    → Fewer (en w) e
    → (v : ℕ) → (put en w e v).base ≡ (en v).base
put-base en w e f v = elim (Bool-cases (v == w)) [
  | inl s ↦ let same : w ≡ v = ground arith in rw s (f.base ∙ ap (λ u. (en u).base) same)
  | inr s ↦ rw s refl
]

pub page_word-base :
    (s : Paging) (en : ℕ → Entry)
    → ((w : ℕ) → (en w).base ≡ (s.entries w).base)
    → (j : ℕ) → page_word j (record s { entries = en }) ≡ page_word j s
page_word-base s en h j =
    ap
      (λ b.
        cal_addr (sub32 b 1024) / 4 + s.frames.vpage_num j * page_size % 2 ^ 32 / page_size % 1024)
      (h (pd_word (s.frames.owner j) (s.frames.vpage_num j * page_size % 2 ^ 32) s))

-- The hand stands at a page; no page is dirty that was not accessed; `word` finds the pages' entries.
pub record InTurn (s : Paging) (l : List ℕ) (word : ℕ → ℕ) : Type 0 where
  pub queue : IsFrames s.frames l
  pub words : (j : ℕ) → page_word j s ≡ word j
  pub hand : has s.frames.fifo_hand l ≡ true
  pub accessed :
      (i : ℕ) → has i l ≡ true → (s.entries (word i)).dirty ≡ true → (s.entries (word i)).acc ≡ true

-- Frame `f` is found, and only bits of the entries and the hand have changed: it is behind `f`.
pub record Turned (s : Paging) (l : List ℕ) (word : ℕ → ℕ) (f : ℕ) (s' : Paging) : Type 0 where
  pub member : has f l ≡ true
  pub clean : ((s'.entries (word f)).acc || (s'.entries (word f)).dirty) ≡ false
  pub base : (w : ℕ) → (s'.entries w).base ≡ (s.entries w).base
  pub kept : s' ≡ record s {
    entries = s'.entries;
    frames = record (s.frames) { fifo_hand = s.frames.fifo_prev f };
  }

-- The state after a step of the hand, which stores `e` for the page that it leaves
abbrev pub after : Paging → ℕ
after s =
    if s.frames.fifo_prev s.frames.fifo_hand == fifo_tail
    then s.frames.fifo_prev fifo_head
    else s.frames.fifo_prev s.frames.fifo_hand

abbrev pub moved : Entry → Paging → Paging
moved e s = record s {
  entries = put s.entries (page_word s.frames.fifo_hand s) e;
  frames = record (s.frames) { fifo_hand = after s };
}

pub moved-wrap_hand :
    (e : Entry) (s : Paging)
    → wrap_hand (advance (record s { entries = put s.entries (page_word s.frames.fifo_hand s) e }))
      ≡ moved e s
moved-wrap_hand e s = elim (Bool-cases (s.frames.fifo_prev s.frames.fifo_hand == fifo_tail)) [
  | inl t ↦ rw t refl
  | inr t ↦ rw t refl
]

module _ {l : List ℕ} {word : ℕ → ℕ} where
  after-has : (s : Paging) → InTurn s l word → has (after s) l ≡ true
  after-has s v =
      elim (next_page s.frames fifo_head s.frames.fifo_hand l v.queue.lined.chain v.hand) [
        | inl e ↦
            let test : (s.frames.fifo_prev s.frames.fifo_hand == fifo_tail) ≡ true = ground arith in
            rw test (first l v.queue.lined.chain v.hand)
        | inr h ↦
            let test : (s.frames.fifo_prev s.frames.fifo_hand == fifo_tail) ≡ false =
              ground (arith, v.queue.lined.frames (s.frames.fifo_prev s.frames.fifo_hand) h) in
            rw test h
      ]
    where
      first :
          (l : List ℕ)
          → Chain (links s.frames) (fifo_head ∷ (l ++ fifo_tail ∷ []))
          → has s.frames.fifo_hand l ≡ true
          → has (s.frames.fifo_prev fifo_head) l ≡ true
      first [] c m = absurd (cc)
      first (x ∷ l) c m = let n : s.frames.fifo_prev fifo_head ≡ x = c.0.0 in ground arith

  pub moved-InTurn :
      (s : Paging) (e : Entry)
      → InTurn s l word
      → Fewer (s.entries (page_word s.frames.fifo_hand s)) e
      → (e.dirty ≡ true → e.acc ≡ true)
      → InTurn (moved e s) l word
  moved-InTurn s e v f sane =
      let hand = page_word s.frames.fifo_hand s in
      record {
        queue = record {
          lined = Lined-links refl v.queue.lined;
          pages = v.queue.pages;
          numbers = v.queue.numbers;
        };
        words = λ j.
            page_word-base s (put s.entries hand e) (put-base s.entries hand e f) j ∙ v.words j;
        hand = after-has s v;
        accessed = λ i m d. elim (Bool-cases (word i == hand)) [
          | inl t ↦
              rw t (sane (subst (λ b. (if b then e else s.entries (word i)).dirty ≡ true) t d))
          | inr t ↦
              rw t (
                v.accessed i m
                  (subst (λ b. (if b then e else s.entries (word i)).dirty ≡ true) t d))
        ];
      }

  -- What a later state finds is what this one finds.
  pub moved-Turned :
      (s : Paging) (e : Entry) (f : ℕ) (s' : Paging)
      → InTurn s l word
      → Fewer (s.entries (page_word s.frames.fifo_hand s)) e
      → Turned (moved e s) l word f s'
      → Turned s l word f s'
  moved-Turned s e f s' v fewer t = record {
    member = t.member;
    clean = t.clean;
    base = λ w. t.base w ∙ put-base s.entries (page_word s.frames.fifo_hand s) e fewer w;
    kept = t.kept;
  }
