-- ===== src/Paging/Replace/Stop.antt =====
-- The loop of the global clock algorithm ends, with a page that was neither accessed nor written.
use cs503_lab.Base.{
  ℕ, zero, suc, ◌<◌, ◌≡◌, refl, sym, ap, ◌∙◌, inl, inr, ◌||◌, ◌&&◌, Bool, true, false, not, List,
  arith, ◌==◌, if◌then◌else◌, Option, none, some, put, Bool-cases,
}
use mathlib.Core.Path.{subst}
use cs503_lab.Frames.{nframes, fifo_head, fifo_tail, null_entry}
use cs503_lab.Paging.{Paging, Entry}
use cs503_lab.Paging.Replace.{page_word, clear_acc, clear_dirty, advance, wrap_hand, set_hand, turn}
use cs503_lab.Paging.Replace.Turn.{
  set_bits, set_bits_less, Cleared, InTurn, Turned, moved, moved-wrap_hand, moved-InTurn,
  moved-Turned,
}

abbrev pub Found : Paging → List ℕ → (ℕ → ℕ) → ℕ → Type 0
Found s l word n = (f : ℕ) × (s' : Paging) × (turn n s ≡ some (f, s')) × Turned s l word f s'

-- The entry at the hand
abbrev at_hand : Paging → Entry
at_hand s = s.entries (page_word s.frames.fifo_hand s)

-- The tests of the loop's body
abbrev pick {ℓ} : {A : Type ℓ} → Bool → Bool → Bool → Option A → Option A → Option A → Option A
pick stop acc dirty found past_acc past_dirty =
    if stop
    then none
    else if not acc && not dirty
    then found
    else if acc && not dirty
    then past_acc
    else if acc && dirty
    then past_dirty
    else none

module _ {ℓ} {A : Type ℓ} (found past_acc past_dirty : Option A) where
  module _ (stop acc dirty : Bool) (s : stop ≡ false) where
    pick_found : acc ≡ false → dirty ≡ false → pick stop acc dirty found past_acc past_dirty ≡ found
    pick_found a d = rw (s, a, d) refl

    pick_acc : acc ≡ true → dirty ≡ false → pick stop acc dirty found past_acc past_dirty ≡ past_acc
    pick_acc a d = rw (s, a, d) refl

    pick_dirty :
        acc ≡ true → dirty ≡ true → pick stop acc dirty found past_acc past_dirty ≡ past_dirty
    pick_dirty a d = rw (s, a, d) refl

-- The loop's body, where the hand is not at the head
abbrev body : ℕ → Paging → Option (ℕ × Paging)
body n s =
    pick (s.frames.fifo_hand == fifo_tail || s.frames.fifo_hand == null_entry) (at_hand s).acc
      (at_hand s).dirty (some (s.frames.frame_number s.frames.fifo_hand, advance s))
      (turn n (wrap_hand (advance (clear_acc (page_word s.frames.fifo_hand s) s))))
      (turn n (wrap_hand (advance (clear_dirty (page_word s.frames.fifo_hand s) s))))

turn-body :
    (n : ℕ) (s : Paging) → (s.frames.fifo_hand == fifo_head) ≡ false → turn (suc n) s ≡ body n s
unfolding turn
turn-body n s e = rw e refl

module _ {l : List ℕ} {word : ℕ → ℕ} (s : Paging) (v : InTurn s l word) (n : ℕ) where
  hand-lt : s.frames.fifo_hand < nframes
  hand-lt = v.queue.lined.frames s.frames.fifo_hand v.hand

  runs : turn (suc n) s ≡ body n s
  runs = turn-body n s (ground (arith, hand-lt))

  goes : (s.frames.fifo_hand == fifo_tail || s.frames.fifo_hand == null_entry) ≡ false
  goes = ground (arith, hand-lt)

  turn-clean : (at_hand s).acc ≡ false → (at_hand s).dirty ≡ false → Found s l word (suc n)
  turn-clean a d = (
    s.frames.fifo_hand,
    advance s,
    runs
        ∙ pick_found _ _ _ _ _ _ goes a d
        ∙ ap (λ i. some (i, advance s)) (v.queue.numbers s.frames.fifo_hand hand-lt),
    record {
      member = v.hand;
      clean =
          subst (λ w. ((s.entries w).acc || (s.entries w).dirty) ≡ false)
            (v.words s.frames.fifo_hand) (rw (a, d) refl);
      base = λ w. refl;
      kept = refl;
    },
  )

  -- The rest of the loop, after a step that stored `e`
  module _ (e : Entry) (c : Cleared (at_hand s) e) where
    further :
        turn (suc n) s ≡ turn n (moved e s) → Found (moved e s) l word n → Found s l word (suc n)
    further eq r = (r.0, r.1, eq ∙ r.2, moved-Turned s e r.0 r.1 v c.fewer r.3)

    fewer_bits : set_bits (moved e s).entries word l < set_bits s.entries word l
    fewer_bits =
        subst (λ w. set_bits (put s.entries w e) word l < set_bits s.entries word l)
          (sym (v.words s.frames.fifo_hand))
          (set_bits_less s.entries word l s.frames.fifo_hand e v.hand
            (subst (λ w. Cleared (s.entries w) e) (v.words s.frames.fifo_hand) c))

  turn-acc :
      (at_hand s).acc ≡ true
      → (at_hand s).dirty ≡ false
      → turn (suc n) s ≡ turn n (moved (record (at_hand s) { acc = false }) s)
  turn-acc a d =
      runs
      ∙ pick_acc _ _ _ _ _ _ goes a d
      ∙ ap (turn n) (moved-wrap_hand (record (at_hand s) { acc = false }) s)

  turn-dirty :
      (at_hand s).acc ≡ true
      → (at_hand s).dirty ≡ true
      → turn (suc n) s ≡ turn n (moved (record (at_hand s) { dirty = false }) s)
  turn-dirty a d =
      runs
      ∙ pick_dirty _ _ _ _ _ _ goes a d
      ∙ ap (turn n) (moved-wrap_hand (record (at_hand s) { dirty = false }) s)

acc-Cleared : (e : Entry) → e.acc ≡ true → e.dirty ≡ false → Cleared e (record e { acc = false })
acc-Cleared e a d = record {
  fewer = record { base = refl; acc = λ t. absurd (cc); dirty = λ t. t };
  less = rw (a, d) (omega arith);
}

dirty-Cleared : (e : Entry) → e.acc ≡ true → e.dirty ≡ true → Cleared e (record e { dirty = false })
dirty-Cleared e a d = record {
  fewer = record { base = refl; acc = λ t. t; dirty = λ t. absurd (cc) };
  less = rw (a, d) (omega arith);
}

module _ {l : List ℕ} {word : ℕ → ℕ} where
  -- From a page of the queue the hand stops, after one step for each bit that is set at most.
  pub turn-Turned :
      (n : ℕ) (s : Paging) → InTurn s l word → set_bits s.entries word l < n → Found s l word n
  turn-Turned zero s v lt = absurd (omega arith)
  turn-Turned (suc n) s v lt = elim (Bool-cases (at_hand s).acc) [
    | inl a ↦ elim (Bool-cases (at_hand s).dirty) [
      | inl d ↦
          let e : Entry = record (at_hand s) { dirty = false } in
          let c = dirty-Cleared (at_hand s) a d in
          further s v n e c (turn-dirty s v n a d) (
            turn-Turned n (moved e s) (moved-InTurn s e v c.fewer (λ t. absurd (cc)))
              (omega (arith, fewer_bits s v n e c)))
      | inr d ↦
          let e : Entry = record (at_hand s) { acc = false } in
          let c = acc-Cleared (at_hand s) a d in
          further s v n e c (turn-acc s v n a d) (
            turn-Turned n (moved e s) (moved-InTurn s e v c.fewer (λ t. absurd (ground (arith))))
              (omega (arith, fewer_bits s v n e c)))
    ]
    | inr a ↦
        let sane =
          subst (λ w. (s.entries w).dirty ≡ true → (s.entries w).acc ≡ true)
            (sym (v.words s.frames.fifo_hand)) (v.accessed s.frames.fifo_hand v.hand) in
        turn-clean s v n a (ground arith)
  ]

-- The first access: the hand goes from the head to the oldest page.
pub turn-first :
    (n : ℕ) (s : Paging)
    → (s.frames.fifo_hand == fifo_head) ≡ true
    → (s.frames.fifo_hand == fifo_tail) ≡ false
    → (s.frames.fifo_prev fifo_head == fifo_head) ≡ false
    → (s.frames.fifo_prev fifo_head == fifo_tail) ≡ false
    → turn (suc n) s ≡ turn (suc n) (set_hand (s.frames.fifo_prev fifo_head) s)
unfolding turn
turn-first n s a b c d = rw (a, b, c, d) refl
