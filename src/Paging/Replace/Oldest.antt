-- ===== src/Paging/Replace/Oldest.antt =====
-- get_free_frame_number: an unused frame, or under FIFO the frame of the oldest page.
use cs503_lab.Base.{
  ap, ℕ, ◌+◌, ◌-◌, ◌<◌, ◌≡◌, refl, ◌≢◌, inl, inr, true, false, List, ◌∷◌, arith, ◌==◌, remove, none,
  some, ltb,
}
use mathlib.Core.Path.{subst}
use cs503_lab.Frames.{
  Frames, FrameUse, is_page, is_null_page, nframes, fifo_head, null_entry, unlink_fifo, claim,
  find_null,
}
use cs503_lab.Frames.Claim.{
  IsFrames, LooseFrames, FirstNull, find_null-FirstNull, claimed, claim-IsFrames, null-LooseFrames,
  unlink-LooseFrames,
}
use cs503_lab.Paging.{Paging, fifo, get_store_offset, find_store}
use cs503_lab.Paging.Replace.{choose_oldest, choose, free_frame, get_free_frame_number}
use cs503_lab.Paging.Replace.Evict.{Evictable, Expected, Replaced, replace-Replaced}

-- Every frame is in use.
abbrev pub Full : Paging → Type 0
Full s = (i : ℕ) → i < nframes → is_null_page (s.frames.use_of i) ≡ false

-- `wait(get_frame_sem)`
abbrev pub enter : Paging → Paging
enter s = record s { get_frame_sem = s.get_frame_sem - 1 }

-- While a frame is unused, the unused frame with the lowest number is given, nothing else changes,
-- and the queue stays the list of the frames that hold pages.
pub get_free_frame_number-FirstNull :
    {s : Paging} {l : List ℕ} (pid vpn : ℕ) (purpose : FrameUse)
    → IsFrames s.frames l
    → s.get_frame_sem ≢ 0
    → (i : ℕ) → i < nframes
    → is_null_page (s.frames.use_of i) ≡ true
    → (f : ℕ) × FirstNull s.frames 0 nframes f
      × (get_free_frame_number pid vpn purpose s
          ≡ some (f, record s { frames = claim f pid vpn purpose s.frames }))
      × IsFrames (claim f pid vpn purpose s.frames) (claimed purpose f l)
unfolding get_free_frame_number free_frame
get_free_frame_number-FirstNull {s} {l} pid vpn purpose v sem i lt e =
    let free : (s.get_frame_sem == 0) ≡ false = ground arith in
    let restored : s.get_frame_sem - 1 + 1 ≡ s.get_frame_sem = omega arith in
    elim (find_null-FirstNull s.frames nframes 0) [
      | inl h ↦ (
        h.0,
        h.2,
        rw (free, h.1, restored) refl,
        claim-IsFrames pid vpn purpose
            (null-LooseFrames h.0 v (omega (arith, h.2.within)) h.2.unused),
      )
      | inr h ↦ absurd (ground (arith, h.1 i (omega arith) lt))
    ]

Evictable-taken :
    {f : ℕ} {s : Paging} {id page : ℕ} (t : Frames)
    → t.owner ≡ s.frames.owner
    → t.vpage_num ≡ s.frames.vpage_num
    → t.use_of ≡ s.frames.use_of
    → Evictable f s id page
    → Evictable f (record (enter s) { frames = t }) id page
unfolding get_store_offset find_store
Evictable-taken {f} {s} {id} {page} t o w u e = record {
  mapped = rw (o, w) (e.mapped);
  store = e.store;
  in_table = rw (o, w) (e.in_table);
  table = rw (o, w, u) (e.table);
}

remove_first : (f : ℕ) (l : List ℕ) → remove f (f ∷ l) ≡ l
remove_first f l = let same : (f == f) ≡ true = ground arith in rw same refl

-- Under FIFO the oldest page is chosen, and leaves the queue.
choose-oldest :
    {f : ℕ} (s : Paging) {l : List ℕ}
    → IsFrames s.frames (f ∷ l)
    → s.currpolicy ≡ fifo
    → choose s ≡ some (f, record s { frames = unlink_fifo f s.frames })
unfolding choose choose_oldest
choose-oldest {f} s v policy =
    let lt : f < nframes = v.lined.frames f (ground arith) in
    let first : s.frames.fifo_prev fifo_head ≡ f = v.lined.chain.0.0 in
    let there : ltb f nframes ≡ true = ground arith in
    let known : (f == null_entry) ≡ false = ground arith in
    let is : (s.currpolicy == fifo) ≡ true = ground arith in
    let held : is_page (s.frames.use_of f) ≡ true = ground (arith, v.pages f) in
    rw (first, known, is, v.numbers f lt, held, there) refl

module _ {f : ℕ} (s : Paging) {l : List ℕ} (v : IsFrames s.frames (f ∷ l)) where
  taken : LooseFrames f (unlink_fifo f s.frames) l
  taken =
      subst (LooseFrames f (unlink_fifo f s.frames)) (remove_first f l)
        (unlink-LooseFrames f v (ground arith))

  -- When every frame is in use, FIFO takes the frame of the oldest page, if that page's store can be
  -- written and the hook expects it: the call returns, and the page is replaced.
  pub get_free_frame_number-Replaced :
      {id page : ℕ} (pid vpn : ℕ) (purpose : FrameUse)
      → s.get_frame_sem ≢ 0
      → Full s
      → s.currpolicy ≡ fifo
      → Evictable f s id page
      → Expected f s
      → (s' : Paging) × (get_free_frame_number pid vpn purpose s ≡ some (f, s'))
        × Replaced f pid vpn purpose id page s s' l
  unfolding get_free_frame_number free_frame unlink_fifo
  get_free_frame_number-Replaced {id} {page} pid vpn purpose sem full policy e x =
      let free : (s.get_frame_sem == 0) ≡ false = ground arith in
      let none_left : find_null s.frames nframes 0 ≡ none =
        elim (find_null-FirstNull s.frames nframes 0) [
          | inl h ↦ absurd (ground (arith, h.2.unused, full h.0 (omega (arith, h.2.within))))
          | inr h ↦ h.0
        ] in
      let t : Paging = record (enter s) { frames = unlink_fifo f s.frames } in
      let r =
        replace-Replaced {s = t} pid vpn purpose
          (Evictable-taken (unlink_fifo f s.frames) refl refl refl e)
          (record { alive = x.alive; next_page = x.next_page; next_proc = x.next_proc }) taken in
      (
        record (r.0) { get_frame_sem = r.0.get_frame_sem + 1 },
        rw (free, none_left, choose-oldest (enter s) v policy, r.1) refl,
        record {
          queue = r.2.queue;
          given = r.2.given;
          for_page = r.2.for_page;
          unmapped = r.2.unmapped;
          bits = r.2.bits;
          hand = r.2.hand;
          stored = r.2.stored;
          checked = r.2.checked;
          base = r.2.base;
          pres = r.2.pres;
          kept =
              ap {A = Paging} {B = Paging} (λ p. record p { get_frame_sem = r.0.get_frame_sem + 1 })
                r.2.kept;
          sem = omega (arith, r.2.sem, sem);
        },
      )
