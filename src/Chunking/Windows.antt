-- ===== src/Chunking/Windows.antt =====
-- The windows of `_split_range`: bounded, in order, overlapping, and without a gap.
use contract_change_intel.Prelude.{
  ℕ, zero, suc, ◌+◌, ◌-◌, max, ◌≤◌, ◌<◌, Text, List, [], ◌∷◌, Option, none, some, ◌≡◌, refl, arith,
  ◌⊎◌, All, All-map_implies, length, Bool-cases, Option-cases, inl, inr, drop, get_elem?, lt→ltb,
  select-passes, ltb, leb,
}
use contract_change_intel.Chunking.{
  Window, max_chunk_chars, overlap_chars, window_stop, next_pos, split_loop, split_range,
  snap_backward, max_or, cut_or, max_found, rfind, is_char, snap_forward, spaces_before,
}

abbrev IsBelow : Option ℕ → ℕ → Type 0
IsBelow none limit = Unit
IsBelow (some i) limit = i < limit

IsBelow-suc : (o : Option ℕ) (i : ℕ) → IsBelow o i → IsBelow o (suc i)
IsBelow-suc none i h = tt
IsBelow-suc (some j) i h = omega arith

rfind-IsBelow : (c : ℕ) (text : Text) (floor limit : ℕ) → IsBelow (rfind c text floor limit) limit
unfolding rfind
rfind-IsBelow c text floor zero = tt
rfind-IsBelow c text floor (suc i) = elim (Bool-cases (ltb i floor)) [
  | inl e ↦ rw e tt
  | inr e ↦ rw e (elim (Bool-cases (is_char c (get_elem? text i))) [
    | inl here ↦ rw here (omega arith)
    | inr other ↦ rw other (IsBelow-suc (rfind c text floor i) i (rfind-IsBelow c text floor i))
  ])
]

cut_bounds :
    (a b : Option ℕ) (floor limit : ℕ)
    → IsBelow a limit
    → IsBelow b limit
    → floor < limit
    → (floor < cut_or (max_found a b) floor limit) × (cut_or (max_found a b) floor limit ≤ limit)
cut_bounds none none floor limit p q h = (h, omega arith)
cut_bounds none (some j) floor limit p q h = ground arith
cut_bounds (some i) none floor limit p q h = ground arith
cut_bounds (some i) (some j) floor limit p q h = ground arith

-- A cut is in (floor, limit].
snap_backward_bounds :
    (text : Text) (limit floor : ℕ)
    → floor < limit
    → (floor < snap_backward text limit floor) × (snap_backward text limit floor ≤ limit)
unfolding snap_backward
snap_backward_bounds text limit floor h =
    cut_bounds _ _ floor limit (rfind-IsBelow 32 text floor limit)
      (rfind-IsBelow 10 text floor limit) h

max_or_bounds :
    (lo hi default : ℕ) (bs : List ℕ)
    → All (λ b. (lo < b) × (b ≤ hi)) bs
    → lo < default
    → default ≤ hi
    → (lo < max_or bs default) × (max_or bs default ≤ hi)
max_or_bounds lo hi default [] a p q = (p, q)
max_or_bounds lo hi default (b ∷ []) a p q = a.0
max_or_bounds lo hi default (b ∷ c ∷ bs) a p q =
    omega (arith, a.0, max_or_bounds lo hi default (c ∷ bs) a.1 p q)

snap_forward_bounds :
    (text : Text) (pos : ℕ) → (pos ≤ snap_forward text pos) ⊎ (snap_forward text pos ≡ length text)
unfolding snap_forward
snap_forward_bounds text pos = elim (Option-cases (spaces_before (drop pos text))) [
  | inl e ↦ rw e (inr refl)
  | inr (n, e) ↦ rw e (inl (omega arith))
]

module _ (max_chars overlap : ℕ) where
  -- Windows that follow a window `w` and go on to `end`: each has at least one character and at most
  -- `max_chars`, begins after the one before it has begun, and no more than `overlap` before its end
  -- nor after it.
  abbrev pub Follow : Window → ℕ → List Window → Type 0
  Follow w end [] = w.stop ≡ end
  Follow w end (v ∷ ws) =
      (w.start < v.start)
      × (v.start ≤ w.stop)
      × (w.stop ≤ v.start + overlap)
      × (v.start < v.stop)
      × (v.stop ≤ v.start + max_chars)
      × (v.stop ≤ end)
      × Follow v end ws

  -- Windows from `pos` to `end`.
  abbrev pub Cover : ℕ → ℕ → List Window → Type 0
  Cover pos end [] = ⊥
  Cover pos end (v ∷ ws) =
      (v.start ≡ pos)
      × (v.start < v.stop)
      × (v.stop ≤ v.start + max_chars)
      × (v.stop ≤ end)
      × Follow v end ws

module _ (max_chars overlap : ℕ) (room : 1 ≤ max_chars) where
  window_stop_bounds :
      (text : Text) (bounds : List ℕ) (pos : ℕ)
      → (pos < window_stop max_chars overlap text bounds pos)
        × (window_stop max_chars overlap text bounds pos ≤ pos + max_chars)
  unfolding window_stop
  window_stop_bounds text bounds pos =
      let cut = snap_backward_bounds text (pos + max_chars) pos (omega arith) in
      max_or_bounds pos (pos + max_chars) _ _
        (All-map_implies _ _ _ (λ b h. ground arith) (select-passes _ bounds)) cut.0 cut.1

  next_pos_bounds :
      (text : Text) (pos stop : ℕ)
      → pos < stop
      → stop ≤ length text
      → (pos < next_pos max_chars overlap text pos stop)
        × (next_pos max_chars overlap text pos stop ≤ stop)
        × (stop ≤ next_pos max_chars overlap text pos stop + overlap)
  unfolding next_pos
  next_pos_bounds text pos stop h k =
      ground (arith, snap_forward_bounds text (max (stop - overlap) (pos + 1)))

  Cover-Follow :
      (w : Window) (pos end : ℕ) (ws : List Window)
      → w.start < pos
      → pos ≤ w.stop
      → w.stop ≤ pos + overlap
      → Cover max_chars overlap pos end ws
      → Follow max_chars overlap w end ws
  Cover-Follow w pos end [] a b c h = absurd h
  Cover-Follow w pos end (v ∷ ws) a b c h =
      (omega arith, omega arith, omega arith, h.1, h.2, h.3, h.4)

  pub split_loop-Cover :
      (fuel : ℕ) (text : Text) (end : ℕ) (bounds : List ℕ) (pos : ℕ)
      → pos < end
      → end ≤ length text
      → end ≤ pos + fuel
      → Cover max_chars overlap pos end (split_loop max_chars overlap fuel text end bounds pos)
  unfolding split_loop
  split_loop-Cover zero text end bounds pos h k f = absurd (omega arith)
  split_loop-Cover (suc fuel) text end bounds pos h k f =
      rw (lt→ltb pos end h) (elim (Bool-cases (leb (end - pos) max_chars)) [
        | inl e ↦ rw e (refl, h, ground arith, omega arith, refl)
        | inr e ↦
            let long : pos + max_chars < end = ground arith in
            let stop = window_stop max_chars overlap text bounds pos in
            let b = window_stop_bounds text bounds pos in
            let n = next_pos_bounds text pos stop b.0 (omega (arith, b)) in
            let next = next_pos max_chars overlap text pos stop in
            rw e (
              refl,
              b.0,
              b.1,
              omega (arith, b),
              Cover-Follow (record { start = pos; stop = stop }) next end _ n.0 n.1 n.2
                  (split_loop-Cover fuel text end bounds next (omega (arith, n, b)) k
                    (omega (arith, n))),
            )
      ])

-- `_split_range` on [start, end) gives windows of 1 to 8000 characters, the first from `start` and
-- the last to `end`, each next one beginning inside the one before, at most 200 characters before
-- its end or at it.
pub split_range-Cover :
    (text : Text) (start end : ℕ) (bounds : List ℕ)
    → start < end
    → end ≤ length text
    → Cover max_chunk_chars overlap_chars start end (split_range text start end bounds)
unfolding split_range
split_range-Cover text start end bounds h k =
    split_loop-Cover max_chunk_chars overlap_chars (omega arith) (end - start) text end bounds start
      h k (omega arith)
