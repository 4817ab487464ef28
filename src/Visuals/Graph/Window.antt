-- ===== src/Visuals/Graph/Window.antt =====
-- web/src/ui/visuals/graph.ts: the points of a session that a view shows.
use megapet.Common.{
  ℕ, ◌≤◌, ◌≡◌, sym, ap, ◌∙◌, subst, true, false, Bool-cases, inl, inr, List, [], ◌∷◌, ◌++◌, All,
  Num, lt, max_safe, arith,
}
use mathlib.Core.List.{reverse, reverse-append, reverse-reverse}
use megapet.Engine.Series.{SeriesPoint}
use megapet.Engine.Series.Compact.{Ascending, Ascending-weaken}
use megapet.Visuals.Graph.{GraphView, skip, before, past, visible}
use megapet.Visuals.Graph.Skip.{
  Pairs, Pairs-reverse, Pairs-map, Pairs-suffix, All-reverse, Tight, Tight-append, skip-Tight,
  Follows, skip-IsSkipped,
}

module _ ⦃F : Num⦄ where
  lt-split : (a b : F.R) → lt a b ≡ true → (F.le a b ≡ true) × (F.le b a ≡ false)
  lt-split a b h = (ground arith, ground arith)

  lt-le_left : (a b c : F.R) → F.le a b ≡ true → lt b c ≡ true → lt a c ≡ true
  lt-le_left a b c h k =
      let (l, n) = lt-split b c k in
      elim (Bool-cases (F.le c a)) [
        | inl e ↦ ground (arith, F.le_trans c a b e h)
        | inr e ↦ ground (arith, F.le_trans a b c h l)
      ]

  lt-le_right : (a b c : F.R) → lt a b ≡ true → F.le b c ≡ true → lt a c ≡ true
  lt-le_right a b c h k =
      let (l, n) = lt-split a b h in
      elim (Bool-cases (F.le c a)) [
        | inl e ↦ ground (arith, F.le_trans b c a k e)
        | inr e ↦ ground (arith, F.le_trans a b c l k)
      ]

  -- The points of a session, in order, at times that are exact as numbers.
  abbrev pub Timed : List (SeriesPoint F.R) → Type 0
  Timed ps = All (λ p. p.t ≤ max_safe) ps

  abbrev Earlier : SeriesPoint F.R → SeriesPoint F.R → Type 0
  Earlier p q = F.le (F.of_ℕ p.t) (F.of_ℕ q.t) ≡ true

  Ascending-All :
      (lo : ℕ) (ps : List (SeriesPoint F.R))
      → Ascending lo ps
      → Timed ps
      → All (λ q. F.le (F.of_ℕ lo) (F.of_ℕ q.t) ≡ true) ps
  Ascending-All lo [] v w = tt
  Ascending-All lo (p ∷ ps) (h, v) (w, ws) =
      (F.of_ℕ-le lo p.t h w, Ascending-All lo ps (Ascending-weaken lo p.t ps h v) ws)

  Ascending-Pairs :
      (lo : ℕ) (ps : List (SeriesPoint F.R)) → Ascending lo ps → Timed ps → Pairs Earlier ps
  Ascending-Pairs lo [] v w = tt
  Ascending-Pairs lo (p ∷ ps) (h, v) (w, ws) =
      (Ascending-All p.t ps v ws, Ascending-Pairs p.t ps v ws)

  Pairs-before :
      (view : GraphView F.R) (ps : List (SeriesPoint F.R))
      → Pairs Earlier ps
      → Pairs (Follows (before view)) ps
  Pairs-before view ps v =
      Pairs-map Earlier (Follows (before view)) (λ p q h k. lt-le_left _ _ view.from_ms h k) ps v

  Pairs-past :
      (view : GraphView F.R) (ps : List (SeriesPoint F.R))
      → Pairs Earlier ps
      → Pairs (Follows (past view)) (reverse ps)
  Pairs-past view ps v =
      Pairs-map (λ p q. Earlier q p) (Follows (past view))
        (λ p q h k. lt-le_right view.to_ms _ _ k h) (reverse ps) (Pairs-reverse Earlier ps v)

  pub record IsWindow (view : GraphView F.R) (points shown : List (SeriesPoint F.R)) : Type 0 where
    pub earlier : List (SeriesPoint F.R)
    pub later : List (SeriesPoint F.R)
    pub whole : points ≡ earlier ++ (shown ++ later)
    pub early : All (λ p. before view p ≡ true) earlier
    pub late : All (λ p. past view p ≡ true) later
    -- one point at most on either side
    pub tight_from : Tight (before view) shown
    pub tight_to : Tight (past view) (reverse shown)

  -- Of a session's points in order, those that are drawn are a stretch: every point that is left out
  -- before it lies before the window and every one after it past the window, so no point in the window
  -- is missing; and at most its first point lies before the window, and at most its last past it.
  pub visible-IsWindow :
      (view : GraphView F.R) (points : List (SeriesPoint F.R))
      → Ascending 0 points
      → Timed points
      → IsWindow view points (visible points view)
  unfolding visible
  visible-IsWindow view points v w =
      let kept = skip (before view) points in
      let back = skip (past view) (reverse kept) in
      let pairs = Ascending-Pairs 0 points v w in
      let front = skip-IsSkipped (before view) points (Pairs-before view points pairs) in
      let rear = skip-IsSkipped (past view) (reverse kept) (
        Pairs-past view kept
          (Pairs-suffix Earlier front.left_out kept (subst (Pairs Earlier) front.whole pairs))) in
      let rest : kept ≡ reverse back ++ reverse rear.left_out =
        sym (reverse-reverse kept) ∙ ap reverse rear.whole ∙ reverse-append rear.left_out back in
      record {
        earlier = front.left_out;
        later = reverse rear.left_out;
        whole = front.whole ∙ ap (λ (t : List (SeriesPoint F.R)). front.left_out ++ t) rest;
        early = front.outside;
        late = All-reverse _ rear.left_out rear.outside;
        tight_from =
            Tight-append (before view) (reverse back) (reverse rear.left_out)
              (subst (Tight (before view)) rest (skip-Tight (before view) points));
        tight_to =
            subst (Tight (past view)) (sym (reverse-reverse back))
              (skip-Tight (past view) (reverse kept));
      }
