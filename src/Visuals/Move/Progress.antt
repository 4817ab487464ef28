-- ===== src/Visuals/Move/Progress.antt =====
-- web/src/ui/visuals/move.ts: how far through its journey a move is.
use megapet.Common.{◌≡◌, Bool, true, false, not, if_cases, Num, min-glb, min-le_left, arith}
use megapet.Visuals.Move.{Move, new, start, snap, update, running, advanced}

module _ ⦃F : Num⦄ where
  -- Between the start of the journey and its end.
  pub record IsUnderWay (m : Move F.R) : Type 0 where
    pub begun : F.le (F.of_ℕ 0) m.t ≡ true
    pub bounded : F.le m.t (F.of_ℕ 1) ≡ true

  one-finite : F.is_finite (F.of_ℕ 1) ≡ true
  one-finite = F.of_ℕ-finite 1 (omega arith)

  zero-finite : F.is_finite (F.of_ℕ 0) ≡ true
  zero-finite = F.of_ℕ-finite 0 (omega arith)

  zero-le-one : F.le (F.of_ℕ 0) (F.of_ℕ 1) ≡ true
  zero-le-one = F.of_ℕ-le 0 1 (omega arith) (omega arith)

  one-le-one : F.le (F.of_ℕ 1) (F.of_ℕ 1) ≡ true
  one-le-one = F.le_refl _ (F.finite-not-nan _ one-finite)

  -- A frame's share of a move that is a number and not below zero.
  abbrev pub Forward : F.R → Move F.R → Type 0
  Forward dt m = F.le (F.of_ℕ 0) (F.div dt m.ms) ≡ true

  advanced-Between :
      (dt : F.R) (m : Move F.R)
      → Forward dt m
      → IsUnderWay m
      → (F.le m.t (advanced dt m) ≡ true) × (F.le (advanced dt m) (F.of_ℕ 1) ≡ true)
  advanced-Between dt m f v =
      let finite = F.finite_between _ _ _ zero-finite one-finite v.begun v.bounded in
      let further = F.add-ge m.t (F.div dt m.ms) finite f in
      (
        min-glb _ _ _ v.bounded further,
        min-le_left _ _ (F.finite-not-nan _ one-finite) (F.le-not-nan_right _ _ further),
      )

  pub update-IsUnderWay :
      (dt : F.R) (m : Move F.R) → Forward dt m → IsUnderWay m → IsUnderWay (update dt m).0
  unfolding update
  update-IsUnderWay dt m f v =
      let (low, high) = advanced-Between dt m f v in
      if_cases (λ (p : Move F.R × Bool). IsUnderWay p.0) (F.le (F.of_ℕ 1) m.t) _ _ (λ _. v)
        λ _. record { begun = F.le_trans _ _ _ v.begun low; bounded = high }

  -- A move that is running arrives on the frame on which it stops running, and on no other.
  pub update-arrives :
      (dt : F.R) (m : Move F.R)
      → Forward dt m
      → IsUnderWay m
      → running m ≡ true
      → (update dt m).1 ≡ not (running (update dt m).0)
  unfolding update running
  update-arrives dt m f v h = let (low, high) = advanced-Between dt m f v in ground (arith, high, h)

  pub start-IsUnderWay :
      (from to ms : F.R) (ease : F.R → F.R) (m : Move F.R)
      → IsUnderWay (start from to ms ease m) × (running (start from to ms ease m) ≡ true)
  unfolding start running
  start-IsUnderWay from to ms ease m =
      let zero_not_one = F.of_ℕ-lt 0 1 (omega arith) (omega arith) in
      (
        record { begun = F.le_refl _ (F.finite-not-nan _ zero-finite); bounded = zero-le-one },
        ground (arith, zero-le-one, zero_not_one),
      )

  pub snap-IsUnderWay :
      (to : F.R) (m : Move F.R) → IsUnderWay (snap to m) × (running (snap to m) ≡ false)
  unfolding snap running
  snap-IsUnderWay to m =
      (record { begun = zero-le-one; bounded = one-le-one }, ground (arith, one-le-one))

  pub new-IsUnderWay : IsUnderWay new × (running new ≡ false)
  unfolding new running
  new-IsUnderWay =
      (record { begun = zero-le-one; bounded = one-le-one }, ground (arith, one-le-one))
