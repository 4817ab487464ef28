-- ===== src/Visuals/Viewport/Bounds.antt =====
-- web/src/ui/visuals/viewport.ts: the bounds of the span and of the left edge.
use megapet.Common.{
  ℕ, ◌≤◌, ◌≡◌, true, false, Num, max, max_safe, min-glb, max-ge_right, max-not-nan, min-not-nan,
  arith,
}
use megapet.Visuals.Viewport.{
  GraphViewport, Change, focuses, zooms, pans, fits, resets, min_span_ms, max_span_ms,
  lead_position, clamp_span, window, held, fit,
}

module _ ⦃F : Num⦄ where
  of_ℕ-not-nan : (n : ℕ) → n ≤ max_safe → F.is_nan (F.of_ℕ n) ≡ false
  of_ℕ-not-nan n h = F.finite-not-nan _ (F.of_ℕ-finite n h)

  min_span-not-nan : F.is_nan min_span_ms ≡ false
  min_span-not-nan = of_ℕ-not-nan 5000 (omega arith)

  max_span-not-nan : F.is_nan max_span_ms ≡ false
  max_span-not-nan = of_ℕ-not-nan 21600000 (omega arith)

  -- The span is between five seconds and six hours, the anchor not before the session.
  pub record IsView (v : GraphViewport F.R) : Type 0 where
    pub wide : F.le min_span_ms v.span ≡ true
    pub legible : F.le v.span max_span_ms ≡ true
    pub inside : F.le (F.of_ℕ 0) v.anchor ≡ true

  -- What the numbers given to a change have to be: none of those that it takes the greater or the
  -- lesser of is NaN.
  abbrev pub IsSane : Change F.R → GraphViewport F.R → Type 0
  IsSane (focuses on) v = Unit
  IsSane (zooms factor newest_ms at) v =
      (F.is_nan (F.mul v.span factor) ≡ false)
      × (F.is_nan newest_ms ≡ false)
      × (F.is_nan
            (F.sub (held newest_ms at v) (F.mul (clamp_span (F.mul v.span factor) newest_ms) at))
          ≡ false)
  IsSane (pans delta_ms newest_ms) v =
      (F.is_nan (F.sub newest_ms (F.mul v.span lead_position)) ≡ false)
      × (F.is_nan (F.add (window newest_ms v).from_ms delta_ms) ≡ false)
  IsSane (fits oldest_ms newest_ms) v =
      (F.is_nan (F.sub newest_ms oldest_ms) ≡ false)
      × (F.is_nan newest_ms ≡ false)
      × (F.is_nan oldest_ms ≡ false)
  IsSane resets v = Unit

  -- After a slide the window starts no later than where the newest reading stands at the lead
  -- position, or than the start of the session if that is later.
  abbrev pub StaysBehind : Change F.R → (before after : GraphViewport F.R) → Type 0
  StaysBehind (pans delta_ms newest_ms) v w =
      F.le (window newest_ms w).from_ms
        (max (F.of_ℕ 0) (F.sub newest_ms (F.mul v.span lead_position)))
      ≡ true
  StaysBehind c v w = Unit

  -- Fitting a session of at most six hours makes the span at least as long as it.
  fit-whole :
      (oldest_ms newest_ms : F.R) (v : GraphViewport F.R)
      → F.is_nan newest_ms ≡ false
      → F.le (F.sub newest_ms oldest_ms) newest_ms ≡ true
      → F.le (F.sub newest_ms oldest_ms) max_span_ms ≡ true
      → F.le (F.sub newest_ms oldest_ms) (fit oldest_ms newest_ms v).span ≡ true
  unfolding fit clamp_span
  fit-whole oldest_ms newest_ms v n h k =
      let low = min_span-not-nan in
      let cap = min-not-nan max_span_ms newest_ms max_span-not-nan n in
      let length = F.le-not-nan_left _ _ h in
      let asked = max-not-nan _ _ low length in
      min-glb _ _ _ (F.le_trans _ _ _ (min-glb _ _ _ k h) (max-ge_right _ _ low cap))
        (F.le_trans _ _ _ (max-ge_right _ _ low length) (max-ge_right _ _ low asked))
