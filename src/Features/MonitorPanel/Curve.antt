-- ===== src/Features/MonitorPanel/Curve.antt =====
-- web/src/ui/features/monitor-panel.ts: the curve that a redraw shows.
use megapet.Common.{
  ℕ, ltb, ltb→lt, ◌≡◌, refl, sym, subst, if_cases, Bool, true, false, none, some, List, [], ◌∷◌,
  ◌++◌, last?, Num, arith,
}
use mathlib.Core.List.{append-nil}
use megapet.Engine.Series.{TimeSeries, SeriesPoint}
use megapet.Engine.Series.Compact as Compact
use megapet.Engine.Series.Compact.{Ascending, Ascending-append}
use megapet.Features.MonitorPanel.State.{MonitorPanel, Env}
use megapet.Features.MonitorPanel.Controls.{last_t, update_export_button}
use megapet.Features.MonitorPanel.Drawing.{Leading, leading, leading_of, listed, picture_of, draw}

module _ ⦃F : Num⦄ where
  last_t-same :
      (d : ℕ) (ps : List (SeriesPoint F.R))
      → Compact.last_t d ps ≡ (elim (last? ps) [ none ↦ d | some q ↦ q.t ])
  last_t-same d [] = refl
  last_t-same d (p ∷ []) = refl
  last_t-same d (p ∷ q ∷ qs) = last_t-later p q qs d
    where
      last_t-later :
          (p : SeriesPoint F.R) (q : SeriesPoint F.R) (qs : List (SeriesPoint F.R)) (d : ℕ)
          → Compact.last_t q.t qs ≡ (elim (last? (q ∷ qs)) [ none ↦ d | some r ↦ r.t ])
      last_t-later p q [] d = refl
      last_t-later p q (r ∷ rs) d = last_t-later q r rs d

  abbrev LeadAfter : TimeSeries F.R → Leading F.R → Type 0
  LeadAfter series l = Ascending 0 (series.points ++ listed l.lead)

  leading_of-Ascending :
      (dt : F.R) (focused : Bool) (now_ms : ℕ) (series : TimeSeries F.R) (p : MonitorPanel F.R)
      → Ascending 0 series.points
      → LeadAfter series (leading_of dt focused (last_t series) now_ms p)
  unfolding leading_of
  leading_of-Ascending dt false now_ms series p h =
      subst (Ascending 0) (sym (append-nil series.points)) h
  leading_of-Ascending dt true now_ms series p h =
      if_cases (LeadAfter series) (ltb (last_t series) now_ms) _ _
        (λ e.
          Ascending-append 0 series.points _ h
            (omega (arith, last_t-same 0 series.points, ltb→lt (last_t series) now_ms e)))
        λ _. subst (Ascending 0) (sym (append-nil series.points)) h

  -- The curve never runs back in time: if the samples of the series do not, neither do the points
  -- that a redraw shows, the provisional one at their end included, at any clock and in any state.
  pub draw-Ascending :
      (env : Env F.R) (series : TimeSeries F.R) (p : MonitorPanel F.R)
      → Ascending 0 series.points
      → Ascending 0 (draw env series p).picture.drawn
  unfolding draw update_export_button picture_of leading
  draw-Ascending env series p h = leading_of-Ascending _ _ _ series p h
