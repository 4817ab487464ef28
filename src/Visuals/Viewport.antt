-- ===== src/Visuals/Viewport.antt =====
-- web/src/ui/visuals/viewport.ts: what part of a session the graph shows.
pub mod Bounds
pub mod Focus
mod Tests
use megapet.Common.{ℕ, ◌*◌, Bool, true, false, ◌&&◌, if◌then◌else◌, Num, max, min}

module _ ⦃F : Num⦄ where
  abbrev pub default_span_ms : F.R
  default_span_ms = F.of_ℕ 30000

  abbrev pub min_span_ms : F.R
  min_span_ms = F.of_ℕ 5000

  abbrev pub max_span_ms : F.R
  max_span_ms = F.of_ℕ (6 * 60 * 60 * 1000)

  abbrev pub headroom : F.R
  headroom = F.div (F.of_ℕ 8) (F.of_ℕ 100)

  abbrev pub lead_position : F.R
  lead_position = F.sub (F.of_ℕ 1) headroom

pub record Window (R : Type 0) : Type 0 where
  pub from_ms : R
  pub to_ms : R

pub record GraphViewport (R : Type 0) : Type 0 where
  pub span : R
  pub anchor : R
  pub following : Bool

module _ ⦃F : Num⦄ where
  -- `a === b`
  abbrev pub same : F.R → F.R → Bool
  same a b = F.le a b && F.le b a

  unfoldable pub clamp_span : (ms session_ms : F.R) → F.R
  clamp_span ms session_ms =
      let ceiling = max min_span_ms (min max_span_ms session_ms) in min ceiling (max min_span_ms ms)

  unfoldable pub new : GraphViewport F.R
  new = record { span = default_span_ms; anchor = F.of_ℕ 0; following = true }

  unfoldable pub window : (newest_ms : F.R) → GraphViewport F.R → Window F.R
  window newest_ms v =
      let from = F.sub newest_ms v.span in
      if v.following
      then record { from_ms = from; to_ms = F.add from (F.div v.span lead_position) }
      else record { from_ms = v.anchor; to_ms = F.add v.anchor v.span }

  unfoldable pub set_focus : Bool → GraphViewport F.R → GraphViewport F.R
  set_focus on v = record v { following = on }

  -- The session time under the fraction `at` of the plot.
  abbrev pub held : (newest_ms at : F.R) → GraphViewport F.R → F.R
  held newest_ms at v =
      let current = window newest_ms v in
      F.add current.from_ms (F.mul (F.sub current.to_ms current.from_ms) at)

  unfoldable pub zoom : (factor newest_ms at : F.R) → GraphViewport F.R → GraphViewport F.R
  zoom factor newest_ms at v =
      let next = clamp_span (F.mul v.span factor) newest_ms in
      if same next v.span then v else if v.following then record v { span = next } else record v {
        span = next;
        anchor = max (F.of_ℕ 0) (F.sub (held newest_ms at v) (F.mul next at));
      }

  -- How far the window may be slid.
  abbrev pub furthest : (newest_ms : F.R) → GraphViewport F.R → F.R
  furthest newest_ms v = max (F.of_ℕ 0) (F.sub newest_ms (F.mul v.span lead_position))

  unfoldable pub pan : (delta_ms newest_ms : F.R) → GraphViewport F.R → GraphViewport F.R
  pan delta_ms newest_ms v = record v {
    following = false;
    anchor =
        min (furthest newest_ms v) (max (F.of_ℕ 0) (F.add (window newest_ms v).from_ms delta_ms));
  }

  unfoldable pub fit : (oldest_ms newest_ms : F.R) → GraphViewport F.R → GraphViewport F.R
  fit oldest_ms newest_ms v = record {
    span = clamp_span (max min_span_ms (F.sub newest_ms oldest_ms)) newest_ms;
    anchor = max (F.of_ℕ 0) oldest_ms;
    following = false;
  }

  unfoldable pub reset : GraphViewport F.R → GraphViewport F.R
  reset v = record { span = default_span_ms; anchor = F.of_ℕ 0; following = true }

pub data Change (R : Type 0) : Type 0 where
  focuses : Bool → Change R
  zooms : (factor newest_ms at : R) → Change R
  pans fits : (a newest_ms : R) → Change R
  resets : Change R

module _ ⦃F : Num⦄ where
  unfoldable pub change : Change F.R → GraphViewport F.R → GraphViewport F.R
  change (focuses on) v = set_focus on v
  change (zooms factor newest_ms at) v = zoom factor newest_ms at v
  change (pans delta_ms newest_ms) v = pan delta_ms newest_ms v
  change (fits oldest_ms newest_ms) v = fit oldest_ms newest_ms v
  change resets v = reset v
