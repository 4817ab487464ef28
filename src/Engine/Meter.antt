-- ===== src/Engine/Meter.antt =====
-- web/src/engine/meter.ts: transferred bytes, and the rates over a window and over the measurement.
--
-- Times are whole milliseconds of one clock that never runs backwards, and bytes are whole. Where
-- the source compares with `now - window`, which may lie before zero, the model adds the window on
-- the other side.
pub mod Window
pub mod Grace
mod Tests
use megapet.Common.{ℕ, ◌+◌, ◌-◌, ltb, if◌then◌else◌, Bool, true, false, List, [], ◌∷◌, ◌++◌, Num}

pub record Sample : Type 0 where
  pub t : ℕ
  pub bytes : ℕ

pub record RateMeter : Type 0 where
  pub total : ℕ
  pub samples : List Sample
  pub started_at : ℕ
  pub base_bytes : ℕ
  pub base_time : ℕ
  pub graced : Bool

abbrev pub history_ms : ℕ
history_ms = 6000

abbrev pub new : RateMeter
new = record {
  total = 0;
  samples = [];
  started_at = 0;
  base_bytes = 0;
  base_time = 0;
  graced = false;
}

unfoldable pub start : ℕ → RateMeter → RateMeter
start now m = record {
  started_at = now;
  base_time = now;
  base_bytes = 0;
  total = 0;
  graced = false;
  samples = record { t = now; bytes = 0 } ∷ [];
}

unfoldable pub add : ℕ → RateMeter → RateMeter
add bytes m = record m { total = m.total + bytes }

-- `this.total - this.baseBytes`, which is never negative: the base is an earlier total.
unfoldable pub measured_bytes : RateMeter → ℕ
measured_bytes m = m.total - m.base_bytes

unfoldable pub mark_grace : ℕ → RateMeter → RateMeter
mark_grace now m = record m { base_bytes = m.total; base_time = now; graced = true }

-- The loop of `sample`: entries go while the next one is older than the history.
unfoldable pub drop_old : ℕ → List Sample → List Sample
drop_old now [] = []
drop_old now (a ∷ []) = a ∷ []
drop_old now (a ∷ b ∷ rest) =
    let dropped = drop_old now (b ∷ rest) in
    if ltb (b.t + history_ms) now then dropped else a ∷ b ∷ rest

unfoldable pub sample : ℕ → RateMeter → RateMeter
sample now m = record m {
  samples = drop_old now (m.samples ++ record { t = now; bytes = m.total } ∷ []);
}

-- The loop of `live`: the last entry before the first that is newer than `now - window`.
unfoldable pub anchor_from : (window now : ℕ) → Sample → List Sample → Sample
anchor_from window now anchor [] = anchor
anchor_from window now anchor (s ∷ rest) =
    let further = anchor_from window now s rest in
    if ltb now (s.t + window) then anchor else further

module _ ⦃F : Num⦄ where
  unfoldable pub to_mbps : (bytes ms : ℕ) → F.R
  to_mbps bytes ms =
      if ltb 0 ms
      then F.div (F.div (F.mul (F.of_ℕ bytes) (F.of_ℕ 8)) (F.of_ℕ ms)) (F.of_ℕ 1000)
      else F.of_ℕ 0

  unfoldable pub live : (window now : ℕ) → RateMeter → F.R
  live window now m = elim m.samples [
    | [] ↦ F.of_ℕ 0
    | first ∷ rest ↦
        let anchor = anchor_from window now first (first ∷ rest) in
        to_mbps (m.total - anchor.bytes) (now - anchor.t)
  ]

  unfoldable pub final : ℕ → RateMeter → F.R
  final now m = to_mbps (m.total - m.base_bytes) (now - m.base_time)
