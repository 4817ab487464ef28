-- ===== src/Visuals/Pointer/Sweep.antt =====
-- web/src/ui/visuals/pointer.ts: the fall back to the stop is begun once.
use megapet.Common.{◌≡◌, refl, ap, ◌∙◌, Bool, true, not, ◌&&◌, Num, lt, arith, List, [], ◌∷◌}
use megapet.Visuals.Scale.{to_fraction}
use megapet.Visuals.Pointer.{Pointer, aim, asked, turned, update, fall, track}

module _ ⦃F : Num⦄ where
  -- What may come between a fall and its end: frames, and readings.
  pub data Input (R : Type 0) : Type 0 where
    frame reading : R → Input R

  abbrev pub respond : Input F.R → Pointer F.R → Pointer F.R
  respond (frame dt) p = update dt p
  respond (reading mbps) p = aim mbps p

  unfoldable pub run : List (Input F.R) → Pointer F.R → Pointer F.R
  run [] p = p
  run (i ∷ rest) p = run rest (respond i p)

  -- Every reading among the inputs counts as zero.
  abbrev pub idle : Input F.R → Bool
  idle (frame dt) = true
  idle (reading mbps) = not (F.is_finite mbps && lt (F.of_ℕ 0) mbps)

  abbrev pub all_idle : List (Input F.R) → Bool
  all_idle [] = true
  all_idle (i ∷ rest) = idle i && all_idle rest

  abbrev pub frames : List (Input F.R) → List (Input F.R)
  frames [] = []
  frames (frame dt ∷ rest) = frame dt ∷ frames rest
  frames (reading mbps ∷ rest) = frames rest

  record AtZero (p : Pointer F.R) : Type 0 where
    pub aimed : p.aim_fraction ≡ F.of_ℕ 0
    pub target : p.target_mbps ≡ F.of_ℕ 0

  zero-fraction : to_fraction (F.of_ℕ 0) ≡ F.of_ℕ 0
  unfolding to_fraction
  zero-fraction = ground (arith, F.of_ℕ-le 0 1 (omega arith) (omega arith))

  zero-le-zero : F.le (F.of_ℕ 0) (F.of_ℕ 0) ≡ true
  zero-le-zero = F.le_refl _ (F.finite-not-nan _ (F.of_ℕ-finite 0 (omega arith)))

  asked-idle : (mbps : F.R) → idle (reading mbps) ≡ true → asked mbps ≡ F.of_ℕ 0
  unfolding asked
  asked-idle mbps h = ground arith

  aim-AtZero : (mbps : F.R) (p : Pointer F.R) → idle (reading mbps) ≡ true → AtZero (aim mbps p)
  unfolding aim
  aim-AtZero mbps p h = record {
    aimed = ap to_fraction (asked-idle mbps h) ∙ zero-fraction;
    target = asked-idle mbps h;
  }

  update-AtZero : (dt : F.R) (p : Pointer F.R) → AtZero p → AtZero (update dt p)
  unfolding update fall track
  update-AtZero dt p v = record {
    aimed = ground (arith, v.aimed);
    target = ground (arith, v.target);
  }

  turned-zero : (p : Pointer F.R) → p.aim_fraction ≡ F.of_ℕ 0 → turned (F.of_ℕ 0) p ≡ p
  unfolding turned
  turned-zero p h = ground (arith, zero-le-zero, h)

  aim-AtZero_same :
      (mbps : F.R) (p : Pointer F.R) → idle (reading mbps) ≡ true → AtZero p → aim mbps p ≡ p
  unfolding aim
  aim-AtZero_same mbps p h v =
      let value = asked-idle mbps h in
      let next = ap to_fraction value ∙ zero-fraction in
      ground (arith, value, next, turned-zero p v.aimed, v.aimed, v.target)

  run-frames :
      (inputs : List (Input F.R)) (p : Pointer F.R)
      → all_idle inputs ≡ true
      → AtZero p
      → run inputs p ≡ run (frames inputs) p
  unfolding run
  run-frames [] p h v = refl
  run-frames (frame dt ∷ rest) p h v = run-frames rest (update dt p) h (update-AtZero dt p v)
  run-frames (reading mbps ∷ rest) p h v =
      let idle_reading : idle (reading mbps) ≡ true = ground arith in
      ap (run rest) (aim-AtZero_same mbps p idle_reading v) ∙ run-frames rest p (ground arith) v

  -- Once the pointer has been sent to the stop, readings that count as zero, however often they are
  -- sent and between whichever frames, change nothing: the fall is begun once and runs as it would
  -- without them.
  pub aim-frames :
      (mbps : F.R) (inputs : List (Input F.R)) (p : Pointer F.R)
      → idle (reading mbps) ≡ true
      → all_idle inputs ≡ true
      → run inputs (aim mbps p) ≡ run (frames inputs) (aim mbps p)
  aim-frames mbps inputs p h k = run-frames inputs (aim mbps p) k (aim-AtZero mbps p h)
