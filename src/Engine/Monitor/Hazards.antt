-- ===== src/Engine/Monitor/Hazards.antt =====
-- monitor.ts: orders of events in which the session does not do what it was asked.
use megapet.Common.{
  ℕ, ◌++◌, max, ◌+◌, ◌-◌, true, false, none, some, List, [], ◌∷◌, ◌≡◌, refl, ap, ◌∙◌, Num, arith,
}
use megapet.Engine.Monitor.Legs
use megapet.Engine.Monitor.{
  Monitor, Directions, Clocks, Key, down, up, sets, ends, leg_resumes, session_resumes, step, leg,
  start, stop, set_directions, turn_down, turn_up, run_leg, emit, settle_if_stopped, open_session,
  leg_ends, remove, spawn_upload, upload_chunk_bytes,
}
use megapet.Engine.Monitor.Legs.{contains, holds, idle}
use megapet.Engine.Monitor.Session.{IsSession}
use megapet.Engine.Monitor.Stints.{IsLeg, Quiet-idle, not-contains}
use megapet.Engine.Monitor.Bytes.{wanted, same_key, step-next_leg}
use megapet.Engine.Monitor.Ending.{conclude-fields}

module _ ⦃F : Num⦄ where
  abbrev pub both : Directions
  both = record { down = true; up = true }

  -- `setDirections` does not look at `stopping`: while a stopped session waits for its upload to
  -- wind down, asking for both directions starts a new download whose signal is not aborted, and
  -- no further `stop` has any effect.
  pub restart_while_stopping :
      (now : ℕ) (m : Monitor F.R)
      → m.running ≡ true
      → m.stopping ≡ true
      → Legs.running m.legs_down ≡ false
      → Legs.running m.legs_up ≡ true
      → IsLeg m.legs_down
      → let n = set_directions now both m in
        (n.legs_down.controller ≡ some m.legs_down.next_stint)
        × (contains m.legs_down.next_stint n.legs_down.aborted ≡ false)
        × (stop n ≡ n)
  unfolding set_directions turn_down turn_up run_leg emit stop Legs.start
  restart_while_stopping now m r s d u v =
      ground (arith, not-contains m.legs_down.next_stint m.legs_down.aborted v.past)

  -- Both directions but this one, whatever the other is doing.
  abbrev pub without : Key → Monitor F.R → Directions
  without down m = record { down = false; up = Legs.running m.legs_up }
  without up m = record { down = Legs.running m.legs_down; up = false }

  wanted-both : (k : Key) → wanted k both ≡ true
  wanted-both down = refl
  wanted-both up = refl

  wanted-without : (k : Key) (m : Monitor F.R) → wanted k (without k m) ≡ false
  wanted-without down m = refl
  wanted-without up m = refl

  same_key_refl : (k : Key) → same_key k k ≡ true
  same_key_refl down = refl
  same_key_refl up = refl

  sets-flags :
      (c : Clocks) (d : Directions) (m : Monitor F.R)
      → ((step c (sets d) m).running ≡ m.running) × ((step c (sets d) m).stopping ≡ m.stopping)
  unfolding step set_directions turn_down turn_up run_leg emit
  sets-flags c d m = ground arith

  ends-flags :
      (c : Clocks) (k : Key) (id : ℕ) (m : Monitor F.R)
      → ((step c (ends k id) m).running ≡ m.running)
        × ((step c (ends k id) m).stopping ≡ m.stopping)
  unfolding step leg_ends
  ends-flags c down id m = (refl, refl)
  ends-flags c up id m = (refl, refl)

  resumed-running :
      (c : Clocks) (m : Monitor F.R)
      → m.stopping ≡ false
      → (step c leg_resumes m).running ≡ m.running
  unfolding step settle_if_stopped
  resumed-running c m h = ground arith

  stop-start-end :
      (id : ℕ) (l : Legs.Leg F.R)
      → l.controller ≡ some id
      → ((Legs.start (Legs.stop l)).controller ≡ some id)
        × (contains id (Legs.start (Legs.stop l)).aborted ≡ true)
        × ((Legs.start (Legs.stop l)).next_stint ≡ l.next_stint)
        × (Legs.running (Legs.end id (Legs.start (Legs.stop l))) ≡ false)
  unfolding Legs.start Legs.stop Legs.end
  stop-start-end id l h = ground arith

  -- A direction of a running session that is switched off and on again before its phase has wound
  -- down stays off: the second switch starts no stint, since it finds the leg running, and leaves
  -- the signal of the first aborted; when that phase ends and the rest of `runLeg` has run, the
  -- session still runs and the direction is off. This is so for either direction.
  pub switch_on_lost :
      (b c d e : Clocks) (k : Key) (id : ℕ) (m : Monitor F.R)
      → m.running ≡ true
      → m.stopping ≡ false
      → (leg k m).controller ≡ some id
      → let on = step c (sets both) (step b (sets (without k m)) m) in
        let n = step e leg_resumes (step d (ends k id) on) in
        ((leg k on).controller ≡ some id)
        × (contains id (leg k on).aborted ≡ true)
        × ((leg k on).next_stint ≡ (leg k m).next_stint)
        × (Legs.running (leg k n) ≡ false)
        × (n.running ≡ true)
  switch_on_lost b c d e k id m r s h =
      let off = step b (sets (without k m)) m in
      let on = step c (sets both) off in
      let over = step d (ends k id) on in
      let (r1, s1) = sets-flags b (without k m) m in
      let (r2, s2) = sets-flags c both off in
      let (r3, s3) = ends-flags d k id on in
      let stopped = step-next_leg b (sets (without k m)) k m in
      let begun = step-next_leg c (sets both) k off in
      let ended = step-next_leg d (ends k id) k on in
      let rested = step-next_leg e leg_resumes k over in
      let kept = resumed-running e over (s3 ∙ s2 ∙ s1 ∙ s) in
      let lost = stop-start-end id (leg k m) h in
      let one : leg k on ≡ Legs.start (Legs.stop (leg k m)) =
        ground (arith, begun, stopped, r, r1, wanted-both k, wanted-without k m) in
      let two : leg k (step e leg_resumes over) ≡ Legs.end id (Legs.start (Legs.stop (leg k m))) =
        ground (arith, rested, ended, one, same_key_refl k) in
      (
        ap (λ l. l.controller) one ∙ lost.0,
        ap (λ l. contains id l.aborted) one ∙ lost.1,
        ap (λ l. l.next_stint) one ∙ lost.2,
        ap (λ l. Legs.running l) two ∙ lost.3,
        kept ∙ r3 ∙ r2 ∙ r1 ∙ r,
      )

  stop-off :
      (m : Monitor F.R)
      → m.running ≡ true
      → m.stopping ≡ false
      → Legs.running m.legs_down ≡ false
      → Legs.running m.legs_up ≡ false
      → IsSession m
      → ((stop m).running ≡ false)
        × ((stop m).wakes ≡ m.wakes + 1)
        × ((stop m).timers ≡ m.timers)
        × ((stop m).next_timer ≡ m.next_timer)
  unfolding stop settle_if_stopped Legs.stop
  stop-off m r s p q v = ground arith

  start-opens :
      (c : Clocks) (d : Directions) (m : Monitor F.R)
      → m.running ≡ false
      → ((start c d m).running ≡ true)
        × ((start c d m).sampler ≡ some m.next_timer)
        × ((start c d m).timers ≡ m.next_timer ∷ m.timers)
        × ((start c d m).wakes ≡ m.wakes)
  unfolding start open_session run_leg
  start-opens c d m r = ground arith

  remove-head : (n : ℕ) (ts : List ℕ) → remove n (n ∷ ts) ≡ ts
  remove-head n ts = ground arith

  -- A session that is stopped while both directions are off has ended at once, but the rest of its
  -- `start` is still due. A session started before that runs loses its handlers and its interval to
  -- it, and the intervals that ran before it all still run.
  pub start_before_resume :
      (c : Clocks) (d : Directions) (m : Monitor F.R)
      → m.running ≡ true
      → m.stopping ≡ false
      → Legs.running m.legs_down ≡ false
      → Legs.running m.legs_up ≡ false
      → IsSession m
      → let n = step c session_resumes (start c d (stop m)) in
        (n.running ≡ true) × (n.handlers ≡ false) × (n.sampler ≡ none) × (n.timers ≡ m.timers)
  unfolding step
  start_before_resume c d m r s p q v =
      let n = start c d (stop m) in
      ground (
        arith,
        stop-off m r s p q v,
        start-opens c d (stop m),
        conclude-fields c (record n { wakes = n.wakes - 1 }),
        remove-head n.next_timer m.timers,
        remove-head m.next_timer m.timers,
      )

  -- The size of an upload's chunks is worked out after the leg's report is reset: an upload that
  -- starts while the download is off gets the configured size, whatever it reached before.
  run_leg-chunk :
      (m : Monitor F.R)
      → Legs.running m.legs_down ≡ false
      → Legs.running m.legs_up ≡ false
      → IsLeg m.legs_down
      → (run_leg up m).log
        ≡ m.log ++ spawn_upload m.legs_up.next_stint (F.of_ℕ m.params.upload_chunk_bytes) ∷ []
  unfolding run_leg upload_chunk_bytes Legs.start max
  run_leg-chunk m d u v =
      let fin = F.of_ℕ-finite 0 (omega arith) in
      ground (
        arith,
        Quiet-idle m.legs_down.controller m.legs_down.tick d v.quiet,
        F.finite-not-nan _ fin,
        F.le_refl (F.of_ℕ 0) (F.finite-not-nan _ fin),
        fin,
      )
