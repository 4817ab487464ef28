-- ===== src/Engine/Monitor/Tests.antt =====
-- Runs of the monitor at concrete events, and the theorems applied to them.
use megapet.Common.{ℕ, ◌≡◌, refl, [], ◌∷◌, Option, some, arith, true, false, max}
use megapet.Common.Sample.{sample_num}
use megapet.Engine.Transfer.{TransferTick}
use megapet.Engine.Series.{
  TimeSeries, clean, cleaned, raise, average, merge, store, compact, add, clear,
}
use megapet.Engine.Series.Validity.{IsValid}
use megapet.Engine.Monitor.Legs.{Leg, contains, bytes}
use megapet.Engine.Monitor.Legs
use megapet.Engine.Monitor.{
  Monitor, Directions, Clocks, down, up, starts, sets, stops, fires, ticks, ends, leg_resumes,
  session_resumes, step, start, stop, set_directions, turn_down, turn_up, run_leg, emit, sample,
  settle_if_stopped, open_session, conclude, clear_history, leg_tick, leg_fails, leg_ends, leg, new,
  update_for, elapsed_ms, upload_chunk_bytes, describe_directions, is_bidirectional, describe_error,
}
use megapet.Engine.Monitor.Session.{IsSession, step-IsSession}
use megapet.Engine.Monitor.Stints.{IsLeg}
use megapet.Engine.Monitor.Bytes.{IsLegs, step-bytes}
use megapet.Engine.Monitor.Doing.{doing, winding, step-doing}
use megapet.Engine.Monitor.Timeline.{OnTime, step-OnTime}
use megapet.Engine.Monitor.Ending.{stop-ends}
use megapet.Engine.Monitor.Winding.{wind_down}
use megapet.Engine.Monitor.Hazards.{
  both, restart_while_stopping, switch_on_lost, start_before_resume,
}

monitor : Unit {0}
unfolding new step start stop set_directions turn_down turn_up run_leg emit sample settle_if_stopped
    open_session conclude clear_history leg_tick leg_fails leg_ends update_for elapsed_ms
    upload_chunk_bytes Legs.start Legs.stop Legs.end Legs.on_tick Legs.fails Legs.live_mbps clean
    cleaned raise average merge store compact add clear max describe_error
monitor = tt

abbrev empty : TimeSeries (Option ℕ)
empty = record {
  points = [];
  interval = 1000;
  count = 0;
  began = 0;
  last_write = 0;
  max_down = some 0;
  max_up = some 0;
  capacity = 600;
}

abbrev fresh : Monitor (Option ℕ)
fresh = new (record { upload_streams = 2; upload_chunk_bytes = 4096 }) empty 9

abbrev at : ℕ → Clocks
at t = record { now = t; date = 0 }

abbrev tick_of : ℕ → ℕ → TransferTick (Option ℕ)
tick_of v n = record { live_mbps = some v; average_mbps = some v; bytes = n; progress = some 0 }

abbrev down_only : Directions
down_only = record { down = true; up = false }

-- A session with the download on, one report and one sample.
abbrev measured : Monitor (Option ℕ)
measured =
    step (at 1100) (fires 0)
      (step (at 600) (ticks down 0 (tick_of 80 500)) (step (at 100) (starts down_only) fresh))

history : measured.series.points ≡ record { t = 1000; down = some 80; up = some 0 } ∷ []
unfolding monitor
history = refl

totals :
    (bytes measured.legs_down ≡ 500)
    × (bytes (step (at 1200) (ends down 0) measured).legs_down ≡ 500)
    × (measured.running ≡ true)
unfolding monitor
totals = (refl, refl, refl)

names :
    (describe_directions both ≡ "download and upload together")
    × (describe_directions (record { down = false; up = false }) ≡ "nothing")
unfolding describe_directions is_bidirectional
names = (refl, refl)

empty-IsValid : IsValid empty
empty-IsValid = record { roomy = omega arith; bounded = omega arith; ordered = tt }

fresh-IsSession : IsSession fresh
unfolding monitor
fresh-IsSession = record { stop_runs = refl; down_runs = refl; up_runs = refl; awaited = refl }

measured-IsSession : IsSession measured
unfolding monitor
measured-IsSession = record { stop_runs = refl; down_runs = refl; up_runs = refl; awaited = refl }

measured-IsLegs : IsLegs measured
unfolding monitor
measured-IsLegs down = record { quiet = tt; numbered = omega arith; past = tt }
measured-IsLegs up = record { quiet = refl; numbered = tt; past = tt }

measured-OnTime : OnTime 1100 measured
unfolding monitor
measured-OnTime = record {
  valid = record { roomy = omega arith; bounded = omega arith; ordered = omega arith };
  begun = omega arith;
  reached = omega arith;
}

step-IsSession_example : IsSession (step (at 1200) stops measured)
step-IsSession_example = step-IsSession (at 1200) stops measured measured-IsSession

step-doing_example : doing (leg down (step (at 1200) stops measured)) ≡ winding
unfolding monitor
step-doing_example = step-doing (at 1200) stops down measured measured-IsLegs

step-bytes_example :
    bytes (leg down (step (at 1200) (ticks down 0 (tick_of 90 900)) measured)) ≡ 900
unfolding monitor
step-bytes_example =
    step-bytes (at 1200) (ticks down 0 (tick_of 90 900)) down measured measured-IsLegs

step-OnTime_example : OnTime 2100 (step (at 2100) (fires 0) measured)
step-OnTime_example = step-OnTime 1100 (at 2100) (fires 0) measured (omega arith) measured-OnTime

stop-ends_example :
    (step (at 1500) session_resumes (wind_down up false (stop measured))).timers ≡ []
unfolding monitor
stop-ends_example = (stop-ends (at 1500) up false measured refl refl measured-IsSession).3

-- Both directions on, then stopped; the download has ended and the upload is winding down.
abbrev waiting : Monitor (Option ℕ)
waiting = leg_ends down 0 (stop (step (at 1200) (sets both) measured))

waiting-IsLeg : IsLeg waiting.legs_down
unfolding monitor
waiting-IsLeg = record { quiet = refl; numbered = tt; past = (omega arith, tt) }

restart_while_stopping_example :
    stop (set_directions 1300 both waiting) ≡ set_directions 1300 both waiting
unfolding monitor
restart_while_stopping_example =
    (restart_while_stopping 1300 waiting refl refl refl refl waiting-IsLeg).2

abbrev switched_on : Monitor (Option ℕ)
switched_on =
    step (at 1300) (sets both)
      (step (at 1200) (sets (record { down = false; up = false })) measured)

switch_on_lost_example :
    Legs.running (leg down (step (at 1500) leg_resumes (step (at 1400) (ends down 0) switched_on)))
    ≡ false
unfolding monitor
switch_on_lost_example =
    (switch_on_lost (at 1200) (at 1300) (at 1400) (at 1500) down 0 measured refl refl refl).3

abbrev all_off : Monitor (Option ℕ)
all_off = step (at 100) (starts (record { down = false; up = false })) fresh

all_off-IsSession : IsSession all_off
unfolding monitor
all_off-IsSession = record { stop_runs = refl; down_runs = refl; up_runs = refl; awaited = refl }

start_before_resume_example :
    (step (at 300) session_resumes (start (at 300) both (stop all_off))).handlers ≡ false
unfolding monitor
start_before_resume_example =
    (start_before_resume (at 300) both all_off refl refl refl refl all_off-IsSession).1

all_off-IsLeg : IsLeg all_off.legs_down
unfolding monitor
all_off-IsLeg = record { quiet = refl; numbered = tt; past = tt }
