-- ===== src/Engine/Monitor.antt =====
-- web/src/engine/monitor.ts: the continuous monitor, as a state machine.
--
-- The state is a record, and each turn of the event loop that runs code of the monitor is an event:
-- a call from outside, a firing of the interval, a report of a phase, and each continuation of a
-- promise. The clocks that a turn reads, `performance.now()` and `new Date()`, come with it.
-- Objects that are compared or cancelled have numbers: an abort controller its stint's number, an
-- interval its timer's number. What the handlers are called with is appended to `log`.
pub mod Legs
pub mod Session
pub mod Stints
pub mod Bytes
pub mod Doing
pub mod Timeline
pub mod Winding
pub mod Ending
pub mod Hazards
mod Tests
use Prim.Native.String.{String}
use megapet.Common.{
  ℕ, ◌++◌, ◌+◌, ◌-◌, ◌*◌, ltb, leb, ◌==◌, if◌then◌else◌, Bool, true, false, not, ◌&&◌, ◌||◌, Option,
  none, some, List, [], ◌∷◌, is_some, Num, max,
}
use megapet.Engine.Transfer.{TransferTick}
use megapet.Engine.Series.{TimeSeries, SeriesPoint, add, clear, last}
use Legs.{Leg}
use Legs

pub record Directions : Type 0 where
  pub down : Bool
  pub up : Bool

unfoldable pub is_bidirectional : Directions → Bool
is_bidirectional d = d.down && d.up

unfoldable pub describe_directions : Directions → String
describe_directions d =
    if is_bidirectional d
    then "download and upload together"
    else if d.down
    then "download"
    else if d.up
    then "upload"
    else "nothing"

pub record MonitorUpdate (R : Type 0) : Type 0 where
  pub directions : Directions
  pub elapsed_ms : ℕ
  pub down_mbps : R
  pub up_mbps : R
  pub avg_down_mbps : R
  pub avg_up_mbps : R
  pub down_bytes : ℕ
  pub up_bytes : ℕ

-- A call of a handler.
pub data Call (R : Type 0) : Type 0 where
  on_update : MonitorUpdate R → Call R
  on_sample : TimeSeries R → Call R
  on_error : String → Call R
  -- a phase is constructed and run, for a stint; an upload is given the size of its chunks
  spawn_download : ℕ → Call R
  spawn_upload : ℕ → R → Call R

abbrev pub sample_ms : ℕ
sample_ms = 1000

abbrev pub series_capacity : ℕ
series_capacity = 600

pub data Key : Type 0 where
  down up : Key

-- What a promise was rejected with: an `Error` with its message, or another value as a string.
pub data Thrown : Type 0 where
  error other : String → Thrown

unfoldable pub describe_error : Thrown → String
describe_error (error message) = message
describe_error (other text) = text

pub record Clocks : Type 0 where
  pub now : ℕ
  pub date : ℕ

-- The parameters of a test that the monitor computes with.
pub record TestParams : Type 0 where
  pub upload_streams : ℕ
  pub upload_chunk_bytes : ℕ

pub record Monitor (R : Type 0) : Type 0 where
  pub params : TestParams
  pub running : Bool
  pub stopping : Bool
  pub series : TimeSeries R
  pub legs_down : Leg R
  pub legs_up : Leg R
  pub started_at : ℕ
  pub time_base : ℕ
  pub started_wall_clock : ℕ
  pub sampler : Option ℕ
  -- a handler object is installed
  pub handlers : Bool
  -- the resolver of the promise that `start` awaits is installed
  pub finished : Bool
  -- continuations of `start` that are due, their promise being resolved
  pub wakes : ℕ
  -- the intervals that the browser runs, and the next number for one
  pub timers : List ℕ
  pub next_timer : ℕ
  pub log : List (Call R)

module _ ⦃F : Num⦄ where
  abbrev pub directions : Monitor F.R → Directions
  directions m = record { down = Legs.running m.legs_down; up = Legs.running m.legs_up }

  unfoldable pub ever_measured : Monitor F.R → Directions
  ever_measured m = record { down = Legs.measured m.legs_down; up = Legs.measured m.legs_up }

  -- `this.series.last?.t ?? 0`
  abbrev pub last_sample : Monitor F.R → ℕ
  last_sample m = elim (last m.series) [ none ↦ 0 | some p ↦ p.t ]

  -- The clock of the session. `now` is never before `started_at`, both being `performance.now()`.
  abbrev pub session_clock : ℕ → Monitor F.R → ℕ
  session_clock now m = m.time_base + (now - m.started_at)

  unfoldable pub elapsed_ms : ℕ → Monitor F.R → ℕ
  elapsed_ms now m =
      if not m.running
      then last_sample m
      else if ltb (session_clock now m) (last_sample m)
      then last_sample m
      else session_clock now m

  unfoldable pub clear_history : Monitor F.R → Monitor F.R
  clear_history m = if m.running then m else record m { series = clear m.series; time_base = 0 }

  unfoldable pub upload_chunk_bytes : Monitor F.R → F.R
  upload_chunk_bytes m =
      let observed = max (Legs.average_mbps m.legs_up) (Legs.average_mbps m.legs_down) in
      let streams = if ltb 1 m.params.upload_streams then m.params.upload_streams else 1 in
      if not (F.is_finite observed) || F.le observed (F.of_ℕ 0)
      then F.of_ℕ m.params.upload_chunk_bytes
      else F.round (
          F.mul (F.div (F.div (F.mul observed (F.of_ℕ 1000000)) (F.of_ℕ 8)) (F.of_ℕ streams))
            (F.div (F.of_ℕ 1) (F.of_ℕ 2)))

  -- `this.handlers?.…(…)`
  abbrev pub notify : Call F.R → Monitor F.R → Monitor F.R
  notify c m = if m.handlers then record m { log = m.log ++ c ∷ [] } else m

  unfoldable pub update_for : ℕ → Monitor F.R → MonitorUpdate F.R
  update_for now m = record {
    directions = directions m;
    elapsed_ms = elapsed_ms now m;
    down_mbps = Legs.live_mbps m.legs_down;
    up_mbps = Legs.live_mbps m.legs_up;
    avg_down_mbps = Legs.average_mbps m.legs_down;
    avg_up_mbps = Legs.average_mbps m.legs_up;
    down_bytes = Legs.bytes m.legs_down;
    up_bytes = Legs.bytes m.legs_up;
  }

  unfoldable pub emit : ℕ → Monitor F.R → Monitor F.R
  emit now m = notify (on_update (update_for now m)) m

  unfoldable pub sample : Clocks → Monitor F.R → Monitor F.R
  sample c m =
      let point : SeriesPoint F.R = record {
        t = session_clock c.now m;
        down = Legs.live_mbps m.legs_down;
        up = Legs.live_mbps m.legs_up;
      } in
      let added = record m { series = add point c.date c.now m.series } in
      emit c.now (notify (on_sample added.series) added)

  unfoldable pub settle_if_stopped : Monitor F.R → Monitor F.R
  settle_if_stopped m =
      if not m.stopping
      then m
      else if Legs.running m.legs_down || Legs.running m.legs_up
      then m
      else record m {
        running = false;
        stopping = false;
        wakes = if m.finished then m.wakes + 1 else m.wakes;
        finished = false;
      }

  unfoldable pub stop : Monitor F.R → Monitor F.R
  stop m =
      if not m.running || m.stopping
      then m
      else settle_if_stopped (record m {
        stopping = true;
        legs_down = Legs.stop m.legs_down;
        legs_up = Legs.stop m.legs_up;
      })

  -- `runLeg` up to its `await`: the leg starts, which runs its phase. A phase runs outside the
  -- handlers, so its start is logged in any case.
  unfoldable pub run_leg : Key → Monitor F.R → Monitor F.R
  run_leg down m = if Legs.running m.legs_down then m else record m {
    legs_down = Legs.start m.legs_down;
    log = m.log ++ spawn_download m.legs_down.next_stint ∷ [];
  }
  run_leg up m =
      if Legs.running m.legs_up
      then m
      else let started = record m { legs_up = Legs.start m.legs_up } in
        record started {
          log = m.log ++ spawn_upload m.legs_up.next_stint (upload_chunk_bytes started) ∷ [];
        }

  -- One round of the loop of `setDirections`.
  unfoldable pub turn_down : Bool → Monitor F.R → Monitor F.R
  turn_down next m =
      if next && not (Legs.running m.legs_down)
      then run_leg down m
      else if not next && Legs.running m.legs_down
      then record m { legs_down = Legs.stop m.legs_down }
      else m

  unfoldable pub turn_up : Bool → Monitor F.R → Monitor F.R
  turn_up next m =
      if next && not (Legs.running m.legs_up)
      then run_leg up m
      else if not next && Legs.running m.legs_up
      then record m { legs_up = Legs.stop m.legs_up }
      else m

  unfoldable pub set_directions : ℕ → Directions → Monitor F.R → Monitor F.R
  set_directions now next m =
      if not m.running then m else emit now (turn_up next.up (turn_down next.down m))

  -- `start` before it runs the legs: the session is opened and its interval set.
  unfoldable pub open_session : Clocks → Monitor F.R → Monitor F.R
  open_session c m = record m {
    running = true;
    stopping = false;
    handlers = true;
    time_base = elim (last m.series) [ none ↦ 0 | some p ↦ p.t + sample_ms ];
    started_wall_clock = elim (last m.series) [ none ↦ c.date | some p ↦ m.started_wall_clock ];
    started_at = c.now;
    sampler = some m.next_timer;
    timers = m.next_timer ∷ m.timers;
    next_timer = m.next_timer + 1;
    finished = true;
  }

  -- `start` up to its `await`.
  unfoldable pub start : Clocks → Directions → Monitor F.R → Monitor F.R
  start c next m =
      if m.running
      then m
      else let opened = open_session c m in
        let one = if next.down then run_leg down opened else opened in
        if next.up then run_leg up one else one

  abbrev pub remove : ℕ → List ℕ → List ℕ
  remove n [] = []
  remove n (t ∷ ts) = if t == n then ts else t ∷ remove n ts

  -- The rest of `start`, once its promise is resolved.
  unfoldable pub conclude : Clocks → Monitor F.R → Monitor F.R
  conclude c m =
      let quiet = record m {
        timers = elim m.sampler [ none ↦ m.timers | some t ↦ remove t m.timers ];
        sampler = none;
      } in
      record (emit c.now (sample c quiet)) { handlers = false }

  -- The callbacks of a leg: a report, a failure, its end, and the rest of `runLeg`.
  unfoldable pub leg_tick : ℕ → Key → ℕ → TransferTick F.R → Monitor F.R → Monitor F.R
  leg_tick now down id t m =
      let (l, current) = Legs.on_tick id t m.legs_down in
      if current then emit now (record m { legs_down = l }) else m
  leg_tick now up id t m =
      let (l, current) = Legs.on_tick id t m.legs_up in
      if current then emit now (record m { legs_up = l }) else m

  abbrev pub leg : Key → Monitor F.R → Leg F.R
  leg down m = m.legs_down
  leg up m = m.legs_up

  unfoldable pub leg_fails : Key → ℕ → Thrown → Monitor F.R → Monitor F.R
  leg_fails k id thrown m =
      if Legs.fails id (leg k m) then stop (notify (on_error (describe_error thrown)) m) else m

  unfoldable pub leg_ends : Key → ℕ → Monitor F.R → Monitor F.R
  leg_ends down id m = record m { legs_down = Legs.end id m.legs_down }
  leg_ends up id m = record m { legs_up = Legs.end id m.legs_up }

module _ ⦃F : Num⦄ where
  unfoldable pub new : TestParams → TimeSeries F.R → (date : ℕ) → Monitor F.R
  new params series date = record {
    params = params;
    running = false;
    stopping = false;
    series = series;
    legs_down = Legs.new;
    legs_up = Legs.new;
    started_at = 0;
    time_base = 0;
    started_wall_clock = date;
    sampler = none;
    handlers = false;
    finished = false;
    wakes = 0;
    timers = [];
    next_timer = 0;
    log = [];
  }

pub data Event (R : Type 0) : Type 0 where
  starts sets : Directions → Event R
  stops clears : Event R
  -- the interval with this number fires
  fires : ℕ → Event R
  ticks : Key → ℕ → TransferTick R → Event R
  fails : Key → ℕ → Thrown → Event R
  ends : Key → ℕ → Event R
  -- the rest of `runLeg`, and the rest of `start`
  leg_resumes session_resumes : Event R

module _ ⦃F : Num⦄ where
  unfoldable pub step : Clocks → Event F.R → Monitor F.R → Monitor F.R
  step c (starts d) m = start c d m
  step c (sets d) m = set_directions c.now d m
  step c stops m = stop m
  step c clears m = clear_history m
  step c (fires t) m = if Legs.contains t m.timers then sample c m else m
  step c (ticks k id t) m = leg_tick c.now k id t m
  step c (fails k id e) m = leg_fails k id e m
  step c (ends k id) m = leg_ends k id m
  step c leg_resumes m = settle_if_stopped m
  step c session_resumes m =
      if ltb 0 m.wakes then conclude c (record m { wakes = m.wakes - 1 }) else m
