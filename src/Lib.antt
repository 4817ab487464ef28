-- ===== src/Lib.antt =====
-- A model of the megapet web client, its measuring engine and what shows a test, with the
-- theorems that hold of it.
--
-- The client measures a link. A test (web/src/engine/runner.ts) takes round trips, then runs a
-- download and an upload one after the other. A monitor session (web/src/engine/monitor.ts) runs
-- the two at once for as long as it is left on, and keeps a bounded history of what they reported
-- (web/src/engine/series.ts). Both use the transfer phases (web/src/engine/phases), which count
-- bytes in a meter (web/src/engine/meter.ts) and end on the clock. The graph of a session is read
-- through a viewport (web/src/ui/visuals/viewport.ts). A test is run for the page by a controller
-- (web/src/ui/features/test-controller.ts), which asks the server to open and close the run, and
-- shown as a lift: a needle (web/src/ui/visuals/pointer.ts) turns gears that move a car
-- (web/src/ui/visuals/lift/machine), and the parts drive each other (web/src/mech/drive.ts). A
-- session is run by a panel (web/src/ui/features/monitor-panel.ts). The page (web/src/ui/app.ts)
-- holds the controller and the panel, and tells each what the other does, since one link carries
-- one test at a time.
--
-- Files, with the code each is about:
--   Common           shared names, Boolean tests and lists; Common.Numbers is the interface to the
--                    double, and Common.Sample a structure that meets it, for the examples
--   Engine.Latency   latency.ts: the summary of the round trips; Engine.Latency.Probes is the loop
--                    that takes them
--   Engine.Meter     meter.ts: RateMeter with start, add, markGrace, sample, live and final
--   Engine.Series    series.ts: TimeSeries with add, compact and clear
--   Engine.Transfer  phases/transfer-phase.ts: TransferPhase.run, as `begin`, the ticks, the abort
--                    listener and `finish`; Engine.Transfer.Retries is withRetries, and
--                    Engine.Transfer.Upload and Engine.Transfer.Post are phases/upload-phase.ts
--   Engine.Monitor   monitor.ts: the monitor with start, stop, setDirections, clear and its
--                    interval; Engine.Monitor.Legs is the class Leg
--   Engine.Runner    runner.ts: the snapshots and the awaits of SpeedTest.run, which
--                    Engine.Runner.Stages puts together; Engine.Runner.Guard is its running flag
--   Visuals          web/src/ui/visuals: Visuals.Viewport is viewport.ts (GraphViewport with zoom,
--                    pan, fit, setFocus and reset), Visuals.Graph is graph.ts (which points
--                    are drawn and where), Visuals.Scale is scale.ts and tempo.ts,
--                    Visuals.Move is move.ts and Visuals.Pointer pointer.ts (the needle);
--                    Visuals.Easing is web/src/ui/primitives/anim.ts, Visuals.LeadingEdge is
--                    leading-edge.ts and Visuals.Jog the treadmill of jog.ts
--   Visuals.Lift     web/src/ui/visuals/lift: Layout, and of its folder machine Reversing, Car and
--                    Machine, the lift that a test is shown as
--   Mech             web/src/mech: Mech.Geometry is clamp, lerp and toRadians of geometry.ts, and
--                    Mech.Drive is drive.ts: a train of rotations, gear pairs, belts and brakes
--                    with a carriage at its end
--   Core             Core.Preferences is web/src/core/preferences.ts, over a storage as a parameter;
--                    Core.Router is web/src/routing/router.ts, over the matchers as parameters
--   Features         web/src/ui/features: Features.TestController is test-controller.ts, with the
--                    recording of the runs in Features.TestController.Recording;
--                    Features.MonitorPanel is monitor-panel.ts (Controls what it shows of itself,
--                    Drawing a redraw of the graph, Gestures the pointer on it), and Hero, ModeTabs
--                    and GraphModal are hero.ts, mode-tabs.ts and graph-modal.ts;
--                    Features.Shortcuts is web/src/ui/shortcuts.ts
--   App              web/src/ui/app.ts: the page with its routes and its start buttons. App.State is
--                    how the parts are wired together, App.Events what can happen to the page,
--                    App.Situation who holds the link, and App.Peers the choice of a server
-- The modules below each of these hold its proofs, named for what they prove, and its Tests hold
-- runs at concrete inputs.
--
-- How code becomes definitions. An object is a record and a method a function from it to the next
-- one; `performance.now()` and `Date.now()` are arguments, in whole milliseconds, as are the
-- durations of a test. A difference of two readings of the monotonic clock is a subtraction that
-- stops at 0, which such a difference never goes below. An async function is cut where it gives way to the event loop: each piece is a
-- function, and the turns of the loop are events in any order (Engine.Transfer.Event,
-- Engine.Monitor.Event), or a script of what happens during each await (Engine.Runner.Script). A
-- promise that is rejected is a value. A callback that the engine is given (onUpdate, onTick) is taken
-- to return and not to call back into it. What the controller asks of the views and the server is a
-- log of calls. A callback of the panel or of the controller into the page is an entry of such a log,
-- and the page takes the entries up in their order before the next event (settle_panel,
-- settle_tests). The events of the page come in any order; `careful` names the two presses that can
-- put a second test under way beside the first. An order that waits in the lift is a value that the
-- machine carries out. Rates, fractions, positions and round trips are doubles: the type, its
-- operations and what IEEE arithmetic documents of them are the record Num, so no theorem depends on
-- how a sum is rounded beyond the laws listed there. Byte counts are natural numbers; they stay far
-- below 2 ^ 53.
--
-- Loops are recursions on the list they run over. The loop that fills the payload of an upload takes
-- as fuel the size of the payload: each turn moves on by at least one byte, so this is enough.
-- The loop of the latency requests is a recursion on the number of turns that are left, which is the
-- bound that the code counts to. The loop that
-- retries a request runs over the rounds it is given and says so when it is not done with them.
--
-- The storage of the browser is the record Storage: a call of it may fail, a value that it has taken
-- is read back, and no other key changes.
--
-- Not modelled: the requests themselves (fetch, XMLHttpRequest), of which the model has the events
-- that they report; the paths, ticks and labels of the graphs; the patterns of the routes and the
-- emitter; the drawing, the remaining panels, the formatting of figures and the theme; and the server.
pub mod App
pub mod Common
pub mod Core
pub mod Engine
pub mod Features
pub mod Mech
pub mod Visuals
