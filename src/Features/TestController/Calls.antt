-- ===== src/Features/TestController/Calls.antt =====
-- web/src/ui/features/test-controller.ts: what a run asks of the views, the server and the test.
use Prim.Native.String.{String}
use Prim.Native.String as Text
use megapet.Common.{
  ℕ, if◌then◌else◌, Bool, true, false, Option, none, some, List, [], ◌∷◌, or_else, Num,
}
use megapet.Engine.Monitor.{Directions}
use megapet.Engine.Runner.{Stage, latency, reversing, download, upload, Snapshot, Pacing}
use megapet.Visuals.Lift.Layout.{Drive, up, down}
use megapet.Features.TestController.Recording.{same_stage}

pub data Accent : Type 0 where
  primary secondary tertiary : Accent

pub data StatKey : Type 0 where
  ping jitter down_stat up_stat : StatKey

pub data Figure (R : Type 0) : Type 0 where
  rate ms : R → Figure R

pub data Spoken (R : Type 0) : Type 0 where
  says : String → Spoken R
  complete : (down_mbps up_mbps ping_ms : R) → Spoken R

-- What a run reads of the server that was chosen.
pub record Peer : Type 0 where
  pub id : String
  pub name : String
  pub url : String

pub record RunLabels : Type 0 where
  pub server_id : String
  pub server_name : String
  pub note : String

-- What closing a run answers: the result that the server stored, or that it stored none.
pub data RunOutcome : Type 0 where
  stored : (id : String) → RunOutcome
  not_stored : RunOutcome

pub data Call (R : Type 0) : Type 0 where
  activity : Option Directions → Call R
  stats_reset stats_rest : Call R
  stats_active : StatKey → Call R
  stat : StatKey → Figure R → Call R
  visual_reset visual_land visual_park : Call R
  visual_active running : Bool → Call R
  visual_drive : Drive → Call R
  visual_accent : Accent → Call R
  visual_phase : (label icon : String) → Call R
  visual_reading : Option R → (unit : String) → Call R
  visual_position visual_progress : R → Call R
  live : (down_mbps up_mbps : R) → Call R
  sampled : Call R
  announce : Spoken R → Call R
  notify : String → Call R
  opens_run : (base : Option String) → Call R
  starts : (test : ℕ) → Pacing → (run_id : Option String) → Call R
  aborts : (test : ℕ) → Call R
  closes_run : (base : Option String) → String → RunLabels → Call R
  saved : String → Call R

-- How a measuring phase presents itself.
pub record PhaseStyle : Type 0 where
  pub label : String
  pub icon : String
  pub accent : Accent
  pub unit : String
  pub tile : StatKey
  pub drive : Drive

unfoldable pub style_of : Stage → Option PhaseStyle
style_of latency = some (record {
  label = "Latency";
  icon = "latency";
  accent = secondary;
  unit = "ms";
  tile = ping;
  drive = up;
})
style_of download = some (record {
  label = "Download";
  icon = "download";
  accent = primary;
  unit = "Mbps";
  tile = down_stat;
  drive = down;
})
style_of upload = some (record {
  label = "Upload";
  icon = "upload";
  accent = tertiary;
  unit = "Mbps";
  tile = up_stat;
  drive = up;
})
style_of other_stage = none

-- `NOTHING`, and `LOADS[phase] ?? NOTHING`.
abbrev pub nothing : Directions
nothing = record { down = false; up = false }

unfoldable pub loads : Stage → Directions
loads download = record { down = true; up = false }
loads upload = record { down = false; up = true }
loads other_stage = nothing

module _ ⦃F : Num⦄ where
  unfoldable pub next_name : Option Stage → String
  next_name (some download) = "download"
  next_name (some upload) = "upload"
  next_name other_stage = "next"

  unfoldable pub reversing_drive : Option Stage → Drive
  reversing_drive (some download) = down
  reversing_drive other_stage = up

  unfoldable pub phase_calls : Snapshot F.R → List (Call F.R)
  phase_calls s =
      if same_stage s.phase reversing
      then visual_land
        ∷ visual_drive (reversing_drive s.next_phase)
        ∷ visual_accent secondary
        ∷ visual_phase "Reversing" "replay"
        ∷ visual_reading none "Mbps"
        ∷ stats_rest
        ∷ announce (
            says (
              Text.◌++◌ (Text.◌++◌ "Reversing the drive for the " (next_name s.next_phase))
                " test."))
        ∷ []
      else elim (style_of s.phase) [
        | none ↦ []
        | some y ↦
            visual_drive y.drive
            ∷ visual_accent y.accent
            ∷ visual_phase y.label y.icon
            ∷ visual_reading (if same_stage s.phase latency then some (F.of_ℕ 0) else none) y.unit
            ∷ stats_active y.tile
            ∷ announce (says (Text.◌++◌ y.label " test running."))
            ∷ []
      ]

  unfoldable pub reading_calls : Snapshot F.R → List (Call F.R)
  reading_calls s =
      if same_stage s.phase reversing
      then visual_position (F.of_ℕ 0) ∷ []
      else if same_stage s.phase latency
      then visual_reading (some s.ping_ms) "ms"
        ∷ visual_position (F.of_ℕ 0)
        ∷ stat ping (ms s.ping_ms)
        ∷ []
      else visual_reading none "Mbps"
        ∷ visual_position s.live_mbps
        ∷ stat down_stat (rate s.download_mbps)
        ∷ stat up_stat (rate s.upload_mbps)
        ∷ stat ping (ms s.ping_ms)
        ∷ stat jitter (ms s.jitter_ms)
        ∷ []

  abbrev pub live_down : Snapshot F.R → F.R
  live_down s = if same_stage s.phase download then s.live_mbps else F.of_ℕ 0

  abbrev pub live_up : Snapshot F.R → F.R
  live_up s = if same_stage s.phase upload then s.live_mbps else F.of_ℕ 0

  abbrev pub labels_of : Option Peer → RunLabels
  labels_of none = record { server_id = ""; server_name = "This server"; note = "" }
  labels_of (some p) = record { server_id = p.id; server_name = p.name; note = "" }

  -- The base of the client that asks a peer, none for that of this server.
  abbrev pub base_of : Option Peer → Option String
  base_of none = none
  base_of (some p) = some p.url

  -- `finish` for a test that failed, that was stopped, and otherwise.
  abbrev pub failed_calls : Snapshot F.R → List (Call F.R)
  failed_calls s =
      visual_phase "Failed" "close"
      ∷ announce (says "The test failed.")
      ∷ notify (or_else s.failure "The test failed.")
      ∷ []

  abbrev pub stopped_calls : List (Call F.R)
  stopped_calls = visual_phase "Stopped" "stop" ∷ announce (says "Test stopped.") ∷ []

  abbrev pub complete_calls : Snapshot F.R → List (Call F.R)
  complete_calls s =
      visual_phase "Complete" "check"
      ∷ announce (complete s.download_mbps s.upload_mbps s.ping_ms)
      ∷ []
