-- ===== src/Features/TestController/Rest/Opening.antt =====
-- web/src/ui/features/test-controller.ts: what a run asks of a server before its test.
use Prim.Native.String.{String}
use megapet.Common.{
  ℕ, ◌≡◌, refl, sym, ap, ◌∙◌, subst, if◌then◌else◌, Bool, true, false, Option, none, some, List, [],
  ◌∷◌, ◌++◌, is_some, Num,
}
use mathlib.Core.List.{append-nil}
use megapet.Engine.Monitor.{Clocks}
use megapet.Engine.Runner.{Pacing, Settled, gives, throws}
use megapet.Features.TestController.Trace.{
  Request, opens, traced-append, traced-calls, requested_by,
}
use megapet.Features.TestController.{TestController, calls, begin, prepare, start_test, opened}
use megapet.Features.TestController.Calls.{
  Peer, starts, opens_run, activity, base_of, nothing, stats_reset, visual_reset, visual_active,
  running, notify,
}
use megapet.Features.TestController.Rest.{
  requests, opened_if, asked_if, opened_id, IsOpen, calls-IsOpen,
}

module _ ⦃F : Num⦄ where
  pub begin-eq :
      (c : Clocks) (pacing : Pacing) (store_enabled : Bool) (peer : Option Peer)
      (m : TestController F.R)
      → m.test ≡ none
      → begin c pacing store_enabled peer m ≡ (
          if store_enabled
          then calls (opens_run (base_of peer) ∷ []) (prepare c m)
          else start_test pacing (prepare c m))
  unfolding begin
  begin-eq c pacing store_enabled peer m h =
      ap
        (λ (t : Option ℕ).
          if is_some t
          then m
          else if store_enabled
          then calls (opens_run (base_of peer) ∷ []) (prepare c m)
          else start_test pacing (prepare c m))
        h

  start_test-IsOpen :
      (id : Option String) (ids : List Request) (pacing : Pacing) (m : TestController F.R)
      → IsOpen id ids m
      → IsOpen id ids (start_test pacing m)
  unfolding start_test
  start_test-IsOpen id ids pacing m v = record {
    opened_run = v.opened_run;
    closed = traced-calls requested_by (starts m.next_test pacing m.run_id ∷ []) m refl ∙ v.closed;
  }

  prepare-IsOpen :
      (c : Clocks) (m : TestController F.R) → IsOpen none (requests m.log) (prepare c m)
  prepare-IsOpen c m = record {
    opened_run = refl;
    closed =
        traced-calls requested_by
          (activity (some nothing)
            ∷ stats_reset
            ∷ visual_reset
            ∷ visual_active true
            ∷ running true
            ∷ [])
          m refl;
  }

  asked-IsOpen :
      (c : Clocks) (peer : Option Peer) (m : TestController F.R)
      → IsOpen none
          (requests m.log ++ opens (base_of peer) ∷ [])
          (calls (opens_run (base_of peer) ∷ []) (prepare c m))
  asked-IsOpen c peer m =
      let v = prepare-IsOpen c m in
      record {
        opened_run = v.opened_run;
        closed =
            traced-append requested_by (prepare c m).log (opens_run (base_of peer) ∷ [])
            ∙ ap (λ (t : List Request). t ++ opens (base_of peer) ∷ []) v.closed;
      }

  opened-IsOpen :
      (ids : List Request) (pacing : Pacing) (answer : Settled String) (m : TestController F.R)
      → IsOpen none ids m
      → IsOpen (opened_id true answer) ids (opened pacing answer m)
  unfolding opened
  opened-IsOpen ids pacing (gives id) m v =
      start_test-IsOpen (some id) ids pacing (record m { run_id = some id })
        (record { opened_run = refl; closed = v.closed })
  opened-IsOpen ids pacing (throws e) m v =
      start_test-IsOpen none ids pacing _
        (calls-IsOpen none ids (notify "This run will not be recorded." ∷ []) m refl v)

  pub started-IsOpen :
      (c : Clocks) (pacing : Pacing) (store_enabled : Bool) (answer : Settled String)
      (peer : Option Peer) (m : TestController F.R)
      → m.test ≡ none
      → IsOpen
          (opened_id store_enabled answer)
          (requests m.log ++ asked_if store_enabled peer)
          (opened_if store_enabled pacing answer (begin c pacing store_enabled peer m))
  unfolding opened_if
  started-IsOpen c pacing true answer peer m h =
      let ids = requests m.log ++ opens (base_of peer) ∷ [] in
      opened-IsOpen ids pacing answer _
        (subst (IsOpen none ids) (sym (begin-eq c pacing true peer m h)) (asked-IsOpen c peer m))
  started-IsOpen c pacing false answer peer m h =
      let v = start_test-IsOpen none (requests m.log) pacing (prepare c m) (prepare-IsOpen c m) in
      subst (IsOpen none (requests m.log ++ [])) (sym (begin-eq c pacing false peer m h)) (record {
        opened_run = v.opened_run;
        closed = v.closed ∙ sym (append-nil (requests m.log));
      })
