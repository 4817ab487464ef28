-- ===== src/Features/TestController/Trace.antt =====
-- web/src/ui/features/test-controller.ts: what a log of calls holds of one kind.
use Prim.Native.String.{String}
use megapet.Common.{ℕ, ◌≡◌, refl, sym, ap, ◌∙◌, List, [], ◌∷◌, ◌++◌, Option}
use mathlib.Core.List.{append-nil, append_assoc}
use megapet.Features.TestController.{TestController, calls}
use megapet.Features.TestController.Calls.{Call, opens_run, closes_run, starts}

-- What a run asks of a server: where, and which run it closes.
pub data Request : Type 0 where
  opens : (base : Option String) → Request
  closes : (base : Option String) → String → Request

module _ {R : Type 0} where
  module _ {A : Type 0} (kept : Call R → List A) where
    abbrev pub traced : List (Call R) → List A
    traced [] = []
    traced (c ∷ rest) = kept c ++ traced rest

    pub traced-append : (xs ys : List (Call R)) → traced (xs ++ ys) ≡ traced xs ++ traced ys
    traced-append [] ys = refl
    traced-append (c ∷ xs) ys =
        ap (λ (t : List A). kept c ++ t) (traced-append xs ys)
        ∙ sym (append_assoc (kept c) (traced xs) (traced ys))

    pub traced-calls :
        (cs : List (Call R)) (m : TestController R)
        → traced cs ≡ []
        → traced (calls cs m).log ≡ traced m.log
    traced-calls cs m h =
        traced-append m.log cs
        ∙ ap (λ (t : List A). traced m.log ++ t) h
        ∙ append-nil (traced m.log)

  -- The requests to a server, and the tests that were started.
  abbrev pub requested_by : Call R → List Request
  requested_by (opens_run base) = opens base ∷ []
  requested_by (closes_run base id labels) = closes base id ∷ []
  requested_by other_call = []

  abbrev pub started_by : Call R → List ℕ
  started_by (starts test pacing run_id) = test ∷ []
  started_by other_call = []
