-- ===== src/Engine/Transfer/Post.antt =====
-- web/src/engine/phases/upload-phase.ts: every way in which one upload request ends.
use megapet.Common.{
  ℕ, ◌+◌, ◌-◌, ◌≤◌, ◌≡◌, refl, ap, ltb, if◌then◌else◌, false, Option, none, some, List, [], ◌∷◌,
  All, arith, if_cases,
}
use megapet.Engine.Meter.{RateMeter}
use megapet.Engine.Meter
use megapet.Engine.Transfer.Upload.{
  Post, Settlement, resolved, rejected, post, settle, on_progress, on_load, progressed,
  on_load-progressed,
}

-- How a request ends: what its last event is.
pub data Last : Type 0 where
  loads fails times_out aborts : Last

unfoldable pub on_last : (size : ℕ) → Last → Post → Post
on_last size loads p = on_load size p
on_last size fails p = settle (rejected "upload request failed") p
on_last size times_out p = settle (rejected "upload request timed out") p
on_last size aborts p = settle resolved p

-- A request with what it reports, in order, and its end.
unfoldable pub requested : (size : ℕ) → List ℕ → Last → RateMeter → Post
requested size reports last meter = on_last size last (progressed reports (post meter false))

abbrev pub settlement_of : Last → Settlement
settlement_of loads = resolved
settlement_of fails = rejected "upload request failed"
settlement_of times_out = rejected "upload request timed out"
settlement_of aborts = resolved

abbrev pub highest_from : ℕ → List ℕ → ℕ
highest_from top [] = top
highest_from top (x ∷ rest) = highest_from (if ltb top x then x else top) rest

-- The bytes that a request counts: the whole payload if it loads, and else as far as it was reported.
abbrev pub bytes_of : (size : ℕ) → List ℕ → Last → ℕ
bytes_of size reports loads = size
bytes_of size reports other_end = highest_from 0 reports

record IsOpen (start top : ℕ) (p : Post) : Type 0 where
  pub unsettled : p.settlement ≡ none
  pub counted : p.counted ≡ top
  pub sent : p.meter.total ≡ start + top

on_progress-IsOpen :
    (start loaded top : ℕ) (p : Post)
    → IsOpen start top p
    → IsOpen start (if ltb top loaded then loaded else top) (on_progress loaded p)
unfolding on_progress Meter.add
on_progress-IsOpen start loaded top p v = record {
  unsettled = ground (arith, v.unsettled);
  counted = ground (arith, v.counted);
  sent = ground (arith, v.counted, v.sent);
}

progressed-IsOpen :
    (start : ℕ) (reports : List ℕ) (top : ℕ) (p : Post)
    → IsOpen start top p
    → IsOpen start (highest_from top reports) (progressed reports p)
unfolding progressed
progressed-IsOpen start [] top p v = v
progressed-IsOpen start (loaded ∷ rest) top p v =
    progressed-IsOpen start rest (if ltb top loaded then loaded else top) (on_progress loaded p)
      (on_progress-IsOpen start loaded top p v)

-- How a request has ended.
record IsEnded (s : Settlement) (p : Post) : Type 0 where
  pub settled : p.settlement ≡ some s
  pub quiet : p.listening ≡ false

settle-IsEnded : (s : Settlement) (p : Post) → p.settlement ≡ none → IsEnded s (settle s p)
unfolding settle
settle-IsEnded s p h = record {
  settled =
      ap
        (λ (t : Option Settlement). elim t as (λ _. Option Settlement) [
          | none ↦ some s
          | some u ↦ some u
        ])
        h;
  quiet = refl;
}

on_last-IsEnded :
    (size : ℕ) (last : Last) (p : Post)
    → p.settlement ≡ none
    → IsEnded (settlement_of last) (on_last size last p)
unfolding on_last on_load
on_last-IsEnded size loads p h =
    settle-IsEnded resolved
      (if ltb p.counted size then record p { meter = Meter.add (size - p.counted) p.meter } else p)
      (if_cases (λ (q : Post). q.settlement ≡ none) (ltb p.counted size) _ _ (λ _. h) λ _. h)
on_last-IsEnded size fails p h = settle-IsEnded _ p h
on_last-IsEnded size times_out p h = settle-IsEnded _ p h
on_last-IsEnded size aborts p h = settle-IsEnded _ p h

requested-IsOpen :
    (reports : List ℕ) (meter : RateMeter)
    → IsOpen meter.total (highest_from 0 reports) (progressed reports (post meter false))
unfolding post
requested-IsOpen reports meter =
    progressed-IsOpen meter.total reports 0 (post meter false)
      (record { unsettled = refl; counted = refl; sent = omega arith })

requested-bytes :
    (size : ℕ) (reports : List ℕ) (last : Last) (meter : RateMeter)
    → All (λ loaded. loaded ≤ size) reports
    → IsOpen meter.total (highest_from 0 reports) (progressed reports (post meter false))
    → (requested size reports last meter).meter.total ≡ meter.total + bytes_of size reports last
unfolding requested on_last settle
requested-bytes size reports loads meter h v = on_load-progressed size reports meter h
requested-bytes size reports fails meter h v = v.sent
requested-bytes size reports times_out meter h v = v.sent
requested-bytes size reports aborts meter h v = v.sent

-- However a request is reported to progress, in any order and with repeats, and however it ends, its
-- promise settles the way that its last event says, it no longer listens to the signal, and it has
-- counted the whole payload if it loaded, and as many bytes as its highest report if it failed, timed
-- out or was aborted; no report may go past the payload.
pub requested-ends :
    (size : ℕ) (reports : List ℕ) (last : Last) (meter : RateMeter)
    → All (λ loaded. loaded ≤ size) reports
    → ((requested size reports last meter).settlement ≡ some (settlement_of last))
      × ((requested size reports last meter).listening ≡ false)
      × ((requested size reports last meter).meter.total ≡ meter.total + bytes_of size reports last)
unfolding requested on_last settle
requested-ends size reports last meter h =
    let shown = requested-IsOpen reports meter in
    let ended = on_last-IsEnded size last (progressed reports (post meter false)) shown.unsettled in
    (ended.settled, ended.quiet, requested-bytes size reports last meter h shown)
