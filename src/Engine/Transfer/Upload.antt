-- ===== src/Engine/Transfer/Upload.antt =====
-- web/src/engine/phases/upload-phase.ts: the size of a chunk, its random bytes, and the account of
-- one request.
--
-- A request is what `post` keeps of it, and the events are those the browser reports. A
-- `Uint8Array` is filled range by range: the model keeps the ranges.
use megapet.Common.{
  ℕ, zero, suc, ◌+◌, ◌-◌, ◌*◌, ◌≤◌, ◌<◌, ◌≡◌, refl, ltb, leb, if◌then◌else◌, Bool, true, false,
  Option, none, some, List, [], ◌∷◌, All, arith, Num, min, max, if_cases, max_safe, min-glb,
  max-ge_left, min-le_left, max-not-nan, ltb→lt, ltb→le, leb→le, leb→lt, subst, sym,
}
use Prim.Native.String.{String}
use megapet.Engine.Meter.{RateMeter}
use megapet.Engine.Meter

abbrev pub min_chunk : ℕ
min_chunk = 4 * 1024 * 1024

abbrev pub max_chunk : ℕ
max_chunk = 64 * 1024 * 1024

abbrev pub random_step : ℕ
random_step = 65536

-- The size of the payload that the constructor makes.
unfoldable pub chunk_size : ⦃F : Num⦄ → F.R → F.R
chunk_size ⦃F⦄ chunk_bytes = min (F.of_ℕ max_chunk) (max (F.of_ℕ min_chunk) (F.round chunk_bytes))

pub record Range : Type 0 where
  pub from : ℕ
  pub to : ℕ

abbrev lesser : ℕ → ℕ → ℕ
lesser a b = if leb a b then a else b

-- The ranges that the loop fills from an offset on, at most so many.
unfoldable pub ranges_from : (fuel size offset : ℕ) → List Range
ranges_from zero size offset = []
ranges_from (suc fuel) size offset =
    let rest = ranges_from fuel size (offset + random_step) in
    if ltb offset size
    then record { from = offset; to = lesser (offset + random_step) size } ∷ rest
    else []

-- A turn of the loop moves on by at least one byte.
unfoldable pub random_payload : (size : ℕ) → List Range
random_payload size = ranges_from size size 0

pub data Settlement : Type 0 where
  resolved : Settlement
  rejected : String → Settlement

pub record Post : Type 0 where
  pub meter : RateMeter
  pub counted : ℕ
  pub settlement : Option Settlement
  -- the listener on the signal
  pub listening : Bool

unfoldable pub post : RateMeter → (aborted : Bool) → Post
post meter aborted = record {
  meter = meter;
  counted = 0;
  settlement = if aborted then some resolved else none;
  listening = if aborted then false else true;
}

-- A promise settles once; `cleanup` removes the listener.
unfoldable pub settle : Settlement → Post → Post
settle s p = record p {
  settlement = elim p.settlement [ none ↦ some s | some t ↦ some t ];
  listening = false;
}

unfoldable pub on_progress : (loaded : ℕ) → Post → Post
on_progress loaded p =
    if ltb p.counted loaded
    then record p { counted = loaded; meter = Meter.add (loaded - p.counted) p.meter }
    else p

unfoldable pub on_load : (size : ℕ) → Post → Post
on_load size p =
    settle resolved
      (if ltb p.counted size then record p { meter = Meter.add (size - p.counted) p.meter } else p)

-- What the request reports before it settles.
unfoldable pub progressed : List ℕ → Post → Post
progressed [] p = p
progressed (loaded ∷ rest) p = progressed rest (on_progress loaded p)

on_progress-total :
    (loaded size : ℕ) (p : Post)
    → loaded ≤ size
    → p.counted ≤ size
    → ((on_progress loaded p).counted ≤ size)
      × ((on_progress loaded p).meter.total + p.counted
          ≡ p.meter.total + (on_progress loaded p).counted)
unfolding on_progress Meter.add
on_progress-total loaded size p h k = ground arith

progressed-total :
    (size : ℕ) (reports : List ℕ) (p : Post)
    → All (λ loaded. loaded ≤ size) reports
    → p.counted ≤ size
    → ((progressed reports p).counted ≤ size)
      × ((progressed reports p).meter.total + p.counted
          ≡ p.meter.total + (progressed reports p).counted)
unfolding progressed
progressed-total size [] p h k = (k, refl)
progressed-total size (loaded ∷ rest) p (l, h) k =
    let (c, t) = on_progress-total loaded size p l k in
    let (d, u) = progressed-total size rest (on_progress loaded p) h c in (d, omega (arith, t, u))

on_load-total :
    (size : ℕ) (p : Post)
    → p.counted ≤ size
    → (on_load size p).meter.total + p.counted ≡ p.meter.total + size
unfolding on_load settle Meter.add
on_load-total size p h = ground arith

post-total :
    (meter : RateMeter) (aborted : Bool)
    → ((post meter aborted).meter.total ≡ meter.total) × ((post meter aborted).counted ≡ 0)
unfolding post
post-total meter aborted = (refl, refl)

-- A request that loads counts its payload exactly once, however its progress was reported: in any
-- order, with repeats, or not at all, as long as no report goes past the payload.
pub on_load-progressed :
    (size : ℕ) (reports : List ℕ) (meter : RateMeter)
    → All (λ loaded. loaded ≤ size) reports
    → (on_load size (progressed reports (post meter false))).meter.total ≡ meter.total + size
on_load-progressed size reports meter h =
    let (t, c) = post-total meter false in
    let (d, u) = progressed-total size reports (post meter false) h (omega (arith, c)) in
    let v = on_load-total size (progressed reports (post meter false)) d in
    omega (arith, t, c, u, v)

-- The ranges follow each other from one offset to another, none longer than the 65536 bytes that one
-- call of `getRandomValues` may fill.
abbrev pub Fills : (from to : ℕ) → List Range → Type 0
Fills from to [] = from ≡ to
Fills from to (r ∷ rest) =
    (r.from ≡ from) × (r.from < r.to) × (r.to ≤ r.from + 65536) × Fills r.to to rest

ranges_from-past : (fuel size offset : ℕ) → size ≤ offset → ranges_from fuel size offset ≡ []
unfolding ranges_from
ranges_from-past zero size offset h = refl
ranges_from-past (suc fuel) size offset h = ground arith

ranges_from-Fills :
    (fuel size offset : ℕ)
    → offset ≤ size
    → size ≤ offset + fuel
    → Fills offset size (ranges_from fuel size offset)
unfolding ranges_from
ranges_from-Fills zero size offset h k = omega arith
ranges_from-Fills (suc fuel) size offset h k =
    if_cases (Fills offset size) (ltb offset size) _ []
      (λ c. (
        refl,
        ground (arith, ltb→lt _ _ c),
        ground arith,
        if_cases (λ to. Fills to size (ranges_from fuel size (offset + random_step)))
            (leb (offset + random_step) size) _ _
            (λ b. ranges_from-Fills fuel size (offset + random_step) (leb→le _ _ b) (omega arith))
            (λ b.
              subst (Fills size size)
                (sym (ranges_from-past fuel size _ (omega (arith, leb→lt _ _ b)))) refl),
      ))
      (λ c. omega (arith, ltb→le _ _ c))

-- The loop fills every byte of the payload once, in calls of at most 65536 bytes.
pub random_payload-Fills : (size : ℕ) → Fills 0 size (random_payload size)
unfolding random_payload
random_payload-Fills size = ranges_from-Fills size size 0 (omega arith) (omega arith)

module _ ⦃F : Num⦄ where
  of_ℕ-not-nan : (n : ℕ) → n ≤ max_safe → F.is_nan (F.of_ℕ n) ≡ false
  of_ℕ-not-nan n h = F.finite-not-nan _ (F.of_ℕ-finite n h)

  -- Whatever size is asked for, a chunk is of at least 4 MiB and at most 64 MiB.
  chunk_size-Between :
      (chunk_bytes : F.R)
      → F.is_nan (F.round chunk_bytes) ≡ false
      → (F.le (F.of_ℕ min_chunk) (chunk_size chunk_bytes) ≡ true)
        × (F.le (chunk_size chunk_bytes) (F.of_ℕ max_chunk) ≡ true)
  unfolding chunk_size
  chunk_size-Between chunk_bytes h =
      let low = of_ℕ-not-nan min_chunk (omega arith) in
      (
        min-glb _ _ _ (F.of_ℕ-le min_chunk max_chunk (omega arith) (omega arith))
            (max-ge_left _ _ low h),
        min-le_left _ _ (of_ℕ-not-nan max_chunk (omega arith)) (max-not-nan _ _ low h),
      )
