-- ===== src/Engine/Meter/Window.antt =====
-- meter.ts, `sample` and `live`: the trailing window.
use megapet.Common.{
  ℕ, ◌+◌, ◌-◌, ◌≤◌, ◌≡◌, refl, ap, sym, ◌∙◌, some, last?, last?-append, ltb, Bool, true, false,
  List, [], ◌∷◌, ◌++◌, Num, arith, if_cases, ltb→lt, ltb→le,
}
use megapet.Engine.Meter.{
  Sample, RateMeter, sample, drop_old, anchor_from, live, to_mbps, history_ms,
}

-- The entries' times do not fall from `lo` on.
abbrev pub Ascending : ℕ → List Sample → Type 0
Ascending lo [] = Unit
Ascending lo (s ∷ rest) = (lo ≤ s.t) × Ascending s.t rest

abbrev pub newest : ℕ → List Sample → ℕ
newest d [] = d
newest d (s ∷ rest) = newest s.t rest

Ascending-append :
    (lo : ℕ) (xs : List Sample) (s : Sample)
    → Ascending lo xs
    → newest lo xs ≤ s.t
    → Ascending lo (xs ++ s ∷ [])
Ascending-append lo [] s a h = (h, tt)
Ascending-append lo (x ∷ xs) s a h = (a.0, Ascending-append x.t xs s a.1 h)

Ascending-weaken : (lo hi : ℕ) (xs : List Sample) → lo ≤ hi → Ascending hi xs → Ascending lo xs
Ascending-weaken lo hi [] h a = tt
Ascending-weaken lo hi (x ∷ xs) h a = (omega arith, a.1)

drop_old-Ascending :
    (lo now : ℕ) (xs : List Sample) → Ascending lo xs → Ascending lo (drop_old now xs)
unfolding drop_old
drop_old-Ascending lo now [] a = tt
drop_old-Ascending lo now (x ∷ []) a = a
drop_old-Ascending lo now (x ∷ y ∷ rest) a =
    if_cases (Ascending lo) (ltb (y.t + history_ms) now) _ (x ∷ y ∷ rest)
      (λ _.
        Ascending-weaken lo x.t (drop_old now (y ∷ rest)) a.0
          (drop_old-Ascending x.t now (y ∷ rest) a.1))
      (λ _. a)

-- The anchor that `live` works from: the first entry stands in where the list is empty.
abbrev anchor_of : (window now : ℕ) → Sample → List Sample → Sample
anchor_of window now d [] = d
anchor_of window now d (s ∷ rest) = anchor_from window now s (s ∷ rest)

-- Dropping entries older than the history changes no anchor of a window within the history.
anchor_of-drop_old :
    (window now later lo : ℕ) (d : Sample) (xs : List Sample)
    → window ≤ history_ms
    → now ≤ later
    → Ascending lo xs
    → anchor_of window later d (drop_old now xs) ≡ anchor_of window later d xs
unfolding drop_old anchor_from
anchor_of-drop_old window now later lo d [] w l a = refl
anchor_of-drop_old window now later lo d (x ∷ []) w l a = refl
anchor_of-drop_old window now later lo d (x ∷ y ∷ rest) w l a =
    if_cases (λ ys. anchor_of window later d ys ≡ anchor_of window later d (x ∷ y ∷ rest))
      (ltb (y.t + history_ms) now) _ (x ∷ y ∷ rest)
      (λ e. ground (
        arith,
        ltb→lt (y.t + history_ms) now e,
        a.1.0,
        anchor_of-drop_old window now later x.t d (y ∷ rest) w l a.1,
      ))
      (λ _. refl)

abbrev nonempty : List Sample → Bool
nonempty [] = false
nonempty (x ∷ xs) = true

nonempty-append : (xs : List Sample) (s : Sample) → nonempty (xs ++ s ∷ []) ≡ true
nonempty-append [] s = refl
nonempty-append (x ∷ xs) s = refl

drop_old-nonempty :
    (now : ℕ) (xs : List Sample) → nonempty xs ≡ true → nonempty (drop_old now xs) ≡ true
unfolding drop_old
drop_old-nonempty now [] h = h
drop_old-nonempty now (x ∷ []) h = h
drop_old-nonempty now (x ∷ y ∷ rest) h =
    if_cases (λ ys. nonempty ys ≡ true) (ltb (y.t + history_ms) now) _ (x ∷ y ∷ rest)
      (λ _. drop_old-nonempty now (y ∷ rest) refl) (λ _. refl)

last?-drop_old :
    (now : ℕ) (s : Sample) (xs : List Sample) → last? xs ≡ some s → last? (drop_old now xs) ≡ some s
unfolding drop_old
last?-drop_old now s [] h = h
last?-drop_old now s (x ∷ []) h = h
last?-drop_old now s (x ∷ y ∷ rest) h =
    if_cases (λ ys. last? ys ≡ some s) (ltb (y.t + history_ms) now) _ (x ∷ y ∷ rest)
      (λ _. last?-drop_old now s (y ∷ rest) h) (λ _. h)

module _ ⦃F : Num⦄ where
  live-anchor_of :
      (window now : ℕ) (d : Sample) (xs : List Sample) (m : RateMeter)
      → nonempty xs ≡ true
      → live window now (record m { samples = xs })
        ≡ to_mbps
            (m.total - (anchor_of window now d xs).bytes)
            (now - (anchor_of window now d xs).t)
  unfolding live
  live-anchor_of window now d [] m h = cc
  live-anchor_of window now d (x ∷ xs) m h = refl

  -- The pruning of old entries is never seen: for a window of at most the history that is kept, the
  -- live rate is at any later time the one of a meter that keeps every entry.
  live-sample :
      (window now later : ℕ) (m : RateMeter)
      → window ≤ history_ms
      → now ≤ later
      → Ascending 0 m.samples
      → newest 0 m.samples ≤ now
      → live window later (sample now m)
        ≡ live window later
            (record m { samples = m.samples ++ record { t = now; bytes = m.total } ∷ [] })
  unfolding sample
  live-sample window now later m w l a n =
      let s : Sample = record { t = now; bytes = m.total } in
      let all = m.samples ++ s ∷ [] in
      live-anchor_of window later s (drop_old now all) m
        (drop_old-nonempty now all (nonempty-append m.samples s))
      ∙ ap (λ (x : Sample). to_mbps (m.total - x.bytes) (later - x.t))
          (anchor_of-drop_old window now later 0 s all w l (Ascending-append 0 m.samples s a n))
      ∙ sym (live-anchor_of window later s all m (nonempty-append m.samples s))

-- Every entry within the history that is kept, but for the first.
abbrev pub RestRecent : ℕ → List Sample → Type 0
RestRecent now [] = Unit
RestRecent now (x ∷ []) = Unit
RestRecent now (x ∷ y ∷ rest) = (now ≤ y.t + history_ms) × RestRecent now (y ∷ rest)

recent_mono :
    (now : ℕ) (xs : List Sample) (x : Sample)
    → now ≤ x.t + history_ms
    → Ascending x.t xs
    → RestRecent now (x ∷ xs)
recent_mono now [] x h a = tt
recent_mono now (y ∷ xs) x h a = (omega (arith, a.0), recent_mono now xs y (omega (arith, a.0)) a.1)

drop_old-RestRecent :
    (now lo : ℕ) (xs : List Sample) → Ascending lo xs → RestRecent now (drop_old now xs)
unfolding drop_old
drop_old-RestRecent now lo [] a = tt
drop_old-RestRecent now lo (x ∷ []) a = tt
drop_old-RestRecent now lo (x ∷ y ∷ rest) a =
    if_cases (RestRecent now) (ltb (y.t + history_ms) now) _ (x ∷ y ∷ rest)
      (λ _. drop_old-RestRecent now x.t (y ∷ rest) a.1)
      (λ e. let h = ltb→le (y.t + history_ms) now e in (h, recent_mono now rest y h a.1.1))

-- After a sample the entries are in order of time, the newest is the one just taken, and all but
-- the first are within the history that is kept.
pub sample-Recent :
    (now : ℕ) (m : RateMeter)
    → Ascending 0 m.samples
    → newest 0 m.samples ≤ now
    → Ascending 0 (sample now m).samples
      × RestRecent now (sample now m).samples
      × (last? (sample now m).samples ≡ some (record { t = now; bytes = m.total }))
unfolding sample
sample-Recent now m a n =
    let all = Ascending-append 0 m.samples (record { t = now; bytes = m.total }) a n in
    (
      drop_old-Ascending 0 now _ all,
      drop_old-RestRecent now 0 _ all,
      last?-drop_old now _ _ (last?-append m.samples _),
    )
