-- ===== src/App/Peers.antt =====
-- web/src/ui/app.ts: which server is measured.
--
-- What the probes of the servers answered is an argument: none for one that failed, and otherwise
-- the server with its shortest round trip.
use Prim.Native.String.{String}
use megapet.Common.{
  ltb, ◌≡◌, refl, if◌then◌else◌, Bool, true, false, not, ◌&&◌, ◌||◌, Option, none, some, List, [],
  ◌∷◌, is_some, length, Num, lt, All, arith, if_cases,
}
use megapet.Features.TestController.Calls.{Peer}
use megapet.App.State.{App, Server, is_running}
use megapet.App.{change_peer, same_text}

abbrev pub direct_peer_id : String
direct_peer_id = "direct"

unfoldable pub any_default : List Server → Bool
any_default [] = false
any_default (s ∷ rest) = s.is_default || any_default rest

abbrev pub is_direct : Option Peer → Bool
is_direct none = false
is_direct (some p) = same_text p.id direct_peer_id

module _ ⦃F : Num⦄ where
  -- The server's own address has answered.
  unfoldable pub offered : Peer → App F.R → App F.R
  offered peer a =
      let listed = record a { peers = peer ∷ a.peers } in
      if not (is_some a.peer) && not (is_running a.tests)
      then change_peer (some peer) listed
      else listed

  -- Whether `selectClosestPeer` probes the servers at all.
  unfoldable pub probes_servers : App F.R → Bool
  probes_servers a =
      if ltb (length a.config.servers) 2 || any_default a.config.servers
      then false
      else not (is_direct a.peer)

  abbrev pub Probe : Type 0
  Probe = Option (Peer × F.R)

  -- `if (!best || ping < best.ping) best = …`
  unfoldable pub nearer : Peer × F.R → Probe → Probe
  nearer q none = some q
  nearer q (some b) = if lt q.1 b.1 then some q else some b

  -- One round of the loop.
  unfoldable pub weigh : Probe → Probe → Probe
  weigh none best = best
  weigh (some q) best = if F.le q.1 (F.of_ℕ 0) then best else nearer q best

  unfoldable pub closest : List Probe → Probe → Probe
  closest [] best = best
  closest (p ∷ rest) best = closest rest (weigh p best)

  -- The probes have answered.
  unfoldable pub closest_found : List Probe → App F.R → App F.R
  closest_found probes a = elim (closest probes none) [
    | none ↦ a
    | some (peer, ping) ↦ if not (is_running a.tests) then change_peer (some peer) a else a
  ]

  abbrev pub IsNumber : Probe → Type 0
  IsNumber none = Unit
  IsNumber (some q) = F.is_nan q.1 ≡ false

  -- A probe counts if it answered in a positive time.
  abbrev pub counts : Probe → Bool
  counts none = false
  counts (some q) = not (F.le q.1 (F.of_ℕ 0))

  abbrev no_longer : Probe → Probe → Bool
  no_longer none p = false
  no_longer (some b) none = false
  no_longer (some b) (some q) = F.le b.1 q.1

  -- The choice is no longer than a probe that counts.
  pub record Beats (best p : Probe) : Type 0 where
    pub beats : (not (counts p) || no_longer best p) ≡ true

  weigh-IsNumber : (p best : Probe) → IsNumber p → IsNumber best → IsNumber (weigh p best)
  unfolding weigh nearer
  weigh-IsNumber none best h k = k
  weigh-IsNumber (some q) none h k =
      if_cases IsNumber (F.le q.1 (F.of_ℕ 0)) none (some q) (λ _. tt) λ _. h
  weigh-IsNumber (some q) (some b) h k =
      if_cases IsNumber (F.le q.1 (F.of_ℕ 0)) (some b) _ (λ _. k)
        λ _. if_cases IsNumber (lt q.1 b.1) (some q) (some b) (λ _. h) λ _. k

  weigh-Beats_old : (p best old : Probe) → Beats best old → Beats (weigh p best) old
  unfolding weigh nearer
  weigh-Beats_old none best old h = h
  weigh-Beats_old (some q) best none h = record { beats = refl }
  weigh-Beats_old (some q) none (some o) h =
      if_cases (λ (b : Probe). Beats b (some o)) (F.le q.1 (F.of_ℕ 0)) none (some q) (λ _. h)
        λ _. record { beats = ground (arith, h.beats) }
  weigh-Beats_old (some q) (some b) (some o) h =
      if_cases (λ (c : Probe). Beats c (some o)) (F.le q.1 (F.of_ℕ 0)) (some b) _ (λ _. h)
        λ _.
          if_cases (λ (c : Probe). Beats c (some o)) (lt q.1 b.1) (some q) (some b)
            (λ e. record { beats = ground (arith, e, h.beats, F.le_trans q.1 b.1 o.1) }) λ _. h

  weigh-Beats_new : (p best : Probe) → IsNumber p → IsNumber best → Beats (weigh p best) p
  unfolding weigh nearer
  weigh-Beats_new none best h k = record { beats = refl }
  weigh-Beats_new (some q) none h k =
      if_cases (λ (b : Probe). Beats b (some q)) (F.le q.1 (F.of_ℕ 0)) none (some q)
        (λ e. record { beats = ground (arith, e) })
        λ e. record { beats = ground (arith, F.le_refl q.1 h) }
  weigh-Beats_new (some q) (some b) h k =
      if_cases (λ (c : Probe). Beats c (some q)) (F.le q.1 (F.of_ℕ 0)) (some b) _
        (λ e. record { beats = ground (arith, e) })
        λ _.
          if_cases (λ (c : Probe). Beats c (some q)) (lt q.1 b.1) (some q) (some b)
            (λ _. record { beats = ground (arith, F.le_refl q.1 h) })
            λ e. record { beats = ground (arith, e, F.le_total q.1 b.1 h k) }

  closest-Beats :
      (probes : List Probe) (best old : Probe) → Beats best old → Beats (closest probes best) old
  unfolding closest
  closest-Beats [] best old h = h
  closest-Beats (p ∷ rest) best old h =
      closest-Beats rest (weigh p best) old (weigh-Beats_old p best old h)

  -- The server that is chosen is the closest: if no round trip is NaN, no server that answered in a
  -- positive time did so in less than the chosen one, and one is chosen if any did.
  pub closest-least :
      (probes : List Probe) (best : Probe)
      → IsNumber best
      → All IsNumber probes
      → All (Beats (closest probes best)) probes
  unfolding closest
  closest-least [] best k h = tt
  closest-least (p ∷ rest) best k h = (
    closest-Beats rest (weigh p best) p (weigh-Beats_new p best h.0 k),
    closest-least rest (weigh p best) (weigh-IsNumber p best h.0 k) h.1,
  )
