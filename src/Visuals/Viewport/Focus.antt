-- ===== src/Visuals/Viewport/Focus.antt =====
-- web/src/ui/visuals/viewport.ts, `setFocus`: what is shown once following is switched off.
use megapet.Common.{Bool, true, false, if_cases, List, [], ◌∷◌, ◌≡◌, refl, Num, All, arith, ◌∙◌}
use megapet.Visuals.Viewport.{
  GraphViewport, Change, focuses, zooms, pans, fits, resets, new, window, set_focus, zoom, reset,
  change, same,
}

module _ ⦃F : Num⦄ where
  -- Zooms, as a user makes who watches the live edge.
  abbrev pub is_zoom : Change F.R → Bool
  is_zoom (zooms factor newest_ms at) = true
  is_zoom resets = true
  is_zoom other = false

  unfoldable pub changes : List (Change F.R) → GraphViewport F.R → GraphViewport F.R
  changes [] v = v
  changes (c ∷ cs) v = changes cs (change c v)

  record IsLive (v : GraphViewport F.R) : Type 0 where
    pub live : v.following ≡ true
    pub start : v.anchor ≡ F.of_ℕ 0

  zoom-IsLive :
      (factor newest_ms at : F.R) (v : GraphViewport F.R)
      → IsLive v
      → IsLive (zoom factor newest_ms at v)
  unfolding zoom
  zoom-IsLive factor newest_ms at v w =
      if_cases IsLive (same _ v.span) v _ (λ _. w)
        λ _.
          if_cases IsLive v.following _ _ (λ _. record { live = w.live; start = w.start })
            λ h. absurd (ground (arith, w.live))

  change-IsLive :
      (c : Change F.R) (v : GraphViewport F.R) → is_zoom c ≡ true → IsLive v → IsLive (change c v)
  unfolding change reset
  change-IsLive (zooms factor newest_ms at) v h w = zoom-IsLive factor newest_ms at v w
  change-IsLive resets v h w = record { live = refl; start = refl }
  change-IsLive (focuses on) v h w = absurd (ground arith)
  change-IsLive (pans a b) v h w = absurd (ground arith)
  change-IsLive (fits a b) v h w = absurd (ground arith)

  changes-IsLive :
      (cs : List (Change F.R)) (v : GraphViewport F.R)
      → All (λ c. is_zoom c ≡ true) cs
      → IsLive v
      → IsLive (changes cs v)
  unfolding changes
  changes-IsLive [] v h w = w
  changes-IsLive (c ∷ cs) v (h, k) w = changes-IsLive cs (change c v) k (change-IsLive c v h w)

  new-IsLive : IsLive new
  unfolding new
  new-IsLive = record { live = refl; start = refl }

  window-unfocused :
      (newest_ms : F.R) (v : GraphViewport F.R)
      → (window newest_ms (set_focus false v)).from_ms ≡ v.anchor
  unfolding window set_focus
  window-unfocused newest_ms v = refl

  -- A viewport that has only been zoomed, and so has always followed the newest reading, jumps to
  -- the start of the session when following is switched off, however long the session is.
  pub set_focus_jumps :
      (newest_ms : F.R) (cs : List (Change F.R))
      → All (λ c. is_zoom c ≡ true) cs
      → ((changes cs new).following ≡ true)
        × ((window newest_ms (set_focus false (changes cs new))).from_ms ≡ F.of_ℕ 0)
  set_focus_jumps newest_ms cs h =
      let w = changes-IsLive cs new h new-IsLive in
      (w.live, window-unfocused newest_ms (changes cs new) ∙ w.start)
