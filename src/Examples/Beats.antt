-- ===== src/Examples/Beats.antt =====
-- A node whose watcher does not answer six times out of seven, and takes no registration.
use gorigin.Prelude.{◌+◌, ◌≡◌, refl, List, [], ◌∷◌, true, false, arith}
use gorigin.Client.Beats.{Beat, heart_beats, heart_beats-tries}

abbrev silent : Beat
silent = record { heard = false; registers = false; configures = true; registers_then = false }

abbrev noise : List Beat
noise = silent ∷ silent ∷ record silent { heard = true } ∷ silent ∷ silent ∷ silent ∷ silent ∷ []

heart_beats-tries_example : (0 + (heart_beats noise 0).1 ≡ 2) × ((heart_beats noise 0).0 ≡ 6)
heart_beats-tries_example =
    heart_beats-tries noise 0
      (
        (refl, refl),
        (
          (refl, refl),
          ((refl, refl), ((refl, refl), ((refl, refl), ((refl, refl), ((refl, refl), tt))))),
        ),
      )
      (omega arith)
