-- ===== src/Health/Tests.antt =====
-- Verifications of three checks, and the theorem at one.
use sahara.Base.{◌≡◌, refl, ◌≢◌, ◌↔◌, List, [], ◌∷◌, All}
use sahara.Objects.{HealthStatus}
use sahara.Health.{decide_status}
use sahara.Health.Decision.{IsGreen, HasRed, decide_status_iff}

abbrev one_red : List HealthStatus
one_red = HealthStatus.green ∷ HealthStatus.red ∷ HealthStatus.yellow ∷ []

is_red : decide_status one_red ≡ HealthStatus.red
unfolding decide_status
is_red = refl

is_yellow : decide_status (HealthStatus.green ∷ HealthStatus.yellow ∷ []) ≡ HealthStatus.yellow
unfolding decide_status
is_yellow = refl

decide_status_iff_example :
    ((decide_status one_red ≡ HealthStatus.green) ↔ All IsGreen one_red)
    × ((decide_status one_red ≡ HealthStatus.red) ↔ HasRed one_red)
    × (decide_status one_red ≢ HealthStatus.checking)
decide_status_iff_example = decide_status_iff one_red
