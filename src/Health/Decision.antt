-- ===== src/Health/Decision.antt =====
-- What the decision over the health checks means.
use sahara.Base.{
  suc, ◌≤◌, ◌<◌, ◌≡◌, ◌≢◌, ◌↔◌, refl, ◌⊎◌, inl, inr, List, [], ◌∷◌, arith, length, All, ap,
}
use sahara.Objects.{HealthStatus}
use sahara.Health.{count_green, count_red, decide_status}

abbrev pub IsGreen : HealthStatus → Type 0
IsGreen s = s ≡ HealthStatus.green

-- Some check ended red.
abbrev pub HasRed : List HealthStatus → Type 0
HasRed [] = ⊥
HasRed (s ∷ ss) = (s ≡ HealthStatus.red) ⊎ HasRed ss

count_green-le : (cs : List HealthStatus) → count_green cs ≤ length cs
unfolding count_green
count_green-le [] = omega arith
count_green-le (HealthStatus.green ∷ cs) = omega (arith, count_green-le cs)
count_green-le (c ∷ cs) = omega (arith, count_green-le cs)

All-IsGreen : (cs : List HealthStatus) → count_green cs ≡ length cs → All IsGreen cs
unfolding count_green
All-IsGreen [] h = tt
All-IsGreen (HealthStatus.green ∷ cs) h = (refl, All-IsGreen cs (omega arith))
All-IsGreen (c ∷ cs) h = absurd (omega (arith, count_green-le cs))

count-All_green : (cs : List HealthStatus) → All IsGreen cs → count_green cs ≡ length cs
unfolding count_green
count-All_green [] h = refl
count-All_green (HealthStatus.green ∷ cs) (g, h) = ap suc (count-All_green cs h)
count-All_green (c ∷ cs) (g, h) = absurd (cc g)

has_red : (cs : List HealthStatus) → 0 < count_red cs → HasRed cs
unfolding count_red
has_red [] h = omega arith
has_red (HealthStatus.red ∷ cs) h = inl refl
has_red (c ∷ cs) h = inr (has_red cs h)

count-HasRed : (cs : List HealthStatus) → HasRed cs → 0 < count_red cs
unfolding count_red
count-HasRed [] h = absurd h
count-HasRed (HealthStatus.red ∷ cs) h = omega arith
count-HasRed (c ∷ cs) (inl e) = absurd (cc e)
count-HasRed (c ∷ cs) (inr h) = count-HasRed cs h

red_not_green : (cs : List HealthStatus) → HasRed cs → All IsGreen cs → ⊥
red_not_green [] h g = h
red_not_green (c ∷ cs) (inl e) (g, gs) = cc (e, g)
red_not_green (c ∷ cs) (inr h) (g, gs) = red_not_green cs h gs

-- A verification is green exactly when every check is, red exactly when some check is, and never
-- CHECKING. (With no checks it is green.)
pub decide_status_iff :
    (cs : List HealthStatus)
    → ((decide_status cs ≡ HealthStatus.green) ↔ All IsGreen cs)
      × ((decide_status cs ≡ HealthStatus.red) ↔ HasRed cs)
      × (decide_status cs ≢ HealthStatus.checking)
unfolding decide_status
decide_status_iff cs = (
  (λ e. All-IsGreen cs (ground arith), λ g. ground (arith, count-All_green cs g)),
  (λ e. has_red cs (ground arith), λ r. red (count-HasRed cs r) (not_all r)),
  λ e. ground arith,
)
  where
    not_all : HasRed cs → count_green cs ≢ length cs
    not_all r e = red_not_green cs r (All-IsGreen cs e)

    red : 0 < count_red cs → count_green cs ≢ length cs → decide_status cs ≡ HealthStatus.red
    red some_red other = ground arith
