-- ===== src/Tests/Trends.antt =====
-- The churn analysis and the trajectory of a simulation.
use kubectl_hpa_status.Prelude.{◌-ℤ◌, List, [], ◌∷◌, ℤ, pos, Bool, false, Option, some, ◌≡◌, refl}
use kubectl_hpa_status.Api.{Hpa}
use kubectl_hpa_status.Scaling.Policy.{Float64}
use kubectl_hpa_status.Events.Rescales.{RescaleData}
use kubectl_hpa_status.Churn.Segment.{segment_start}
use kubectl_hpa_status.Churn.Analysis.{build_churn_analysis}
use kubectl_hpa_status.Churn.Laws.{IsSound, build_churn_analysis-IsSound}
use kubectl_hpa_status.Simulate.Trajectory.{project_trajectory, trajectory_offsets}
use kubectl_hpa_status.Simulate.Projected.{IsTrajectory, project_trajectory-IsTrajectory}
use kubectl_hpa_status.Tests.Samples.{exact, web}

-- A change long ago, and three within an hour.
abbrev burst : List RescaleData
burst =
    record { timestamp = pos 60000000000; new_size = pos 2 }
    ∷ record { timestamp = pos 9060000000000; new_size = pos 6 }
    ∷ record { timestamp = pos 9660000000000; new_size = pos 3 }
    ∷ record { timestamp = pos 9960000000000; new_size = pos 7 }
    ∷ []

burst_starts_second : segment_start burst 3 ≡ 1
unfolding segment_start ◌-ℤ◌
burst_starts_second = refl

abbrev never : Float64.Carrier exact → Float64.Carrier exact → Bool
never a b = false

abbrev as_number : ℤ → Float64.Carrier exact
as_number n = Float64.of_int exact n

abbrev web_at_three : Hpa
web_at_three = web [] (pos 3) (pos 3)

build_churn_analysis-IsSound_example :
    IsSound exact never as_number
      (as_number (pos 0))
      (some web_at_three)
      (build_churn_analysis exact never as_number (as_number (pos 0)) burst (some web_at_three))
build_churn_analysis-IsSound_example =
    build_churn_analysis-IsSound exact never as_number (as_number (pos 0)) burst (some web_at_three)

abbrev unrounded : Float64.Carrier exact → Float64.Carrier exact
unrounded x = x

abbrev to_eight : Hpa → Option ℤ
to_eight hpa = some (pos 8)

-- 100 seconds in steps of 30.
project_trajectory-IsTrajectory_example :
    IsTrajectory exact unrounded web_at_three web_at_three (some (pos 8)) 100 30 (
      project_trajectory exact unrounded to_eight
        (some web_at_three)
        (some web_at_three)
        (pos 100)
        (pos 30))
project_trajectory-IsTrajectory_example =
    project_trajectory-IsTrajectory exact unrounded to_eight web_at_three web_at_three (pos 100)
      (pos 30)

offsets_of_hundred : trajectory_offsets 100 30 ≡ 0 ∷ 30 ∷ 60 ∷ 90 ∷ 100 ∷ []
unfolding trajectory_offsets
offsets_of_hundred = refl
