-- ===== src/Gcs/Tests.antt =====
-- The control page with two vehicles.
use steeleagle.Prelude.{ℕ, ◌≤◌, String, ◌≡◌, refl, List, [], ◌∷◌, In, unbound_local_error, err}
use steeleagle.Gcs.Control.{upload_mission}
use steeleagle.Gcs.Control.Threads.{run-Fair, overtaken}

-- Uploading without a KML file raises, though the file is optional.
upload_alone : upload_mission (("plan.json", "{}") ∷ []) ("eagle" ∷ []) ≡ err unbound_local_error
unfolding upload_mission
upload_alone = refl

-- Both commands go to the second vehicle.
run-Fair_example :
    (2 ≤ 2)
    × ((v : String) → In v ("hawk" ∷ "hawk" ∷ []) → In v ("eagle" ∷ "hawk" ∷ []))
    × (◌≡◌ {A = List String} [] [] → ◌≡◌ {A = ℕ} 0 0 → ◌≡◌ {A = ℕ} 2 2)
run-Fair_example =
    run-Fair ("eagle" ∷ "hawk" ∷ [])
      (record { vehicle = "hawk"; waiting = 0; left = []; sent = "hawk" ∷ "hawk" ∷ [] })
      (overtaken "eagle" "hawk")
