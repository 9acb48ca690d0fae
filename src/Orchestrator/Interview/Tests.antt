-- ===== src/Orchestrator/Interview/Tests.antt =====
-- Interviews at concrete inputs.
use zwaved.Base.{ℕ, ◌≡◌, ◌↔◌, refl, true, false, List, [], ◌∷◌, ◌++◌, arith}
use zwaved.Base.Maps.{number_key, lookup, assign, erase}
use zwaved.Orchestrator.Interview.{Step, manufacturer_specific, version, zwave_plus, steps_for, run}
use zwaved.Orchestrator.Interview.Progress.{Within}
use zwaved.Orchestrator.Interview.Complete.{completes, reports}
use zwaved.Orchestrator.Interview.Start.{opening, completes_iff}

abbrev classes : List ℕ
classes = 0x5e ∷ 0x9f ∷ []

abbrev stray : List Step
stray = version ∷ manufacturer_specific ∷ version ∷ zwave_plus ∷ []

completes_iff_example :
    (completes 9 (run [] (opening 9 classes 3 ++ reports 9 stray)).0 ≡ true)
    ↔ Within (steps_for classes) stray
completes_iff_example = completes_iff stray [] 9 classes 3 (omega arith)

-- Reports in another order leave the interview open.
parked :
    completes 9
      (run []
        (opening 9 classes 3 ++ reports 9 (version ∷ manufacturer_specific ∷ zwave_plus ∷ []))).0
    ≡ false
unfolding run lookup assign erase
parked = refl
