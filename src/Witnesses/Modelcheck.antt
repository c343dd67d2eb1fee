-- ===== src/Witnesses/Modelcheck.antt =====
-- internal/modelcheck and internal/gatekeeper at concrete inputs: a run against the real gate with its
-- defaults, and explorations of a small graph.
use resilient_mesh_razorpayb.Base.{
  ℕ, suc, ◌≤◌, ◌≡◌, refl, ◌↔◌, true, false, none, List, [], ◌∷◌, ltb, if◌then◌else◌, length, pos,
}
use resilient_mesh_razorpayb.Modelcheck.Search.{seen, run, offer, admit, visit, explore, start}
use resilient_mesh_razorpayb.Modelcheck.Reach.{Reach}
use resilient_mesh_razorpayb.Modelcheck.Fixpoint.{run_complete, run-finished}
use resilient_mesh_razorpayb.Modelcheck.Explorer.{ModelConfig, run_context, passed}
use resilient_mesh_razorpayb.Modelcheck.Report.{run_context-passes, run_context-reachability, nine}
use resilient_mesh_razorpayb.Witnesses.Payments.{unset}

abbrev defaults : ModelConfig
defaults = record { clock_at = none; max_states = pos 0; gate_config = unset; gate = none }

run_context-passes_example :
    (passed (run_context defaults) ≡ true)
    × ((run_context defaults).checked ≡ nine (run_context defaults).decisions)
run_context-passes_example = run_context-passes defaults refl

run_context-reachability_example :
    ((run_context defaults).reachability.halted_below_cycle_cap ≡ 0)
    × ((run_context defaults).reachability.post_attempt_clock_skew ≡ 0)
run_context-reachability_example = run_context-reachability defaults refl

-- A path of four states.
abbrev ahead : ℕ → List ℕ
ahead k = if ltb k 3 then suc k ∷ [] else []

abbrev count_visit : ℕ → ℕ → ℕ
count_visit k n = suc n

path_unbounded : (run ahead count_visit 9 (0 ∷ []) 0).bounded ≡ false
unfolding run start explore visit admit offer
path_unbounded = refl

run_complete_example :
    (seen 3 (run ahead count_visit 9 (0 ∷ []) 0).visited ≡ true) ↔ Reach ahead (0 ∷ []) 3
run_complete_example = run_complete ahead count_visit 9 (0 ∷ []) 0 path_unbounded 3

run-finished_example :
    ((run ahead count_visit 9 (0 ∷ []) 0).frontier ≡ [])
    × (length (run ahead count_visit 9 (0 ∷ []) 0).visited ≤ 9)
run-finished_example = run-finished ahead count_visit 9 (0 ∷ []) 0
