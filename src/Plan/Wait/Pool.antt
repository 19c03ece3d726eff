-- ===== src/Plan/Wait/Pool.antt =====
-- When a MachineConfigPool counts as converged.
use virt_advisor_operator.Base.{
  String, Bool, true, false, List, [], ◌∷◌, ◌≡◌, ◌↔◌, refl, arith, ◌||◌, any,
}
use virt_advisor_operator.Base.Int.{pos, ◌≤ℤ◌}
use virt_advisor_operator.Api.Json.{Value}
use virt_advisor_operator.Kube.{Env, present}
use virt_advisor_operator.Plan.Wait.{shows, scan, count_of, settled, scanned, pool_health}

module _ (env : Env) where
  -- The loop sees whether some condition shows Updated, and whether some condition shows Updating.
  scan-any :
      (cs : List Value) (updated updating : Bool)
      → scan env cs updated updating
        ≡ (any (shows env "Updated") cs || updated, any (shows env "Updating") cs || updating)
  unfolding scan
  scan-any [] updated updating = refl
  scan-any (c ∷ cs) updated updating =
      ground
        (arith, scan-any cs (shows env "Updated" c || updated) (shows env "Updating" c || updating))

  -- Let the pool report its conditions. Then it counts as healthy exactly if no machine is degraded,
  -- some condition shows Updated, none shows Updating, and all of its machines, of which there is at
  -- least one, are updated and ready.
  pub pool_health_iff :
      (pool : String) (status : Value) (cs : List Value)
      → env.nested_slice status ("conditions" ∷ []) ≡ present cs
      → let count = count_of env status in
        ((pool_health env pool status).1 ≡ true) ↔ (
          (count "degradedMachineCount" ≤ℤ pos 0)
          × (any (shows env "Updated") cs ≡ true)
          × (any (shows env "Updating") cs ≡ false)
          × (count "updatedMachineCount" ≡ count "machineCount")
          × (count "readyMachineCount" ≡ count "machineCount")
          × (pos 1 ≤ℤ count "machineCount"))
  unfolding pool_health scanned settled
  pool_health_iff pool status cs h = rw (h, scan-any cs false false) (ground arith)
