-- ===== src/Profiles/HigherDensity/Swap.antt =====
-- generateSwapMachineConfigItem of internal/profiles/higherdensity/profile.go.
use virt_advisor_operator.Base.{String, true, [], ◌∷◌}
use virt_advisor_operator.Base.Int.{ℤ, pos}
use virt_advisor_operator.Api.{Item, Impact}
use virt_advisor_operator.Api.Json.{Value, Fields, bool, int, str, arr, obj, end, field, elements}
use virt_advisor_operator.Kube.{Env, State, M, ◌>>=◌}
use virt_advisor_operator.Kube.Effects.{Follows, follow_rules}
use virt_advisor_operator.Kube.Applied.{Reading}
use virt_advisor_operator.Plan.{create_unstructured}
use virt_advisor_operator.Plan.Wait.{machine_config_gvk}
use virt_advisor_operator.Profiles.Builder.{
  PlanItemBuilder, new_plan_item_builder, for_resource, with_managed_fields, with_impact,
  with_message, build, Follows-build,
}
use virt_advisor_operator.Profiles.LoadAware.Items.{worker_labels, set_spec, Follows-set_spec}

-- The mode is a number: 0755 of the source is 493.
abbrev file : String → ℤ → String → Value
file source mode path = obj (
    field "contents" (obj (field "source" (str source) end))
      (field "mode" (int mode) (field "overwrite" (bool true) (field "path" (str path) end))))

abbrev unit : String → String → Value
unit contents name =
    obj
      (field "contents" (str contents) (field "enabled" (bool true) (field "name" (str name) end)))

abbrev find_swap : String
find_swap =
    "data:text/plain;charset=utf-8;base64,IyEvdXNyL2Jpbi9lbnYgYmFzaApzZXQgLWV1byBwaXBlZmFpbAoKUEFSVExBQkVMPSJDTlZfU1dBUCIKREVWSUNFPSIvZGV2L2Rpc2svYnktcGFydGxhYmVsLyR7UEFSVExBQkVMfSIKCmlmIFtbICEgLWUgIiRERVZJQ0UiIF1dOyB0aGVuCiAgZWNobyAiU3dhcCBwYXJ0aXRpb24gd2l0aCBQQVJUTEFCRUw9JHtQQVJUTEFCRUx9IG5vdCBmb3VuZCIgPiYyCiAgZXhpdCAxCmZpCgppZiBzd2Fwb24gLS1zaG93PU5BTUUgfCBncmVwIC1xICIkREVWSUNFIjsgdGhlbgogIGVjaG8gIlN3YXAgYWxyZWFkeSBlbmFibGVkIG9uICRERVZJQ0UiID4mMgogIGV4aXQgMQpmaQoKZWNobyAiRW5hYmxpbmcgc3dhcCBvbiAkREVWSUNFIiA+JjIKc3dhcG9uICIkREVWSUNFIgp0b3VjaCAvdmFyL3RtcC9zd2FwZmlsZQ=="

abbrev limited_swap : String
limited_swap =
    "data:text/plain;charset=utf-8;base64,YXBpVmVyc2lvbjoga3ViZWxldC5jb25maWcuazhzLmlvL3YxYmV0YTEKa2luZDogS3ViZWxldENvbmZpZ3VyYXRpb24KbWVtb3J5U3dhcDoKICBzd2FwQmVoYXZpb3I6IExpbWl0ZWRTd2FwCg=="

abbrev swap_unit : String
swap_unit =
    "[Unit]\nDescription=Provision and enable swap\nConditionFirstBoot=no\nConditionPathExists=!/var/tmp/swapfile\n\n[Service]\nType=oneshot\nExecStart=/etc/find-swap-partition\n\n[Install]\nWantedBy=multi-user.target\nRequiredBy=kubelet-dependencies.target\n"

abbrev slice_unit : String
slice_unit =
    "[Unit]\nDescription=Restrict swap for system slice\nConditionFirstBoot=no\n\n[Service]\nType=oneshot\nExecStart=/bin/sh -c \"sudo systemctl set-property --runtime system.slice MemorySwapMax=0 IODeviceLatencyTargetSec=\\\"/ 50ms\\\"\"\n\n[Install]\nRequiredBy=kubelet-dependencies.target\n"

unfoldable pub swap_spec : Fields
swap_spec =
    field "config"
      (obj (
        field "ignition" (obj (field "version" (str "3.2.0") end)) (
          field "storage"
            (obj (
              field "files"
                (arr (
                  elements (
                    file find_swap (pos 493) "/etc/find-swap-partition"
                    ∷ file limited_swap (pos 420) "/etc/openshift/kubelet.conf.d/90-swap.conf"
                    ∷ [])))
                end))
            (field "systemd"
              (obj (
                field "units"
                  (arr (
                    elements (
                      unit swap_unit "swap-provision.service"
                      ∷ unit slice_unit "cgroup-system-slice-config.service"
                      ∷ [])))
                  end))
              end))))
      end

module _ (env : Env) where
  unfoldable pub swap_builder : Value → PlanItemBuilder
  unfolding new_plan_item_builder for_resource with_managed_fields with_impact with_message
  swap_builder desired =
      with_message
        "MachineConfig '90-worker-kubelet-swap' will be configured to enable kubelet swap"
        (with_impact Impact.high (
          with_managed_fields ("spec.config" ∷ []) (
            for_resource desired "enable-kubelet-swap"
              (new_plan_item_builder "virt-advisor-operator"))))

  unfoldable pub generate_swap_machine_config_item : M Item
  generate_swap_machine_config_item =
      set_spec env
        (env.set_labels worker_labels
          (create_unstructured env machine_config_gvk "90-worker-kubelet-swap" ""))
        swap_spec
      >>= λ desired. build env (swap_builder desired)

pub Follows-swap_item :
    {R : State → State → Type 0}
    → Reading R
    → (env : Env) → Follows R (generate_swap_machine_config_item env)
unfolding generate_swap_machine_config_item
Follows-swap_item base env = search (follow_rules, Follows-set_spec, Follows-build) depth 8
