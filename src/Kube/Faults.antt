-- ===== src/Kube/Faults.antt =====
-- The errors that the controller does not cause: those of the API server and of the libraries.
use virt_advisor_operator.Base.{String, List, ◌≡◌, refl, ◌∙◌}
use virt_advisor_operator.Api.Json.{Value, Fields}
use virt_advisor_operator.Kube.{
  Env, Result, ok, err, lift, GetReply, State, Call, GroupVersionKind, ApplyOptions, get_object,
  patch_object,
}
use virt_advisor_operator.Kube.Returns.{Returns, Holds}

-- A call that returned an error.
pub data Fault (env : Env) : Type 0 where
  get_fault :
      (h : List Call) (gvk : GroupVersionKind) (name namespace e : String)
      → env.serve_get h gvk name namespace ≡ GetReply.failure e
      → Fault env
  patch_fault :
      (h : List Call) (v : Value) (o : ApplyOptions) (e : String)
      → env.serve_patch h v o ≡ err e
      → Fault env
  yaml_fault : (v : Value) (e : String) → env.yaml v ≡ err e → Fault env
  diff_fault : (a b name e : String) → env.unified_diff a b name ≡ err e → Fault env
  marshal_fault : (v : Value) (e : String) → env.marshal v ≡ err e → Fault env
  set_fault :
      (v : Value) (fs : Fields) (path : List String) (e : String)
      → env.set_nested_map v fs path ≡ err e
      → Fault env

module _ (env : Env) where
  -- A reply to a `Get`, after some calls.
  abbrev pub Answered : GroupVersionKind → String → String → GetReply → Type 0
  Answered gvk name namespace r = (h : List Call) × (env.serve_get h gvk name namespace ≡ r)

  pub failed :
      (gvk : GroupVersionKind) (name namespace e : String) (r : GetReply)
      → Answered gvk name namespace r
      → r ≡ GetReply.failure e
      → Fault env
  failed gvk name namespace e r a h = get_fault a.0 gvk name namespace e (a.1 ∙ h)

  pub Returns-get_object :
      {F : String → Type 0} (gvk : GroupVersionKind) (name namespace : String)
      → Returns F (Answered gvk name namespace) (get_object env gvk name namespace)
  unfolding get_object
  Returns-get_object gvk name namespace = record { at = λ s. (s.history, refl) }

  patched :
      (h : List Call) (v : Value) (o : ApplyOptions) (r : Result Value) (s : State)
      → env.serve_patch h v o ≡ r
      → Holds (λ e. Fault env) (λ a. Unit {0}) (lift r s)
  unfolding lift
  patched h v o (ok a) s q = tt
  patched h v o (err e) s q = patch_fault h v o e q

  pub Returns-patch_object :
      (v : Value) (o : ApplyOptions)
      → Returns (λ e. Fault env) (λ a. Unit {0}) (patch_object env v o)
  unfolding patch_object
  Returns-patch_object v o = record { at = λ s. patched s.history v o _ _ refl }
