-- ===== src/Permission.antt =====
-- pkg/manager/rbac/rbac.go: the role and the role binding of the agent in a cluster's namespace.
pub mod Permitted
use license_proxyserver.Base.{
  Text, str, text, List, [], ◌∷◌, Option, none, some, Bool, true, false, ite, if◌then◌else◌, Run,
  done, deref, ◌>>=◌, Result, ok, err, Error, is_not_found, ◌++◌,
}
use license_proxyserver.Kube.{ObjectKey}

pub record OwnerReference : Type 0 where
  pub api_version : Text
  pub kind : Text
  pub uid : Text
  pub name : Text
  pub block_owner_deletion : Bool

pub record PolicyRule : Type 0 where
  pub api_groups : List Text
  pub verbs : List Text
  pub resources : List Text

pub record Role : Type 0 where
  pub key : ObjectKey
  pub owner_references : List OwnerReference
  pub rules : List PolicyRule

pub record Subject : Type 0 where
  pub kind : Text
  pub name : Text

pub record RoleRef : Type 0 where
  pub kind : Text
  pub name : Text

pub record RoleBinding : Type 0 where
  pub key : ObjectKey
  pub owner_references : List OwnerReference
  pub role_ref : RoleRef
  pub subjects : List Subject

pub data RegistrationType : Type 0 where
  kube_client_type custom_signer_type : RegistrationType

-- a registration in the addon's status, with the driver of its KubeClient, which may be nil
pub record Registration : Type 0 where
  pub type_of : RegistrationType
  pub kube_client : Option Text

pub record ManagedClusterAddOn : Type 0 where
  pub name : Text
  pub uid : Text

-- The clients of the hub cluster.
pub record HubClient : Type 1 where
  pub State : Type 0
  -- kubernetes.NewForConfig
  pub new_for_config : Option Error
  -- the registrations in the status of the addon
  pub get_registrations : State → ObjectKey → Result (List Registration)
  pub get_role : State → ObjectKey → Result Role
  pub create_role : State → Role → State × Option Error
  pub get_role_binding : State → ObjectKey → Result RoleBinding
  pub create_role_binding : State → RoleBinding → State × Option Error

abbrev pub addon_key : Text → ManagedClusterAddOn → ObjectKey
addon_key cluster addon = record { namespace = cluster; name = addon.name }

unfoldable pub owner : ManagedClusterAddOn → List OwnerReference
owner addon =
    record {
      api_version = text "addon.open-cluster-management.io/v1alpha1";
      kind = text "ManagedClusterAddOn";
      uid = addon.uid;
      name = addon.name;
      block_owner_deletion = true;
    }
    ∷ []

unfoldable pub agent_role : Text → ManagedClusterAddOn → Role
unfolding owner
agent_role cluster addon = record {
  key = addon_key cluster addon;
  owner_references = owner addon;
  rules =
      record {
        api_groups = [] ∷ [];
        verbs = text "get" ∷ text "list" ∷ text "watch" ∷ [];
        resources = text "secrets" ∷ [];
      }
      ∷ [];
}

-- common.AddonName
abbrev pub addon_name : Text
addon_name = text "license-proxyserver"

abbrev pub service_account : List Subject
service_account = record { kind = text "ServiceAccount"; name = addon_name ++ text "-agent" } ∷ []

abbrev pub agent_subject : Text → List Subject
agent_subject user = record { kind = text "User"; name = user } ∷ []

unfoldable pub agent_role_binding : Text → ManagedClusterAddOn → List Subject → RoleBinding
unfolding owner
agent_role_binding cluster addon subjects = record {
  key = addon_key cluster addon;
  owner_references = owner addon;
  role_ref = record { kind = text "Role"; name = addon.name };
  subjects = subjects;
}

-- the loop over the registrations: the subjects of the binding
unfoldable pub pick_subjects : Text → List Registration → List Subject → Run (List Subject)
pick_subjects user [] subjects = done subjects
pick_subjects user (reg ∷ regs) subjects = elim reg.type_of [
  | custom_signer_type ↦ pick_subjects user regs subjects
  | kube_client_type ↦ deref reg.kube_client >>= λ driver.
      pick_subjects user regs (ite (str driver (text "csr")) (agent_subject user) subjects)
]

module _ (k : HubClient) where
  -- the first switch
  unfoldable pub ensure_role : k.State → Role → k.State × Option Error
  ensure_role s role = elim (k.get_role s role.key) [
    | ok found ↦ (s, none)
    | err e ↦ let created = k.create_role s role in if is_not_found e then created else (s, some e)
  ]

  -- the second switch
  unfoldable pub ensure_role_binding : k.State → RoleBinding → k.State × Option Error
  ensure_role_binding s binding = elim (k.get_role_binding s binding.key) [
    | ok found ↦ (s, none)
    | err e ↦
        let created = k.create_role_binding s binding in
        if is_not_found e then created else (s, some e)
  ]

  unfoldable pub ensure_both : k.State → Role → RoleBinding → k.State × Option Error
  unfolding ensure_role ensure_role_binding
  ensure_both s role binding =
      let (s', e) = ensure_role s role in
      elim e [ some failed ↦ (s', some failed) | none ↦ ensure_role_binding s' binding ]

  -- the function of SetupPermission, with the agent's user for the cluster and the addon
  unfoldable pub setup_permission :
      Text → Text → ManagedClusterAddOn → k.State → Run (k.State × Option Error)
  unfolding ensure_both pick_subjects agent_role agent_role_binding
  setup_permission user cluster addon s = elim k.new_for_config [
    | some e ↦ done (s, some e)
    | none ↦ elim (k.get_registrations s (addon_key cluster addon)) [
      | err e ↦ done (s, some e)
      | ok regs ↦ pick_subjects user regs service_account >>= λ subjects.
          done
            (ensure_both s (agent_role cluster addon) (agent_role_binding cluster addon subjects))
    ]
  ]
