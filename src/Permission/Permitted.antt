-- ===== src/Permission/Permitted.antt =====
-- The permissions that SetupPermission leaves.
use license_proxyserver.Base.{
  Text, str, text, List, [], ◌∷◌, Option, none, some, Bool, true, false, ite, ◌||◌, ◌≡◌, ◌≢◌, done,
  ok, err, Error, if◌then◌else◌, All,
}
use license_proxyserver.Kube.{ObjectKey}
use license_proxyserver.Permission.{
  Role, RoleBinding, Subject, RegistrationType, kube_client_type, custom_signer_type, Registration,
  ManagedClusterAddOn, HubClient, addon_key, agent_role, agent_role_binding, service_account,
  agent_subject, pick_subjects,
}

-- An object that was created can be read, and a binding leaves the roles alone.
pub record IsHubClient (k : HubClient) : Type 0 where
  pub after_role :
      (s s' : k.State) (role : Role)
      → k.create_role s role ≡ (s', none)
      → k.get_role s' role.key ≡ ok role
  pub after_binding :
      (s s' : k.State) (binding : RoleBinding)
      → k.create_role_binding s binding ≡ (s', none)
      → k.get_role_binding s' binding.key ≡ ok binding
  pub role_kept :
      (s : k.State) (binding : RoleBinding) (key : ObjectKey)
      → k.get_role (k.create_role_binding s binding).0 key ≡ k.get_role s key
  pub binding_kept :
      (s : k.State) (role : Role) (key : ObjectKey)
      → k.get_role_binding (k.create_role s role).0 key ≡ k.get_role_binding s key

abbrev is_csr : RegistrationType → Option Text → Bool
is_csr custom_signer_type driver = false
is_csr kube_client_type none = false
is_csr kube_client_type (some driver) = ite (str driver (text "csr")) true false

-- The agent registers with a certificate signing request.
abbrev pub uses_csr : List Registration → Bool
uses_csr [] = false
uses_csr (reg ∷ regs) = is_csr reg.type_of reg.kube_client || uses_csr regs

-- A registration of a Kubernetes client has its configuration.
abbrev HasClient : RegistrationType → Option Text → Type 0
HasClient custom_signer_type driver = Unit
HasClient kube_client_type driver = driver ≢ none

abbrev pub IsConfigured : Registration → Type 0
IsConfigured reg = HasClient reg.type_of reg.kube_client

abbrev Picks : Text → List Registration → Type 0
Picks user regs =
    (subjects : List Subject)
    → pick_subjects user regs subjects
      ≡ done (if uses_csr regs then agent_subject user else subjects)

module _ (k : HubClient) (faithful : IsHubClient k) where
  -- The role is there; if it was missing before, as `role`.
  pub record HasRole (s s' : k.State) (role : Role) : Type 0 where
    pub found : Role
    pub there : k.get_role s' role.key ≡ ok found
    pub fresh : (e : Error) → k.get_role s role.key ≡ err e → found ≡ role

  pub record HasBinding (s s' : k.State) (binding : RoleBinding) : Type 0 where
    pub found : RoleBinding
    pub there : k.get_role_binding s' binding.key ≡ ok found
    pub fresh : (e : Error) → k.get_role_binding s binding.key ≡ err e → found ≡ binding

  -- what SetupPermission leaves if it gives no error
  pub record Permitted (user cluster : Text) (addon : ManagedClusterAddOn) (s s' : k.State)
      : Type 0 where
    pub regs : List Registration
    pub registered : k.get_registrations s (addon_key cluster addon) ≡ ok regs
    pub role : HasRole s s' (agent_role cluster addon)
    pub binding : HasBinding s s' (
        agent_role_binding cluster addon
          (if uses_csr regs then agent_subject user else service_account))

  -- All registrations of the addon are configured.
  abbrev pub AllConfigured : k.State → ObjectKey → Type 0
  AllConfigured s key =
      (regs : List Registration) → k.get_registrations s key ≡ ok regs → All IsConfigured regs
