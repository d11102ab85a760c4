-- ===== src/Tests/PermissionExamples.antt =====
-- The permissions on a hub cluster that has no role of the agent yet.
use license_proxyserver.Base.{
  ◌≢◌, Text, text, List, [], ◌∷◌, Option, none, some, Result, ok, err, not_found,
}
use license_proxyserver.Permission.{
  Role, RoleBinding, RegistrationType, Registration, ManagedClusterAddOn, HubClient,
}
use license_proxyserver.Permission.Permitted.{Permitted}

-- the role and the binding, if there are any
abbrev Objects : Type 0
Objects = Option Role × Option RoleBinding

abbrev found {ℓ} : {A : Type ℓ} → Option A → Result A
found none = err (not_found [])
found (some a) = ok a

abbrev csr_registration : Registration
csr_registration = record {
  type_of = RegistrationType.kube_client_type;
  kube_client = some (text "csr");
}

abbrev hub : HubClient
hub = record {
  State = Objects;
  new_for_config = none;
  get_registrations = λ s key. ok (csr_registration ∷ []);
  get_role = λ s key. found s.0;
  create_role = λ s role. ((some role, s.1), none);
  get_role_binding = λ s key. found s.1;
  create_role_binding = λ s binding. ((s.0, some binding), none);
}

abbrev addon : ManagedClusterAddOn
addon = record { name = text "license-proxyserver"; uid = text "u1" }
