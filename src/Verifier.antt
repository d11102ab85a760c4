-- ===== src/Verifier.antt =====
-- What the program calls of the license-verifier, which it does not implement: the certificates
-- and the parser of licenses, and the client of the license server.
use license_proxyserver.Base.{Text, List, Option, Result}
use license_proxyserver.Api.{License, Contract}

pub record Verifier (Certificate : Type 0) : Type 0 where
  -- info.LoadLicenseCA
  pub load_license_ca : Result Text
  -- info.ParseCertificate
  pub parse_certificate : Text → Result Certificate
  -- verifier.ParseLicense, of the cluster's UID, the CA certificate and the license's bytes
  pub parse_license : Text → Certificate → Text → Result License

-- (*Client).AcquireLicense: the license's bytes and the contract
abbrev pub LicenseClient : Type 0
LicenseClient = List Text → Result (Text × Option Contract)
