-- ===== src/Api.antt =====
-- The API objects of apis/proxyserver/v1alpha1, and the fields that the program reads of the
-- license-verifier's `License` and `Contract` and of the `user.Info` of k8s.io/apiserver.
use license_proxyserver.Base.{Text, List, Option}
use license_proxyserver.Base.Int.{ℤ}

-- An instant: nanoseconds since Go's zero time.
abbrev pub Time : Type 0
Time = ℤ

pub data LicenseState : Type 0 where
  unknown active invalid canceled : LicenseState

pub record License : Type 0 where
  pub id : Text
  pub contents : Text
  pub product_line : Text
  pub tier_name : Text
  pub plan_name : Text
  pub features : List Text
  pub not_before : Option Time
  pub not_after : Option Time
  pub status : LicenseState

pub record Contract : Type 0 where
  pub id : Text
  pub expiry_timestamp : Time

-- user.Info
pub record User : Type 0 where
  pub name : Text
  pub uid : Text
  pub groups : List Text
  pub extra : List (Text × List Text)

pub record UserInfo : Type 0 where
  pub username : Text
  pub uid : Text
  pub groups : List Text
  pub extra : List (Text × List Text)

pub record LicenseStatusSpec : Type 0 where
  pub feature : List Text
  pub user : Option UserInfo

pub record LicenseStatusStatus : Type 0 where
  pub license : License
  pub contract : Option Contract

-- Of the object's metadata, the fields that the server sets.
pub record LicenseStatus : Type 0 where
  pub name : Text
  pub uid : Text
  pub creation_timestamp : Time
  pub spec : LicenseStatusSpec
  pub status : LicenseStatusStatus

pub record LicenseRequestRequest : Type 0 where
  pub features : List Text

pub record LicenseRequestResponse : Type 0 where
  pub license : Text

pub record LicenseRequest : Type 0 where
  pub request : Option LicenseRequestRequest
  pub response : Option LicenseRequestResponse
