-- ===== src/Lib.antt =====
-- The license proxy server: a Kubernetes API server that hands out product licenses of AppsCode by
-- feature, and the manager that fetches them for the clusters of an Open Cluster Management hub.
--
-- The parts, and how they interact. The license registry (pkg/storage/store.go) keeps the licenses of
-- a cluster twice: in a heap for each feature, and in a store by ID. It holds a record book
-- (pkg/storage/recordbook.go) of who uses which license. The API server answers a LicenseRequest
-- (pkg/registry/proxyserver/licenserequest/storage.go) with a license of the registry, or of the
-- license server, and shows the store as LicenseStatus objects
-- (pkg/registry/proxyserver/licensestatus/storage.go). Licenses come into its registry from
-- directories (pkg/storage/loader.go) and, on a spoke cluster, from a secret of the hub cluster
-- (pkg/controllers/secret/license_syncer.go). On the hub cluster the acquirer
-- (pkg/manager/license_acquirer.go) reads the features that a cluster claims, and fills that secret.
--
-- The files:
--   Base           the shared names, Go's errors and run-time panics as values (`Run`, `Result`), maps
--                  as association lists, integers, strings, strings.Split and strings.Join
--   Heap           container/heap over LicenseQueue: Len, Less, Swap, Push and Pop of store.go
--   Api            apis/proxyserver/v1alpha1, and the fields that the program reads of a license
--   Clock          package time: an instant counts nanoseconds since Go's zero time
--   Verifier       the parser of licenses and the client of the license server, as parameters
--   Storage        pkg/storage: RecordBook, Registry (LicenseRegistry) and Loader (LoadDir)
--   Request        Create and getLicense of licenserequest/storage.go
--   Status         List, Get and toLicenseStatus of licensestatus/storage.go
--   Kube           secrets and the calls of the Kubernetes client, a parameter with its laws
--   SecretFs       pkg/secretfs/lib.go, files as the entries of a secret
--   Syncer         Reconcile and addLicense of license_syncer.go
--   Acquirer       license_acquirer.go; Acquirer/Loop has reconcile and its loop
--   Server         New of pkg/apiserver/apiserver.go, and ApplyTo of pkg/cmds/server/options.go
--   Permission     SetupPermission of pkg/manager/rbac/rbac.go
--   Table          ConvertToTable of licensestatus/table.go
--   Prober         the health check of pkg/manager/config.go
--   Addon          GetConfigValues of pkg/manager/config.go (Config), runManagerController of
--                  pkg/manager/manager.go (Manager), and their options; Chart has nested values
--   Command        the command `run`: pkg/cmds/run.go and pkg/cmds/server/start.go
--   DeepCopy       the deep copies of apis/proxyserver/v1alpha1/zz_generated.deepcopy.go, on a store
--                  of objects that refer to each other by address
--   Delivery       the acquirer, the syncer, the registry and Create together
--   Tests          samples, runs of the definitions on them, and the theorems at the samples
--
-- State is passed explicitly: an operation takes the registry, the storage or the cluster's state and
-- returns the new one. The methods of the registry and of the book hold a mutex throughout, so each is
-- one step, and an interleaving of callers is a sequence of steps. Each operation is given the reading
-- of the clock at which it runs; an operation of several calls has one reading for all of them. A read
-- through a nil pointer is the outcome `panic`. A map is an association list: an iteration over it
-- takes the list's order, which the theorems do not fix. The license lists of a registry alias one
-- backing array in Go; the map holds the same slice as the local variable, which the model passes on.
--
-- Bounds and fuel. The heap's loops and the loop of LicenseForFeature run on fuel: the length of the
-- queue and one more, since every round of `down` goes to a child, and every round of the service loop
-- takes a license off; the outcome `out_of_fuel` is not reached. Durations are cut off at the ends of
-- int64, as time.Time.Sub does it; instants are not bounded.
--
-- Parameters, with what is assumed of them where a theorem says so: `License.Less` of the license
-- verifier is a strict weak order, which holds for licenses with both dates; the parser accepts issued
-- licenses only, and an issued license has an expiry date that its ID, the certificate's serial number,
-- determines; a Kubernetes client reads back what it wrote; string sets have the members that their
-- documentation says. The registry's file calls on its cache directory are recorded in order, and
-- their errors dropped, as in the source. A chart's values are nested maps, on which SetNestedField and
-- MergeValues do as they are documented. Of a framework's call that only fails or succeeds, such as the
-- start of a manager, the model has the error.
--
-- Not modelled: logging; the flags of the commands and the entry point; the options that the program
-- passes to the controller managers and to the API server library; registration with the API
-- machinery; generated code, but for the deep copies of the requests and of the specs; vendored
-- code.
pub mod Base
pub mod Heap
pub mod Api
pub mod Clock
pub mod Storage
pub mod Verifier
pub mod Request
pub mod Status
pub mod Kube
pub mod SecretFs
pub mod Syncer
pub mod Acquirer
pub mod Tests
pub mod Server
pub mod Permission
pub mod Table
pub mod Prober
pub mod Addon
pub mod Command
pub mod Delivery
pub mod DeepCopy
