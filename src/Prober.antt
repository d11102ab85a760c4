-- ===== src/Prober.antt =====
-- pkg/manager/config.go: the health check of the agent's deployment, from the values that the work
-- agent feeds back. The error messages leave out the numbers and the names of the deployment.
pub mod Probed
use license_proxyserver.Base.{
  Text, str, text, List, [], ◌∷◌, Option, none, some, Bool, ite, if◌then◌else◌, Run, done, deref,
  ◌>>=◌, Error, message,
}
use license_proxyserver.Base.Int.{ℤ, pos, ltb_ℤ}

-- workv1.FeedbackValue: its name, and its value if that is an integer
pub record FeedbackValue : Type 0 where
  pub name : Text
  pub integer : Option ℤ

-- what is returned for a value of `ReadyReplicas`
unfoldable pub check_ready : Option ℤ → Run (Option Error)
check_ready integer = do
  n ← deref integer
  done (if ltb_ℤ n (pos 1) then some (message (text "readyReplica is")) else none)

-- the loop over the values
unfoldable pub probe : List FeedbackValue → Run (Option Error)
unfolding check_ready
probe [] = done (some (message (text "readyReplica is not probed")))
probe (value ∷ values) =
    let rest = probe values in
    ite (str value.name (text "ReadyReplicas")) (check_ready value.integer) rest

-- HealthCheck
unfoldable pub health_check : List FeedbackValue → Run (Option Error)
unfolding probe
health_check [] = done (some (message (text "no values are probed for deployment")))
health_check (value ∷ values) = probe (value ∷ values)
