-- ===== src/Fairness/Classify.antt =====
-- The identity of a request, fairness/classify.go.
use Prim.Native.String.{String}
use caddy_fair_admission.Prelude.{ℕ}

abbrev pub user_class_anonymous : String
user_class_anonymous = "anonymous"

abbrev pub user_class_researcher : String
user_class_researcher = "researcher"

abbrev pub user_class_service_account : String
user_class_service_account = "service_account"

abbrev pub user_class_internal : String
user_class_internal = "internal"

abbrev pub user_class_unknown : String
user_class_unknown = "unknown"

abbrev pub user_class_human_verified : String
user_class_human_verified = "human_verified"

pub record Classification : Type 0 where
  pub ip : String
  pub net24 : String
  pub net_v6 : String
  pub asn : ℕ
  pub country : String
  pub user_class : String
  pub user_id : String
