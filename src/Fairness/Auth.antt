-- ===== src/Fairness/Auth.antt =====
-- The identity that a bearer token gives, fairness/auth.go. The verifier is a parameter: `none` if the
-- block has none, and otherwise what the JWT library says of a token, `none` for one that it refuses.
use Prim.Native.String.{String}
use caddy_fair_admission.Prelude.{Bool, Option, none, some, ◌||◌, if◌then◌else◌}
use caddy_fair_admission.GoMap.{same}
use caddy_fair_admission.Fairness.Classify.{
  user_class_anonymous, user_class_researcher, user_class_service_account, user_class_internal,
  user_class_unknown,
}

-- The map validClaimedUserClasses.
unfoldable pub is_claimable : String → Bool
is_claimable class =
    same class user_class_researcher
    || same class user_class_service_account
    || same class user_class_internal

pub record AuthClaims : Type 0 where
  pub subject : String
  pub user_class : String

abbrev pub claimed : Option AuthClaims → String × String
claimed none = (user_class_unknown, "")
claimed (some claims) = (
  if is_claimable claims.user_class then claims.user_class else user_class_unknown,
  claims.subject,
)

-- `token` is what bearerToken finds, empty if there is none.
unfoldable pub authenticate : Option (String → Option AuthClaims) → String → String × String
authenticate verifier token =
    if same token ""
    then (user_class_anonymous, "")
    else elim verifier [ none ↦ (user_class_anonymous, "") | some parse ↦ claimed (parse token) ]
