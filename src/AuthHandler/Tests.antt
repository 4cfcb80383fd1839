-- ===== src/AuthHandler/Tests.antt =====
-- Logging out with a token that nobody has, and a new password for nobody.
use order_hub.Base.{◌≡◌, refl, true, false, none, some, [], str_eq}
use order_hub.Base.Text.{trim_space}
use order_hub.Base.Store.{World, pure}
use order_hub.Base.Rows.{order_by, find_where}
use order_hub.Auth.Models.{Db, Outside}
use order_hub.Auth.Service.Types.{AuthService, CacheClient}
use order_hub.Interceptor.Clients.{Roles}
use order_hub.AuthHandler.Calls.{internal, status, handle_log_out}
use order_hub.AuthHandler.Calls.{panic, handle_request_password_reset}
use order_hub.AuthHandler.Missing.{Failed, Untouched, handle_request_password_reset-Failed}
use order_hub.AuthHandler.Unknown.{handle_log_out-unknown}

abbrev outside : Outside
outside = record {
  lower = λ s. s;
  text_before = λ _ _. false;
  is_inet = λ _. true;
  digest = λ s. s;
  hash_password = λ _ p. p;
  compare_password = λ h p. str_eq h p;
  digits = λ _ _. "123456";
  opaque = λ _. "new";
  from_uuid = λ _. "id";
  parse_uuid = λ _. some 1;
}

abbrev svc : AuthService
svc = record {
  tokens = record {
    sign_access = λ _ _ _. pure (record { token = "jwt"; exp = 15 });
    new_refresh = λ _ _. pure (record { opaque = "new"; hash = "new"; exp = 60 });
    parse_and_validate_access =
        λ _. pure (record { user_id = 3; role = "ROLE_CUSTOMER"; exp = 20 });
    blacklist_token = λ _. pure tt;
  };
  cache = CacheClient.no_cache;
  access_ttl = 5;
  refresh_ttl = 50;
}

abbrev roles : Roles
roles = record { role_value = λ _. some 1; role_string = λ _. "ROLE_CUSTOMER"; customer = 1 }

abbrev nothing : Db
nothing = record {
  users = [];
  refresh_tokens = [];
  sessions = [];
  email_verifications = [];
  password_resets = [];
  ring = record { jwk_keys = []; active = none; pub_keys = [] };
  redis = [];
  mails = [];
  next_id = 1;
  drawn = 0;
}

abbrev world : World Db
world = record { db = nothing; tx = nothing; faults = []; clock = 10 }

given : str_eq (trim_space "old") "" ≡ false
unfolding trim_space
given = refl

handle_log_out-unknown_example :
    ((handle_log_out outside svc roles (λ _. "id") true none none "old" false world).0
      ≡ status internal)
    × ((handle_log_out outside svc roles (λ _. "id") true none none "old" false world).1.db
        ≡ nothing)
unfolding find_where order_by
handle_log_out-unknown_example =
    handle_log_out-unknown outside svc roles (λ _. "id") none none "old" false world given refl

handle_request_password_reset-Failed_example :
    let out = handle_request_password_reset outside svc roles (λ _. "id") "a@b" world in
    Failed out.0
    × Untouched nothing out.1
    × (svc.cache ≡ CacheClient.no_cache → world.faults ≡ [] → out.0 ≡ panic)
unfolding find_where
handle_request_password_reset-Failed_example =
    handle_request_password_reset-Failed outside svc "a@b" world roles (λ _. "id") refl
