-- ===== src/Gateway/Tests.antt =====
-- Reading the token of a header.
use order_hub.Base.{◌≡◌, refl, some}
use order_hub.Gateway.Bearer.{extract_bearer_token}
use order_hub.Gateway.Clean.{Lacks, extract_bearer_token-Lacks}

given : extract_bearer_token "Bearer abc.def, extra" ≡ some "abc.def"
unfolding extract_bearer_token
given = refl

extract_bearer_token-Lacks_example : Lacks 44 "abc.def" × Lacks 32 "abc.def"
extract_bearer_token-Lacks_example =
    extract_bearer_token-Lacks "Bearer abc.def, extra" "abc.def" given
