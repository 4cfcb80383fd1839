-- ===== src/Auth/Provider.antt =====
-- What the service relies on in its token provider: a call of it, whether it returns or fails, leaves
-- the accounts as they are. Auth.Token.Keeps shows it of `RSAProvider`.
use order_hub.Base.{Uuid, Time, String}
use order_hub.Base.Store.{World}
use order_hub.Base.Post.{Post}
use order_hub.Auth.Models.{Db}
use order_hub.Auth.Service.Types.{TokenProvider}
use order_hub.Auth.Book.{Book, At}

pub record IsProvider (p : TokenProvider) : Type 0 where
  pub sign_access_keeps :
      (s : Book) (now : Time) (user : Uuid) (role : String) (ttl : Time) (w : World Db)
      → At s now w
      → Post (λ _ v. At s now v) (λ _ v. At s now v) (p.sign_access user role ttl w)
  pub new_refresh_keeps :
      (s : Book) (now : Time) (user : Uuid) (ttl : Time) (w : World Db)
      → At s now w
      → Post (λ _ v. At s now v) (λ _ v. At s now v) (p.new_refresh user ttl w)
  pub blacklist_token_keeps :
      (s : Book) (now : Time) (access : String) (w : World Db)
      → At s now w
      → Post (λ _ v. At s now v) (λ _ v. At s now v) (p.blacklist_token access w)
