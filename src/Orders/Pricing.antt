-- ===== src/Orders/Pricing.antt =====
-- pricing.go: prices from the inventory service. The gRPC client is a parameter: its answer to
-- `GetProduct` and to `BatchGetProducts`, and `uuid.Parse`, which reads the identifiers of an answer.
use order_hub.Base.{Uuid, String, Bool, Option, none, some, List, [], ◌∷◌, ◌==◌, if◌then◌else◌}
use order_hub.Base.Int.{ℤ}
use order_hub.Base.Store.{Result, ok, err, service}
use order_hub.Orders.Models.{OrderError, pricing_missing, pricing_inactive, pricing_failed}

pub record Price : Type 0 where
  pub unit_price_cents : ℤ
  pub currency_code : String

-- the fields of the message `Product` that are read here
pub record ProductMessage : Type 0 where
  pub id : String
  pub price_cents : ℤ
  pub currency_code : String
  pub is_active : Bool

-- `map[uuid.UUID]Price`
abbrev pub Prices : Type 0
Prices = Uuid → Option Price

abbrev pub no_prices : Prices
no_prices _ = none

abbrev pub set_price : Uuid → Price → Prices → Prices
set_price id p prices key = if key == id then some p else prices key

-- `PricingProvider.GetPrices`
abbrev pub Pricing : Type 0
Pricing = List Uuid → Result OrderError Prices

abbrev price_of : ProductMessage → Price
price_of m = record { unit_price_cents = m.price_cents; currency_code = m.currency_code }

abbrev checked_price : Option ProductMessage → Result OrderError Price
checked_price none = err (service pricing_missing)
checked_price (some m) = if m.is_active then ok (price_of m) else err (service pricing_inactive)

unfoldable pub get_price : (Uuid → Option (Option ProductMessage)) → Uuid → Result OrderError Price
get_price get_product id = answer (get_product id)
  where
    answer : Option (Option ProductMessage) → Result OrderError Price
    answer none = err (service pricing_failed)
    answer (some m) = checked_price m

module _ (parse : String → Option Uuid) where
  abbrev add_parsed : Option Uuid → ProductMessage → Prices → Prices
  add_parsed none m prices = prices
  add_parsed (some id) m prices = if m.is_active then set_price id (price_of m) prices else prices

  -- an entry of the answer: nil, unreadable and inactive ones are passed over
  abbrev add_message : Option ProductMessage → Prices → Prices
  add_message none prices = prices
  add_message (some m) prices = add_parsed (parse m.id) m prices

  unfoldable pub add_messages : List (Option ProductMessage) → Prices → Prices
  add_messages [] prices = prices
  add_messages (m ∷ ms) prices = add_messages ms (add_message m prices)

  module _ (batch_get : List Uuid → Option (List (Option ProductMessage))) where
    abbrev pub read_batch : Option (List (Option ProductMessage)) → Result OrderError Prices
    unfolding add_messages
    read_batch none = err (service pricing_failed)
    read_batch (some ms) = ok (add_messages ms no_prices)

    unfoldable pub get_prices : Pricing
    get_prices [] = ok no_prices
    get_prices (id ∷ ids) = read_batch (batch_get (id ∷ ids))
