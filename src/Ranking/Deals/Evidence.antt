-- ===== src/Ranking/Deals/Evidence.antt =====
-- The records of src/steam_agent/deal_evidence.py, the candidates of
-- src/steam_agent/deal_ranking.py, and the checks of their constructors. The tests on the types of
-- numbers and on literals hold by the types here.
use Prim.Native.Char.{Char, code}
use steam_cli.Prelude.{
  ℕ, Bool, true, false, not, ◌&&◌, leb, ◌==◌, Option, none, some, List, [], ◌∷◌, map, String,
  str_eq, any, all,
}
use steam_cli.Ranking.Checks.{len, any_char}

abbrev pub max_signed_64 : ℕ
max_signed_64 = 9223372036854775807

pub data Comparability : Type 0 where
  exact_product normalized_game unknown_product : Comparability

pub data StoreClass : Type 0 where
  official keyshop unknown_store : StoreClass

pub data AttemptStatus : Type 0 where
  ready not_found failed unavailable : AttemptStatus

pub record ProductIdentity : Type 0 where
  pub provider_product_id : String
  pub steam_appid : ℕ
  pub mapping : String

pub record Money : Type 0 where
  pub amount_minor : ℕ
  pub currency : String
  pub country : String

pub record OfferEvidence : Type 0 where
  pub provider : String
  pub product : ProductIdentity
  pub price : Money
  pub regular_price : Option Money
  pub discount_percent : Option ℕ
  pub store_class : StoreClass
  pub observed_at : String
  pub provider_url : String
  pub comparability : Comparability
  pub seller_id : Option String

pub record HistoricalLowSummary : Type 0 where
  pub provider : String
  pub product : ProductIdentity
  pub price : Money
  pub observed_at : String
  pub effective_at : Option String
  pub scope : String
  pub provider_url : String
  pub comparability : Comparability

pub record DealEvidenceSnapshot : Type 0 where
  pub provider : String
  pub product : ProductIdentity
  pub offers : List OfferEvidence
  pub history_lows : List HistoricalLowSummary
  pub observed_at : String
  pub limitations : List String

pub record ProviderAttempt : Type 0 where
  pub provider : String
  pub fallback_rung : ℕ
  pub status : AttemptStatus
  pub error_code : Option String

pub record DealCandidate : Type 0 where
  pub steam_appid : ℕ
  pub snapshots : List DealEvidenceSnapshot
  pub provider_attempts : List ProviderAttempt

pub record DealComparisonContext : Type 0 where
  pub country : String
  pub currency : String
  pub store_class : StoreClass
  pub history_scope : String

-- Whether the constructor of a record returns.
unfoldable pub accepts_product : ProductIdentity → Bool
unfolding len
accepts_product p =
    (leb 1 p.steam_appid && leb p.steam_appid 4294967295) && not (len p.provider_product_id == 0)

-- `isascii`, `isalpha` and `isupper` of a text of a given length, which is not 0.
abbrev is_capital : Char → Bool
is_capital c = leb 65 (code c) && leb (code c) 90

unfoldable pub is_code : ℕ → String → Bool
unfolding len any_char
is_code size s = (len s == size) && not (any_char (λ c. not (is_capital c)) s)

unfoldable pub accepts_money : Money → Bool
unfolding is_code
accepts_money m = leb m.amount_minor max_signed_64 && is_code 3 m.currency && is_code 2 m.country

-- `1 <= len(text) <= 128`
abbrev short : String → Bool
short s = not (len s == 0) && leb (len s) 128

abbrev error_fits : AttemptStatus → Option String → Bool
error_fits ready none = true
error_fits ready (some e) = false
error_fits not_found e = true
error_fits failed none = false
error_fits failed (some e) = not (len e == 0)
error_fits unavailable none = false
error_fits unavailable (some e) = not (len e == 0)

abbrev error_bounded : Option String → Bool
error_bounded none = true
error_bounded (some e) = leb (len e) 128

unfoldable pub accepts_attempt : ProviderAttempt → Bool
unfolding len
accepts_attempt a =
    short a.provider
    && leb a.fallback_rung max_signed_64
    && error_bounded a.error_code
    && error_fits a.status a.error_code

-- `len(providers) == len(set(providers))`
unfoldable pub texts_unique : List String → Bool
texts_unique [] = true
texts_unique (s ∷ ss) = not (any (str_eq s) ss) && texts_unique ss

abbrev pub attempted : DealCandidate → List String
attempted c = map (λ a. a.provider) c.provider_attempts

unfoldable pub accepts_candidate : DealCandidate → Bool
unfolding texts_unique
accepts_candidate c =
    (leb 1 c.steam_appid && leb c.steam_appid 4294967295)
    && texts_unique (attempted c)
    && all (λ s. any (str_eq s.provider) (attempted c) && (s.product.steam_appid == c.steam_appid))
        c.snapshots

unfoldable pub accepts_context : DealComparisonContext → Bool
unfolding accepts_money len
accepts_context x =
    accepts_money (record { amount_minor = 0; currency = x.currency; country = x.country })
    && short x.history_scope
