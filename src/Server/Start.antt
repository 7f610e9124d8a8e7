-- ===== src/Server/Start.antt =====
-- How `main` of api/main.go puts the service together from the environment.
use ticket_booking.Base.{
  ℕ, ◌/◌, String, true, Option, none, some, Bool, if◌then◌else◌, List, to_nat,
}
use ticket_booking.World.{App, Uuids}
use ticket_booking.Accounts.{Bcrypt}
use ticket_booking.Config.{Validated, refused, valid}
use ticket_booking.Config.Load.{Config, load, hold_seconds}
use ticket_booking.RateLimit.Settings.{getenv, new_rate_limiter}
use ticket_booking.Listings.Orders.{Collation}
use ticket_booking.Server.{Setup, Json}

-- The libraries; a token is signed and verified under a secret.
pub record Libraries : Type 0 where
  pub uuids : Uuids
  pub bcrypt : Bcrypt
  pub to_lower : String → String
  pub digest : String → String → List ℕ
  pub sign : String → String → ℕ → Option String
  pub verify : String → String → Option String
  pub parse_time : String → Option ℕ
  -- Whether pgxpool.New takes the database's URL.
  pub connects : String → Bool
  pub parse_float : ℕ → String → Option ℕ
  pub json : Json
  pub collation : Collation

module _ (os : String → String) (libs : Libraries) where
  -- a := &app{…}; a duration is in whole seconds here
  abbrev pub app_of : Config → App
  app_of c = record {
    hold_ttl = hold_seconds c;
    max_held_seats = to_nat c.max_held_seats;
    logging = true;
    queue_capacity = 10000;
  }

  abbrev pub setup_of : Config → Setup
  setup_of c = record {
    uuids = libs.uuids;
    app = app_of c;
    bcrypt = libs.bcrypt;
    to_lower = libs.to_lower;
    digest = libs.digest;
    difficulty = to_nat c.pow_difficulty;
    sign = libs.sign c.jwt_secret;
    verify = libs.verify c.jwt_secret;
    tokens = record {
      access_ttl = to_nat c.access_ttl / 1000000000;
      refresh_ttl = to_nat c.refresh_ttl / 1000000000;
    };
    limits = new_rate_limiter os libs.parse_float;
    parse_time = libs.parse_time;
    json = libs.json;
    collation = libs.collation;
    cors_origin = getenv os "CORS_ORIGIN" "http://localhost:3000";
  }

  abbrev pub or_fatal : Config → Validated → Option Setup
  or_fatal c (refused problem) = none
  or_fatal c (valid warned) = if libs.connects c.database_url then some (setup_of c) else none

  -- The service that starts to listen; `none` for log.Fatal.
  unfoldable pub start : Option Setup
  start = let (c, checked) = load os in or_fatal c checked
