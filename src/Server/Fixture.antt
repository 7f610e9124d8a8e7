-- ===== src/Server/Fixture.antt =====
-- The settings of a small service over HTTP, for the tests.
use Prim.Native.String.{◌++◌}
use ticket_booking.Base.{String, none, some, [], str_eq, if◌then◌else◌, fine}
use ticket_booking.World.{World}
use ticket_booking.Listings.Rows.{Query}
use ticket_booking.Server.{Http, Setup, Meets, Service}
use ticket_booking.Fixture.{uuids, app, env, user, request, world}

abbrev pub all_rows : Query
all_rows = record { query = fine; scan = fine; arrive = none }

abbrev pub setup : Setup
setup = record {
  uuids = uuids;
  app = app;
  bcrypt = record { generate = λ salt p. some ("h:" ++ p); compare = λ h p. str_eq h ("h:" ++ p) };
  to_lower = λ s. s;
  digest = λ c s. [];
  difficulty = 0;
  sign = λ user expires. some ("jwt-" ++ user);
  verify = λ t. if str_eq t "ann" then some user else if str_eq t "eve" then some "eve" else none;
  tokens = record { access_ttl = 900; refresh_ttl = 604800 };
  limits = record { rps = 500000; burst = 5000000000; auth_rps = 100000; auth_burst = 2000000000 };
  parse_time = λ t. none;
  json = record {
    booking = λ i. if str_eq i.text "book" then some request else none;
    credentials = λ i. none;
    new_event = λ i. none;
    patch = λ i. none;
    refresh_token = λ i. none;
  };
  collation = record {
    newest_first = λ orders. orders;
    by_seat_no = λ seats. seats;
    greatest = λ names. none;
  };
  cors_origin = "http://localhost:3000";
}

abbrev pub meets : Meets
meets = record {
  general = fine;
  general_now = 1000;
  strict = fine;
  strict_now = 1000;
  pg_ping = fine;
  redis_ping = fine;
  admin_row = fine;
  env = env;
  draws = record { series = 1; seat = λ r c. r };
  gate = record { get_del = fine; set_fresh = fine; fresh = "c1"; now = 1000 };
  tokens = record { get_del = fine; del = fine; set = fine; drawn = some "t1"; now = 1000 };
  query = fine;
  salt = 5;
  fresh_user = 70;
  seats = record {
    header = fine;
    rows = fine;
    scan = fine;
    arrive = none;
    mget = fine;
    now = 1000;
  };
  rows = all_rows;
}

abbrev pub asks : String → String → String → String → Http
asks method path token body = record {
  method = method;
  path = path;
  remote_addr = "10.0.0.1:5000";
  host = some "10.0.0.1";
  authorization = "Bearer " ++ token;
  idempotency_key = "key-1";
  pow = record { challenge = ""; solution = "" };
  body = body;
}

abbrev pub idle : World → Service
idle w = record { world = w; buckets = λ k. none; log = [] }

abbrev pub service : Service
service = idle world
