-- ===== src/Server.antt =====
-- The HTTP service of api/main.go: what a request brings and what is answered, and the settings.
-- net/http, encoding/json and jwt are parameters or modelled by their documented behaviour.
pub mod Routes
pub mod Handle
pub mod Serve
pub mod Effect
pub mod Live
pub mod Moves
pub mod Access
pub mod Admins
pub mod TurnedBack
pub mod Progress
pub mod Tables
pub mod Journey
pub mod Start
pub mod Fixture
pub mod Tests
pub mod ProgressTests
pub mod Safety
pub mod Priced
pub mod Ownership
use Prim.Native.String.{len}
use ticket_booking.Base.{ℕ, zero, suc, String, Bool, Option, List, ltb, Fault}
use ticket_booking.Db.{Seat}
use ticket_booking.World.{World, App, Env, Uuids, Response}
use ticket_booking.Booking.{Request}
use ticket_booking.Admin.Tables.{NewEvent, Patch, Draws}
use ticket_booking.Pow
use ticket_booking.Sessions
use ticket_booking.Accounts
use ticket_booking.Accounts.{Bcrypt, Credentials, tokens_for}
use ticket_booking.RateLimit.{Buckets}
use ticket_booking.RateLimit.Middleware.{Limits}
use ticket_booking.Listings
use ticket_booking.Listings.Rows.{Query, Page, page}
use ticket_booking.Listings.Rows
use ticket_booking.Listings.Catalog.{OnSale, Stats}
use ticket_booking.Listings.Orders.{Collation, MyOrder}

-- `net.SplitHostPort` of the peer's address gives `host`, and r.Header.Get the four headers.
pub record Http : Type 0 where
  pub method : String
  pub path : String
  pub remote_addr : String
  pub host : Option String
  pub authorization : String
  pub idempotency_key : String
  pub pow : Pow.Headers
  pub body : String

-- What a reader under http.MaxBytesReader yields: the first bytes, and whether an error follows them.
pub record Input : Type 0 where
  pub text : String
  pub cut : Bool

abbrev head_of : ℕ → String → String
head_of zero s = String.[]
head_of (suc n) String.[] = String.[]
head_of (suc n) (String.◌∷◌ c s) = String.◌∷◌ c (head_of n s)

abbrev pub max_bytes : ℕ → String → Input
max_bytes n s = record { text = head_of n s; cut = ltb n (len s) }

-- `Decode` of encoding/json under DisallowUnknownFields, for the type of each handler's body.
pub record Json : Type 0 where
  pub booking : Input → Option Request
  pub credentials : Input → Option Credentials
  pub new_event : Input → Option NewEvent
  pub patch : Input → Option Patch
  pub refresh_token : Input → Option String

-- `decodeJSON`
unfoldable pub decode_json : {A : Type 0} → (Input → Option A) → String → Option A
decode_json decode body = decode (max_bytes 1048576 body)

-- The `app` struct, the limiter's settings, CORS_ORIGIN, and the libraries.
pub record Setup : Type 0 where
  pub uuids : Uuids
  pub app : App
  pub bcrypt : Bcrypt
  pub to_lower : String → String
  pub digest : String → String → List ℕ
  pub difficulty : ℕ
  pub sign : String → ℕ → Option String
  pub verify : String → Option String
  pub tokens : Sessions.Settings
  pub limits : Limits
  pub parse_time : String → Option ℕ
  pub json : Json
  pub collation : Collation
  pub cors_origin : String

-- What the calls of one request meet.
pub record Meets : Type 0 where
  pub general : Fault
  pub general_now : ℕ
  pub strict : Fault
  pub strict_now : ℕ
  pub pg_ping : Fault
  pub redis_ping : Fault
  pub admin_row : Fault
  pub env : Env
  pub draws : Draws
  pub gate : Pow.Calls
  pub tokens : Sessions.Calls
  pub query : Fault
  pub salt : ℕ
  pub fresh_user : ℕ
  pub seats : Listings.Calls
  pub rows : Query

pub data Reply : Type 0 where
  text : String → Reply
  no_content logged_out : Reply
  -- an answer of http.ServeMux itself: 301, 404 or 405
  unrouted : ℕ → Reply
  -- `writeErr`
  failed : ℕ → String → Reply
  answered : Response → Reply
  account : Accounts.Answer → Reply
  session : Sessions.Answer → Reply
  seat_map : Listings.Answer → Reply
  on_sale : Page OnSale → Reply
  my_orders : Page MyOrder → Reply
  dashboard : Page Stats → Reply

abbrev pub page_status : {A : Type 0} → Page A → ℕ
page_status (Rows.page rows) = 200
page_status (Rows.denied status code) = status

abbrev pub status_of : Reply → ℕ
status_of (text s) = 200
status_of no_content = 204
status_of logged_out = 200
status_of (unrouted status) = status
status_of (failed status code) = status
status_of (answered resp) = resp.status
status_of (account (tokens_for status _ _ _ _)) = status
status_of (account (Accounts.denied status code)) = status
status_of (session (Sessions.issued _ _ _)) = 200
status_of (session (Sessions.rejected status code)) = status
status_of (seat_map (Listings.page e seats)) = 200
status_of (seat_map (Listings.denied status code)) = status
status_of (on_sale p) = page_status p
status_of (my_orders p) = page_status p
status_of (dashboard p) = page_status p

-- The line that `logRequests` prints, without its time.
pub record LogLine : Type 0 where
  pub method : String
  pub path : String
  pub status : ℕ

pub record Service : Type 0 where
  pub world : World
  pub buckets : Buckets
  pub log : List LogLine
