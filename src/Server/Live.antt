-- ===== src/Server/Live.antt =====
-- The service as it is deployed: requests over HTTP, ticks of the expiry worker, attempts to make the
-- administrator and the writer of the demand log, in any order, with any of their calls failing.
-- Redis may at any moment hold anything at all. A request is one step here; Interleaved cuts the
-- handlers that touch seats into phases.
use ticket_booking.Base.{String, ◌≡◌, List}
use ticket_booking.Redis.{Store}
use ticket_booking.RateLimit.{Buckets}
use ticket_booking.World.{World, Env, Attempt}
use ticket_booking.Cancel.{expire_overdue_orders}
use ticket_booking.Accounts.{Visit, ensure_admin}
use ticket_booking.Server.{Http, Setup, Meets, Service}
use ticket_booking.Server.Serve.{serve}

abbrev pub admin_try : Setup → Visit → String → String → World → World
admin_try x c email password w =
    (ensure_admin x.uuids x.bcrypt x.to_lower x.digest x.difficulty x.sign x.tokens c email password
      w).1

pub data Step (x : Setup) (v v' : Service) : Type 0 where
  requests : (m : Meets) (r : Http) → v' ≡ (serve x m r v).1 → Step x v v'
  ticks :
      (env : Env) → v' ≡ record v { world = (expire_overdue_orders env v.world).1 } → Step x v v'
  boots :
      (c : Visit) (email password : String)
      → v' ≡ record v { world = admin_try x c email password v.world }
      → Step x v v'
  redis_changes :
      (r : Store) (s : Buckets)
      → v' ≡ record v { world = record v.world { redis = r }; buckets = s }
      → Step x v v'
  log_drains :
      (rest : List Attempt)
      → v' ≡ record v { world = record v.world { attempts = rest } }
      → Step x v v'

pub data Reach (x : Setup) (v : Service) : Service → Type 0 where
  here : Reach x v v
  after : {v' v'' : Service} → Reach x v v' → Step x v' v'' → Reach x v v''
