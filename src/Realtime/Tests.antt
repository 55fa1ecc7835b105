-- ===== src/Realtime/Tests.antt =====
-- A session of ten steps on whole numbers, through its life, and the WebSocket that creates it.
use lab_gateway.Prelude.{
  ℕ, ◌+◌, ◌-◌, codes, strip, text_eq, ◌≡◌, refl, Option, none, some, true, false, List, [], ◌∷◌,
  leb, ltb, min, any_of, All, arith,
}
use lab_gateway.Prelude.Int.{pos}
use lab_gateway.Prelude.Value.{Value, null, int, text}
use lab_gateway.Access.{enforce_fmu_claim}
use lab_gateway.Access.Files.{found}
use lab_gateway.Realtime.Session.{Engine, World, Session, ok, created, service_shutdown}
use lab_gateway.Realtime.Commands.{Options}
use lab_gateway.Realtime.Dispatch.{sim_initialize, sim_start, session_terminate}
use lab_gateway.Realtime.Life.{
  Happening, command, runner_round, cleanup_at, attached, detached, ended, live, live-is_sound,
  live-releases,
}
use lab_gateway.Realtime.Late.{is_late, live-late}
use lab_gateway.Realtime.Frame.{mode}
use lab_gateway.Realtime.Sound.{is_sound}
use lab_gateway.Realtime.Slots.{b2n}
use lab_gateway.Realtime.Queue.Log.{
  Step, enqueue, send, Line, Log, run, log_run, Refines, run-Refines,
}
use lab_gateway.Realtime.Cache.{Cache}
use lab_gateway.Realtime.Create.{Bearer, Message, fetched}
use lab_gateway.Realtime.Create.Open.{Place, Manager, create}
use lab_gateway.Realtime.Create.Backed.{OnGo}
use lab_gateway.Realtime.Create.Vouched.{IsVouched, create-IsVouched}

abbrev empty_line : Line ℕ
empty_line = record { queue = []; drops = 0; sent = 0 }

abbrev empty_log : Log ℕ
empty_log = record { events = []; position = 0 }

empty-Refines : Refines 2 empty_line empty_log
empty-Refines = record {
  queued = refl;
  counted = refl;
  reached = search arith;
  bounded = search arith;
}

abbrev traffic : List (Step ℕ)
traffic = enqueue 1 ∷ enqueue 2 ∷ enqueue 3 ∷ send ∷ enqueue 4 ∷ []

run-Refines_example : Refines 2 (run 2 empty_line traffic) (log_run 2 empty_log traffic)
run-Refines_example = run-Refines 2 empty_line empty_log traffic (search arith) empty-Refines

oldest_dropped : run 2 empty_line traffic ≡ record { queue = 3 ∷ 4 ∷ []; drops = 1; sent = 1 }
unfolding run lab_gateway.Realtime.Queue.Log.step
oldest_dropped = refl

abbrev seconds : Value → Option ℕ
seconds (int (pos n)) = some n
seconds _ = none

abbrev engine : Engine
engine = record {
  Time = ℕ;
  Sample = ℕ;
  le = leb;
  lt = ltb;
  add = λ a b. a + b;
  sub = λ a b. a - b;
  least = min;
  zero_time = 0;
  default_stop = 10;
  default_step = 1;
  of_value = seconds;
}

abbrev at : ℕ → World ℕ ℕ
at now = record {
  now = now;
  monotonic = now;
  description = ok true;
  extracts = true;
  instantiates = true;
  setup = ok tt;
  steps = λ a b. true;
  sampled = ok 5;
  set = ok tt;
}

abbrev fresh : Session ℕ ℕ
fresh = record {
  lab = codes "7";
  nbf = none;
  exp = some (pos 100);
  phase = created;
  current_time = 0;
  stop_time = 1;
  step_size = 1;
  outgoing = record { connection = none; drops = 0 };
  attach_deadline = none;
  subscription = none;
  seq = 0;
  pending_samples = [];
  runner = false;
  model = none;
  fmu = false;
  unzipped = false;
  closed = false;
}

abbrev options : Options engine 4 120
options = record { start_time = null; end_time = int (pos 3); step = null }

abbrev day : List (Happening engine 4 120)
day =
    attached []
    ∷ command (at 50) (sim_initialize options)
    ∷ command (at 51) sim_start
    ∷ runner_round (at 52)
    ∷ runner_round (at 53)
    ∷ []

abbrev night : List (Happening engine 4 120)
night =
    command (at 54) session_terminate
    ∷ command (at 55) session_terminate
    ∷ ended service_shutdown 56
    ∷ cleanup_at 57
    ∷ []

day_running : (live engine 4 120 day fresh).0.current_time ≡ 2
unfolding live
day_running = refl

runner_live : (live engine 4 120 day fresh).0.runner ≡ true
unfolding live
runner_live = refl

fresh_sound : is_sound (mode fresh) ≡ true
unfolding is_sound
fresh_sound = refl

live-is_sound_example : is_sound (mode (live engine 4 120 day fresh).0) ≡ true
live-is_sound_example = live-is_sound engine 4 120 day fresh fresh_sound

night_releases : (live engine 4 120 night fresh).1 ≡ 1
unfolding live
night_releases = refl

live-releases_example :
    (live engine 4 120 night fresh).1 + b2n fresh.closed
    ≡ b2n (live engine 4 120 night fresh).0.closed
live-releases_example = live-releases engine 4 120 night fresh

abbrev late : List (Happening engine 4 120)
late =
    command (at 100) (sim_initialize options)
    ∷ command (at 101) sim_start
    ∷ runner_round (at 102)
    ∷ detached 103
    ∷ []

late_holds : All (λ h. is_late engine 4 120 (pos 100) h ≡ true) late
late_holds = (refl, (refl, (refl, (refl, tt))))

live-late_example : (live engine 4 120 late fresh).0.current_time ≡ fresh.current_time
live-late_example = live-late engine 4 120 late (pos 100) fresh refl late_holds

abbrev one_cached : Cache ℕ
one_cached = record { entries = (codes "a", 1) ∷ []; order = codes "a" ∷ [] }

key_new : any_of (text_eq (codes "b")) one_cached.order ≡ false
unfolding text_eq
key_new = refl

abbrev bearer : Bearer
bearer = record {
  claims = record {
    resource_type = text (codes "fmu");
    scope = null;
    purpose = null;
    lab_id = text (codes "7");
    access_key = text (codes "pump.fmu");
    fmu_file_name = null;
    reservation_key = text (codes "0xaa");
    puc_hash = text (codes "0xbb");
    exp = int (pos 1020);
  };
  sub = text (codes "user");
  nbf = int (pos 900);
}

abbrev place : Place ℕ ℕ
place = record {
  internal = false;
  window = 60;
  ticks = 1000;
  create_limit = 30;
  slot_limit = 1;
  now = 1000;
  client_host = codes "h";
  session_id = codes "sess_1";
  float_text = λ s. none;
  resolve = λ v. found 3;
  backend = record {
    issue = some (fetched (text (codes "st_1")));
    redeem = some (fetched bearer);
    confirm = some (fetched tt);
  };
  zero_time = 0;
  one_time = 1;
  small_time = 1;
}

abbrev message : Message
message = record { lab_id = null; reservation_key = null; session_ticket = null }

abbrev manager : Manager ℕ ℕ
manager = record {
  hits = λ k. [];
  server = record { active = λ l. 0; running = []; stopped = [] };
  sessions = [];
}

bearer_enforced : enforce_fmu_claim false bearer.claims ≡ true
unfolding enforce_fmu_claim strip
bearer_enforced = refl

create-IsVouched_example :
    OnGo (λ o. IsVouched place message o) (create place message (some bearer) manager).1
create-IsVouched_example = create-IsVouched place message (some bearer) manager bearer_enforced

slot_taken : (create place message (some bearer) manager).0.server.active (codes "7") ≡ 1
unfolding create
slot_taken = refl
