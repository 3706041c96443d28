-- ===== src/Server/Modes/Tests.antt =====
-- Servers that start and end, on concrete answers of the system.
use fast_port.Prelude.{◌*◌, ◌/◌, ltb, refl, true, false, some, List, [], ◌∷◌}
use fast_port.Timers.Queue
use fast_port.Stats.Sampler.{Doubles}
use fast_port.ServiceMode.Status.{returns, Surroundings}
use fast_port.Server.Modes.Statements.{new_server}
use fast_port.Server.Modes.{iocp_server, StartAnswers, Call, started, stopped, shut}
use fast_port.Server.Modes.Pointer.{IsSafe, history, Throughout, pointer-IsSafe}

abbrev answers : StartAnswers
answers = record {
  service_started = true;
  listen = record {
    bound = true;
    associated = true;
    listens = true;
    accept_ex_found = true;
    sockaddrs_found = true;
  };
  posts = record { socket_made = true; posted = true } ∷ [];
  checker_timer = true;
  sampler_timer = true;
  readings = record { process_times = some (10, 20); system_time = 100; working_set_size = some 7 };
  extension_loaded = true;
  queue_made = true;
  block = some 4096;
  registered = some 7;
}

-- Started, stopped, started again and shut down.
abbrev calls : List Call
calls = started answers ∷ stopped ∷ started answers ∷ shut ∷ []

-- Whole numbers in place of doubles.
abbrev whole : Doubles
whole = record {
  of_uint64 = λ n. n;
  divide = λ a b. a / b;
  times = λ a b. a * b;
  below = λ a b. ltb a b;
  hundred = 100;
}

pointer-IsSafe_example : Throughout whole IsSafe (history iocp_server calls) (new_server Queue.make)
pointer-IsSafe_example = pointer-IsSafe whole iocp_server calls Queue.make (refl, (refl, tt))

-- The extension is not there.
abbrev without_rio : StartAnswers
without_rio = record answers { extension_loaded = false }

abbrev world : Surroundings
world = record { opens_source = λ _. true; runs = λ _ _. returns }
