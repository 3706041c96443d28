-- ===== src/Server/Modes/Providers.antt =====
-- The providers that OnStarted of FastPortServer/IOCPServiceMode.cpp and FastPortServerRIO/RIOServiceMode.cpp
-- gives to the idle checker and to the collector. A session of the container may be null.
use fast_port.Prelude.{ℕ, ◌≢◌, Option, none, some, List, [], ◌∷◌, All}
use fast_port.Sessions.IdleChecker.{SessionIdleChecker}
use fast_port.Server.Container.{Container}

-- ForEach with the lambda that pushes what is not null.
unfoldable pub collect : {T : Type 0} → Container (Option T) → List (Option T)
collect [] = []
collect ((key, none) ∷ entries) = collect entries
collect ((key, some session) ∷ entries) = some session ∷ collect entries

abbrev pub idle_snapshot : {T : Type 0} → Container (Option T) → List (Option T)
idle_snapshot sessions = collect sessions

abbrev pub stats_snapshot : {T : Type 0} → Container (Option T) → List (Option T)
stats_snapshot sessions = collect sessions

abbrev pub rio_stats_snapshot : {T : Type 0} → Container (Option T) → List (Option T)
rio_stats_snapshot sessions = collect sessions

-- The count of the IOCP server's checker, 0 without one; the RIO server has none.
abbrev pub iocp_idle_count : Option SessionIdleChecker → ℕ
iocp_idle_count none = 0
iocp_idle_count (some c) = c.disconnect_count

abbrev pub rio_idle_count : ℕ
rio_idle_count = 0

-- No snapshot has a null pointer in it.
collect-present :
    {T : Type 0} (sessions : Container (Option T)) → All (λ o. o ≢ none) (collect sessions)
unfolding collect
collect-present [] = tt
collect-present ((key, none) ∷ entries) = collect-present entries
collect-present ((key, some session) ∷ entries) = (λ e. cc, collect-present entries)
