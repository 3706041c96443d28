-- ===== src/ServiceMode/Installer/BinaryName.antt =====
-- GetServiceBinaryName and GetServiceBinaryLocation of LibCommons/ServiceMode.cpp. A name is given as
-- the character conversion gives it; what the standard library makes of a path is a parameter.
use fast_port.Prelude.{
  ℕ, zero, suc, ◌≡◌, refl, Bool, true, false, Option, none, some, List, ◌∷◌, if◌then◌else◌,
}
use fast_port.ServiceMode.Installer.{
  ScCall, opened, closed, asked_config, manager, service, ScAnswers,
}

-- The answers of QueryServiceConfig: the name, the size that the buffer would need, or an error.
pub data Config (Name : Type 0) : Type 0 where
  binary : Name → Config Name
  insufficient : ℕ → Config Name
  fails : Config Name

-- sizeof(QUERY_SERVICE_CONFIG), on 64 bits.
abbrev pub config_size : ℕ
config_size = 64

module _ {Name : Type 0} (scm : ScAnswers) (config : ℕ → List ScCall → Config Name) where
  -- The rounds of GetServiceBinaryName: the name, if one was found. None when they run out.
  unfoldable pub find_binary_name : ℕ → ℕ → List ScCall → Option (Option Name × List ScCall)
  find_binary_name zero size calls = none
  find_binary_name (suc rounds) size calls = elim (config size calls) [
    | binary name ↦ some (some name, asked_config size ∷ calls)
    | insufficient needed ↦ find_binary_name rounds needed (asked_config size ∷ calls)
    | fails ↦ some (none, asked_config size ∷ calls)
  ]

  abbrev pub succeeded :
      Option (Option Name × List ScCall) → Option (Bool × Option Name × List ScCall)
  succeeded none = none
  succeeded (some (name, calls)) = some (true, name, calls)

  -- The result, the name that was written, and the calls.
  unfoldable pub get_service_binary_name :
      ℕ → List ScCall → Option (Bool × Option Name × List ScCall)
  get_service_binary_name rounds calls =
      if scm.opens manager calls
      then (let calls' = opened manager ∷ calls in
          if scm.opens service calls'
          then succeeded (find_binary_name rounds config_size (opened service ∷ calls'))
          else some (false, none, closed manager ∷ calls'))
      else some (false, none, calls)

  module _ (empty : Name) (has_filename : Name → Bool) (remove_filename : Name → Name) where
    abbrev pub or_empty : Option Name → Name
    or_empty none = empty
    or_empty (some name) = name

    -- The folder of a name, where it has a file name.
    abbrev pub location_of :
        Option (Bool × Option Name × List ScCall) → Option (Bool × Option Name × List ScCall)
    location_of none = none
    location_of (some (false, _, calls)) = some (false, none, calls)
    location_of (some (true, name, calls)) =
        if has_filename (or_empty name)
        then some (true, some (remove_filename (or_empty name)), calls)
        else some (false, none, calls)

    unfoldable pub get_service_binary_location :
        ℕ → List ScCall → Option (Bool × Option Name × List ScCall)
    get_service_binary_location rounds calls = location_of (get_service_binary_name rounds calls)

  -- Where the buffer that the system asked for is large enough, two rounds give the name, but leave
  -- both handles open.
  get_service_binary_name-two :
      (calls : List ScCall) (name : Name) (needed : ℕ)
      → scm.opens manager calls ≡ true
      → scm.opens service (opened manager ∷ calls) ≡ true
      → config config_size (opened service ∷ opened manager ∷ calls) ≡ insufficient needed
      → config needed (asked_config config_size ∷ opened service ∷ opened manager ∷ calls)
        ≡ binary name
      → get_service_binary_name 2 calls
        ≡ some (
          true,
          some name,
          asked_config needed ∷ asked_config config_size ∷ opened service ∷ opened manager ∷ calls,
        )
  unfolding get_service_binary_name find_binary_name
  get_service_binary_name-two calls name needed m s i b = rw (m, s, find_binary_name, i, b) refl
