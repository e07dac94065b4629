-- ===== src/Config/Enums.antt =====
-- src/config.rs: the enumerations, their derived equality and their readers.
use tak_bench.Prelude.{ℕ, Bool, ◌==◌, if◌then◌else◌, Result, ok, err}
use tak_bench.Prelude.Bytes.{Str, bytes, str_eq}

pub data Environment : Type 0 where
  local staging temporary production : Environment

pub data Profile : Type 0 where
  smoke functional load stress spike soak reconnect : Profile

pub data RampStrategy : Type 0 where
  immediate linear step randomized : RampStrategy

pub data ParticipantRole : Type 0 where
  send_only receive_only send_receive : ParticipantRole

pub data ScenarioKind : Type 0 where
  position marker chat : ScenarioKind

pub data Movement : Type 0 where
  fixed random_walk line circle route geojson_route : Movement

pub data InvalidEventKind : Type 0 where
  malformed_xml unterminated_xml oversized_frame invalid_coordinates invalid_time : InvalidEventKind

-- The derived `==` compares discriminants.
abbrev environment_tag : Environment → ℕ
environment_tag local = 0
environment_tag staging = 1
environment_tag temporary = 2
environment_tag production = 3

abbrev profile_tag : Profile → ℕ
profile_tag smoke = 0
profile_tag functional = 1
profile_tag load = 2
profile_tag stress = 3
profile_tag spike = 4
profile_tag soak = 5
profile_tag reconnect = 6

abbrev strategy_tag : RampStrategy → ℕ
strategy_tag immediate = 0
strategy_tag linear = 1
strategy_tag step = 2
strategy_tag randomized = 3

abbrev role_tag : ParticipantRole → ℕ
role_tag send_only = 0
role_tag receive_only = 1
role_tag send_receive = 2

abbrev kind_tag : ScenarioKind → ℕ
kind_tag position = 0
kind_tag marker = 1
kind_tag chat = 2

abbrev movement_tag : Movement → ℕ
movement_tag fixed = 0
movement_tag random_walk = 1
movement_tag line = 2
movement_tag circle = 3
movement_tag route = 4
movement_tag geojson_route = 5

abbrev pub environment_eq : Environment → Environment → Bool
environment_eq a b = environment_tag a == environment_tag b

abbrev pub profile_eq : Profile → Profile → Bool
profile_eq a b = profile_tag a == profile_tag b

abbrev pub strategy_eq : RampStrategy → RampStrategy → Bool
strategy_eq a b = strategy_tag a == strategy_tag b

abbrev pub role_eq : ParticipantRole → ParticipantRole → Bool
role_eq a b = role_tag a == role_tag b

abbrev pub kind_eq : ScenarioKind → ScenarioKind → Bool
kind_eq a b = kind_tag a == kind_tag b

abbrev pub movement_eq : Movement → Movement → Bool
movement_eq a b = movement_tag a == movement_tag b

unfoldable pub environment_from_str : Str → Result Str Environment
environment_from_str value =
    if str_eq value (bytes "local")
    then ok local
    else if str_eq value (bytes "staging")
    then ok staging
    else if str_eq value (bytes "temporary")
    then ok temporary
    else if str_eq value (bytes "production")
    then ok production
    else err (bytes "environment must be local, staging, temporary, or production")

unfoldable pub profile_from_str : Str → Result Str Profile
profile_from_str value =
    if str_eq value (bytes "smoke")
    then ok smoke
    else if str_eq value (bytes "functional")
    then ok functional
    else if str_eq value (bytes "load")
    then ok load
    else if str_eq value (bytes "stress")
    then ok stress
    else if str_eq value (bytes "spike")
    then ok spike
    else if str_eq value (bytes "soak")
    then ok soak
    else if str_eq value (bytes "reconnect")
    then ok reconnect
    else err (bytes "unknown profile")
