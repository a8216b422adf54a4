-- ===== src/Tests/Hub.antt =====
-- References to repositories, answers and retries.
use weightkeep.Prelude.{
  ℕ, zero, suc, ◌≤◌, ◌<◌, Text, codes, [], ◌∷◌, ◌≟◌, false, ok, some, map, split, ◌≡◌, refl, arith,
}
use weightkeep.Ids.{
  slash, validate_repo_id, check_names, segment_re, is_alnum, is_name_byte, contains_dotdot,
}
use weightkeep.Hub.Repo.{dataset, Repo, repo_string, parse_repo, parse_repo-string}
use weightkeep.Hub.Escape.{path_unescape, escape_path}
use weightkeep.Hub.Segments.{escape_path-segments}
use weightkeep.Hub.Errors.{Response, classify, message_of, kind_of, is_kind, retryable}
use weightkeep.Hub.Retry.{
  Attempt, responded, round, retries, GoesOn, get_api, get_api_recovers, get_api_sound,
}

abbrev squad : Repo
squad = record { type = dataset; id = codes "org/squad" }

squad_test : validate_repo_id squad.id ≡ ok tt
unfolding validate_repo_id check_names segment_re is_alnum is_name_byte contains_dotdot
squad_test = refl

parse_repo-string_example : parse_repo (repo_string squad) ≡ ok squad
parse_repo-string_example = parse_repo-string squad squad_test tt

abbrev odd_path : Text
odd_path = 37 ∷ 47 ∷ 200 ∷ []

escape_path-segments_example :
    map path_unescape (split slash (escape_path odd_path)) ≡ map some (split slash odd_path)
escape_path-segments_example =
    escape_path-segments odd_path (omega arith, (omega arith, (omega arith, tt)))

abbrev answer_of : ℕ → Response
answer_of status = record {
  is_head = false;
  status = status;
  error_code = [];
  error_message = [];
  body_message = [];
}

-- The first two attempts are answered by an overloaded server.
abbrev recovering : ℕ → Attempt
recovering zero = responded (answer_of 503) []
recovering (suc zero) = responded (answer_of 429) []
recovering (suc (suc n)) = responded (answer_of 200) []

overloaded : GoesOn recovering 0 2
unfolding round classify message_of kind_of retryable is_kind ◌≟◌
overloaded zero le lt = (_, refl)
overloaded (suc zero) le lt = (_, refl)
overloaded (suc (suc n)) le lt = absurd (omega arith)

get_api_recovers_example : get_api recovering ≡ ok (answer_of 200)
get_api_recovers_example =
    get_api_recovers recovering 2 (answer_of 200) [] (omega arith) overloaded refl (omega arith)

get_api_sound_example :
    (n : ℕ) × (location : Text) × (n ≤ retries)
    × GoesOn recovering 0 n
    × (recovering n ≡ responded (answer_of 200) location)
    × (200 < 300)
get_api_sound_example = get_api_sound recovering (answer_of 200) get_api_recovers_example

abbrev part_range : Text
part_range = codes "bytes 100-199/1000"
