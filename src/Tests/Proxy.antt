-- ===== src/Tests/Proxy.antt =====
-- Requests, and a manifest.
use weightkeep.Prelude.{Text, codes, ◌≟◌, [], ◌∷◌, false, replicate, ok, ◌≡◌, ◌↔◌, refl}
use weightkeep.Ids.{
  is_alnum, is_name_byte, segment_re, contains_dotdot, check_names, check_segments,
  validate_repo_id, validate_path,
}
use weightkeep.Hub.Repo.{model, url_prefix, type_name}
use weightkeep.Hub.Escape.{path_unescape, unhex}
use weightkeep.Proxy.Route.{
  Route, resolve, unescape, checked, repo_from, revision_from, strip_type, plain_ref, resolve_tail,
  parse_resolve, parse_route, cut_inside, cut_at,
}
use weightkeep.Proxy.Safety.{IsSafe, parse_route-IsSafe}
use weightkeep.Manifest.Record.{Manifest, bytes, validate}
use weightkeep.Manifest.Validity.{IsValid, validate_iff}

abbrev file_route : Route
file_route = record {
  kind = resolve;
  repo = record { type = model; id = codes "o/m" };
  rev = codes "refs/pr/1";
  path = codes "a/b";
}

abbrev request : Text
request = codes "/o/m/resolve/refs%2Fpr%2F1/a/b"

request_test : parse_route request ≡ ok file_route
unfolding parse_route cut_inside cut_at ◌≟◌ parse_resolve repo_from unescape path_unescape
    strip_type url_prefix type_name checked validate_repo_id check_names segment_re is_alnum
    is_name_byte contains_dotdot resolve_tail revision_from unhex plain_ref validate_path
    check_segments
request_test = refl

parse_route-IsSafe_example : IsSafe file_route
parse_route-IsSafe_example = parse_route-IsSafe request file_route request_test

abbrev pub one_file : Manifest
one_file = record {
  version = 1;
  repo_type = codes "model";
  repo_id = codes "o/m";
  commit = replicate 40 b'a';
  upstream = codes "https://huggingface.co";
  license = record {
    ids = codes "apache-2.0" ∷ [];
    name = [];
    link = [];
    gated = codes "false";
    base_models = codes "o/base" ∷ [];
  };
  files =
      record {
        path = codes "a";
        size = bytes 3;
        sha256 = replicate 64 b'b';
        git_sha1 = replicate 40 b'c';
        lfs = false;
      }
      ∷ [];
}

validate_iff_example : (validate one_file ≡ ok tt) ↔ IsValid one_file
validate_iff_example = validate_iff one_file
