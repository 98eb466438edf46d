-- ===== src/Worker/Enroll.antt =====
-- `money-miner-worker enroll` (cmd/worker/main.go): the arguments, the request, and the configuration
-- that is saved. The host's name, its hardware and the HTTP exchange are parameters.
pub mod Connects
use money_miner.Base.{
  ℕ, Bool, true, false, Option, none, some, List, [], ◌∷◌, ◌++◌, if◌then◌else◌, Text, text_eq,
  codes, is_empty, trim_last, ◌==◌, has_prefix, trim_space,
}
use money_miner.Swarm.Codes.{Hardware}
use money_miner.Api.Response.{Response, success, failure}
use money_miner.Api.Public.{EnrollReq}

pub record EnrollArgs : Type 0 where
  pub name : Text
  pub config : Text
  pub positional : List Text

-- The loop over the arguments; an option at the very end has no value and changes nothing.
unfoldable pub parse_args : List Text → EnrollArgs → EnrollArgs
parse_args [] a = a
parse_args (x ∷ []) a =
    if text_eq x (codes "--name")
    then a
    else (if text_eq x (codes "--config")
        then a
        else record a { positional = a.positional ++ x ∷ [] })
parse_args (x ∷ y ∷ xs) a =
    let named = parse_args xs (record a { name = y }) in
    let placed = parse_args xs (record a { config = y }) in
    let other = parse_args (y ∷ xs) (record a { positional = a.positional ++ x ∷ [] }) in
    if text_eq x (codes "--name")
    then named
    else (if text_eq x (codes "--config") then placed else other)

abbrev pub no_args : EnrollArgs
no_args = record { name = []; config = []; positional = [] }

-- What runs the command: the default configuration file, the host's name and system, what
-- `detectHardware` finds, and
-- `adapters`, the directory for miner binaries.
pub record Host : Type 0 where
  pub default_config : Text
  pub hostname : Text
  pub goos : Text
  pub hardware : Hardware
  pub adapters : Text

-- `fileConfig`, as it is saved.
pub record SavedConfig : Type 0 where
  pub app_url : Text
  pub worker_id : ℕ
  pub worker_token : Text
  pub wss_url : Text
  pub name : Text
  pub adapters_dir : Text
  pub allow_simulated : Bool

-- The body of the request and its URL.
pub record EnrollRequest : Type 0 where
  pub url : Text
  pub code : Text
  pub name : Text
  pub hardware : Hardware

abbrev or_text : Text → Text → Text
or_text [] def = def
or_text (c ∷ s) def = c ∷ s

-- The name without an option: the host's, or one of the system.
abbrev worker_label : Host → Text → Text
worker_label host name = or_text name (or_text host.hostname (codes "worker-" ++ host.goos))

unfoldable pub request_of : Host → (name : Text) → (positional : List Text) → Option EnrollRequest
unfolding trim_last
request_of host name [] = none
request_of host name (app ∷ []) = none
request_of host name (app ∷ code ∷ more ∷ rest) = none
request_of host name (app ∷ code ∷ []) = some (record {
  url = trim_last b'/' app ++ codes "/api/swarm/enroll";
  code = code;
  name = worker_label host name;
  hardware = record host.hardware { kind = codes "native" };
})

-- What `cmdEnroll` sends: none where there are not exactly two positional arguments.
unfoldable pub enroll_request : Host → List Text → Option EnrollRequest
unfolding parse_args request_of
enroll_request host args = let a = parse_args args no_args in request_of host a.name a.positional

-- The body of the request, as the server decodes it.
abbrev pub body_of : EnrollRequest → EnrollReq
body_of q = record { code = q.code; name = q.name; hardware = q.hardware }

abbrev pub created : ℕ → Bool
created status = status == 201

-- What `cmdEnroll` saves once the server has answered: none on an error. The new configuration does
-- not allow the simulated engine.
unfoldable pub save_reply :
    Host
    → (name : Text) → (positional : List Text) → Response (ℕ × Text × Text)
    → Option SavedConfig
unfolding trim_last
save_reply host name [] reply = none
save_reply host name (app ∷ []) reply = none
save_reply host name (app ∷ code ∷ more ∷ rest) reply = none
save_reply host name (app ∷ code ∷ []) (failure status error) = none
save_reply host name (app ∷ code ∷ []) (success status (id, token, wss)) =
    if created status
    then some (record {
      app_url = trim_last b'/' app;
      worker_id = id;
      worker_token = token;
      wss_url = wss;
      name = worker_label host name;
      adapters_dir = host.adapters;
      allow_simulated = false;
    })
    else none

-- `cmdEnroll`, with the server's answer.
unfoldable pub cmd_enroll : Host → List Text → Response (ℕ × Text × Text) → Option SavedConfig
unfolding parse_args save_reply
cmd_enroll host args reply =
    let a = parse_args args no_args in save_reply host a.name a.positional reply
