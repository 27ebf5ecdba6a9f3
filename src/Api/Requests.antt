-- ===== src/Api/Requests.antt =====
-- api/client.go: the requests to the server, and how their answers are read. The HTTP client and
-- the parser of package encoding/json are in the environment.
pub mod Answers
use flow_agent_x.Prelude.{
  ℕ, Bool, true, false, Option, none, some, List, [], ◌∷◌, ◌++◌, if◌then◌else◌, ◌==◌, Text, codes,
  text_eq,
}
use flow_agent_x.Prelude.Int.{ℤ, pos, negsuc}
use flow_agent_x.Prelude.Exec.{
  Err, errorf, nil_dereference, Result, ok, err, Outcome, ret, panic, Exec, pure, throw, must,
  recover, ◌>>=◌,
}
use flow_agent_x.Domain.Docker.{SimpleAuthPair}
use flow_agent_x.Domain.Secret.{
  SimpleKeyPair, Secret, auth_secret, rsa_secret, token_secret, Config, smtp_config, text_config,
}

-- A part of a body: the key, the file's name, and its content.
pub record Part : Type 0 where
  pub key : Text
  pub file : Text
  pub content : Text

pub data Method : Type 0 where
  get post : Method

pub record Request : Type 0 where
  pub method : Method
  pub url : Text
  pub token : Text  -- the header AGENT-TOKEN
  pub body : List Part

pub record Response : Type 0 where
  pub code : ℤ
  pub message : Text

unfoldable pub is_ok : Response → Bool
is_ok r = elim r.code [ pos n ↦ n == 200 | negsuc _ ↦ false ]

pub record Base : Type 0 where
  pub name : Text
  pub category : Text

pub record JobCache : Type 0 where
  pub id : Text
  pub key : Text
  pub files : List Text

-- What the client calls: an answer may depend on the requests made before, latest first. The other
-- fields are json.Unmarshal into each type of response, whose pointer may be nil.
pub record Web : Type 0 where
  pub new_request : Text → Option Err  -- http.NewRequest, by its URL
  pub fetch : List Request → Request → Result Text  -- http.Client.Do, and the body read
  pub response : Text → Result (Response × Unit {0})
  pub base : Text → Result (Response × Option Base)  -- SecretResponse, ConfigResponse
  pub job_cache : Text → Result (Response × Option JobCache)
  pub raw : Text → Result Text  -- ResponseRaw
  pub auth : Text → Result (Text × Option SimpleAuthPair)
  pub rsa : Text → Result (Text × Option SimpleKeyPair)
  pub token_field : Text → Result (Text × Option Text)
  pub smtp : Text → Result (Text × Text × Text × Text × Option SimpleAuthPair)
  pub text : Text → Result (Text × Text)

pub record Login : Type 0 where
  pub token : Text
  pub server : Text

-- parseResponse, behind the parsing of the type at hand
unfoldable pub parse_response {ℓ} : {A : Type ℓ} → Result (Response × A) → Result A
unfolding is_ok
parse_response (err e) = err e
parse_response (ok (r, a)) = if is_ok r then ok a else err (errorf r.message)

-- What a client has done on its machine.
pub data FileOp : Type 0 where
  created removed : Text → FileOp
  zipped renamed unzipped : Text → Text → FileOp

pub record Session : Type 0 where
  pub requests : List Request  -- latest first
  pub ops : List FileOp  -- latest first
  pub logs : List Text  -- what SendShellLog was given, latest first

module _ (web : Web) (login : Login) where
  -- http.NewRequest, whose error is dropped: the request is nil then, and its header is read. Else
  -- c.client.Do, and the body read.
  unfoldable pub do_request : Request → Exec Session (Result Text)
  do_request r s = elim (web.new_request r.url) [
    | some e ↦ (panic nil_dereference, s)
    | none ↦ (ret (web.fetch s.requests r), record s { requests = r ∷ s.requests })
  ]

  unfoldable pub request_to : Method → Text → List Part → Request
  request_to method path body = record {
    method = method;
    url = login.server ++ codes "/api/" ++ path;
    token = login.token;
    body = body;
  }

  unfoldable pub send : Method → Text → List Part → Exec Session (Result Text)
  unfolding do_request request_to
  send method path body = do_request (request_to method path body)

  -- The pointer `body.Data` is in an interface when PanicIfNil sees it, which does not notice that it
  -- is nil: the field behind it is read.
  abbrev pub checked : Option Base → Exec Session Base
  checked none = throw nil_dereference
  checked (some base) = pure base

  abbrev pub as_auth : Text × Option SimpleAuthPair → Exec Session (Result Secret)
  as_auth (name, pair) = pure (ok (auth_secret name pair))

  abbrev pub as_rsa : Text × Option SimpleKeyPair → Exec Session (Result Secret)
  as_rsa (name, pair) = pure (ok (rsa_secret name pair))

  abbrev pub as_token : Text × Option Text → Exec Session (Result Secret)
  as_token (name, token) = pure (ok (token_secret name token))

  unfoldable pub secret_from : Text → Base → Exec Session (Result Secret)
  secret_from raw base =
      if text_eq base.category (codes "AUTH")
      then must (web.auth raw) >>= as_auth
      else if text_eq base.category (codes "SSH_RSA")
      then must (web.rsa raw) >>= as_rsa
      else if text_eq base.category (codes "TOKEN")
      then must (web.token_field raw) >>= as_token
      else pure (err (errorf (codes "secret '%s' category '%s' is unsupported")))

  unfoldable pub read_secret : Result Text → Exec Session (Result Secret)
  unfolding parse_response secret_from
  read_secret answer = must answer >>= λ out. must (parse_response (web.base out)) >>= λ found.
      must (web.raw out) >>= λ raw. checked found >>= secret_from raw

  unfoldable pub fetch_secret : Text → Exec Session (Result Secret)
  unfolding do_request request_to read_secret
  fetch_secret name = do_request (request_to get (codes "secret/" ++ name) []) >>= read_secret

  unfoldable pub get_secret : Text → Exec Session (Result Secret)
  unfolding fetch_secret
  get_secret name = recover (λ e. pure (err e)) (fetch_secret name)

  abbrev pub as_smtp :
      Text × Text × Text × Text × Option SimpleAuthPair → Exec Session (Result Config)
  as_smtp (name, server, port, secure, pair) = pure (ok (smtp_config name server port secure pair))

  abbrev pub as_text : Text × Text → Exec Session (Result Config)
  as_text (name, text) = pure (ok (text_config name text))

  unfoldable pub config_from : Text → Base → Exec Session (Result Config)
  config_from raw base =
      if text_eq base.category (codes "SMTP")
      then must (web.smtp raw) >>= as_smtp
      else if text_eq base.category (codes "TEXT")
      then must (web.text raw) >>= as_text
      else pure (err (errorf (codes "config '%s' category '%s' is unsupported")))

  unfoldable pub read_config : Result Text → Exec Session (Result Config)
  unfolding parse_response config_from
  read_config answer = must answer >>= λ out. must (parse_response (web.base out)) >>= λ found.
      must (web.raw out) >>= λ raw. checked found >>= config_from raw

  unfoldable pub fetch_config : Text → Exec Session (Result Config)
  unfolding do_request request_to read_config
  fetch_config name = do_request (request_to get (codes "config/" ++ name) []) >>= read_config

  unfoldable pub get_config : Text → Exec Session (Result Config)
  unfolding fetch_config
  get_config name = recover (λ e. pure (err e)) (fetch_config name)
