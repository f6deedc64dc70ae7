-- ===== src/Handlers/Basic.antt =====
-- meshcore_rpc_services/handlers/ping.py, echo.py and time_now.py
use meshcore_rpc_services.Prelude.{
  ℕ, Option, none, some, [], ◌∷◌, String, ◌==◌, take_chars, if◌then◌else◌,
}
use meshcore_rpc_services.Prelude.Dict.{Dict, lookup}
use meshcore_rpc_services.Geo.{Platform}
use meshcore_rpc_services.Handlers.Protocol.{Handler}
use meshcore_rpc_services.Runtime.{M, pure, time, ◌>>=◌}
use meshcore_rpc_services.Schemas.{Request, Response, ok_response}
use meshcore_rpc_services.Value.{Json, str, float, text?}

abbrev pub max_echo_len : ℕ
max_echo_len = 64

-- `if isinstance(echo, str) and echo: body["echo"] = echo[:64]`
abbrev echo_entry : Option String → Dict Json
echo_entry none = []
echo_entry (some s) = if s == "" then [] else ("echo", str (take_chars max_echo_len s)) ∷ []

unfoldable pub ping : Request → M Response
ping request =
    pure
      (ok_response request (("msg", str "pong") ∷ echo_entry (text? (lookup "echo" request.args))))

abbrev pub ping_handler : Handler
ping_handler = record { type = "ping"; handle = ping }

abbrev pub max_len : ℕ
max_len = 180

abbrev pub text_or_empty : Option String → String
text_or_empty none = ""
text_or_empty (some s) = s

unfoldable pub echo : Request → M Response
echo request = pure (
    ok_response request
      (("msg", str (take_chars max_len (text_or_empty (text? (lookup "msg" request.args))))) ∷ []))

abbrev pub echo_handler : Handler
echo_handler = record { type = "echo"; handle = echo }

unfoldable pub time_now : Platform → Request → M Response
time_now p request = do
  now ← time
  pure (ok_response request (("ts", float now) ∷ ("iso", str (p.iso_utc now)) ∷ []))

abbrev pub time_now_handler : Platform → Handler
time_now_handler p = record { type = "time.now"; handle = time_now p }
