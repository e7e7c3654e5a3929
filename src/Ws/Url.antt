-- ===== src/Ws/Url.antt =====
-- `parseWsUrl` (src/ws/WsClient.cpp).
use sipdemo.Base.{
  ℕ, ◌+◌, not, ◌||◌, Option, none, some, ◌==◌, if◌then◌else◌, is_empty, is_some, drop, take,
}
use sipdemo.Base.Int.{unsigned}
use sipdemo.Base.Text.{Text, text, starts_with, find, rfind, atoi}

pub record UrlParts : Type 0 where
  pub host : Text
  pub port : ℕ
  pub path : Text

-- The host and the port: what stands before and behind the last colon, unless there is a bracket.
unfoldable pub split_port : Text → Text → UrlParts
split_port host_port path = elim (rfind b':' host_port) [
  | none ↦ record { host = host_port; port = 80; path = path }
  | some colon ↦
      if is_some (find (text "]") host_port)
      then record { host = host_port; port = 80; path = path }
      else record {
        host = take colon host_port;
        port = unsigned 16 (atoi (drop (colon + 1) host_port));
        path = path;
      }
]

abbrev checked : UrlParts → Option UrlParts
checked p = if is_empty p.host || p.port == 0 then none else some p

unfoldable pub parse_ws_url : Text → Option UrlParts
unfolding split_port
parse_ws_url url =
    if not (starts_with (text "ws://") url)
    then none
    else (let rest = drop 5 url in
        elim (find (text "/") rest) [
          | none ↦ checked (split_port rest (text "/"))
          | some slash ↦ checked (split_port (take slash rest) (drop slash rest))
        ])
