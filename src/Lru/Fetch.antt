-- ===== src/Lru/Fetch.antt =====
-- NetworkProtocols/LRU.cpp, SendHttpGetRequest: the request that is sent, and the text that is
-- returned on every path. The system calls are a parameter.
use network_os_simulation.Shared.{
  ℕ, ◌≡◌, refl, List, [], ◌∷◌, ◌++◌, Option, none, some, Bool, true, false, if◌then◌else◌, All,
  arith, Option-cases, inl, inr,
}
use network_os_simulation.Shared.Text.{Text, codes}
use network_os_simulation.Shared.Buffers.{c_string, NoNul, c_string-NoNul}

-- What the calls of one exchange answer. `recv` lists the buffers with data, in order, up to the
-- call that returns 0 or -1; `none` of `send` is its failure.
pub record Network : Type 0 where
  pub gethostbyname : Text → Option ℕ
  pub socket : Bool
  pub connect : ℕ → Bool
  pub send : ℕ → Text → Bool
  pub recv : ℕ → Text → List Text

-- The loop that receives.
received : List Text → Text
unfolding c_string
received [] = []
received (b ∷ bs) = c_string b ++ received bs

-- "\r\n"
abbrev line_end : Text
line_end = 13 ∷ 10 ∷ []

unfoldable pub http_request : Text → Text → Text
http_request host path =
    codes "GET "
    ++ (path
        ++ (codes " HTTP/1.1"
            ++ (line_end
                ++ (codes "Host: "
                    ++ (host
                        ++ (line_end ++ (codes "Connection: close" ++ (line_end ++ line_end))))))))

-- The text of an error.
abbrev pub failed : Text
failed = codes "1"

unfoldable pub send_http_get_request : Network → Text → Text → Text
unfolding received http_request
send_http_get_request net host path = elim (net.gethostbyname host) [
  | none ↦ failed
  | some addr ↦
      if net.socket
      then (if net.connect addr
          then (let request = http_request host path in
              if net.send addr request then received (net.recv addr request) else failed)
          else failed)
      else failed
]

-- No step of the exchange fails.
pub record Reaches (net : Network) (host path : Text) (addr : ℕ) : Type 0 where
  pub resolved : net.gethostbyname host ≡ some addr
  pub created : net.socket ≡ true
  pub connected : net.connect addr ≡ true
  pub sent : net.send addr (http_request host path) ≡ true

abbrev join : List Text → Text
join [] = []
join (b ∷ bs) = b ++ join bs

received-join : (bs : List Text) → All NoNul bs → received bs ≡ join bs
unfolding received
received-join [] n = refl
received-join (b ∷ bs) n = rw (c_string-NoNul b n.0, received-join bs n.1)

-- The bytes received before the connection ended come back in order, if none of them is NUL and
-- no call failed.
pub send_http_get_request-join :
    (net : Network) (host path : Text) (addr : ℕ)
    → Reaches net host path addr
    → All NoNul (net.recv addr (http_request host path))
    → send_http_get_request net host path ≡ join (net.recv addr (http_request host path))
unfolding send_http_get_request
send_http_get_request-join net host path addr r n =
    rw (r.resolved, send_http_get_request, r.created, r.connected, r.sent) (received-join _ n)

-- A failed step returns the text "1", as a page would be returned.
pub send_http_get_request-failed :
    (net : Network) (host path : Text)
    → ((addr : ℕ) → net.gethostbyname host ≡ some addr → net.connect addr ≡ false)
    → send_http_get_request net host path ≡ failed
unfolding send_http_get_request
send_http_get_request-failed net host path f = elim (Option-cases (net.gethostbyname host)) [
  | inl e ↦ rw (e, send_http_get_request)
  | inr (addr, e) ↦ ground (arith, f addr e)
]
