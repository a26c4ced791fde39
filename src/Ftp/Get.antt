-- ===== src/Ftp/Get.antt =====
-- GET: one file comes from the server to the client.
use network_os_simulation.Shared.{
  ◌≡◌, ◌≢◌, ap, ◌∙◌, ℕ, List, [], ◌∷◌, ◌++◌, none, some, true, length, ◌<◌, arith, length-append,
}
use network_os_simulation.Shared.Text.{Text, codes}
use network_os_simulation.Shared.Words.{IsWord}
use network_os_simulation.Ftp.{done, talk, send_text}
use network_os_simulation.Ftp.Command.{hear_get, typed-fits, send_text-fits}
use network_os_simulation.Ftp.Client.{Files, Client, missing, report, get_from_server, get}
use network_os_simulation.Ftp.Server.{Server, transfer_to_client, serve_get, round}
use network_os_simulation.Ftp.Fetch.{
  contents, chosen, fetched, fetch_steps, reject_steps, missing_steps,
}

-- The server, when it has opened the file of a GET.
abbrev pub ready : Text → Server → Server
ready name s = record s { action = codes "get"; filename = name; opened = true }

module _ (ls : Files → Text → List Text) where
  get_steps :
      (name : Text) (answer : ℕ) (c : Client) (s : Server)
      → IsWord name
      → length name < 20
      → s.running ≡ true
      → talk (round ls) (get name answer c) (done s)
        ≡ talk (round ls) (get_from_server name answer c) (transfer_to_client name (ready name s))
  unfolding get serve_get
  get_steps name answer c s n short r =
      let wait = get_from_server name answer c in
      ap (λ p. talk (round ls) p (done s))
        (typed-fits name (send_text 100 (codes "get " ++ name) wait) short
          ∙ send_text-fits 100 (codes "get " ++ name) wait
              (omega (arith, length-append (codes "get ") name)))
      ∙ hear_get ls name wait s n r

  -- A GET of a file that is not empty on the server, where `overwrite` is 1 after the user's answer.
  pub get-after :
      (name : Text) (answer b : ℕ) (bs : List ℕ) (c : Client) (s : Server)
      → IsWord name
      → length name < 20
      → s.running ≡ true
      → c.file_exists < 2
      → contents name s.files ≡ b ∷ bs
      → (chosen name answer c).overwrite ≡ 1
      → talk (round ls) (get name answer c) (done s)
        ≡ some
            (fetched name (b ∷ bs) (chosen name answer c), record (ready name s) { overwrite = 1 })
  get-after name answer b bs c s n short r h there e =
      get_steps name answer c s n short r
      ∙ fetch_steps (round ls) name answer b bs c (ready name s) h there e

  pub get-missing :
      (name : Text) (answer : ℕ) (c : Client) (s : Server)
      → IsWord name
      → length name < 20
      → s.running ≡ true
      → contents name s.files ≡ []
      → talk (round ls) (get name answer c) (done s) ≡ some (report (missing name) c, ready name s)
  get-missing name answer c s n short r gone =
      get_steps name answer c s n short r
      ∙ missing_steps (round ls) name answer c (ready name s) gone

  -- A GET of a file that is not empty on the server, for which `overwrite` is not 1 after the
  -- user's answer, ends in undefined behaviour: the client closes a descriptor that was never
  -- assigned.
  pub get-refused :
      (name : Text) (answer b : ℕ) (bs : List ℕ) (c : Client) (s : Server)
      → IsWord name
      → length name < 20
      → s.running ≡ true
      → contents name s.files ≡ b ∷ bs
      → (chosen name answer c).overwrite ≢ 1
      → talk (round ls) (get name answer c) (done s) ≡ none
  get-refused name answer b bs c s n short r there e =
      get_steps name answer c s n short r
      ∙ reject_steps (round ls) name answer b bs c (ready name s) there e
