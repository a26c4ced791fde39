-- ===== src/Ftp/Server.antt =====
-- FTP/server.cpp: transferToClient, and the rounds of main.
use network_os_simulation.Shared.{
  ℕ, List, [], ◌∷◌, none, some, Bool, true, false, ◌==◌, if◌then◌else◌, length, ite,
}
use network_os_simulation.Shared.Text.{Text, codes, text_discrete}
use network_os_simulation.Shared.Words.{read_word}
use network_os_simulation.Ftp.{
  Program, done, fault, send, int, ◌and_then◌, send_text, receive_int, receive_text, send_block,
  receive_block,
}
use network_os_simulation.Ftp.Client.{Files, file, with_file, without_file, temp_file, with_listing}

-- `opened`: the descriptor was assigned. `running`: the loop was not left.
pub record Server : Type 0 where
  pub files : Files
  pub action : Text
  pub filename : Text
  pub extension : Text
  pub overwrite : ℕ
  pub opened : Bool
  pub running : Bool

-- `ss >> word`: without a word the variable keeps its text.
abbrev pub next_word : Text → Text → Text × Text
next_word old t = elim (read_word t) [ none ↦ (old, []) | some r ↦ r ]

-- The file is there, 1, or not, 0.
abbrev pub exists : Text → Files → ℕ
exists name files = elim (file name files) [ none ↦ 0 | some bytes ↦ 1 ]

-- A refused file closes the descriptor of an earlier one.
unfoldable pub store : Text → Server → Program Server
store name s =
    if s.overwrite == 1
    then receive_int (λ filesize. receive_block filesize (λ bytes.
      send (int (length bytes))
        (done (record s { files = with_file name bytes s.files; opened = true }))))
    else if s.opened
    then done s
    else fault

unfoldable pub serve_put : Server → Program Server
unfolding store
serve_put s =
    send (int (exists s.filename s.files))
      (receive_int λ overwrite. store s.filename (record s { overwrite = overwrite }))

-- A file that is not there has the size 0, like an empty one.
unfoldable pub transfer_to_client : Text → Server → Program Server
transfer_to_client name s =
    let bytes : List ℕ = elim (file name s.files) [ none ↦ [] | some bs ↦ bs ] in
    send (int (length bytes)) (
      if length bytes == 0
      then done s
      else receive_int λ overwrite.
        let s1 = record s { overwrite = overwrite } in
        if overwrite == 1 then send_block bytes (done s1) else done s1)

unfoldable pub serve_get : Server → Program Server
unfolding transfer_to_client
serve_get s = transfer_to_client s.filename (record s { opened = true })

unfoldable pub send_files : List Text → Server → Program Server
unfolding transfer_to_client
send_files [] s = done s
send_files (name ∷ names) s =
    send_text 20 name
      (transfer_to_client name (record s { opened = true }) and_then send_files names)

-- `ls` gives the lines that the shell prints of the files with an extension.
module _ (ls : Files → Text → List Text) where
  unfoldable pub serve_mget : Server → Program Server
  unfolding send_files without_file
  serve_mget s =
      let names = ls s.files s.extension in
      send (int (length names)) (
        send_files names (record s { files = with_listing names s.files }) and_then λ s1.
        done (record s1 { files = without_file temp_file s1.files }))

  -- `rest` is what follows the action in the buffer.
  unfoldable pub dispatch : Text → Server → Program Server
  unfolding serve_put serve_get serve_mget
  dispatch rest s =
      ite (text_discrete s.action (codes "put"))
        (serve_put (record s { filename = (next_word s.filename rest).0 }))
        (ite (text_discrete s.action (codes "get"))
          (serve_get (record s { filename = (next_word s.filename rest).0 }))
          (ite (text_discrete s.action (codes "mget"))
            (serve_mget (record s { extension = (next_word s.extension rest).0 }))
            (ite (text_discrete s.action (codes "quit"))
              (send (int 1) (done (record s { running = false }))) (done s))))

  -- One turn of the loop.
  unfoldable pub round : Server → Program Server
  unfolding dispatch
  round s =
      if s.running
      then receive_text (λ buffer.
        let (action, rest) = next_word s.action buffer in
        dispatch rest (record s { action = action }))
      else done s
