-- ===== src/Ftp/Client.antt =====
-- FTP/client.cpp: transferToServer, getFromServer, and the commands of main. What the user answers to
-- the question whether to overwrite a file is a parameter.
use network_os_simulation.Shared.{
  ℕ, zero, suc, List, [], ◌∷◌, ◌++◌, Option, none, some, ltb, ◌==◌, if◌then◌else◌, length,
}
use network_os_simulation.Shared.Text.{Text, codes, text_discrete}
use network_os_simulation.Shared.Dict.{lookup, insert}
use network_os_simulation.Ftp.{
  Program, done, fault, send, int, ◌and_then◌, send_text, receive_int, receive_text, send_block,
  receive_block,
}

-- The bytes of each file by its name.
abbrev pub Files : Type 0
Files = List (Text × List ℕ)

abbrev pub file : Text → Files → Option (List ℕ)
file name files = lookup text_discrete name files

abbrev pub with_file : Text → List ℕ → Files → Files
with_file name bytes files = insert text_discrete name bytes files

-- `remove(name)`
unfoldable pub without_file : Text → Files → Files
without_file name [] = []
without_file name ((other, bytes) ∷ files) = elim (text_discrete name other) [
  | yes _ ↦ without_file name files
  | no _ ↦ (other, bytes) ∷ without_file name files
]

abbrev pub temp_file : Text
temp_file = codes "temp.txt"

-- The bytes of printed lines.
unfoldable pub printed : List Text → List ℕ
printed [] = []
printed (l ∷ lines) = l ++ 10 ∷ printed lines

-- `ls *.extension > temp.txt`: the shell expands the pattern before it opens the file.
abbrev pub with_listing : List Text → Files → Files
with_listing lines files = with_file temp_file (printed lines) files

-- What is printed: no such file here, a file that went or failed to go to the server, no such file
-- there, a file that came, the end.
pub data Report : Type 0 where
  no_file : Text → Report
  transferred failed : Text → Report
  missing received : Text → Report
  closed not_closed : Report

pub record Client : Type 0 where
  pub files : Files
  pub file_exists : ℕ
  pub overwrite : ℕ
  pub reports : List Report

abbrev pub report : Report → Client → Client
report r c = record c { reports = c.reports ++ r ∷ [] }

-- A missing file has no size: `file_size` throws.
unfoldable pub upload : Text → Client → Program Client
upload name c = elim (file name c.files) [
  | none ↦ fault
  | some bytes ↦ send (int (length bytes)) (
      send_block bytes (
        receive_int
          λ status. done (report (if status == 0 then failed name else transferred name) c)))
]

-- `exists` is what the server sends.
unfoldable pub offer : Text → ℕ → Client → ℕ → Program Client
unfolding upload
offer name answer c exists =
    let c1 = record c {
      file_exists = exists;
      overwrite = if exists == 0 then c.overwrite else answer;
    } in
    send (int c1.overwrite) (if c1.overwrite == 1 then upload name c1 else done c1)

unfoldable pub transfer_to_server : Text → ℕ → Client → Program Client
unfolding offer
transfer_to_server name answer c =
    send_text 100 (codes "put " ++ name) (receive_int (offer name answer c))

-- The file is opened for writing: with O_TRUNC, or with O_EXCL, which fails for a file that is there.
-- Without either the descriptor is what is in memory.
unfoldable pub save : Text → List ℕ → Client → Program Client
save name bytes c = elim c.file_exists [
  | zero ↦ elim (file name c.files) [
    | none ↦ done (record c { files = with_file name bytes c.files })
    | some old ↦ done c
  ]
  | suc zero ↦ done (record c { files = with_file name bytes c.files })
  | suc (suc n) ↦ fault
]

-- Where the file is not received, `close` is called with a variable that was never assigned.
unfoldable pub accept : Text → ℕ → Client → Program Client
unfolding save
accept name filesize c = send (int c.overwrite) (
    if c.overwrite == 1
    then receive_block filesize
        (λ bytes. save name bytes c and_then (λ c1. done (report (received name) c1)))
    else fault)

unfoldable pub get_from_server : Text → ℕ → Client → Program Client
unfolding accept
get_from_server name answer c = receive_int λ filesize.
    if filesize == 0
    then done (report (missing name) c)
    else accept name filesize (elim (file name c.files) [
      | none ↦ c
      | some old ↦ record c { file_exists = 1; overwrite = answer }
    ])

-- A name is typed into a buffer of 20 bytes, which `cin` writes over the end of.
abbrev pub typed : {A : Type 0} → Text → Program A → Program A
typed name p = if ltb (length name) 20 then p else fault

unfoldable pub put : Text → ℕ → Client → Program Client
unfolding transfer_to_server
put name answer c = typed name (elim (file name c.files) [
  | none ↦ done (report (no_file name) c)
  | some bytes ↦ transfer_to_server name answer c
])

unfoldable pub get : Text → ℕ → Client → Program Client
unfolding get_from_server
get name answer c =
    typed name (send_text 100 (codes "get " ++ name) (get_from_server name answer c))

-- The loop over the lines of the listing.
unfoldable pub put_many : List Text → (Text → ℕ) → Client → Program Client
unfolding transfer_to_server
put_many [] answer c = done c
put_many (name ∷ names) answer c = transfer_to_server name (answer name) c and_then λ c1.
    put_many names answer (record c1 { overwrite = 1 })

-- `ls` gives the lines that the shell prints of the files with an extension, which `getline` reads
-- back from the file.
unfoldable pub mput : (Files → Text → List Text) → Text → (Text → ℕ) → Client → Program Client
unfolding put_many without_file
mput ls extension answer c =
    let names = ls c.files extension in
    put_many names answer (record c { files = with_listing names c.files }) and_then λ c1.
    done (record c1 { files = without_file temp_file c1.files })

-- The loop over the files that the server sends.
unfoldable pub get_many : ℕ → (Text → ℕ) → Client → Program Client
unfolding get_from_server
get_many zero answer c = done c
get_many (suc num_files) answer c = receive_text λ name.
    get_from_server name (answer name) c and_then λ c1.
    get_many num_files answer (record c1 { overwrite = 1; file_exists = 0 })

unfoldable pub mget : Text → (Text → ℕ) → Client → Program Client
unfolding get_many
mget extension answer c =
    send_text 100 (codes "mget " ++ extension)
      (receive_int λ num_files. get_many num_files answer c)

unfoldable pub quit : Client → Program Client
quit c =
    send_text 100 (codes "quit")
      (receive_int λ status. done (report (if status == 0 then not_closed else closed) c))
