-- ===== src/Tests/FtpTests.antt =====
-- The file transfer on two small directories.
use network_os_simulation.Shared.{◌≡◌, refl, List, [], ◌∷◌, none, some, true, inl, arith, map}
use network_os_simulation.Shared.Text.{Text, codes, text_discrete}
use network_os_simulation.Shared.Dict.{lookup, insert}
use network_os_simulation.Shared.Words.{IsWord, is_space, read_word}
use network_os_simulation.Ftp.{done, talk, ◌and_then◌}
use network_os_simulation.Ftp.Client.{Files, file, Client, put, get, mput, mget, with_listing}
use network_os_simulation.Ftp.Server.{Server, round}
use network_os_simulation.Ftp.Put.{put-after, after_put}
use network_os_simulation.Ftp.Get.{get-after, get-refused, ready}
use network_os_simulation.Ftp.Fetch.{fetched, chosen}
use network_os_simulation.Ftp.Copied.{Copied, Cleared}
use network_os_simulation.Ftp.Mput.{mput-Copied}
use network_os_simulation.Ftp.Mget.{mget-Copied}
use network_os_simulation.Ftp.Session.{put-put_stale, get-put}

abbrev notes : Text
notes = codes "a.txt"

abbrev plan : Text
plan = codes "b.txt"

abbrev lost : Text
lost = codes "z.txt"

abbrev our_files : Files
our_files = (notes, 7 ∷ 8 ∷ []) ∷ (plan, 9 ∷ []) ∷ []

abbrev their_files : Files
their_files = (notes, 1 ∷ []) ∷ []

-- All files are listed.
abbrev listing : Files → Text → List Text
listing files extension = map (λ f. f.0) files

abbrev us : Client
us = record { files = our_files; file_exists = 0; overwrite = 1; reports = [] }

abbrev them : Server
them = record {
  files = their_files;
  action = [];
  filename = [];
  extension = [];
  overwrite = 1;
  opened = true;
  running = true;
}

notes-IsWord : IsWord notes
unfolding is_space
notes-IsWord = (refl, (refl, (refl, (refl, (refl, tt)))))

plan-IsWord : IsWord plan
unfolding is_space
plan-IsWord = (refl, (refl, (refl, (refl, (refl, tt)))))

lost-IsWord : IsWord lost
unfolding is_space
lost-IsWord = (refl, (refl, (refl, (refl, (refl, tt)))))

put_runs :
    (talk (round listing) (put notes 1 us) (done them))
    ≡ some (after_put notes 1 (7 ∷ 8 ∷ []) us them)
unfolding put round read_word lookup insert text_discrete
put_runs = refl

put-after_example :
    talk (round listing) (put notes 1 us) (done them)
    ≡ some (after_put notes 1 (7 ∷ 8 ∷ []) us them)
unfolding lookup text_discrete
put-after_example =
    put-after listing notes 1 7 (8 ∷ []) us them notes-IsWord (omega arith) refl refl (inl refl)

get-after_example :
    talk (round listing) (get notes 1 us) (done them)
    ≡ some (fetched notes (1 ∷ []) (chosen notes 1 us), record (ready notes them) { overwrite = 1 })
unfolding lookup text_discrete
get-after_example =
    get-after listing notes 1 1 [] us them notes-IsWord (omega arith) refl (omega arith) refl refl

refusal_undefined : talk (round listing) (get notes 2 us) (done them) ≡ none
unfolding lookup text_discrete
refusal_undefined =
    get-refused listing notes 2 1 [] us them notes-IsWord (omega arith) refl refl (omega arith)

mput-Copied_example :
    (c' : Client) × (s' : Server) × (talk
        (round listing)
        (mput listing (codes "txt") (λ name. 1) us)
        (done them)
      ≡ some (c', s'))
    × Cleared our_files c'.files
    × Copied (notes ∷ plan ∷ []) (with_listing (notes ∷ plan ∷ []) our_files) their_files s'.files
unfolding lookup insert text_discrete
mput-Copied_example =
    mput-Copied listing (codes "txt") us them
      (
        (notes-IsWord, omega arith, (7, 8 ∷ [], refl)),
        ((plan-IsWord, omega arith, (9, [], refl)), tt),
      )
      refl refl

mget-Copied_example :
    (c' : Client) × (s' : Server) × (talk
        (round listing)
        (mget (codes "a.txt") (λ name. 1) us)
        (done them)
      ≡ some (c', s'))
    × Copied (notes ∷ []) (with_listing (notes ∷ []) their_files) our_files c'.files
    × Cleared their_files s'.files
mget-Copied_example =
    mget-Copied listing (codes "a.txt") us them notes-IsWord (omega arith) refl (omega arith) refl
      (omega arith, tt)

put-put_stale_example :
    (c' : Client) × (s' : Server) × (talk
        (round listing)
        (put notes 2 us and_then put plan 1)
        (done them)
      ≡ some (c', s'))
    × (s'.files ≡ their_files)
    × (c'.reports ≡ [])
unfolding lookup text_discrete
put-put_stale_example =
    put-put_stale listing notes plan 2 1 7 9 (8 ∷ []) [] (1 ∷ []) us them notes-IsWord (omega arith)
      plan-IsWord (omega arith) refl refl refl refl refl refl (omega arith)

get-put_example :
    (c1 : Client) × (s1 : Server) × (c2 : Client) × (s2 : Server) × (talk
        (round listing)
        (put plan 1 us)
        (done them)
      ≡ some (c1, s1))
    × (talk (round listing) (get plan 1 us) (done s1) ≡ some (c2, s2))
    × (file plan c2.files ≡ some (9 ∷ []))
    × (s2.files ≡ s1.files)
unfolding lookup text_discrete
get-put_example =
    get-put listing plan 1 1 9 [] us us them plan-IsWord (omega arith) refl refl refl (omega arith)
      refl
