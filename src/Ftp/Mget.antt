-- ===== src/Ftp/Mget.antt =====
-- MGET: the loop over the files that the server lists.
use network_os_simulation.Shared.{
  ◌≡◌, refl, ap, ap₂, sym, ◌∙◌, ℕ, suc, List, [], ◌∷◌, ◌++◌, Option, none, some, true, length, ◌<◌,
  arith, length-append, subst, All,
}
use network_os_simulation.Shared.Text.{Text, codes}
use network_os_simulation.Shared.Words.{IsWord}
use network_os_simulation.Ftp.{done, talk, receive_int, ◌and_then◌}
use network_os_simulation.Ftp.Talk.{alone, talk-and_then, and_then-done}
use network_os_simulation.Ftp.Client.{
  Files, file, with_file, with_listing, without_file, temp_file, Client, mget, get_many,
  get_from_server,
}
use network_os_simulation.Ftp.Fetch.{contents, chosen, missing_steps, fetch_steps}
use network_os_simulation.Ftp.Command.{hear_mget, of_kind, send_text-fits}
use network_os_simulation.Ftp.Server.{Server, transfer_to_client, send_files, serve_mget, round}
use network_os_simulation.Ftp.Copied.{
  Copied, Cleared, listing-Cleared, copied, copy_bytes, copied-Copied,
}

chosen_1 : (name : Text) (c : Client) → c.overwrite ≡ 1 → (chosen name 1 c).overwrite ≡ 1
chosen_1 name c e = one (file name c.files)
  where
    one :
        (o : Option (List ℕ))
        → Client.overwrite (elim o as (λ x. Client) [
          | none ↦ c
          | some old ↦ record c { file_exists = 1; overwrite = 1 }
        ])
          ≡ 1
    one none = e
    one (some old) = refl

chosen-files : (name : Text) (c : Client) → (chosen name 1 c).files ≡ c.files
chosen-files name c = same (file name c.files)
  where
    same :
        (o : Option (List ℕ))
        → Client.files (elim o as (λ x. Client) [
          | none ↦ c
          | some old ↦ record c { file_exists = 1; overwrite = 1 }
        ])
          ≡ c.files
    same none = refl
    same (some old) = refl

-- One file of an MGET.
fetch_turn :
    (name : Text) (c : Client) (s : Server)
    → c.file_exists < 2
    → c.overwrite ≡ 1
    → (c' : Client) × (s' : Server) × (talk alone
          (get_from_server name 1 c)
          (transfer_to_client name s)
        ≡ some (c', s'))
      × (c'.files ≡ copy_bytes name (contents name s.files) c.files)
      × (s'.files ≡ s.files)
fetch_turn name c s h e = by_bytes (contents name s.files) refl
  where
    by_bytes :
        (bytes : List ℕ)
        → contents name s.files ≡ bytes
        → (c' : Client) × (s' : Server) × (talk alone
              (get_from_server name 1 c)
              (transfer_to_client name s)
            ≡ some (c', s'))
          × (c'.files ≡ copy_bytes name bytes c.files)
          × (s'.files ≡ s.files)
    by_bytes [] gone = (_, _, missing_steps alone name 1 c s gone, refl, refl)
    by_bytes (b ∷ bs) there = (
      _,
      _,
      fetch_steps alone name 1 b bs c s h there (chosen_1 name c e),
      ap (with_file name (b ∷ bs)) (chosen-files name c),
      refl,
    )

module _ (ls : Files → Text → List Text) where
  send_files-Copied :
      (names : List Text) (c : Client) (s : Server)
      → All (λ name. length name < 20) names
      → c.file_exists < 2
      → c.overwrite ≡ 1
      → (c' : Client) × (s' : Server) × (talk alone
            (get_many (length names) (λ name. 1) c)
            (send_files names s)
          ≡ some (c', s'))
        × (c'.files ≡ copied names s.files c.files)
        × (s'.files ≡ s.files)
  unfolding get_many send_files
  send_files-Copied [] c s short h e = (c, s, refl, refl, refl)
  send_files-Copied (name ∷ names) c s short h e =
      let s0 = record s { opened = true } in
      let (c1, s1, one, mine, theirs) = fetch_turn name c s0 h e in
      let next = λ (c2 : Client).
        get_many (length names) (λ n. 1) (record c2 { overwrite = 1; file_exists = 0 }) in
      let (c', s', run, all_mine, all_theirs) =
        send_files-Copied names (record c1 { overwrite = 1; file_exists = 0 }) s1 short.1
          (omega arith) refl in
      (
        c',
        s',
        ap (talk alone (get_many (suc (length names)) (λ n. 1) c)) (
              send_text-fits 20 name (transfer_to_client name s0 and_then send_files names) short.0)
            ∙ talk-and_then alone next (send_files names) (get_from_server name 1 c)
                (transfer_to_client name s0) c1 s1 one
            ∙ run,
        all_mine ∙ ap₂ (copied names) theirs mine,
        all_theirs ∙ theirs,
      )

  -- An MGET by a client whose `overwrite` is 1 and whose `fileExists` is 0 or 1, for an extension
  -- without white space of less than 95 bytes: where the names that the server lists to temp.txt
  -- have less than 20 bytes and the user always agrees, it comes to the end and copies. On the
  -- client each listed file that is not empty is what it is on the server with temp.txt written,
  -- and every file that is not listed is what it was. The server has no temp.txt after it, and its
  -- other files do not change.
  pub mget-Copied :
      (extension : Text) (c : Client) (s : Server)
      → IsWord extension
      → length extension < 95
      → s.running ≡ true
      → c.file_exists < 2
      → c.overwrite ≡ 1
      → All (λ name. length name < 20) (ls s.files extension)
      → (c' : Client) × (s' : Server) × (talk (round ls) (mget extension (λ name. 1) c) (done s)
          ≡ some (c', s'))
        × Copied
            (ls s.files extension)
            (with_listing (ls s.files extension) s.files)
            c.files
            c'.files
        × Cleared s.files s'.files
  unfolding mget serve_mget
  mget-Copied extension c s n short r h e fit =
      let names = ls s.files extension in
      let s0 = of_kind (codes "mget") extension s in
      let s1 = record s0 { files = with_listing names s.files } in
      let remove = λ (s2 : Server). record s2 { files = without_file temp_file s2.files } in
      let fetch = get_many (length names) (λ name. 1) c in
      let wait = receive_int λ num_files. get_many num_files (λ name. 1) c in
      let (c', s', run, mine, theirs) = send_files-Copied names c s1 fit h e in
      (
        c',
        remove s',
        ap (λ p. talk (round ls) p (done s))
              (send_text-fits 100 (codes "mget " ++ extension) wait
                (omega (arith, length-append (codes "mget ") extension)))
            ∙ hear_mget ls extension wait s n r
            ∙ ap (λ p. talk (round ls) p (send_files names s1 and_then (λ s2. done (remove s2))))
                (sym (and_then-done fetch))
            ∙ talk-and_then (round ls) (λ c1. done c1) (λ s2. done (remove s2)) fetch
                (send_files names s1) c' s' run,
        subst (Copied names s1.files c.files) (sym mine) (copied-Copied names s1.files c.files),
        subst (λ fs. Cleared s.files (without_file temp_file fs)) (sym theirs)
            (listing-Cleared names s.files),
      )
