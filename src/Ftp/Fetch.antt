-- ===== src/Ftp/Fetch.antt =====
-- GET and MGET: the exchange about one file, from the point where its size is sent.
use network_os_simulation.Shared.{
  ◌≡◌, ◌≢◌, refl, ap, sym, ◌∙◌, ℕ, List, [], ◌∷◌, Option, none, some, length, ◌==◌, if◌then◌else◌,
  ◌<◌, arith, subst, ◌⊎◌, inl, inr, ℕ_discrete, Option-cases,
}
use network_os_simulation.Shared.Tests.{suc_not_zero, not_equal}
use network_os_simulation.Shared.Text.{Text}
use network_os_simulation.Ftp.{Program, done, send, int, talk, receive_int, send_block, ◌and_then◌}
use network_os_simulation.Ftp.Talk.{talk-receive_block}
use network_os_simulation.Ftp.Client.{
  Files, file, with_file, Client, received, missing, report, save, accept, get_from_server,
}
use network_os_simulation.Ftp.Server.{Server, transfer_to_client}

abbrev pub contents : Text → Files → List ℕ
contents name files = elim (file name files) [ none ↦ [] | some bytes ↦ bytes ]

-- The user is asked where the client has the file already.
abbrev pub chosen : Text → ℕ → Client → Client
chosen name answer c = elim (file name c.files) [
  | none ↦ c
  | some old ↦ record c { file_exists = 1; overwrite = answer }
]

abbrev pub fetched : Text → List ℕ → Client → Client
fetched name bytes c = report (received name) (record c { files = with_file name bytes c.files })

-- The file is there only where `file_exists` says so.
abbrev pub Knows : Text → Client → Type 0
Knows name c = (c.file_exists ≡ 1) ⊎ ((c.file_exists ≡ 0) × (file name c.files ≡ none))

save_new :
    (name : Text) (bytes : List ℕ) (c : Client)
    → file name c.files ≡ none
    → save name bytes (record c { file_exists = 0 })
      ≡ done (record c { files = with_file name bytes c.files; file_exists = 0 })
unfolding save
save_new name bytes c gone = rw (save, gone)

save_known :
    (name : Text) (bytes : List ℕ) (c : Client)
    → Knows name c
    → save name bytes c ≡ done (record c { files = with_file name bytes c.files })
unfolding save
save_known name bytes c (inl one) = rw one
save_known name bytes c (inr (zeroed, gone)) =
    subst
      (λ n.
        save name bytes (record c { file_exists = n })
        ≡ done (record c { files = with_file name bytes c.files; file_exists = n }))
      (sym zeroed) (save_new name bytes c gone)

chosen-Knows :
    (name : Text) (answer : ℕ) (c : Client) → c.file_exists < 2 → Knows name (chosen name answer c)
chosen-Knows name answer c h = elim (Option-cases (file name c.files)) [
  | inl gone ↦
      subst (Knows name) (sym (choice gone)) (elim (ℕ_discrete c.file_exists 1) [
        | yes one ↦ inl one
        | no other ↦ inr (omega arith, gone)
      ])
  | inr (old, there) ↦ subst (Knows name) (sym (choice there)) (inl refl)
]
  where
    choice :
        {o : Option (List ℕ)}
        → file name c.files ≡ o
        → chosen name answer c
          ≡ elim o [ none ↦ c | some old ↦ record c { file_exists = 1; overwrite = answer } ]
    choice e =
        ap (λ o. elim o [ none ↦ c | some old ↦ record c { file_exists = 1; overwrite = answer } ])
          e

module _ (round : Server → Program Server) (name : Text) where
  -- The server's part, once it has told the size.
  abbrev answered : List ℕ → Server → Program Server
  answered bytes s = receive_int λ overwrite.
      let s1 = record s { overwrite = overwrite } in
      if overwrite == 1 then send_block bytes (done s1) else done s1

  accept_1 :
      (b : ℕ) (bs : List ℕ) (c : Client) (s : Server)
      → Knows name c
      → talk round
          (accept name (length (b ∷ bs)) (record c { overwrite = 1 }))
          (answered (b ∷ bs) s)
        ≡ some (fetched name (b ∷ bs) (record c { overwrite = 1 }), record s { overwrite = 1 })
  unfolding accept
  accept_1 b bs c s k =
      let c1 = record c { overwrite = 1 } in
      let tell = λ (c2 : Client). done (report (received name) c2) in
      let s1 = record s { overwrite = 1 } in
      talk-receive_block round b bs (λ bytes. save name bytes c1 and_then tell) (done s1)
      ∙ ap (λ p. talk round (p and_then tell) (done s1)) (save_known name (b ∷ bs) c1 k)

  accept_steps :
      (b : ℕ) (bs : List ℕ) (c : Client) (s : Server)
      → Knows name c
      → c.overwrite ≡ 1
      → talk round (accept name (length (b ∷ bs)) c) (answered (b ∷ bs) s)
        ≡ some (fetched name (b ∷ bs) c, record s { overwrite = 1 })
  accept_steps b bs c s k e =
      subst
        (λ o.
          talk round (accept name (length (b ∷ bs)) (record c { overwrite = o }))
            (answered (b ∷ bs) s)
          ≡ some (fetched name (b ∷ bs) (record c { overwrite = o }), record s { overwrite = 1 }))
        (sym e) (accept_1 b bs c s k)

  -- A refused file: the client closes a descriptor that was never assigned.
  refuse_steps :
      (size : ℕ) (c : Client) (q : ℕ → Program Server)
      → c.overwrite ≢ 1
      → talk round (accept name size c) (receive_int q) ≡ none
  unfolding accept
  refuse_steps size c q e = rw (not_equal c.overwrite 1 e)

  abbrev sized : List ℕ → Server → Program Server
  sized bytes s = send (int (length bytes)) (if length bytes == 0 then done s else answered bytes s)

  sends :
      (bytes : List ℕ) (s : Server)
      → contents name s.files ≡ bytes
      → transfer_to_client name s ≡ sized bytes s
  unfolding transfer_to_client
  sends bytes s e = ap (λ bs. sized bs s) e

  size_steps :
      (answer b : ℕ) (bs : List ℕ) (c : Client) (s : Server)
      → talk round (get_from_server name answer c) (sized (b ∷ bs) s)
        ≡ talk round (accept name (length (b ∷ bs)) (chosen name answer c)) (answered (b ∷ bs) s)
  unfolding get_from_server
  size_steps answer b bs c s =
      ap
        (λ t.
          talk round
            (if t
              then done (report (missing name) c)
              else accept name (length (b ∷ bs)) (chosen name answer c))
            (if t then done s else answered (b ∷ bs) s))
        (suc_not_zero (length bs))

  pub fetch_steps :
      (answer b : ℕ) (bs : List ℕ) (c : Client) (s : Server)
      → c.file_exists < 2
      → contents name s.files ≡ b ∷ bs
      → (chosen name answer c).overwrite ≡ 1
      → talk round (get_from_server name answer c) (transfer_to_client name s)
        ≡ some (fetched name (b ∷ bs) (chosen name answer c), record s { overwrite = 1 })
  fetch_steps answer b bs c s h there e =
      ap (talk round (get_from_server name answer c)) (sends (b ∷ bs) s there)
      ∙ size_steps answer b bs c s
      ∙ accept_steps b bs (chosen name answer c) s (chosen-Knows name answer c h) e

  pub reject_steps :
      (answer b : ℕ) (bs : List ℕ) (c : Client) (s : Server)
      → contents name s.files ≡ b ∷ bs
      → (chosen name answer c).overwrite ≢ 1
      → talk round (get_from_server name answer c) (transfer_to_client name s) ≡ none
  reject_steps answer b bs c s there e =
      ap (talk round (get_from_server name answer c)) (sends (b ∷ bs) s there)
      ∙ size_steps answer b bs c s
      ∙ refuse_steps (length (b ∷ bs)) (chosen name answer c)
          (λ overwrite.
            let s1 = record s { overwrite = overwrite } in
            if overwrite == 1 then send_block (b ∷ bs) (done s1) else done s1)
          e

  pub missing_steps :
      (answer : ℕ) (c : Client) (s : Server)
      → contents name s.files ≡ []
      → talk round (get_from_server name answer c) (transfer_to_client name s)
        ≡ some (report (missing name) c, s)
  unfolding get_from_server
  missing_steps answer c s gone = ap (talk round (get_from_server name answer c)) (sends [] s gone)
