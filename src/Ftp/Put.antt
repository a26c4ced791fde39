-- ===== src/Ftp/Put.antt =====
-- PUT: one file goes from the client to the server.
use network_os_simulation.Shared.{
  ◌≡◌, refl, ap, sym, ◌∙◌, ℕ, List, ◌∷◌, ◌++◌, Option, none, some, true, length, ◌==◌,
  if◌then◌else◌, ◌<◌, arith, length-append, ◌⊎◌, inl, inr, subst, ℕ_discrete,
}
use network_os_simulation.Shared.Tests.{suc_not_zero, not_equal}
use network_os_simulation.Shared.Text.{Text, codes}
use network_os_simulation.Shared.Words.{IsWord}
use network_os_simulation.Ftp.{Program, done, send, int, talk, receive_int, send_block}
use network_os_simulation.Ftp.Talk.{talk-send_block}
use network_os_simulation.Ftp.Command.{hear_put, named, typed-fits, send_text-fits}
use network_os_simulation.Ftp.Client.{
  Files, file, with_file, Client, transferred, failed, no_file, report, upload, offer,
  transfer_to_server, put,
}
use network_os_simulation.Ftp.Server.{Server, exists, store, serve_put, round}

-- The answer that goes to the server: the user is asked only where the file is there already.
abbrev pub decision : Text → ℕ → Client → Server → ℕ
decision name answer c s = if exists name s.files == 0 then c.overwrite else answer

-- The client knows whether the server has the file.
abbrev pub asked : Text → ℕ → Client → Server → Client
asked name answer c s = record c {
  file_exists = exists name s.files;
  overwrite = decision name answer c s;
}

abbrev pub kept : Text → List ℕ → Server → Server
kept name bytes s = record s { files = with_file name bytes s.files; opened = true }

module _ (round : Server → Program Server) (name : Text) where
  offer_steps :
      (answer : ℕ) (c : Client) (s : Server)
      → talk round
          (offer name answer c (exists name s.files))
          (receive_int λ overwrite. store name (record s { overwrite = overwrite }))
        ≡ talk round
            (if decision name answer c s == 1
              then upload name (asked name answer c s)
              else done (asked name answer c s))
            (store name (record s { overwrite = decision name answer c s }))
  unfolding offer
  offer_steps answer c s = refl

  upload_opened :
      (bytes : List ℕ) (c : Client)
      → file name c.files ≡ some bytes
      → upload name c
        ≡ send (int (length bytes)) (
            send_block bytes (
              receive_int
                λ status. done (report (if status == 0 then failed name else transferred name) c)))
  unfolding upload
  upload_opened bytes c e = rw (upload, e)

  upload_steps :
      (b : ℕ) (bs : List ℕ) (c : Client) (s : Server)
      → file name c.files ≡ some (b ∷ bs)
      → talk round (upload name c) (store name (record s { overwrite = 1 }))
        ≡ some (report (transferred name) c, kept name (b ∷ bs) (record s { overwrite = 1 }))
  unfolding store
  upload_steps b bs c s e =
      ap (λ p. talk round p (store name (record s { overwrite = 1 }))) (upload_opened (b ∷ bs) c e)
      ∙ talk-send_block round b bs
          (receive_int
            λ status. done (report (if status == 0 then failed name else transferred name) c))
          (λ bytes. send (int (length bytes)) (done (kept name bytes (record s { overwrite = 1 }))))
      ∙ ap
          (λ t. some (
            report (if t then failed name else transferred name) c,
            kept name (b ∷ bs) (record s { overwrite = 1 }),
          ))
          (suc_not_zero (length bs))

  -- What the decision leads to, from the point where both sides know it.
  after_decision :
      (overwrite b : ℕ) (bs : List ℕ) (c : Client) (s : Server)
      → file name c.files ≡ some (b ∷ bs)
      → (overwrite ≡ 1) ⊎ (s.opened ≡ true)
      → talk round
          (if overwrite == 1 then upload name c else done c)
          (store name (record s { overwrite = overwrite }))
        ≡ some (
            if overwrite == 1
            then (
              report (transferred name) c,
              kept name (b ∷ bs) (record s { overwrite = overwrite }),
            )
            else (c, record s { overwrite = overwrite }))
  unfolding store
  after_decision overwrite b bs c s e h = elim (ℕ_discrete overwrite 1) [
    | yes same ↦
        subst
          (λ o.
            talk round (if o == 1 then upload name c else done c)
              (store name (record s { overwrite = o }))
            ≡ some (
                if o == 1
                then (report (transferred name) c, kept name (b ∷ bs) (record s { overwrite = o }))
                else (c, record s { overwrite = o })))
          (sym same) (upload_steps b bs c s e)
    | no other ↦ elim h [
      | inl same ↦ elim (other same) [ ]
      | inr opened ↦ rw (not_equal overwrite 1 other, opened)
    ]
  ]

-- What a PUT with a decision leaves on both sides.
abbrev pub after_decided : ℕ → Text → List ℕ → Client → Server → Client × Server
after_decided overwrite name bytes c s =
    let c1 = record c { file_exists = exists name s.files; overwrite = overwrite } in
    let s1 = record s { action = codes "put"; filename = name; overwrite = overwrite } in
    if overwrite == 1 then (report (transferred name) c1, kept name bytes s1) else (c1, s1)

abbrev pub after_put : Text → ℕ → List ℕ → Client → Server → Client × Server
after_put name answer bytes c s = after_decided (decision name answer c s) name bytes c s

module _ (ls : Files → Text → List Text) where
  pub transfer_to_server_lem :
      (name : Text) (answer b : ℕ) (bs : List ℕ) (c : Client) (s : Server)
      → IsWord name
      → length name < 96
      → s.running ≡ true
      → file name c.files ≡ some (b ∷ bs)
      → (decision name answer c s ≡ 1) ⊎ (s.opened ≡ true)
      → talk (round ls) (transfer_to_server name answer c) (done s)
        ≡ some (after_put name answer (b ∷ bs) c s)
  unfolding transfer_to_server serve_put
  transfer_to_server_lem name answer b bs c s n short r e h =
      let wait = receive_int (offer name answer c) in
      ap (λ p. talk (round ls) p (done s))
        (send_text-fits 100 (codes "put " ++ name) wait
          (omega (arith, length-append (codes "put ") name)))
      ∙ hear_put ls name wait s n r
      ∙ offer_steps (round ls) name answer c (named (codes "put") name s)
      ∙ after_decision (round ls) name (decision name answer c s) b bs (asked name answer c s)
          (named (codes "put") name s) e h

  -- A PUT of a file that is not empty, for a name without white space of less than 20 bytes: both
  -- sides come to the end, the server has the file with its bytes if the decision is 1, and its
  -- files are unchanged if not. The decision is the client's remembered `overwrite` where the
  -- server lacks the file, and else the user's answer; both sides keep it. For another decision
  -- than 1 the server must have opened a file before.
  pub put-after :
      (name : Text) (answer b : ℕ) (bs : List ℕ) (c : Client) (s : Server)
      → IsWord name
      → length name < 20
      → s.running ≡ true
      → file name c.files ≡ some (b ∷ bs)
      → (decision name answer c s ≡ 1) ⊎ (s.opened ≡ true)
      → talk (round ls) (put name answer c) (done s) ≡ some (after_put name answer (b ∷ bs) c s)
  unfolding put
  put-after name answer b bs c s n short r e h =
      let chosen = λ (o : Option (List ℕ)). elim o as (λ x. Program Client) [
        | none ↦ done (report (no_file name) c)
        | some bytes ↦ transfer_to_server name answer c
      ] in
      ap (λ p. talk (round ls) p (done s)) (typed-fits name (chosen (file name c.files)) short)
      ∙ ap (λ o. talk (round ls) (chosen o) (done s)) e
      ∙ transfer_to_server_lem name answer b bs c s n (omega arith) r e h
