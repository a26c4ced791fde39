-- ===== src/Ftp/Mput.antt =====
-- MPUT: the loop over the files that the client lists.
use network_os_simulation.Shared.{
  ◌≡◌, refl, ap, sym, ◌∙◌, ℕ, List, [], ◌∷◌, some, Bool, true, false, length, ◌==◌, if◌then◌else◌,
  ◌<◌, subst, inl, All,
}
use network_os_simulation.Shared.Text.{Text}
use network_os_simulation.Shared.Words.{IsWord}
use network_os_simulation.Ftp.{Program, done, talk, ◌and_then◌}
use network_os_simulation.Ftp.Talk.{talk-and_then_done}
use network_os_simulation.Ftp.Client.{
  Files, file, Client, put_many, mput, transfer_to_server, with_listing, without_file, temp_file,
}
use network_os_simulation.Ftp.Put.{decision, after_decided, transfer_to_server_lem}
use network_os_simulation.Ftp.Server.{Server, exists, round}
use network_os_simulation.Ftp.Copied.{
  Copied, Cleared, listing-Cleared, copied, copy_bytes, copied-Copied, contents-some,
}

-- The files that a listing names can go to the server.
abbrev pub Sendable : List Text → Files → Type 0
Sendable names files =
    All
      (λ name.
        IsWord name
        × (length name < 96)
        × ((b : ℕ) × (bs : List ℕ) × (file name files ≡ some (b ∷ bs))))
      names

either_1 : (t : Bool) (a : ℕ) → a ≡ 1 → (if t then a else 1) ≡ 1
either_1 true a e = e
either_1 false a e = refl

decision_1 : (name : Text) (c : Client) (s : Server) → c.overwrite ≡ 1 → decision name 1 c s ≡ 1
decision_1 name c s e = either_1 (exists name s.files == 0) c.overwrite e

module _ (ls : Files → Text → List Text) where
  -- One turn of the loop.
  put_turn :
      {A : Type 0} (f : Client → Program A) (name : Text) (b : ℕ) (bs : List ℕ) (c : Client)
      (s : Server)
      → IsWord name
      → length name < 96
      → s.running ≡ true
      → c.overwrite ≡ 1
      → file name c.files ≡ some (b ∷ bs)
      → talk (round ls) (transfer_to_server name 1 c and_then f) (done s)
        ≡ talk
            (round ls)
            (f (after_decided 1 name (b ∷ bs) c s).0)
            (done (after_decided 1 name (b ∷ bs) c s).1)
  put_turn f name b bs c s n short r e there =
      let go = decision_1 name c s e in
      talk-and_then_done (round ls) f (transfer_to_server name 1 c) (done s) _ _ (
        transfer_to_server_lem ls name 1 b bs c s n short r there (inl go)
        ∙ ap (λ o. some (after_decided o name (b ∷ bs) c s)) go)

  put_many-Copied :
      (names : List Text) (c : Client) (s : Server)
      → Sendable names c.files
      → s.running ≡ true
      → c.overwrite ≡ 1
      → (c' : Client) × (s' : Server) × (talk (round ls) (put_many names (λ name. 1) c) (done s)
          ≡ some (c', s'))
        × (c'.files ≡ c.files)
        × (s'.files ≡ copied names c.files s.files)
  unfolding put_many
  put_many-Copied [] c s ok r e = (c, s, refl, refl, refl)
  put_many-Copied (name ∷ names) c s ((n, short, (b, bs, there)), ok) r e =
      let after = after_decided 1 name (b ∷ bs) c s in
      let go_on = λ (c1 : Client). put_many names (λ n. 1) (record c1 { overwrite = 1 }) in
      let (c', s', run, mine, theirs) =
        put_many-Copied names (record after.0 { overwrite = 1 }) after.1 ok r refl in
      (
        c',
        s',
        put_turn go_on name b bs c s n short r e there ∙ run,
        mine,
        theirs
            ∙ ap (λ bytes. copied names c.files (copy_bytes name bytes s.files))
                (sym (contents-some name (b ∷ bs) c.files there)),
      )

  -- A client whose `overwrite` is 1, as at the start of the program, lists its files to temp.txt
  -- in an MPUT. Where every listed file then has a name without white space of less than 96 bytes
  -- and is not empty, and the user always agrees, the MPUT comes to the end and copies: on the
  -- server each listed file is what it is on the client with temp.txt written, and every other
  -- file is what it was. The client has no temp.txt after it, and its other files do not change.
  pub mput-Copied :
      (extension : Text) (c : Client) (s : Server)
      → Sendable (ls c.files extension) (with_listing (ls c.files extension) c.files)
      → s.running ≡ true
      → c.overwrite ≡ 1
      → (c' : Client) × (s' : Server) × (talk (round ls) (mput ls extension (λ name. 1) c) (done s)
          ≡ some (c', s'))
        × Cleared c.files c'.files
        × Copied
            (ls c.files extension)
            (with_listing (ls c.files extension) c.files)
            s.files
            s'.files
  unfolding mput
  mput-Copied extension c s ok r e =
      let names = ls c.files extension in
      let c0 = record c { files = with_listing names c.files } in
      let remove = λ (c1 : Client). record c1 { files = without_file temp_file c1.files } in
      let (c', s', run, mine, theirs) = put_many-Copied names c0 s ok r e in
      (
        remove c',
        s',
        talk-and_then_done (round ls) (λ c1. done (remove c1)) (put_many names (λ name. 1) c0)
            (done s) c' s' run,
        subst (λ fs. Cleared c.files (without_file temp_file fs)) (sym mine)
            (listing-Cleared names c.files),
        subst (Copied names c0.files s.files) (sym theirs) (copied-Copied names c0.files s.files),
      )
