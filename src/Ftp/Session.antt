-- ===== src/Ftp/Session.antt =====
-- Commands that follow one another on one connection.
use network_os_simulation.Shared.{
  ◌≡◌, ◌≢◌, refl, ap, ◌∙◌, ℕ, List, ◌∷◌, none, some, true, length, ◌==◌, if◌then◌else◌, ◌<◌, inl,
  inr,
}
use network_os_simulation.Shared.Tests.{not_equal}
use network_os_simulation.Shared.Text.{Text, codes}
use network_os_simulation.Shared.Words.{IsWord}
use network_os_simulation.Ftp.{done, talk, ◌and_then◌}
use network_os_simulation.Ftp.Talk.{talk-and_then_done}
use network_os_simulation.Ftp.Client.{report, transferred, put, get, Files, file, Client}
use network_os_simulation.Ftp.Put.{decision, after_decided, put-after, kept}
use network_os_simulation.Ftp.Get.{get-after}
use network_os_simulation.Ftp.Fetch.{chosen}
use network_os_simulation.Ftp.Server.{Server, exists, round}
use network_os_simulation.Ftp.Copied.{contents-some, file-with_file_same}

decision-there :
    (name : Text) (answer : ℕ) (c : Client) (s : Server) (old : List ℕ)
    → file name s.files ≡ some old
    → decision name answer c s ≡ answer
decision-there name answer c s old e =
    ap
      (λ o. if (elim o as (λ x. ℕ) [ none ↦ 0 | some bytes ↦ 1 ]) == 0 then c.overwrite else answer)
      e

decision-new :
    (name : Text) (answer : ℕ) (c : Client) (s : Server)
    → file name s.files ≡ none
    → decision name answer c s ≡ c.overwrite
decision-new name answer c s e =
    ap
      (λ o. if (elim o as (λ x. ℕ) [ none ↦ 0 | some bytes ↦ 1 ]) == 0 then c.overwrite else answer)
      e

-- What a refused PUT leaves.
abbrev refused : ℕ → Text → Client → Server → Client × Server
refused overwrite name c s = (
  record c { file_exists = exists name s.files; overwrite = overwrite },
  record s { action = codes "put"; filename = name; overwrite = overwrite },
)

after_decided-refused :
    (overwrite : ℕ) (name : Text) (bytes : List ℕ) (c : Client) (s : Server)
    → overwrite ≢ 1
    → after_decided overwrite name bytes c s ≡ refused overwrite name c s
after_decided-refused overwrite name bytes c s e =
    ap
      (λ t.
        if t
        then (
          report (transferred name) (refused overwrite name c s).0,
          kept name bytes (refused overwrite name c s).1,
        )
        else refused overwrite name c s)
      (not_equal overwrite 1 e)

module _ (ls : Files → Text → List Text) where
  put-refused :
      (name : Text) (answer b : ℕ) (bs : List ℕ) (c : Client) (s : Server) (o : ℕ)
      → IsWord name
      → length name < 20
      → s.running ≡ true
      → file name c.files ≡ some (b ∷ bs)
      → decision name answer c s ≡ o
      → o ≢ 1
      → s.opened ≡ true
      → talk (round ls) (put name answer c) (done s) ≡ some (refused o name c s)
  put-refused name answer b bs c s o n short r there go e opened =
      put-after ls name answer b bs c s n short r there (inr opened)
      ∙ ap (λ d. some (after_decided d name (b ∷ bs) c s)) go
      ∙ ap some (after_decided-refused o name (b ∷ bs) c s e)

  -- After a PUT that the user refused to overwrite, a PUT of a file that the server does not have
  -- comes to the end without storing it, whatever the user would answer, and nothing is reported.
  pub put-put_stale :
      (name other : Text) (answer again b d : ℕ) (bs ds old : List ℕ) (c : Client) (s : Server)
      → IsWord name
      → length name < 20
      → IsWord other
      → length other < 20
      → s.running ≡ true
      → s.opened ≡ true
      → file name c.files ≡ some (b ∷ bs)
      → file other c.files ≡ some (d ∷ ds)
      → file name s.files ≡ some old
      → file other s.files ≡ none
      → answer ≢ 1
      → (c' : Client) × (s' : Server) × (talk
            (round ls)
            (put name answer c and_then put other again)
            (done s)
          ≡ some (c', s'))
        × (s'.files ≡ s.files)
        × (c'.reports ≡ c.reports)
  put-put_stale name other answer again b d bs ds old c s n short m brief r opened mine also theirs
        new e =
      let (c1, s1) = refused answer name c s in
      (
        _,
        _,
        talk-and_then_done (round ls) (put other again) (put name answer c) (done s) c1 s1 (
              put-refused name answer b bs c s answer n short r mine
                (decision-there name answer c s old theirs) e opened)
            ∙ put-refused other again d ds c1 s1 answer m brief r also
                (decision-new other again c1 s1 new) e opened,
        refl,
        refl,
      )

  -- After a PUT that is decided with 1, a GET of the name, which has less than 20 bytes and no
  -- white space, by a client with any files, where `overwrite` is then 1, brings the bytes that
  -- were put, and leaves the server's files alone.
  pub get-put :
      (name : Text) (answer again b : ℕ) (bs : List ℕ) (c other : Client) (s : Server)
      → IsWord name
      → length name < 20
      → s.running ≡ true
      → file name c.files ≡ some (b ∷ bs)
      → decision name answer c s ≡ 1
      → other.file_exists < 2
      → (chosen name again other).overwrite ≡ 1
      → (c1 : Client) × (s1 : Server) × (c2 : Client) × (s2 : Server) × (talk
            (round ls)
            (put name answer c)
            (done s)
          ≡ some (c1, s1))
        × (talk (round ls) (get name again other) (done s1) ≡ some (c2, s2))
        × (file name c2.files ≡ some (b ∷ bs))
        × (s2.files ≡ s1.files)
  get-put name answer again b bs c other s n short r there go h e =
      let (c1, s1) = after_decided 1 name (b ∷ bs) c s in
      (
        c1,
        s1,
        _,
        _,
        put-after ls name answer b bs c s n short r there (inl go)
            ∙ ap (λ d. some (after_decided d name (b ∷ bs) c s)) go,
        get-after ls name again b bs other s1 n short r h
            (contents-some name (b ∷ bs) s1.files (file-with_file_same name (b ∷ bs) s.files)) e,
        file-with_file_same name (b ∷ bs) (chosen name again other).files,
        refl,
      )
