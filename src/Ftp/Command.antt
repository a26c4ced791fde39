-- ===== src/Ftp/Command.antt =====
-- What the server does with the text of a command.
use network_os_simulation.Shared.{
  ◌≡◌, refl, ap, ◌∙◌, ℕ, List, [], ◌∷◌, ◌++◌, Option, none, true, length, if◌then◌else◌, ◌<◌, arith,
}
use network_os_simulation.Shared.Text.{Text, codes, text_discrete}
use network_os_simulation.Shared.Words.{
  is_space, IsWord, read_word-append, read_word-space, read_word_all,
}
use network_os_simulation.Ftp.{Program, done, send, line, receive, receive_text, talk, send_text}
use network_os_simulation.Ftp.Client.{Files, typed}
use network_os_simulation.Ftp.Server.{
  Server, next_word, serve_put, serve_get, serve_mget, dispatch, round,
}

-- A word behind a blank is read.
pub next_word-space : (old name : Text) → IsWord name → next_word old (32 ∷ name) ≡ (name, [])
unfolding is_space
next_word-space old name n = rw (next_word, read_word-space 32 name refl, read_word_all name n)

first_word :
    (old word rest : Text) → IsWord word → next_word old (word ++ 32 ∷ rest) ≡ (word, 32 ∷ rest)
unfolding is_space
first_word old word rest n = rw (next_word, read_word-append word (32 ∷ rest) n refl)

-- A text that fits is sent.
pub send_text-fits :
    {A : Type 0} (size : ℕ) (t : Text) (p : Program A)
    → length t < size
    → send_text size t p ≡ send (line t) p
send_text-fits size t p h = ground arith

-- A name that fits is taken.
pub typed-fits : {A : Type 0} (name : Text) (p : Program A) → length name < 20 → typed name p ≡ p
typed-fits name p h = ground arith

-- The server, when it has read a command.
abbrev pub named : Text → Text → Server → Server
named action name s = record s { action = action; filename = name }

abbrev pub of_kind : Text → Text → Server → Server
of_kind action extension s = record s { action = action; extension = extension }

module _ (ls : Files → Text → List Text) where
  hear :
      {A : Type 0} (t : Text) (p : Program A) (s : Server)
      → s.running ≡ true
      → talk (round ls) (send (line t) p) (done s)
        ≡ talk
            (round ls)
            p
            (dispatch ls (next_word s.action t).1 (record s { action = (next_word s.action t).0 }))
  unfolding round
  hear {A} t p s r =
      ap
        (λ b.
          elim (if b
            then receive_text (λ buffer.
              dispatch ls (next_word s.action buffer).1
                (record s { action = (next_word s.action buffer).0 }))
            else done s) [ receive k ↦ talk (round ls) p (k (line t)) | _ ↦ none ])
        r

  dispatch-put :
      (rest : Text) (s : Server)
      → dispatch ls rest (record s { action = codes "put" })
        ≡ serve_put (named (codes "put") (next_word s.filename rest).0 s)
  unfolding dispatch text_discrete
  dispatch-put rest s = refl

  dispatch-get :
      (rest : Text) (s : Server)
      → dispatch ls rest (record s { action = codes "get" })
        ≡ serve_get (named (codes "get") (next_word s.filename rest).0 s)
  unfolding dispatch text_discrete
  dispatch-get rest s = refl

  dispatch-mget :
      (rest : Text) (s : Server)
      → dispatch ls rest (record s { action = codes "mget" })
        ≡ serve_mget ls (of_kind (codes "mget") (next_word s.extension rest).0 s)
  unfolding dispatch text_discrete
  dispatch-mget rest s = refl

  -- What is left of the turn, once the action is read.
  abbrev heard : {A : Type 0} (p : Program A) (s : Server) → Text × Text → Option (A × Server)
  heard p s (action, rest) = talk (round ls) p (dispatch ls rest (record s { action = action }))

  hear_command :
      {A : Type 0} (action name : Text) (serve : Text → Program Server) (old : Text) (p : Program A)
      (s : Server)
      → IsWord action
      → IsWord name
      → s.running ≡ true
      → ((rest : Text)
          → dispatch ls rest (record s { action = action }) ≡ serve (next_word old rest).0)
      → talk (round ls) (send (line (action ++ 32 ∷ name)) p) (done s)
        ≡ talk (round ls) p (serve name)
  unfolding is_space
  hear_command action name serve old p s a n r reads =
      hear (action ++ 32 ∷ name) p s r
      ∙ ap (heard p s) (first_word s.action action name a)
      ∙ ap (talk (round ls) p) (reads (32 ∷ name))
      ∙ ap (λ w. talk (round ls) p (serve w.0)) (next_word-space old name n)

  pub hear_put :
      {A : Type 0} (name : Text) (p : Program A) (s : Server)
      → IsWord name
      → s.running ≡ true
      → talk (round ls) (send (line (codes "put " ++ name)) p) (done s)
        ≡ talk (round ls) p (serve_put (named (codes "put") name s))
  unfolding is_space
  hear_put name p s n r =
      hear_command (codes "put") name (λ w. serve_put (named (codes "put") w s)) s.filename p s
        (refl, (refl, (refl, tt))) n r (λ rest. dispatch-put rest s)

  pub hear_get :
      {A : Type 0} (name : Text) (p : Program A) (s : Server)
      → IsWord name
      → s.running ≡ true
      → talk (round ls) (send (line (codes "get " ++ name)) p) (done s)
        ≡ talk (round ls) p (serve_get (named (codes "get") name s))
  unfolding is_space
  hear_get name p s n r =
      hear_command (codes "get") name (λ w. serve_get (named (codes "get") w s)) s.filename p s
        (refl, (refl, (refl, tt))) n r (λ rest. dispatch-get rest s)

  pub hear_mget :
      {A : Type 0} (extension : Text) (p : Program A) (s : Server)
      → IsWord extension
      → s.running ≡ true
      → talk (round ls) (send (line (codes "mget " ++ extension)) p) (done s)
        ≡ talk (round ls) p (serve_mget ls (of_kind (codes "mget") extension s))
  unfolding is_space
  hear_mget extension p s n r =
      hear_command (codes "mget") extension (λ w. serve_mget ls (of_kind (codes "mget") w s))
        s.extension p s (refl, (refl, (refl, (refl, tt)))) n r (λ rest. dispatch-mget rest s)
