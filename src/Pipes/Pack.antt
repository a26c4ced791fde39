-- ===== src/Pipes/Pack.antt =====
-- What is packed is unpacked, where every text is one word on a line.
use network_os_simulation.Shared.{
  ◌≡◌, refl, ap, sym, ◌∙◌, ℕ, zero, suc, List, [], ◌∷◌, ◌++◌, map, none, some, Bool, true, length,
  ◌<◌, arith, All, All-append, append_assoc, append_nil,
}
use network_os_simulation.Shared.Text.{Text, codes, text_discrete}
use network_os_simulation.Shared.Dict.{lookup}
use network_os_simulation.Shared.Buffers.{c_string, NoNul}
use network_os_simulation.Shared.Words.{
  is_space, read_word, IsWord, read_word-append, read_word-space, read_word-nil,
}
use network_os_simulation.Pipes.{Directory, delivered, pack, unpack}
use network_os_simulation.Pipes.Unpack.{unpack-end, unpack-turn, write_word}

-- A file of one word: its name and the word.
abbrev pub Entry : Type 0
Entry = Text × Text

abbrev pub Holds : Directory → List Entry → Type 0
Holds d es = All (λ e. lookup text_discrete e.0 d ≡ some (e.1 ++ codes "\n")) es

abbrev pub Plain : (Text → Bool) → List Entry → Type 0
Plain can_create es =
    All (λ e. IsWord e.0 × NoNul e.0 × IsWord e.1 × NoNul e.1 × (can_create e.0 ≡ true)) es

abbrev pub text_of : List Entry → Text
text_of [] = []
text_of ((file, word) ∷ es) = file ++ (32 ∷ (word ++ (10 ∷ 10 ∷ text_of es)))

abbrev pub write_all : List Entry → Directory → Directory
write_all [] d = d
write_all ((file, word) ∷ es) d = write_all es (write_word file word d)

regroup :
    (msg file word rest : Text)
    → (msg ++ (file ++ codes " " ++ (word ++ codes "\n") ++ codes "\n")) ++ rest
      ≡ msg ++ (file ++ (32 ∷ (word ++ (10 ∷ 10 ∷ rest))))
regroup msg file word rest = simp append_assoc

pub pack-Holds :
    (error path : Text) (es : List Entry) (d : Directory) (msg : Text)
    → Holds d es
    → pack error path (map (λ e. e.0) es) d msg ≡ (msg ++ text_of es, true)
unfolding pack
pack-Holds error path [] d msg h = ap (λ t. (t, true)) (sym (append_nil msg))
pack-Holds error path ((file, word) ∷ es) d msg h =
    rw (pack, h.0)
      (pack-Holds error path es d (msg ++ (file ++ codes " " ++ (word ++ codes "\n") ++ codes "\n"))
        h.1)
    ∙ ap (λ t. (t, true)) (regroup msg file word (text_of es))

module _ (can_create : Text → Bool) where
  pub unpack-text_of :
      (fuel : ℕ) (es : List Entry) (s : Text) (d : Directory)
      → Plain can_create es
      → length es < fuel
      → read_word s ≡ read_word (text_of es)
      → unpack can_create fuel s d ≡ some (write_all es d, none)
  unfolding is_space
  unpack-text_of zero es s d p h e = elim h [ ]
  unpack-text_of (suc fuel) [] s d p h e = unpack-end can_create fuel s d (e ∙ read_word-nil)
  unpack-text_of (suc fuel) ((file, word) ∷ es) s d ((f, _, w, _, can), p) h e =
      let rest = 10 ∷ 10 ∷ text_of es in
      unpack-turn can_create fuel s file (32 ∷ (word ++ rest)) word rest d
        (e ∙ read_word-append file (32 ∷ (word ++ rest)) f refl)
        (read_word-space 32 (word ++ rest) refl ∙ read_word-append word rest w refl) can
      ∙ unpack-text_of fuel es rest (write_word file word d) p (omega arith)
          (read_word-space 10 (10 ∷ text_of es) refl ∙ read_word-space 10 (text_of es) refl)

  pub text_of-NoNul : (es : List Entry) → Plain can_create es → NoNul (text_of es)
  text_of-NoNul [] p = tt
  text_of-NoNul ((file, word) ∷ es) ((_, f, _, w, _), p) =
      All-append _ file (32 ∷ (word ++ (10 ∷ 10 ∷ text_of es))) f (
        omega arith,
        All-append _ word (10 ∷ 10 ∷ text_of es) w (omega arith, (omega arith, text_of-NoNul es p)),
      )

pub delivered-NoNul : (s : Text) → NoNul s → length s < 4096 → delivered s ≡ some (c_string s)
unfolding delivered
delivered-NoNul s n h = ground arith
