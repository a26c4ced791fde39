-- ===== src/Tests/PipesTests.antt =====
-- The two directories of the program, and a message with a text of several words.
use network_os_simulation.Shared.{
  ◌≡◌, refl, List, [], ◌∷◌, ◌++◌, Option, none, some, Bool, true, arith,
}
use network_os_simulation.Shared.Text.{Text, codes, text_discrete}
use network_os_simulation.Shared.Dict.{lookup, insert}
use network_os_simulation.Shared.Words.{IsWord, is_space, read_word}
use network_os_simulation.Shared.Buffers.{NoNul}
use network_os_simulation.Pipes.{
  Directory, delivered, pack, unpack, merge, unpack_message, start_1, start_2,
}
use network_os_simulation.Pipes.Unpack.{unpack-ends}
use network_os_simulation.Pipes.Pack.{Entry, Holds, Plain, text_of, write_all}
use network_os_simulation.Pipes.Merge.{firsts, seconds, unpack_message-pack, merge-Holds}
use network_os_simulation.Pipes.Missing.{with_complaint, merge-missing}

abbrev anything : Text → Bool
anything name = true

merge_run : merge anything start_1 start_2 ≡ some (start_1 ++ start_2, start_2 ++ start_1)
unfolding merge read_word start_1 start_2 lookup insert text_discrete
merge_run = refl

-- Of a text of several words the first is kept; the others become a file of their own.
two_words_run :
    unpack_message anything (codes "a hello big world\n\n") []
    ≡ some ((codes "a", codes "hello\n") ∷ (codes "big", codes "world\n") ∷ [], none)
unfolding unpack_message read_word insert text_discrete
two_words_run = refl

abbrev one_word : List Entry
one_word = (codes "f", codes "x") ∷ []

one_word-Plain : Plain anything one_word
unfolding is_space
one_word-Plain = (((refl, tt), (omega arith, tt), (refl, tt), (omega arith, tt), refl), tt)

unpack-ends_example :
    (r : Directory × Option Text) × (unpack anything 40 (codes "a hello big world\n\n") [] ≡ some r)
unpack-ends_example = unpack-ends anything 40 (codes "a hello big world\n\n") [] (omega arith)

unpack_message-pack_example :
    (delivered
        (pack (codes "Error ") (codes "d") (codes "f" ∷ []) ((codes "f", codes "x\n") ∷ []) []).0
      ≡ some (text_of one_word))
    × (unpack_message anything (text_of one_word) [] ≡ some (write_all one_word [], none))
unfolding lookup text_discrete
unpack_message-pack_example =
    unpack_message-pack anything (codes "Error ") (codes "d") one_word
      ((codes "f", codes "x\n") ∷ []) [] (refl, tt) one_word-Plain (omega arith)

IsWord-entry :
    (name word : Text)
    → IsWord name
    → NoNul name
    → IsWord word
    → NoNul word
    → IsWord name × NoNul name × IsWord word × NoNul word × (anything name ≡ true)
IsWord-entry name word a b c d = (a, b, c, d, refl)

firsts-Plain : Plain anything (firsts (codes "jaya") (codes "Raja"))
unfolding is_space
firsts-Plain = (
  IsWord-entry (codes "file1") (codes "jaya") (refl, (refl, (refl, (refl, (refl, tt)))))
      (omega arith, (omega arith, (omega arith, (omega arith, (omega arith, tt)))))
      (refl, (refl, (refl, (refl, tt))))
      (omega arith, (omega arith, (omega arith, (omega arith, tt)))),
  (
    IsWord-entry (codes "file2") (codes "Raja") (refl, (refl, (refl, (refl, (refl, tt)))))
        (omega arith, (omega arith, (omega arith, (omega arith, (omega arith, tt)))))
        (refl, (refl, (refl, (refl, tt))))
        (omega arith, (omega arith, (omega arith, (omega arith, tt)))),
    tt,
  ),
)

seconds-Plain : Plain anything (seconds (codes "Chen") (codes "Souh"))
unfolding is_space
seconds-Plain = (
  IsWord-entry (codes "file3") (codes "Chen") (refl, (refl, (refl, (refl, (refl, tt)))))
      (omega arith, (omega arith, (omega arith, (omega arith, (omega arith, tt)))))
      (refl, (refl, (refl, (refl, tt))))
      (omega arith, (omega arith, (omega arith, (omega arith, tt)))),
  (
    IsWord-entry (codes "file4") (codes "Souh") (refl, (refl, (refl, (refl, (refl, tt)))))
        (omega arith, (omega arith, (omega arith, (omega arith, (omega arith, tt)))))
        (refl, (refl, (refl, (refl, tt))))
        (omega arith, (omega arith, (omega arith, (omega arith, tt)))),
    tt,
  ),
)

abbrev left : Directory
left = (codes "file1", codes "jaya\n") ∷ (codes "file2", codes "Raja\n") ∷ []

abbrev right : Directory
right = (codes "file3", codes "Chen\n") ∷ (codes "file4", codes "Souh\n") ∷ []

merge-Holds_example :
    (new1 : Directory) × (new2 : Directory) × (merge anything left right ≡ some (new1, new2))
    × Holds new1 (firsts (codes "jaya") (codes "Raja") ++ seconds (codes "Chen") (codes "Souh"))
    × Holds new2 (firsts (codes "jaya") (codes "Raja") ++ seconds (codes "Chen") (codes "Souh"))
unfolding lookup text_discrete
merge-Holds_example =
    merge-Holds anything (codes "jaya") (codes "Raja") (codes "Chen") (codes "Souh") left right
      (refl, (refl, tt)) (refl, (refl, tt)) firsts-Plain seconds-Plain (omega arith) (omega arith)

merge-missing_example : merge anything [] right ≡ some ([], with_complaint right)
unfolding lookup
merge-missing_example = merge-missing anything [] right refl refl refl
