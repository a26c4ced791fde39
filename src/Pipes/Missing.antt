-- ===== src/Pipes/Missing.antt =====
-- A file of the first directory that cannot be read: the message about it is taken for files.
use network_os_simulation.Shared.{◌≡◌, refl, ◌∙◌, [], none, some, Bool, true, false, length, ◌>>=◌}
use network_os_simulation.Shared.Text.{Text, codes, text_discrete}
use network_os_simulation.Shared.Dict.{lookup}
use network_os_simulation.Shared.Words.{read_word}
use network_os_simulation.Pipes.{
  Directory, delivered, pack, unpack_message, child_1_sends, child_2, merge,
}
use network_os_simulation.Pipes.Unpack.{unpack-half, unpack-turn, write_word}
use network_os_simulation.Pipes.Merge.{child_2-written}

abbrev complaint : Text
complaint = codes "Error: failed to read d1/file1"

abbrev pub with_complaint : Directory → Directory
with_complaint d =
    write_word (codes "to") (codes "read") (write_word (codes "Error:") (codes "failed") d)

module _ (can_create : Text → Bool) where
  unpack_message-complaint :
      (d : Directory)
      → can_create (codes "Error:") ≡ true
      → can_create (codes "to") ≡ true
      → unpack_message can_create complaint d ≡ some (with_complaint d, none)
  unfolding unpack_message read_word
  unpack_message-complaint d can also =
      unpack-turn can_create (length complaint) complaint (codes "Error:")
        (codes " failed to read d1/file1") (codes "failed") (codes " to read d1/file1") d refl refl
        can
      ∙ unpack-turn can_create 29 (codes " to read d1/file1") (codes "to") (codes " read d1/file1")
          (codes "read") (codes " d1/file1") _ refl refl also
      ∙ unpack-half can_create 28 (codes " d1/file1") (codes "d1/file1") [] _ refl refl

  child_1_sends-missing :
      (d1 : Directory)
      → lookup text_discrete (codes "file1") d1 ≡ none
      → child_1_sends can_create d1 ≡ (complaint, false)
  unfolding child_1_sends
  child_1_sends-missing d1 gone = rw (pack, gone)

  missing_steps :
      (msg1 msg2 rmsg2 : Text) (d1 d2 new2 : Directory)
      → child_1_sends can_create d1 ≡ (msg1, false)
      → delivered msg1 ≡ some rmsg2
      → child_2 can_create rmsg2 d2 ≡ some (msg2, new2)
      → merge can_create d1 d2 ≡ some (d1, new2)
  unfolding merge
  missing_steps msg1 msg2 rmsg2 d1 d2 new2 sends there answers =
      rw (merge, sends, ◌>>=◌, there, answers)

  delivered-complaint : delivered complaint ≡ some complaint
  unfolding delivered
  delivered-complaint = refl

  -- Where file1 is not in the first directory, and files with the names "Error:" and "to" can be
  -- created, the message about the failure is taken for files: the second directory gets a file
  -- "Error:" with the text "failed" and a file "to" with the text "read", and the first stays as
  -- it was.
  pub merge-missing :
      (d1 d2 : Directory)
      → lookup text_discrete (codes "file1") d1 ≡ none
      → can_create (codes "Error:") ≡ true
      → can_create (codes "to") ≡ true
      → merge can_create d1 d2 ≡ some (d1, with_complaint d2)
  merge-missing d1 d2 gone can also =
      missing_steps complaint _ complaint d1 d2 (with_complaint d2) (child_1_sends-missing d1 gone)
        delivered-complaint
        (child_2-written can_create complaint d2 (with_complaint d2)
          (unpack_message-complaint d2 can also))
