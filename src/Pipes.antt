-- ===== src/Pipes.antt =====
-- "Inter Process Communication/pipes.cpp": two children send one another the files of their
-- directories over two pipes. A message of at most 4096 bytes is read whole; of a longer one `read`
-- may give a part, and the model says nothing of it. Which files can be created is a parameter.
pub mod Unpack
pub mod Pack
pub mod Merge
pub mod Missing
use network_os_simulation.Shared.{
  ℕ, zero, suc, List, [], ◌∷◌, ◌++◌, Option, none, some, Bool, true, false, ltb, ◌==◌,
  if◌then◌else◌, length, ◌>>=◌,
}
use network_os_simulation.Shared.Text.{Text, codes, text_discrete}
use network_os_simulation.Shared.Dict.{lookup, insert}
use network_os_simulation.Shared.Buffers.{c_string}
use network_os_simulation.Shared.Words.{read_word}

-- The text of each file by its name.
abbrev pub Directory : Type 0
Directory = List (Text × Text)

-- What the other side gets of a message.
unfoldable pub delivered : Text → Option Text
unfolding c_string
delivered msg = if ltb (length msg) 4096 then some (c_string msg) else none

-- The message about the files, and whether all were read. `error` is followed by the path of the
-- file that was not.
unfoldable pub pack : Text → Text → List Text → Directory → Text → Text × Bool
pack error path [] d msg = (msg, true)
pack error path (file ∷ files) d msg = elim (lookup text_discrete file d) [
  | none ↦ (error ++ path ++ codes "/" ++ file, false)
  | some contents ↦ pack error path files d (msg ++ (file ++ codes " " ++ contents ++ codes "\n"))
]

module _ (can_create : Text → Bool) where
  -- The loop over the words of a message: the directory, and the file that was not created.
  unfoldable pub unpack : ℕ → Text → Directory → Option (Directory × Option Text)
  unpack zero s d = none
  unpack (suc fuel) s d = elim (read_word s) [
    | none ↦ some (d, none)
    | some (file, r) ↦ elim (read_word r) [
      | none ↦ some (d, none)
      | some (contents, t) ↦ elim (can_create file) [
        | true ↦ unpack fuel t (insert text_discrete file (contents ++ codes "\n") d)
        | false ↦ some (d, some file)
      ]
    ]
  ]

  -- A turn takes two words of the message.
  unfoldable pub unpack_message : Text → Directory → Option (Directory × Option Text)
  unfolding unpack
  unpack_message s d = unpack (suc (length s)) s d

  unfoldable pub child_1_sends : Directory → Text × Bool
  unfolding pack
  child_1_sends d1 =
      pack (codes "Error: failed to read ") (codes "d1") (codes "file1" ∷ codes "file2" ∷ []) d1 []

  unfoldable pub child_1_stores : Text → Directory → Option Directory
  unfolding unpack_message
  child_1_stores rmsg d1 = elim (unpack_message rmsg d1) [ none ↦ none | some r ↦ some r.0 ]

  unfoldable pub child_2_sends : Directory → Text × Bool
  unfolding pack
  child_2_sends d2 =
      pack (codes "Error in read ") (codes "d2") (codes "file3" ∷ codes "file4" ∷ []) d2 []

  -- The message to the first child, and the directory.
  unfoldable pub child_2 : Text → Directory → Option (Text × Directory)
  unfolding unpack_message child_2_sends
  child_2 rmsg d2 = elim (unpack_message rmsg d2) [
    | none ↦ none
    | some (d, some file) ↦ some (codes "Error in create d2/" ++ file, d)
    | some (d, none) ↦ some ((child_2_sends d).0, d)
  ]

  -- Both children: the first leaves its directory when it could not read a file.
  unfoldable pub merge : Directory → Directory → Option (Directory × Directory)
  unfolding child_1_sends child_1_stores child_2 delivered
  merge d1 d2 = do
    let (msg1, complete) = child_1_sends d1
    rmsg2 ← delivered msg1
    (msg2, new2) ← child_2 rmsg2 d2
    elim complete [
      | true ↦ do rmsg1 ← delivered msg2; new1 ← child_1_stores rmsg1 d1; some (new1, new2)
      | false ↦ some (d1, new2)
    ]

-- The files that the program makes.
unfoldable pub start_1 : Directory
start_1 = (codes "file1", codes "jaya_krishna\n") ∷ (codes "file2", codes "Raja_Gopal\n") ∷ []

unfoldable pub start_2 : Directory
start_2 =
    (codes "file3", codes "Chenna_Keshava\n") ∷ (codes "file4", codes "Souhardya_Halder\n") ∷ []
