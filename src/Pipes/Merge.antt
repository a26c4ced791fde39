-- ===== src/Pipes/Merge.antt =====
-- Both children: the directories afterwards, and what a file that is missing leads to.
use network_os_simulation.Shared.{
  ◌≡◌, refl, ap, ◌∙◌, suc, List, [], ◌∷◌, ◌++◌, map, Option, none, some, Bool, true, length, ◌<◌,
  ◌≤◌, arith, length-append, ◌>>=◌, ite,
}
use network_os_simulation.Shared.Text.{Text, codes, text_discrete}
use network_os_simulation.Shared.Dict.{lookup, lookup-insert}
use network_os_simulation.Shared.Buffers.{c_string-NoNul}
use network_os_simulation.Pipes.{
  Directory, delivered, pack, unpack_message, child_1_sends, child_1_stores, child_2_sends, child_2,
  merge,
}
use network_os_simulation.Pipes.Unpack.{write_word}
use network_os_simulation.Pipes.Pack.{
  Entry, Holds, Plain, text_of, text_of-NoNul, write_all, pack-Holds, unpack-text_of,
  delivered-NoNul,
}

abbrev pub firsts : Text → Text → List Entry
firsts one two = (codes "file1", one) ∷ (codes "file2", two) ∷ []

abbrev pub seconds : Text → Text → List Entry
seconds three four = (codes "file3", three) ∷ (codes "file4", four) ∷ []

length-text_of : (es : List Entry) → length es ≤ length (text_of es)
length-text_of [] = omega arith
length-text_of ((file, word) ∷ es) = omega (
  arith,
  length-text_of es,
  length-append file (32 ∷ (word ++ (10 ∷ 10 ∷ text_of es))),
  length-append word (10 ∷ 10 ∷ text_of es),
)

module _ (can_create : Text → Bool) where
  delivered-text_of :
      (es : List Entry)
      → Plain can_create es
      → length (text_of es) < 4096
      → delivered (text_of es) ≡ some (text_of es)
  delivered-text_of es p h =
      let clean = text_of-NoNul can_create es p in
      delivered-NoNul (text_of es) clean h ∙ ap some (c_string-NoNul (text_of es) clean)

  unpack_message-text_of :
      (es : List Entry) (d : Directory)
      → Plain can_create es
      → unpack_message can_create (text_of es) d ≡ some (write_all es d, none)
  unfolding unpack_message
  unpack_message-text_of es d p =
      unpack-text_of can_create (suc (length (text_of es))) es (text_of es) d p
        (omega (arith, length-text_of es)) refl

  -- For files that hold one word and a line feed each, with words without NUL, names that can be
  -- created and a message shorter than 4096 bytes: the message arrives whole, and the loop over
  -- its words writes every file with its text.
  pub unpack_message-pack :
      (error path : Text) (es : List Entry) (d other : Directory)
      → Holds d es
      → Plain can_create es
      → length (text_of es) < 4096
      → (delivered (pack error path (map (λ e. e.0) es) d []).0 ≡ some (text_of es))
        × (unpack_message can_create (text_of es) other ≡ some (write_all es other, none))
  unpack_message-pack error path es d other holds p h = (
    ap (λ r. delivered r.0) (pack-Holds error path es d [] holds) ∙ delivered-text_of es p h,
    unpack_message-text_of es other p,
  )

  child_1_sends-Holds :
      (one two : Text) (d1 : Directory)
      → Holds d1 (firsts one two)
      → child_1_sends can_create d1 ≡ (text_of (firsts one two), true)
  unfolding child_1_sends
  child_1_sends-Holds one two d1 h =
      pack-Holds (codes "Error: failed to read ") (codes "d1") (firsts one two) d1 [] h

  child_2_sends-Holds :
      (three four : Text) (d2 : Directory)
      → Holds d2 (seconds three four)
      → child_2_sends can_create d2 ≡ (text_of (seconds three four), true)
  unfolding child_2_sends
  child_2_sends-Holds three four d2 h =
      pack-Holds (codes "Error in read ") (codes "d2") (seconds three four) d2 [] h

  pub child_2-written :
      (rmsg : Text) (d2 new : Directory)
      → unpack_message can_create rmsg d2 ≡ some (new, none)
      → child_2 can_create rmsg d2 ≡ some ((child_2_sends can_create new).0, new)
  unfolding child_2
  child_2-written rmsg d2 new e =
      ap
        (λ o. elim o as (λ x. Option (Text × Directory)) [
          | none ↦ none
          | some (d, some file) ↦ some (codes "Error in create d2/" ++ file, d)
          | some (d, none) ↦ some ((child_2_sends can_create d).0, d)
        ])
        e

  -- What two written files leave.
  lookup-write_all :
      (q f g x y : Text) (d : Directory)
      → lookup text_discrete q (write_all ((f, x) ∷ (g, y) ∷ []) d)
        ≡ ite
            (text_discrete q g)
            (some (y ++ codes "\n"))
            (ite (text_discrete q f) (some (x ++ codes "\n")) (lookup text_discrete q d))
  lookup-write_all q f g x y d =
      lookup-insert text_discrete q g (y ++ codes "\n") (write_word f x d)
      ∙ ap (ite (text_discrete q g) (some (y ++ codes "\n")))
          (lookup-insert text_discrete q f (x ++ codes "\n") d)

  Holds-firsts :
      (one two three four : Text) (d2 : Directory)
      → Holds d2 (seconds three four)
      → Holds (write_all (firsts one two) d2) (firsts one two ++ seconds three four)
  unfolding text_discrete
  Holds-firsts one two three four d2 h =
      let at = λ (q : Text). lookup-write_all q (codes "file1") (codes "file2") one two d2 in
      (
        at (codes "file1"),
        (at (codes "file2"), (at (codes "file3") ∙ h.0, (at (codes "file4") ∙ h.1.0, tt))),
      )

  Holds-seconds :
      (one two three four : Text) (d1 : Directory)
      → Holds d1 (firsts one two)
      → Holds (write_all (seconds three four) d1) (firsts one two ++ seconds three four)
  unfolding text_discrete
  Holds-seconds one two three four d1 h =
      let at = λ (q : Text). lookup-write_all q (codes "file3") (codes "file4") three four d1 in
      (
        at (codes "file1") ∙ h.0,
        (at (codes "file2") ∙ h.1.0, (at (codes "file3"), (at (codes "file4"), tt))),
      )

  child_2-text_of :
      (one two three four : Text) (d2 : Directory)
      → Plain can_create (firsts one two)
      → Holds d2 (seconds three four)
      → child_2 can_create (text_of (firsts one two)) d2
        ≡ some (text_of (seconds three four), write_all (firsts one two) d2)
  child_2-text_of one two three four d2 p h =
      let new = write_all (firsts one two) d2 in
      child_2-written (text_of (firsts one two)) d2 new
        (unpack_message-text_of (firsts one two) d2 p)
      ∙ ap (λ r. some (r.0, new))
          (child_2_sends-Holds three four new (Holds-firsts one two three four d2 h).1.1)

  child_1_stores-text_of :
      (es : List Entry) (d1 : Directory)
      → Plain can_create es
      → child_1_stores can_create (text_of es) d1 ≡ some (write_all es d1)
  unfolding child_1_stores
  child_1_stores-text_of es d1 p =
      ap (λ o. elim o as (λ x. Option Directory) [ none ↦ none | some r ↦ some r.0 ])
        (unpack_message-text_of es d1 p)

  merge_steps :
      (msg1 msg2 rmsg1 rmsg2 : Text) (d1 d2 new1 new2 : Directory)
      → child_1_sends can_create d1 ≡ (msg1, true)
      → delivered msg1 ≡ some rmsg2
      → child_2 can_create rmsg2 d2 ≡ some (msg2, new2)
      → delivered msg2 ≡ some rmsg1
      → child_1_stores can_create rmsg1 d1 ≡ some new1
      → merge can_create d1 d2 ≡ some (new1, new2)
  unfolding merge
  merge_steps msg1 msg2 rmsg1 rmsg2 d1 d2 new1 new2 sends there answers back stores =
      rw (merge, sends, ◌>>=◌, there, answers, back, stores)

  merge_end :
      (one two three four : Text) (d1 d2 : Directory)
      → Holds d1 (firsts one two)
      → Holds d2 (seconds three four)
      → Plain can_create (firsts one two)
      → Plain can_create (seconds three four)
      → length (text_of (firsts one two)) < 4096
      → length (text_of (seconds three four)) < 4096
      → merge can_create d1 d2
        ≡ some (write_all (seconds three four) d1, write_all (firsts one two) d2)
  merge_end one two three four d1 d2 h k p q short brief =
      let msg1 = text_of (firsts one two) in
      let msg2 = text_of (seconds three four) in
      merge_steps msg1 msg2 msg2 msg1 d1 d2 (write_all (seconds three four) d1)
        (write_all (firsts one two) d2) (child_1_sends-Holds one two d1 h)
        (delivered-text_of (firsts one two) p short) (child_2-text_of one two three four d2 p k)
        (delivered-text_of (seconds three four) q brief)
        (child_1_stores-text_of (seconds three four) d1 q)

  -- Where each of the four files holds one word and a line feed, the words have no NUL, the files
  -- can be created and the messages are shorter than 4096 bytes, both children come to the end,
  -- and both directories hold all four files with their texts.
  pub merge-Holds :
      (one two three four : Text) (d1 d2 : Directory)
      → Holds d1 (firsts one two)
      → Holds d2 (seconds three four)
      → Plain can_create (firsts one two)
      → Plain can_create (seconds three four)
      → length (text_of (firsts one two)) < 4096
      → length (text_of (seconds three four)) < 4096
      → (new1 : Directory) × (new2 : Directory) × (merge can_create d1 d2 ≡ some (new1, new2))
        × Holds new1 (firsts one two ++ seconds three four)
        × Holds new2 (firsts one two ++ seconds three four)
  merge-Holds one two three four d1 d2 h k p q short brief = (
    _,
    _,
    merge_end one two three four d1 d2 h k p q short brief,
    Holds-seconds one two three four d1 h,
    Holds-firsts one two three four d2 k,
  )
