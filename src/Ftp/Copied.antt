-- ===== src/Ftp/Copied.antt =====
-- What it means that the files of a listing are copied from one side to the other.
use network_os_simulation.Shared.{
  ◌≡◌, ◌≢◌, refl, ap, ◌∙◌, ℕ, List, [], ◌∷◌, none, some, arith, subst, inl, inr, In, if_pos, if_neg,
}
use network_os_simulation.Shared.Text.{Text, text_discrete}
use network_os_simulation.Shared.Dict.{lookup, lookup-insert}
use network_os_simulation.Ftp.Client.{
  Files, file, with_file, without_file, temp_file, printed, with_listing,
}
use network_os_simulation.Ftp.Fetch.{contents}

pub contents-some :
    (name : Text) (bytes : List ℕ) (files : Files)
    → file name files ≡ some bytes
    → contents name files ≡ bytes
contents-some name bytes files e = ap (λ o. elim o [ none ↦ [] | some bs ↦ bs ]) e

-- One file is copied from a side to the other; a file without bytes is not.
abbrev pub copy_bytes : Text → List ℕ → Files → Files
copy_bytes name [] to = to
copy_bytes name (b ∷ bs) to = with_file name (b ∷ bs) to

abbrev pub copied : List Text → Files → Files → Files
copied [] from to = to
copied (name ∷ names) from to = copied names from (copy_bytes name (contents name from) to)

-- The listed files are what they are on the side they come from, the others what they were.
pub record Copied (names : List Text) (from to result : Files) : Type 0 where
  pub listed :
      (q : Text) (b : ℕ) (bs : List ℕ)
      → In q names
      → contents q from ≡ b ∷ bs
      → file q result ≡ some (b ∷ bs)
  pub others : (q : Text) → (In q names → ⊥) → file q result ≡ file q to

pub file-with_file_same :
    (q : Text) (bytes : List ℕ) (files : Files) → file q (with_file q bytes files) ≡ some bytes
file-with_file_same q bytes files =
    lookup-insert text_discrete q q bytes files ∙ if_pos (text_discrete q q) refl _ _

file-with_file_other :
    (q name : Text) (bytes : List ℕ) (files : Files)
    → q ≢ name
    → file q (with_file name bytes files) ≡ file q files
file-with_file_other q name bytes files e =
    lookup-insert text_discrete q name bytes files ∙ if_neg (text_discrete q name) e _ _

pub file-without_file_same : (q : Text) (files : Files) → file q (without_file q files) ≡ none
unfolding without_file lookup
file-without_file_same q [] = refl
file-without_file_same q ((name, bytes) ∷ files) = ground (arith, file-without_file_same q files)

file-without_file_other :
    (q name : Text) (files : Files) → q ≢ name → file q (without_file name files) ≡ file q files
unfolding without_file lookup
file-without_file_other q name [] ne = refl
file-without_file_other q name ((other, bytes) ∷ files) ne =
    ground (arith, file-without_file_other q name files ne)

-- What is left of the files after a listing was written and removed.
pub record Cleared (before after : Files) : Type 0 where
  pub removed : file temp_file after ≡ none
  pub others : (q : Text) → q ≢ temp_file → file q after ≡ file q before

pub listing-Cleared :
    (names : List Text) (files : Files)
    → Cleared files (without_file temp_file (with_listing names files))
listing-Cleared names files = record {
  removed = file-without_file_same temp_file (with_listing names files);
  others = λ q ne.
      file-without_file_other q temp_file (with_listing names files) ne
      ∙ file-with_file_other q temp_file (printed names) files ne;
}

file-copy_bytes :
    (q name : Text) (bytes : List ℕ) (to : Files)
    → q ≢ name
    → file q (copy_bytes name bytes to) ≡ file q to
file-copy_bytes q name [] to e = refl
file-copy_bytes q name (b ∷ bs) to e = file-with_file_other q name (b ∷ bs) to e

file-copy_bytes_same :
    (q name : Text) (b : ℕ) (bs : List ℕ) (from to : Files)
    → q ≡ name
    → contents q from ≡ b ∷ bs
    → file q (copy_bytes name (contents name from) to) ≡ some (b ∷ bs)
file-copy_bytes_same q name b bs from to same there =
    subst (λ n. file q (copy_bytes n (contents n from) to) ≡ some (b ∷ bs)) same
      (ap (λ bytes. file q (copy_bytes q bytes to)) there ∙ file-with_file_same q (b ∷ bs) to)

copied-out :
    (names : List Text) (from to : Files) (q : Text)
    → (In q names → ⊥)
    → file q (copied names from to) ≡ file q to
copied-out [] from to q out = refl
copied-out (name ∷ names) from to q out =
    copied-out names from (copy_bytes name (contents name from) to) q (λ i. out (inr i))
    ∙ file-copy_bytes q name (contents name from) to (λ e. out (inl e))

-- A file that is there with its bytes stays.
copied-kept :
    (names : List Text) (from to : Files) (q : Text) (b : ℕ) (bs : List ℕ)
    → contents q from ≡ b ∷ bs
    → file q to ≡ some (b ∷ bs)
    → file q (copied names from to) ≡ some (b ∷ bs)
copied-kept [] from to q b bs there e = e
copied-kept (name ∷ names) from to q b bs there e = elim (text_discrete q name) [
  | yes same ↦
      copied-kept names from (copy_bytes name (contents name from) to) q b bs there
        (file-copy_bytes_same q name b bs from to same there)
  | no other ↦
      copied-kept names from (copy_bytes name (contents name from) to) q b bs there
        (file-copy_bytes q name (contents name from) to other ∙ e)
]

copied-in :
    (names : List Text) (from to : Files) (q : Text) (b : ℕ) (bs : List ℕ)
    → In q names
    → contents q from ≡ b ∷ bs
    → file q (copied names from to) ≡ some (b ∷ bs)
copied-in [] from to q b bs i there = elim i [ ]
copied-in (name ∷ names) from to q b bs (inl same) there =
    copied-kept names from (copy_bytes name (contents name from) to) q b bs there
      (file-copy_bytes_same q name b bs from to same there)
copied-in (name ∷ names) from to q b bs (inr i) there =
    copied-in names from (copy_bytes name (contents name from) to) q b bs i there

pub copied-Copied :
    (names : List Text) (from to : Files) → Copied names from to (copied names from to)
copied-Copied names from to = record {
  listed = copied-in names from to;
  others = copied-out names from to;
}
