-- ===== src/Pipes/Unpack.antt =====
-- The loop over the words of a message: what a turn does, and that the loop ends.
use network_os_simulation.Shared.{
  ◌≡◌, ◌∙◌, ℕ, zero, suc, ◌++◌, Option, none, some, Bool, true, false, length, ◌<◌, arith,
  Option-cases, Bool-cases, inl, inr,
}
use network_os_simulation.Shared.Text.{Text, codes, text_discrete}
use network_os_simulation.Shared.Dict.{insert}
use network_os_simulation.Shared.Words.{read_word, length-read_word}
use network_os_simulation.Pipes.{Directory, unpack}

abbrev pub write_word : Text → Text → Directory → Directory
write_word file contents d = insert text_discrete file (contents ++ codes "\n") d

module _ (can_create : Text → Bool) where
  pub unpack-end :
      (fuel : ℕ) (s : Text) (d : Directory)
      → read_word s ≡ none
      → unpack can_create (suc fuel) s d ≡ some (d, none)
  unfolding unpack
  unpack-end fuel s d e = rw (unpack, e)

  pub unpack-half :
      (fuel : ℕ) (s file r : Text) (d : Directory)
      → read_word s ≡ some (file, r)
      → read_word r ≡ none
      → unpack can_create (suc fuel) s d ≡ some (d, none)
  unfolding unpack
  unpack-half fuel s file r d e half = rw (unpack, e, half)

  pub unpack-turn :
      (fuel : ℕ) (s file r contents t : Text) (d : Directory)
      → read_word s ≡ some (file, r)
      → read_word r ≡ some (contents, t)
      → can_create file ≡ true
      → unpack can_create (suc fuel) s d ≡ unpack can_create fuel t (write_word file contents d)
  unfolding unpack
  unpack-turn fuel s file r contents t d e both can = rw (unpack, e, both, can)

  pub unpack-refused :
      (fuel : ℕ) (s file r contents t : Text) (d : Directory)
      → read_word s ≡ some (file, r)
      → read_word r ≡ some (contents, t)
      → can_create file ≡ false
      → unpack can_create (suc fuel) s d ≡ some (d, some file)
  unfolding unpack
  unpack-refused fuel s file r contents t d e both cannot = rw (unpack, e, both, cannot)

  -- The loop over the words of a message ends, for every message, with more fuel than the message
  -- has bytes.
  pub unpack-ends :
      (fuel : ℕ) (s : Text) (d : Directory)
      → length s < fuel
      → (r : Directory × Option Text) × (unpack can_create fuel s d ≡ some r)
  unpack-ends zero s d h = elim h [ ]
  unpack-ends (suc fuel) s d h = elim (Option-cases (read_word s)) [
    | inl e ↦ ((d, none), unpack-end fuel s d e)
    | inr ((file, r), e) ↦ elim (Option-cases (read_word r)) [
      | inl half ↦ ((d, none), unpack-half fuel s file r d e half)
      | inr ((contents, t), both) ↦ elim (Bool-cases (can_create file)) [
        | inl can ↦
            let shorter = length-read_word s file r e in
            let shorter_still = length-read_word r contents t both in
            let (end, ends) = unpack-ends fuel t (write_word file contents d) (omega arith) in
            (end, unpack-turn fuel s file r contents t d e both can ∙ ends)
        | inr cannot ↦ ((d, some file), unpack-refused fuel s file r contents t d e both cannot)
      ]
    ]
  ]
