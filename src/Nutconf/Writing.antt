-- ===== src/Nutconf/Writing.antt =====
-- WriteFiles of internal/nutconf/nutconf.go: the rendered files are written into a directory. The file system
-- is a parameter, with `S` for its state and `E` for its errors.
use nut_dog.Prelude.{
  ℕ, ◌≡◌, refl, sym, subst, ◌∙◌, false, Option, none, some, List, [], ◌∷◌, arith, All, All-of_In,
  All-map_of, codes, ◌≢◌, ◌⊎◌, Text, ◌==◌, eq_iff, eq_refl, Dict, has, IsDistinct, if◌then◌else◌,
}
use nut_dog.GoStrings.Paths.{join_path}
use nut_dog.Nutconf.{file_mode}

-- os.MkdirAll and os.WriteFile
pub record FileSystem (E S : Type 0) : Type 0 where
  pub mkdir_all : Text → ℕ → S → Option E × S
  pub write_file : (path content : Text) → ℕ → S → Option E × S

pub data WriteError (E : Type 0) : Type 0 where
  mkdir_failed : E → WriteError E
  write_failed : Text → E → WriteError E

-- The paths of the files.
abbrev pub paths_in : Text → Dict Text → List Text
paths_in dir [] = []
paths_in dir ((name, content) ∷ files) = join_path dir name ∷ paths_in dir files

-- The mode that a file of this name is to get.
abbrev pub AsksMode : Text → ℕ → Type 0
AsksMode name mode =
    ((name ≡ codes "ups.conf" ⊎ name ≡ codes "upsd.users") × (mode ≡ 416))
    ⊎ ((name ≢ codes "ups.conf") × (name ≢ codes "upsd.users") × (mode ≡ 420))

file_mode_exact : (name : Text) → AsksMode name (file_mode name)
unfolding file_mode
file_mode_exact name =
    ground (arith, eq_iff name (codes "ups.conf"), eq_iff name (codes "upsd.users"))

module _ {E S : Type 0} (fs : FileSystem E S) where
  -- The next round of the loop, unless there was an error.
  abbrev pub after_write :
      Text → (S → Option (WriteError E) × S) → Option E × S → Option (WriteError E) × S
  after_write name next (some e, s) = (some (write_failed name e), s)
  after_write name next (none, s) = next s

  -- The loop of `WriteFiles`.
  unfoldable pub write_each : Text → Dict Text → S → Option (WriteError E) × S
  unfolding join_path file_mode
  write_each dir [] s = (none, s)
  write_each dir ((name, content) ∷ files) s =
      after_write name (write_each dir files)
        (fs.write_file (join_path dir name) content (file_mode name) s)

  abbrev pub after_mkdir :
      (S → Option (WriteError E) × S) → Option E × S → Option (WriteError E) × S
  after_mkdir next (some e, s) = (some (mkdir_failed e), s)
  after_mkdir next (none, s) = next s

  -- WriteFiles; the mode of the directory is 0o755
  unfoldable pub write_files : Text → Dict Text → S → Option (WriteError E) × S
  unfolding write_each
  write_files dir files s = after_mkdir (write_each dir files) (fs.mkdir_all dir 493 s)

  -- The documented behaviour of the file system, where `at` is what a path holds, with its mode, and `masked`
  -- takes the umask from a mode: a directory that is made changes no file, and a write that succeeds leaves
  -- its content at its path, with the mode of a file that was there and the given mode, masked, of a new one.
  module _ (at : S → Text → Option (Text × ℕ)) (masked : ℕ → ℕ) where
    abbrev pub mode_after : Option (Text × ℕ) → ℕ → ℕ
    mode_after none mode = masked mode
    mode_after (some (content, old)) mode = old

    abbrev pub KeepsFiles : Type 0
    KeepsFiles =
        ((dir : Text) (mode : ℕ) (s : S) (q : Text) → at (fs.mkdir_all dir mode s).1 q ≡ at s q)
        × ((path content : Text) (mode : ℕ) (s : S) (q : Text)
            → (fs.write_file path content mode s).0 ≡ none
            → at (fs.write_file path content mode s).1 q
              ≡ (if path == q then some (content, mode_after (at s path) mode) else at s q))

    module _ (honest : KeepsFiles) where
      -- What comes out of a round.
      after_write_inv :
          (name : Text) (next : S → Option (WriteError E) × S) (r : Option E × S)
          → (after_write name next r).0 ≡ none
          → (r.0 ≡ none) × (after_write name next r ≡ next r.1)
      after_write_inv name next (some e, s) h = absurd (ground arith)
      after_write_inv name next (none, s) h = (refl, refl)

      write_each_other :
          (dir : Text) (files : Dict Text) (s : S) (q : Text)
          → (write_each dir files s).0 ≡ none
          → has q (paths_in dir files) ≡ false
          → at (write_each dir files s).1 q ≡ at s q
      unfolding write_each has
      write_each_other dir [] s q h k = refl
      write_each_other dir ((name, content) ∷ files) s q h k =
          let path = join_path dir name in
          let r = fs.write_file path content (file_mode name) s in
          let (written, same) = after_write_inv name (write_each dir files) r h in
          rw same (
            write_each_other dir files r.1 q (rw (← same) h) (ground (arith, k))
            ∙ ground (arith, k, honest.1 path content (file_mode name) s q written))

      -- What stays of what the paths held, when another path is written.
      kept_elsewhere :
          (dir path content : Text) (mode : ℕ) (s : S) (old : Text → Option (Text × ℕ))
          (files : Dict Text)
          → (fs.write_file path content mode s).0 ≡ none
          → has path (paths_in dir files) ≡ false
          → All (λ f. at s (join_path dir f.0) ≡ old (join_path dir f.0)) files
          → All
              (λ f.
                at (fs.write_file path content mode s).1 (join_path dir f.0)
                ≡ old (join_path dir f.0))
              files
      unfolding has
      kept_elsewhere dir path content mode s old [] written k h = tt
      kept_elsewhere dir path content mode s old ((name, c) ∷ files) written k h = (
        ground (
          arith,
          h.0,
          k,
          honest.1 path content mode s (join_path dir name) written,
          eq_iff path (join_path dir name),
          eq_iff (join_path dir name) path,
        ),
        kept_elsewhere dir path content mode s old files written (ground (arith, k)) h.1,
      )

      -- The files of the map, at their paths, with the modes that they get.
      abbrev AreWritten : Text → Dict Text → (Text → Option (Text × ℕ)) → S → Type 0
      AreWritten dir files old s =
          All
            (λ f.
              at s (join_path dir f.0)
              ≡ some (f.1, mode_after (old (join_path dir f.0)) (file_mode f.0)))
            files

      write_each_written :
          (dir : Text) (files : Dict Text) (s : S) (old : Text → Option (Text × ℕ))
          → (write_each dir files s).0 ≡ none
          → IsDistinct (paths_in dir files)
          → All (λ f. at s (join_path dir f.0) ≡ old (join_path dir f.0)) files
          → AreWritten dir files old (write_each dir files s).1
      unfolding write_each
      write_each_written dir [] s old h k was = tt
      write_each_written dir ((name, content) ∷ files) s old h k was =
          let path = join_path dir name in
          let r = fs.write_file path content (file_mode name) s in
          let (written, same) = after_write_inv name (write_each dir files) r h in
          let next : (write_each dir files r.1).0 ≡ none = rw (← same) h in
          let rest =
            write_each_written dir files r.1 old next k.1
              (kept_elsewhere dir path content (file_mode name) s old files written k.0 was.1) in
          let first =
            write_each_other dir files r.1 path next k.0
            ∙ ground (
              arith,
              was.0,
              eq_refl path,
              honest.1 path content (file_mode name) s path written,
            ) in
          subst (λ o. AreWritten dir ((name, content) ∷ files) old o.1) (sym same) (first, rest)

      after_mkdir_inv :
          (next : S → Option (WriteError E) × S) (r : Option E × S)
          → (after_mkdir next r).0 ≡ none
          → after_mkdir next r ≡ next r.1
      after_mkdir_inv next (some e, s) h = absurd (ground arith)
      after_mkdir_inv next (none, s) h = refl

      -- If `WriteFiles` succeeds, every file of the map is at its path in the directory with its content; a file that
      -- was not there before has mode 0640 (416) where its name is ups.conf or upsd.users and 0644 (420) otherwise, less the
      -- umask, but one that was there keeps its mode; and no other path is changed. The paths are to be distinct.
      pub write_files_lem :
          (dir : Text) (files : Dict Text) (s : S)
          → (write_files dir files s).0 ≡ none
          → IsDistinct (paths_in dir files)
          → All
              (λ f.
                (mode : ℕ) × AsksMode f.0 mode
                × (at (write_files dir files s).1 (join_path dir f.0)
                    ≡ some (f.1, mode_after (at s (join_path dir f.0)) mode)))
              files
            × ((q : Text)
                → has q (paths_in dir files) ≡ false
                → at (write_files dir files s).1 q ≡ at s q)
      unfolding write_files
      write_files_lem dir files s h k =
          let r = fs.mkdir_all dir 493 s in
          let same = after_mkdir_inv (write_each dir files) r h in
          let next : (write_each dir files r.1).0 ≡ none = rw (← same) h in
          rw same (
            All-map_of (λ f written. (file_mode f.0, file_mode_exact f.0, written)) files
                (write_each_written dir files r.1 (at s) next k
                  (All-of_In _ files (λ f m. honest.0 dir 493 s (join_path dir f.0)))),
            λ q other. write_each_other dir files r.1 q next other ∙ honest.0 dir 493 s q,
          )
