-- ===== src/Samplestore/Files.antt =====
-- What `write`, `close` and `shm_open` of src/samplestore.c do to the files.
use sflow_toolkit.Base.{
  ℕ, ◌≡◌, refl, ap, true, false, some, List, [], ◌∷◌, ◌++◌, ◌==◌, length, length-append, arith, sym,
}
use sflow_toolkit.Bytes.{Bytes}
use sflow_toolkit.Util.{same}
use sflow_toolkit.Util.Texts.{same_refl}
use sflow_toolkit.Samplestore.{FileSystem, Stored, write, write_at}

write_at-end : (xs : List Stored) (x : Stored) → write_at (length xs) x xs ≡ xs ++ (x ∷ [])
unfolding write_at
write_at-end [] x = refl
write_at-end (y ∷ xs) x = ap (λ t. y ∷ t) (write_at-end xs x)

-- The descriptor `fd` writes at the end of the file `text`, which holds `xs`.
pub record IsAtEnd (fd : ℕ) (text : Bytes) (xs : List Stored) (fs : FileSystem) : Type 0 where
  pub opened : fs.opened fd ≡ some (record { file = text; offset = length xs })
  pub contents : fs.contents text ≡ xs

-- The two file systems differ in the file `text` only.
abbrev pub AgreesBut : Bytes → FileSystem → FileSystem → Type 0
AgreesBut text fs fs' =
    (name : Bytes) → same name text ≡ false → fs'.contents name ≡ fs.contents name

module _ (fd : ℕ) (text : Bytes) (xs : List Stored) (x : Stored) (fs : FileSystem) where
  pub write-IsAtEnd : IsAtEnd fd text xs fs → IsAtEnd fd text (xs ++ (x ∷ [])) (write fd x fs)
  unfolding write
  write-IsAtEnd at =
      let eq : (fd == fd) ≡ true = ground arith in
      record {
        opened =
            rw (at.opened, write)
              (rw eq (
                ap (λ n. some (record { file = text; offset = n }))
                  (sym (length-append xs (x ∷ [])))));
        contents = rw (at.opened, write) (rw (same_refl text, at.contents) (write_at-end xs x));
      }

  pub write-AgreesBut : IsAtEnd fd text xs fs → AgreesBut text fs (write fd x fs)
  unfolding write
  write-AgreesBut at name other = rw (at.opened, write) (rw other refl)
